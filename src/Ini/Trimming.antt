-- ===== src/Ini/Trimming.antt =====
-- config.cpp: what `Trim` cuts off.
use e2ee_windows.Common.{
  ℕ, ◌≡◌, refl, sym, ap, ◌∙◌, true, ◌&&◌, Bytes, All, arith, [], ◌∷◌, ◌++◌, is_empty, Bool-cases,
  inl, inr,
}
use e2ee_windows.Ini.{is_space, skip_spaces, drop_spaces, trim}

abbrev pub IsSpace : ℕ → Type 0
IsSpace b = is_space b ≡ true

pub skip_spaces-append :
    (front s : Bytes) → All IsSpace front → skip_spaces (front ++ s) ≡ skip_spaces s
unfolding skip_spaces
skip_spaces-append [] s h = refl
skip_spaces-append (b ∷ front) s h = rw h.0 (skip_spaces-append front s h.1)

drop_spaces-All : (back : Bytes) → All IsSpace back → drop_spaces back ≡ []
unfolding drop_spaces
drop_spaces-All [] h = refl
drop_spaces-All (b ∷ back) h = rw (drop_spaces-All back h.1, h.0) refl

drop_spaces-append : (s back : Bytes) → All IsSpace back → drop_spaces (s ++ back) ≡ drop_spaces s
unfolding drop_spaces
drop_spaces-append [] back h = drop_spaces-All back h
drop_spaces-append (b ∷ s) back h = rw (drop_spaces, drop_spaces-append s back h) refl

skip_spaces-All : (back : Bytes) → All IsSpace back → skip_spaces back ≡ []
unfolding skip_spaces
skip_spaces-All [] h = refl
skip_spaces-All (b ∷ back) h = rw h.0 (skip_spaces-All back h.1)

-- Spaces behind change nothing but what is behind.
skip_spaces_back :
    (s back : Bytes)
    → All IsSpace back
    → drop_spaces (skip_spaces (s ++ back)) ≡ drop_spaces (skip_spaces s)
unfolding skip_spaces
skip_spaces_back [] back h = rw (skip_spaces-All back h) refl
skip_spaces_back (b ∷ s) back h = elim (Bool-cases (is_space b)) [
  | inl space ↦ rw space (skip_spaces_back s back h)
  | inr other ↦ rw other (drop_spaces-append (b ∷ s) back h)
]

-- Spaces in front of a text and behind it do not change what `Trim` makes of it.
pub trim_pad :
    (front s back : Bytes)
    → All IsSpace front
    → All IsSpace back
    → trim (front ++ (s ++ back)) ≡ trim s
unfolding trim
trim_pad front s back hf hb =
    ap drop_spaces (skip_spaces-append front (s ++ back) hf) ∙ skip_spaces_back s back hb

-- What is cut off in front.
skip_spaces_cut : (s : Bytes) → (front : Bytes) × All IsSpace front × (s ≡ front ++ skip_spaces s)
unfolding skip_spaces
skip_spaces_cut [] = ([], tt, refl)
skip_spaces_cut (b ∷ s) = elim (Bool-cases (is_space b)) [
  | inl space ↦
      let (front, h, e) = skip_spaces_cut s in (b ∷ front, (space, h), rw space (ap (λ t. b ∷ t) e))
  | inr other ↦ ([], tt, rw other refl)
]

drop_spaces_none : (s : Bytes) → is_empty (drop_spaces s) ≡ true → All IsSpace s
unfolding drop_spaces
drop_spaces_none [] h = tt
drop_spaces_none (b ∷ s) h = elim (Bool-cases (is_space b && is_empty (drop_spaces s))) [
  | inl gone ↦ (ground (arith, gone), drop_spaces_none s (ground (arith, gone)))
  | inr kept ↦ absurd (ground (arith, kept, h))
]

drop_spaces_cut : (s : Bytes) → (back : Bytes) × All IsSpace back × (s ≡ drop_spaces s ++ back)
unfolding drop_spaces
drop_spaces_cut [] = ([], tt, refl)
drop_spaces_cut (b ∷ s) = elim (Bool-cases (is_space b && is_empty (drop_spaces s))) [
  | inl gone ↦
      (b ∷ s, (ground (arith, gone), drop_spaces_none s (ground (arith, gone))), rw gone refl)
  | inr kept ↦ let (back, h, e) = drop_spaces_cut s in (back, h, rw kept (ap (λ t. b ∷ t) e))
]

-- `Trim` cuts off nothing but spaces, and leaves none at either end: it can be repeated without a change.
pub trim_lem :
    (s : Bytes)
    → (front : Bytes) × (back : Bytes) × All IsSpace front
      × All IsSpace back
      × (s ≡ front ++ (trim s ++ back))
      × (trim (trim s) ≡ trim s)
unfolding trim
trim_lem s =
    let (front, hf, ef) = skip_spaces_cut s in
    let (back, hb, eb) = drop_spaces_cut (skip_spaces s) in
    let whole : s ≡ front ++ (trim s ++ back) = ef ∙ ap (λ t. front ++ t) eb in
    (front, back, hf, hb, whole, sym (trim_pad front (trim s) back hf hb) ∙ ap trim (sym whole))
