-- ===== src/Storage/Wipe.antt =====
-- class OfflineStorage, `WipeFile`: which bytes are overwritten before a file is removed.
use e2ee_windows.Common.{
  ℕ, ◌+◌, ◌-◌, ◌/◌, ◌≤◌, ◌<◌, ◌≡◌, Bytes, arith, ◌&&◌, ◌||◌, Bool-cases, inl, inr, ◌++◌, length,
  take, drop, length-append, length-take, length-drop, length-replicate, replicate, get_or,
  get_or-append_lt, get_or-append_ge, get_or-take, get_or-drop, get_or-replicate, if◌then◌else◌,
  ltb, leb, min, ltb→lt, ltb_false→le, le→leb, leb→le, ap, sym, ◌∙◌,
}
use e2ee_windows.Storage.{overwrite, wiped}

abbrev pub at : Bytes → ℕ → ℕ
at bs i = get_or bs i 0

length-overwrite :
    (off len : ℕ) (c : Bytes) → off + len ≤ length c → length (overwrite off len c) ≡ length c
unfolding overwrite
length-overwrite off len c h = omega (
  arith,
  length-append (take off c) (replicate len 0xff ++ drop (off + len) c),
  length-append (replicate len 0xff) (drop (off + len) c),
  length-take off c,
  length-drop (off + len) c,
  length-replicate {A = ℕ} len 0xff,
)

module _ (off len : ℕ) (c : Bytes) (h : off + len ≤ length c) where
  at_before : (i : ℕ) → i < off → at (overwrite off len c) i ≡ at c i
  unfolding overwrite
  at_before i lt =
      get_or-append_lt 0 (take off c) _ i (omega (arith, length-take off c))
      ∙ get_or-take 0 off c i lt

  at_inside : (i : ℕ) → i < len → at (overwrite off len c) (off + i) ≡ 0xff
  unfolding overwrite
  at_inside i lt =
      ap (λ (n : ℕ). at (overwrite off len c) (n + i)) {x = off} {y = length (take off c)}
        (omega (arith, length-take off c))
      ∙ get_or-append_ge 0 (take off c) _ i
      ∙ get_or-append_lt 0 (replicate len 0xff) _ i
          (omega (arith, length-replicate {A = ℕ} len 0xff))
      ∙ get_or-replicate 0 len 0xff i lt

  at_behind : (i : ℕ) → at (overwrite off len c) (off + (len + i)) ≡ at c (off + len + i)
  unfolding overwrite
  at_behind i =
      ap (λ (n : ℕ). at (overwrite off len c) (n + (len + i))) {x = off} {y = length (take off c)}
        (omega (arith, length-take off c))
      ∙ get_or-append_ge 0 (take off c) _ (len + i)
      ∙ ap (λ (n : ℕ). at (replicate len 0xff ++ drop (off + len) c) (n + i)) {x = len}
          {y = length (replicate {A = ℕ} len 0xff)}
          (omega (arith, length-replicate {A = ℕ} len 0xff))
      ∙ get_or-append_ge 0 (replicate len 0xff) _ i
      ∙ get_or-drop 0 (off + len) c i

-- Of every byte: the ones inside of the range are 0xff, the others stay.
at-overwrite :
    (off len : ℕ) (c : Bytes)
    → off + len ≤ length c
    → (i : ℕ)
    → at (overwrite off len c) i ≡ (if leb off i && ltb i (off + len) then 0xff else at c i)
at-overwrite off len c h i = elim (Bool-cases (leb off i)) [
  | inr e ↦ rw e (at_before off len c h i (ground (arith, le→leb off i)))
  | inl e ↦ elim (Bool-cases (ltb i (off + len))) [
    | inl f ↦
        let q : off + (i - off) ≡ i = omega (arith, leb→le off i e) in
        rw (e, f)
          (ap (λ (n : ℕ). at (overwrite off len c) n) (sym q)
            ∙ at_inside off len c h (i - off)
                (omega (arith, leb→le off i e, ltb→lt i (off + len) f)))
    | inr f ↦
        let g : off + len ≤ i = ltb_false→le i (off + len) f in
        let q : off + (len + (i - (off + len))) ≡ i = omega (arith, g) in
        let r : off + len + (i - (off + len)) ≡ i = omega (arith, g) in
        rw (e, f)
          (ap (λ (n : ℕ). at (overwrite off len c) n) (sym q)
            ∙ at_behind off len c h (i - (off + len))
            ∙ ap (λ (n : ℕ). at c n) r)
  ]
]

-- Before a file is removed, its first 16 bytes, its last 16 and the 16 from the middle on are
-- overwritten with 0xff, all of it if it has at most 32 bytes. The bytes between them stay.
pub at-wiped :
    (c : Bytes) (i : ℕ)
    → i < length c
    → at (wiped c) i ≡ (
        if ltb i 16
          || leb (length c) (i + 16)
          || (leb (length c / 2) i && ltb i (length c / 2 + 16))
        then 0xff
        else at c i)
unfolding wiped
at-wiped c i h =
    let size = length c in
    let w = min size 16 in
    let m = min w (size - size / 2) in
    let front = overwrite 0 w c in
    let middle = overwrite (size / 2) m front in
    let lf : length front ≡ size = length-overwrite 0 w c (omega arith) in
    let lm : length middle ≡ size = length-overwrite (size / 2) m front (omega (arith, lf)) ∙ lf in
    let af = at-overwrite 0 w c (omega arith) i in
    let am = at-overwrite (size / 2) m front (omega (arith, lf)) i in
    let al = at-overwrite (size - w) w middle (omega (arith, lm)) i in ground (arith, af, am, al)
