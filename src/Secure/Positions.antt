-- ===== src/Secure/Positions.antt =====
-- class ScrambledString: what comes back, byte by byte.
use Prim.Native.Nat.{bit_xor}
use native.Mathlib.Nat.{add-zero}
use e2ee_windows.Common.{
  ℕ, zero, suc, ◌+◌, ◌-◌, leb, ◌||◌, ◌%◌, ◌^◌, ◌<◌, ◌==◌, ◌≡◌, refl, ap, ◌∙◌, Bool-cases, inl, inr,
  [], ◌∷◌, ◌++◌, Bytes, All, IsByte, if◌then◌else◌, length, ltb, get_or-append_lt, get_or-append_ge,
  length-append, take-append, take_long, drop-append, append_assoc, arith, le→ltb_false, ltb→lt,
  ltb_false→le,
}
use e2ee_windows.Common.Bits.{xor_twice}
use e2ee_windows.Common.Word.{IsU32, to_le, from_le-to_le, length-to_le}
use e2ee_windows.Storage.Wipe.{at}
use e2ee_windows.Secure.{Engine, key_byte, mask, reversed, arranged, encrypt, decrypt, set, get}

pub length-mask : (key i : ℕ) (bs : Bytes) → length (mask key i bs) ≡ length bs
unfolding mask
length-mask key i [] = refl
length-mask key i (b ∷ bs) = omega (arith, length-mask key (i + 1) bs)

at-mask :
    (key j : ℕ) (bs : Bytes) (i : ℕ)
    → i < length bs
    → at (mask key j bs) i ≡ bit_xor (at bs i) (key_byte key (j + i))
unfolding mask
at-mask key j [] i h = absurd (omega arith)
at-mask key j (b ∷ bs) zero h = rw (add-zero j) refl
at-mask key j (b ∷ bs) (suc i) h =
    at-mask key (j + 1) bs i (omega arith)
    ∙ ap (λ (n : ℕ). bit_xor (at bs i) (key_byte key n)) {x = j + 1 + i} {y = j + suc i}
        (omega arith)

length-reversed : (bs : Bytes) → length (reversed bs) ≡ length bs
unfolding reversed
length-reversed [] = refl
length-reversed (b ∷ bs) = omega (arith, length-append (reversed bs) (b ∷ []), length-reversed bs)

pub length-arranged : (perm : ℕ) (bs : Bytes) → length (arranged perm bs) ≡ length bs
unfolding arranged
length-arranged perm bs = ground (arith, length-reversed bs)

at-reversed_ge :
    (b : ℕ) (bs : Bytes) (k : ℕ)
    → at (reversed bs ++ b ∷ []) (length (reversed bs) + k) ≡ at (b ∷ []) k
at-reversed_ge b bs k = get_or-append_ge 0 (reversed bs) (b ∷ []) k

at-reversed : (bs : Bytes) (i : ℕ) → i < length bs → at (reversed bs) i ≡ at bs (length bs - 1 - i)
unfolding reversed
at-reversed [] i h = absurd (omega arith)
at-reversed (b ∷ bs) i h = elim (Bool-cases (ltb i (length bs))) [
  | inl e ↦
      let lt = ltb→lt i (length bs) e in
      get_or-append_lt 0 (reversed bs) (b ∷ []) i (omega (arith, length-reversed bs, lt))
      ∙ at-reversed bs i lt
      ∙ ap (λ (n : ℕ). at (b ∷ bs) n) {x = suc (length bs - 1 - i)} {y = suc (length bs) - 1 - i}
          (omega (arith, lt))
  | inr e ↦
      let ge = ltb_false→le i (length bs) e in
      ap (λ (n : ℕ). at (reversed bs ++ b ∷ []) n) {x = i} {y = length (reversed bs) + 0}
        (omega (arith, length-reversed bs, ge))
      ∙ at-reversed_ge b bs 0
      ∙ ap (λ (n : ℕ). at (b ∷ bs) n) {x = 0} {y = suc (length bs) - 1 - i} (omega (arith, ge))
]

-- What `decrypt` finds in the buffer that `encrypt` filled.
pub decrypt-encrypt_parts :
    (value : Bytes) (e : Engine)
    → IsU32 e.key
    → decrypt (encrypt value e) ≡ (
        let perm = (if ltb 1 (length value) then e.order % 2 else 0) in
        arranged perm (mask e.key 0 (arranged perm (mask e.key 0 value))))
unfolding decrypt encrypt
decrypt-encrypt_parts value e hk =
    let perm = (if ltb 1 (length value) then e.order % 2 else 0) in
    let body = arranged perm (mask e.key 0 value) in
    let size : length body ≡ length value =
      ground (arith, length-mask e.key 0 value, length-arranged perm (mask e.key 0 value)) in
    let small : perm < 256 ^ 4 = ground arith in
    rw
      (
        le→ltb_false (length (body ++ (to_le 4 perm ++ to_le 4 e.key))) 8 (
            omega (
              arith,
              length-append body (to_le 4 perm ++ to_le 4 e.key),
              length-append (to_le 4 perm) (to_le 4 e.key),
              length-to_le 4 perm,
              length-to_le 4 e.key,
            )),
        drop-append (length value) body (to_le 4 perm ++ to_le 4 e.key) size,
        take-append 4 (to_le 4 perm) (to_le 4 e.key) (length-to_le 4 perm),
        from_le-to_le 4 perm small,
        ← append_assoc body (to_le 4 perm) (to_le 4 e.key),
        drop-append (length value + 4) (body ++ to_le 4 perm) (to_le 4 e.key)
            (omega (arith, size, length-append body (to_le 4 perm), length-to_le 4 perm)),
        take_long 4 (to_le 4 e.key) (omega (arith, length-to_le 4 e.key)),
        from_le-to_le 4 e.key hk,
        append_assoc body (to_le 4 perm) (to_le 4 e.key),
        take-append (length value) body (to_le 4 perm ++ to_le 4 e.key) size,
      )
      refl

at-IsByte : (bs : Bytes) (i : ℕ) → All IsByte bs → at bs i < 256
at-IsByte [] i b = omega arith
at-IsByte (x ∷ bs) zero b = b.0
at-IsByte (x ∷ bs) (suc i) b = at-IsByte bs i b.1

key_byte-lt : (key i : ℕ) → key_byte key i < 256
unfolding key_byte
key_byte-lt key i = omega arith

in_place :
    (key : ℕ) (bs : Bytes) (i : ℕ)
    → i < length bs
    → All IsByte bs
    → at (mask key 0 (mask key 0 bs)) i ≡ at bs i
in_place key bs i h b =
    at-mask key 0 (mask key 0 bs) i (omega (arith, length-mask key 0 bs))
    ∙ rw (at-mask key 0 bs i h)
        (xor_twice (at bs i) (key_byte key (0 + i)) (at-IsByte bs i b) (key_byte-lt key (0 + i)))

turned :
    (key : ℕ) (bs : Bytes) (i : ℕ)
    → i < length bs
    → at (reversed (mask key 0 (reversed (mask key 0 bs)))) i
      ≡ bit_xor (bit_xor (at bs i) (key_byte key i)) (key_byte key (length bs - 1 - i))
turned key bs i h =
    let inner = reversed (mask key 0 bs) in
    let size : length inner ≡ length bs =
      omega (arith, length-reversed (mask key 0 bs), length-mask key 0 bs) in
    let j = length bs - 1 - i in
    at-reversed (mask key 0 inner) i (omega (arith, size, length-mask key 0 inner))
    ∙ ap (λ (n : ℕ). at (mask key 0 inner) n) {x = length (mask key 0 inner) - 1 - i} {y = j}
        (omega (arith, size, length-mask key 0 inner))
    ∙ at-mask key 0 inner j (omega (arith, size))
    ∙ ap (λ (n : ℕ). bit_xor n (key_byte key (0 + j)))
        (at-reversed (mask key 0 bs) j (omega (arith, length-mask key 0 bs))
          ∙ ap (λ (n : ℕ). at (mask key 0 bs) n) {x = length (mask key 0 bs) - 1 - j} {y = i}
              (omega (arith, length-mask key 0 bs))
          ∙ at-mask key 0 bs i h
          ∙ ap (λ (n : ℕ). bit_xor (at bs i) (key_byte key n)) {x = 0 + i} {y = i} (omega arith))
    ∙ ap (λ (n : ℕ). bit_xor (bit_xor (at bs i) (key_byte key i)) (key_byte key n)) {x = 0 + j}
        {y = j} (omega arith)

-- What `get` returns after `set`, byte by byte, for a key of 32 bits. A string of one byte, or one
-- that was not reversed, comes back as it was. In a string that was reversed the byte at `i` is
-- masked with key byte `i` and unmasked with key byte `len - 1 - i`.
pub at-get :
    (value : Bytes) (e e' : Engine) (i : ℕ)
    → IsU32 e.key
    → All IsByte value
    → i < length value
    → at (get (set value e) e').1 i ≡ (
        if leb (length value) 1 || e.order % 2 == 0
        then at value i
        else bit_xor
            (bit_xor (at value i) (key_byte e.key i))
            (key_byte e.key (length value - 1 - i)))
unfolding get set arranged
at-get value e e' i hk b h =
    ap (λ t. at t i) (decrypt-encrypt_parts value e hk)
    ∙ ground (arith, in_place e.key value i h b, turned e.key value i h)
