-- ===== src/Secure/Strings.antt =====
-- shard/secure_types.cpp: the C functions for strings. A handle that is null is `none`. Memory that
-- the caller gives is the list of its bytes, or `none` for a null pointer; a string that ends with a
-- zero is the bytes before it. `room` tells whether `new` or `malloc` finds memory. `delete` and
-- `free` have no model.
use e2ee_windows.Common.{
  ℕ, ◌+◌, ◌-◌, ◌<◌, ◌≤◌, ◌≡◌, ◌∙◌, ap, Bool, true, false, Option, none, some, [], ◌∷◌, ◌++◌, Bytes,
  if◌then◌else◌, length, take, drop, ltb, arith, min, length-append, length-take, length-drop,
  take-append, drop-append, append_assoc, ◌%◌, lt→ltb,
}
use e2ee_windows.Common.Word.{IsU32}
use e2ee_windows.Secure.{ScrambledString, Engine, mask, arranged, encrypt, decrypt, set, get}
use e2ee_windows.Secure.Positions.{length-mask, length-arranged, decrypt-encrypt_parts}

abbrev pub Handle : Type 0
Handle = Option ScrambledString

unfoldable pub new_string : Bytes → Engine → Bool → Handle
new_string value e room = if room then some (encrypt value e) else none

abbrev pub or_empty : Option Bytes → Bytes
or_empty none = []
or_empty (some bs) = bs

unfoldable pub string_create : Option Bytes → Engine → Bool → Handle
unfolding new_string
string_create utf8 e room = new_string (or_empty utf8) e room

-- At `utf8` there are `len` bytes, or it is null.
unfoldable pub string_create_len : Option Bytes → ℕ → Engine → Bool → Handle
unfolding new_string
string_create_len utf8 len e room = new_string (take len (or_empty utf8)) e room

unfoldable pub string_length : Handle → ℕ
string_length none = 0
string_length (some s) = s.len

-- `true` stands for 0, and `false` for -1.
unfoldable pub string_set : Handle → Option Bytes → ℕ → Engine → Handle × Bool
string_set none utf8 len e = (none, false)
string_set (some s) none len e = (some s, false)
string_set (some s) (some bs) len e = (some (set (take len bs) e), true)

-- What is written to `out`, which has `buffer_len` bytes.
unfoldable pub copied : Bytes → Bytes → ℕ → Bytes
copied plain out buffer_len =
    let copy_len = (if ltb (buffer_len - 1) (length plain) then buffer_len - 1 else length plain) in
    if ltb 0 buffer_len then take copy_len plain ++ 0 ∷ drop (copy_len + 1) out else out

abbrev pub copied? : Bytes → Option Bytes → ℕ → Option Bytes
copied? plain none buffer_len = none
copied? plain (some out) buffer_len = some (copied plain out buffer_len)

pub record StringGot : Type 0 where
  pub handle : Handle
  pub out : Option Bytes
  pub need : ℕ

unfoldable pub string_get : Handle → Option Bytes → ℕ → Engine → StringGot
unfolding copied
string_get none out buffer_len e = record { handle = none; out = out; need = 0 }
string_get (some s) out buffer_len e =
    let (s', plain) = get s e in
    record { handle = some s'; out = copied? plain out buffer_len; need = length plain }

-- The new buffer, if there is one, and the length that `*out_len` is set to.
unfoldable pub string_clone : Handle → Engine → Bool → Handle × Option (Bytes × ℕ)
string_clone none e room = (none, none)
string_clone (some s) e room =
    let (s', plain) = get s e in
    (some s', if room then some (plain ++ 0 ∷ [], length plain) else none)

copied_parts :
    (plain out : Bytes) (copy : ℕ)
    → copy < length out
    → copy ≤ length plain
    → (let bs = take copy plain ++ 0 ∷ drop (copy + 1) out in
        (length bs ≡ length out)
        × (take (copy + 1) bs ≡ take copy plain ++ 0 ∷ [])
        × (drop (copy + 1) bs ≡ drop (copy + 1) out))
copied_parts plain out copy lt le =
    let front = take copy plain ++ 0 ∷ [] in
    let rest = drop (copy + 1) out in
    let size : length front ≡ copy + 1 =
      omega (arith, length-append (take copy plain) (0 ∷ []), length-take copy plain) in
    rw (← append_assoc (take copy plain) (0 ∷ []) rest) (
      omega (arith, length-append front rest, length-drop (copy + 1) out, size),
      take-append (copy + 1) front rest size,
      drop-append (copy + 1) front rest size,
    )

length-decrypt :
    (value : Bytes) (e : Engine) → IsU32 e.key → length (decrypt (encrypt value e)) ≡ length value
length-decrypt value e hk =
    let perm : ℕ = (if ltb 1 (length value) then e.order % 2 else 0) in
    ap (λ (t : Bytes). length t) (decrypt-encrypt_parts value e hk)
    ∙ (length-arranged perm (mask e.key 0 (arranged perm (mask e.key 0 value)))
        ∙ (length-mask e.key 0 (arranged perm (mask e.key 0 value))
            ∙ (length-arranged perm (mask e.key 0 value) ∙ length-mask e.key 0 value)))

copied-eq_min :
    (plain out : Bytes) (n : ℕ)
    → length plain ≡ n
    → 0 < length out
    → (let copy = min (length out - 1) n in
        copied plain out (length out) ≡ take copy plain ++ 0 ∷ drop (copy + 1) out)
unfolding copied
copied-eq_min plain out n e pos =
    rw (copied, lt→ltb 0 (length out) pos)
      (ap (λ (c : ℕ). take c plain ++ 0 ∷ drop (c + 1) out)
        {x = if ltb (length out - 1) (length plain) then length out - 1 else length plain}
        {y = min (length out - 1) n} (ground (arith, e)))

-- A string that was stored is copied into a buffer of the caller with the size that is given, as far
-- as there is room for it with a zero behind it; nothing is written outside of the buffer or behind
-- the zero, and the length of the whole string is returned, whatever the size.
pub string_get_bounds :
    (value out : Bytes) (e e' : Engine)
    → IsU32 e.key
    → 0 < length out
    → (let s = encrypt value e in
        let r = string_get (some s) (some out) (length out) e' in
        let copy = min (length out - 1) (length value) in
        (r.need ≡ length value)
        × (length (or_empty r.out) ≡ length out)
        × (take (copy + 1) (or_empty r.out) ≡ take copy (get s e').1 ++ 0 ∷ [])
        × (drop (copy + 1) (or_empty r.out) ≡ drop (copy + 1) out))
unfolding string_get get
string_get_bounds value out e e' hk pos =
    let plain = decrypt (encrypt value e) in
    let size : length plain ≡ length value = length-decrypt value e hk in
    let copy : ℕ = min (length out - 1) (length value) in
    rw (copied-eq_min plain out (length value) size pos) (
      let (a, b, c) = copied_parts plain out copy (omega arith) (omega (arith, size)) in
      (size, a, b, c))
