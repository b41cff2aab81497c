-- ===== src/Protocol/Exact.antt =====
-- protocol.cpp: the readers accept nothing but what the writers write.
use e2ee_windows.Common.{
  ◌*◌, ◌^◌, ℕ, ◌+◌, ◌≤◌, ◌<◌, ◌≡◌, refl, sym, ap, ◌∙◌, Option, none, some, [], ◌∷◌, ◌++◌, arith,
  Bytes, IsByte, All, All-drop, length, drop, take, length-append, take-append-drop, length-take,
  take_all, append_assoc, drop-drop, length-drop,
}
use e2ee_windows.Common.Word.{IsU32, to_le, length-to_le}
use e2ee_windows.Protocol.{
  write_string, read_string, write_uint32, read_uint32, write_bytes, read_bytes,
}
use e2ee_windows.Protocol.Fields.{shift, read_string-append, read_uint32-append, read_bytes-append}

-- What a successful read of `s` at `off`, ending at `next`, says of the buffer.
abbrev pub IsField : Bytes → ℕ → Bytes → ℕ → Type 0
IsField bs off field next =
    (bs ≡ take off bs ++ (field ++ drop next bs)) × (next ≡ off + length field) × (next ≤ length bs)

two_bytes : (a b : ℕ) → a < 256 → b < 256 → to_le 2 (a + b * 256) ≡ a ∷ b ∷ []
unfolding to_le
two_bytes a b ha hb = ground arith

string_front :
    (xs s : Bytes) (k : ℕ)
    → All IsByte xs
    → read_string xs 0 ≡ some (s, k)
    → IsField xs 0 (write_string s []).0 k × (length s ≤ 0xffff)
unfolding read_string write_string
string_front [] s k b h = ground arith
string_front (x ∷ []) s k b h = ground arith
string_front (x ∷ y ∷ t) s k b h = ground (
  arith,
  two_bytes x y,
  take-append-drop (x + y * 256) t,
  length-take (x + y * 256) t,
  take_all s,
  length-append (to_le 2 (length s)) s,
  length-to_le 2 (length s),
)

-- From the front of what follows `off` to the whole buffer.
lift_front :
    (bs field : Bytes) (off next k : ℕ)
    → off ≤ length bs
    → next ≡ off + k
    → IsField (drop off bs) 0 field k
    → IsField bs off field next
lift_front bs field off next k h e f = (
  sym (take-append-drop off bs)
      ∙ ap (λ t. take off bs ++ t)
          (f.0 ∙ ap (λ t. field ++ t) (drop-drop k off bs ∙ ap (λ (n : ℕ). drop n bs) (sym e))),
  omega (arith, f.1),
  omega (arith, f.2, length-drop off bs),
)

at_cut :
    (bs : Bytes) (off : ℕ)
    → off ≤ length bs
    → (bs ≡ take off bs ++ drop off bs) × (length (take off bs) + 0 ≡ off)
at_cut bs off h = (sym (take-append-drop off bs), omega (arith, length-take off bs))

string_in_range :
    (bs s : Bytes) (off next : ℕ) → read_string bs off ≡ some (s, next) → off ≤ length bs
unfolding read_string
string_in_range bs s off next h = ground arith

-- A read at `off` is a read at the front of what follows.
module _ {A : Type 0} (read : Bytes → ℕ → Option (A × ℕ))
    (moves : (pre xs : Bytes) (i : ℕ)
      → read (pre ++ xs) (length pre + i) ≡ shift (length pre) (read xs i)) where
  cut :
      (bs : Bytes) (a : A) (off next : ℕ)
      → off ≤ length bs
      → read bs off ≡ some (a, next)
      → (k : ℕ) × (next ≡ off + k) × (read (drop off bs) 0 ≡ some (a, k))
  cut bs a off next h e = go (read (drop off bs) 0) refl
    where
      moved : read bs off ≡ shift (length (take off bs)) (read (drop off bs) 0)
      moved = ground (arith, at_cut bs off h, moves (take off bs) (drop off bs) 0)

      go :
          (r : Option (A × ℕ))
          → read (drop off bs) 0 ≡ r
          → (k : ℕ) × (next ≡ off + k) × (read (drop off bs) 0 ≡ some (a, k))
      go none q = absurd (ground (arith, moved))
      go (some (t, k)) q = (k, ground (arith, moved, at_cut bs off h), ground (arith, moved))

-- A string is accepted only where its own encoding stands inside the buffer: the bytes read are
-- exactly those that `WriteString` writes for it, and the new offset stands behind them.
pub read_string_exact :
    (bs s : Bytes) (off next : ℕ)
    → All IsByte bs
    → read_string bs off ≡ some (s, next)
    → IsField bs off (write_string s []).0 next × (length s ≤ 0xffff)
read_string_exact bs s off next b h =
    let inside = string_in_range bs s off next h in
    let (k, e, r) = cut read_string read_string-append bs s off next inside h in
    let front = string_front (drop off bs) s k (All-drop IsByte off bs b) r in
    (lift_front bs (write_string s []).0 off next k inside e front.0, front.1)

four_bytes :
    (a b c d : ℕ)
    → a < 256
    → b < 256
    → c < 256
    → d < 256
    → to_le 4 (a + b * 2 ^ 8 + c * 2 ^ 16 + d * 2 ^ 24) ≡ a ∷ b ∷ c ∷ d ∷ []
unfolding to_le
four_bytes a b c d ha hb hc hd = ground arith

uint32_front :
    (xs : Bytes) (v k : ℕ)
    → All IsByte xs
    → read_uint32 xs 0 ≡ some (v, k)
    → IsField xs 0 (to_le 4 v) k × IsU32 v
unfolding read_uint32
uint32_front [] v k b h = ground arith
uint32_front (p ∷ []) v k b h = ground arith
uint32_front (p ∷ q ∷ []) v k b h = ground arith
uint32_front (p ∷ q ∷ r ∷ []) v k b h = ground arith
uint32_front (p ∷ q ∷ r ∷ s ∷ t) v k b h = ground (arith, four_bytes p q r s)

uint32_in_range :
    (bs : Bytes) (v off next : ℕ) → read_uint32 bs off ≡ some (v, next) → off ≤ length bs
unfolding read_uint32
uint32_in_range bs v off next h = ground arith

-- A word is accepted only where its own four bytes stand inside the buffer.
pub read_uint32_exact :
    (bs : Bytes) (v off next : ℕ)
    → All IsByte bs
    → read_uint32 bs off ≡ some (v, next)
    → IsField bs off (write_uint32 v []) next × IsU32 v
unfolding write_uint32
read_uint32_exact bs v off next b h =
    let inside = uint32_in_range bs v off next h in
    let (k, e, r) = cut read_uint32 read_uint32-append bs v off next inside h in
    let front = uint32_front (drop off bs) v k (All-drop IsByte off bs b) r in
    (lift_front bs (to_le 4 v) off next k inside e front.0, front.1)

bytes_parts :
    (xs buf : Bytes) (k : ℕ)
    → read_bytes xs 0 ≡ some (buf, k)
    → (len : ℕ) × (n : ℕ) × (read_uint32 xs 0 ≡ some (len, n))
      × (n + len ≤ length xs)
      × (buf ≡ take len (drop n xs))
      × (k ≡ n + len)
unfolding read_bytes
bytes_parts xs buf k h = go (read_uint32 xs 0) refl
  where
    go :
        (r : Option (ℕ × ℕ))
        → read_uint32 xs 0 ≡ r
        → (len : ℕ) × (n : ℕ) × (read_uint32 xs 0 ≡ some (len, n))
          × (n + len ≤ length xs)
          × (buf ≡ take len (drop n xs))
          × (k ≡ n + len)
    go none q = absurd (ground arith)
    go (some (len, n)) q = (len, n, q, ground arith, ground arith, ground arith)

bytes_front :
    (xs buf : Bytes) (k : ℕ)
    → All IsByte xs
    → read_bytes xs 0 ≡ some (buf, k)
    → IsField xs 0 (write_bytes buf []) k × IsU32 (length buf)
unfolding write_bytes write_uint32
bytes_front xs buf k b h =
    let (len, n, q, fits, e, ek) = bytes_parts xs buf k h in
    let f = uint32_front xs len n b q in
    let size : length buf ≡ len =
      omega (arith, ap length e, length-take len (drop n xs), length-drop n xs) in
    ground (
      arith,
      length-to_le 4 len,
      length-append (to_le 4 len) buf,
      take-append-drop len (drop n xs),
      drop-drop len n xs,
      append_assoc (to_le 4 len) buf (drop k xs),
    )

bytes_in_range :
    (bs buf : Bytes) (off next : ℕ) → read_bytes bs off ≡ some (buf, next) → off ≤ length bs
unfolding read_bytes read_uint32
bytes_in_range bs buf off next h = ground arith

-- A blob is accepted only where its own encoding stands inside the buffer.
pub read_bytes_exact :
    (bs buf : Bytes) (off next : ℕ)
    → All IsByte bs
    → read_bytes bs off ≡ some (buf, next)
    → IsField bs off (write_bytes buf []) next × IsU32 (length buf)
read_bytes_exact bs buf off next b h =
    let inside = bytes_in_range bs buf off next h in
    let (k, e, r) = cut read_bytes read_bytes-append bs buf off next inside h in
    let front = bytes_front (drop off bs) buf k (All-drop IsByte off bs b) r in
    (lift_front bs (write_bytes buf []) off next k inside e front.0, front.1)
