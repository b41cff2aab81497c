-- ===== src/Secure/Handles.antt =====
-- shard/secure_types.cpp: the C functions for numbers and truth values. A handle that is null is
-- `none`; otherwise it is the buffer of its value. An integer, signed or not, and a floating-point
-- number are the numbers that their bits spell. `room` tells whether `new` finds memory, and `index`
-- is what the random engine draws. `delete` in the functions to destroy a handle has no model.
use e2ee_windows.Common.{
  ℕ, ◌==◌, ◌<◌, ◌^◌, ◌≡◌, refl, Bool, true, false, Option, none, some, [], ◌∷◌, Bytes,
  if◌then◌else◌, length, replicate,
}
use e2ee_windows.Common.Word.{to_le, from_le, from_le-to_le}
use e2ee_windows.Secure.Values
use e2ee_windows.Secure.Values.{permutations}
use e2ee_windows.Secure.Orders.{IsValue, get-encrypt}

abbrev pub Handle : Type 0
Handle = Option Bytes

-- `none` is the exception that leaves the function.
abbrev pub Got : Type 0 → Type 0
Got A = Option (A × Handle)

unfoldable pub create_value : ℕ → Bytes → ℕ → Bool → Handle
create_value n raw index room = if room then some (Values.encrypt n raw index) else none

unfoldable pub set_value : ℕ → Handle → Bytes → ℕ → Handle
set_value n none raw index = none
set_value n (some buffer) raw index = some (Values.encrypt n raw index)

unfoldable pub get_value : ℕ → Handle → ℕ → Got Bytes
get_value n none index = some (replicate n 0, none)
get_value n (some buffer) index = elim (Values.get n buffer index) [
  | none ↦ none
  | some (buffer', raw) ↦ some (raw, some buffer')
]

-- A number of `n` bytes.
unfoldable pub word_create : ℕ → ℕ → ℕ → Bool → Handle
unfolding create_value
word_create n value index room = create_value n (to_le n value) index room

unfoldable pub word_set : ℕ → Handle → ℕ → ℕ → Handle
unfolding set_value
word_set n handle value index = set_value n handle (to_le n value) index

unfoldable pub word_get : ℕ → Handle → ℕ → Got ℕ
unfolding get_value
word_get n handle index = elim (get_value n handle index) [
  | none ↦ none
  | some (raw, handle') ↦ some (from_le raw, handle')
]

unfoldable pub i32_create : ℕ → ℕ → Bool → Handle
i32_create = word_create 4

unfoldable pub i32_set : Handle → ℕ → ℕ → Handle
i32_set = word_set 4

unfoldable pub i32_get : Handle → ℕ → Got ℕ
i32_get = word_get 4

unfoldable pub u32_create : ℕ → ℕ → Bool → Handle
u32_create = word_create 4

unfoldable pub u32_set : Handle → ℕ → ℕ → Handle
u32_set = word_set 4

unfoldable pub u32_get : Handle → ℕ → Got ℕ
u32_get = word_get 4

unfoldable pub i64_create : ℕ → ℕ → Bool → Handle
i64_create = word_create 8

unfoldable pub i64_set : Handle → ℕ → ℕ → Handle
i64_set = word_set 8

unfoldable pub i64_get : Handle → ℕ → Got ℕ
i64_get = word_get 8

unfoldable pub u64_create : ℕ → ℕ → Bool → Handle
u64_create = word_create 8

unfoldable pub u64_set : Handle → ℕ → ℕ → Handle
u64_set = word_set 8

unfoldable pub u64_get : Handle → ℕ → Got ℕ
u64_get = word_get 8

unfoldable pub f32_create : ℕ → ℕ → Bool → Handle
f32_create = word_create 4

unfoldable pub f32_set : Handle → ℕ → ℕ → Handle
f32_set = word_set 4

unfoldable pub f32_get : Handle → ℕ → Got ℕ
f32_get = word_get 4

unfoldable pub f64_create : ℕ → ℕ → Bool → Handle
f64_create = word_create 8

unfoldable pub f64_set : Handle → ℕ → ℕ → Handle
f64_set = word_set 8

unfoldable pub f64_get : Handle → ℕ → Got ℕ
f64_get = word_get 8

-- The byte of `value != 0`.
abbrev pub truth : ℕ → Bytes
truth value = (if value == 0 then 0 else 1) ∷ []

unfoldable pub bool_create : ℕ → ℕ → Bool → Handle
unfolding create_value
bool_create value index room = create_value 1 (truth value) index room

unfoldable pub bool_set : Handle → ℕ → ℕ → Handle
unfolding set_value
bool_set handle value index = set_value 1 handle (truth value) index

unfoldable pub bool_get : Handle → ℕ → Got ℕ
unfolding get_value
bool_get handle index = elim (get_value 1 handle index) [
  | none ↦ none
  | some (raw, handle') ↦ some ((if from_le raw == 0 then 0 else 1), handle')
]

-- The sizes of the numbers.
pub data IsSize : ℕ → Type 0 where
  four : IsSize 4
  eight : IsSize 8

to_le-IsValue : (n v : ℕ) → IsSize n → IsValue n (to_le n v)
unfolding to_le
to_le-IsValue n v four = IsValue.four _ _ _ _
to_le-IsValue n v eight = IsValue.eight _ _ _ _ _ _ _ _

get_value-encrypt :
    (n : ℕ) (raw : Bytes) (index again : ℕ)
    → IsValue n raw
    → index < length (permutations n)
    → again < length (permutations n)
    → get_value n (some (Values.encrypt n raw index)) again
      ≡ some (raw, some (Values.encrypt n raw again))
unfolding get_value
get_value-encrypt n raw index again v lt lt' =
    rw (get_value, (get-encrypt n raw index again 0 v lt lt').0) refl

word_get-encrypt :
    (n value index again : ℕ)
    → IsSize n
    → value < 256 ^ n
    → index < length (permutations n)
    → again < length (permutations n)
    → word_get n (some (Values.encrypt n (to_le n value) index)) again
      ≡ some (value, some (Values.encrypt n (to_le n value) again))
unfolding word_get
word_get-encrypt n value index again s lt a b =
    rw
      (
        word_get,
        get_value-encrypt n (to_le n value) index again (to_le-IsValue n value s) a b,
        from_le-to_le n value lt,
      )
      refl

zeros : (n : ℕ) → IsSize n → from_le (replicate n 0) ≡ 0
unfolding from_le
zeros n four = refl
zeros n eight = refl

word_get-null : (n k : ℕ) → IsSize n → word_get n none k ≡ some (0, none)
unfolding word_get
word_get-null n k s = rw (word_get, zeros n s) refl

-- A number of four or eight bytes is got as it was created or set last, whichever orders the engine
-- chooses, and stays what it is for the next time. Without memory the handle is null, and then
-- setting does nothing and zero is got.
pub word_get-word_set :
    (n v w i j k : ℕ)
    → IsSize n
    → v < 256 ^ n
    → w < 256 ^ n
    → i < length (permutations n)
    → j < length (permutations n)
    → k < length (permutations n)
    → (word_get n (word_create n v i true) j ≡ some (v, word_create n v j true))
      × (word_get n (word_set n (word_create n v i true) w j) k ≡ some (w, word_create n w k true))
      × (word_get n (word_set n (word_create n v i false) w j) k ≡ some (0, none))
unfolding word_create word_set
word_get-word_set n v w i j k s lt lt' a b c =
    (word_get-encrypt n v i j s lt a b, word_get-encrypt n w j k s lt' b c, word_get-null n k s)
