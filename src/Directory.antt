-- ===== src/Directory.antt =====
-- server/src/group_directory.cpp: who is in which group. A set of users is a list without repetition.
pub mod Members
use e2ee_windows.Common.{
  ℕ, Bool, true, false, ◌||◌, not, Option, none, some, List, [], ◌∷◌, Bytes, same, if◌then◌else◌,
}
use e2ee_windows.Common.Dict.{Dict, find, put, or_default}

abbrev pub GroupDirectory : Type 0
GroupDirectory = Dict (List Bytes)

-- `set.count(user) > 0`
unfoldable pub contains : Bytes → List Bytes → Bool
contains u [] = false
contains u (v ∷ vs) = same v u || contains u vs

-- `set.emplace(user)` and `set.erase(user)`, on the set itself.
unfoldable pub insert : Bytes → List Bytes → List Bytes
insert u vs = if contains u vs then vs else u ∷ vs

unfoldable pub remove : Bytes → List Bytes → List Bytes
remove u [] = []
remove u (v ∷ vs) = let rest = remove u vs in if same v u then rest else v ∷ rest

unfoldable pub add_member : GroupDirectory → Bytes → Bytes → GroupDirectory × Bool
add_member d group_id user =
    let set = or_default [] (find group_id d) in
    (put group_id (insert user set) d, not (contains user set))

-- The owner is a member like any other.
unfoldable pub add_group : GroupDirectory → Bytes → Bytes → GroupDirectory × Bool
add_group d group_id owner =
    let set = or_default [] (find group_id d) in
    (put group_id (insert owner set) d, not (contains owner set))

unfoldable pub remove_member : GroupDirectory → Bytes → Bytes → GroupDirectory × Bool
remove_member d group_id user = elim (find group_id d) [
  | none ↦ (d, false)
  | some set ↦ (put group_id (remove user set) d, contains user set)
]

unfoldable pub has_member : GroupDirectory → Bytes → Bytes → Bool
has_member d group_id user = elim (find group_id d) [ none ↦ false | some set ↦ contains user set ]

unfoldable pub members : GroupDirectory → Bytes → List Bytes
members d group_id = or_default [] (find group_id d)
