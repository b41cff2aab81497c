-- ===== src/Directory/Members.antt =====
-- group_directory.cpp: each call changes the membership of one user in one group.
use e2ee_windows.Common.{
  ◌≡◌, refl, false, ◌&&◌, ◌||◌, not, List, [], ◌∷◌, Bytes, same, same_iff, arith,
}
use e2ee_windows.Common.Dict.{find, find-put, or_default}
use e2ee_windows.Directory.{
  GroupDirectory, contains, insert, remove, add_member, remove_member, has_member,
}

contains_empty : (v : Bytes) → contains v [] ≡ false
unfolding contains
contains_empty v = refl

pub contains-insert :
    (u v : Bytes) (vs : List Bytes) → contains v (insert u vs) ≡ (same u v || contains v vs)
unfolding insert contains
contains-insert u v vs = ground (arith, same_iff u v)

pub contains-remove :
    (u v : Bytes) (vs : List Bytes) → contains v (remove u vs) ≡ (not (same u v) && contains v vs)
unfolding contains remove
contains-remove u v [] = ground arith
contains-remove u v (w ∷ vs) =
    ground (arith, contains-remove u v vs, same_iff w u, same_iff w v, same_iff u v)

-- Adding a user answers whether the user is new, and makes exactly that user a member of exactly that group.
pub has_member-add_member :
    (d : GroupDirectory) (g h u v : Bytes)
    → ((add_member d g u).1 ≡ not (has_member d g u))
      × (has_member (add_member d g u).0 h v ≡ ((same g h && same u v) || has_member d h v))
unfolding add_member has_member
has_member-add_member d g h u v =
    let set = or_default [] (find g d) in
    ground (
      arith,
      contains_empty u,
      contains_empty v,
      find-put g h (insert u set) d,
      contains-insert u v set,
      same_iff g h,
    )

-- Removing a user answers whether the user was a member, and takes exactly that user out of exactly
-- that group.
pub has_member-remove_member :
    (d : GroupDirectory) (g h u v : Bytes)
    → ((remove_member d g u).1 ≡ has_member d g u)
      × (has_member (remove_member d g u).0 h v ≡ (not (same g h && same u v) && has_member d h v))
unfolding remove_member has_member
has_member-remove_member d g h u v =
    let set = or_default [] (find g d) in
    ground (arith, find-put g h (remove u set) d, contains-remove u v set, same_iff g h)
