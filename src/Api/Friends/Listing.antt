-- ===== src/Api/Friends/Listing.antt =====
-- What `ListFriends` returns: exactly the friends, each once and with the remark, in order.
use e2ee_windows.Common.{
  ℕ, ◌+◌, if◌then◌else◌, ◌≡◌, refl, ap, ◌∙◌, Bool, true, false, not, ◌&&◌, ◌||◌, some, List, [],
  ◌∷◌, Bytes, text, same, same_iff, ok, arith,
}
use e2ee_windows.Common.Dict.{Dict, find, or_default}
use e2ee_windows.Session.{Session, SessionManager}
use e2ee_windows.Session.View.{live}
use e2ee_windows.Directory.{contains}
use e2ee_windows.Api.{ApiService}
use e2ee_windows.Api.Groups.{with_session_passes}
use e2ee_windows.Api.Friends.{Entry, name_lt, insert_entry, sort_entries, entries, list_friends}
use e2ee_windows.Api.Friends.Mutual.{is_friend}

-- Whether an entry with the given name and remark is in a list.
unfoldable pub listed : Bytes → Bytes → List Entry → Bool
listed name remark [] = false
listed name remark (e ∷ es) =
    let rest = listed name remark es in (same e.username name && same e.remark remark) || rest

-- No name is smaller than the one before it.
unfoldable pub in_order : List Entry → Bool
in_order [] = true
in_order (e ∷ []) = true
in_order (e ∷ f ∷ es) = let rest = in_order (f ∷ es) in not (name_lt f.username e.username) && rest

listed-insert_entry :
    (name remark : Bytes) (e : Entry) (es : List Entry)
    → listed name remark (insert_entry e es) ≡ listed name remark (e ∷ es)
unfolding listed insert_entry
listed-insert_entry name remark e [] = refl
listed-insert_entry name remark e (f ∷ fs) = ground (arith, listed-insert_entry name remark e fs)

listed-sort_entries :
    (name remark : Bytes) (es : List Entry)
    → listed name remark (sort_entries es) ≡ listed name remark es
unfolding listed sort_entries
listed-sort_entries name remark [] = refl
listed-sort_entries name remark (e ∷ es) =
    ground (
      arith,
      listed-insert_entry name remark e (sort_entries es),
      listed-sort_entries name remark es,
    )

-- How often an entry with the given name and remark is in a list.
unfoldable pub occurrences : Bytes → Bytes → List Entry → ℕ
occurrences name remark [] = 0
occurrences name remark (e ∷ es) =
    let rest = occurrences name remark es in
    if same e.username name && same e.remark remark then rest + 1 else rest

occurrences-insert_entry :
    (name remark : Bytes) (e : Entry) (es : List Entry)
    → occurrences name remark (insert_entry e es) ≡ occurrences name remark (e ∷ es)
unfolding occurrences insert_entry
occurrences-insert_entry name remark e [] = refl
occurrences-insert_entry name remark e (f ∷ fs) =
    ground (arith, occurrences-insert_entry name remark e fs)

pub occurrences-sort_entries :
    (name remark : Bytes) (es : List Entry)
    → occurrences name remark (sort_entries es) ≡ occurrences name remark es
unfolding occurrences sort_entries
occurrences-sort_entries name remark [] = refl
occurrences-sort_entries name remark (e ∷ es) = ground (
  arith,
  occurrences-insert_entry name remark e (sort_entries es),
  occurrences-sort_entries name remark es,
)

listed-entries :
    (name remark : Bytes) (remarks : Dict Bytes) (fs : List Bytes)
    → listed name remark (entries remarks fs)
      ≡ (contains name fs && same (or_default [] (find name remarks)) remark)
unfolding listed entries contains
listed-entries name remark remarks [] = refl
listed-entries name remark remarks (f ∷ fs) =
    ground (arith, same_iff f name, listed-entries name remark remarks fs)

name_lt_asym : (a b : Bytes) → name_lt a b ≡ true → name_lt b a ≡ false
unfolding name_lt
name_lt_asym [] [] h = cc
name_lt_asym [] (b ∷ bs) h = refl
name_lt_asym (a ∷ as') [] h = cc
name_lt_asym (a ∷ as') (b ∷ bs) h = ground (arith, name_lt_asym as' bs)

in_order-insert_entry :
    (e : Entry) (es : List Entry) → in_order es ≡ true → in_order (insert_entry e es) ≡ true
unfolding in_order insert_entry
in_order-insert_entry e [] h = refl
in_order-insert_entry e (f ∷ []) h = ground (arith, name_lt_asym f.username e.username)
in_order-insert_entry e (f ∷ g ∷ fs) h = ground (
  arith,
  name_lt_asym f.username e.username,
  name_lt_asym g.username e.username,
  in_order-insert_entry e (g ∷ fs),
)

pub in_order-sort_entries : (es : List Entry) → in_order (sort_entries es) ≡ true
unfolding in_order sort_entries
in_order-sort_entries [] = refl
in_order-sort_entries (e ∷ es) =
    in_order-insert_entry e (sort_entries es) (in_order-sort_entries es)

-- For a token with a session, `ListFriends` returns the friends of its user: an entry is there
-- exactly if its name is a friend and its remark is the one that is stored for the friend, or empty
-- where there is none. The entries are in the order of the names.
pub list_friends_lem :
    (api : ApiService) (sm : SessionManager) (s : Session) (token : Bytes) (now : ℕ)
    → live sm token now ≡ some s
    → (es : List Entry) × ((list_friends (record api { sessions = some sm }) token now).1 ≡ ok es)
      × (in_order es ≡ true)
      × ((name remark : Bytes)
          → listed name remark es ≡ (
              is_friend api.friends s.username name
              && same
                  (or_default [] (find name (or_default [] (find s.username api.friend_remarks))))
                  remark))
unfolding list_friends is_friend
list_friends_lem api sm s token now h =
    let remarks = or_default [] (find s.username api.friend_remarks) in
    let friends = or_default [] (find s.username api.friends) in
    (
      sort_entries (entries remarks friends),
      ap (λ r. r.1)
          (with_session_passes (text "session manager unavailable") token now
            (record api { sessions = some sm }) sm sm s _ h),
      in_order-sort_entries (entries remarks friends),
      λ name remark.
          listed-sort_entries name remark (entries remarks friends)
          ∙ listed-entries name remark remarks friends,
    )
