-- ===== src/Api/Tables/Calling.antt =====
-- api_service.cpp: `AddFriend` and `SetFriendRemark` do the same with a table as in memory.
use e2ee_windows.Common.{
  ℕ, ◌≡◌, refl, Bool, true, false, Option, none, some, Bytes, text, Result, ok, err, arith, same,
}
use e2ee_windows.Config.{MySqlConfig}
use e2ee_windows.Database.{Calls, Library}
use e2ee_windows.Session.{Session, SessionManager, get_session}
use e2ee_windows.Api.{ApiService, with_session}
use e2ee_windows.Api.Friends
use e2ee_windows.Api.Friends.{befriend, add_checked, absent_error, store_remark, remark_checked}
use e2ee_windows.Api.Friends.Mutual.{is_friend}
use e2ee_windows.Api.Tables
use e2ee_windows.Api.Tables.{
  insert_friends, write_remark, with_user, add_refused, remark_refused, unless, for_user,
}
use e2ee_windows.Api.Tables.Stored.{Table, HasTable, IsPlain, is_name, is_remark}
use e2ee_windows.Api.Tables.Rows.{insert_friends_lem, write_remark_lem}
use e2ee_windows.Api.Tables.Stored.{is_some}
use e2ee_windows.Api.Tables.Agreeing.{Agrees, befriend-Agrees, store_remark-Agrees}

-- What follows the session, in memory.
abbrev pub go_on :
    {A : Type 0}
    → (ApiService → SessionManager → Session → ApiService × Result A)
    → ApiService × Result (SessionManager × Session)
    → ApiService × Result A
go_on act (api, err e) = (api, err e)
go_on act (api, ok (sm, s)) = act api sm s

module _ {A : Type 0} (act : ApiService → SessionManager → Session → ApiService × Result A) where
  go_on-found :
      (api : ApiService) (sm : SessionManager) (found : Option Session)
      → elim found as (λ _. ApiService × Result A) [
        | none ↦ (api, err (text "unauthorized"))
        | some s ↦ act api sm s
      ]
        ≡ go_on act
            (elim found [ none ↦ (api, err (text "unauthorized")) | some s ↦ (api, ok (sm, s)) ])
  go_on-found api sm none = refl
  go_on-found api sm (some s) = refl

  go_on-kept :
      (api : ApiService) (token : Bytes) (now : ℕ) (o : Option SessionManager)
      → with_session (text "session manager unavailable") token now api o o act
        ≡ go_on act (
            with_session
              (text "session manager unavailable")
              token
              now
              api
              o
              o
              (λ api' sm s. (api', ok (sm, s))))
  unfolding with_session
  go_on-kept api token now none = refl
  go_on-kept api token now (some sm) =
      let (sm', found) = get_session sm token now in
      go_on-found (record api { sessions = some sm' }) sm found

  pub go_on-with_user :
      (api : ApiService) (token : Bytes) (now : ℕ)
      → with_session
          (text "session manager unavailable")
          token
          now
          api
          api.sessions
          api.sessions
          act
        ≡ go_on act (with_user api token now)
  unfolding with_user
  go_on-with_user api token now = go_on-kept api token now api.sessions

-- The lookup of the session leaves the friendships.
abbrev pub SameFriends : ApiService → ApiService → Type 0
SameFriends a b = (a.friends ≡ b.friends) × (a.friend_remarks ≡ b.friend_remarks)

pub with_user-friends :
    (api : ApiService) (token : Bytes) (now : ℕ) → SameFriends (with_user api token now).0 api
unfolding with_user with_session
with_user-friends api token now = ground arith

-- What `AddFriend` does in memory, by the checks alone.
abbrev pub add_after :
    ApiService → Session → Bytes → Bytes → Option Bytes → ApiService × Result {0} Unit
add_after api s friend remark none = (befriend api s.username friend remark, ok tt)
add_after api s friend remark (some e) = (api, err e)

pub add_checked-refused :
    (api : ApiService) (sm : SessionManager) (s : Session) (friend remark : Bytes)
    → add_checked api sm s friend remark
      ≡ add_after api s friend remark (add_refused sm s friend remark)
unfolding add_checked add_refused
add_checked-refused api sm s friend remark = ground arith

pub add_refused-eq-none :
    (sm : SessionManager) (s : Session) (friend remark : Bytes)
    → add_refused sm s friend remark ≡ none
    → same friend s.username ≡ false
unfolding add_refused
add_refused-eq-none sm s friend remark e = ground arith

-- What `SetFriendRemark` does in memory, by the checks and whether the friendship is there.
abbrev remark_known : ApiService → Session → Bytes → Bytes → Bool → ApiService × Result {0} Unit
remark_known api s friend remark true = (
  record api { friend_remarks = store_remark api.friend_remarks s.username friend remark },
  ok tt,
)
remark_known api s friend remark false = (api, err (text "not friends"))

abbrev remark_after :
    ApiService → Session → Bytes → Bytes → Bool → Option Bytes → ApiService × Result {0} Unit
remark_after api s friend remark b none = remark_known api s friend remark b
remark_after api s friend remark b (some e) = (api, err e)

remark_checked-refused :
    (api : ApiService) (s : Session) (friend remark : Bytes)
    → remark_checked api s friend remark
      ≡ remark_after api s friend remark
          (is_friend api.friends s.username friend)
          (remark_refused friend remark)
unfolding remark_checked remark_refused is_friend
remark_checked-refused api s friend remark = ground arith

Agrees-same : (a b : ApiService) (t : Table) → SameFriends a b → Agrees b t → Agrees a t
Agrees-same a b t (f, r) v = record {
  friends = λ x y. rw f (v.friends x y);
  remarks = λ x y. rw r (v.remarks x y);
}

module _ (lib : Library) (table : Calls → Table) (d : HasTable lib table) (cfg : MySqlConfig) where
  -- The two ways of adding, behind the checks.
  added :
      (api : ApiService) (s : Session) (friend remark : Bytes) (h : Calls) (o : Option Bytes)
      → (o ≡ none → same friend s.username ≡ false)
      → IsPlain (table h)
      → is_name s.username ≡ true
      → is_name friend ≡ true
      → is_remark remark ≡ true
      → table h s.username friend ≡ none
      → table h friend s.username ≡ none
      → Agrees api (table h)
      → (let (m, r) = add_after api s friend remark o in
          let (r', h') = unless o (insert_friends lib cfg s.username friend remark) h in
          (r' ≡ r) × Agrees m (table h'))
  added api s friend remark h (some e) ne plain nu nf nr new new' v = (refl, v)
  added api s friend remark h none ne plain nu nf nr new new' v =
      let (good, rows) =
        insert_friends_lem lib table d cfg s.username friend remark h plain nu nf nr in
      (good, rw rows (befriend-Agrees api (table h) s.username friend remark (ne refl) new new' v))

  written_known :
      (api : ApiService) (s : Session) (friend remark : Bytes) (h : Calls) (row : Option Bytes)
      → IsPlain (table h)
      → is_name s.username ≡ true
      → is_name friend ≡ true
      → is_remark remark ≡ true
      → table h s.username friend ≡ row
      → Agrees api (table h)
      → (let (m, r) = remark_known api s friend remark (is_some row) in
          let (r', h') = write_remark lib cfg s.username friend remark h in
          (r' ≡ r) × Agrees m (table h'))
  written_known api s friend remark h none plain nu nf nr e v =
      let (r, rows) =
        write_remark_lem lib table d cfg none s.username friend remark h plain nu nf nr e in
      (r, rw rows v)
  written_known api s friend remark h (some old) plain nu nf nr e v =
      let (r, rows) =
        write_remark_lem lib table d cfg (some old) s.username friend remark h plain nu nf nr e in
      (r, rw rows (store_remark-Agrees api (table h) s.username friend remark e v))

  written :
      (api : ApiService) (s : Session) (friend remark : Bytes) (h : Calls) (o : Option Bytes)
      → IsPlain (table h)
      → is_name s.username ≡ true
      → is_name friend ≡ true
      → is_remark remark ≡ true
      → Agrees api (table h)
      → (let (m, r) =
            remark_after api s friend remark (is_friend api.friends s.username friend) o in
          let (r', h') = unless o (write_remark lib cfg s.username friend remark) h in
          (r' ≡ r) × Agrees m (table h'))
  written api s friend remark h (some e) plain nu nf nr v = (refl, v)
  written api s friend remark h none plain nu nf nr v =
      rw (v.friends s.username friend)
        (written_known api s friend remark h (table h s.username friend) plain nu nf nr refl v)

  -- The two operations for a user, with the table and in memory, behind the session.
  module _ (api : ApiService) (token friend remark : Bytes) (now : ℕ) (h : Calls)
      (v : Agrees api (table h)) {api' : ApiService} {sm : SessionManager} {s : Session}
      (e : with_user api token now ≡ (api', ok (sm, s))) (plain : IsPlain (table h))
      (nu : is_name s.username ≡ true) (nf : is_name friend ≡ true)
      (nr : is_remark remark ≡ true) where
    known : Agrees api' (table h)
    known = Agrees-same api' api (table h) (rw e at (with_user-friends api token now)) v

    -- On a database that works and has the table, where it may or may not fail to add the column
    -- `remark`, for a user with a session, and with names of at most 64 printable ASCII characters,
    -- without blanks, in the table and the call and at most 128 ASCII characters as the remark:
    -- where the friendships in the table are those in memory, and the new one is not among them,
    -- `AddFriend` answers the same with the table as in memory, errors included, and leaves the
    -- same friendships and remarks.
    pub add_friend-Agrees :
        table h s.username friend ≡ none
        → table h friend s.username ≡ none
        → (let (m, r) = Friends.add_friend api token friend remark now in
            let (x, h') = Tables.add_friend lib (some cfg) api token friend remark now h in
            (x.1 ≡ r) × Agrees m (table h'))
    unfolding Friends.add_friend Tables.add_friend for_user
    add_friend-Agrees new new' =
        rw
          (
            go_on-with_user (λ a m t. add_checked a m t friend remark) api token now,
            e,
            add_checked-refused api' sm s friend remark,
          )
          (added api' s friend remark h (add_refused sm s friend remark)
            (add_refused-eq-none sm s friend remark) plain nu nf nr new new' known)

    -- On a database that works and has the table, where it may or may not fail to add the column
    -- `remark`, for a user with a session, and with names of at most 64 printable ASCII characters,
    -- without blanks, in the table and the call and at most 128 ASCII characters as the remark:
    -- where the friendships in the table are those in memory, `SetFriendRemark` answers the same
    -- with the table as in memory, errors included, and leaves the same friendships and remarks.
    pub set_friend_remark-Agrees :
        (let (m, r) = Friends.set_friend_remark api token friend remark now in
          let (x, h') = Tables.set_friend_remark lib (some cfg) api token friend remark now h in
          (x.1 ≡ r) × Agrees m (table h'))
    unfolding Friends.set_friend_remark Tables.set_friend_remark for_user
    set_friend_remark-Agrees =
        rw
          (
            go_on-with_user (λ a m t. remark_checked a t friend remark) api token now,
            e,
            remark_checked-refused api' s friend remark,
          )
          (written api' s friend remark h (remark_refused friend remark) plain nu nf nr known)
