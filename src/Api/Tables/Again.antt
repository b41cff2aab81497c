-- ===== src/Api/Tables/Again.antt =====
-- api_service.cpp: a friendship that is added again, in a table and in memory.
use e2ee_windows.Common.{
  ℕ, ◌≡◌, refl, true, false, none, some, Bytes, ok, is_empty, same, same_refl, [],
}
use e2ee_windows.Config.{MySqlConfig}
use e2ee_windows.Database.{Calls, Library}
use e2ee_windows.Session.{Session, SessionManager}
use e2ee_windows.Api.{ApiService}
use e2ee_windows.Api.Friends
use e2ee_windows.Api.Friends.{befriend, add_checked}
use e2ee_windows.Api.Tables
use e2ee_windows.Api.Tables.{insert_friends, with_user, add_refused, unless, for_user}
use e2ee_windows.Api.Tables.Stored.{IsPlain, is_name, is_remark, Table, insert_ignore, HasTable}
use e2ee_windows.Api.Tables.Rows.{insert_friends_lem}
use e2ee_windows.Api.Tables.Agreeing.{remark_of, remark_of-befriend}
use e2ee_windows.Api.Tables.Calling.{go_on-with_user, add_checked-refused, add_refused-eq-none}

insert_again :
    (t : Table) (user friend remark old : Bytes)
    → same friend user ≡ false
    → t user friend ≡ some old
    → insert_ignore friend user [] (insert_ignore user friend remark t) user friend ≡ some old
unfolding insert_ignore
insert_again t user friend remark old ne e =
    rw (insert_ignore, e, same_refl user, same_refl friend, ne) refl

module _ (lib : Library) (table : Calls → Table) (d : HasTable lib table) (cfg : MySqlConfig)
    (api : ApiService) (token friend remark : Bytes) (now : ℕ) (h : Calls) {api' : ApiService}
    {sm : SessionManager} {s : Session} (e : with_user api token now ≡ (api', ok (sm, s)))
    (good : add_refused sm s friend remark ≡ none) (plain : IsPlain (table h))
    (nu : is_name s.username ≡ true) (nf : is_name friend ≡ true)
    (nr : is_remark remark ≡ true) where
  -- A user with a session adds a friend that is a friend already, with a remark that is not empty,
  -- and passes the checks. Both ways answer with success; but on a database that works and has the
  -- table, where it may or may not fail to add the column `remark`, the remark that was there stays,
  -- while in memory it is the new one. The names in the table and the call have at most 64
  -- printable ASCII characters, without blanks, and the remark at most 128 ASCII characters.
  pub add_friend_again :
      (old : Bytes)
      → table h s.username friend ≡ some old
      → is_empty remark ≡ false
      → (let (m, r) = Friends.add_friend api token friend remark now in
          let (x, h') = Tables.add_friend lib (some cfg) api token friend remark now h in
          (r ≡ ok tt)
          × (x.1 ≡ ok tt)
          × (remark_of m.friend_remarks s.username friend ≡ remark)
          × (table h' s.username friend ≡ some old))
  unfolding Friends.add_friend Tables.add_friend for_user
  add_friend_again old there some_remark =
      let ne = add_refused-eq-none sm s friend remark good in
      let (done_well, rows) =
        insert_friends_lem lib table d cfg s.username friend remark h plain nu nf nr in
      rw
        (
          go_on-with_user (λ a m t. add_checked a m t friend remark) api token now,
          e,
          add_checked-refused api' sm s friend remark,
          good,
        )
        (
          refl,
          done_well,
          rw
              (
                remark_of-befriend api' s.username friend remark s.username friend,
                some_remark,
                same_refl s.username,
                same_refl friend,
              )
              refl,
          rw rows (insert_again (table h) s.username friend remark old ne there),
        )
