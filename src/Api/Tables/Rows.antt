-- ===== src/Api/Tables/Rows.antt =====
-- api_service.cpp with a database: what the operations on friendships do to the table.
use e2ee_windows.Common.{
  ◌≡◌, ◌∙◌, ap, refl, true, Option, none, some, [], ◌∷◌, Bytes, text, ok, err,
}
use e2ee_windows.Config.{MySqlConfig}
use e2ee_windows.Database.{
  Calls, Library, ◌>>◌, issue, perform, close_both, free_both, prepared, executed, column,
}
use e2ee_windows.Database.Call.{
  init, connect, query, stmt_init, prepare, bind_param, execute, bind_result, store_result, fetch,
  free_result, stmt_close, close,
}
use e2ee_windows.Database.Working.{
  Works, is_query, connected_lem, attempt_lem, prepared_lem, executed_lem, stored_lem,
}
use e2ee_windows.Api.Tables.{
  create_table, add_column, insert_friend, select_one, update_remark, opened_table, bind_and_exec,
  insert_friends, judged, write_remark,
}
use e2ee_windows.Api.Tables.Stored.{
  Table, insert_ignore, update, last_text, is_execute, one_of, is_name, is_remark, IsPlain,
  HasTable, insert_ignore-IsPlain,
}

-- The history of a table that is opened.
abbrev pub opening : MySqlConfig → Calls → Calls
opening cfg h = query add_column ∷ query create_table ∷ connect cfg ∷ init ∷ h

pub opened_table_lem :
    (lib : Library) (works : Works lib) (cfg : MySqlConfig) (h : Calls)
    → lib.succeeds (query create_table ∷ connect cfg ∷ init ∷ h) ≡ true
    → opened_table lib cfg h ≡ (ok tt, opening cfg h)
unfolding opened_table perform issue
opened_table_lem lib works cfg h creates =
    rw (opened_table, connected_lem lib works cfg h)
      (rw
        (attempt_lem lib works (query create_table) (text "mysql_schema_failed") (close ∷ [])
          (connect cfg ∷ init ∷ h) creates)
        refl)

module _ (lib : Library) (table : Calls → Table) (d : HasTable lib table) (cfg : MySqlConfig) where
  table-opening : (h : Calls) → table (opening cfg h) ≡ table h
  unfolding is_execute
  table-opening h =
      d.others (query add_column) _ refl
      ∙ (d.others (query create_table) _ refl
          ∙ (d.others (connect cfg) _ refl ∙ d.others init h refl))

  table_ready : (t : Bytes) (h : Calls) → table (prepare t ∷ stmt_init ∷ opening cfg h) ≡ table h
  unfolding is_execute
  table_ready t h = d.others (prepare t) _ refl ∙ (d.others stmt_init _ refl ∙ table-opening h)

  table_closed : (h : Calls) → table (close ∷ stmt_close ∷ h) ≡ table h
  unfolding is_execute
  table_closed h = d.others close _ refl ∙ d.others stmt_close h refl

  bind_and_exec_lem :
      (u f r : Bytes) (h : Calls)
      → bind_and_exec lib u f r h ≡ (ok true, execute ∷ bind_param (u ∷ f ∷ r ∷ []) ∷ h)
  unfolding bind_and_exec is_query
  bind_and_exec_lem u f r h =
      rw
        (
          bind_and_exec,
          d.works (bind_param (u ∷ f ∷ r ∷ [])) h refl,
          d.works execute (bind_param (u ∷ f ∷ r ∷ []) ∷ h) refl,
        )
        refl

  -- `AddFriend` inserts the row of the user, with the remark, and then that of the friend.
  pub insert_friends_lem :
      (user friend remark : Bytes) (h : Calls)
      → IsPlain (table h)
      → is_name user ≡ true
      → is_name friend ≡ true
      → is_remark remark ≡ true
      → (let (r, h') = insert_friends lib cfg user friend remark h in
          (r ≡ ok tt)
          × (table h' ≡ insert_ignore friend user [] (insert_ignore user friend remark (table h))))
  unfolding insert_friends perform issue last_text is_remark
  insert_friends_lem user friend remark h plain nu nf nr =
      let ready : Calls = prepare insert_friend ∷ stmt_init ∷ opening cfg h in
      let first : Calls = execute ∷ bind_param (user ∷ friend ∷ remark ∷ []) ∷ ready in
      let plain₁ : IsPlain (table ready) = rw (table_ready insert_friend h) plain in
      let one = d.inserts user friend remark ready refl plain₁ nu nf nr in
      let plain₂ : IsPlain (table first) =
        rw one (insert_ignore-IsPlain user friend remark (table ready) nu nf plain₁) in
      rw (insert_friends, opened_table_lem lib d.works cfg h (d.creates (connect cfg ∷ init ∷ h)))
        (rw (prepared_lem lib d.works insert_friend (opening cfg h)) (
          rw (bind_and_exec_lem user friend remark ready) (
            rw (bind_and_exec_lem friend user [] first) (
              refl,
              table_closed (execute ∷ bind_param (friend ∷ user ∷ [] ∷ []) ∷ first)
                  ∙ (d.inserts friend user [] first refl plain₂ nf nu refl
                      ∙ ap (insert_ignore friend user []) (
                          one
                          ∙ ap (insert_ignore user friend remark) (table_ready insert_friend h))),
            ))))

  judged_lem :
      (o : Option Bytes) (h : Calls)
      → judged (one_of o) h
        ≡ elim o [ none ↦ (err (text "not friends"), close ∷ h) | some r ↦ (ok tt, h) ]
  unfolding judged column
  judged_lem none h = refl
  judged_lem (some r) h = refl

  -- The history of a statement on a friendship that is looked for, until it is closed.
  looked : Bytes → Bytes → Calls → Calls
  looked user friend h =
      stmt_close
      ∷ free_result
      ∷ fetch
      ∷ store_result
      ∷ bind_result
      ∷ execute
      ∷ bind_param (user ∷ friend ∷ [])
      ∷ prepare select_one
      ∷ stmt_init
      ∷ opening cfg h

  table-looked :
      (user friend : Bytes) (h : Calls)
      → IsPlain (table h)
      → is_name user ≡ true
      → is_name friend ≡ true
      → table (looked user friend h) ≡ table h
  unfolding looked is_execute last_text
  table-looked user friend h plain nu nf =
      d.others stmt_close _ refl
      ∙ (d.others free_result _ refl
          ∙ (d.others fetch _ refl
              ∙ (d.others store_result _ refl
                  ∙ (d.others bind_result _ refl
                      ∙ ((d.selects user friend (prepare select_one ∷ stmt_init ∷ opening cfg h)
                            refl (rw (table_ready select_one h) plain) nu nf).0
                          ∙ table_ready select_one h)))))

  -- `SetFriendRemark` up to the statement that writes.
  look :
      (user friend remark : Bytes) (h : Calls)
      → IsPlain (table h)
      → is_name user ≡ true
      → is_name friend ≡ true
      → write_remark lib cfg user friend remark h
        ≡ (judged (one_of (table h user friend))
              >> (prepared lib update_remark
                  >> (executed lib (remark ∷ user ∷ friend ∷ []) >> perform close_both)))
            (looked user friend h)
  unfolding write_remark perform issue looked last_text
  look user friend remark h plain nu nf =
      let ready : Calls = prepare select_one ∷ stmt_init ∷ opening cfg h in
      rw (write_remark, opened_table_lem lib d.works cfg h (d.creates (connect cfg ∷ init ∷ h)))
        (rw (prepared_lem lib d.works select_one (opening cfg h)) (
          rw (executed_lem lib d.works (user ∷ friend ∷ []) ready) (
            rw
              (
                stored_lem lib d.works free_both
                    (execute ∷ bind_param (user ∷ friend ∷ []) ∷ ready),
                (d.selects user friend ready refl (rw (table_ready select_one h) plain) nu nf).1,
                ap (λ (t : Table). t user friend) (table_ready select_one h),
              )
              refl)))

  -- `SetFriendRemark` finds whether the friendship is there, and writes the remark if it is.
  pub write_remark_lem :
      (o : Option Bytes) (user friend remark : Bytes) (h : Calls)
      → IsPlain (table h)
      → is_name user ≡ true
      → is_name friend ≡ true
      → is_remark remark ≡ true
      → table h user friend ≡ o
      → (let (r, h') = write_remark lib cfg user friend remark h in
          (r ≡ elim o [ none ↦ err (text "not friends") | some old ↦ ok tt ])
          × (table h' ≡ elim o [ none ↦ table h | some old ↦ update remark user friend (table h) ]))
  unfolding judged column perform issue last_text is_execute
  write_remark_lem none user friend remark h plain nu nf nr e =
      rw (look user friend remark h plain nu nf, e)
        (refl, d.others close (looked user friend h) refl ∙ table-looked user friend h plain nu nf)
  write_remark_lem (some old) user friend remark h plain nu nf nr e =
      let waiting : Calls = prepare update_remark ∷ stmt_init ∷ looked user friend h in
      let same_rows : table waiting ≡ table h =
        d.others (prepare update_remark) _ refl
        ∙ (d.others stmt_init _ refl ∙ table-looked user friend h plain nu nf) in
      rw (look user friend remark h plain nu nf, e)
        (rw (prepared_lem lib d.works update_remark (looked user friend h)) (
          rw
            (executed_lem lib d.works (remark ∷ user ∷ friend ∷ [])
              (prepare update_remark ∷ stmt_init ∷ looked user friend h))
            (
              refl,
              table_closed _
                  ∙ (d.updates remark user friend waiting refl (rw same_rows plain) nu nf nr
                      ∙ ap (update remark user friend) same_rows),
            )))
