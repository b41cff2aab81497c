-- ===== src/Api/Tables/Agreeing.antt =====
-- api_service.cpp: the friendships in a table and those in memory are the same.
use e2ee_windows.Common.{
  ◌≡◌, refl, false, not, ◌&&◌, Option, none, some, [], ◌∷◌, Bytes, if◌then◌else◌, arith, is_empty,
  same, same_iff,
}
use e2ee_windows.Common.Dict.{Dict, find, put, erase, or_default, find-put, find-erase}
use e2ee_windows.Api.{ApiService}
use e2ee_windows.Api.Friends.{befriend, store_remark}
use e2ee_windows.Api.Friends.Mutual.{is_friend, is_friend-befriend}
use e2ee_windows.Api.Tables.Stored.{is_some, Table, insert_ignore, update}

-- The remark that `a` has for `b`.
abbrev pub remark_of : Dict (Dict Bytes) → Bytes → Bytes → Bytes
remark_of all a b = or_default [] (find b (or_default [] (find a all)))

-- A table has a row exactly for each friendship in memory, with the remark that is kept there.
pub record Agrees (api : ApiService) (t : Table) : Type 0 where
  pub friends : (a b : Bytes) → is_friend api.friends a b ≡ is_some (t a b)
  pub remarks : (a b : Bytes) → remark_of api.friend_remarks a b ≡ or_default [] (t a b)

pub remark_of-befriend :
    (api : ApiService) (user friend remark a b : Bytes)
    → remark_of (befriend api user friend remark).friend_remarks a b ≡ (
        if not (is_empty remark) && (same user a && same friend b)
        then remark
        else remark_of api.friend_remarks a b)
unfolding befriend
remark_of-befriend api user friend [] a b = refl
remark_of-befriend api user friend (c ∷ cs) a b =
    let own : Dict Bytes = or_default [] (find user api.friend_remarks) in
    ground (
      arith,
      find-put user a (put friend (c ∷ cs) own) api.friend_remarks,
      find-put friend b (c ∷ cs) own,
      same_iff user a,
      same_iff friend b,
    )

remark_of-insert :
    (api : ApiService) (t : Table) (user friend remark a b : Bytes)
    → same friend user ≡ false
    → t user friend ≡ none
    → t friend user ≡ none
    → remark_of api.friend_remarks a b ≡ or_default [] (t a b)
    → remark_of (befriend api user friend remark).friend_remarks a b
      ≡ or_default [] (insert_ignore friend user [] (insert_ignore user friend remark t) a b)
unfolding insert_ignore
remark_of-insert api t user friend [] a b ne new new' v =
    rw (remark_of-befriend api user friend [] a b)
      (ground (arith, same_iff user a, same_iff friend a, same_iff user b, same_iff friend b))
remark_of-insert api t user friend (c ∷ cs) a b ne new new' v =
    rw (remark_of-befriend api user friend (c ∷ cs) a b) (
      ground (
        arith,
        same_iff user a,
        same_iff friend a,
        same_iff user b,
        same_iff friend b,
        same_iff friend user,
      ))

pub befriend-Agrees :
    (api : ApiService) (t : Table) (user friend remark : Bytes)
    → same friend user ≡ false
    → t user friend ≡ none
    → t friend user ≡ none
    → Agrees api t
    → Agrees
        (befriend api user friend remark)
        (insert_ignore friend user [] (insert_ignore user friend remark t))
unfolding insert_ignore
befriend-Agrees api t user friend remark ne new new' v = record {
  friends = λ a b. ground (
    arith,
    is_friend-befriend api user friend remark a b ne,
    v.friends a b,
    same_iff user a,
    same_iff friend a,
    same_iff user b,
    same_iff friend b,
    same_iff friend user,
  );
  remarks = λ a b. remark_of-insert api t user friend remark a b ne new new' (v.remarks a b);
}

remark_of-erased :
    (all : Dict (Dict Bytes)) (user friend a b : Bytes) (o : Option (Dict Bytes))
    → find user all ≡ o
    → remark_of (elim o [ none ↦ all | some own ↦ put user (erase friend own) all ]) a b
      ≡ (if same user a && same friend b then [] else remark_of all a b)
unfolding find
remark_of-erased all user friend a b none e = ground (arith, same_iff user a, same_iff friend b)
remark_of-erased all user friend a b (some own) e = ground (
  arith,
  find-put user a (erase friend own) all,
  find-erase friend b own,
  same_iff user a,
  same_iff friend b,
)

remark_of-store_remark :
    (all : Dict (Dict Bytes)) (user friend remark a b : Bytes)
    → remark_of (store_remark all user friend remark) a b
      ≡ (if same user a && same friend b then remark else remark_of all a b)
unfolding store_remark
remark_of-store_remark all user friend [] a b =
    remark_of-erased all user friend a b (find user all) refl
remark_of-store_remark all user friend (c ∷ cs) a b =
    let own : Dict Bytes = or_default [] (find user all) in
    ground (
      arith,
      find-put user a (put friend (c ∷ cs) own) all,
      find-put friend b (c ∷ cs) own,
      same_iff user a,
      same_iff friend b,
    )

pub store_remark-Agrees :
    (api : ApiService) (t : Table) (user friend remark : Bytes) {old : Bytes}
    → t user friend ≡ some old
    → Agrees api t
    → Agrees
        (record api { friend_remarks = store_remark api.friend_remarks user friend remark })
        (update remark user friend t)
unfolding update
store_remark-Agrees api t user friend remark e v = record {
  friends = λ a b. ground (arith, v.friends a b, same_iff user a, same_iff friend b);
  remarks = λ a b.
      rw (remark_of-store_remark api.friend_remarks user friend remark a b)
        (ground (arith, v.remarks a b, same_iff user a, same_iff friend b));
}
