-- ===== src/Api/Friends/Mutual.antt =====
-- Friendship is mutual, whatever is called.
use e2ee_windows.Common.{
  ℕ, ◌≡◌, refl, Bool, false, ◌&&◌, ◌||◌, Option, none, some, List, [], Bytes, same, same_iff,
  Result, arith, Option-cases, inl, inr,
}
use e2ee_windows.Common.Dict.{Dict, find, put, or_default, find-put}
use e2ee_windows.Session.{Session, SessionManager, get_session}
use e2ee_windows.Directory.{contains, insert}
use e2ee_windows.Directory.Members.{contains-insert}
use e2ee_windows.Api.{ApiService, with_session}
use e2ee_windows.Api.Friends.{befriend, add_checked, remark_checked}

-- Whether `b` is among the friends of `a`.
unfoldable pub is_friend : Dict (List Bytes) → Bytes → Bytes → Bool
is_friend friends a b = contains b (or_default [] (find a friends))

-- Both sides know of a friendship, and nobody is a friend of themselves.
pub record IsMutual (friends : Dict (List Bytes)) : Type 0 where
  pub both : (a b : Bytes) → is_friend friends a b ≡ is_friend friends b a
  pub distinct : (a : Bytes) → is_friend friends a a ≡ false

pub contains_nil : (v : Bytes) → contains v [] ≡ false
unfolding contains
contains_nil v = refl

pub is_friend-befriend :
    (api : ApiService) (user friend remark a b : Bytes)
    → same friend user ≡ false
    → is_friend (befriend api user friend remark).friends a b ≡ (
        (same user a && same friend b)
        || (same friend a && same user b)
        || is_friend api.friends a b)
unfolding befriend is_friend
is_friend-befriend api user friend remark a b ne =
    let old = insert friend (or_default [] (find user api.friends)) in
    let one = put user old api.friends in
    ground (
      arith,
      find-put user a old api.friends,
      find-put user friend old api.friends,
      find-put friend a (insert user (or_default [] (find friend one))) one,
      contains-insert friend b (or_default [] (find user api.friends)),
      contains-insert user b (or_default [] (find friend one)),
      same_iff user a,
      same_iff friend a,
      same_iff friend user,
      same_iff user friend,
    )

befriend-IsMutual :
    (api : ApiService) (user friend remark : Bytes)
    → same friend user ≡ false
    → IsMutual api.friends
    → IsMutual (befriend api user friend remark).friends
befriend-IsMutual api user friend remark ne v = record {
  both = λ a b. ground (
    arith,
    is_friend-befriend api user friend remark a b ne,
    is_friend-befriend api user friend remark b a ne,
    v.both a b,
  );
  distinct = λ a. ground (
    arith,
    is_friend-befriend api user friend remark a a ne,
    v.distinct a,
    same_iff user a,
    same_iff friend a,
    same_iff friend user,
  );
}

pub add_checked-IsMutual :
    (api : ApiService) (sm : SessionManager) (s : Session) (friend remark : Bytes)
    → IsMutual api.friends
    → IsMutual (add_checked api sm s friend remark).0.friends
unfolding add_checked
add_checked-IsMutual api sm s friend remark v =
    ground (arith, befriend-IsMutual api s.username friend remark)

pub remark_checked-friends :
    (api : ApiService) (s : Session) (friend remark : Bytes)
    → (remark_checked api s friend remark).0.friends ≡ api.friends
unfolding remark_checked
remark_checked-friends api s friend remark = ground arith

-- An operation keeps what its last steps keep of the friendships.
pub with_session-IsMutual :
    {A R : Type 0} (missing token : Bytes) (now : ℕ) (api : ApiService) (a : Option A)
    (sm : Option SessionManager) (act : ApiService → A → Session → ApiService × Result R)
    → ((api' : ApiService) (b : A) (s : Session)
        → api'.friends ≡ api.friends
        → IsMutual (act api' b s).0.friends)
    → IsMutual api.friends
    → IsMutual (with_session missing token now api a sm act).0.friends
unfolding with_session
with_session-IsMutual missing token now api none sm act k v = v
with_session-IsMutual missing token now api (some a) none act k v = v
with_session-IsMutual missing token now api (some a) (some sm) act k v =
    elim (Option-cases (get_session sm token now).1) [
      | inl e ↦ rw (with_session, e) v
      | inr (s, e) ↦
          rw (with_session, e)
            (k (record api { sessions = some (get_session sm token now).0 }) a s refl)
    ]
