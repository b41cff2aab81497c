-- ===== src/Api/Messages.antt =====
-- api_service.cpp: a message that is pushed for a user is pulled once.
use e2ee_windows.Common.{
  ℕ, ◌-◌, ◌≤◌, ◌≡◌, ap, ◌∙◌, some, List, [], ◌∷◌, ◌++◌, Bytes, text, ok, if◌then◌else◌, ltb,
  same_refl, arith,
}
use e2ee_windows.Session.{Session, SessionManager}
use e2ee_windows.Session.View.{live, get_session-live}
use e2ee_windows.Queue.{OfflineQueue, enqueue, drain}
use e2ee_windows.Queue.Delivery.{pending, drain-pending, pending-enqueue}
use e2ee_windows.Api.{ApiService, enqueue_offline, pull_offline}
use e2ee_windows.Api.Groups.{seen, with_session_passes}

abbrev pub mailing : ApiService → SessionManager → OfflineQueue → ApiService
mailing api sm q = record api { sessions = some sm; queue = some q }

enqueue_offline_passes :
    (api : ApiService) (sm : SessionManager) (q : OfflineQueue) (s : Session)
    (token recipient payload : Bytes) (now later : ℕ)
    → live sm token now ≡ some s
    → enqueue_offline (mailing api sm q) token recipient payload now later
      ≡ (mailing api (seen sm token now) (enqueue q recipient payload 0 later), ok tt)
unfolding enqueue_offline
enqueue_offline_passes api sm q s token recipient payload now later h =
    with_session_passes (text "queue unavailable") token now (mailing api sm q) q sm s _ h

pull_offline_passes :
    (api : ApiService) (sm : SessionManager) (q : OfflineQueue) (s : Session) (token : Bytes)
    (now later : ℕ)
    → live sm token now ≡ some s
    → pull_offline (mailing api sm q) token now later ≡ (
      mailing api (seen sm token now) (drain q s.username later).0,
      ok (pending q s.username later),
    )
unfolding pull_offline
pull_offline_passes api sm q s token now later h =
    with_session_passes (text "queue unavailable") token now (mailing api sm q) q sm s _ h
    ∙ ap
        (λ (ms : List Bytes). (mailing api (seen sm token now) (drain q s.username later).0, ok ms))
        (drain-pending q s.username s.username later later).0

-- A message that a user with a session pushes for another one is pulled by that one, behind the
-- messages that wait already, unless more than the default lifetime has passed; the next pull
-- returns nothing. The times are those of the calls' readings of the clock, in their order; the
-- session of the receiver lives through all of them.
pub push-pull :
    (api : ApiService) (sm : SessionManager) (q : OfflineQueue) (from to : Session)
    (token token' payload : Bytes) (t₁ t₂ t₃ t₄ t₅ t₆ : ℕ)
    → t₁ ≤ t₃
    → t₃ ≤ t₅
    → live sm token t₁ ≡ some from
    → live sm token' t₃ ≡ some to
    → live sm token' t₅ ≡ some to
    → (let pushed = (enqueue_offline (mailing api sm q) token to.username payload t₁ t₂).0 in
        let pulled = pull_offline pushed token' t₃ t₄ in
        (pulled.1
          ≡ ok (
              pending q to.username t₄
              ++ (if ltb q.default_ttl (t₄ - t₂) then [] else payload ∷ [])))
        × ((pull_offline pulled.0 token' t₅ t₆).1 ≡ ok []))
push-pull api sm q from to token token' payload t₁ t₂ t₃ t₄ t₅ t₆ le le' h h₃ h₅ =
    let q' = enqueue q to.username payload 0 t₂ in
    let q'' = (drain q' to.username t₄).0 in
    let sm' = seen sm token t₁ in
    let still : live sm' token' t₃ ≡ some to = (get_session-live sm token token' t₁ t₃ le).1 ∙ h₃ in
    let again : live (seen sm' token' t₃) token' t₅ ≡ some to =
      (get_session-live sm' token' token' t₃ t₅ le').1
      ∙ (get_session-live sm token token' t₁ t₅ (omega arith)).1
      ∙ h₅ in
    rw (enqueue_offline_passes api sm q from token to.username payload t₁ t₂ h) (
      rw (pull_offline_passes api sm' q' to token' t₃ t₄ still) (
        ap ok (
            ground (
              arith,
              pending-enqueue q to.username to.username payload 0 t₂ t₄,
              same_refl to.username,
            )),
        ap (λ r. r.1) (pull_offline_passes api (seen sm' token' t₃) q'' to token' t₅ t₆ again)
            ∙ ap ok (
                ground
                  (arith, drain-pending q' to.username to.username t₄ t₆, same_refl to.username)),
      ))
