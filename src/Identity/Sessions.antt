-- ===== src/Identity/Sessions.antt =====
-- The session methods of identity/memory/memory.go.
use k8s_lab.Common.{
  String, List, Bool, ℕ, none, some, [], not, ◌||◌, ◌==◌, string_eq, nat_eq, list_eq, if◌then◌else◌,
  keep, length,
}
use k8s_lab.Common.Map.{get, put, delete, has, delete_where, entries}
use k8s_lab.Common.Result.{Result, ok, err}
use k8s_lab.Common.Clock.{Time, is_zero, before, truncate_us}
use k8s_lab.Identity.{Error, not_found, duplicate, invalid, Session}
use k8s_lab.Identity.Store.{Store, Handler, encode_to_string}
use k8s_lab.Identity.Accounts.{is_session_of}

unfoldable pub create_session : Session → Handler (Unit {0})
create_session sess s =
    let k = encode_to_string sess.digest in
    if sess.digest == [] || sess.account_id == ""
    then (err invalid, s)
    else if is_zero sess.expires_at
    then (err invalid, s)
    else if not (has sess.account_id s.accounts)
    then (err not_found, s)
    else if has k s.sessions
    then (err duplicate, s)
    else (
      ok tt,
      record s {
        sessions =
            put k
              (record sess {
                created_at = truncate_us sess.created_at;
                expires_at = truncate_us sess.expires_at;
              })
              s.sessions;
      },
    )

abbrev pub is_expired : Time → Session → Bool
is_expired now sess = not (before now sess.expires_at)

unfoldable pub session : List ℕ → Time → Store → Result Error Session
session digest now s = elim (get (encode_to_string digest) s.sessions) [
  | none ↦ err not_found
  | some sess ↦ if is_expired now sess then err not_found else ok sess
]

unfoldable pub delete_session : List ℕ → Handler (Unit {0})
delete_session digest s =
    let k = encode_to_string digest in
    if not (has k s.sessions)
    then (err not_found, s)
    else (ok tt, record s { sessions = delete k s.sessions })

-- The loop that deletes and counts.
unfoldable pub delete_sessions : (Session → Bool) → Handler ℕ
delete_sessions p s = (
  ok (length (keep (λ x. p x.1) (entries s.sessions))),
  record s { sessions = delete_where (λ k sess. p sess) s.sessions },
)

unfoldable pub delete_account_sessions : String → Handler ℕ
unfolding delete_sessions
delete_account_sessions account_id = delete_sessions (is_session_of account_id)

unfoldable pub prune_expired : Time → Handler ℕ
unfolding delete_sessions
prune_expired now = delete_sessions (is_expired now)
