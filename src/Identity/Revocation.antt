-- ===== src/Identity/Revocation.antt =====
-- What a caller of `Session` sees after each method that removes sessions or writes one
-- (identity/memory/memory.go).
use k8s_lab.Common.{
  String, true, false, List, ℕ, ◌≤◌, ◌≡◌, string_eq, nat_eq, list_eq, eq_refl, arith, if◌then◌else◌,
  inl, inr,
}
use k8s_lab.Common.Map.{delete_where, get-put, get-delete_where}
use k8s_lab.Common.Clock.{Time}
use k8s_lab.Common.Result.{Result, ok, err, is_err}
use k8s_lab.Identity.{Error, not_found, Credential, Session}
use k8s_lab.Identity.Store.{Store, encode_to_string}
use k8s_lab.Identity.Accounts.{set_credential, rehash_credential, credential, is_session_of}
use k8s_lab.Identity.Sessions.{session, delete_account_sessions, prune_expired, is_expired}
use k8s_lab.Identity.Cases.{stamped_credential, set_credential_cases}

-- An answer of `Session` with the sessions of one account taken away.
abbrev pub without_account : String → Result Error Session → Result Error Session
without_account a (ok x) = if is_session_of a x then err not_found else ok x
without_account a (err e) = err e

session-delete_where :
    (s : Store) (a : String) (d : List ℕ) (t : Time)
    → session d t (record s { sessions = delete_where (λ k x. is_session_of a x) s.sessions })
      ≡ without_account a (session d t s)
unfolding session
session-delete_where s a d t =
    ground (arith, get-delete_where (λ k x. is_session_of a x) (encode_to_string d) s.sessions)

-- A password change ends every session of its account and no other: afterwards `Session` answers
-- as before for the other accounts' sessions and not-found for this account's, and `Credential`
-- answers with the new hash.
pub set_credential_revokes :
    (now : Time) (cred : Credential) (s : Store)
    → is_err (set_credential now cred s).0 ≡ false
    → ((d : List ℕ) (t : Time)
        → session d t (set_credential now cred s).1
          ≡ without_account cred.account_id (session d t s))
      × (credential cred.account_id (set_credential now cred s).1
          ≡ ok (stamped_credential now cred))
unfolding credential session
set_credential_revokes now cred s done = elim (set_credential_cases s now cred) [
  | inl r ↦ absurd (ground arith)
  | inr (known, written) ↦ (
    λ d t. rw written.1 (session-delete_where s cred.account_id d t),
    rw written.1 (
        ground (
          arith,
          get-put cred.account_id cred.account_id (stamped_credential now cred) s.creds,
          eq_refl cred.account_id,
        )),
  )
]

-- A rehash replaces the hash and logs nobody out: `Session` answers exactly as before, and
-- `Credential` answers with the new hash. An account that had no credential still has none.
pub rehash_credential_keeps_sessions :
    (now : Time) (cred : Credential) (s : Store)
    → ((d : List ℕ) (t : Time) → session d t (rehash_credential now cred s).1 ≡ session d t s)
      × (credential cred.account_id (rehash_credential now cred s).1 ≡ (
          if is_err (rehash_credential now cred s).0
          then credential cred.account_id s
          else ok (stamped_credential now cred)))
      × (credential cred.account_id s ≡ err not_found
          → is_err (rehash_credential now cred s).0 ≡ true)
unfolding credential session rehash_credential
rehash_credential_keeps_sessions now cred s = (
  λ d t. ground arith,
  ground (
    arith,
    get-put cred.account_id cred.account_id (stamped_credential now cred) s.creds,
    eq_refl cred.account_id,
  ),
  λ h. ground arith,
)

-- Deprovisioning ends every session of the account and no other.
pub delete_account_sessions_revokes :
    (a : String) (s : Store) (d : List ℕ) (t : Time)
    → session d t (delete_account_sessions a s).1 ≡ without_account a (session d t s)
unfolding delete_account_sessions
delete_account_sessions_revokes a s d t = session-delete_where s a d t

-- Pruning is housekeeping: at the time of the prune or later, `Session` answers as if it had not
-- happened.
pub prune_expired_unobservable :
    (now later : Time) (s : Store) (d : List ℕ)
    → now ≤ later
    → session d later (prune_expired now s).1 ≡ session d later s
unfolding session prune_expired
prune_expired_unobservable now later s d h =
    ground (arith, get-delete_where (λ k x. is_expired now x) (encode_to_string d) s.sessions)
