-- ===== src/Identity/Accounts.antt =====
-- The account and credential methods of identity/memory/memory.go.
use k8s_lab.Common.{
  nat_eq, list_eq, String, Bool, none, some, ◌||◌, not, ◌==◌, string_eq, if◌then◌else◌,
}
use k8s_lab.Common.Map.{Map, get, put, has, delete_where}
use k8s_lab.Common.Result.{Result, ok, err}
use k8s_lab.Common.Clock.{Time, or_now}
use k8s_lab.Common.Text.{Unicode}
use k8s_lab.Identity.{Error, not_found, duplicate, invalid, Account, Credential, Session}
use k8s_lab.Identity.Store.{Store, Handler, fold}
use k8s_lab.Identity.Tenants.{stamp}

abbrev pub is_known_kind : String → Bool
is_known_kind kind = kind == "user" || kind == "automation"

-- What `CreateAccount` writes of a credential: nothing where there is no hash.
unfoldable pub with_credential :
    Account → Credential → Map String Credential → Map String Credential
with_credential a cred creds =
    if cred.hash == ""
    then creds
    else put a.id
        (record cred { account_id = a.id; updated_at = or_now cred.updated_at a.created_at }) creds

unfoldable pub create_account : Unicode → Time → Account → Credential → Handler Account
create_account u now a cred s =
    let a' = record a { created_at = stamp now a.created_at } in
    if a.id == "" || a.email == ""
    then (err invalid, s)
    else if not (is_known_kind a.kind)
    then (err invalid, s)
    else if has (fold u a.email) s.emails
    then (err duplicate, s)
    else if has a.id s.accounts
    then (err duplicate, s)
    else if a.audit_email == ""
    then (err invalid, s)
    else (
      ok a',
      record s {
        accounts = put a.id a' s.accounts;
        emails = put (fold u a.email) a.id s.emails;
        creds = with_credential a' cred s.creds;
      },
    )

unfoldable pub account : String → Store → Result Error Account
account id s = elim (get id s.accounts) [ none ↦ err not_found | some a ↦ ok a ]

unfoldable pub account_by_email : Unicode → String → Store → Result Error Account
unfolding account
account_by_email u email s = elim (get (fold u email) s.emails) [
  | none ↦ err not_found
  | some id ↦ account id s
]

unfoldable pub credential : String → Store → Result Error Credential
credential account_id s = elim (get account_id s.creds) [ none ↦ err not_found | some c ↦ ok c ]

abbrev pub is_session_of : String → Session → Bool
is_session_of account_id sess = sess.account_id == account_id

unfoldable pub set_credential : Time → Credential → Handler (Unit {0})
set_credential now cred s =
    if cred.account_id == "" || cred.hash == ""
    then (err invalid, s)
    else if not (has cred.account_id s.accounts)
    then (err not_found, s)
    else (
      ok tt,
      record s {
        creds =
            put cred.account_id (record cred { updated_at = stamp now cred.updated_at }) s.creds;
        sessions = delete_where (λ k sess. is_session_of cred.account_id sess) s.sessions;
      },
    )

unfoldable pub rehash_credential : Time → Credential → Handler (Unit {0})
rehash_credential now cred s =
    if cred.account_id == "" || cred.hash == ""
    then (err invalid, s)
    else if not (has cred.account_id s.creds)
    then (err not_found, s)
    else (
      ok tt,
      record s {
        creds =
            put cred.account_id (record cred { updated_at = stamp now cred.updated_at }) s.creds;
      },
    )
