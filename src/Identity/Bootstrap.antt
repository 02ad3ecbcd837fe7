-- ===== src/Identity/Bootstrap.antt =====
-- `Bootstrap` of identity/memory/memory.go: the first tenant, the first account
-- and the owner membership between them.
use k8s_lab.Common.{Bool, true, ◌||◌, not, ◌==◌, string_eq, if◌then◌else◌}
use k8s_lab.Common.Map.{put, has}
use k8s_lab.Common.Result.{ok, err}
use k8s_lab.Common.Clock.{Time, truncate_us}
use k8s_lab.Common.Text.{Unicode}
use k8s_lab.Identity.{duplicate, invalid, Tenant, Account, Credential, role_owner}
use k8s_lab.Identity.Store.{Store, Handler, fold, member_key}
use k8s_lab.Identity.Accounts.{is_known_kind}
use k8s_lab.Identity.Tenants.{stamp}

-- The `switch` above the lock.
unfoldable pub is_invalid_bootstrap : Tenant → Account → Credential → Bool
is_invalid_bootstrap t a cred =
    (t.id == "" || t.slug == "")
    || ((a.id == "" || a.email == "")
        || (not (is_known_kind a.kind) || (a.audit_email == "" || cred.hash == "")))

-- What is written once every test has passed.
unfoldable pub claim : Unicode → Time → Tenant → Account → Credential → Store → Store
claim u now t a cred s =
    let clock = truncate_us now in
    let t' = record t { created_at = stamp clock t.created_at } in
    let a' = record a { created_at = stamp clock a.created_at } in
    record s {
      tenants = put t.id t' s.tenants;
      slugs = put t.slug t.id s.slugs;
      accounts = put a.id a' s.accounts;
      emails = put (fold u a.email) a.id s.emails;
      creds = put a.id (record cred { account_id = a.id; updated_at = a'.created_at }) s.creds;
      members =
          put (member_key a.id t.id)
            (record {
              account_id = a.id;
              tenant_id = t.id;
              role = role_owner;
              created_at = a'.created_at;
            })
            s.members;
      bootstrapped = true;
    }

unfoldable pub bootstrap : Unicode → Time → Tenant → Account → Credential → Handler (Unit {0})
bootstrap u now t a cred s =
    if is_invalid_bootstrap t a cred
    then (err invalid, s)
    else if s.bootstrapped
    then (err duplicate, s)
    else if has t.slug s.slugs
    then (err duplicate, s)
    else if has t.id s.tenants
    then (err duplicate, s)
    else if has (fold u a.email) s.emails
    then (err duplicate, s)
    else if has a.id s.accounts
    then (err duplicate, s)
    else (ok tt, claim u now t a cred s)
