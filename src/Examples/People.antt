-- ===== src/Examples/People.antt =====
-- identity/memory/memory.go with one company in it.
use k8s_lab.Common.{
  String, true, false, List, ℕ, [], ◌∷◌, ◌≡◌, refl, arith, ap, if◌then◌else◌, nat_eq, list_eq,
  string_eq,
}
use k8s_lab.Common.Text.{caseless, HasNoNul, to_lower, join}
use k8s_lab.Common.Clock.{Time, truncate_us}
use k8s_lab.Common.Result.{ok, err, is_err}
use Prim.Native.Char.{Char, code}
use k8s_lab.Common.Map.{get, put, delete, delete_where}
use k8s_lab.Common.{keep}
use k8s_lab.Identity.{
  invalid, duplicate, Tenant, Account, Credential, Membership, Session, role_member,
}
use k8s_lab.Identity.Store.{Store, new, fold, member_key, encode_to_string}
use k8s_lab.Identity.Tenants.{create_tenant, update_tenant, tenant, tenant_by_slug, held_by_another}
use k8s_lab.Identity.Accounts.{create_account, with_credential, set_credential, credential}
use k8s_lab.Identity.Members.{add_member, membership, remove_member}
use k8s_lab.Identity.Sessions.{create_session, session}
use k8s_lab.Identity.Cases.{stamped_credential}
use k8s_lab.Identity.Bootstrap.{bootstrap, claim, is_invalid_bootstrap}
use k8s_lab.Identity.Invariant.{IsConsistent}
use k8s_lab.Identity.History.{
  Call, creates_tenant, updates_tenant, creates_account, adds_member, step, run,
  run-new-IsConsistent,
}
use k8s_lab.Identity.Revocation.{without_account, set_credential_revokes}
use k8s_lab.Identity.Ownership.{is_refused, refused_unchanged, bootstrap_once}

abbrev pub acme : Tenant
acme = record { id = "t1"; slug = "acme"; display_name = "Acme"; suspended = false; created_at = 0 }

abbrev pub ada : Account
ada = record {
  id = "a1";
  kind = "user";
  email = "ada@acme.test";
  audit_email = "audit@acme.test";
  display_name = "Ada";
  disabled = false;
  created_at = 0;
}

abbrev pub hash_of : String → Credential
hash_of h = record { account_id = "a1"; hash = h; updated_at = 0 }

abbrev pub visit : Session
visit = record {
  digest = 7 ∷ 200 ∷ [];
  account_id = "a1";
  issued_for = "";
  created_at = 1000;
  expires_at = 9000;
}

abbrev pub developer : Membership
developer = record { account_id = "a1"; tenant_id = "t1"; role = role_member; created_at = 0 }

abbrev pub calls : List (Time × Call)
calls = (1000, creates_tenant acme) ∷ (2000, creates_account ada (hash_of "h0")) ∷ []

abbrev pub people : Store
people = run caseless calls new

consistent : IsConsistent caseless people
consistent = run-new-IsConsistent caseless calls

run-new-IsConsistent_example : IsConsistent caseless people
run-new-IsConsistent_example = run-new-IsConsistent caseless calls

password_set : is_err (set_credential 5000 (hash_of "h1") people).0 ≡ false
unfolding run step new create_tenant update_tenant create_account with_credential fold
    set_credential get put delete delete_where keep add_member remove_member member_key
    create_session encode_to_string bootstrap claim is_invalid_bootstrap is_refused tenant
    tenant_by_slug held_by_another credential session membership to_lower join truncate_us
password_set = refl

set_credential_revokes_example :
    ((d : List ℕ) (t : Time)
      → session d t (set_credential 5000 (hash_of "h1") people).1
        ≡ without_account "a1" (session d t people))
    × (credential "a1" (set_credential 5000 (hash_of "h1") people).1
        ≡ ok (stamped_credential 5000 (hash_of "h1")))
set_credential_revokes_example = set_credential_revokes 5000 (hash_of "h1") people password_set

abbrev other_digest : List ℕ
other_digest = 7 ∷ 201 ∷ []

abbrev pub signed_in : Store
signed_in = (create_session visit people).1

abbrev renamed_acme : Tenant
renamed_acme = record acme { slug = "acme-two"; created_at = 1000 }

acme_found : tenant "t1" people ≡ ok (record acme { created_at = 1000 })
unfolding run step new create_tenant update_tenant create_account with_credential fold
    set_credential get put delete delete_where keep add_member remove_member member_key
    create_session encode_to_string bootstrap claim is_invalid_bootstrap is_refused tenant
    tenant_by_slug held_by_another credential session membership to_lower join truncate_us
acme_found = refl

rename_done : is_err (update_tenant renamed_acme people).0 ≡ false
unfolding run step new create_tenant update_tenant create_account with_credential fold
    set_credential get put delete delete_where keep add_member remove_member member_key
    create_session encode_to_string bootstrap claim is_invalid_bootstrap is_refused tenant
    tenant_by_slug held_by_another credential session membership to_lower join truncate_us
rename_done = refl

grant_done : is_err (add_member 3000 developer people).0 ≡ false
unfolding run step new create_tenant update_tenant create_account with_credential fold
    set_credential get put delete delete_where keep add_member remove_member member_key
    create_session encode_to_string bootstrap claim is_invalid_bootstrap is_refused tenant
    tenant_by_slug held_by_another credential session membership to_lower join truncate_us
grant_done = refl

a1-HasNoNul : HasNoNul "a1"
a1-HasNoNul = (
  (λ e. omega (arith, ap (λ (c : Char). code c) e)),
  ((λ e. omega (arith, ap (λ (c : Char). code c) e)), tt),
)

abbrev pub granted : List (Time × Call)
granted =
    (1000, creates_tenant acme)
    ∷ (2000, creates_account ada (hash_of "h0"))
    ∷ (3000, adds_member developer)
    ∷ []

second_refused : is_refused caseless 4000 (creates_tenant acme) people ≡ true
unfolding run step new create_tenant update_tenant create_account with_credential fold
    set_credential get put delete delete_where keep add_member remove_member member_key
    create_session encode_to_string bootstrap claim is_invalid_bootstrap is_refused tenant
    tenant_by_slug held_by_another credential session membership to_lower join truncate_us
second_refused = refl

refused_unchanged_example : step caseless 4000 (creates_tenant acme) people ≡ people
refused_unchanged_example =
    refused_unchanged caseless 4000 (creates_tenant acme) people second_refused

claim_done : is_err (bootstrap caseless 1000 acme ada (hash_of "h0") new).0 ≡ false
unfolding run step new create_tenant update_tenant create_account with_credential fold
    set_credential get put delete delete_where keep add_member remove_member member_key
    create_session encode_to_string bootstrap claim is_invalid_bootstrap is_refused tenant
    tenant_by_slug held_by_another credential session membership to_lower join truncate_us
claim_done = refl

abbrev pub installed : Store
installed = (bootstrap caseless 1000 acme ada (hash_of "h0") new).1

bootstrap_once_example :
    (bootstrap caseless 9000 acme ada
      (hash_of "")
      (run caseless ((2000, updates_tenant renamed_acme) ∷ []) installed)).0
    ≡ err (if is_invalid_bootstrap acme ada (hash_of "") then invalid else duplicate)
bootstrap_once_example =
    bootstrap_once caseless 1000 acme ada (hash_of "h0") new claim_done
      ((2000, updates_tenant renamed_acme) ∷ []) 9000 acme ada (hash_of "")

visit_done : is_err (create_session visit people).0 ≡ false
unfolding run step new create_tenant update_tenant create_account with_credential fold
    set_credential get put delete delete_where keep add_member remove_member member_key
    create_session encode_to_string bootstrap claim is_invalid_bootstrap is_refused tenant
    tenant_by_slug held_by_another credential session membership to_lower join truncate_us
visit_done = refl
