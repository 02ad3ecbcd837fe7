-- ===== src/Examples/Access.antt =====
-- auth/session.go, server/login.go and authz/rbac/rbac.go with one company in the store.
use k8s_lab.Common.{
  String, true, false, [], ◌∷◌, ◌+◌, ◌≡◌, refl, arith, eq_iff, if◌then◌else◌, ◌==◌, ◌&&◌, not,
  nat_eq, list_eq, string_eq, some, keep,
}
use k8s_lab.Common.Text.{caseless, to_lower, trim_space, trim_suffix, join}
use k8s_lab.Common.Clock.{truncate_us, before}
use k8s_lab.Common.Result.{ok, err, is_err}
use k8s_lab.Common.Map.{get, put, delete, delete_where}
use k8s_lab.Identity.{Tenant, Account, Membership, role_member}
use k8s_lab.Identity.Store.{Store, new, fold, member_key, encode_to_string}
use k8s_lab.Identity.Tenants.{create_tenant, update_tenant, tenant}
use k8s_lab.Identity.Accounts.{create_account, with_credential, account}
use k8s_lab.Identity.Members.{add_member, membership, remove_member}
use k8s_lab.Identity.Sessions.{create_session, session}
use k8s_lab.Identity.Cases.{stored_session}
use k8s_lab.Identity.History.{step, run}
use k8s_lab.Authz.{Subject, Target, app_deploy, authorize, strongest, take_group, decide_action}
use k8s_lab.Authz.Permissions.{authorize_exact, is_enough, rank_of, required}
use k8s_lab.Auth.{
  Sessions, Request, lax, no_session, subject_from, issue, issued, issued_cookie, resolve, ttl,
}
use k8s_lab.Auth.Host.{canonical_host}
use k8s_lab.Auth.Access.{access_needs_membership}
use k8s_lab.Auth.Cookies.{issue_resolves, is_bound}
use k8s_lab.Examples.People.{people, visit, granted}

abbrev staff : Store
staff = run caseless granted new

abbrev subject : Subject
subject = record { id = "a1"; tenant = "t1"; email = "ada@acme.test"; groups = role_member ∷ [] }

abbrev target : Target
target = record { tenant = "t1"; app = "api"; env = "prod" }

authorize_exact_example :
    (authorize subject app_deploy target).allow
    ≡ (not (subject.tenant == "") && subject.tenant == target.tenant)
      && is_enough (rank_of (role_member ∷ [])) (required app_deploy)
authorize_exact_example = authorize_exact subject app_deploy target

subject_made : subject_from visit "t1" staff ≡ ok subject
unfolding run step new create_tenant update_tenant create_account with_credential fold get put
    delete delete_where keep add_member remove_member member_key create_session encode_to_string
    account tenant membership subject_from authorize strongest take_group decide_action to_lower
    join truncate_us issue issued issued_cookie canonical_host trim_space trim_suffix session
subject_made = refl

deploy_allowed : (authorize subject app_deploy target).allow ≡ true
unfolding run step new create_tenant update_tenant create_account with_credential fold get put
    delete delete_where keep add_member remove_member member_key create_session encode_to_string
    account tenant membership subject_from authorize strongest take_group decide_action to_lower
    join truncate_us issue issued issued_cookie canonical_host trim_space trim_suffix session
deploy_allowed = refl

access_needs_membership_example :
    (a : Account) × (m : Membership) × (t : Tenant) × (account "a1" staff ≡ ok a)
    × (a.disabled ≡ false)
    × (membership "a1" "t1" staff ≡ ok m)
    × (m.tenant_id ≡ target.tenant)
    × (tenant "t1" staff ≡ ok t)
    × (t.suspended ≡ false)
    × (is_enough (rank_of (m.role ∷ [])) (required app_deploy) ≡ true)
access_needs_membership_example =
    access_needs_membership visit "t1" staff subject app_deploy target subject_made deploy_allowed

abbrev globex : Tenant
globex = record {
  id = "t2";
  slug = "globex";
  display_name = "Globex";
  suspended = true;
  created_at = 0;
}

abbrev two_tenants : Store
two_tenants = (create_tenant 4000 (record globex { suspended = false }) staff).1

suspended : is_err (update_tenant globex two_tenants).0 ≡ false
unfolding run step new create_tenant update_tenant create_account with_credential fold get put
    delete delete_where keep add_member remove_member member_key create_session encode_to_string
    account tenant membership subject_from authorize strongest take_group decide_action to_lower
    join truncate_us issue issued issued_cookie canonical_host trim_space trim_suffix session
suspended = refl

still_subject : subject_from visit "t1" (update_tenant globex two_tenants).1 ≡ ok subject
unfolding run step new create_tenant update_tenant create_account with_credential fold get put
    delete delete_where keep add_member remove_member member_key create_session encode_to_string
    account tenant membership subject_from authorize strongest take_group decide_action to_lower
    join truncate_us issue issued issued_cookie canonical_host trim_space trim_suffix session
still_subject = refl

-- SHA-256 does not matter here: a digest of one byte stands for it.
abbrev pub cookies : Sessions
cookies = record { ttl_set = 60_000_000_000; secure = true; same_site = lax; sum256 = λ t. 9 ∷ [] }

abbrev pub request : String → Request
request host = record { cookie = some "token"; host = host }

issue_done : is_err (issue caseless cookies 1000 "token" "a1" "acme.test:443" people).0 ≡ false
unfolding run step new create_tenant update_tenant create_account with_credential fold get put
    delete delete_where keep add_member remove_member member_key create_session encode_to_string
    account tenant membership subject_from authorize strongest take_group decide_action to_lower
    join truncate_us issue issued issued_cookie canonical_host trim_space trim_suffix session
issue_done = refl

issue_resolves_example :
    resolve caseless cookies 2000
      (request "acme.test")
      (issue caseless cookies 1000 "token" "a1" "acme.test:443" people).1
    ≡ (if before 2000 (truncate_us (1000 + ttl cookies))
          && is_bound
              (canonical_host caseless "acme.test:443")
              (canonical_host caseless "acme.test")
        then ok (stored_session (issued caseless cookies 1000 "token" "a1" "acme.test:443"))
        else err no_session)
issue_resolves_example =
    issue_resolves caseless cookies 1000 2000 "token" "a1" "acme.test:443" people
      (request "acme.test") (λ e. ground (arith, eq_iff "token" "")) issue_done refl
