-- ===== src/Auth/Access.antt =====
-- From a session to a decision: `subjectFrom` (server/login.go) before `Authorize`
-- (authz/rbac/rbac.go), over the store of identity/memory/memory.go.
use k8s_lab.Common.{
  String, true, false, [], ◌∷◌, ◌≡◌, ◌≢◌, sym, ap, ◌∙◌, subst, inl, inr, string_eq, eq_iff, eq_refl,
  arith,
}
use k8s_lab.Common.Map.{get, get-put, get-delete}
use k8s_lab.Common.Result.{ok, is_err}
use k8s_lab.Identity.{Tenant, Account, Membership, Session}
use k8s_lab.Identity.Store.{Store, member_key}
use k8s_lab.Identity.Accounts.{account}
use k8s_lab.Identity.Members.{membership, remove_member}
use k8s_lab.Identity.Tenants.{tenant, update_tenant}
use k8s_lab.Identity.Cases.{update_tenant_cases}
use k8s_lab.Authz.{Action, Subject, Target, authorize}
use k8s_lab.Authz.Permissions.{rank_of, required, is_enough, authorize_exact}
use k8s_lab.Auth.{subject_from}

-- What the rows say where there is a subject, and the subject that they make.
subject_cases :
    (x : Session) (tenant_id : String) (s : Store) (subject : Subject)
    → subject_from x tenant_id s ≡ ok subject
    → (a : Account) × (m : Membership) × (t : Tenant) × (account x.account_id s ≡ ok a)
      × (a.disabled ≡ false)
      × (membership x.account_id tenant_id s ≡ ok m)
      × (tenant m.tenant_id s ≡ ok t)
      × (t.suspended ≡ false)
      × (subject
          ≡ record { id = a.id; tenant = m.tenant_id; email = a.email; groups = m.role ∷ [] })
unfolding subject_from
subject_cases x tenant_id s subject h = ground arith

-- Whoever is allowed an action on a target has an account that is not disabled and holds, in the
-- store and in the target's tenant, which is not suspended, a role whose rank the action takes.
pub access_needs_membership :
    (x : Session) (tenant_id : String) (s : Store) (subject : Subject) (act : Action)
    (target : Target)
    → subject_from x tenant_id s ≡ ok subject
    → (authorize subject act target).allow ≡ true
    → (a : Account) × (m : Membership) × (t : Tenant) × (account x.account_id s ≡ ok a)
      × (a.disabled ≡ false)
      × (membership x.account_id tenant_id s ≡ ok m)
      × (m.tenant_id ≡ target.tenant)
      × (tenant target.tenant s ≡ ok t)
      × (t.suspended ≡ false)
      × (is_enough (rank_of (m.role ∷ [])) (required act) ≡ true)
access_needs_membership x tenant_id s subject act target h allowed =
    let (a, m, t, found, enabled, granted, there, active, made) =
      subject_cases x tenant_id s subject h in
    let exact = authorize_exact subject act target in
    let same : m.tenant_id ≡ target.tenant = ground (arith, eq_iff subject.tenant target.tenant) in
    (
      a,
      m,
      t,
      found,
      enabled,
      granted,
      same,
      subst (λ id. tenant id s ≡ ok t) same there,
      active,
      ground arith,
    )

-- Removing a membership cuts access at once: no session of the account yields a subject for that
-- tenant any more.
pub remove_member_cuts_access :
    (x : Session) (tenant_id : String) (s : Store)
    → is_err (subject_from x tenant_id (remove_member x.account_id tenant_id s).1) ≡ true
unfolding subject_from remove_member membership
remove_member_cuts_access x tenant_id s = ground (
  arith,
  get-delete (member_key x.account_id tenant_id) (member_key x.account_id tenant_id) s.members,
  eq_refl (member_key x.account_id tenant_id),
)

-- Suspending a tenant cuts access at once: after an update that suspends it, no session yields a
-- subject in it.
pub suspend_cuts_access :
    (t : Tenant) (x : Session) (tenant_id : String) (s : Store) (subject : Subject)
    → is_err (update_tenant t s).0 ≡ false
    → t.suspended ≡ true
    → subject_from x tenant_id (update_tenant t s).1 ≡ ok subject
    → subject.tenant ≢ t.id
unfolding tenant
suspend_cuts_access t x tenant_id s subject done suspended h same =
    let after = (update_tenant t s).1 in
    let (a, m, y, found, enabled, granted, there, active, made) =
      subject_cases x tenant_id after subject h in
    let moved : get m.tenant_id after.tenants ≡ get t.id after.tenants =
      ap (λ id. get id after.tenants) (sym (ap (λ (z : Subject). z.tenant) made) ∙ same) in
    elim (update_tenant_cases s t) [
      | inl r ↦ ground arith
      | inr (old, at, free, written) ↦ ground (
        arith,
        ap (λ (z : Store). get t.id z.tenants) written.1,
        get-put t.id t.id (record t { created_at = old.created_at }) s.tenants,
        eq_refl t.id,
      )
    ]
