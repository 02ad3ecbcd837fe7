-- ===== src/Placement/Isolation.antt =====
-- What the claims of placement/memory/memory.go promise to a tenant.
use k8s_lab.Common.{
  String, false, List, ◌≡◌, ◌≢◌, ◌↔◌, ap, string_eq, eq_iff, arith, some, some, inl, inr, ◌⊎◌,
}
use k8s_lab.Common.Map.{get}
use k8s_lab.Common.Text.{Unicode}
use k8s_lab.Common.Clock.{Time}
use k8s_lab.Placement.{Placement, collides}
use k8s_lab.Placement.Store.{Store, new, repo_owner}
use k8s_lab.Placement.Claims.{IsHeld, IsClaimed, new-IsClaimed}
use k8s_lab.Placement.History.{Call, run, run-IsClaimed}

-- A placement that is stored under a key.
abbrev pub IsPlaced : Store → String → Placement → Type 0
IsPlaced s k p = get k s.by_key ≡ some p

isolated :
    (s : Store)
    → IsHeld s
    → (j k : String) (p q : Placement) → IsPlaced s j p
    → IsPlaced s k q
    → (p.repo_url ≡ q.repo_url) ⊎ (p.namespace ≡ q.namespace)
    → p.tenant_id ≡ q.tenant_id
isolated s h j k p q at at' (inl e) =
    ground (arith, h.repo_held j p at, h.repo_held k q at', ap (λ r. get r s.owners) e)
isolated s h j k p q at at' (inr e) =
    ground (arith, h.namespace_held j p at, h.namespace_held k q at', ap (λ r. get r s.ns_owners) e)

-- After any calls on a new store two placements with one repository, or with one namespace, are of
-- one tenant, whatever their apps and environments.
pub reachable_isolated :
    (u : Unicode) (calls : List (Time × Call)) (j k : String) (p q : Placement)
    → IsPlaced (run u calls new) j p
    → IsPlaced (run u calls new) k q
    → (p.repo_url ≡ q.repo_url) ⊎ (p.namespace ≡ q.namespace)
    → p.tenant_id ≡ q.tenant_id
reachable_isolated u calls j k p q at at' same =
    let c = run-IsClaimed u calls new new-IsClaimed in
    isolated (run u calls new) c.held j k p q at at' same

-- After any calls on a new store two placements with different keys neither write one directory
-- of one branch of one repository nor run as one workload in one namespace.
pub reachable_apart :
    (u : Unicode) (calls : List (Time × Call)) (j k : String) (p q : Placement)
    → IsPlaced (run u calls new) j p
    → IsPlaced (run u calls new) k q
    → j ≢ k
    → (¬ ((p.repo_url ≡ q.repo_url) × (p.branch ≡ q.branch) × (p.path ≡ q.path)))
      × (¬ ((p.namespace ≡ q.namespace) × (p.app ≡ q.app)))
unfolding collides
reachable_apart u calls j k p q at at' ne =
    let c = run-IsClaimed u calls new new-IsClaimed in
    let no : collides p q ≡ false = c.held.apart j k p q at at' (ground (arith, eq_iff j k)) in
    (
      λ h.
          ground (
            arith,
            no,
            eq_iff q.repo_url p.repo_url,
            eq_iff q.branch p.branch,
            eq_iff q.path p.path,
          ),
      λ h. ground (arith, no, eq_iff q.namespace p.namespace, eq_iff q.app p.app),
    )

-- In a store whose claims are exact, `RepoOwner` names a tenant, whose id is not empty, exactly when
-- one of the placements in the repository is that tenant's.
pub repo_owner_exact :
    (s : Store) (repo tenant : String)
    → IsClaimed s
    → tenant ≢ ""
    → (repo_owner repo s ≡ tenant) ↔ (
        (k : String) × (p : Placement) × IsPlaced s k p
        × (p.repo_url ≡ repo)
        × (p.tenant_id ≡ tenant))
unfolding repo_owner
repo_owner_exact s repo tenant c ne =
    (found, λ (k, p, at, r, t). ground (arith, c.held.repo_held k p at, ap (λ x. get x s.owners) r))
  where
    found :
        (repo_owner repo s ≡ tenant)
        → (k : String) × (p : Placement) × IsPlaced s k p
          × (p.repo_url ≡ repo)
          × (p.tenant_id ≡ tenant)
    found e =
        let owned : get repo s.owners ≡ some tenant = ground arith in
        let (k, p, at, r) = c.repo_live repo tenant owned in
        (k, p, at, r, ground (arith, c.held.repo_held k p at, ap (λ x. get x s.owners) r))
