-- ===== src/Placement/Claims.antt =====
-- The claims that placements make on repositories, namespaces and places: the invariant of the
-- store of placement/memory/memory.go.
use k8s_lab.Common.{
  String, true, false, ◌≡◌, ◌==◌, string_eq, eq_iff, eq_refl, arith, some, not, any, any_of_mem,
  mem_of_any,
}
use k8s_lab.Common.Map.{Map, get, has, get-nil, get-delete_where, values, mem-values}
use k8s_lab.Placement.{Placement, Trigger, collides}
use k8s_lab.Placement.Store.{Store, new, key_of, is_repo_used, is_namespace_used, release_unused}

-- Every placement is filed under its key, its tenant holds its repository and its namespace, no
-- two land in one place, and every trigger belongs to a placement.
pub record IsHeld (s : Store) : Type 0 where
  pub keyed : (k : String) (p : Placement) → get k s.by_key ≡ some p → k ≡ key_of p
  pub repo_held :
      (k : String) (p : Placement)
      → get k s.by_key ≡ some p
      → get p.repo_url s.owners ≡ some p.tenant_id
  pub namespace_held :
      (k : String) (p : Placement)
      → get k s.by_key ≡ some p
      → get p.namespace s.ns_owners ≡ some p.tenant_id
  pub apart :
      (j k : String) (p q : Placement)
      → get j s.by_key ≡ some p
      → get k s.by_key ≡ some q
      → (j == k) ≡ false
      → collides p q ≡ false
  pub triggered : (k : String) (t : Trigger) → get k s.triggers ≡ some t → has k s.by_key ≡ true

-- And nobody holds a repository or a namespace in which nothing is placed.
pub record IsClaimed (s : Store) : Type 0 where
  pub held : IsHeld s
  pub repo_live :
      (repo tenant : String)
      → get repo s.owners ≡ some tenant
      → (k : String) × (p : Placement) × (get k s.by_key ≡ some p) × (p.repo_url ≡ repo)
  pub namespace_live :
      (ns tenant : String)
      → get ns s.ns_owners ≡ some tenant
      → (k : String) × (p : Placement) × (get k s.by_key ≡ some p) × (p.namespace ≡ ns)

pub new-IsClaimed : IsClaimed new
unfolding new
new-IsClaimed = record {
  held = record {
    keyed = λ k p h. absurd (ground (arith, get-nil {V = Placement} k));
    repo_held = λ k p h. absurd (ground (arith, get-nil {V = Placement} k));
    namespace_held = λ k p h. absurd (ground (arith, get-nil {V = Placement} k));
    apart = λ j k p q h. absurd (ground (arith, get-nil {V = Placement} j));
    triggered = λ k t h. absurd (ground (arith, get-nil {V = Trigger} k));
  };
  repo_live = λ repo t h. absurd (ground (arith, get-nil {V = String} repo));
  namespace_live = λ ns t h. absurd (ground (arith, get-nil {V = String} ns));
}

module _ (by_key : Map String Placement) (k : String) (p : Placement)
    (at : get k by_key ≡ some p) where
  is_used : (name : Placement → String) → any (λ q. name q == name p) (values by_key) ≡ true
  is_used name =
      any_of_mem (λ q. name q == name p) (values by_key) ((mem-values by_key p).1 (k, at))
        (eq_refl (name p))

used_by :
    (by_key : Map String Placement) (name : Placement → String) (x : String)
    → any (λ q. name q == x) (values by_key) ≡ true
    → (k : String) × (p : Placement) × (get k by_key ≡ some p) × (name p ≡ x)
used_by by_key name x h =
    let (p, m, same) = mem_of_any (λ q. name q == x) (values by_key) h in
    let (k, at) = (mem-values by_key p).0 m in (k, p, at, (eq_iff (name p) x).0 same)

-- Releasing what is unused keeps every claim of a placement and leaves no other.
pub release_unused-IsClaimed : (s : Store) → IsHeld s → IsClaimed (release_unused s)
unfolding release_unused
release_unused-IsClaimed s h = record {
  held = record {
    keyed = h.keyed;
    repo_held = λ k p at. ground (
      arith,
      get-delete_where (λ repo t. not (is_repo_used s.by_key repo)) p.repo_url s.owners,
      is_used s.by_key k p at (λ q. q.repo_url),
      h.repo_held k p at,
    );
    namespace_held = λ k p at. ground (
      arith,
      get-delete_where (λ ns t. not (is_namespace_used s.by_key ns)) p.namespace s.ns_owners,
      is_used s.by_key k p at (λ q. q.namespace),
      h.namespace_held k p at,
    );
    apart = h.apart;
    triggered = h.triggered;
  };
  repo_live = λ repo t at.
      used_by s.by_key (λ q. q.repo_url) repo
        (ground
          (arith, get-delete_where (λ repo t. not (is_repo_used s.by_key repo)) repo s.owners));
  namespace_live = λ ns t at.
      used_by s.by_key (λ q. q.namespace) ns
        (ground
          (arith, get-delete_where (λ ns t. not (is_namespace_used s.by_key ns)) ns s.ns_owners));
}
