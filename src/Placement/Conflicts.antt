-- ===== src/Placement/Conflicts.antt =====
-- When `Put` of placement/memory/memory.go refuses, in terms of the placements alone.
use k8s_lab.Common.{
  String, true, false, ◌≡◌, ◌≢◌, ◌↔◌, ◌==◌, string_eq, eq_iff, ap, arith, ◌⊎◌, Option-cases,
  Bool-cases, inl, inr, some, ◌&&◌, not, any_of_mem, mem_of_any,
}
use k8s_lab.Common.Map.{Map, get, entries, mem-entries}
use k8s_lab.Common.Clock.{Time}
use k8s_lab.Common.Result.{is_err}
use k8s_lab.Placement.{Placement, is_invalid, collides}
use k8s_lab.Placement.Store.{Store, key_of, is_taken, collides_with_other, put_placement}
use k8s_lab.Placement.Claims.{IsClaimed}

-- A placement `q` stored under `k` stands in the way of `p`: another tenant's in the same
-- repository or the same namespace, or one of another environment in the same place.
abbrev pub IsInTheWay : Placement → String → Placement → Type 0
IsInTheWay p k q =
    ((q.tenant_id ≢ p.tenant_id) × ((q.repo_url ≡ p.repo_url) ⊎ (q.namespace ≡ p.namespace)))
    ⊎ ((k ≢ key_of p) × (collides p q ≡ true))

abbrev pub IsBlocked : Placement → Store → Type 0
IsBlocked p s = (k : String) × (q : Placement) × (get k s.by_key ≡ some q) × IsInTheWay p k q

module _ (p : Placement) (s : Store) (c : IsClaimed s) where
  IsBlocked-by_repo : is_taken p.tenant_id p.repo_url s.owners ≡ true → IsBlocked p s
  unfolding is_taken
  IsBlocked-by_repo h = elim (Option-cases (get p.repo_url s.owners)) [
    | inl e ↦ absurd (ground arith)
    | inr (owner, e) ↦
        let (k, q, at, r) = c.repo_live p.repo_url owner e in
        let mine = c.held.repo_held k q at in
        let same = ap (λ x. get x s.owners) r in
        (k, q, at, inl (λ t. ground (arith, eq_iff owner p.tenant_id), inl r))
  ]

  IsBlocked-by_namespace : is_taken p.tenant_id p.namespace s.ns_owners ≡ true → IsBlocked p s
  unfolding is_taken
  IsBlocked-by_namespace h = elim (Option-cases (get p.namespace s.ns_owners)) [
    | inl e ↦ absurd (ground arith)
    | inr (owner, e) ↦
        let (k, q, at, r) = c.namespace_live p.namespace owner e in
        let mine = c.held.namespace_held k q at in
        let same = ap (λ x. get x s.ns_owners) r in
        (k, q, at, inl (λ t. ground (arith, eq_iff owner p.tenant_id), inr r))
  ]

  IsBlocked-by_place : collides_with_other p s.by_key ≡ true → IsBlocked p s
  unfolding collides_with_other
  IsBlocked-by_place h =
      let ((k, q), m, hit) =
        mem_of_any (λ x. not (x.0 == key_of p) && collides p x.1) (entries s.by_key) h in
      (
        k,
        q,
        (mem-entries s.by_key k q).0 m,
        inr (λ e. ground (arith, eq_iff k (key_of p)), ground arith),
      )

  taken_of_other :
      (name tenant : String) (owners : Map String String)
      → get name owners ≡ some tenant
      → tenant ≢ p.tenant_id
      → is_taken p.tenant_id name owners ≡ true
  unfolding is_taken
  taken_of_other name tenant owners at ne = ground (arith, eq_iff tenant p.tenant_id)

  -- In a store whose claims are exact, a valid placement is refused if and only if a stored placement
  -- stands in its way: another tenant's in the same repository or the same namespace, or one under
  -- another key in the same directory of one branch or of the same app in one namespace.
  pub put_placement_refuses_exactly :
      (now : Time)
      → is_invalid p ≡ false
      → (is_err (put_placement now p s).0 ≡ true) ↔ IsBlocked p s
  unfolding put_placement
  put_placement_refuses_exactly now valid = (blocked, refused)
    where
      blocked : is_err (put_placement now p s).0 ≡ true → IsBlocked p s
      blocked h = elim (Bool-cases (is_taken p.tenant_id p.repo_url s.owners)) [
        | inl e ↦ IsBlocked-by_repo e
        | inr e ↦ elim (Bool-cases (is_taken p.tenant_id p.namespace s.ns_owners)) [
          | inl e' ↦ IsBlocked-by_namespace e'
          | inr e' ↦ IsBlocked-by_place (ground arith)
        ]
      ]

      refused : IsBlocked p s → is_err (put_placement now p s).0 ≡ true
      refused (k, q, at, inl (ne, inl r)) = ground (
        arith,
        taken_of_other q.repo_url q.tenant_id s.owners (c.held.repo_held k q at) ne,
        ap (λ x. is_taken p.tenant_id x s.owners) r,
      )
      refused (k, q, at, inl (ne, inr n)) = ground (
        arith,
        taken_of_other q.namespace q.tenant_id s.ns_owners (c.held.namespace_held k q at) ne,
        ap (λ x. is_taken p.tenant_id x s.ns_owners) n,
      )
      refused (k, q, at, inr (ne, hit)) =
          let found : collides_with_other p s.by_key ≡ true =
            (unfold collides_with_other in
              any_of_mem (λ x. not (x.0 == key_of p) && collides p x.1) (entries s.by_key)
                ((mem-entries s.by_key k q).1 at) (ground (arith, eq_iff k (key_of p)))) in
          ground arith
