-- ===== src/Placement/Keeps.antt =====
-- The methods of placement/memory/memory.go one by one, and the claims.
use k8s_lab.Common.{
  String, true, false, ◌≡◌, sym, ◌==◌, string_eq, eq_iff, eq_refl, arith, some, ◌&&◌, not,
  any_of_mem, Bool-cases, inl, inr, ◌⊎◌,
}
use k8s_lab.Common.Map.{
  Map, get, put, delete, has, get-put, get-delete, has-put, entries, mem-entries,
}
use k8s_lab.Common.Text.{Unicode}
use k8s_lab.Common.Clock.{Time}
use k8s_lab.Common.Result.{Refuses, Succeeds}
use k8s_lab.Placement.{Placement, Trigger, collides, is_invalid, canonical_repo}
use k8s_lab.Placement.Store.{
  Store, key, key_of, is_taken, collides_with_other, release_unused, stamped, put_placement,
  delete_placement, set_trigger,
}
use k8s_lab.Placement.Claims.{IsHeld, IsClaimed, release_unused-IsClaimed}

beq_symm : (a b : String) → (a == b) ≡ (b == a)
beq_symm a b = ground (arith, eq_iff a b, eq_iff b a)

collides_symm : (p q : Placement) → collides p q ≡ collides q p
unfolding collides
collides_symm p q = cc (
  beq_symm p.repo_url q.repo_url,
  beq_symm p.branch q.branch,
  beq_symm p.path q.path,
  beq_symm p.namespace q.namespace,
  beq_symm p.app q.app,
)

-- The store that `Put` writes before it releases what nothing uses any more.
abbrev written : Placement → Placement → Store → Store
written p p' s = record s {
  owners = put p.repo_url p.tenant_id s.owners;
  ns_owners = put p.namespace p.tenant_id s.ns_owners;
  by_key = put (key_of p) p' s.by_key;
}

-- The store that `Delete` leaves before it does.
abbrev erased : String → Store → Store
erased k s = record s { by_key = delete k s.by_key; triggers = delete k s.triggers }

pub put_placement_cases :
    (now : Time) (p : Placement) (s : Store)
    → Refuses s (put_placement now p s)
      ⊎ ((is_invalid p ≡ false)
          × (is_taken p.tenant_id p.repo_url s.owners ≡ false)
          × (is_taken p.tenant_id p.namespace s.ns_owners ≡ false)
          × (collides_with_other p s.by_key ≡ false)
          × Succeeds (release_unused (written p (stamped now p s) s)) (put_placement now p s))
unfolding put_placement
put_placement_cases now p s = ground arith

pub set_trigger_cases :
    (u : Unicode) (t : Trigger) (s : Store)
    → Refuses s (set_trigger u t s)
      ⊎ ((has (key t.tenant_id t.app t.env) s.by_key ≡ true)
          × Succeeds
              (record s {
                triggers =
                    put
                      (key t.tenant_id t.app t.env)
                      (record t { repo_url = canonical_repo u t.repo_url })
                      s.triggers;
              })
              (set_trigger u t s))
unfolding set_trigger
set_trigger_cases u t s = ground arith

apart_from_others :
    (p q : Placement) (m : Map String Placement) (k : String)
    → collides_with_other p m ≡ false
    → get k m ≡ some q
    → (k == key_of p) ≡ false
    → collides p q ≡ false
unfolding collides_with_other
apart_from_others p q m k none_there at other = elim (Bool-cases (collides p q)) [
  | inl hit ↦
      let found =
        any_of_mem (λ x. not (x.0 == key_of p) && collides p x.1) (entries m)
          ((mem-entries m k q).1 at) (ground arith) in
      absurd (ground arith)
  | inr miss ↦ miss
]

-- A claim that `Put` lets through takes nothing from anybody.
still_held :
    (owners : Map String String) (name tenant x holder : String)
    → is_taken tenant name owners ≡ false
    → get x owners ≡ some holder
    → get x (put name tenant owners) ≡ some holder
unfolding is_taken
still_held owners name tenant x holder free at =
    ground (arith, get-put name x tenant owners, eq_iff name x, eq_iff holder tenant)

module _ (s : Store) (h : IsHeld s) where
  module _ (p : Placement) (c w : Time) (repo : is_taken p.tenant_id p.repo_url s.owners ≡ false)
      (ns : is_taken p.tenant_id p.namespace s.ns_owners ≡ false)
      (alone : collides_with_other p s.by_key ≡ false) where
    abbrev p' : Placement
    p' = record p { created_at = c; updated_at = w }

    written-apart :
        (i k : String) (q r : Placement)
        → get i (put (key_of p) p' s.by_key) ≡ some q
        → get k (put (key_of p) p' s.by_key) ≡ some r
        → (i == k) ≡ false
        → collides q r ≡ false
    unfolding collides_with_other collides
    written-apart i k q r at at' ne = elim (Bool-cases (key_of p == i)) [
      | inl here ↦
          let q' : q ≡ p' = ground (arith, get-put (key_of p) i p' s.by_key) in
          rw q' (
            apart_from_others p' r s.by_key k alone
              (ground (
                arith,
                get-put (key_of p) k p' s.by_key,
                eq_iff (key_of p) i,
                eq_iff (key_of p) k,
                eq_iff i k,
              ))
              (ground (arith, eq_iff (key_of p) i, eq_iff k (key_of p), eq_iff i k)))
      | inr there ↦ elim (Bool-cases (key_of p == k)) [
        | inl here ↦
            let r' : r ≡ p' = ground (arith, get-put (key_of p) k p' s.by_key) in
            rw (r', collides_symm q p')
              (apart_from_others p' q s.by_key i alone
                (ground (arith, get-put (key_of p) i p' s.by_key))
                (ground (arith, beq_symm (key_of p) i)))
        | inr neither ↦
            h.apart i k q r (ground (arith, get-put (key_of p) i p' s.by_key))
              (ground (arith, get-put (key_of p) k p' s.by_key)) ne
      ]
    ]

    written-IsHeld : IsHeld (written p p' s)
    written-IsHeld = record {
      keyed = λ k q at. elim (Bool-cases (key_of p == k)) [
        | inl here ↦
            let q' : q ≡ p' = ground (arith, get-put (key_of p) k p' s.by_key) in
            rw q' (sym ((eq_iff (key_of p) k).0 here))
        | inr there ↦ h.keyed k q (ground (arith, get-put (key_of p) k p' s.by_key))
      ];
      repo_held = λ k q at. elim (Bool-cases (key_of p == k)) [
        | inl here ↦
            let q' : q ≡ p' = ground (arith, get-put (key_of p) k p' s.by_key) in
            rw q' (
              ground
                (arith, get-put p.repo_url p.repo_url p.tenant_id s.owners, eq_refl p.repo_url))
        | inr there ↦
            still_held s.owners p.repo_url p.tenant_id q.repo_url q.tenant_id repo
              (h.repo_held k q (ground (arith, get-put (key_of p) k p' s.by_key)))
      ];
      namespace_held = λ k q at. elim (Bool-cases (key_of p == k)) [
        | inl here ↦
            let q' : q ≡ p' = ground (arith, get-put (key_of p) k p' s.by_key) in
            rw q' (
              ground (
                arith,
                get-put p.namespace p.namespace p.tenant_id s.ns_owners,
                eq_refl p.namespace,
              ))
        | inr there ↦
            still_held s.ns_owners p.namespace p.tenant_id q.namespace q.tenant_id ns
              (h.namespace_held k q (ground (arith, get-put (key_of p) k p' s.by_key)))
      ];
      apart = written-apart;
      triggered = λ k t at. has-put (key_of p) k p' s.by_key (h.triggered k t at);
    }

  erased-IsHeld : (d : String) → IsHeld (erased d s)
  erased-IsHeld d = record {
    keyed = λ k q at. h.keyed k q (ground (arith, get-delete d k s.by_key));
    repo_held = λ k q at. h.repo_held k q (ground (arith, get-delete d k s.by_key));
    namespace_held = λ k q at. h.namespace_held k q (ground (arith, get-delete d k s.by_key));
    apart = λ i k q r at at' ne.
        h.apart i k q r (ground (arith, get-delete d i s.by_key))
          (ground (arith, get-delete d k s.by_key)) ne;
    triggered = λ k t at.
        let old : get k s.triggers ≡ some t = ground (arith, get-delete d k s.triggers) in
        ground (arith, get-delete d k s.by_key, get-delete d k s.triggers, h.triggered k t old);
  }

pub put_placement-IsClaimed :
    (now : Time) (p : Placement) (s : Store) → IsClaimed s → IsClaimed (put_placement now p s).1
put_placement-IsClaimed now p s c = elim (put_placement_cases now p s) [
  | inl r ↦ rw r.1 c
  | inr (valid, repo, ns, alone, done) ↦ rw done.1 (
      release_unused-IsClaimed (written p (stamped now p s) s)
        (written-IsHeld s c.held p _ _ repo ns alone))
]

pub delete_placement-IsClaimed :
    (t app env : String) (s : Store) → IsClaimed s → IsClaimed (delete_placement t app env s)
unfolding delete_placement
delete_placement-IsClaimed t app env s c =
    release_unused-IsClaimed (erased (key t app env) s) (erased-IsHeld s c.held (key t app env))

pub set_trigger-IsClaimed :
    (u : Unicode) (t : Trigger) (s : Store) → IsClaimed s → IsClaimed (set_trigger u t s).1
set_trigger-IsClaimed u t s c = elim (set_trigger_cases u t s) [
  | inl r ↦ rw r.1 c
  | inr (known, done) ↦ rw done.1 (record {
    held = record {
      keyed = c.held.keyed;
      repo_held = c.held.repo_held;
      namespace_held = c.held.namespace_held;
      apart = c.held.apart;
      triggered = λ k x at.
          let old = c.held.triggered k x in
          ground (
            arith,
            get-put (key t.tenant_id t.app t.env) k
                (record t { repo_url = canonical_repo u t.repo_url }) s.triggers,
            eq_iff (key t.tenant_id t.app t.env) k,
            old,
          );
    };
    repo_live = c.repo_live;
    namespace_live = c.namespace_live;
  })
]
