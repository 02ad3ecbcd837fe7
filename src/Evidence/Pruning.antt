-- ===== src/Evidence/Pruning.antt =====
-- What `Prune` of evidence/memory/memory.go deletes.
pub mod Rounds
use k8s_lab.Common.{
  String, Bool, true, false, List, [], ◌∷◌, ◌-◌, ◌≡◌, refl, sym, ap, ◌∙◌, subst, none, some, ◌||◌,
  not, ◌==◌, string_eq, eq_iff, eq_refl, arith, if◌then◌else◌, inl, inr, Option-cases, Bool-cases,
  Memᴰ, nat_eqb,
}
use mathlib.Core.List.Memᴰ
use k8s_lab.Common.Map.{Map, get, get-delete}
use k8s_lab.Common.Clock.{Time, before}
use k8s_lab.Common.Result.{ok, err}
use k8s_lab.Evidence.{Ref, ref_eq, ref_eqb_iff, Record, PruneResult, not_found}
use k8s_lab.Evidence.Store.{Store, get_record}
use k8s_lab.Evidence.Reads.{
  records_of, records, current, is_current, is_kept, prune_one, prune_loop, prune,
}
use k8s_lab.Evidence.Links.{records_of-there, records_of-gone}
use k8s_lab.Evidence.Consistent.{IsConsistent}
use k8s_lab.Evidence.Current.{current_exact}

some_injective : (x y : Record) → some x ≡ some y → x ≡ y
some_injective x y e = ground arith

-- The records of an order are the stored ones, each under its id.
pub mem-records_of :
    (m : Map String Record) (ids : List String) (x : Record)
    → Memᴰ x (records_of m ids)
    → (id : String) × (get id m ≡ some x)
unfolding records_of
mem-records_of m [] x n = absurd (Memᴰ.not-nil n)
mem-records_of m (id ∷ ids) x n = elim (Option-cases (get id m)) [
  | inl e ↦ mem-records_of m ids x (subst (Memᴰ x) (records_of-gone m id ids e) n)
  | inr (r, e) ↦ elim (Memᴰ.cases_cons (subst (Memᴰ x) (records_of-there m id ids r e) n)) [
    | inl same ↦ (id, e ∙ ap some (sym same))
    | inr k ↦ mem-records_of m ids x k
  ]
]

pub mem_of_ordered :
    (m : Map String Record) (ids : List String) (id : String) (r : Record)
    → Memᴰ id ids
    → get id m ≡ some r
    → Memᴰ r (records_of m ids)
unfolding records_of
mem_of_ordered m [] id r n at = absurd (Memᴰ.not-nil n)
mem_of_ordered m (j ∷ ids) id r n at = elim (Memᴰ.cases_cons n) [
  | inl same ↦
      subst (Memᴰ r) (sym (records_of-there m j ids r (ap (λ i. get i m) (sym same) ∙ at)))
        (Memᴰ.head refl)
  | inr k ↦
      let rest = mem_of_ordered m ids id r k at in
      elim (Option-cases (get j m)) [
        | inl e ↦ subst (Memᴰ r) (sym (records_of-gone m j ids e)) rest
        | inr (x, e) ↦ subst (Memᴰ r) (sym (records_of-there m j ids x e)) (Memᴰ.tail rest)
      ]
]

module _ (cutoff : Time) (s : Store) where
  pub prune_one-get :
      (x : Record) (acc : PruneResult × Store) (id : String)
      → get id (prune_one cutoff s x acc).1.by_id
        ≡ (if is_kept cutoff s x || not (x.id == id) then get id acc.1.by_id else none)
  unfolding prune_one
  prune_one-get x acc id = elim (Bool-cases (is_kept cutoff s x)) [
    | inl k ↦ rw k refl
    | inr k ↦ rw k (get-delete x.id id acc.1.by_id ∙ flip (x.id == id))
  ]
    where
      flip :
          (b : Bool)
          → (if b then none else get id acc.1.by_id) ≡ (if not b then get id acc.1.by_id else none)
      flip true = refl
      flip false = refl

  -- What is gone stays gone.
  pub loop_gone :
      (id : String) (rs : List Record) (acc : PruneResult × Store)
      → get id acc.1.by_id ≡ none
      → get id (prune_loop cutoff s rs acc).1.by_id ≡ none
  unfolding prune_loop
  loop_gone id [] acc e = e
  loop_gone id (x ∷ rs) acc e =
      loop_gone id rs (prune_one cutoff s x acc) (ground (arith, prune_one-get x acc id))

  -- A record that no round deletes is there in the end.
  loop_keeps :
      (id : String) (r : Record) (rs : List Record) (acc : PruneResult × Store)
      → ((x : Record) → Memᴰ x rs → x.id ≡ id → is_kept cutoff s x ≡ true)
      → get id acc.1.by_id ≡ some r
      → get id (prune_loop cutoff s rs acc).1.by_id ≡ some r
  unfolding prune_loop
  loop_keeps id r [] acc safe e = e
  loop_keeps id r (x ∷ rs) acc safe e =
      let first = safe x (Memᴰ.head refl) in
      loop_keeps id r rs (prune_one cutoff s x acc) (λ y m. safe y (Memᴰ.tail m))
        (ground (arith, prune_one-get x acc id, eq_iff x.id id))

  -- One that some round deletes is not.
  loop_drops :
      (id : String) (x : Record) (rs : List Record) (acc : PruneResult × Store)
      → Memᴰ x rs
      → x.id ≡ id
      → is_kept cutoff s x ≡ false
      → get id (prune_loop cutoff s rs acc).1.by_id ≡ none
  unfolding prune_loop
  loop_drops id x [] acc m e k = absurd (Memᴰ.not-nil m)
  loop_drops id x (y ∷ ys) acc m e k = elim (Memᴰ.cases_cons m) [
    | inl same ↦
        let kept = ap (is_kept cutoff s) same in
        let named = ap (λ (z : Record). z.id) same in
        loop_gone id ys (prune_one cutoff s y acc)
          (ground (arith, prune_one-get y acc id, eq_iff y.id id))
    | inr n ↦ loop_drops id x ys (prune_one cutoff s y acc) n e k
  ]

current_kept :
    (ref : Ref) (s : Store) (r : Record) (cutoff : Time)
    → current ref s ≡ ok r
    → is_kept cutoff s r ≡ true
unfolding is_kept is_current
current_kept ref s r cutoff e =
    let (m, c, top) = (current_exact ref s).0 r e in
    let same : r.ref ≡ ref = (ref_eqb_iff r.ref ref).0 (ground arith) in
    let now : current r.ref s ≡ ok r = ap (λ q. current q s) same ∙ e in
    ground (arith, now, eq_refl r.id)

is_kept_lem :
    (cutoff : Time) (s : Store) (r : Record)
    → is_kept cutoff s r ≡ (not (before r.created_at cutoff) || is_current s r)
unfolding is_kept
is_kept_lem cutoff s r = refl

pub prune-nothing : (now : Time) (s : Store) → nat_eqb s.window 0 ≡ true → (prune now s).1 ≡ s
unfolding prune
prune-nothing now s z = rw z refl

pub prune-kept :
    (now : Time) (s : Store)
    → IsConsistent s
    → (id : String) (r : Record) → get id s.by_id ≡ some r
    → is_kept (now - s.window) s r ≡ true
    → get id (prune now s).1.by_id ≡ some r
unfolding prune
prune-kept now s c id r at k = elim (Bool-cases (nat_eqb s.window 0)) [
  | inl z ↦ rw z at
  | inr w ↦ rw w (
      loop_keeps (now - s.window) s id r (records s) _
        (λ x m named.
          let (j, there) = mem-records_of s.by_id s.order x m in
          let own = (c.of_id j x there).0 in
          let same =
            some_injective x r (sym there ∙ ap (λ i. get i s.by_id) (sym own ∙ named) ∙ at) in
          ap (is_kept (now - s.window) s) same ∙ k)
        at)
]

pub prune-dropped :
    (now : Time) (s : Store)
    → IsConsistent s
    → (id : String) (r : Record) → get id s.by_id ≡ some r
    → Memᴰ id s.order
    → nat_eqb s.window 0 ≡ false
    → is_kept (now - s.window) s r ≡ false
    → get id (prune now s).1.by_id ≡ none
unfolding prune
prune-dropped now s c id r at m w k = rw w (
    loop_drops (now - s.window) s id r (records s) _ (mem_of_ordered s.by_id s.order id r m at)
      (c.of_id id r at).0 k)

-- `Prune` of a consistent store, on the records that the order names.
pub prune_of_consistent :
    (now : Time) (s : Store)
    → IsConsistent s
    → ((id : String) (r : Record)
        → get id s.by_id ≡ some r
        → Memᴰ id s.order
        → get_record id (prune now s).1 ≡ (
            if nat_eqb s.window 0 || (not (before r.created_at (now - s.window)) || is_current s r)
            then ok r
            else err not_found))
      × ((ref : Ref) (r : Record) → current ref s ≡ ok r → get_record r.id (prune now s).1 ≡ ok r)
unfolding prune get_record
prune_of_consistent now s c = (
  λ id r at m. elim (Bool-cases (nat_eqb s.window 0)) [
    | inl z ↦ ground (arith, prune-nothing now s z)
    | inr w ↦ elim (Bool-cases (is_kept (now - s.window) s r)) [
      | inl k ↦ ground (arith, prune-kept now s c id r at k, is_kept_lem (now - s.window) s r)
      | inr k ↦
          ground (arith, prune-dropped now s c id r at m w k, is_kept_lem (now - s.window) s r)
    ]
  ],
  λ ref r e.
      let (m, live, top) = (current_exact ref s).0 r e in
      let (id, at) = mem-records_of s.by_id s.order r m in
      let named = (c.of_id id r at).0 in
      ground (
        arith,
        prune-kept now s c r.id r (ap (λ i. get i s.by_id) named ∙ at)
            (current_kept ref s r (now - s.window) e),
      ),
)
