-- ===== src/Deploywatch/Loop.antt =====
-- The observer of internal/deploywatch/deploywatch.go as a level-triggered loop.
use k8s_lab.Common.{
  String, Bool, true, false, List, [], ◌∷◌, ◌≡◌, ◌≢◌, refl, sym, ap, ◌∙◌, subst, Option, none, some,
  ◌||◌, ◌==◌, string_eq, nat_eq, list_eq, eq_iff, if◌then◌else◌, arith, inl, inr, Option-cases,
  Bool-cases,
}
use k8s_lab.Common.Map.{get, get-put}
use k8s_lab.Common.Clock.{is_zero}
use k8s_lab.Common.Result.{ok}
use k8s_lab.Evidence.{Record}
use k8s_lab.Evidence.Chain.{Hasher}
use k8s_lab.Evidence.Store.{Store, get_record, moved, is_elsewhere}
use k8s_lab.Evidence.Consistent.{IsConsistent, moved-IsConsistent}
use k8s_lab.Deploywatch.{
  Deployment, Lookup, found, absent, unreadable, Clock, move, derive, allowed_from, reconcile,
}
use k8s_lab.Deploywatch.Settled.{
  is_settled, settled_elsewhere, movable, moves, after_move, reconcile-movable,
}

some_injective : (r x : Record) → some r ≡ some x → r ≡ x
some_injective r x e = ground arith

true_ne_false : true ≢ false
true_ne_false e = ground arith

chosen :
    (b c f e : Bool) (r rec : Record)
    → (if b || (c || (f || e)) then none else some r) ≡ some rec
    → (r ≡ rec) × (f ≡ false) × (e ≡ false)
chosen false false false false r rec q = (ground arith, refl, refl)
chosen true c f e r rec q = absurd (ground arith)
chosen false true f e r rec q = absurd (ground arith)
chosen false false true e r rec q = absurd (ground arith)
chosen false false false true r rec q = absurd (ground arith)

abbrev unless_held : Deployment → Record → Option Record
unless_held d r =
    if (derive d).0 == ""
      || (r.state == (derive d).0
          || (allowed_from (derive d).0 == [] || is_elsewhere (allowed_from (derive d).0) r.state))
    then none
    else some r

movable-some :
    (d : Deployment) (s : Store) (rec : Record)
    → movable d s ≡ some rec
    → (get d.rollout s.by_id ≡ some rec)
      × ((allowed_from (derive d).0 == []) ≡ false)
      × (is_elsewhere (allowed_from (derive d).0) rec.state ≡ false)
movable-some d s rec e = elim (Bool-cases (d.rollout == "")) [
  | inl a ↦ absurd (let gone : movable d s ≡ none = rw a refl in ground arith)
  | inr a ↦ elim (Option-cases (get d.rollout s.by_id)) [
    | inl n ↦ absurd (let gone : movable d s ≡ none = rw (a, n) refl in ground arith)
    | inr (r, at) ↦
        let here : movable d s ≡ unless_held d r = rw (a, at) refl in
        let (same, some_from, not_there) =
          chosen ((derive d).0 == "") (r.state == (derive d).0) (allowed_from (derive d).0 == [])
            (is_elsewhere (allowed_from (derive d).0) r.state) r rec (sym here ∙ e) in
        (
          at ∙ ap some same,
          some_from,
          ap (λ (x : Record). is_elsewhere (allowed_from (derive d).0) x.state) (sym same)
              ∙ not_there,
        )
  ]
]

movable_again :
    (d : Deployment) (s : Store) (rec : Record)
    → get d.rollout s.by_id ≡ some rec
    → rec.state ≡ (derive d).0
    → movable d s ≡ none
movable_again d s rec at e = elim (Bool-cases (d.rollout == "")) [
  | inl a ↦ rw a refl
  | inr a ↦ elim (Bool-cases ((derive d).0 == "")) [
    | inl b ↦ rw (a, at, b) refl
    | inr b ↦
        let same : (rec.state == (derive d).0) ≡ true = (eq_iff rec.state (derive d).0).1 e in
        rw (a, at, b, same) refl
  ]
]

module _ (h : Hasher) where
  moved-state :
      (clock : Clock) (d : Deployment) (rec : Record)
      → (moved h clock.stored (move clock d rec) rec).state ≡ (derive d).0
  unfolding moved
  moved-state clock d rec = refl

  after_move-IsConsistent :
      (clock : Clock) (d : Deployment) (s : Store) (o : Option Record)
      → IsConsistent s
      → ((rec : Record) → o ≡ some rec → get rec.id s.by_id ≡ some rec)
      → IsConsistent (after_move h clock d s o)
  after_move-IsConsistent clock d s none c known = c
  after_move-IsConsistent clock d s (some rec) c known = elim (Bool-cases (is_zero clock.at)) [
    | inl z ↦ rw z c
    | inr z ↦
        rw z (moved-IsConsistent h s c clock.stored rec.id (move clock d rec) rec (known rec refl))
  ]

  known_of_choice :
      (d : Deployment) (s : Store)
      → IsConsistent s
      → (rec : Record) → movable d s ≡ some rec
      → (rec.id ≡ d.rollout) × (get rec.id s.by_id ≡ some rec)
  known_of_choice d s c rec e =
      let at = (movable-some d s rec e).0 in
      let named = (c.of_id d.rollout rec at).0 in (named, ap (λ i. get i s.by_id) named ∙ at)

  pub reconcile-IsConsistent :
      (clock : Clock) (l : Lookup) (s : Store)
      → IsConsistent s
      → IsConsistent (reconcile h clock l s).1
  unfolding reconcile
  reconcile-IsConsistent clock absent s c = c
  reconcile-IsConsistent clock unreadable s c = c
  reconcile-IsConsistent clock (found d) s c =
      subst IsConsistent (sym (reconcile-movable h clock d s c)) (
        after_move-IsConsistent clock d s (movable d s) c
          (λ rec e. (known_of_choice d s c rec e).1))

  settled_stays :
      (clock : Clock) (d : Deployment) (s : Store) (id : String) (r : Record)
      → IsConsistent s
      → get id s.by_id ≡ some r
      → is_settled r.state ≡ true
      → (o : Option Record) → movable d s ≡ o
      → get id (after_move h clock d s o).by_id ≡ some r
  settled_stays clock d s id r c at e none q = at
  settled_stays clock d s id r c at e (some rec) q = elim (Bool-cases (is_zero clock.at)) [
    | inl z ↦ rw z at
    | inr z ↦
        let there = movable-some d s rec q in
        let named = known_of_choice d s c rec q in
        rw z (elim (Bool-cases (rec.id == id)) [
          | inl here ↦
              let same : rec ≡ r =
                some_injective rec r
                  (sym named.1 ∙ ap (λ i. get i s.by_id) ((eq_iff rec.id id).0 here) ∙ at) in
              let settled = settled_elsewhere r.state (derive d).0 e there.1 in
              let moved_from =
                ap (λ (x : Record). is_elsewhere (allowed_from (derive d).0) x.state) same in
              absurd (true_ne_false (sym settled ∙ sym moved_from ∙ there.2))
          | inr other ↦
              get-put rec.id id (moved h clock.stored (move clock d rec) rec) s.by_id ∙ rw other at
        ])
  ]

  -- Any looks at any Deployments, one after the other.
  unfoldable pub observe : List (Clock × Lookup) → Store → Store
  observe [] s = s
  observe ((clock, l) ∷ rest) s = observe rest (reconcile h clock l s).1

  one_look :
      (clock : Clock) (l : Lookup) (s : Store) (id : String) (r : Record)
      → IsConsistent s
      → get id s.by_id ≡ some r
      → is_settled r.state ≡ true
      → get id (reconcile h clock l s).1.by_id ≡ some r
  unfolding reconcile
  one_look clock absent s id r c at e = at
  one_look clock unreadable s id r c at e = at
  one_look clock (found d) s id r c at e =
      ap (λ (z : Store). get id z.by_id) (reconcile-movable h clock d s c)
      ∙ settled_stays clock d s id r c at e (movable d s) refl

  -- A rollout that is running, failed or rejected stays so: in a consistent store, whatever
  -- Deployments the observer sees afterwards, in any order, the record is read as it was.
  pub settled_is_final :
      (looks : List (Clock × Lookup)) (s : Store) (id : String) (r : Record)
      → IsConsistent s
      → get id s.by_id ≡ some r
      → is_settled r.state ≡ true
      → get_record id (observe looks s) ≡ ok r
  unfolding observe get_record
  settled_is_final [] s id r c at e = ground arith
  settled_is_final ((clock, l) ∷ rest) s id r c at e =
      settled_is_final rest (reconcile h clock l s).1 id r (reconcile-IsConsistent clock l s c)
        (one_look clock l s id r c at e) e

  again :
      (first later : Clock) (d : Deployment) (s : Store)
      → IsConsistent s
      → is_zero first.at ≡ false
      → (o : Option Record) → movable d s ≡ o
      → movable d (after_move h first d s o) ≡ none
  again first later d s c when none q = q
  again first later d s c when (some rec) q =
      let (named, at) = known_of_choice d s c rec q in
      let x = moved h first.stored (move first d rec) rec in
      rw when (
        movable_again d (moves h first d rec s) x
          (get-put rec.id d.rollout x s.by_id ∙ rw ((eq_iff rec.id d.rollout).1 named) refl)
          (moved-state first d rec))

  -- In a consistent store, after a look at a Deployment, at a time that is not zero, another look at
  -- the same Deployment writes nothing, whenever it comes.
  pub reconcile_idempotent :
      (first later : Clock) (d : Deployment) (s : Store)
      → IsConsistent s
      → is_zero first.at ≡ false
      → let after = (reconcile h first (found d) s).1 in
        (reconcile h later (found d) after).1 ≡ after
  reconcile_idempotent first later d s c when =
      let after = (reconcile h first (found d) s).1 in
      let none_left : movable d after ≡ none =
        ap (movable d) (reconcile-movable h first d s c)
        ∙ again first later d s c when (movable d s) refl in
      reconcile-movable h later d after (reconcile-IsConsistent first (found d) s c)
      ∙ ap (after_move h later d after) none_left
