-- ===== src/Deploywatch/Settled.antt =====
-- Which record a look of the observer of internal/deploywatch/deploywatch.go moves, if any.
use k8s_lab.Common.{
  Bool, true, false, List, [], ◌∷◌, ◌≡◌, refl, sym, ap, ◌∙◌, Option, none, some, ◌||◌, ◌&&◌, not,
  ◌==◌, string_eq, nat_eq, list_eq, eq_iff, if◌then◌else◌, length, nat_eqb_iff, arith, inl, inr,
  Option-cases, Bool-cases, contains,
}
use k8s_lab.Common.Map.{get, put}
use k8s_lab.Common.Clock.{is_zero}
use k8s_lab.Evidence.{Record, running, failed, rejected, applied, State}
use k8s_lab.Evidence.Chain.{Hasher}
use k8s_lab.Evidence.Store.{Store, get_record, transition, moved, is_elsewhere, is_stale}
use k8s_lab.Evidence.Consistent.{IsConsistent}
use k8s_lab.Deploywatch.{Deployment, found, Clock, move, derive, allowed_from, reconcile}

abbrev pub is_settled : State → Bool
is_settled state = state == running || (state == failed || state == rejected)

-- A list of states that names none of those.
abbrev avoids_settled : List State → Bool
avoids_settled xs =
    not (contains xs running) && (not (contains xs failed) && not (contains xs rejected))

if-avoids :
    (b : Bool) (xs ys : List State)
    → avoids_settled xs ≡ true
    → avoids_settled ys ≡ true
    → avoids_settled (if b then xs else ys) ≡ true
if-avoids true xs ys h k = h
if-avoids false xs ys h k = k

allowed_from-avoids : (want : State) → avoids_settled (allowed_from want) ≡ true
unfolding allowed_from contains
allowed_from-avoids want = if-avoids (want == applied) _ _ refl (
    if-avoids (want == running) _ _ refl
      (if-avoids (want == failed) _ _ refl (if-avoids (want == rejected) _ _ refl refl)))

elsewhere_of_avoids :
    (xs : List State) (state : State)
    → is_settled state ≡ true
    → avoids_settled xs ≡ true
    → (xs == []) ≡ false
    → is_elsewhere xs state ≡ true
unfolding is_elsewhere
elsewhere_of_avoids [] state e a n = absurd (ground arith)
elsewhere_of_avoids (x ∷ xs) state e a n = ground (
  arith,
  eq_iff state running,
  eq_iff state failed,
  eq_iff state rejected,
  λ (q : state ≡ running). ap (contains (x ∷ xs)) q,
  λ (q : state ≡ failed). ap (contains (x ∷ xs)) q,
  λ (q : state ≡ rejected). ap (contains (x ∷ xs)) q,
)

pub settled_elsewhere :
    (state want : State)
    → is_settled state ≡ true
    → (allowed_from want == []) ≡ false
    → is_elsewhere (allowed_from want) state ≡ true
settled_elsewhere state want e n =
    elsewhere_of_avoids (allowed_from want) state e (allowed_from-avoids want) n

-- The record that a reconcile moves, if it moves one.
abbrev pub movable : Deployment → Store → Option Record
movable d s = if d.rollout == "" then none else elim (get d.rollout s.by_id) [
  | none ↦ none
  | some rec ↦
      if (derive d).0 == ""
        || (rec.state == (derive d).0
            || (allowed_from (derive d).0 == []
                || is_elsewhere (allowed_from (derive d).0) rec.state))
      then none
      else some rec
]

abbrev pub moves : Hasher → Clock → Deployment → Record → Store → Store
moves h clock d rec s = record s {
  by_id = put rec.id (moved h clock.stored (move clock d rec) rec) s.by_id;
}

module _ (h : Hasher) where
  transition_fresh :
      (clock : Clock) (d : Deployment) (rec : Record) (s : Store)
      → get rec.id s.by_id ≡ some rec
      → (transition h clock.stored rec.id (move clock d rec) s).1 ≡ (
          if is_zero clock.at || is_elsewhere (allowed_from (derive d).0) rec.state
          then s
          else moves h clock d rec s)
  unfolding transition is_stale
  transition_fresh clock d rec s at =
      ground (arith, nat_eqb_iff (length rec.transitions) (length rec.transitions))

  reconcile_there :
      (clock : Clock) (d : Deployment) (rec : Record) (s : Store)
      → get d.rollout s.by_id ≡ some rec
      → (d.rollout == "") ≡ false
      → ((derive d).0 == "") ≡ false
      → (rec.state == (derive d).0) ≡ false
      → (allowed_from (derive d).0 == []) ≡ false
      → (reconcile h clock (found d) s).1
        ≡ (transition h clock.stored rec.id (move clock d rec) s).1
  unfolding reconcile get_record
  reconcile_there clock d rec s at a b e f = rw (a, at, b, e, f) refl

  abbrev pub after_move : Clock → Deployment → Store → Option Record → Store
  after_move clock d s none = s
  after_move clock d s (some rec) = if is_zero clock.at then s else moves h clock d rec s

  movable_there :
      (clock : Clock) (d : Deployment) (rec : Record) (s : Store)
      → get d.rollout s.by_id ≡ some rec
      → (d.rollout == "") ≡ false
      → ((derive d).0 == "") ≡ false
      → (rec.state == (derive d).0) ≡ false
      → (allowed_from (derive d).0 == []) ≡ false
      → movable d s
        ≡ (if is_elsewhere (allowed_from (derive d).0) rec.state then none else some rec)
  movable_there clock d rec s at a b e f = rw (a, at, b, e, f) refl

  after_fresh :
      (clock : Clock) (d : Deployment) (rec : Record) (s : Store) (b : Bool)
      → (if is_zero clock.at || b then s else moves h clock d rec s)
        ≡ after_move clock d s (if b then none else some rec)
  after_fresh clock d rec s true = elim (Bool-cases (is_zero clock.at)) [
    | inl z ↦ rw z refl
    | inr z ↦ rw z refl
  ]
  after_fresh clock d rec s false = elim (Bool-cases (is_zero clock.at)) [
    | inl z ↦ rw z refl
    | inr z ↦ rw z refl
  ]

  -- What `Reconcile` leaves, in terms of the record that it moves.
  pub reconcile-movable :
      (clock : Clock) (d : Deployment) (s : Store)
      → IsConsistent s
      → (reconcile h clock (found d) s).1 ≡ after_move clock d s (movable d s)
  unfolding reconcile get_record
  reconcile-movable clock d s c = elim (Bool-cases (d.rollout == "")) [
    | inl a ↦ rw a refl
    | inr a ↦ elim (Option-cases (get d.rollout s.by_id)) [
      | inl e ↦ rw (a, e) refl
      | inr (rec, at) ↦ elim (Bool-cases ((derive d).0 == "")) [
        | inl b ↦ rw (a, at, b) refl
        | inr b ↦ elim (Bool-cases (rec.state == (derive d).0)) [
          | inl e ↦ rw (a, at, b, e) refl
          | inr e ↦ elim (Bool-cases (allowed_from (derive d).0 == [])) [
            | inl f ↦ rw (a, at, b, e, f) refl
            | inr f ↦
                let named = (c.of_id d.rollout rec at).0 in
                reconcile_there clock d rec s at a b e f
                ∙ transition_fresh clock d rec s (ap (λ i. get i s.by_id) named ∙ at)
                ∙ after_fresh clock d rec s (is_elsewhere (allowed_from (derive d).0) rec.state)
                ∙ sym (ap (after_move clock d s) (movable_there clock d rec s at a b e f))
          ]
        ]
      ]
    ]
  ]
