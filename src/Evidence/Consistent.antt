-- ===== src/Evidence/Consistent.antt =====
-- The indexes of the store of evidence/memory/memory.go.
use k8s_lab.Common.{
  String, false, [], ◌∷◌, ℕ, ◌≡◌, refl, ap, ◌∙◌, none, some, ◌==◌, string_eq, eq_iff, eq_refl,
  arith, inl, inr, ◌⊎◌, Option-cases, Bool-cases, length, Memᴰ,
}
use mathlib.Core.List.Memᴰ
use k8s_lab.Common.Map.{Map, get, put, get-put, get-nil}
use k8s_lab.Common.Clock.{Time, is_zero}
use k8s_lab.Common.Result.{Refuses, Succeeds}
use k8s_lab.Evidence.{ref_eq, Record, Transition}
use k8s_lab.Evidence.Ids.{ℤ, id_of, id_of_injective}
use k8s_lab.Evidence.Chain.{Hasher}
use k8s_lab.Evidence.Store.{
  Store, new, append, appended, stored, transition, moved, is_elsewhere, is_stale,
}

pub append_cases :
    (h : Hasher) (nanos : ℤ) (now : Time) (rec : Record) (s : Store)
    → Refuses s (append h nanos now rec s)
      ⊎ ((get rec.idempotency_key s.by_key ≡ none)
          × Succeeds (stored (appended h nanos now rec s) s) (append h nanos now rec s))
unfolding append
append_cases h nanos now rec s = ground arith

pub transition_cases :
    (h : Hasher) (now : Time) (id : String) (t : Transition) (s : Store)
    → Refuses s (transition h now id t s)
      ⊎ ((rec : Record) × (get id s.by_id ≡ some rec)
          × (is_zero t.at ≡ false)
          × (is_elsewhere t.from_states rec.state ≡ false)
          × (is_stale t.expect_events (length rec.transitions) ≡ false)
          × Succeeds
              (record s { by_id = put id (moved h now t rec) s.by_id })
              (transition h now id t s))
unfolding transition
transition_cases h now id t s = ground arith

-- Every record is filed under its id, which its key and a clock made; a key leads to the record
-- that has it; and every id of the order has a record.
pub record IsConsistent (s : Store) : Type 0 where
  pub of_id :
      (id : String) (r : Record)
      → get id s.by_id ≡ some r
      → (r.id ≡ id)
        × (get r.idempotency_key s.by_key ≡ some id)
        × ((nanos : ℤ) × (id ≡ id_of nanos r.idempotency_key))
  pub of_key :
      (k id : String)
      → get k s.by_key ≡ some id
      → (r : Record) × (get id s.by_id ≡ some r) × (r.idempotency_key ≡ k)
  pub ordered : (id : String) → Memᴰ id s.order → (r : Record) × (get id s.by_id ≡ some r)

pub new-IsConsistent : (window : ℕ) → IsConsistent (new window)
unfolding new
new-IsConsistent window = record {
  of_id = λ id r e. absurd (ground (arith, get-nil {V = Record} id));
  of_key = λ k id e. absurd (ground (arith, get-nil {V = String} k));
  ordered = λ id m. absurd (Memᴰ.not-nil m);
}

still_there :
    (id : String) (x : Record) (m : Map String Record) (j : String)
    → (r : Record) × (get j m ≡ some r)
    → (r : Record) × (get j (put id x m) ≡ some r)
still_there id x m j (r, e) = elim (Bool-cases (id == j)) [
  | inl here ↦ (x, ground (arith, get-put id j x m))
  | inr there ↦ (r, ground (arith, get-put id j x m))
]

only_of_mem : (id j : String) → Memᴰ j (id ∷ []) → j ≡ id
only_of_mem id j m = elim (Memᴰ.cases_cons m) [ inl e ↦ e | inr n ↦ absurd (Memᴰ.not-nil n) ]

module _ (h : Hasher) (s : Store) (c : IsConsistent s) where
  -- A key that is not there gives an id that is not there, whatever the clock says.
  pub fresh_id :
      (nanos : ℤ) (k : String) → get k s.by_key ≡ none → get (id_of nanos k) s.by_id ≡ none
  fresh_id nanos k free = elim (Option-cases (get (id_of nanos k) s.by_id)) [
    | inl e ↦ e
    | inr (r, e) ↦
        let (same, filed, (clock, made)) = c.of_id (id_of nanos k) r e in
        let key : k ≡ r.idempotency_key = id_of_injective nanos clock k r.idempotency_key made in
        let moved = ap (λ x. get x s.by_key) key in absurd (ground arith)
  ]

  module _ (nanos : ℤ) (now : Time) (rec : Record) where
    abbrev pub x : Record
    x = appended h nanos now rec s

    pub stored-IsConsistent : get rec.idempotency_key s.by_key ≡ none → IsConsistent (stored x s)
    unfolding appended
    stored-IsConsistent free =
        let id = id_of nanos rec.idempotency_key in
        let fresh = fresh_id nanos rec.idempotency_key free in
        record {
          of_id = λ j r e. elim (Bool-cases (id == j)) [
            | inl here ↦
                let r' : r ≡ x = ground (arith, get-put id j x s.by_id) in
                let j' : id ≡ j = (eq_iff id j).0 here in
                rw (r', ← j')
                  (
                    refl,
                    ground (
                      arith,
                      get-put rec.idempotency_key rec.idempotency_key id s.by_key,
                      eq_refl rec.idempotency_key,
                    ),
                    (nanos, refl),
                  )
            | inr there ↦
                let (named, filed, made) = c.of_id j r (ground (arith, get-put id j x s.by_id)) in
                (
                  named,
                  ground (
                    arith,
                    get-put rec.idempotency_key r.idempotency_key id s.by_key,
                    eq_iff rec.idempotency_key r.idempotency_key,
                  ),
                  made,
                )
          ];
          of_key = λ k j e. elim (Bool-cases (rec.idempotency_key == k)) [
            | inl here ↦ (
              x,
              ground (
                arith,
                get-put rec.idempotency_key k id s.by_key,
                get-put id j x s.by_id,
                eq_iff id j,
              ),
              (eq_iff rec.idempotency_key k).0 here,
            )
            | inr there ↦
                let (r, at, named) =
                  c.of_key k j (ground (arith, get-put rec.idempotency_key k id s.by_key)) in
                (
                  r,
                  ground (
                    arith,
                    get-put id j x s.by_id,
                    eq_iff id j,
                    λ (q : id ≡ j). ap (λ i. get i s.by_id) q,
                  ),
                  named,
                )
          ];
          ordered = λ j m. elim (Memᴰ.append_cases s.order m) [
            | inl n ↦ still_there id x s.by_id j (c.ordered j n)
            | inr n ↦ (x, ground (arith, get-put id j x s.by_id, eq_iff id j, only_of_mem id j n))
          ];
        }

  pub append-IsConsistent :
      (nanos : ℤ) (now : Time) (rec : Record) → IsConsistent (append h nanos now rec s).1
  append-IsConsistent nanos now rec = elim (append_cases h nanos now rec s) [
    | inl r ↦ rw r.1 c
    | inr (free, done) ↦ rw done.1 (stored-IsConsistent nanos now rec free)
  ]

  replaced-IsConsistent :
      (id : String) (rec r' : Record)
      → get id s.by_id ≡ some rec
      → r'.id ≡ rec.id
      → r'.idempotency_key ≡ rec.idempotency_key
      → IsConsistent (record s { by_id = put id r' s.by_id })
  replaced-IsConsistent id rec r' at same key = record {
    of_id = λ j r e. elim (Bool-cases (id == j)) [
      | inl here ↦
          let j' : id ≡ j = (eq_iff id j).0 here in
          let now_r : r ≡ r' = ground (arith, get-put id j r' s.by_id) in
          let (named, filed, made) = c.of_id id rec at in
          rw (now_r, same, key, ← j') (named, filed, made)
      | inr there ↦ c.of_id j r (ground (arith, get-put id j r' s.by_id))
    ];
    of_key = λ k j e.
        let (r, found, named) = c.of_key k j e in
        elim (Bool-cases (id == j)) [
          | inl here ↦
              let same_r : rec ≡ r =
                ground (arith, ap (λ i. get i s.by_id) ((eq_iff id j).0 here)) in
              (
                r',
                ground (arith, get-put id j r' s.by_id),
                key ∙ ap (λ (y : Record). y.idempotency_key) same_r ∙ named,
              )
          | inr there ↦ (r, ground (arith, get-put id j r' s.by_id), named)
        ];
    ordered = λ j m. still_there id r' s.by_id j (c.ordered j m);
  }

  pub moved-IsConsistent :
      (now : Time) (id : String) (t : Transition) (rec : Record)
      → get id s.by_id ≡ some rec
      → IsConsistent (record s { by_id = put id (moved h now t rec) s.by_id })
  moved-IsConsistent now id t rec at =
      replaced-IsConsistent id rec (moved h now t rec) at (unfold moved in refl)
        (unfold moved in refl)

  pub transition-IsConsistent :
      (now : Time) (id : String) (t : Transition) → IsConsistent (transition h now id t s).1
  transition-IsConsistent now id t = elim (transition_cases h now id t s) [
    | inl r ↦ rw r.1 c
    | inr (rec, at, when, from, fence, done) ↦ rw done.1 (moved-IsConsistent now id t rec at)
  ]
