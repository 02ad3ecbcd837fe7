-- ===== src/Evidence/Races.antt =====
-- Two observers of one record: any appends and transitions of evidence/memory/memory.go in any
-- order, which the mutex makes of concurrent calls.
use k8s_lab.Common.{
  String, true, false, List, [], ◌∷◌, ℕ, ◌<◌, ◌≡◌, refl, sym, ap, ◌∙◌, Option, none, some, ◌==◌,
  string_eq, eq_iff, eq_refl, nat_eqb_iff, arith, inl, inr, Bool-cases, length,
}
use k8s_lab.Common.Map.{get, get-put}
use k8s_lab.Common.Clock.{Time, is_zero}
use k8s_lab.Common.Result.{err, is_err}
use k8s_lab.Evidence.{ref_eq, Record, Transition, conflict}
use k8s_lab.Evidence.Ids.{ℤ, pos, negsuc, id_of}
use k8s_lab.Evidence.Chain.{Hasher}
use k8s_lab.Evidence.Store.{Store, append, appended, transition, moved, is_stale}
use k8s_lab.Evidence.Consistent.{
  IsConsistent, append_cases, transition_cases, append-IsConsistent, transition-IsConsistent,
  fresh_id,
}
use k8s_lab.Evidence.Fences.{moved-length}

-- The methods that write one record. Each comes with what the clock answers during it.
pub data Call : Type 0 where
  appends : ℤ → Time → Record → Call
  transitions : Time → String → Transition → Call

-- The record under an id is at a version after `n`.
abbrev IsAhead : ℕ → String → Store → Type 0
IsAhead n id s = (r : Record) × (get id s.by_id ≡ some r) × (n < length r.transitions)

module _ (h : Hasher) where
  unfoldable pub step : Call → Store → Store
  step (appends nanos now rec) s = (append h nanos now rec s).1
  step (transitions now id t) s = (transition h now id t s).1

  unfoldable pub run : List Call → Store → Store
  run [] s = s
  run (c ∷ rest) s = run rest (step c s)

  pub step-IsConsistent : (c : Call) (s : Store) → IsConsistent s → IsConsistent (step c s)
  unfolding step
  step-IsConsistent (appends nanos now rec) s k = append-IsConsistent h s k nanos now rec
  step-IsConsistent (transitions now id t) s k = transition-IsConsistent h s k now id t

  pub run-IsConsistent :
      (calls : List Call) (s : Store) → IsConsistent s → IsConsistent (run calls s)
  unfolding run
  run-IsConsistent [] s k = k
  run-IsConsistent (c ∷ rest) s k = run-IsConsistent rest (step c s) (step-IsConsistent c s k)

  append-IsAhead :
      (n : ℕ) (id : String) (nanos : ℤ) (now : Time) (rec : Record) (s : Store)
      → IsConsistent s
      → IsAhead n id s
      → IsAhead n id (append h nanos now rec s).1
  append-IsAhead n id nanos now rec s k (r, at, ahead) = elim (append_cases h nanos now rec s) [
    | inl same ↦ rw same.1 (r, at, ahead)
    | inr (free, done) ↦
        let x = appended h nanos now rec s in
        let fresh = fresh_id h s k nanos rec.idempotency_key free in
        let own : x.id ≡ id_of nanos rec.idempotency_key = (unfold appended in refl) in
        rw done.1 (
          r,
          ground (
            arith,
            get-put x.id id x s.by_id,
            eq_iff x.id id,
            λ (q : x.id ≡ id). ap (λ i. get i s.by_id) (sym own ∙ q),
          ),
          ahead,
        )
  ]

  transition-IsAhead :
      (n : ℕ) (id j : String) (now : Time) (t : Transition) (s : Store)
      → IsAhead n id s
      → IsAhead n id (transition h now j t s).1
  transition-IsAhead n id j now t s (r, at, ahead) = elim (transition_cases h now j t s) [
    | inl same ↦ rw same.1 (r, at, ahead)
    | inr (rec, found, when, from, fence, done) ↦ elim (Bool-cases (j == id)) [
      | inl here ↦
          let same : rec ≡ r = ground (arith, ap (λ i. get i s.by_id) ((eq_iff j id).0 here)) in
          rw done.1 (
            moved h now t rec,
            ground (arith, get-put j id (moved h now t rec) s.by_id),
            omega (arith, moved-length h now t rec, ap (λ (y : Record). length y.transitions) same),
          )
      | inr there ↦ rw done.1 (r, ground (arith, get-put j id (moved h now t rec) s.by_id), ahead)
    ]
  ]

  run-IsAhead :
      (n : ℕ) (id : String) (calls : List Call) (s : Store)
      → IsConsistent s
      → IsAhead n id s
      → IsAhead n id (run calls s)
  unfolding run step
  run-IsAhead n id [] s k a = a
  run-IsAhead n id (appends nanos now rec ∷ rest) s k a =
      run-IsAhead n id rest (append h nanos now rec s).1 (append-IsConsistent h s k nanos now rec)
        (append-IsAhead n id nanos now rec s k a)
  run-IsAhead n id (transitions now j t ∷ rest) s k a =
      run-IsAhead n id rest (transition h now j t s).1 (transition-IsConsistent h s k now j t)
        (transition-IsAhead n id j now t s a)

  is_stale_behind : (o : Option ℤ) (n m : ℕ) → o ≡ some (pos n) → n < m → is_stale o m ≡ true
  unfolding is_stale
  is_stale_behind none n m e lt = absurd (ground arith)
  is_stale_behind (some (pos k)) n m e lt = ground (arith, nat_eqb_iff k m)
  is_stale_behind (some (negsuc k)) n m e lt = absurd (ground arith)

  stale_refused :
      (n : ℕ) (now : Time) (id : String) (t : Transition) (s : Store)
      → t.expect_events ≡ some (pos n)
      → is_zero t.at ≡ false
      → IsAhead n id s
      → (rec : Record) × (transition h now id t s ≡ (err (conflict, some rec), s))
  unfolding transition
  stale_refused n now id t s e when (r, at, ahead) =
      (r, ground (arith, is_stale_behind t.expect_events n (length r.transitions) e ahead))

  -- An observer that derived its write from an older version of a record loses: once another
  -- transition of the record has succeeded in a consistent store, and after any appends and
  -- transitions since, one with a time that is fenced on the earlier number of events is refused as
  -- a conflict and writes nothing, whatever state the record has come back to.
  pub stale_writer_loses :
      (s : Store) (now later : Time) (id : String) (t t' : Transition) (rec : Record)
      (calls : List Call)
      → IsConsistent s
      → get id s.by_id ≡ some rec
      → is_err (transition h now id t s).0 ≡ false
      → t'.expect_events ≡ some (pos (length rec.transitions))
      → is_zero t'.at ≡ false
      → let after = run calls (transition h now id t s).1 in
        (found : Record) × (transition h later id t' after ≡ (err (conflict, some found), after))
  stale_writer_loses s now later id t t' rec calls k at done e when =
      stale_refused (length rec.transitions) later id t' (run calls (transition h now id t s).1) e
        when
        (run-IsAhead (length rec.transitions) id calls (transition h now id t s).1
          (transition-IsConsistent h s k now id t) first)
    where
      first : IsAhead (length rec.transitions) id (transition h now id t s).1
      first = elim (transition_cases h now id t s) [
        | inl r ↦ absurd (ground arith)
        | inr (rec', found, when', from, fence, wrote) ↦
            let same : rec' ≡ rec = ground arith in
            rw wrote.1 (
              moved h now t rec',
              ground (arith, get-put id id (moved h now t rec') s.by_id, eq_refl id),
              omega (
                arith,
                moved-length h now t rec',
                ap (λ (y : Record). length y.transitions) same,
              ),
            )
      ]
