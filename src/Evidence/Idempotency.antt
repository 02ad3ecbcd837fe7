-- ===== src/Evidence/Idempotency.antt =====
-- The idempotency key and the number of a record: `Append` of evidence/memory/memory.go.
use k8s_lab.Common.{
  String, false, List, [], ◌∷◌, suc, ◌≡◌, refl, sym, ap, ◌∙◌, some, ◌==◌, string_eq, eq_iff,
  eq_refl, arith, if◌then◌else◌, inl, inr, nat_eq,
}
use k8s_lab.Common.Map.{get, get-put}
use k8s_lab.Common.Clock.{Time, truncate_us}
use k8s_lab.Common.Result.{ok, err, is_err}
use k8s_lab.Evidence.{Ref, ref_eq, Record, Transition, duplicate}
use k8s_lab.Evidence.Ids.{ℤ}
use k8s_lab.Evidence.Chain.{Hasher}
use k8s_lab.Evidence.Store.{
  Store, append, appended, transition, get_record, seq_of, state_or_pending,
}
use k8s_lab.Evidence.Consistent.{IsConsistent, append_cases, transition_cases, append-IsConsistent}
use k8s_lab.Evidence.Races.{Call, appends, transitions, step, run, run-IsConsistent}

module _ (h : Hasher) where
  append-key :
      (k id : String) (nanos : ℤ) (now : Time) (rec : Record) (s : Store)
      → get k s.by_key ≡ some id
      → get k (append h nanos now rec s).1.by_key ≡ some id
  append-key k id nanos now rec s at = elim (append_cases h nanos now rec s) [
    | inl same ↦ rw same.1 at
    | inr (free, done) ↦
        let x = appended h nanos now rec s in
        let own : x.idempotency_key ≡ rec.idempotency_key = (unfold appended in refl) in
        rw done.1 (
          ground (
            arith,
            get-put x.idempotency_key k x.id s.by_key,
            eq_iff x.idempotency_key k,
            λ (q : x.idempotency_key ≡ k). ap (λ i. get i s.by_key) (sym own ∙ q),
          ))
  ]

  transition-key :
      (now : Time) (id : String) (t : Transition) (s : Store)
      → (transition h now id t s).1.by_key ≡ s.by_key
  transition-key now id t s = elim (transition_cases h now id t s) [
    | inl same ↦ ap (λ (z : Store). z.by_key) same.1
    | inr (rec, at, when, from, fence, done) ↦ ap (λ (z : Store). z.by_key) done.1
  ]

  run-key :
      (k id : String) (calls : List Call) (s : Store)
      → get k s.by_key ≡ some id
      → get k (run h calls s).by_key ≡ some id
  unfolding run step
  run-key k id [] s at = at
  run-key k id (appends nanos now rec ∷ rest) s at =
      run-key k id rest (append h nanos now rec s).1 (append-key k id nanos now rec s at)
  run-key k id (transitions now j t ∷ rest) s at =
      run-key k id rest (transition h now j t s).1
        (ap (λ m. get k m) (transition-key now j t s) ∙ at)

  key_given :
      (nanos : ℤ) (now : Time) (rec : Record) (s : Store)
      → is_err (append h nanos now rec s).0 ≡ false
      → (rec.idempotency_key == "") ≡ false
  unfolding append
  key_given nanos now rec s done = ground arith

  duplicate_of :
      (nanos : ℤ) (now : Time) (rec found : Record) (id : String) (s : Store)
      → (rec.idempotency_key == "") ≡ false
      → get rec.idempotency_key s.by_key ≡ some id
      → get id s.by_id ≡ some found
      → append h nanos now rec s ≡ (err (duplicate, some found), s)
  unfolding append
  duplicate_of nanos now rec found id s given filed at = ground arith

  -- Appending is safe to retry: once a record was appended to a consistent store, and after any
  -- appends and transitions since, another append with its idempotency key writes nothing and
  -- answers duplicate, with the record that has the key.
  pub append_once :
      (s : Store) (nanos nanos' : ℤ) (now later : Time) (rec again : Record) (calls : List Call)
      → IsConsistent s
      → is_err (append h nanos now rec s).0 ≡ false
      → again.idempotency_key ≡ rec.idempotency_key
      → let after = run h calls (append h nanos now rec s).1 in
        (found : Record) × (found.idempotency_key ≡ rec.idempotency_key)
        × (append h nanos' later again after ≡ (err (duplicate, some found), after))
  append_once s nanos nanos' now later rec again calls c done same =
      elim (append_cases h nanos now rec s) [
        | inl r ↦ absurd (ground arith)
        | inr (free, wrote) ↦
            let x = appended h nanos now rec s in
            let own : x.idempotency_key ≡ rec.idempotency_key = (unfold appended in refl) in
            let after = run h calls (append h nanos now rec s).1 in
            let first : get rec.idempotency_key (append h nanos now rec s).1.by_key ≡ some x.id =
              ap (λ (z : Store). get rec.idempotency_key z.by_key) wrote.1
              ∙ ground (
                arith,
                own,
                get-put x.idempotency_key rec.idempotency_key x.id s.by_key,
                eq_iff x.idempotency_key rec.idempotency_key,
              ) in
            let kept = run-key rec.idempotency_key x.id calls (append h nanos now rec s).1 first in
            let consistent =
              run-IsConsistent h calls (append h nanos now rec s).1
                (append-IsConsistent h s c nanos now rec) in
            let (found, at, named) = consistent.of_key rec.idempotency_key x.id kept in
            (
              found,
              named,
              duplicate_of nanos' later again found x.id after
                  (ap (λ k. k == "") same ∙ key_given nanos now rec s done)
                  (ap (λ k. get k after.by_key) same ∙ kept) at,
            )
      ]

  -- The number of an appended record is one more than the last of its `Ref`, and only that counter
  -- moves; transitions move none. The record keeps what the caller wrote, in the state given or
  -- else pending, and is the one that `Get` finds.
  pub append_numbers :
      (s : Store) (nanos : ℤ) (now : Time) (rec r : Record)
      → (append h nanos now rec s).0 ≡ ok r
      → let after = (append h nanos now rec s).1 in
        (r.seq ≡ suc (seq_of rec.ref s))
        × ((ref : Ref) → seq_of ref after ≡ (if rec.ref == ref then r.seq else seq_of ref s))
        × (get_record r.id after ≡ ok r)
        × (r.state ≡ state_or_pending rec.state)
        × (r.idempotency_key ≡ rec.idempotency_key)
        × (r.created_at ≡ truncate_us now)
  unfolding append get_record
  append_numbers s nanos now rec r done =
      let x = appended h nanos now rec s in
      let made : x ≡ r = ground arith in
      let own : x.ref ≡ rec.ref = (unfold appended in refl) in
      (
        unfold appended in ap (λ (z : Record). z.seq) (sym made),
        λ ref.
            ground
              (arith, made, get-put x.ref ref x.seq s.seq, own, ap (λ (z : Record). z.seq) made),
        ground (arith, made, get-put x.id x.id x s.by_id, eq_refl x.id),
        unfold appended in ap (λ (z : Record). z.state) (sym made),
        unfold appended in ap (λ (z : Record). z.idempotency_key) (sym made),
        unfold appended in ap (λ (z : Record). z.created_at) (sym made),
      )
