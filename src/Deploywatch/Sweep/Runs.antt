-- ===== src/Deploywatch/Sweep/Runs.antt =====
-- The sweep of internal/deploywatch/sweep.go on the archives that evidence/memory/memory.go keeps.
use k8s_lab.Common.{
  String, false, ℕ, ◌-◌, ◌<◌, List, [], ◌∷◌, ◌++◌, ◌≡◌, refl, sym, ap, ◌∙◌, subst, some, none,
  Option, ◌==◌, string_eq, nat_eq, eq_iff, arith, if◌then◌else◌, inl, inr, Bool-cases, Memᴰ, length,
  length-map,
}
use mathlib.Core.List.Memᴰ
use k8s_lab.Common.Map.{Map, get, put, get-put}
use k8s_lab.Common.Sort.Unique.{Nodup}
use k8s_lab.Common.Clock.{Time, is_zero}
use k8s_lab.Common.Result.{Result, ok, err}
use k8s_lab.Evidence.{Error, Record, not_found}
use k8s_lab.Evidence.Ids.{id_of, id_of-ne-nil}
use k8s_lab.Evidence.Chain.{Hasher}
use k8s_lab.Evidence.Store.{Store, new, appended, get_record}
use k8s_lab.Evidence.Reads.{records}
use k8s_lab.Evidence.Consistent.{
  IsConsistent, new-IsConsistent, append_cases, transition_cases, fresh_id,
}
use k8s_lab.Evidence.Races.{
  Call, appends, transitions, step, run, step-IsConsistent, run-IsConsistent,
}
use k8s_lab.Evidence.Pruning.{mem-records_of, mem_of_ordered}
use k8s_lab.Deploywatch.Sweep.{Sweep, Outcome, done, Clocks, after_of, once}
use k8s_lab.Deploywatch.Sweep.Pages.{ids, ids-records_of}
use k8s_lab.Deploywatch.Sweep.Exact.{is_overdue, given_up, swept, get-swept, get-give_up}
use k8s_lab.Deploywatch.Sweep.Whole.{pass_swept}

Nodup-end : {A : Type 0} (xs : List A) (a : A) → Nodup xs → (Memᴰ a xs → ⊥) → Nodup (xs ++ (a ∷ []))
Nodup-end [] a n new = (λ m. Memᴰ.not-nil m, tt)
Nodup-end (x ∷ xs) a n new = (
  λ m. elim (Memᴰ.append_cases xs m) [
    | inl k ↦ n.0 k
    | inr k ↦ elim (Memᴰ.cases_cons k) [ inl e ↦ new (Memᴰ.head (sym e)) | inr j ↦ Memᴰ.not-nil j ]
  ],
  Nodup-end xs a n.1 (λ m. new (Memᴰ.tail m)),
)

module _ (h : Hasher) where
  step-Nodup : (c : Call) (s : Store) → IsConsistent s → Nodup s.order → Nodup (step h c s).order
  unfolding step
  step-Nodup (appends nanos now rec) s k n = elim (append_cases h nanos now rec s) [
    | inl same ↦ rw same.1 n
    | inr (free, wrote) ↦
        let x = appended h nanos now rec s in
        let fresh = fresh_id h s k nanos rec.idempotency_key free in
        let own : x.id ≡ id_of nanos rec.idempotency_key = (unfold appended in refl) in
        rw wrote.1 (
          Nodup-end s.order x.id n (λ m.
            let (r, at) = k.ordered x.id m in
            let gone = ap (λ i. get i s.by_id) own ∙ fresh in absurd (ground arith)))
  ]
  step-Nodup (transitions now id t) s k n = elim (transition_cases h now id t s) [
    | inl same ↦ rw same.1 n
    | inr (rec, at, when, from, fence, wrote) ↦ rw wrote.1 n
  ]

  -- An order names every id once.
  run-Nodup :
      (calls : List Call) (s : Store) → IsConsistent s → Nodup s.order → Nodup (run h calls s).order
  unfolding run
  run-Nodup [] s k n = n
  run-Nodup (c ∷ rest) s k n =
      run-Nodup rest (step h c s) (step-IsConsistent h c s k) (step-Nodup c s k n)

  module _ (reason : String) (clocks : Clocks) (cutoff : Time) where
    get-swept_mem :
        (rs : List Record) (m : Map String Record) (r : Record)
        → Memᴰ r rs
        → Nodup (ids rs)
        → get r.id m ≡ some r
        → get r.id (swept h reason clocks cutoff rs m)
          ≡ some (if is_overdue cutoff r then given_up h reason clocks cutoff r else r)
    unfolding swept
    get-swept_mem [] m r k n at = absurd (Memᴰ.not-nil k)
    get-swept_mem (x ∷ rs) m r k n at = elim (Memᴰ.cases_cons k) [
      | inr later ↦ get-swept_mem rs _ r later n.1 (
          get-give_up h reason clocks cutoff x m r.id (λ e.
            n.0 (subst (λ z. Memᴰ z (ids rs)) (sym e) (Memᴰ.map (λ (y : Record). y.id) later)))
          ∙ at)
      | inl here ↦
          get-swept h reason clocks cutoff rs _ r.id
            (λ j. n.0 (subst (λ z. Memᴰ z (ids rs)) (ap (λ (y : Record). y.id) here) j))
          ∙ at_head r x m here at
    ]
      where
        at_head :
            (r x : Record) (m : Map String Record)
            → r ≡ x
            → get r.id m ≡ some r
            → get r.id
                (if is_overdue cutoff x then put x.id (given_up h reason clocks cutoff x) m else m)
              ≡ some (if is_overdue cutoff r then given_up h reason clocks cutoff r else r)
        at_head r x m here at =
            subst
              (λ (z : Record).
                get r.id (
                  if is_overdue cutoff z then put z.id (given_up h reason clocks cutoff z) m else m)
                ≡ some (if is_overdue cutoff r then given_up h reason clocks cutoff r else r))
              here
              (elim (Bool-cases (is_overdue cutoff r)) [
                | inl old ↦ rw old (
                    get-put r.id r.id (given_up h reason clocks cutoff r) m
                    ∙ rw ((eq_iff r.id r.id).1 refl) refl)
                | inr young ↦ rw young at
              ])

module _ (s : Store) (k : IsConsistent s) where
  filed : (j : String) → Memᴰ j s.order → (r : Record) × (get j s.by_id ≡ some r) × (r.id ≡ j)
  filed j m = let (r, at) = k.ordered j m in (r, at, (k.of_id j r at).0)

  own : (r : Record) → Memᴰ r (records s) → get r.id s.by_id ≡ some r
  own r m =
      let (id, at) = mem-records_of s.by_id s.order r m in
      ap (λ i. get i s.by_id) (k.of_id id r at).0 ∙ at

  named : (r : Record) → Memᴰ r (records s) → (r.id == "") ≡ false
  named r m = elim (Bool-cases (r.id == "")) [
    | inr full ↦ full
    | inl empty ↦
        let (_, _, (nanos, made)) = k.of_id r.id r (own r m) in
        absurd (id_of-ne-nil nanos r.idempotency_key (sym made ∙ (eq_iff r.id "").0 empty))
  ]

abbrev read_of : Option Record → Result Error Record
read_of o = elim o [ none ↦ err not_found | some r ↦ ok r ]

found : (id : String) (s : Store) (r : Record) → get_record id s ≡ ok r → get id s.by_id ≡ some r
unfolding get_record
found id s r h = ground arith

-- A pass of the sweep ends, and gives up exactly what is overdue. In an archive that any calls of
-- `Append` and `Transition` have made of an empty one, where nothing else writes during the pass,
-- the clock never answers zero and the fuel is more than the number of records: the pass ends with
-- no error, every record that is pending or syncing and was created before the cutoff is given up,
-- and every other record in the order is read as before.
pub sweep_exact :
    (h : Hasher) (sweep : Sweep) (reason : String) (clocks : Clocks) (fuel : ℕ) (now : Time)
    (calls : List Call) (window : ℕ)
    → ((id : String) → is_zero (clocks id).at ≡ false)
    → let s = run h calls (new window) in
      let cutoff = now - after_of sweep in
      length s.order < fuel
      → ((once h sweep reason clocks fuel now s).0 ≡ done)
        × ((id : String) (r : Record)
            → Memᴰ id s.order
            → get_record id s ≡ ok r
            → get_record id (once h sweep reason clocks fuel now s).1
              ≡ ok (if is_overdue cutoff r then given_up h reason clocks cutoff r else r))
unfolding once get_record
sweep_exact h sweep reason clocks fuel now calls window running_clock enough =
    let s = run h calls (new window) in
    let cutoff = now - after_of sweep in
    let k = run-IsConsistent h calls (new window) (new-IsConsistent window) in
    let n : Nodup s.order =
      run-Nodup h calls (new window) (new-IsConsistent window) (unfold new in tt) in
    let listed : ids (records s) ≡ s.order = ids-records_of s.by_id s.order (filed s k) in
    let distinct : Nodup (ids (records s)) = subst (λ z. Nodup z) (sym listed) n in
    let end =
      pass_swept h reason clocks cutoff s running_clock (sym listed) distinct (own s k) (named s k)
        fuel [] (records s) "" refl (inl (refl, refl))
        (omega (arith, ap length listed, length-map (λ (r : Record). r.id) (records s))) in
    let whole : once h sweep reason clocks fuel now s
        ≡ (done, record s { by_id = swept h reason clocks cutoff (records s) s.by_id }) =
      unfold swept in end in
    (
      ap (λ (z : Outcome × Store). z.0) whole,
      λ id r m at.
          let there : get id s.by_id ≡ some r = found id s r at in
          let same = (k.of_id id r there).0 in
          ap (λ (z : Outcome × Store). read_of (get id z.1.by_id)) whole
          ∙ ap read_of (
              ap (λ i. get i (swept h reason clocks cutoff (records s) s.by_id)) (sym same)
              ∙ get-swept_mem h reason clocks cutoff (records s) s.by_id r
                  (mem_of_ordered s.by_id s.order id r m there) distinct
                  (ap (λ i. get i s.by_id) same ∙ there)),
    )
