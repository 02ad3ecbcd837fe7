-- ===== src/Evidence/Retained.antt =====
-- The store of evidence/memory/memory.go under `Append`, `Transition` and `Prune`, in any order.
use k8s_lab.Common.{
  String, true, false, List, [], ◌∷◌, ◌-◌, ℕ, ◌≡◌, refl, sym, ap, ◌∙◌, subst, some, ◌||◌, not, ◌==◌,
  string_eq, eq_iff, arith, if◌then◌else◌, inl, inr, Bool-cases, Memᴰ, nat_eqb,
}
use mathlib.Core.List.Memᴰ
use k8s_lab.Common.Map.{get, get-put, get-nil}
use k8s_lab.Common.Clock.{Time, before}
use k8s_lab.Common.Result.{ok, err}
use k8s_lab.Common.Sort.Unique.{mem-append_left, mem-append_right}
use k8s_lab.Evidence.{Ref, Record, PruneResult, not_found}
use k8s_lab.Evidence.Chain.{Hasher}
use k8s_lab.Evidence.Store.{Store, new, appended, moved, get_record}
use k8s_lab.Evidence.Reads.{records, is_current, is_kept, current, prune_loop, prune}
use k8s_lab.Evidence.Consistent.{IsConsistent, new-IsConsistent, append_cases, transition_cases}
use k8s_lab.Evidence.Races.{Call, appends, transitions, step, step-IsConsistent}
use k8s_lab.Evidence.Pruning.Rounds.{
  loop_key, loop_key_stays, loop_order, loop_order_takes, loop_there,
}
use k8s_lab.Evidence.Pruning.{
  mem-records_of, mem_of_ordered, prune-kept, prune-dropped, prune-nothing, prune_of_consistent,
}

-- Every record has its place in the order.
abbrev pub IsListed : Store → Type 0
IsListed s = (id : String) (r : Record) → get id s.by_id ≡ some r → Memᴰ id s.order

pub step-IsListed : (h : Hasher) (c : Call) (s : Store) → IsListed s → IsListed (step h c s)
unfolding step
step-IsListed h (appends nanos now rec) s k = elim (append_cases h nanos now rec s) [
  | inl same ↦ rw same.1 k
  | inr (free, wrote) ↦
      let x = appended h nanos now rec s in
      rw wrote.1 (λ id r at. elim (Bool-cases (x.id == id)) [
        | inl here ↦
            mem-append_right s.order (x.id ∷ []) (Memᴰ.head (sym ((eq_iff x.id id).0 here)))
        | inr there ↦
            mem-append_left s.order (x.id ∷ []) (k id r (ground (arith, get-put x.id id x s.by_id)))
      ])
]
step-IsListed h (transitions now id t) s k = elim (transition_cases h now id t s) [
  | inl same ↦ rw same.1 k
  | inr (rec, at, when, from, fence, wrote) ↦ rw wrote.1 (λ j r there. elim (Bool-cases (id == j)) [
    | inl here ↦ k j rec (ap (λ i. get i s.by_id) (sym ((eq_iff id j).0 here)) ∙ at)
    | inr other ↦ k j r (ground (arith, get-put id j (moved h now t rec) s.by_id))
  ])
]

module _ (now : Time) (s : Store) (k : IsConsistent s) (listed : IsListed s)
    (on : nat_eqb s.window 0 ≡ false) where
  abbrev cutoff : Time
  cutoff = now - s.window

  abbrev emptied : PruneResult × Store
  emptied = (record { examined = 0; deleted = 0; oldest = 0 }, record s { order = [] })

  abbrev pruned : Store
  pruned = (prune_loop cutoff s (records s) emptied).1

  is_loop : (prune now s).1 ≡ pruned
  unfolding prune
  is_loop = rw on refl

  -- What is left was there, and is kept.
  left_over :
      (id : String) (r : Record)
      → get id pruned.by_id ≡ some r
      → (get id s.by_id ≡ some r) × (is_kept cutoff s r ≡ true)
  left_over id r at =
      let there = loop_there cutoff s id r (records s) emptied at in
      (
        there,
        elim (Bool-cases (is_kept cutoff s r)) [
          | inl kept ↦ kept
          | inr old ↦ absurd (
              let gone =
                ap (λ (z : Store). get id z.by_id) (sym is_loop)
                ∙ prune-dropped now s k id r there (listed id r there) on old in
              ground arith)
        ],
      )

  stays :
      (id : String) (r : Record)
      → get id s.by_id ≡ some r
      → is_kept cutoff s r ≡ true
      → get id pruned.by_id ≡ some r
  stays id r at kept =
      ap (λ (z : Store). get id z.by_id) (sym is_loop) ∙ prune-kept now s k id r at kept

  -- A key belongs to one record.
  of_one_key :
      (x r : Record) (id : String)
      → Memᴰ x (records s)
      → get id s.by_id ≡ some r
      → x.idempotency_key ≡ r.idempotency_key
      → x ≡ r
  of_one_key x r id m at same =
      let (j, there) = mem-records_of s.by_id s.order x m in
      let mine = (k.of_id id r at).1 in
      let its = (k.of_id j x there).1 in
      let one : some j ≡ some id = sym its ∙ ap (λ z. get z s.by_key) same ∙ mine in
      let ids : j ≡ id = ground arith in
      let equal : some x ≡ some r = sym there ∙ ap (λ z. get z s.by_id) ids ∙ at in ground arith

  loop-IsConsistent : IsConsistent pruned
  loop-IsConsistent = record {
    of_id = λ id r at.
        let (there, kept) = left_over id r at in
        let (named, filed, made) = k.of_id id r there in
        (
          named,
          loop_key_stays cutoff s r.idempotency_key id (records s) emptied
              (λ x m same. ap (is_kept cutoff s) (of_one_key x r id m there same) ∙ kept) filed,
          made,
        );
    of_key = λ key id at.
        let (filed, safe) = loop_key cutoff s key id (records s) emptied at in
        let (r, there, has_key) = k.of_key key id filed in
        let m = mem_of_ordered s.by_id s.order id r (listed id r there) there in
        (r, stays id r there (safe r m has_key), has_key);
    ordered = λ id m. elim (loop_order cutoff s id (records s) emptied m) [
      | inl no_place ↦ absurd (Memᴰ.not-nil no_place)
      | inr (x, n, named, kept) ↦
          let (j, there) = mem-records_of s.by_id s.order x n in
          let own = (k.of_id j x there).0 in
          (x, stays id x (ap (λ z. get z s.by_id) (sym named ∙ own) ∙ there) kept)
    ];
  }

  loop-IsListed : IsListed pruned
  loop-IsListed id r at =
      let (there, kept) = left_over id r at in
      let m = mem_of_ordered s.by_id s.order id r (listed id r there) there in
      subst (λ z. Memᴰ z pruned.order) (k.of_id id r there).0
        (loop_order_takes cutoff s r (records s) emptied m kept)

prune-kept_whole :
    (now : Time) (s : Store)
    → IsConsistent s × IsListed s
    → IsConsistent (prune now s).1 × IsListed (prune now s).1
prune-kept_whole now s (k, listed) = elim (Bool-cases (nat_eqb s.window 0)) [
  | inl off ↦ subst (λ z. IsConsistent z × IsListed z) (sym (prune-nothing now s off)) (k, listed)
  | inr on ↦
      subst (λ z. IsConsistent z × IsListed z) (sym (is_loop now s k listed on))
        (loop-IsConsistent now s k listed on, loop-IsListed now s k listed on)
]

-- The methods that write the archive.
pub data Write : Type 0 where
  calls : Call → Write
  prunes : Time → Write

abbrev pub write : Hasher → Write → Store → Store
write h (calls c) s = step h c s
write h (prunes now) s = (prune now s).1

unfoldable pub written : Hasher → List Write → Store → Store
written h [] s = s
written h (w ∷ rest) s = written h rest (write h w s)

written_whole :
    (h : Hasher) (writes : List Write) (s : Store)
    → IsConsistent s × IsListed s
    → IsConsistent (written h writes s) × IsListed (written h writes s)
unfolding written
written_whole h [] s whole = whole
written_whole h (calls c ∷ rest) s whole =
    written_whole h rest (step h c s) (step-IsConsistent h c s whole.0, step-IsListed h c s whole.1)
written_whole h (prunes now ∷ rest) s whole =
    written_whole h rest (prune now s).1 (prune-kept_whole now s whole)

pub new-IsListed : (window : ℕ) → IsListed (new window)
unfolding new
new-IsListed window id r at = absurd (ground (arith, get-nil {V = Record} id))

-- `Prune` deletes exactly the records that are older than the window and are not the current one of
-- their `Ref`, and none where the window is zero, in the archive that any calls of `Append`,
-- `Transition` and `Prune` have made of an empty one. So what `Current` answers is never deleted.
pub prune_exact :
    (h : Hasher) (writes : List Write) (window : ℕ) (now : Time)
    → let s = written h writes (new window) in
      ((id : String) (r : Record)
        → get_record id s ≡ ok r
        → get_record id (prune now s).1 ≡ (
            if nat_eqb s.window 0 || (not (before r.created_at (now - s.window)) || is_current s r)
            then ok r
            else err not_found))
      × ((ref : Ref) (r : Record) → current ref s ≡ ok r → get_record r.id (prune now s).1 ≡ ok r)
unfolding get_record
prune_exact h writes window now =
    let s = written h writes (new window) in
    let (k, listed) =
      written_whole h writes (new window) (new-IsConsistent window, new-IsListed window) in
    let (exact, safe) = prune_of_consistent now s k in
    (λ id r at. exact id r (found id s r at) (listed id r (found id s r at)), safe)
  where
    found :
        (id : String) (s : Store) (r : Record) → get_record id s ≡ ok r → get id s.by_id ≡ some r
    found id s r h = ground arith
