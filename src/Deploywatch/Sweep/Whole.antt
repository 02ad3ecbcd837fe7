-- ===== src/Deploywatch/Sweep/Whole.antt =====
-- The sweep of internal/deploywatch/sweep.go over all its pages.
use k8s_lab.Common.{
  String, true, false, ℕ, zero, suc, ◌<◌, List, [], ◌∷◌, ◌++◌, ◌≡◌, ◌⊎◌, refl, sym, ap, ◌∙◌, subst,
  none, some, ◌==◌, string_eq, nat_eq, eq_iff, arith, inl, inr, Bool-cases, keep, mem_of_mem-keep,
  Memᴰ, length, length-append, contains,
}
use mathlib.Core.List.Memᴰ
use mathlib.Core.List.{append_assoc, append-nil, map-append}
use k8s_lab.Common.Map.{Map, get, put, get-put}
use k8s_lab.Common.Sort.Unique.{
  Nodup, Nodup-left, Nodup-right, Nodup-apart, Nodup-keep, mem-append_left, mem-append_right,
}
use k8s_lab.Common.Clock.{Time, is_zero}
use k8s_lab.Common.Result.{ok}
use k8s_lab.Evidence.{Record}
use k8s_lab.Evidence.Chain.{Hasher}
use k8s_lab.Evidence.Store.{Store, moved}
use k8s_lab.Evidence.Reads.{is_match, fill, after_cursor, records_of, records, history, limit_of}
use k8s_lab.Deploywatch.Sweep.{
  waiting, sweep_query, done, Clocks, turn_page, sweep_records, sweep_pages,
}
use k8s_lab.Deploywatch.Sweep.Pages.{
  ids, fill-page, after_cursor-ids, records_of-exact, records_of-split, ids-records_of,
}
use k8s_lab.Deploywatch.Sweep.Exact.{
  is_overdue, given_up, swept, swept-append, swept-keep, get-swept, sweep_records-swept,
}

-- Every id leads to a record that has it and is not empty.
abbrev IsFiled : Map String Record → Type 0
IsFiled m = (id : String) (r : Record) → get id m ≡ some r → r.id ≡ id

matching_waits :
    (cutoff : Time) (after : String) (r : Record)
    → is_match (sweep_query cutoff after) r ≡ true
    → contains waiting r.state ≡ true
unfolding is_match
matching_waits cutoff after r h = ground arith

-- What stands behind a cursor in the records of a store.
abbrev Remaining : String → List Record → List Record → Type 0
Remaining after all rest =
    (((after == "") ≡ true) × (all ≡ rest))
    ⊎ (((after == "") ≡ false) × (after_cursor after all ≡ some rest))

history-Remaining :
    (cutoff : Time) (after : String) (t : Store) (rest : List Record)
    → Remaining after (records t) rest
    → history (sweep_query cutoff after) t ≡ ok (fill (sweep_query cutoff after) 100 0 "" rest)
unfolding history limit_of
history-Remaining cutoff after t rest (inl (start, all)) =
    rw start (ap (λ z. ok (fill (sweep_query cutoff after) 100 0 "" z)) all)
history-Remaining cutoff after t rest (inr (behind, found)) = rw (behind, found) refl

module _ (h : Hasher) (reason : String) (clocks : Clocks) (cutoff : Time) where
  -- An id that leads to a record that has it does so still.
  swept_filed :
      (rs : List Record) (m : Map String Record) (id : String)
      → (r : Record) × (get id m ≡ some r) × (r.id ≡ id)
      → (r : Record) × (get id (swept h reason clocks cutoff rs m) ≡ some r) × (r.id ≡ id)
  unfolding swept
  swept_filed [] m id there = there
  swept_filed (x ∷ rs) m id (r, at, named) = elim (Bool-cases (is_overdue cutoff x)) [
    | inr other ↦ rw other (swept_filed rs m id (r, at, named))
    | inl overdue ↦ rw overdue (
        swept_filed rs (put x.id (given_up h reason clocks cutoff x) m) id
          (elim (Bool-cases (x.id == id)) [
            | inl here ↦ (
              given_up h reason clocks cutoff x,
              get-put x.id id (given_up h reason clocks cutoff x) m ∙ rw here refl,
              unfold moved in (eq_iff x.id id).0 here,
            )
            | inr there ↦
                (r, get-put x.id id (given_up h reason clocks cutoff x) m ∙ rw there at, named)
          ]))
  ]

  module _ (s : Store) (running_clock : (id : String) → is_zero (clocks id).at ≡ false)
      (listed : s.order ≡ ids (records s)) (distinct : Nodup (ids (records s)))
      (stored : (r : Record) → Memᴰ r (records s) → get r.id s.by_id ≡ some r)
      (some_name : (r : Record) → Memᴰ r (records s) → (r.id == "") ≡ false) where
    -- The store once the records of a list have been looked at.
    abbrev pub after_records : List Record → Store
    after_records pre = record s { by_id = swept h reason clocks cutoff pre s.by_id }

    -- Where a pass stands: at the start, or behind the last record that it has looked at.
    abbrev pub IsAt : List Record → String → Type 0
    IsAt pre after =
        ((pre ≡ []) × (after ≡ ""))
        ⊎ ((front : List Record) × (x : Record) × (pre ≡ front ++ (x ∷ [])) × (after ≡ x.id))

    module _ (pre rest : List Record) (e : records s ≡ pre ++ rest) where
      all_ids : Nodup (ids pre ++ ids rest)
      all_ids =
          subst (λ z. Nodup z) (ap ids e ∙ map-append (λ (r : Record). r.id) pre rest) distinct

      order_ids : s.order ≡ ids pre ++ ids rest
      order_ids = listed ∙ ap ids e ∙ map-append (λ (r : Record). r.id) pre rest

      mem_rest : (r : Record) → Memᴰ r rest → Memᴰ r (records s)
      mem_rest r m = subst (λ z. Memᴰ r z) (sym e) (mem-append_right pre rest m)

      -- What is left has not been touched.
      rest_stored : (r : Record) → Memᴰ r rest → get r.id (after_records pre).by_id ≡ some r
      rest_stored r m =
          get-swept h reason clocks cutoff pre s.by_id r.id
            (Nodup-apart (ids pre) (ids rest) r.id all_ids (Memᴰ.map (λ (x : Record). x.id) m))
          ∙ stored r (mem_rest r m)

      -- What has been looked at is still in its place.
      pre_filed :
          (j : String)
          → Memᴰ j (ids pre)
          → (r : Record) × (get j (after_records pre).by_id ≡ some r) × (r.id ≡ j)
      pre_filed j m =
          let (x, n, named) = Memᴰ.of_map (λ (r : Record). r.id) pre m in
          let at = stored x (subst (λ z. Memᴰ x z) (sym e) (mem-append_left pre rest n)) in
          swept_filed pre s.by_id j (x, ap (λ i. get i s.by_id) (sym named) ∙ at, named)

      records_split :
          (done_part : List Record) × (records (after_records pre) ≡ done_part ++ rest)
          × (ids done_part ≡ ids pre)
      records_split = (
        records_of (after_records pre).by_id (ids pre),
        ap (records_of (after_records pre).by_id) order_ids
            ∙ records_of-split (after_records pre).by_id (ids pre) (ids rest)
            ∙ ap (λ z. records_of (after_records pre).by_id (ids pre) ++ z)
                (records_of-exact (after_records pre).by_id rest rest_stored),
        ids-records_of (after_records pre).by_id (ids pre) pre_filed,
      )

      ids_nil : (rs : List Record) → ids rs ≡ [] → rs ≡ []
      ids_nil [] f = refl
      ids_nil (r ∷ rs) f = absurd (ground arith)

      -- What the next page starts from.
      remaining :
          (after : String) → IsAt pre after → Remaining after (records (after_records pre)) rest
      remaining after (inl (none_yet, start)) =
          let (part, split, same) = records_split in
          let empty = ids_nil part (same ∙ ap ids none_yet) in
          inl ((eq_iff after "").1 start, split ∙ ap (λ z. z ++ rest) empty)
      remaining after (inr (front, x, behind, at)) =
          let (part, split, same) = records_split in
          let seen = ap ids behind ∙ map-append (λ (r : Record). r.id) front (x ∷ []) in
          let once_there : Nodup (ids front ++ (x.id ∷ [])) =
            subst (λ z. Nodup z) seen (Nodup-left (ids pre) (ids rest) all_ids) in
          let in_store =
            subst (λ z. Memᴰ x z) (sym e)
              (mem-append_left pre rest (
                subst (λ z. Memᴰ x z) (sym behind)
                  (mem-append_right front (x ∷ []) (Memᴰ.head refl)))) in
          inr (
            ap (λ z. z == "") at ∙ some_name x in_store,
            ap (after_cursor after) split
                ∙ after_cursor-ids part rest (ids front) after
                    (same ∙ seen ∙ ap (λ z. ids front ++ (z ∷ [])) (sym at))
                    (λ m.
                      Nodup-apart (ids front) (x.id ∷ []) x.id once_there (Memᴰ.head refl)
                        (subst (λ z. Memᴰ z (ids front)) at m)),
          )

      -- A page that covers a part of what is left gives up what is overdue in it.
      page_swept :
          (after : String) (part back recs : List Record)
          → rest ≡ part ++ back
          → recs ≡ keep (is_match (sweep_query cutoff after)) part
          → sweep_records h reason clocks cutoff recs (after_records pre)
            ≡ (none, after_records (pre ++ part))
      page_swept after part back recs split these =
          let q = sweep_query cutoff after in
          let part_ids : Nodup (ids part) = Nodup-left (ids part) (ids back) (
            subst (λ z. Nodup z) (ap ids split ∙ map-append (λ (r : Record). r.id) part back)
              (Nodup-right (ids pre) (ids rest) all_ids)) in
          ap (λ z. sweep_records h reason clocks cutoff z (after_records pre)) these
          ∙ sweep_records-swept h reason clocks cutoff running_clock (keep (is_match q) part) s
              (swept h reason clocks cutoff pre s.by_id)
              (λ r m. rest_stored r (
                subst (λ z. Memᴰ r z) (sym split)
                  (mem-append_left part back (mem_of_mem-keep (is_match q) part m).0)))
              (λ r m. matching_waits cutoff after r (mem_of_mem-keep (is_match q) part m).1)
              (Nodup-keep (λ (r : Record). r.id) (is_match q) part part_ids)
          ∙ ap (λ z. (none, record s { by_id = z }))
              (swept-keep h reason clocks cutoff after part
                  (swept h reason clocks cutoff pre s.by_id)
                ∙ sym (swept-append h reason clocks cutoff pre part s.by_id))

    pub pass_swept :
        (fuel : ℕ) (pre rest : List Record) (after : String)
        → records s ≡ pre ++ rest
        → IsAt pre after
        → length rest < fuel
        → sweep_pages h reason clocks cutoff fuel after (after_records pre)
          ≡ (done, after_records (records s))
    unfolding sweep_pages turn_page
    pass_swept zero pre rest after e at enough = absurd (omega arith)
    pass_swept (suc fuel) pre rest after e at enough =
        let q = sweep_query cutoff after in
        let page = fill q 100 0 "" rest in
        let go = sweep_pages h reason clocks cutoff fuel in
        let t = after_records pre in
        let read = history-Remaining cutoff after t rest (remaining pre rest e after at) in
        rw (read, sweep_pages)
          (elim (fill-page q 100 rest (omega arith)) [
            | inl (all, end) ↦
                ap (turn_page h reason clocks cutoff go page.next)
                  (page_swept pre rest e after rest [] page.records (sym (append-nil rest)) all)
                ∙ rw ((eq_iff page.next "").1 end, turn_page)
                    (ap (λ z. (done, after_records z)) (sym e))
            | inr (front, x, back, split, all, next) ↦
                let part = front ++ (x ∷ []) in
                let split' : rest ≡ part ++ back = split ∙ sym (append_assoc front (x ∷ []) back) in
                let e' : records s ≡ (pre ++ part) ++ back =
                  e ∙ ap (λ z. pre ++ z) split' ∙ sym (append_assoc pre part back) in
                let behind : IsAt (pre ++ part) page.next =
                  inr (pre ++ front, x, sym (append_assoc pre front (x ∷ [])), next) in
                let named : (page.next == "") ≡ false =
                  ap (λ z. z == "") next
                  ∙ some_name x (
                      subst (λ z. Memᴰ x z) (sym e)
                        (mem-append_right pre rest (
                          subst (λ z. Memᴰ x z) (sym split)
                            (mem-append_right front (x ∷ back) (Memᴰ.head refl))))) in
                ap (turn_page h reason clocks cutoff go page.next)
                  (page_swept pre rest e after part back page.records split' all)
                ∙ rw (named, turn_page)
                    (pass_swept fuel (pre ++ part) back page.next e' behind
                      (omega (arith, ap length split, length-append front (x ∷ back))))
          ])
