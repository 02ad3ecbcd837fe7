-- ===== src/Evidence/Learned.antt =====
-- What `Verify` of evidence/memory/memory.go says once a transition has learned an image.
use k8s_lab.Common.{
  String, true, false, List, [], ◌∷◌, ◌++◌, ℕ, ◌≤◌, ◌<◌, ◌≡◌, ◌≢◌, refl, sym, ap, ◌∙◌, subst, some,
  ◌==◌, string_eq, eq_iff, arith, inl, inr, Option-cases, Bool-cases, Memᴰ, length,
}
use mathlib.Core.List.Memᴰ
use k8s_lab.Common.Map.{Map, get, put, get-put}
use k8s_lab.Common.Clock.{Time}
use k8s_lab.Common.Result.{ok, is_err}
use k8s_lab.Evidence.{Ref, ref_eq, ref_eqb_iff, Hash, Record, Transition, Proof, Image}
use k8s_lab.Evidence.Chain.{Hasher, chain_record, chained, of_record}
use k8s_lab.Evidence.Store.{Store, new, transition, moved, last_of}
use k8s_lab.Evidence.Reads.{records, records_of, verify}
use k8s_lab.Evidence.Consistent.{new-IsConsistent}
use k8s_lab.Evidence.Races.{Call, run, step}
use k8s_lab.Evidence.Links.{
  of_ref, IsLink, IsChain, new-IsLinked, of_ref-same, of_ref-other, records_of-there,
  records_of-gone,
}
use k8s_lab.Evidence.Audit.{ArePlain, run-IsLinked}
use k8s_lab.Evidence.Proofs.{IsFull}
use k8s_lab.Evidence.Breaks.{IsBrokenAt, verify_reports_break}
use k8s_lab.Evidence.Retained.{IsListed, step-IsListed, new-IsListed}

append_cancel : (p a b : List ℕ) → p ++ a ≡ p ++ b → a ≡ b
append_cancel [] a b e = e
append_cancel (x ∷ p) a b e = append_cancel p a b (ground arith)

module _ (h : Hasher) where
  run-IsListed : (calls : List Call) (s : Store) → IsListed s → IsListed (run h calls s)
  unfolding run
  run-IsListed [] s k = k
  run-IsListed (c ∷ rest) s k = run-IsListed rest (step h c s) (step-IsListed h c s k)

  -- Where the records of a `Ref` show a replaced one: behind a chain over which the one before was
  -- a link.
  abbrev Shows : Ref → Hash → List Record → ℕ → Record → Record → Type 0
  Shows ref prev rs bound r x =
      (xs : List Record) × (ys : List Record) × (p : Hash) × (of_ref ref rs ≡ xs ++ (x ∷ ys))
      × IsChain h prev xs p
      × IsLink h p r
      × (length xs < bound)

  -- One more record before it.
  cons-Shows :
      (ref : Ref) (prev end : Hash) (y r x : Record) (old rs : List Record)
      → IsChain h prev (of_ref ref (y ∷ old)) end
      → ((q : Hash)
          → IsChain h q (of_ref ref old) end
          → Shows ref q rs (length (of_ref ref old)) r x)
      → Shows ref prev (y ∷ rs) (length (of_ref ref (y ∷ old))) r x
  cons-Shows ref prev end y r x old rs c rest = elim (Bool-cases (y.ref == ref)) [
    | inr f ↦
        let skip = of_ref-other h ref y old f in
        let (xs, ys, p, e, d, l, b) = rest prev (subst (λ z. IsChain h prev z end) skip c) in
        (
          xs,
          ys,
          p,
          of_ref-other h ref y rs f ∙ e,
          d,
          l,
          subst (λ z. length xs < length z) (sym skip) b,
        )
    | inl t ↦
        let take = of_ref-same h ref y old t in
        let (here, tail) = subst (λ z. IsChain h prev z end) take c in
        let (xs, ys, p, e, d, l, b) = rest y.hash tail in
        (
          y ∷ xs,
          ys,
          p,
          of_ref-same h ref y rs t ∙ ap (λ z. y ∷ z) e,
          (here, d),
          l,
          subst (λ z. length (y ∷ xs) < length z) (sym take) (omega (arith, b)),
        )
  ]

  put-Shows :
      (id : String) (r x : Record) (m : Map String Record) (ref : Ref)
      → get id m ≡ some r
      → (r.ref == ref) ≡ true
      → (x.ref == ref) ≡ true
      → (ids : List String) (prev end : Hash) → Memᴰ id ids
      → IsChain h prev (of_ref ref (records_of m ids)) end
      → Shows ref prev (records_of (put id x m) ids) (length (of_ref ref (records_of m ids))) r x
  put-Shows id r x m ref at mine its [] prev end n c = absurd (Memᴰ.not-nil n)
  put-Shows id r x m ref at mine its (j ∷ ids) prev end n c = elim (Bool-cases (id == j)) [
    | inl here ↦
        let old =
          records_of-there m j ids r (ap (λ i. get i m) (sym ((eq_iff id j).0 here)) ∙ at) in
        let all = ap (of_ref ref) old ∙ of_ref-same h ref r (records_of m ids) mine in
        let now = records_of-there (put id x m) j ids x (ground (arith, get-put id j x m)) in
        let (good, tail) = subst (λ z. IsChain h prev z end) all c in
        (
          [],
          of_ref ref (records_of (put id x m) ids),
          prev,
          ap (of_ref ref) now ∙ of_ref-same h ref x (records_of (put id x m) ids) its,
          refl,
          good,
          subst (λ z. length {A = Record} [] < length z) (sym all) (omega arith),
        )
    | inr other ↦ elim (Memᴰ.cases_cons n) [
      | inl e ↦ absurd (let same = (eq_iff id j).1 e in ground arith)
      | inr later ↦
          let rest = λ (q : Hash) (d : IsChain h q (of_ref ref (records_of m ids)) end).
            put-Shows id r x m ref at mine its ids q end later d in
          elim (Option-cases (get j m)) [
            | inl gone ↦
                let old = records_of-gone m j ids gone in
                let now = records_of-gone (put id x m) j ids (ground (arith, get-put id j x m)) in
                subst (λ z. Shows ref prev z (length (of_ref ref (records_of m (j ∷ ids)))) r x)
                  (sym now)
                  (subst
                    (λ z. Shows ref prev (records_of (put id x m) ids) (length (of_ref ref z)) r x)
                    (sym old) (rest prev (subst (λ z. IsChain h prev (of_ref ref z) end) old c)))
            | inr (y, there) ↦
                let old = records_of-there m j ids y there in
                let now =
                  records_of-there (put id x m) j ids y (ground (arith, get-put id j x m)) in
                subst (λ z. Shows ref prev z (length (of_ref ref (records_of m (j ∷ ids)))) r x)
                  (sym now)
                  (subst
                    (λ z.
                      Shows ref prev (y ∷ records_of (put id x m) ids) (length (of_ref ref z)) r x)
                    (sym old)
                    (cons-Shows ref prev end y r x (records_of m ids) (records_of (put id x m) ids)
                      (subst (λ z. IsChain h prev (of_ref ref z) end) old c) rest))
          ]
    ]
  ]

  succeeded :
      (now : Time) (id : String) (t : Transition) (rec : Record) (s : Store)
      → get id s.by_id ≡ some rec
      → is_err (transition h now id t s).0 ≡ false
      → (transition h now id t s).1 ≡ record s { by_id = put id (moved h now t rec) s.by_id }
  unfolding transition
  succeeded now id t rec s there done = ground arith

  -- A transition that learns an image makes an honest chain look broken. In an archive that any calls
  -- of `Append`, of records with no events, and of `Transition`, with no image and no verdict, have
  -- made of an empty one, let a transition succeed that learns an image other than the record's,
  -- where no more than 200 records have the record's `Ref`, all of its parts set. Then `Verify` of
  -- the `Ref` reports a break at this record, if the JSON of the record shows its image, and SHA-256
  -- does not collide on the JSON of the record before and after.
  pub learned_image_breaks :
      (window : ℕ) (calls : List Call) (now : Time) (id : String) (t : Transition) (rec : Record)
      (image : Image)
      → IsFull rec.ref
      → ArePlain h calls
      → let s = run h calls (new window) in
        let changed = moved h now t rec in
        get id s.by_id ≡ some rec
        → is_err (transition h now id t s).0 ≡ false
        → length (of_ref rec.ref (records s)) ≤ 200
        → t.image ≡ some image
        → image ≢ rec.image
        → (h.marshal (of_record (chained h changed)) ≡ h.marshal (of_record (chained h rec))
            → changed.image ≡ rec.image)
        → ((p : Hash)
            → chain_record h p changed ≡ chain_record h p rec
            → p ++ h.marshal (of_record (chained h changed))
              ≡ p ++ h.marshal (of_record (chained h rec)))
        → (proof : Proof) × (verify h rec.ref "" "" (transition h now id t s).1 ≡ ok proof)
          × IsBrokenAt rec.seq proof
  learned_image_breaks window calls now id t rec image full plain there done short learned other
        shows apart =
      let s = run h calls (new window) in
      let changed = moved h now t rec in
      let linked =
        run-IsLinked h calls (new window) (new-IsConsistent window) (new-IsLinked h window) plain in
      let listed = run-IsListed calls (new window) (new-IsListed window) id rec there in
      let mine : (rec.ref == rec.ref) ≡ true = (ref_eqb_iff rec.ref rec.ref).1 refl in
      let its : (changed.ref == rec.ref) ≡ true = (unfold moved in mine) in
      let (xs, ys, p, e, c, l, b) =
        put-Shows id rec changed s.by_id rec.ref there mine its s.order [] (last_of rec.ref s)
          listed (linked rec.ref) in
      let wrote : (transition h now id t s).1 ≡ record s { by_id = put id changed s.by_id } =
        succeeded now id t rec s there done in
      let taken : changed.image ≡ image = (unfold moved in rw learned refl) in
      let breaks : chain_record h p changed ≢ changed.hash = λ q. other (
        sym taken
        ∙ shows (
            append_cancel p (h.marshal (of_record (chained h changed)))
              (h.marshal (of_record (chained h rec))) (apart p (q ∙ (unfold moved in sym l.0))))) in
      let (proof, answer, broken) =
        verify_reports_break h rec.ref (record s { by_id = put id changed s.by_id }) xs ys changed p
          full e c (omega (arith, b, short)) breaks in
      (proof, ap (λ z. verify h rec.ref "" "" z) wrote ∙ answer, unfold moved in broken)
