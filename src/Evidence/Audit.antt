-- ===== src/Evidence/Audit.antt =====
-- `Verify` of evidence/memory/memory.go on a store that only its own methods have written.
use k8s_lab.Common.{
  String, true, List, [], ◌∷◌, ◌++◌, ◌≡◌, refl, sym, ap, ◌∙◌, subst, none, ◌==◌, string_eq, list_eq,
  nat_eq, list_eqb_iff, arith, if◌then◌else◌, inl, inr, Bool-cases,
}
use k8s_lab.Common.Map.{get, get-put}
use k8s_lab.Common.Clock.{Time}
use k8s_lab.Evidence.{ref_eq, ref_eqb_iff, Hash, Event, Record, Transition}
use k8s_lab.Evidence.Ids.{ℤ}
use k8s_lab.Evidence.Chain.{Hasher, chain_record, chain_event}
use k8s_lab.Evidence.Store.{
  Store, append, appended, stored, transition, moved, event_of, last_hash, last_of,
}
use k8s_lab.Evidence.Reads.{records, is_chained}
use k8s_lab.Evidence.Consistent.{
  IsConsistent, append_cases, transition_cases, append-IsConsistent, transition-IsConsistent,
  fresh_id,
}
use k8s_lab.Evidence.Races.{Call, appends, transitions, step, run}
use k8s_lab.Evidence.Links.{
  of_ref, IsLink, IsChain, IsLinked, IsStandIn, IsChain-end, IsChain-append, keep-append,
  records_of-append, IsChain-replace,
}

module _ (h : Hasher) where
  appended-IsLink :
      (nanos : ℤ) (now : Time) (rec : Record) (s : Store)
      → rec.transitions ≡ []
      → IsLink h (last_of rec.ref s) (appended h nanos now rec s)
  unfolding appended chain_record is_chained
  appended-IsLink nanos now rec s e = (refl, rw e refl)

  stored-IsLinked :
      (nanos : ℤ) (now : Time) (rec : Record) (s : Store)
      → IsConsistent s
      → IsLinked h s
      → rec.transitions ≡ []
      → get rec.idempotency_key s.by_key ≡ none
      → IsLinked h (stored (appended h nanos now rec s) s)
  stored-IsLinked nanos now rec s c l e free ref =
      let x = appended h nanos now rec s in
      let own : x.ref ≡ rec.ref = (unfold appended in refl) in
      let fresh : get x.id s.by_id ≡ none =
        (unfold appended in fresh_id h s c nanos rec.idempotency_key free) in
      let all : records (stored x s) ≡ records s ++ (x ∷ []) =
        records_of-append h x.id x s.by_id s.order fresh c.ordered in
      let mine : of_ref ref (records (stored x s))
          ≡ (if x.ref == ref then of_ref ref (records s) ++ (x ∷ []) else of_ref ref (records s)) =
        ap (of_ref ref) all ∙ keep-append h ref (records s) x in
      let head = get-put x.ref ref x.hash s.last in
      elim (Bool-cases (x.ref == ref)) [
        | inl t ↦
            let here : x.ref ≡ ref = (ref_eqb_iff x.ref ref).0 t in
            subst (λ rs. IsChain h [] rs (last_of ref (stored x s))) (sym (ground (arith, mine)))
              (IsChain-end h [] (of_ref ref (records s) ++ (x ∷ [])) x.hash _ (ground (arith, head))
                (IsChain-append h [] (of_ref ref (records s)) x (last_of ref s) (l ref) (
                  subst (λ q. IsLink h (last_of q s) x) (sym own ∙ here)
                    (appended-IsLink nanos now rec s e))))
        | inr f ↦
            subst (λ rs. IsChain h [] rs (last_of ref (stored x s))) (sym (ground (arith, mine)))
              (IsChain-end h [] (of_ref ref (records s)) (last_of ref s) _ (ground (arith, head))
                (l ref))
      ]

  is_chained-append :
      (prev : Hash) (id : String) (es : List Event) (e : Event)
      → is_chained h prev id es ≡ true
      → chain_event h (last_hash prev es) id e ≡ e.hash
      → is_chained h prev id (es ++ (e ∷ [])) ≡ true
  unfolding is_chained
  is_chained-append prev id [] e c k = ground (arith, list_eqb_iff (chain_event h prev id e) e.hash)
  is_chained-append prev id (x ∷ es) e c k =
      ground (arith, is_chained-append x.hash id es e (ground arith) k)

  moved-IsStandIn :
      (now : Time) (t : Transition) (rec : Record)
      → t.admission ≡ none
      → t.image ≡ none
      → IsStandIn h rec (moved h now t rec)
  unfolding moved event_of
  moved-IsStandIn now t rec a i = (
    refl,
    refl,
    λ prev (k, c). (
      rw (a, i) (unfold chain_record in k),
      is_chained-append rec.hash rec.id rec.transitions (event_of h t rec) c
          (unfold chain_event in refl),
    ),
  )

  -- What an observer that learns no image and no admission verdict writes.
  abbrev pub IsPlain : Call → Type 0
  IsPlain (appends nanos now rec) = rec.transitions ≡ []
  IsPlain (transitions now id t) = (t.admission ≡ none) × (t.image ≡ none)

  abbrev pub ArePlain : List Call → Type 0
  ArePlain [] = Unit {0}
  ArePlain (c ∷ cs) = IsPlain c × ArePlain cs

  append-IsLinked :
      (nanos : ℤ) (now : Time) (rec : Record) (s : Store)
      → IsConsistent s
      → IsLinked h s
      → rec.transitions ≡ []
      → IsLinked h (append h nanos now rec s).1
  append-IsLinked nanos now rec s c l e = elim (append_cases h nanos now rec s) [
    | inl r ↦ subst (λ z. IsLinked h z) (sym r.1) l
    | inr (free, done) ↦
        subst (λ z. IsLinked h z) (sym done.1) (stored-IsLinked nanos now rec s c l e free)
  ]

  transition-IsLinked :
      (now : Time) (id : String) (t : Transition) (s : Store)
      → IsLinked h s
      → t.admission ≡ none
      → t.image ≡ none
      → IsLinked h (transition h now id t s).1
  transition-IsLinked now id t s l a i = elim (transition_cases h now id t s) [
    | inl r ↦ subst (λ z. IsLinked h z) (sym r.1) l
    | inr (rec, at, when, from, fence, done) ↦
        subst (λ z. IsLinked h z) (sym done.1)
          (λ ref.
            IsChain-replace h id rec (moved h now t rec) s.by_id ref at
              (moved-IsStandIn now t rec a i) s.order [] (last_of ref s) (l ref))
  ]

  pub run-IsLinked :
      (calls : List Call) (s : Store)
      → IsConsistent s
      → IsLinked h s
      → ArePlain calls
      → IsLinked h (run h calls s)
  unfolding run step
  run-IsLinked [] s c l p = l
  run-IsLinked (appends nanos now rec ∷ rest) s c l (p, ps) =
      run-IsLinked rest (append h nanos now rec s).1 (append-IsConsistent h s c nanos now rec)
        (append-IsLinked nanos now rec s c l p) ps
  run-IsLinked (transitions now id t ∷ rest) s c l ((a, i), ps) =
      run-IsLinked rest (transition h now id t s).1 (transition-IsConsistent h s c now id t)
        (transition-IsLinked now id t s l a i) ps
