-- ===== src/Evidence/Breaks.antt =====
-- When `Verify` of evidence/memory/memory.go reports a break, and where.
use k8s_lab.Common.{
  String, false, List, [], ◌∷◌, ◌++◌, ℕ, suc, ◌+◌, ◌<◌, ◌≡◌, ◌≢◌, refl, sym, ◌∙◌, subst, some, ◌==◌,
  string_eq, list_eq, nat_eq, list_eqb_iff, arith, inl, inr, Bool-cases, keep, nat_eqb_iff, length,
}
use k8s_lab.Common.Result.{ok}
use k8s_lab.Evidence.{Ref, ref_eq, Hash, Record, Proof}
use k8s_lab.Evidence.Chain.{Hasher, chain_record}
use k8s_lab.Evidence.Store.{Store}
use k8s_lab.Evidence.Reads.{
  records, verify, history, fill, check_records, after_cursor, fresh_proof, verify_query, limit_of,
}
use k8s_lab.Evidence.Links.{of_ref, IsLink, IsChain, of_ref-same, of_ref-other}
use k8s_lab.Evidence.Proofs.{IsFull, match_of_ref, fill_skip, fill_take, check_link}

abbrev pub IsBrokenAt : ℕ → Proof → Type 0
IsBrokenAt seq proof = (proof.valid ≡ false) × (proof.broken_at ≡ seq)

cons_injective : (x y : Record) (xs ys : List Record) → x ∷ xs ≡ y ∷ ys → (x ≡ y) × (xs ≡ ys)
cons_injective x y xs ys e = (ground arith, ground arith)

nil_ne_cons : (xs ys : List Record) (r : Record) → [] ≢ xs ++ (r ∷ ys)
nil_ne_cons [] ys r e = ground arith
nil_ne_cons (x ∷ xs) ys r e = ground arith

module _ (h : Hasher) where
  check_broken :
      (prev : Hash) (proof : Proof) (r : Record) (rs : List Record)
      → chain_record h prev r ≢ r.hash
      → IsBrokenAt r.seq (check_records h "" prev proof (r ∷ rs))
  unfolding check_records
  check_broken prev proof r rs ne = (
    ground (arith, list_eqb_iff (chain_record h prev r) r.hash),
    ground (arith, list_eqb_iff (chain_record h prev r) r.hash),
  )

  check-break :
      (ref : Ref) (after : String) (limit : ℕ) (r : Record) (ys : List Record) (p : Hash)
      → IsFull ref
      → chain_record h p r ≢ r.hash
      → (rs xs : List Record) (n : ℕ) (last : String) (prev : Hash) (proof : Proof)
      → of_ref ref rs ≡ xs ++ (r ∷ ys)
      → IsChain h prev xs p
      → n + length xs < limit
      → IsBrokenAt r.seq
          (check_records h "" prev proof (fill (verify_query ref after) limit n last rs).records)
  check-break ref after limit r ys p full ne [] xs n last prev proof e c b =
      absurd (nil_ne_cons xs ys r (unfold keep in e))
  check-break ref after limit r ys p full ne (x ∷ rs) xs n last prev proof e c b =
      elim (Bool-cases (x.ref == ref)) [
        | inr f ↦
            rw
              (fill_skip h (verify_query ref after) limit n last x rs
                (match_of_ref ref after x full ∙ f))
              (check-break ref after limit r ys p full ne rs xs n last prev proof
                (sym (of_ref-other h ref x rs f) ∙ e) c b)
        | inl t ↦
            let page = (fill (verify_query ref after) limit (suc n) x.id rs).records in
            let take =
              fill_take h (verify_query ref after) limit n last x rs
                (match_of_ref ref after x full ∙ t) (ground (arith, nat_eqb_iff n limit)) in
            rw take (
              at_head xs (sym (of_ref-same h ref x rs t) ∙ e) c b page
                (λ ws. check-break ref after limit r ys p full ne rs ws (suc n) x.id x.hash))
      ]
    where
      at_head :
          (ws : List Record)
          → x ∷ of_ref ref rs ≡ ws ++ (r ∷ ys)
          → IsChain h prev ws p
          → n + length ws < limit
          → (page : List Record)
          → ((vs : List Record) (proof' : Proof)
              → of_ref ref rs ≡ vs ++ (r ∷ ys)
              → IsChain h x.hash vs p
              → suc n + length vs < limit
              → IsBrokenAt r.seq (check_records h "" x.hash proof' page))
          → IsBrokenAt r.seq (check_records h "" prev proof (x ∷ page))
      at_head [] e' c' b' page later =
          let same = (cons_injective x r (of_ref ref rs) ys e').0 in
          rw same (
            subst (λ q. IsBrokenAt r.seq (check_records h "" q proof (r ∷ page))) (sym c')
              (check_broken p proof r page ne))
      at_head (w ∷ ws) e' (k, c') b' page later =
          let (same, tail) = cons_injective x w (of_ref ref rs) (ws ++ (r ∷ ys)) e' in
          rw (check_link h prev proof x page (subst (λ z. IsLink h prev z) (sym same) k))
            (later ws _ tail (subst (λ z. IsChain h z.hash ws p) (sym same) c') (omega arith))

  -- Tampering is found where it begins: if the first records of a `Ref` are a good chain, fewer
  -- than 200, and the next does not hash to its own hash, `Verify` answers that the chain is not
  -- valid and is broken at the number of that record.
  pub verify_reports_break :
      (ref : Ref) (s : Store) (xs ys : List Record) (r : Record) (p : Hash)
      → IsFull ref
      → of_ref ref (records s) ≡ xs ++ (r ∷ ys)
      → IsChain h [] xs p
      → length xs < 200
      → chain_record h p r ≢ r.hash
      → (proof : Proof) × (verify h ref "" "" s ≡ ok proof) × IsBrokenAt r.seq proof
  unfolding verify history limit_of
  verify_reports_break ref s xs ys r p full e c short ne = (
    check_records h "" [] (fresh_proof ref)
        (fill (verify_query ref "") 200 0 "" (records s)).records,
    refl,
    check-break ref "" 200 r ys p full ne (records s) xs 0 "" [] (fresh_proof ref) e c
        (omega arith),
  )

  -- With a cursor that it finds, `Verify` starts from no hash: the first record of the `Ref` after
  -- the cursor is reported broken unless it hashes to its own hash over nothing.
  pub verify_from_cursor_breaks :
      (ref : Ref) (after : String) (s : Store) (rs ys : List Record) (r : Record)
      → IsFull ref
      → (after == "") ≡ false
      → after_cursor after (records s) ≡ some rs
      → of_ref ref rs ≡ r ∷ ys
      → chain_record h [] r ≢ r.hash
      → (proof : Proof) × (verify h ref after "" s ≡ ok proof) × IsBrokenAt r.seq proof
  unfolding verify history limit_of
  verify_from_cursor_breaks ref after s rs ys r full given there e ne = (
    check_records h "" [] (fresh_proof ref) (fill (verify_query ref after) 200 0 "" rs).records,
    ground arith,
    check-break ref after 200 r ys [] full ne rs [] 0 "" [] (fresh_proof ref) e refl (omega arith),
  )
