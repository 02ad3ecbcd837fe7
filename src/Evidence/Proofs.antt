-- ===== src/Evidence/Proofs.antt =====
-- The walk of `Verify` of evidence/memory/memory.go over a page of `History`.
use k8s_lab.Common.{
  String, true, false, List, [], ◌∷◌, ℕ, suc, ◌≡◌, ◌≢◌, refl, ◌∙◌, subst, ◌==◌, string_eq, list_eq,
  nat_eq, eq_iff, list_eqb_iff, arith, if◌then◌else◌, inl, inr, Bool-cases, nat_eqb,
}
use k8s_lab.Common.Result.{ok}
use k8s_lab.Evidence.{Ref, ref_eq, Hash, Record, Proof, Query}
use k8s_lab.Evidence.Chain.{Hasher, chain_record}
use k8s_lab.Evidence.Store.{Store, new, last_of}
use k8s_lab.Evidence.Reads.{
  records, verify, history, fill, is_match, check_records, fresh_proof, verify_query, limit_of,
}
use k8s_lab.Evidence.Consistent.{new-IsConsistent}
use k8s_lab.Evidence.Races.{Call, run}
use k8s_lab.Evidence.Links.{
  of_ref, IsLink, IsChain, IsLinked, new-IsLinked, of_ref-same, of_ref-other,
}
use k8s_lab.Evidence.Audit.{ArePlain, run-IsLinked}

-- A `Ref` with none of its three names empty: the wildcard of `match` is an empty name.
abbrev pub IsFull : Ref → Type 0
IsFull ref = (ref.tenant_id ≢ "") × (ref.app ≢ "") × (ref.env ≢ "")

pub match_of_ref :
    (ref : Ref) (after : String) (r : Record)
    → IsFull ref
    → is_match (verify_query ref after) r ≡ (r.ref == ref)
unfolding is_match
match_of_ref ref after r (t, a, e) =
    ground (arith, eq_iff ref.tenant_id "", eq_iff ref.app "", eq_iff ref.env "")

module _ (h : Hasher) where
  pub fill_skip :
      (q : Query) (limit n : ℕ) (last : String) (r : Record) (rs : List Record)
      → is_match q r ≡ false
      → fill q limit n last (r ∷ rs) ≡ fill q limit n last rs
  unfolding fill
  fill_skip q limit n last r rs e = ground arith

  fill_full :
      (q : Query) (limit n : ℕ) (last : String) (r : Record) (rs : List Record)
      → is_match q r ≡ true
      → nat_eqb n limit ≡ true
      → (fill q limit n last (r ∷ rs)).records ≡ []
  unfolding fill
  fill_full q limit n last r rs e f = ground arith

  pub fill_take :
      (q : Query) (limit n : ℕ) (last : String) (r : Record) (rs : List Record)
      → is_match q r ≡ true
      → nat_eqb n limit ≡ false
      → (fill q limit n last (r ∷ rs)).records ≡ r ∷ (fill q limit (suc n) r.id rs).records
  unfolding fill
  fill_take q limit n last r rs e f = ground arith

  check_end : (prev : Hash) (proof : Proof) → (check_records h "" prev proof []).valid ≡ proof.valid
  unfolding check_records
  check_end prev proof = refl

  pub check_link :
      (prev : Hash) (proof : Proof) (r : Record) (rs : List Record)
      → IsLink h prev r
      → check_records h "" prev proof (r ∷ rs)
        ≡ check_records h "" r.hash
            (record proof {
              records = suc proof.records;
              to_seq = r.seq;
              from_seq = (if nat_eqb proof.from_seq 0 then r.seq else proof.from_seq);
            })
            rs
  unfolding check_records
  check_link prev proof r rs (k, c) = ground (arith, list_eqb_iff (chain_record h prev r) r.hash)

  check-fill :
      (ref : Ref) (after : String) (limit : ℕ)
      → IsFull ref
      → (rs : List Record) (n : ℕ) (last : String) (prev end : Hash) (proof : Proof)
      → IsChain h prev (of_ref ref rs) end
      → (check_records h "" prev proof
          (fill (verify_query ref after) limit n last rs).records).valid
        ≡ proof.valid
  unfolding fill
  check-fill ref after limit full [] n last prev end proof c = check_end prev proof
  check-fill ref after limit full (r ∷ rs) n last prev end proof c =
      elim (Bool-cases (r.ref == ref)) [
        | inr f ↦
            rw
              (fill_skip (verify_query ref after) limit n last r rs
                (match_of_ref ref after r full ∙ f))
              (check-fill ref after limit full rs n last prev end proof
                (subst (λ l. IsChain h prev l end) (of_ref-other h ref r rs f) c))
        | inl t ↦
            let m = match_of_ref ref after r full ∙ t in
            let (k, d) = subst (λ l. IsChain h prev l end) (of_ref-same h ref r rs t) c in
            elim (Bool-cases (nat_eqb n limit)) [
              | inl stop ↦
                  rw (fill_full (verify_query ref after) limit n last r rs m stop)
                    (check_end prev proof)
              | inr more ↦
                  rw
                    (
                      fill_take (verify_query ref after) limit n last r rs m more,
                      check_link prev proof r
                          (fill (verify_query ref after) limit (suc n) r.id rs).records k,
                    )
                    (check-fill ref after limit full rs (suc n) r.id r.hash end
                      (record proof {
                        records = suc proof.records;
                        to_seq = r.seq;
                        from_seq = (if nat_eqb proof.from_seq 0 then r.seq else proof.from_seq);
                      })
                      d)
            ]
      ]

  verified :
      (ref : Ref) (s : Store)
      → IsFull ref
      → IsLinked h s
      → (proof : Proof) × (verify h ref "" "" s ≡ ok proof) × (proof.valid ≡ true)
  unfolding verify history
  verified ref s full l = (
    check_records h "" [] (fresh_proof ref)
        (fill (verify_query ref "") (limit_of (verify_query ref "").limit) 0 ""
          (records s)).records,
    refl,
    check-fill ref "" _ full (records s) 0 "" [] (last_of ref s) (fresh_proof ref) (l ref),
  )

  -- A chain that only the store has written verifies: after any appends of records with no events,
  -- and any transitions that learn no image and no admission verdict, interleaved over any apps,
  -- `Verify` from the start of a `Ref` with no empty name, over the records that it reads, answers
  -- that the chain is valid.
  pub run-verified :
      (window : ℕ) (calls : List Call) (ref : Ref)
      → IsFull ref
      → ArePlain h calls
      → (proof : Proof) × (verify h ref "" "" (run h calls (new window)) ≡ ok proof)
        × (proof.valid ≡ true)
  run-verified window calls ref full plain =
      verified ref (run h calls (new window)) full
        (run-IsLinked h calls (new window) (new-IsConsistent window) (new-IsLinked h window) plain)
