-- ===== src/Evidence/Links.antt =====
-- The hash chain of a `Ref` in the store of evidence/memory/memory.go, as a property of a list.
use k8s_lab.Common.{
  String, true, false, List, [], ◌∷◌, ◌++◌, ℕ, ◌≡◌, refl, sym, ap, ◌∙◌, subst, none, some, ◌==◌,
  string_eq, list_eq, nat_eq, eq_iff, eq_refl, arith, if◌then◌else◌, inl, inr, Option-cases,
  Bool-cases, Memᴰ, keep,
}
use k8s_lab.Common.Map.{Map, get, put, get-put}
use k8s_lab.Evidence.{Ref, ref_eq, Hash, Record}
use k8s_lab.Evidence.Chain.{Hasher, chain_record}
use k8s_lab.Evidence.Store.{Store, new, last_of}
use k8s_lab.Evidence.Reads.{records_of, records, is_chained}

abbrev pub of_ref : Ref → List Record → List Record
of_ref ref rs = keep (λ r. r.ref == ref) rs

pub records_of-there :
    (m : Map String Record) (j : String) (ids : List String) (x : Record)
    → get j m ≡ some x
    → records_of m (j ∷ ids) ≡ x ∷ records_of m ids
unfolding records_of
records_of-there m j ids x at = ground arith

pub records_of-gone :
    (m : Map String Record) (j : String) (ids : List String)
    → get j m ≡ none
    → records_of m (j ∷ ids) ≡ records_of m ids
unfolding records_of
records_of-gone m j ids at = ground arith

module _ (h : Hasher) where
  -- A record that hashes to its own hash over the one before, with events that chain.
  abbrev pub IsLink : Hash → Record → Type 0
  IsLink prev r = (chain_record h prev r ≡ r.hash) × (is_chained h r.hash r.id r.transitions ≡ true)

  -- Records of which each is a link over the one before, from a hash to a hash.
  abbrev pub IsChain : Hash → List Record → Hash → Type 0
  IsChain prev [] end = prev ≡ end
  IsChain prev (r ∷ rs) end = IsLink prev r × IsChain r.hash rs end

  -- For every `Ref` its records are a chain from nothing to the head that the store keeps.
  abbrev pub IsLinked : Store → Type 0
  IsLinked s = (ref : Ref) → IsChain [] (of_ref ref (records s)) (last_of ref s)

  pub new-IsLinked : (window : ℕ) → IsLinked (new window)
  unfolding new records_of keep get
  new-IsLinked window ref = refl

  pub IsChain-end :
      (prev : Hash) (rs : List Record) (end end' : Hash)
      → end ≡ end'
      → IsChain prev rs end
      → IsChain prev rs end'
  IsChain-end prev rs end end' e c = subst (IsChain prev rs) e c

  pub IsChain-append :
      (prev : Hash) (rs : List Record) (r : Record) (end : Hash)
      → IsChain prev rs end
      → IsLink end r
      → IsChain prev (rs ++ (r ∷ [])) r.hash
  IsChain-append prev [] r end c l = (subst (λ p. IsLink p r) (sym c) l, refl)
  IsChain-append prev (x ∷ rs) r end (k, c) l = (k, IsChain-append x.hash rs r end c l)

  pub keep-append :
      (ref : Ref) (rs : List Record) (r : Record)
      → of_ref ref (rs ++ (r ∷ []))
        ≡ (if r.ref == ref then of_ref ref rs ++ (r ∷ []) else of_ref ref rs)
  unfolding keep
  keep-append ref [] r = ground arith
  keep-append ref (x ∷ rs) r = ground (arith, keep-append ref rs r)

  -- A record under a new id stands after the others.
  pub records_of-append :
      (id : String) (r : Record) (m : Map String Record) (ids : List String)
      → get id m ≡ none
      → ((j : String) → Memᴰ j ids → (x : Record) × (get j m ≡ some x))
      → records_of (put id r m) (ids ++ (id ∷ [])) ≡ records_of m ids ++ (r ∷ [])
  unfolding records_of
  records_of-append id r m [] fresh known = ground (arith, get-put id id r m, eq_refl id)
  records_of-append id r m (j ∷ ids) fresh known =
      let (x, at) = known j (Memᴰ.head refl) in
      let rest = records_of-append id r m ids fresh (λ i n. known i (Memᴰ.tail n)) in
      ground (arith, rest, get-put id j r m, eq_iff id j, λ (q : id ≡ j). ap (λ i. get i m) q)

  pub of_ref-same :
      (ref : Ref) (r : Record) (rs : List Record)
      → (r.ref == ref) ≡ true
      → of_ref ref (r ∷ rs) ≡ r ∷ of_ref ref rs
  unfolding keep
  of_ref-same ref r rs e = ground arith

  pub of_ref-other :
      (ref : Ref) (r : Record) (rs : List Record)
      → (r.ref == ref) ≡ false
      → of_ref ref (r ∷ rs) ≡ of_ref ref rs
  unfolding keep
  of_ref-other ref r rs e = ground arith

  -- A record in the place of another that has its `Ref` and its hash, and is a link where that is.
  abbrev pub IsStandIn : Record → Record → Type 0
  IsStandIn r r' =
      (r'.ref ≡ r.ref) × (r'.hash ≡ r.hash) × ((prev : Hash) → IsLink prev r → IsLink prev r')

  IsChain-cons :
      (ref : Ref) (x x' : Record) (xs ys : List Record)
      → IsStandIn x x'
      → ((prev end : Hash) → IsChain prev (of_ref ref xs) end → IsChain prev (of_ref ref ys) end)
      → (prev end : Hash) → IsChain prev (of_ref ref (x ∷ xs)) end
      → IsChain prev (of_ref ref (x' ∷ ys)) end
  IsChain-cons ref x x' xs ys (same_ref, same_hash, still) rest prev end c =
      elim (Bool-cases (x.ref == ref)) [
        | inl t ↦
            let (k, d) = subst (λ l. IsChain prev l end) (of_ref-same ref x xs t) c in
            subst (λ l. IsChain prev l end)
              (sym (of_ref-same ref x' ys (ap (λ q. q == ref) same_ref ∙ t)))
              (
                still prev k,
                subst (λ e. IsChain e (of_ref ref ys) end) (sym same_hash) (rest x.hash end d),
              )
        | inr f ↦
            subst (λ l. IsChain prev l end)
              (sym (of_ref-other ref x' ys (ap (λ q. q == ref) same_ref ∙ f)))
              (rest prev end (subst (λ l. IsChain prev l end) (of_ref-other ref x xs f) c))
      ]

  pub IsChain-replace :
      (id : String) (r r' : Record) (m : Map String Record) (ref : Ref)
      → get id m ≡ some r
      → IsStandIn r r'
      → (ids : List String) (prev end : Hash) → IsChain prev (of_ref ref (records_of m ids)) end
      → IsChain prev (of_ref ref (records_of (put id r' m) ids)) end
  unfolding records_of
  IsChain-replace id r r' m ref at stand_in [] prev end c = c
  IsChain-replace id r r' m ref at stand_in (j ∷ ids) prev end c =
      let rest = IsChain-replace id r r' m ref at stand_in ids in
      elim (Option-cases (get j m)) [
        | inl gone ↦
            subst (λ l. IsChain prev (of_ref ref l) end)
              (sym (
                records_of-gone (put id r' m) j ids (
                  ground
                    (arith, get-put id j r' m, eq_iff id j, λ (q : id ≡ j). ap (λ i. get i m) q))))
              (rest prev end
                (subst (λ l. IsChain prev (of_ref ref l) end) (records_of-gone m j ids gone) c))
        | inr (x, there) ↦
            let d =
              subst (λ l. IsChain prev (of_ref ref l) end) (records_of-there m j ids x there) c in
            elim (Bool-cases (id == j)) [
              | inl here ↦
                  let same : r ≡ x = ground (arith, ap (λ i. get i m) ((eq_iff id j).0 here)) in
                  subst (λ l. IsChain prev (of_ref ref l) end)
                    (sym
                      (records_of-there (put id r' m) j ids r' (ground (arith, get-put id j r' m))))
                    (IsChain-cons ref x r' (records_of m ids) (records_of (put id r' m) ids)
                      (subst (λ y. IsStandIn y r') same stand_in) rest prev end d)
              | inr elsewhere ↦
                  subst (λ l. IsChain prev (of_ref ref l) end)
                    (sym
                      (records_of-there (put id r' m) j ids x (ground (arith, get-put id j r' m))))
                    (IsChain-cons ref x x (records_of m ids) (records_of (put id r' m) ids)
                      (refl, refl, λ p l. l) rest prev end d)
            ]
      ]
