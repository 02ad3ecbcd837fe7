-- ===== src/Evidence/Pruning/Rounds.antt =====
-- The keys and the order under the loop of `Prune` of evidence/memory/memory.go.
use k8s_lab.Common.{
  String, true, List, [], ◌∷◌, ◌++◌, ◌≡◌, refl, sym, ap, ◌∙◌, subst, none, some, ◌||◌, not, ◌==◌,
  string_eq, eq_iff, arith, if◌then◌else◌, inl, inr, ◌⊎◌, Bool-cases, Memᴰ,
}
use mathlib.Core.List.Memᴰ
use k8s_lab.Common.Map.{get, get-delete}
use k8s_lab.Common.Clock.{Time}
use k8s_lab.Common.Sort.Unique.{mem-append_left, mem-append_right}
use k8s_lab.Evidence.{Record, PruneResult}
use k8s_lab.Evidence.Store.{Store}
use k8s_lab.Evidence.Reads.{is_kept, prune_one, prune_loop}
use k8s_lab.Evidence.Pruning.{prune_one-get}

module _ (cutoff : Time) (s : Store) where
  prune_one-key :
      (x : Record) (acc : PruneResult × Store) (k : String)
      → get k (prune_one cutoff s x acc).1.by_key
        ≡ (if is_kept cutoff s x || not (x.idempotency_key == k) then get k acc.1.by_key else none)
  unfolding prune_one
  prune_one-key x acc k = elim (Bool-cases (is_kept cutoff s x)) [
    | inl kept ↦ rw kept refl
    | inr old ↦ rw old (ground (arith, get-delete x.idempotency_key k acc.1.by_key))
  ]

  -- A key that is read in the end was read before, and of no record that was deleted.
  pub loop_key :
      (k id : String) (rs : List Record) (acc : PruneResult × Store)
      → get k (prune_loop cutoff s rs acc).1.by_key ≡ some id
      → (get k acc.1.by_key ≡ some id)
        × ((x : Record) → Memᴰ x rs → x.idempotency_key ≡ k → is_kept cutoff s x ≡ true)
  unfolding prune_loop
  loop_key k id [] acc e = (e, λ x m. absurd (Memᴰ.not-nil m))
  loop_key k id (x ∷ rs) acc e =
      let (earlier, kept) = loop_key k id rs (prune_one cutoff s x acc) e in
      (
        ground (arith, prune_one-key x acc k),
        λ y m q. elim (Memᴰ.cases_cons m) [
          | inr later ↦ kept y later q
          | inl here ↦
              subst (λ z. is_kept cutoff s z ≡ true) (sym here)
                (let own : x.idempotency_key ≡ k =
                    ap (λ (z : Record). z.idempotency_key) (sym here) ∙ q in
                  ground (arith, prune_one-key x acc k, eq_iff x.idempotency_key k))
        ],
      )

  -- The other way: what no deleted record has stays.
  pub loop_key_stays :
      (k id : String) (rs : List Record) (acc : PruneResult × Store)
      → ((x : Record) → Memᴰ x rs → x.idempotency_key ≡ k → is_kept cutoff s x ≡ true)
      → get k acc.1.by_key ≡ some id
      → get k (prune_loop cutoff s rs acc).1.by_key ≡ some id
  unfolding prune_loop
  loop_key_stays k id [] acc safe e = e
  loop_key_stays k id (x ∷ rs) acc safe e =
      let first = safe x (Memᴰ.head refl) in
      loop_key_stays k id rs (prune_one cutoff s x acc) (λ y m. safe y (Memᴰ.tail m))
        (ground (arith, prune_one-key x acc k, eq_iff x.idempotency_key k))

  prune_one-order :
      (x : Record) (acc : PruneResult × Store)
      → (prune_one cutoff s x acc).1.order
        ≡ (if is_kept cutoff s x then acc.1.order ++ (x.id ∷ []) else acc.1.order)
  unfolding prune_one
  prune_one-order x acc = ground arith

  pub loop_order :
      (id : String) (rs : List Record) (acc : PruneResult × Store)
      → Memᴰ id (prune_loop cutoff s rs acc).1.order
      → Memᴰ id acc.1.order ⊎ ((x : Record) × Memᴰ x rs × (x.id ≡ id) × (is_kept cutoff s x ≡ true))
  unfolding prune_loop
  loop_order id [] acc m = inl m
  loop_order id (x ∷ rs) acc m = elim (loop_order id rs (prune_one cutoff s x acc) m) [
    | inr (y, n, named, kept) ↦ inr (y, Memᴰ.tail n, named, kept)
    | inl earlier ↦ elim (Bool-cases (is_kept cutoff s x)) [
      | inr old ↦ inl (subst (λ z. Memᴰ id z) (prune_one-order x acc ∙ rw old refl) earlier)
      | inl kept ↦
          elim (Memᴰ.append_cases acc.1.order
            (subst (λ z. Memᴰ id z) (prune_one-order x acc ∙ rw kept refl) earlier)) [
              | inl before_it ↦ inl before_it
              | inr now ↦ elim (Memᴰ.cases_cons now) [
                | inl same ↦ inr (x, Memᴰ.head refl, sym same, kept)
                | inr end ↦ absurd (Memᴰ.not-nil end)
              ]
            ]
    ]
  ]

  loop_order_keeps :
      (id : String) (rs : List Record) (acc : PruneResult × Store)
      → Memᴰ id acc.1.order
      → Memᴰ id (prune_loop cutoff s rs acc).1.order
  unfolding prune_loop
  loop_order_keeps id [] acc m = m
  loop_order_keeps id (x ∷ rs) acc m = loop_order_keeps id rs (prune_one cutoff s x acc) (
      subst (λ z. Memᴰ id z) (sym (prune_one-order x acc))
        (elim (Bool-cases (is_kept cutoff s x)) [
          | inl kept ↦ rw kept (mem-append_left acc.1.order _ m)
          | inr old ↦ rw old m
        ]))

  prune_one_takes :
      (x : Record) (acc : PruneResult × Store)
      → is_kept cutoff s x ≡ true
      → Memᴰ x.id (prune_one cutoff s x acc).1.order
  prune_one_takes x acc kept =
      let grown : (prune_one cutoff s x acc).1.order ≡ acc.1.order ++ (x.id ∷ []) =
        prune_one-order x acc ∙ rw kept refl in
      subst (λ z. Memᴰ x.id z) (sym grown)
        (mem-append_right acc.1.order (x.id ∷ []) (Memᴰ.head refl))

  pub loop_order_takes :
      (x : Record) (rs : List Record) (acc : PruneResult × Store)
      → Memᴰ x rs
      → is_kept cutoff s x ≡ true
      → Memᴰ x.id (prune_loop cutoff s rs acc).1.order
  unfolding prune_loop
  loop_order_takes x [] acc m kept = absurd (Memᴰ.not-nil m)
  loop_order_takes x (y ∷ rs) acc m kept = elim (Memᴰ.cases_cons m) [
    | inr later ↦ loop_order_takes x rs (prune_one cutoff s y acc) later kept
    | inl here ↦
        let named = ap (λ (z : Record). z.id) (sym here) in
        loop_order_keeps x.id rs (prune_one cutoff s y acc) (
          subst (λ i. Memᴰ i (prune_one cutoff s y acc).1.order) named
            (prune_one_takes y acc (ap (is_kept cutoff s) (sym here) ∙ kept)))
  ]

  -- Only deletions.
  pub loop_there :
      (id : String) (r : Record) (rs : List Record) (acc : PruneResult × Store)
      → get id (prune_loop cutoff s rs acc).1.by_id ≡ some r
      → get id acc.1.by_id ≡ some r
  unfolding prune_loop
  loop_there id r [] acc e = e
  loop_there id r (x ∷ rs) acc e =
      let earlier = loop_there id r rs (prune_one cutoff s x acc) e in
      ground (arith, prune_one-get cutoff s x acc id)
