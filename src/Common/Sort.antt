-- ===== src/Common/Sort.antt =====
-- Go's `slices.SortFunc`, as an insertion sort: for a comparison under which distinct entries are
-- never equal the sorted order is the only one, so the algorithm does not show.
pub mod Unique
use Prim.Native.Nat.{ℕ, suc}
use mathlib.Core.Path.{◌≡◌, refl, ap, ◌∙◌}
use mathlib.Core.Logic.{◌⊎◌, inl, inr}
use mathlib.Core.Bool.{Bool, true, false}
use mathlib.Core.List.{List, [], ◌∷◌, Memᴰ}
use mathlib.Core.List.Memᴰ
use native.Mathlib.Omega.{arith}
use k8s_lab.Common.Tests.{if◌then◌else◌}
use k8s_lab.Common.Lists.{length}

module _ {ℓ} {A : Type ℓ} where
  mem_of_mem-if :
      (b : Bool) (l r : List A) {a : A} → Memᴰ a (if b then l else r) → Memᴰ a l ⊎ Memᴰ a r
  mem_of_mem-if true l r m = inl m
  mem_of_mem-if false l r m = inr m

  mem-if : (b : Bool) (l r : List A) {a : A} → Memᴰ a l → Memᴰ a r → Memᴰ a (if b then l else r)
  mem-if true l r m n = m
  mem-if false l r m n = n

  module _ (may_precede : A → A → Bool) where
    insert : A → List A → List A
    insert a [] = a ∷ []
    insert a (x ∷ xs) = let rest = insert a xs in if may_precede a x then a ∷ x ∷ xs else x ∷ rest

    unfoldable pub sort_by : List A → List A
    unfolding insert
    sort_by [] = []
    sort_by (x ∷ xs) = insert x (sort_by xs)

    mem_of_mem-insert : (x : A) (xs : List A) {a : A} → Memᴰ a (insert x xs) → (a ≡ x) ⊎ Memᴰ a xs
    unfolding insert
    mem_of_mem-insert x [] m = Memᴰ.cases_cons m
    mem_of_mem-insert x (y ∷ ys) m =
        elim (mem_of_mem-if (may_precede x y) (x ∷ y ∷ ys) (y ∷ insert x ys) m) [
          | inl n ↦ Memᴰ.cases_cons n
          | inr n ↦ elim (Memᴰ.cases_cons n) [
            | inl e ↦ inr (Memᴰ.head e)
            | inr k ↦ elim (mem_of_mem-insert x ys k) [ inl e ↦ inl e | inr j ↦ inr (Memᴰ.tail j) ]
          ]
        ]

    mem-insert_self : (x : A) (xs : List A) {a : A} → a ≡ x → Memᴰ a (insert x xs)
    unfolding insert
    mem-insert_self x [] e = Memᴰ.head e
    mem-insert_self x (y ∷ ys) e =
        mem-if (may_precede x y) (x ∷ y ∷ ys) (y ∷ insert x ys) (Memᴰ.head e)
          (Memᴰ.tail (mem-insert_self x ys e))

    mem-insert_of_mem : (x : A) (xs : List A) {a : A} → Memᴰ a xs → Memᴰ a (insert x xs)
    unfolding insert
    mem-insert_of_mem x [] m = Memᴰ.tail m
    mem-insert_of_mem x (y ∷ ys) (Memᴰ.head e) =
        mem-if (may_precede x y) (x ∷ y ∷ ys) (y ∷ insert x ys) (Memᴰ.tail (Memᴰ.head e))
          (Memᴰ.head e)
    mem-insert_of_mem x (y ∷ ys) (Memᴰ.tail m) =
        mem-if (may_precede x y) (x ∷ y ∷ ys) (y ∷ insert x ys) (Memᴰ.tail (Memᴰ.tail m))
          (Memᴰ.tail (mem-insert_of_mem x ys m))

    pub mem_of_mem-sort_by : (xs : List A) {a : A} → Memᴰ a (sort_by xs) → Memᴰ a xs
    unfolding sort_by
    mem_of_mem-sort_by [] m = m
    mem_of_mem-sort_by (x ∷ xs) m = elim (mem_of_mem-insert x (sort_by xs) m) [
      | inl e ↦ Memᴰ.head e
      | inr n ↦ Memᴰ.tail (mem_of_mem-sort_by xs n)
    ]

    pub mem-sort_by : (xs : List A) {a : A} → Memᴰ a xs → Memᴰ a (sort_by xs)
    unfolding sort_by
    mem-sort_by [] m = m
    mem-sort_by (x ∷ xs) (Memᴰ.head e) = mem-insert_self x (sort_by xs) e
    mem-sort_by (x ∷ xs) (Memᴰ.tail m) = mem-insert_of_mem x (sort_by xs) (mem-sort_by xs m)

    length-insert : (x : A) (xs : List A) → length (insert x xs) ≡ suc (length xs)
    unfolding insert
    length-insert x [] = refl
    length-insert x (y ∷ ys) = ground (arith, length-insert x ys)

    pub length-sort_by : (xs : List A) → length (sort_by xs) ≡ length xs
    unfolding sort_by
    length-sort_by [] = refl
    length-sort_by (x ∷ xs) = length-insert x (sort_by xs) ∙ ap suc (length-sort_by xs)
