-- ===== src/Common/Sort/Unique.antt =====
-- A list with no repeats has one sorted order, whatever order it comes in.
use mathlib.Core.Path.{◌≡◌, refl, sym, ap, ap₂, ◌∙◌, subst}
use mathlib.Core.Logic.{inl, inr}
use mathlib.Core.Bool.{Bool, true, false}
use mathlib.Core.List.{List, [], ◌∷◌, ◌++◌, map, Memᴰ}
use k8s_lab.Common.Lists.{keep, mem_of_mem-keep}
use mathlib.Core.List.Memᴰ
use k8s_lab.Common.Tests.{Bool-cases}
use k8s_lab.Common.Sort.{insert, sort_by, mem-sort_by, mem_of_mem-sort_by, mem_of_mem-insert}

module _ {ℓ} {A : Type ℓ} where
  abbrev pub Nodup : List A → Type ℓ
  Nodup [] = Unit
  Nodup (x ∷ xs) = (Memᴰ x xs → ⊥) × Nodup xs

  module _ (may_precede : A → A → Bool) where
    abbrev pub IsSorted : List A → Type ℓ
    IsSorted [] = Unit
    IsSorted (x ∷ xs) = ((a : A) → Memᴰ a xs → may_precede x a ≡ true) × IsSorted xs

    -- A test that orders every two values, in one way.
    pub record IsOrder : Type ℓ where
      pub total : (x y : A) → may_precede x y ≡ false → may_precede y x ≡ true
      pub antisym : (x y : A) → may_precede x y ≡ true → may_precede y x ≡ true → x ≡ y
      pub trans :
          (x y z : A) → may_precede x y ≡ true → may_precede y z ≡ true → may_precede x z ≡ true

    module _ (o : IsOrder) where
      insert-IsSorted : (x : A) (xs : List A) → IsSorted xs → IsSorted (insert may_precede x xs)
      unfolding insert
      insert-IsSorted x [] s = (λ a m. absurd (Memᴰ.not-nil m), tt)
      insert-IsSorted x (y ∷ ys) s = elim (Bool-cases (may_precede x y)) [
        | inl before ↦ rw before (
          λ a m. elim (Memᴰ.cases_cons m) [
            | inl e ↦ ap (may_precede x) e ∙ before
            | inr n ↦ o.trans x y a before (s.0 a n)
          ],
          s,
        )
        | inr behind ↦ rw behind (
          λ a m. elim (mem_of_mem-insert may_precede x ys m) [
            | inl e ↦ ap (may_precede y) e ∙ o.total x y behind
            | inr n ↦ s.0 a n
          ],
          insert-IsSorted x ys s.1,
        )
      ]

      sort_by-IsSorted : (xs : List A) → IsSorted (sort_by may_precede xs)
      unfolding sort_by
      sort_by-IsSorted [] = tt
      sort_by-IsSorted (x ∷ xs) = insert-IsSorted x (sort_by may_precede xs) (sort_by-IsSorted xs)

      insert-Nodup :
          (x : A) (xs : List A) → (Memᴰ x xs → ⊥) → Nodup xs → Nodup (insert may_precede x xs)
      unfolding insert
      insert-Nodup x [] new n = (λ m. Memᴰ.not-nil m, tt)
      insert-Nodup x (y ∷ ys) new n = elim (Bool-cases (may_precede x y)) [
        | inl before ↦ rw before (new, n)
        | inr behind ↦ rw behind (
          λ m. elim (mem_of_mem-insert may_precede x ys m) [
            | inl e ↦ new (Memᴰ.head (sym e))
            | inr k ↦ n.0 k
          ],
          insert-Nodup x ys (λ m. new (Memᴰ.tail m)) n.1,
        )
      ]

      sort_by-Nodup : (xs : List A) → Nodup xs → Nodup (sort_by may_precede xs)
      unfolding sort_by
      sort_by-Nodup [] n = tt
      sort_by-Nodup (x ∷ xs) n =
          insert-Nodup x (sort_by may_precede xs) (λ m. n.0 (mem_of_mem-sort_by may_precede xs m))
            (sort_by-Nodup xs n.1)

      -- Without the head, which is in neither tail.
      tail_of_same :
          (x y : A) (xs ys : List A)
          → x ≡ y
          → (Memᴰ x xs → ⊥)
          → ((a : A) → Memᴰ a (x ∷ xs) → Memᴰ a (y ∷ ys))
          → (a : A) → Memᴰ a xs
          → Memᴰ a ys
      tail_of_same x y xs ys e new same a m = elim (Memᴰ.cases_cons (same a (Memᴰ.tail m))) [
        | inl f ↦ absurd (new (subst (λ z. Memᴰ z xs) (f ∙ sym e) m))
        | inr n ↦ n
      ]

      heads_equal :
          (x y : A) (xs ys : List A)
          → IsSorted (x ∷ xs)
          → IsSorted (y ∷ ys)
          → Memᴰ x (y ∷ ys)
          → Memᴰ y (x ∷ xs)
          → x ≡ y
      heads_equal x y xs ys s t m n = elim (Memᴰ.cases_cons m) [
        | inl e ↦ e
        | inr m' ↦ elim (Memᴰ.cases_cons n) [
          | inl e ↦ sym e
          | inr n' ↦ o.antisym x y (s.0 y n') (t.0 x m')
        ]
      ]

      sorted_unique :
          (xs ys : List A)
          → IsSorted xs
          → IsSorted ys
          → Nodup xs
          → Nodup ys
          → ((a : A) → Memᴰ a xs → Memᴰ a ys)
          → ((a : A) → Memᴰ a ys → Memᴰ a xs)
          → xs ≡ ys
      sorted_unique [] [] s t n m f g = refl
      sorted_unique [] (y ∷ ys) s t n m f g = absurd (Memᴰ.not-nil (g y (Memᴰ.head refl)))
      sorted_unique (x ∷ xs) [] s t n m f g = absurd (Memᴰ.not-nil (f x (Memᴰ.head refl)))
      sorted_unique (x ∷ xs) (y ∷ ys) s t n m f g =
          let e = heads_equal x y xs ys s t (f x (Memᴰ.head refl)) (g y (Memᴰ.head refl)) in
          ap₂ ◌∷◌ e (
            sorted_unique xs ys s.1 t.1 n.1 m.1 (tail_of_same x y xs ys e n.0 f)
              (tail_of_same y x ys xs (sym e) m.0 g))

      -- Two lists with no repeats and the same entries have the same sorted order.
      pub sort_by_unique :
          (xs ys : List A)
          → Nodup xs
          → Nodup ys
          → ((a : A) → Memᴰ a xs → Memᴰ a ys)
          → ((a : A) → Memᴰ a ys → Memᴰ a xs)
          → sort_by may_precede xs ≡ sort_by may_precede ys
      sort_by_unique xs ys n m f g =
          sorted_unique (sort_by may_precede xs) (sort_by may_precede ys) (sort_by-IsSorted xs)
            (sort_by-IsSorted ys) (sort_by-Nodup xs n) (sort_by-Nodup ys m)
            (λ a h. mem-sort_by may_precede ys (f a (mem_of_mem-sort_by may_precede xs h)))
            (λ a h. mem-sort_by may_precede xs (g a (mem_of_mem-sort_by may_precede ys h)))

module _ {ℓ} {A : Type ℓ} where
  pub mem-append_left : (xs ys : List A) {a : A} → Memᴰ a xs → Memᴰ a (xs ++ ys)
  mem-append_left [] ys m = elim m [ ]
  mem-append_left (x ∷ xs) ys (Memᴰ.head e) = Memᴰ.head e
  mem-append_left (x ∷ xs) ys (Memᴰ.tail m) = Memᴰ.tail (mem-append_left xs ys m)

  pub mem-append_right : (xs ys : List A) {a : A} → Memᴰ a ys → Memᴰ a (xs ++ ys)
  mem-append_right [] ys m = m
  mem-append_right (x ∷ xs) ys m = Memᴰ.tail (mem-append_right xs ys m)

  -- The parts of a list with no repeats have none, and share nothing.
  pub Nodup-left : (xs ys : List A) → Nodup (xs ++ ys) → Nodup xs
  Nodup-left [] ys n = tt
  Nodup-left (x ∷ xs) ys n = (λ m. n.0 (mem-append_left xs ys m), Nodup-left xs ys n.1)

  pub Nodup-right : (xs ys : List A) → Nodup (xs ++ ys) → Nodup ys
  Nodup-right [] ys n = n
  Nodup-right (x ∷ xs) ys n = Nodup-right xs ys n.1

  pub Nodup-apart : (xs ys : List A) (a : A) → Nodup (xs ++ ys) → Memᴰ a ys → Memᴰ a xs → ⊥
  Nodup-apart [] ys a n m k = Memᴰ.not-nil k
  Nodup-apart (x ∷ xs) ys a n m k = elim (Memᴰ.cases_cons k) [
    | inl e ↦ n.0 (mem-append_right xs ys (subst (λ z. Memᴰ z ys) e m))
    | inr j ↦ Nodup-apart xs ys a n.1 m j
  ]

module _ {ℓ κ} {A : Type ℓ} {B : Type κ} (f : A → B) (p : A → Bool) where
  mem_of_mem-map-keep : (xs : List A) {b : B} → Memᴰ b (map f (keep p xs)) → Memᴰ b (map f xs)
  mem_of_mem-map-keep xs {b} h =
      let (x, m, e) = Memᴰ.of_map f (keep p xs) h in
      subst (λ z. Memᴰ z (map f xs)) e (Memᴰ.map f (mem_of_mem-keep p xs m).0)

  -- What a test keeps has no repeats either.
  pub Nodup-keep : (xs : List A) → Nodup (map f xs) → Nodup (map f (keep p xs))
  unfolding keep
  Nodup-keep [] n = tt
  Nodup-keep (x ∷ xs) n = elim (Bool-cases (p x)) [
    | inl kept ↦ rw kept (λ m. n.0 (mem_of_mem-map-keep xs m), Nodup-keep xs n.1)
    | inr left ↦ rw left (Nodup-keep xs n.1)
  ]
