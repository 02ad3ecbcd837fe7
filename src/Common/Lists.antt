-- ===== src/Common/Lists.antt =====
-- Lists by Boolean predicates, and membership as a family.
use Prim.Native.Nat.{ℕ, zero, suc, ◌+◌, ◌≤◌, ◌<◌}
use mathlib.Core.Path.{◌≡◌, refl, sym, ap, ◌∙◌}
use mathlib.Core.Logic.{◌⊎◌, inl, inr}
use mathlib.Core.Bool.{Bool, true, false, ◌||◌}
use mathlib.Core.Option.{Option, none, some}
use mathlib.Core.List.{List, [], ◌∷◌, ◌++◌, map, Memᴰ}
use mathlib.Core.List.Memᴰ
use native.Mathlib.Omega.{arith}
use k8s_lab.Common.Tests.{if◌then◌else◌, Comparable, ◌==◌, Bool-cases}

module _ {ℓ} {A : Type ℓ} where
  abbrev pub length : List A → ℕ
  length [] = 0
  length (x ∷ xs) = suc (length xs)

  pub length-append : (xs ys : List A) → length (xs ++ ys) ≡ length xs + length ys
  length-append [] ys = omega arith
  length-append (x ∷ xs) ys = omega (arith, length-append xs ys)

  abbrev pub get_elem? : List A → ℕ → Option A
  get_elem? [] i = none
  get_elem? (x ∷ xs) zero = some x
  get_elem? (x ∷ xs) (suc i) = get_elem? xs i

  pub get_elem?-append :
      (xs ys : List A) (i : ℕ) (a : A) → get_elem? xs i ≡ some a → get_elem? (xs ++ ys) i ≡ some a
  get_elem?-append [] ys i a h = absurd (ground arith)
  get_elem?-append (x ∷ xs) ys zero a h = h
  get_elem?-append (x ∷ xs) ys (suc i) a h = get_elem?-append xs ys i a h

  pub get_elem?-append_end :
      (xs : List A) (i : ℕ) (a : A) → length xs ≡ i → get_elem? (xs ++ (a ∷ [])) i ≡ some a
  get_elem?-append_end [] zero a h = refl
  get_elem?-append_end [] (suc i) a h = absurd (omega arith)
  get_elem?-append_end (x ∷ xs) zero a h = absurd (omega arith)
  get_elem?-append_end (x ∷ xs) (suc i) a h = get_elem?-append_end xs i a (omega arith)

  pub lt-length_of_get_elem? :
      (xs : List A) (i : ℕ) (a : A) → get_elem? xs i ≡ some a → i < length xs
  lt-length_of_get_elem? [] i a h = absurd (ground arith)
  lt-length_of_get_elem? (x ∷ xs) zero a h = omega arith
  lt-length_of_get_elem? (x ∷ xs) (suc i) a h = omega (arith, lt-length_of_get_elem? xs i a h)

  unfoldable pub take : ℕ → List A → List A
  take zero xs = []
  take (suc n) [] = []
  take (suc n) (x ∷ xs) = x ∷ take n xs

  unfoldable pub drop : ℕ → List A → List A
  drop zero xs = xs
  drop (suc n) [] = []
  drop (suc n) (x ∷ xs) = drop n xs

  pub drop-append : (xs ys : List A) (n : ℕ) → length xs ≡ n → drop n (xs ++ ys) ≡ ys
  unfolding drop
  drop-append [] ys zero h = refl
  drop-append [] ys (suc n) h = absurd (omega arith)
  drop-append (x ∷ xs) ys zero h = absurd (omega arith)
  drop-append (x ∷ xs) ys (suc n) h = drop-append xs ys n (omega arith)

  -- The entries that pass a test, in order.
  unfoldable pub keep : (A → Bool) → List A → List A
  keep p [] = []
  keep p (x ∷ xs) = let rest = keep p xs in if p x then x ∷ rest else rest

  mem_of_mem-if :
      (b : Bool) (x : A) (xs : List A) {a : A}
      → Memᴰ a (if b then x ∷ xs else xs)
      → ((a ≡ x) × (b ≡ true)) ⊎ Memᴰ a xs
  mem_of_mem-if true x xs (Memᴰ.head e) = inl (e, refl)
  mem_of_mem-if true x xs (Memᴰ.tail m) = inr m
  mem_of_mem-if false x xs m = inr m

  mem-if_skip :
      (b : Bool) (x : A) (xs : List A) {a : A} → Memᴰ a xs → Memᴰ a (if b then x ∷ xs else xs)
  mem-if_skip true x xs m = Memᴰ.tail m
  mem-if_skip false x xs m = m

  mem-if_take :
      (b : Bool) (x : A) (xs : List A) {a : A}
      → a ≡ x
      → b ≡ true
      → Memᴰ a (if b then x ∷ xs else xs)
  mem-if_take true x xs e t = Memᴰ.head e
  mem-if_take false x xs e t = absurd (ground arith)

  pub mem_of_mem-keep :
      (p : A → Bool) (xs : List A) {a : A} → Memᴰ a (keep p xs) → Memᴰ a xs × (p a ≡ true)
  unfolding keep
  mem_of_mem-keep p [] m = absurd (Memᴰ.not-nil m)
  mem_of_mem-keep p (x ∷ xs) {a} m = elim (mem_of_mem-if (p x) x (keep p xs) m) [
    | inl h ↦ (Memᴰ.head h.0, ap p h.0 ∙ h.1)
    | inr h ↦ let (n, t) = mem_of_mem-keep p xs h in (Memᴰ.tail n, t)
  ]

  pub mem-keep : (p : A → Bool) (xs : List A) {a : A} → Memᴰ a xs → p a ≡ true → Memᴰ a (keep p xs)
  unfolding keep
  mem-keep p [] m t = absurd (Memᴰ.not-nil m)
  mem-keep p (x ∷ xs) (Memᴰ.head e) t = mem-if_take (p x) x (keep p xs) e (ap p (sym e) ∙ t)
  mem-keep p (x ∷ xs) (Memᴰ.tail m) t = mem-if_skip (p x) x (keep p xs) (mem-keep p xs m t)

  pub length-keep-le : (p : A → Bool) (xs : List A) → length (keep p xs) ≤ length xs
  unfolding keep
  length-keep-le p [] = omega arith
  length-keep-le p (x ∷ xs) = ground (arith, length-keep-le p xs)

pub append_nil {ℓ} : {A : Type ℓ} (xs ys : List A) → xs ++ ys ≡ [] → (xs ≡ []) × (ys ≡ [])
append_nil [] ys e = (refl, e)
append_nil (x ∷ xs) ys e = absurd (ground arith)

pub length-map {ℓ κ} :
    {A : Type ℓ} {B : Type κ} (f : A → B) (xs : List A) → length (map f xs) ≡ length xs
length-map f [] = refl
length-map f (x ∷ xs) = omega (arith, length-map f xs)

module _ {ℓ} {A : Type ℓ} ⦃e : Comparable A⦄ where
  -- slices.Contains
  unfoldable pub contains : List A → A → Bool
  contains [] a = false
  contains (x ∷ xs) a = x == a || contains xs a

  pub contains_of_mem : (xs : List A) {a : A} → Memᴰ a xs → contains xs a ≡ true
  unfolding contains
  contains_of_mem [] m = absurd (Memᴰ.not-nil m)
  contains_of_mem (x ∷ xs) {a} (Memᴰ.head h) = ground (arith, e.equals_iff x a, sym h)
  contains_of_mem (x ∷ xs) {a} (Memᴰ.tail m) = ground (arith, contains_of_mem xs m)

  pub mem_of_contains : (xs : List A) {a : A} → contains xs a ≡ true → Memᴰ a xs
  unfolding contains
  mem_of_contains [] h = absurd (ground arith)
  mem_of_contains (x ∷ xs) {a} h = elim (Bool-cases (x == a)) [
    | inl t ↦ Memᴰ.head (sym ((e.equals_iff x a).0 t))
    | inr f ↦ Memᴰ.tail (mem_of_contains xs (ground arith))
  ]

module _ {ℓ} {A : Type ℓ} where
  -- Whether some entry passes a test.
  unfoldable pub any : (A → Bool) → List A → Bool
  any p [] = false
  any p (x ∷ xs) = p x || any p xs

  pub any_of_mem : (p : A → Bool) (xs : List A) {a : A} → Memᴰ a xs → p a ≡ true → any p xs ≡ true
  unfolding any
  any_of_mem p [] m h = absurd (Memᴰ.not-nil m)
  any_of_mem p (x ∷ xs) {a} (Memᴰ.head e) h = ground (arith, ap p e)
  any_of_mem p (x ∷ xs) {a} (Memᴰ.tail m) h = ground (arith, any_of_mem p xs m h)

  pub mem_of_any :
      (p : A → Bool) (xs : List A) → any p xs ≡ true → (a : A) × Memᴰ a xs × (p a ≡ true)
  unfolding any
  mem_of_any p [] h = absurd (ground arith)
  mem_of_any p (x ∷ xs) h = elim (Bool-cases (p x)) [
    | inl t ↦ (x, Memᴰ.head refl, t)
    | inr f ↦ let (a, m, t) = mem_of_any p xs (ground arith) in (a, Memᴰ.tail m, t)
  ]
