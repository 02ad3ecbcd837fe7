-- ===== src/Common/Map.antt =====
-- Go's `map[K]V` as an association list. Iteration visits each key once, in an order on which
-- nothing below depends.
pub mod Keys
use k8s_lab.Common.Tests.{if◌then◌else◌, Comparable, ◌==◌, eq_refl, Bool-cases}
use k8s_lab.Common.Lists.{keep, mem-keep, mem_of_mem-keep}
use mathlib.Core.Path.{◌≡◌, refl, ap, ◌∙◌}
use mathlib.Core.Logic.{◌↔◌, inl, inr}
use mathlib.Core.Bool.{Bool, true, false, not}
use mathlib.Core.Option.{Option, none, some}
use mathlib.Core.List.{List, [], ◌∷◌, map, Memᴰ}
use mathlib.Core.List.Memᴰ
use native.Mathlib.Omega.{arith}

abbrev pub Map {ℓ} : Type ℓ → Type ℓ → Type ℓ
Map K V = List (K × V)

-- An entry that a deleting loop leaves.
abbrev pub unless {ℓ} : {V : Type ℓ} → (V → Bool) → Option V → Option V
unless p none = none
unless p (some v) = if p v then none else some v

abbrev pub is_some {ℓ} : {V : Type ℓ} → Option V → Bool
is_some none = false
is_some (some v) = true

module _ {ℓ} {K V : Type ℓ} ⦃e : Comparable K⦄ where
  -- m[k], and whether it is there
  unfoldable pub get : K → Map K V → Option V
  get k [] = none
  get k ((j, v) ∷ m) = if j == k then some v else get k m

  -- _, ok := m[k]
  abbrev pub has : K → Map K V → Bool
  has k m = is_some (get k m)

  -- delete(m, k)
  unfoldable pub delete : K → Map K V → Map K V
  unfolding keep
  delete k m = keep (λ x. not (x.0 == k)) m

  -- m[k] = v
  unfoldable pub put : K → V → Map K V → Map K V
  unfolding delete
  put k v m = (k, v) ∷ delete k m

  -- for k, v := range m { if p(k, v) { delete(m, k) } }
  unfoldable pub delete_where : (K → V → Bool) → Map K V → Map K V
  unfolding delete
  delete_where p [] = []
  delete_where p ((k, v) ∷ m) =
      let rest = delete_where p m in if p k v then delete k rest else (k, v) ∷ rest

  -- what `range m` visits
  unfoldable pub entries : Map K V → List (K × V)
  unfolding delete
  entries [] = []
  entries ((k, v) ∷ m) = (k, v) ∷ delete k (entries m)

  unfoldable pub values : Map K V → List V
  unfolding entries
  values m = map (λ x. x.1) (entries m)

  pub get-nil : (k : K) → get k [] ≡ none
  unfolding get
  get-nil k = refl

  pub get-delete : (k j : K) (m : Map K V) → get j (delete k m) ≡ (if k == j then none else get j m)
  unfolding get delete
  get-delete k j [] = ground arith
  get-delete k j ((i, v) ∷ m) =
      ground (arith, get-delete k j m, e.equals_iff i k, e.equals_iff i j, e.equals_iff k j)

  pub get-put :
      (k j : K) (v : V) (m : Map K V) → get j (put k v m) ≡ (if k == j then some v else get j m)
  unfolding get put
  get-put k j v m = ground (arith, get-delete k j m)

  pub get-delete_where :
      (p : K → V → Bool) (j : K) (m : Map K V) → get j (delete_where p m) ≡ unless (p j) (get j m)
  unfolding get delete_where
  get-delete_where p j [] = refl
  get-delete_where p j ((k, v) ∷ m) = elim (Bool-cases (k == j)) [
    | inl h ↦
        rw (← (e.equals_iff k j).0 h) (ground (arith, get-delete k k (delete_where p m), eq_refl k))
    | inr h ↦ ground (arith, get-delete k j (delete_where p m), get-delete_where p j m)
  ]

  get_of_mem-entries : (m : Map K V) {x : K × V} → Memᴰ x (entries m) → get x.0 m ≡ some x.1
  unfolding get entries
  get_of_mem-entries [] h = absurd (Memᴰ.not-nil h)
  get_of_mem-entries ((k, v) ∷ m) {x} (Memᴰ.head h) =
      ground (arith, e.equals_iff k x.0, ap (λ (y : K × V). y.0) h, ap (λ (y : K × V). y.1) h)
  get_of_mem-entries ((k, v) ∷ m) {x} (Memᴰ.tail h) =
      let (n, f) = mem_of_mem-keep (λ (y : K × V). not (y.0 == k)) (entries m) h in
      let rest = get_of_mem-entries m n in ground (arith, e.equals_iff k x.0, e.equals_iff x.0 k)

  mem-entries_of_get : (m : Map K V) (k : K) (v : V) → get k m ≡ some v → Memᴰ (k, v) (entries m)
  unfolding get entries
  mem-entries_of_get [] k v h = absurd (ground arith)
  mem-entries_of_get ((j, w) ∷ m) k v h = elim (Bool-cases (j == k)) [
    | inl t ↦ Memᴰ.head (ground (arith, e.equals_iff j k))
    | inr f ↦ Memᴰ.tail (
        mem-keep (λ (y : K × V). not (y.0 == j)) (entries m)
          (mem-entries_of_get m k v (ground arith))
          (ground (arith, e.equals_iff j k, e.equals_iff k j)))
  ]

  -- `range` visits exactly the pairs that a lookup finds.
  pub mem-entries : (m : Map K V) (k : K) (v : V) → Memᴰ (k, v) (entries m) ↔ (get k m ≡ some v)
  mem-entries m k v = (get_of_mem-entries m, mem-entries_of_get m k v)

  pub mem-values : (m : Map K V) (v : V) → Memᴰ v (values m) ↔ ((k : K) × (get k m ≡ some v))
  unfolding values
  mem-values m v = (found, λ h. Memᴰ.map (λ (x : K × V). x.1) (mem-entries_of_get m h.0 v h.1))
    where
      found : Memᴰ v (values m) → (k : K) × (get k m ≡ some v)
      found h =
          let (x, n, p) = Memᴰ.of_map (λ (x : K × V). x.1) (entries m) h in
          (x.0, get_of_mem-entries m n ∙ ap some p)

  pub none_of_has : (k : K) (m : Map K V) → has k m ≡ false → get k m ≡ none
  none_of_has k m h = ground arith

  pub some_of_has : (k : K) (m : Map K V) → has k m ≡ true → (v : V) × (get k m ≡ some v)
  some_of_has k m h = ground arith

  -- A write takes no key away.
  pub has-put : (k j : K) (v : V) (m : Map K V) → has j m ≡ true → has j (put k v m) ≡ true
  has-put k j v m h = ground (arith, get-put k j v m)

  pub has-put_self : (k : K) (v : V) (m : Map K V) → has k (put k v m) ≡ true
  has-put_self k v m = ground (arith, get-put k k v m, eq_refl k)

pub ruleset map_laws = (get-nil, get-delete, get-put, get-delete_where)
