-- ===== src/Common/Map/Keys.antt =====
-- The keys of a map: each once, and those at which a lookup finds a value.
use mathlib.Core.Path.{◌≡◌, sym, ap, ◌∙◌}
use mathlib.Core.Bool.{not}
use mathlib.Core.Option.{some}
use mathlib.Core.List.{List, [], ◌∷◌, map, Memᴰ}
use mathlib.Core.List.Memᴰ
use native.Mathlib.Omega.{arith}
use k8s_lab.Common.Tests.{Comparable, ◌==◌}
use k8s_lab.Common.Lists.{mem_of_mem-keep}
use k8s_lab.Common.Map.{Map, get, entries, delete, mem-entries}
use k8s_lab.Common.Sort.Unique.{Nodup, Nodup-keep}

module _ {K V : Type 0} ⦃e : Comparable K⦄ where
  abbrev pub keys : Map K V → List K
  keys m = map (λ x. x.0) (entries m)

  not_mem-delete : (k : K) (es : List (K × V)) → Memᴰ k (map (λ x. x.0) (delete k es)) → ⊥
  unfolding delete
  not_mem-delete k es h =
      let (x, m, f) = Memᴰ.of_map (λ (x : K × V). x.0) (delete k es) h in
      let kept = (mem_of_mem-keep (λ (x : K × V). not (x.0 == k)) es m).1 in
      absurd (ground (arith, e.equals_iff x.0 k, f))

  pub keys-Nodup : (m : Map K V) → Nodup (keys m)
  unfolding entries delete
  keys-Nodup [] = tt
  keys-Nodup ((k, v) ∷ m) = (
    not_mem-delete k (entries m),
    Nodup-keep (λ (x : K × V). x.0) (λ x. not (x.0 == k)) (entries m) (keys-Nodup m),
  )

  pub get_of_mem-keys : (m : Map K V) (k : K) → Memᴰ k (keys m) → (v : V) × (get k m ≡ some v)
  get_of_mem-keys m k h =
      let ((j, v), n, f) = Memᴰ.of_map (λ (x : K × V). x.0) (entries m) h in
      (v, ap (λ z. get z m) (sym f) ∙ (mem-entries m j v).0 n)

  pub mem-keys_of_get : (m : Map K V) (k : K) (v : V) → get k m ≡ some v → Memᴰ k (keys m)
  mem-keys_of_get m k v h = Memᴰ.map (λ (x : K × V). x.0) ((mem-entries m k v).1 h)
