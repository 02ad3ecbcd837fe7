-- ===== src/Catalog/Plan/Mint.antt =====
-- The map of what attachSecrets of catalog/plan.go mints.
use k8s_lab.Common.{
  true, List, [], ◌∷◌, some, ◌==◌, nat_eq, list_eq, ◌≡◌, sym, ap, ◌∙◌, subst, arith, inl, inr,
  Bool-cases, Memᴰ, map, refl, ◌⊎◌,
}
use mathlib.Core.List.Memᴰ
use k8s_lab.Common.Bytes.{Bytes, precedes}
use k8s_lab.Common.Map.{
  Map, get, put, has, is_some, get-put, has-put, has-put_self, some_of_has, mem-values, values,
}
use k8s_lab.Common.Sort.{mem-sort_by, mem_of_mem-sort_by}
use k8s_lab.Compose.{Source}
use k8s_lab.Catalog.Plan.Secrets.{mint_all, sorted_sources}

-- A map that files a source by its name.
abbrev pub IsNamed : Map Bytes Source → Type 0
IsNamed m = (n : Bytes) (s : Source) → get n m ≡ some s → s.name ≡ n

pub empty-IsNamed : IsNamed []
unfolding get
empty-IsNamed n s h = absurd (ground arith)

pub empty_has : (n : Bytes) → has {V = Source} n [] ≡ true → ⊥
unfolding get
empty_has n h = ground arith

pub put-IsNamed : (s : Source) (m : Map Bytes Source) → IsNamed m → IsNamed (put s.name s m)
put-IsNamed s m k n t h = elim (Bool-cases (s.name == n)) [
  | inl same ↦
      let e : some s ≡ some t = ground (arith, get-put s.name n s m) in
      let e' : s ≡ t = ground arith in
      ap (λ (z : Source). z.name) (sym e') ∙ (list_eq.equals_iff s.name n).0 same
  | inr other ↦ k n t (ground (arith, get-put s.name n s m))
]

pub mint_all-IsNamed :
    (ss : List Source) (m : Map Bytes Source) → IsNamed m → IsNamed (mint_all ss m)
unfolding mint_all
mint_all-IsNamed [] m k = k
mint_all-IsNamed (s ∷ ss) m k = mint_all-IsNamed ss (put s.name s m) (put-IsNamed s m k)

pub mint_all-keeps :
    (ss : List Source) (m : Map Bytes Source) (n : Bytes)
    → has n m ≡ true
    → has n (mint_all ss m) ≡ true
unfolding mint_all
mint_all-keeps [] m n h = h
mint_all-keeps (s ∷ ss) m n h = mint_all-keeps ss (put s.name s m) n (has-put s.name n s m h)

pub mint_all-has :
    (ss : List Source) (m : Map Bytes Source) (s : Source)
    → Memᴰ s ss
    → has s.name (mint_all ss m) ≡ true
unfolding mint_all
mint_all-has [] m s h = absurd (Memᴰ.not-nil h)
mint_all-has (x ∷ ss) m s (Memᴰ.head e) =
    subst (λ (z : Source). has z.name (mint_all ss (put x.name x m)) ≡ true) (sym e)
      (mint_all-keeps ss (put x.name x m) x.name (has-put_self x.name x m))
mint_all-has (x ∷ ss) m s (Memᴰ.tail h) = mint_all-has ss (put x.name x m) s h

-- What is minted was minted before, or is one of the sources.
pub mint_all-origin :
    (ss : List Source) (m : Map Bytes Source) (n : Bytes)
    → has n (mint_all ss m) ≡ true
    → (has n m ≡ true) ⊎ ((s : Source) × Memᴰ s ss × (s.name ≡ n))
unfolding mint_all
mint_all-origin [] m n h = inl h
mint_all-origin (s ∷ ss) m n h = elim (mint_all-origin ss (put s.name s m) n h) [
  | inr (t, i, named) ↦ inr (t, Memᴰ.tail i, named)
  | inl before ↦ elim (Bool-cases (s.name == n)) [
    | inl same ↦ inr (s, Memᴰ.head refl, (list_eq.equals_iff s.name n).0 same)
    | inr other ↦ inl (ground (arith, get-put s.name n s m))
  ]
]

pub mem-sorted_sources :
    (m : Map Bytes Source) (n : Bytes)
    → IsNamed m
    → has n m ≡ true
    → Memᴰ n (map (λ (s : Source). s.name) (sorted_sources m))
unfolding sorted_sources
mem-sorted_sources m n named h =
    let (s, there) = some_of_has n m h in
    subst (λ z. Memᴰ z (map (λ (s : Source). s.name) (sorted_sources m))) (named n s there)
      (Memᴰ.map (λ (s : Source). s.name)
        (mem-sort_by (λ (a b : Source). precedes a.name b.name) (values m)
          ((mem-values m s).1 (n, there))))

pub get_of_mem-sorted_sources :
    (m : Map Bytes Source) (s : Source)
    → IsNamed m
    → Memᴰ s (sorted_sources m)
    → has s.name m ≡ true
unfolding sorted_sources
get_of_mem-sorted_sources m s named i =
    let (k, there) =
      (mem-values m s).0
        (mem_of_mem-sort_by (λ (a b : Source). precedes a.name b.name) (values m) i) in
    ap is_some (ap (λ z. get z m) (named k s there) ∙ there)
