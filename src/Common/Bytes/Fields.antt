-- ===== src/Common/Bytes/Fields.antt =====
-- What the searches in a text find: a suffix, one byte, the last field.
use Prim.Native.Nat.{ℕ}
use mathlib.Core.Path.{◌≡◌, ◌∙◌, refl, sym, ap, subst}
use mathlib.Core.Logic.{inl, inr}
use mathlib.Core.Bool.{true}
use mathlib.Core.List.{[], ◌∷◌, ◌++◌, append_assoc, append-nil, Memᴰ}
use mathlib.Core.List.Memᴰ
use native.Mathlib.Omega.{arith}
use k8s_lab.Common.Tests.{◌==◌, eq_refl, nat_eq, list_eq, Bool-cases}
use k8s_lab.Common.Bytes.{Bytes, has_prefix, has_suffix, has_infix, last_from, last_field}

pub has_suffix-append : (pre suffix : Bytes) → has_suffix suffix (pre ++ suffix) ≡ true
unfolding has_suffix
has_suffix-append [] [] = refl
has_suffix-append [] (c ∷ suffix) = ground (arith, eq_refl (c ∷ suffix))
has_suffix-append (p ∷ pre) suffix = ground (arith, has_suffix-append pre suffix)

pub mem_of_has_infix : (c : ℕ) (s : Bytes) → has_infix (c ∷ []) s ≡ true → Memᴰ c s
unfolding has_infix has_prefix
mem_of_has_infix c [] h = absurd (ground arith)
mem_of_has_infix c (d ∷ s) h = elim (Bool-cases (c == d)) [
  | inl same ↦ Memᴰ.head ((nat_eq.equals_iff c d).0 same)
  | inr other ↦ Memᴰ.tail (mem_of_has_infix c s (ground arith))
]

pub has_infix_of_mem : (c : ℕ) (s : Bytes) → Memᴰ c s → has_infix (c ∷ []) s ≡ true
unfolding has_infix has_prefix
has_infix_of_mem c [] m = absurd (Memᴰ.not-nil m)
has_infix_of_mem c (d ∷ s) (Memᴰ.head e) =
    let same : (c == d) ≡ true = (nat_eq.equals_iff c d).1 e in ground arith
has_infix_of_mem c (d ∷ s) (Memᴰ.tail m) = ground (arith, has_infix_of_mem c s m)

-- A field of a text: it has no separator, and stands at the text's end.
abbrev pub IsLast : ℕ → Bytes → Bytes → Type 0
IsLast sep s field = (Memᴰ sep field → ⊥) × (dir : Bytes) × (s ≡ dir ++ field)

last_from-IsLast :
    (sep : ℕ) (s pre : Bytes)
    → (Memᴰ sep pre → ⊥)
    → IsLast sep (pre ++ s) (last_from sep (pre ++ s) s)
unfolding last_from
last_from-IsLast sep [] pre free =
    (subst (λ z. Memᴰ sep z → ⊥) (sym (append-nil pre)) free, [], refl)
last_from-IsLast sep (c ∷ s) pre free = elim (Bool-cases (c == sep)) [
  | inl here ↦
      let (none_there, dir, split) = last_from-IsLast sep s [] (λ m. Memᴰ.not-nil m) in
      rw here (
        none_there,
        pre ++ (c ∷ dir),
        ap (λ z. pre ++ (c ∷ z)) split ∙ sym (append_assoc pre (c ∷ dir) (last_from sep s s)),
      )
  | inr other ↦
      let more : pre ++ (c ∷ s) ≡ (pre ++ (c ∷ [])) ++ s = sym (append_assoc pre (c ∷ []) s) in
      let clear : Memᴰ sep (pre ++ (c ∷ [])) → ⊥ = λ m. elim (Memᴰ.append_cases pre m) [
        | inl k ↦ free k
        | inr k ↦ elim (Memᴰ.cases_cons k) [
          | inr end ↦ Memᴰ.not-nil end
          | inl e ↦ absurd (let same = (nat_eq.equals_iff c sep).1 (sym e) in ground arith)
        ]
      ] in
      rw other (
        subst (λ z. IsLast sep z (last_from sep z s)) (sym more)
          (last_from-IsLast sep s (pre ++ (c ∷ [])) clear))
]

pub last_field-IsLast : (sep : ℕ) (s : Bytes) → IsLast sep s (last_field sep s)
unfolding last_field
last_field-IsLast sep s = last_from-IsLast sep s [] (λ m. Memᴰ.not-nil m)

-- Where a byte stands.
pub split_of_mem :
    (c : ℕ) (s : Bytes)
    → Memᴰ c s
    → (before : Bytes) × (after : Bytes) × (s ≡ before ++ (c ∷ after))
split_of_mem c [] m = absurd (Memᴰ.not-nil m)
split_of_mem c (d ∷ s) (Memᴰ.head e) = ([], s, ap (λ z. z ∷ s) (sym e))
split_of_mem c (d ∷ s) (Memᴰ.tail m) =
    let (before, after, split) = split_of_mem c s m in (d ∷ before, after, ap (λ z. d ∷ z) split)
