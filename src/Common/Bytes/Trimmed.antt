-- ===== src/Common/Bytes/Trimmed.antt =====
-- Lemmas on the bytes of a text that has been trimmed, cut or cleaned.
use k8s_lab.Common.Tests.{if◌then◌else◌, ◌==◌, nat_eq, list_eq, Bool-cases, nat_eqb_iff}
use k8s_lab.Common.Lists.{length, take}
use k8s_lab.Common.Bytes.{
  Bytes, all, take_while, drop_while, trim_left, trim_right, trim, replace_runs, replace_outside,
  cut_prefix,
}
use Prim.Native.Nat.{ℕ, zero, suc, ◌≤◌}
use mathlib.Core.Path.{◌≡◌, refl}
use mathlib.Core.Bool.{Bool, true, false, ◌&&◌}
use mathlib.Core.Logic.{inl, inr}
use mathlib.Core.List.{[], ◌∷◌, ◌++◌}
use mathlib.Core.Option.{some}
use native.Mathlib.Omega.{arith}

abbrev pub starts_with : ℕ → Bytes → Bool
starts_with c [] = false
starts_with c (d ∷ s) = d == c

abbrev pub ends_with : ℕ → Bytes → Bool
ends_with c [] = false
ends_with c (d ∷ []) = d == c
ends_with c (d ∷ e ∷ s) = ends_with c (e ∷ s)

pub all-take : (p : ℕ → Bool) (n : ℕ) (s : Bytes) → all p s ≡ true → all p (take n s) ≡ true
unfolding all take
all-take p zero s h = refl
all-take p (suc n) [] h = refl
all-take p (suc n) (c ∷ s) h = ground (arith, all-take p n s)

all-drop_while : (p q : ℕ → Bool) (s : Bytes) → all p s ≡ true → all p (drop_while q s) ≡ true
unfolding all drop_while
all-drop_while p q [] h = refl
all-drop_while p q (c ∷ s) h = ground (arith, all-drop_while p q s)

all-trim_right : (p : ℕ → Bool) (c : ℕ) (s : Bytes) → all p s ≡ true → all p (trim_right c s) ≡ true
unfolding all trim_right
all-trim_right p c [] h = refl
all-trim_right p c (d ∷ s) h = ground (arith, all-trim_right p c s)

pub all-trim : (p : ℕ → Bool) (c : ℕ) (s : Bytes) → all p s ≡ true → all p (trim c s) ≡ true
unfolding trim trim_left
all-trim p c s h = all-trim_right p c _ (all-drop_while p (λ d. d == c) s h)

all-replace_runs :
    (p : ℕ → Bool) (c : ℕ)
    → p c ≡ true
    → (inside : Bool) (s : Bytes) → all p (replace_runs p c inside s) ≡ true
unfolding all replace_runs
all-replace_runs p c h inside [] = refl
all-replace_runs p c h inside (d ∷ s) =
    ground (arith, all-replace_runs p c h true s, all-replace_runs p c h false s)

pub all-replace_outside :
    (p : ℕ → Bool) (c : ℕ) (s : Bytes) → p c ≡ true → all p (replace_outside p c s) ≡ true
unfolding replace_outside
all-replace_outside p c s h = all-replace_runs p c h false s

starts_with-trim_left : (c : ℕ) (s : Bytes) → starts_with c (trim_left c s) ≡ false
unfolding trim_left drop_while
starts_with-trim_left c [] = refl
starts_with-trim_left c (d ∷ s) = elim (Bool-cases (d == c)) [
  | inl h ↦ rw h (starts_with-trim_left c s)
  | inr h ↦ rw h h
]

starts_with-trim_right :
    (c : ℕ) (s : Bytes) → starts_with c s ≡ false → starts_with c (trim_right c s) ≡ false
unfolding trim_right
starts_with-trim_right c [] h = refl
starts_with-trim_right c (d ∷ s) h = ground arith

ends_with-step :
    (c d : ℕ) (rest : Bytes)
    → ends_with c rest ≡ false
    → ends_with c (if d == c && rest == [] then [] else d ∷ rest) ≡ false
ends_with-step c d [] h = ground arith
ends_with-step c d (e ∷ s) h = ground arith

ends_with-trim_right : (c : ℕ) (s : Bytes) → ends_with c (trim_right c s) ≡ false
unfolding trim_right
ends_with-trim_right c [] = refl
ends_with-trim_right c (d ∷ s) = ends_with-step c d (trim_right c s) (ends_with-trim_right c s)

pub starts_with-trim : (c : ℕ) (s : Bytes) → starts_with c (trim c s) ≡ false
unfolding trim
starts_with-trim c s = starts_with-trim_right c _ (starts_with-trim_left c s)

pub ends_with-trim : (c : ℕ) (s : Bytes) → ends_with c (trim c s) ≡ false
unfolding trim
ends_with-trim c s = ends_with-trim_right c (trim_left c s)

pub length-take-le : (n : ℕ) (s : Bytes) → length (take n s) ≤ n
unfolding take
length-take-le zero s = omega arith
length-take-le (suc n) [] = omega arith
length-take-le (suc n) (c ∷ s) = omega (arith, length-take-le n s)

length-drop_while-le : (q : ℕ → Bool) (s : Bytes) → length (drop_while q s) ≤ length s
unfolding drop_while
length-drop_while-le q [] = omega arith
length-drop_while-le q (c ∷ s) = ground (arith, length-drop_while-le q s)

length-trim_right-le : (c : ℕ) (s : Bytes) → length (trim_right c s) ≤ length s
unfolding trim_right
length-trim_right-le c [] = omega arith
length-trim_right-le c (d ∷ s) = ground (arith, length-trim_right-le c s)

pub length-trim-le : (c : ℕ) (s : Bytes) → length (trim c s) ≤ length s
unfolding trim trim_left
length-trim-le c s =
    omega (arith, length-trim_right-le c (trim_left c s), length-drop_while-le (λ d. d == c) s)

-- A text is what a test takes from its front, and the rest.
pub take_while-drop_while : (p : ℕ → Bool) (s : Bytes) → take_while p s ++ drop_while p s ≡ s
unfolding take_while drop_while
take_while-drop_while p [] = refl
take_while-drop_while p (c ∷ s) = elim (Bool-cases (p c)) [
  | inl h ↦ rw h (rw (take_while-drop_while p s) refl)
  | inr h ↦ rw h refl
]

-- What a test takes from the front ends where the test fails.
pub take_while-append :
    (p : ℕ → Bool) (s : Bytes) (c : ℕ) (rest : Bytes)
    → all p s ≡ true
    → p c ≡ false
    → take_while p (s ++ (c ∷ rest)) ≡ s
unfolding take_while all
take_while-append p [] c rest h e = rw e refl
take_while-append p (d ∷ s) c rest h e = ground (arith, take_while-append p s c rest)

pub drop_while-append :
    (p : ℕ → Bool) (s : Bytes) (c : ℕ) (rest : Bytes)
    → all p s ≡ true
    → p c ≡ false
    → drop_while p (s ++ (c ∷ rest)) ≡ c ∷ rest
unfolding drop_while all
drop_while-append p [] c rest h e = rw e refl
drop_while-append p (d ∷ s) c rest h e = ground (arith, drop_while-append p s c rest)

pub all-append :
    (p : ℕ → Bool) (s t : Bytes) → all p s ≡ true → all p t ≡ true → all p (s ++ t) ≡ true
unfolding all
all-append p [] t h k = k
all-append p (c ∷ s) t h k = ground (arith, all-append p s t)

pub cut_prefix_append :
    (prefix s rest : Bytes) → cut_prefix prefix s ≡ some rest → s ≡ prefix ++ rest
unfolding cut_prefix
cut_prefix_append [] s rest h = ground arith
cut_prefix_append (p ∷ prefix) [] rest h = absurd (ground arith)
cut_prefix_append (p ∷ prefix) (c ∷ s) rest h =
    ground (arith, nat_eqb_iff p c, cut_prefix_append prefix s rest)
