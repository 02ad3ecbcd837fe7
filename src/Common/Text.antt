-- ===== src/Common/Text.antt =====
-- What the program uses of Go's `strings`: `TrimSpace`, `ToLower`, `TrimSuffix`, and joining by a
-- NUL. The tables of the Unicode standard behind `unicode.ToLower` and `unicode.IsSpace` are a
-- parameter.
use Prim.Native.Char.{Char, code}
use Prim.Native.String.{String, ◌++◌}
use mathlib.Core.Path.{◌≡◌, refl, sym, ap₂, ◌∙◌}
use mathlib.Core.Logic.{◌≢◌}
use mathlib.Core.Bool.{Bool, ◌&&◌}
use text.Mathlib.TextLemmas.{nil-append, cons-append, head-eq_of_cons-eq, tail-eq_of_cons-eq}
use k8s_lab.Common.Tests.{if◌then◌else◌, ◌==◌, string_eq, nat_eq}

pub record Unicode : Type 0 where
  pub lower : Char → Char
  pub space : Char → Bool

-- The tables of a script with no case, whose one space is U+0020.
abbrev pub caseless : Unicode
caseless = record { lower = λ c. c; space = λ c. code c == 32 }

-- strings.ToLower
unfoldable pub to_lower : Unicode → String → String
to_lower u String.[] = String.[]
to_lower u (String.◌∷◌ c s) = String.◌∷◌ (u.lower c) (to_lower u s)

trim_left : Unicode → String → String
trim_left u String.[] = String.[]
trim_left u (String.◌∷◌ c s) =
    let rest = trim_left u s in if u.space c then rest else String.◌∷◌ c s

trim_right : Unicode → String → String
trim_right u String.[] = String.[]
trim_right u (String.◌∷◌ c s) =
    let rest = trim_right u s in if u.space c && rest == "" then String.[] else String.◌∷◌ c rest

-- strings.TrimSpace
unfoldable pub trim_space : Unicode → String → String
unfolding trim_left trim_right
trim_space u s = trim_right u (trim_left u s)

-- strings.TrimSuffix(s, suffix), the suffix not empty
unfoldable pub trim_suffix : String → String → String
trim_suffix suffix String.[] = String.[]
trim_suffix suffix (String.◌∷◌ c s) =
    let rest = trim_suffix suffix s in
    if (String.◌∷◌ c s) == suffix then String.[] else String.◌∷◌ c rest

-- a + "\x00" + b
unfoldable pub join : String → String → String
join a b = a ++ String.◌∷◌ "\0" b

abbrev pub HasNoNul : String → Type 0
HasNoNul String.[] = Unit {0}
HasNoNul (String.◌∷◌ c s) = (c ≢ "\0") × HasNoNul s

-- Two names joined by a NUL can be told apart, where the first of each has none in it.
pub join_injective :
    (a b a' b' : String) → HasNoNul a → HasNoNul a' → join a b ≡ join a' b' → (a ≡ a') × (b ≡ b')
unfolding join
join_injective String.[] b String.[] b' h h' e =
    (refl, tail-eq_of_cons-eq (sym (nil-append _) ∙ e ∙ nil-append _))
join_injective String.[] b (String.◌∷◌ c a') b' h h' e =
    absurd (h'.0 (sym (head-eq_of_cons-eq (sym (nil-append _) ∙ e ∙ cons-append c a' _))))
join_injective (String.◌∷◌ c a) b String.[] b' h h' e =
    absurd (h.0 (head-eq_of_cons-eq (sym (cons-append c a _) ∙ e ∙ nil-append _)))
join_injective (String.◌∷◌ c a) b (String.◌∷◌ d a') b' h h' e =
    let p = sym (cons-append c a _) ∙ e ∙ cons-append d a' _ in
    let (l, r) = join_injective a b a' b' h.1 h'.1 (tail-eq_of_cons-eq p) in
    (ap₂ String.◌∷◌ (head-eq_of_cons-eq p) l, r)
