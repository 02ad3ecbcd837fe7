-- ===== src/Common/Bytes.antt =====
-- Go's strings as their bytes, and what the program uses of `strings` and `strconv` on them.
pub mod Trimmed
pub mod Fields
use Prim.Native.Char.{code}
use Prim.Native.Nat.{ℕ, suc, zero, ◌+◌, ◌-◌, ◌*◌, ◌^◌, ◌≤◌}
use Prim.Native.String.{String}
use mathlib.Core.Path.{◌≡◌, refl, ap}
use mathlib.Core.Bool.{Bool, true, false, not, ◌&&◌, ◌||◌}
use mathlib.Core.Option.{Option, none, some}
use mathlib.Core.List.{List, [], ◌∷◌, ◌++◌}
use native.Mathlib.Omega.{arith}
use k8s_lab.Common.Tests.{if◌then◌else◌, ltb, leb, ◌==◌, nat_eq, list_eq, Bool-cases}
use k8s_lab.Common.Lists.{length}
use k8s_lab.Common.Int.{ℤ, pos, negsuc}

abbrev pub Bytes : Type 0
Bytes = List ℕ

-- The bytes of an ASCII literal.
unfoldable pub text : String → Bytes
text String.[] = []
text (String.◌∷◌ c s) = code c ∷ text s

-- A byte from `lo` to `hi`.
abbrev pub in_range : ℕ → ℕ → ℕ → Bool
in_range lo hi c = leb lo c && leb c hi

abbrev pub is_digit : ℕ → Bool
is_digit c = in_range b'0' b'9' c

abbrev pub is_upper : ℕ → Bool
is_upper c = in_range b'A' b'Z' c

abbrev pub is_lower : ℕ → Bool
is_lower c = in_range b'a' b'z' c

unfoldable pub take_while : (ℕ → Bool) → Bytes → Bytes
take_while p [] = []
take_while p (c ∷ s) = let rest = take_while p s in if p c then c ∷ rest else []

unfoldable pub drop_while : (ℕ → Bool) → Bytes → Bytes
drop_while p [] = []
drop_while p (c ∷ s) = let rest = drop_while p s in if p c then rest else c ∷ s

unfoldable pub all : (ℕ → Bool) → Bytes → Bool
all p [] = true
all p (c ∷ s) = p c && all p s

-- What is left of a text behind a prefix: strings.CutPrefix
unfoldable pub cut_prefix : Bytes → Bytes → Option Bytes
cut_prefix [] s = some s
cut_prefix (p ∷ prefix) [] = none
cut_prefix (p ∷ prefix) (c ∷ s) = let rest = cut_prefix prefix s in if p == c then rest else none

unfoldable pub has_prefix : Bytes → Bytes → Bool
has_prefix [] s = true
has_prefix (p ∷ prefix) [] = false
has_prefix (p ∷ prefix) (c ∷ s) = p == c && has_prefix prefix s

unfoldable pub has_suffix : Bytes → Bytes → Bool
has_suffix suffix [] = suffix == []
has_suffix suffix (c ∷ s) = suffix == c ∷ s || has_suffix suffix s

-- strings.Contains
unfoldable pub has_infix : Bytes → Bytes → Bool
unfolding has_prefix
has_infix part [] = has_prefix part []
has_infix part (c ∷ s) = has_prefix part (c ∷ s) || has_infix part s

-- strings.Cut at one byte: what stands before it, and what stands behind it if it is there
unfoldable pub before : ℕ → Bytes → Bytes
unfolding take_while
before sep s = take_while (λ c. not (c == sep)) s

unfoldable pub after : ℕ → Bytes → Option Bytes
after sep [] = none
after sep (c ∷ s) = let rest = after sep s in if c == sep then some s else rest

-- The field that is read, and the rest of the text.
unfoldable pub last_from : ℕ → Bytes → Bytes → Bytes
last_from sep field [] = field
last_from sep field (c ∷ s) = last_from sep (if c == sep then s else field) s

-- The last of strings.Split(s, sep)
unfoldable pub last_field : ℕ → Bytes → Bytes
unfolding last_from
last_field sep s = last_from sep s s

-- strings.LastIndexByte, `none` for -1
unfoldable pub last_index : ℕ → Bytes → Option ℕ
last_index sep [] = none
last_index sep (c ∷ s) = elim (last_index sep s) [
  | some i ↦ some (suc i)
  | none ↦ if c == sep then some 0 else none
]

-- strings.Join
unfoldable pub join : Bytes → List Bytes → Bytes
join sep [] = []
join sep (s ∷ []) = s
join sep (s ∷ t ∷ rest) = s ++ (sep ++ join sep (t ∷ rest))

-- strings.Compare(s, t) <= 0
unfoldable pub precedes : Bytes → Bytes → Bool
precedes [] t = true
precedes (c ∷ s) [] = false
precedes (c ∷ s) (d ∷ t) = ltb c d || (c == d && precedes s t)

trim_left : ℕ → Bytes → Bytes
unfolding drop_while
trim_left c s = drop_while (λ d. d == c) s

trim_right : ℕ → Bytes → Bytes
trim_right c [] = []
trim_right c (d ∷ s) = let rest = trim_right c s in if d == c && rest == [] then [] else d ∷ rest

-- strings.Trim(s, c), of one byte
unfoldable pub trim : ℕ → Bytes → Bytes
unfolding trim_left trim_right
trim c s = trim_right c (trim_left c s)

-- regexp.MustCompile(`[^class]+`).ReplaceAllString(s, c): every longest run outside of the class
-- becomes one `c`. The test says whether the byte before was outside of it.
replace_runs : (ℕ → Bool) → ℕ → Bool → Bytes → Bytes
replace_runs p c inside [] = []
replace_runs p c inside (d ∷ s) =
    let keep = d ∷ replace_runs p c false s in
    let skip = replace_runs p c true s in if p d then keep else if inside then skip else c ∷ skip

unfoldable pub replace_outside : (ℕ → Bool) → ℕ → Bytes → Bytes
unfolding replace_runs
replace_outside p c s = replace_runs p c false s

digits : ℕ → Bytes → Option ℕ
digits n [] = some n
digits n (c ∷ s) = let rest = digits (n * 10 + (c - b'0')) s in if is_digit c then rest else none

unsigned : Bytes → Option ℕ
unfolding digits
unsigned [] = none
unsigned (c ∷ s) = digits 0 (c ∷ s)

-- The value of a numeral with a sign, in the range of an int.
negative : Option ℕ → Option ℤ
negative none = none
negative (some zero) = some (pos 0)
negative (some (suc n)) = if ltb n (2 ^ 63) then some (negsuc n) else none

positive : Option ℕ → Option ℤ
positive none = none
positive (some n) = if ltb n (2 ^ 63) then some (pos n) else none

-- strconv.Atoi, `none` for an error
unfoldable pub atoi : Bytes → Option ℤ
unfolding unsigned negative positive
atoi [] = none
atoi (c ∷ s) =
    if c == b'-'
    then negative (unsigned s)
    else if c == b'+'
    then positive (unsigned s)
    else positive (unsigned (c ∷ s))
