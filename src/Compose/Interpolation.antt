-- ===== src/Compose/Interpolation.antt =====
-- compose/convert.go: the interpolations `${VAR}`, `${VAR-default}` and `${VAR:-default}` of a
-- value. A value is read once into the pieces that the regular expression finds: the matches do
-- not overlap, and the leftmost is taken first.
pub mod Written
pub mod Nested
use k8s_lab.Common.{
  Bool, true, false, ℕ, zero, suc, ◌+◌, ◌-◌, List, [], ◌∷◌, ◌++◌, Option, none, some, ◌||◌, ◌&&◌,
  not, ◌==◌, nat_eq, list_eq, if◌then◌else◌, any, contains, keep, length, map,
}
use k8s_lab.Common.Bytes.{
  Bytes, text, is_digit, is_upper, is_lower, take_while, drop_while, cut_prefix,
}
use k8s_lab.Compose.{Source}
use k8s_lab.Compose.Variables.{is_magic, magic_kind}

-- A match: the two groups, `fallback` empty where there is none, and the length of the match.
pub record Reference : Type 0 where
  pub name : Bytes
  pub fallback : Bytes
  pub width : ℕ

pub data Piece : Type 0 where
  plain : ℕ → Piece
  refer : Reference → Piece

-- [A-Za-z_]
abbrev is_name_start : ℕ → Bool
is_name_start c = is_upper c || (is_lower c || c == b'_')

-- [A-Za-z0-9_]
abbrev pub is_name_char : ℕ → Bool
is_name_char c = is_name_start c || is_digit c

abbrev is_not_close : ℕ → Bool
is_not_close c = not (c == b'}')

-- [^}]*} after the dash: the `default`, if the brace is there. `before` counts the bytes in front.
closed : Bytes → Bytes → ℕ → Bytes → Option Reference
closed name fallback before [] = none
closed name fallback before (c ∷ s) =
    some (record { name = name; fallback = fallback; width = before + length fallback + 1 })

defaulted : Bytes → ℕ → Bytes → Option Reference
unfolding closed take_while drop_while
defaulted name before s = closed name (take_while is_not_close s) before (drop_while is_not_close s)

-- (?::?-([^}]*))?} after the name
unfoldable pub tail_of : Bytes → Bytes → Option Reference
unfolding defaulted
tail_of name [] = none
tail_of name (c ∷ []) =
    if c == b'}'
    then some (record { name = name; fallback = []; width = length name + 3 })
    else none
tail_of name (c ∷ d ∷ s) =
    if c == b'}'
    then some (record { name = name; fallback = []; width = length name + 3 })
    else if c == b'-'
    then defaulted name (length name + 3) (d ∷ s)
    else if c == b':' && d == b'-'
    then defaulted name (length name + 4) s
    else none

named : Option Bytes → Option Reference
unfolding tail_of take_while drop_while
named none = none
named (some []) = none
named (some (c ∷ s)) =
    if is_name_start c
    then tail_of (c ∷ take_while is_name_char s) (drop_while is_name_char s)
    else none

-- A match at the head of a text.
unfoldable pub reference_at : Bytes → Option Reference
unfolding named cut_prefix text
reference_at s = named (cut_prefix (text "${") s)

-- `skip` bytes belong to the match before.
pieces_from : ℕ → Bytes → List Piece
unfolding reference_at
pieces_from skip [] = []
pieces_from (suc skip) (c ∷ s) = pieces_from skip s
pieces_from zero (c ∷ s) = elim (reference_at (c ∷ s)) [
  | none ↦ plain c ∷ pieces_from zero s
  | some r ↦ refer r ∷ pieces_from (r.width - 1) s
]

unfoldable pub pieces : Bytes → List Piece
unfolding pieces_from
pieces s = pieces_from zero s

-- interpolation.FindAllStringSubmatch
unfoldable pub references : List Piece → List Reference
references [] = []
references (plain c ∷ ps) = references ps
references (refer r ∷ ps) = r ∷ references ps

-- interpolation.ReplaceAllStringFunc
unfoldable pub replaced : (Reference → Bytes) → List Piece → Bytes
replaced f [] = []
replaced f (plain c ∷ ps) = c ∷ replaced f ps
replaced f (refer r ∷ ps) = f r ++ replaced f ps

abbrev pub fallback_of : Reference → Bytes
fallback_of r = r.fallback

-- "${" + name + "}"
unfoldable pub placeholder : Bytes → Bytes
unfolding text
placeholder name = text "${" ++ (name ++ text "}")

unfoldable pub literal : Bytes → Bytes
unfolding pieces replaced
literal v = replaced fallback_of (pieces v)

abbrev pub unless_magic : Reference → Bytes
unless_magic r = if is_magic r.name then placeholder r.name else r.fallback

-- literalExceptSources
unfoldable pub literal_except_sources : Bytes → Bytes
unfolding pieces replaced placeholder is_magic
literal_except_sources v = replaced unless_magic (pieces v)

unfoldable pub refers : (Bytes → Bool) → Bytes → Bool
unfolding pieces references any
refers is_match v = any (λ (r : Reference). is_match r.name) (references (pieces v))

abbrev pub source_of : Bytes → Source
source_of name = record { name = name; kind = magic_kind name }

-- One step of the loops that add a source unless its name is there.
unfoldable pub add_source : List Source → Source → List Source
unfolding any
add_source out s = if any (λ (o : Source). o.name == s.name) out then out else out ++ (s ∷ [])

unfoldable pub sources_loop : List Source → List Reference → List Source
unfolding add_source is_magic magic_kind
sources_loop out [] = out
sources_loop out (r ∷ rs) =
    sources_loop (if is_magic r.name then add_source out (source_of r.name) else out) rs

unfoldable pub sources : Bytes → List Source
unfolding sources_loop references pieces
sources v = sources_loop [] (references (pieces v))

unfoldable pub hollow_loop : List Bytes → List Reference → List Bytes
unfolding contains
hollow_loop out [] = out
hollow_loop out (r ∷ rs) =
    hollow_loop
      (if r.fallback == [] && not (contains out r.name) then out ++ (r.name ∷ []) else out) rs

-- imageDefaults
unfoldable pub image_defaults : Bytes → Bytes × List Bytes
unfolding literal hollow_loop references pieces
image_defaults image = (literal image, hollow_loop [] (references (pieces image)))
