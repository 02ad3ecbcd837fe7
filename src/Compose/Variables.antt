-- ===== src/Compose/Variables.antt =====
-- compose/convert.go: the names of variables that stand for a value of the platform.
pub mod Letters
use k8s_lab.Common.{
  Bool, true, false, ℕ, List, [], ◌∷◌, Option, none, some, ◌||◌, ◌&&◌, not, ◌==◌, nat_eq, list_eq,
  if◌then◌else◌, any,
}
use k8s_lab.Common.Bytes.{
  Bytes, text, is_digit, is_upper, is_lower, all, cut_prefix, has_prefix, has_infix,
}

-- [A-Z0-9_]
abbrev is_suffix_char : ℕ → Bool
is_suffix_char c = is_upper c || (is_digit c || c == b'_')

-- (_[A-Z0-9_]+)?$
is_suffix : Bytes → Bool
unfolding all
is_suffix [] = true
is_suffix (c ∷ s) = c == b'_' && (not (s == []) && all is_suffix_char s)

-- Whether one of the words stands in front of such a suffix.
is_one_of : List Bytes → Option Bytes → Bool
unfolding is_suffix cut_prefix any
is_one_of words none = false
is_one_of words (some s) =
    any (λ word. elim (cut_prefix word s) [ none ↦ false | some rest ↦ is_suffix rest ]) words

magic_words : List Bytes
unfolding text
magic_words =
    text "PASSWORD"
    ∷ text "USER"
    ∷ text "BASE64"
    ∷ text "REALBASE64"
    ∷ text "HEX"
    ∷ text "KEY"
    ∷ text "ENCRYPTION"
    ∷ text "ROLE"
    ∷ []

url_words : List Bytes
unfolding text
url_words = text "URL" ∷ text "FQDN" ∷ []

-- magicVar.MatchString
unfoldable pub is_magic : Bytes → Bool
unfolding is_one_of magic_words cut_prefix text
is_magic name = is_one_of magic_words (cut_prefix (text "SERVICE_") name)

-- urlVar.MatchString
unfoldable pub is_url : Bytes → Bool
unfolding is_one_of url_words cut_prefix text
is_url name = is_one_of url_words (cut_prefix (text "SERVICE_") name)

-- magicKind
unfoldable pub magic_kind : Bytes → Bytes
unfolding has_prefix has_infix text
magic_kind k =
    if has_prefix (text "SERVICE_PASSWORD") k
    then text "password"
    else if has_prefix (text "SERVICE_USER") k
    then text "user"
    else if has_prefix (text "SERVICE_HEX") k
    then text "hex"
    else if has_infix (text "BASE64") k
    then text "base64"
    else text "unknown"
