-- ===== src/Auth/Host.antt =====
-- `canonicalHost` of auth/session.go: a host with its port, its brackets and its case taken away.
use k8s_lab.Common.{
  ℕ, String, Bool, false, Option, none, some, ◌||◌, ◌==◌, string_eq, nat_eq, if◌then◌else◌,
}
use Prim.Native.Char.{code}
use k8s_lab.Common.Text.{Unicode, to_lower, trim_space, trim_suffix}

-- strings.Contains for one character
has_char : ℕ → String → Bool
has_char n String.[] = false
has_char n (String.◌∷◌ c s) = code c == n || has_char n s

-- What stands before the last colon, and what follows it.
split_last_colon : String → Option (String × String)
split_last_colon String.[] = none
split_last_colon (String.◌∷◌ c s) = elim (split_last_colon s) [
  | some (before, after) ↦ some (String.◌∷◌ c before, after)
  | none ↦ if code c == b':' then some (String.[], s) else none
]

-- A colon inside brackets is part of an IPv6 address, not of a port.
strip_port : String → String
unfolding has_char split_last_colon
strip_port h = elim (split_last_colon h) [
  | none ↦ h
  | some (before, after) ↦ if has_char b']' after then h else before
]

-- strings.TrimPrefix(s, "[")
trim_bracket : String → String
trim_bracket String.[] = String.[]
trim_bracket (String.◌∷◌ c s) = if code c == b'[' then s else String.◌∷◌ c s

unfoldable pub canonical_host : Unicode → String → String
unfolding strip_port trim_bracket
canonical_host u host = trim_suffix "]" (trim_bracket (strip_port (to_lower u (trim_space u host))))
