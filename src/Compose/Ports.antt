-- ===== src/Compose/Ports.antt =====
-- compose/convert.go: the port and the probe path of a service.
pub mod Range
use k8s_lab.Common.{
  Bool, true, false, ℕ, List, [], ◌∷◌, Option, none, some, ◌||◌, ◌&&◌, not, ◌==◌, nat_eq, list_eq,
  if◌then◌else◌, ltb,
}
use k8s_lab.Common.Bytes.{
  Bytes, text, take_while, drop_while, cut_prefix, before, after, last_field, join, atoi,
}
use k8s_lab.Common.Int.{ℤ, pos, negsuc, to_int32}
use k8s_lab.Compose.{HealthCheck}

-- n > 0 && n < 65536
abbrev pub is_port : ℤ → Bool
is_port (pos n) = ltb 0 n && ltb n 65536
is_port (negsuc n) = false

-- The container port of one entry: the last field, without the protocol.
unfoldable pub port_of : Bytes → Option ℤ
unfolding atoi before last_field
port_of p = elim (atoi (before b'/' (last_field b':' p))) [
  | none ↦ none
  | some n ↦ if is_port n then some (to_int32 n) else none
]

-- containerPort
unfoldable pub container_port : List Bytes → Option ℤ
unfolding port_of
container_port [] = none
container_port (p ∷ ports) = elim (port_of p) [ some n ↦ some n | none ↦ container_port ports ]

-- \s"'
abbrev is_stop : ℕ → Bool
is_stop c = c == 9 || (c == 10 || (c == 12 || (c == 13 || (c == 32 || (c == b'"' || c == 39)))))

abbrev pub is_host_char : ℕ → Bool
is_host_char c = not (c == b'/' || is_stop c)

abbrev is_path_char : ℕ → Bool
is_path_char c = not (is_stop c)

-- What a match of `healthURL` is taken apart into: the text between `//` and the next `/`, and the
-- group.
pub record HealthUrl : Type 0 where
  pub host : Bytes
  pub path : Bytes

-- [^/\s"']+(/[^\s"']*) behind the `//`
after_scheme : Option Bytes → Option HealthUrl
unfolding take_while drop_while
after_scheme none = none
after_scheme (some s) = elim (drop_while is_host_char s) [
  | [] ↦ none
  | c ∷ rest ↦
      if c == b'/' && not (take_while is_host_char s == [])
      then some
          (record { host = take_while is_host_char s; path = take_while is_path_char (c ∷ rest) })
      else none
]

url_at : Bytes → Option HealthUrl
unfolding after_scheme cut_prefix text
url_at s = elim (after_scheme (cut_prefix (text "http://") s)) [
  | some u ↦ some u
  | none ↦ after_scheme (cut_prefix (text "https://") s)
]

-- healthURL.FindStringSubmatch
unfoldable pub find_url : Bytes → Option HealthUrl
unfolding url_at
find_url [] = none
find_url (c ∷ s) = elim (url_at (c ∷ s)) [ some u ↦ some u | none ↦ find_url s ]

abbrev command_line : HealthCheck → Bytes
command_line hc = join (b' ' ∷ []) hc.test

port_of_host : Option Bytes → Option ℤ
unfolding atoi
port_of_host none = none
port_of_host (some port) = elim (atoi port) [ none ↦ none | some n ↦ some (to_int32 n) ]

-- healthPort
unfoldable pub health_port : Option HealthCheck → Option ℤ
unfolding port_of_host find_url after join
health_port none = none
health_port (some hc) = elim (find_url (command_line hc)) [
  | none ↦ none
  | some u ↦ port_of_host (after b':' u.host)
]

-- httpPath
unfoldable pub http_path : HealthCheck → Option Bytes
unfolding find_url join
http_path hc = elim (find_url (command_line hc)) [
  | none ↦ none
  | some u ↦ if u.path == [] then none else some u.path
]
