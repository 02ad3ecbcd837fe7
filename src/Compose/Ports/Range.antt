-- ===== src/Compose/Ports/Range.antt =====
-- The ports that compose/convert.go reads off a service, against the range 1 to 65535 that the
-- schema of the Workload admits.
use k8s_lab.Common.{
  true, false, ℕ, ◌<◌, List, [], ◌∷◌, ◌++◌, none, some, ◌&&◌, ◌==◌, nat_eq, list_eq, ltb, ◌≡◌, refl,
  sym, ◌∙◌, if◌then◌else◌, arith, inl, inr, Bool-cases, Option-cases,
}
use k8s_lab.Common.Bytes.{
  Bytes, text, all, take_while, cut_prefix, before, after, last_field, join, atoi,
}
use k8s_lab.Common.Bytes.Trimmed.{take_while-append, drop_while-append, all-append}
use k8s_lab.Common.Int.{ℤ, pos, negsuc, to_int32}
use k8s_lab.Compose.{HealthCheck}
use k8s_lab.Compose.Ports.{
  HealthUrl, is_port, port_of, container_port, is_host_char, after_scheme, url_at, find_url,
  port_of_host, health_port,
}

abbrev pub IsPort : ℤ → Type 0
IsPort n = (m : ℕ) × (n ≡ pos m) × (0 < m) × (m < 65536)

to_int32-small : (m : ℕ) → m < 65536 → to_int32 (pos m) ≡ pos m
unfolding to_int32
to_int32-small m h = ground arith

if-IsPort : (k n : ℤ) → (if is_port k then some (to_int32 k) else none) ≡ some n → IsPort n
if-IsPort (negsuc k) n h = absurd (ground arith)
if-IsPort (pos m) n h = elim (Bool-cases (ltb 0 m && ltb m 65536)) [
  | inr outside ↦ absurd (let gone = rw outside at h in ground arith)
  | inl inside ↦
      let below : m < 65536 = ground arith in
      (
        m,
        some_eq n (to_int32 (pos m)) (sym (rw inside at h)) ∙ to_int32-small m below,
        ground arith,
        below,
      )
]
  where
    some_eq : (a b : ℤ) → some a ≡ some b → a ≡ b
    some_eq a b e = ground arith

port_of-IsPort : (p : Bytes) (n : ℤ) → port_of p ≡ some n → IsPort n
unfolding port_of
port_of-IsPort p n h = elim (Option-cases (atoi (before b'/' (last_field b':' p)))) [
  | inl bad ↦ absurd (let gone = rw (bad, port_of) at h in ground arith)
  | inr (k, good) ↦ if-IsPort k n (rw (good, port_of) at h)
]

-- A port that is taken from the published ports is in the range from 1 to 65535.
pub container_port-IsPort : (ports : List Bytes) (n : ℤ) → container_port ports ≡ some n → IsPort n
unfolding container_port
container_port-IsPort [] n h = absurd (ground arith)
container_port-IsPort (p ∷ ports) n h = elim (Option-cases (port_of p)) [
  | inl bad ↦ container_port-IsPort ports n (rw (bad, container_port) at h)
  | inr (k, good) ↦ port_of-IsPort p n (good ∙ rw (good, container_port) at h)
]

abbrev pub url_with : Bytes → HealthCheck
url_with port = record { test = (text "http://localhost:" ++ (port ++ text "/")) ∷ [] }

after_scheme-host :
    (host : Bytes)
    → all is_host_char host ≡ true
    → (host == []) ≡ false
    → after_scheme (some (host ++ (b'/' ∷ []))) ≡ some (record { host = host; path = b'/' ∷ [] })
unfolding after_scheme
after_scheme-host host chars full =
    rw (drop_while-append is_host_char host b'/' [] chars refl, after_scheme)
      (rw (take_while-append is_host_char host b'/' [] chars refl)
        (rw full (unfold take_while in refl)))

-- A URL at the head of a text is the first match.
find_url-head :
    (c : ℕ) (s : Bytes) (u : HealthUrl)
    → after_scheme (cut_prefix (text "http://") (c ∷ s)) ≡ some u
    → find_url (c ∷ s) ≡ some u
unfolding find_url
find_url-head c s u h = rw (head, find_url) refl
  where
    head : url_at (c ∷ s) ≡ some u
    head = unfold url_at in rw (h, url_at) refl

-- The numeral of `http://localhost:PORT/`, whatever its number, converted to an int32.
pub health_port-url_with :
    (port : Bytes) (n : ℤ)
    → all is_host_char port ≡ true
    → atoi port ≡ some n
    → health_port (some (url_with port)) ≡ some (to_int32 n)
unfolding health_port port_of_host join
health_port-url_with port n chars numeral =
    let host = text "localhost:" ++ port in
    let whole : all is_host_char host ≡ true =
      all-append is_host_char (text "localhost:") port (unfold all text in refl) chars in
    let u : HealthUrl = record { host = host; path = b'/' ∷ [] } in
    let e : find_url (text "http://localhost:" ++ (port ++ text "/")) ≡ some u =
      unfold text in
      find_url-head b'h' (text "ttp://localhost:" ++ (port ++ text "/")) u
        (unfold cut_prefix in after_scheme-host (text "localhost:" ++ port) whole refl) in
    rw (e, health_port) (unfold after text in rw (numeral, port_of_host) refl)
