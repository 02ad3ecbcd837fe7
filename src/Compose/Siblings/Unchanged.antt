-- ===== src/Compose/Siblings/Unchanged.antt =====
-- `rewriteSiblings` of compose/convert.go leaves every byte of a value alone that is not a host
-- which it repoints.
use k8s_lab.Common.{
  Bool, true, false, ℕ, zero, suc, ◌+◌, ◌-◌, List, [], ◌∷◌, ◌++◌, Option, none, some, ◌&&◌, ◌||◌,
  not, ◌==◌, nat_eq, list_eq, ◌⊎◌, ◌≡◌, refl, sym, ap, ◌∙◌, if◌then◌else◌, length, length-append,
  drop, drop-append, any, arith, inl, inr, Bool-cases, Option-cases,
}
use mathlib.Core.List.{append_assoc}
use k8s_lab.Common.Bytes.{Bytes, text, is_digit, take_while, drop_while, cut_prefix}
use k8s_lab.Common.Bytes.Trimmed.{take_while-drop_while, cut_prefix_append}
use k8s_lab.Compose.Siblings.{
  Address, Piece, plain, address, is_alnum, is_host_char, stop_at, followed, port_at, trail_at,
  with_trail, host_at, led_by, or_else, address_at, pieces_from, pieces, Verdict, ignored, own,
  repointed, host_for, rewritten, found_in, rewrite_siblings,
}

-- What such a function answers stands at the head of its argument.
abbrev Consumes : (Bytes → Option Bytes) → Type 0
Consumes behind = (x t : Bytes) → behind x ≡ some t → (rest : Bytes) × (x ≡ t ++ rest)

stop_at-Consumes : Consumes stop_at
unfolding stop_at
stop_at-Consumes [] t h = ([], ground arith)
stop_at-Consumes (c ∷ s) t h = elim (Bool-cases (c == b'/' || c == b'?')) [
  | inl stop ↦ (s, ap (λ z. z ++ s) (some_eq (c ∷ []) t (rw stop at h)))
  | inr other ↦ absurd (ground arith)
]
  where
    some_eq : (p q : Bytes) → some p ≡ some q → p ≡ q
    some_eq p q e = ground arith

followed-inverse :
    (front : Bytes) (o : Option Bytes) {t : Bytes}
    → followed front o ≡ some t
    → (r : Bytes) × (o ≡ some r) × (t ≡ front ++ r)
unfolding followed
followed-inverse front none h = absurd (ground arith)
followed-inverse front (some r) h = (r, refl, ground arith)

port_at-Consumes : Consumes port_at
unfolding port_at
port_at-Consumes [] t h = absurd (ground arith)
port_at-Consumes (c ∷ s) t h = elim (Bool-cases (c == b':' && not (take_while is_digit s == []))) [
  | inr other ↦ absurd (let gone = rw other at h in ground arith)
  | inl is_port ↦
      let (r, stop, e) =
        followed-inverse (c ∷ take_while is_digit s) (stop_at (drop_while is_digit s))
          (rw is_port at h) in
      let (rest, left) = stop_at-Consumes (drop_while is_digit s) r stop in
      (
        rest,
        ap (λ z. c ∷ z)
              (sym (take_while-drop_while is_digit s)
                ∙ ap (λ z. take_while is_digit s ++ z) left
                ∙ sym (append_assoc (take_while is_digit s) r rest))
            ∙ ap (λ z. z ++ rest) (sym e),
      )
]

trail_at-Consumes : Consumes trail_at
unfolding trail_at
trail_at-Consumes x t h = elim (Option-cases (port_at x)) [
  | inl no_port ↦ stop_at-Consumes x t (rw (no_port, trail_at) at h)
  | inr (u, port) ↦ port_at-Consumes x t (port ∙ rw (port, trail_at) at h)
]

abbrev address_text : Address → Bytes
address_text a = a.lead ++ (a.host ++ a.trail)

-- A match is a text at the head of `x` with a host in it.
abbrev Matches : Bytes → Address → Type 0
Matches x a = (rest : Bytes) × (x ≡ address_text a ++ rest) × ((length a.host == 0) ≡ false)

with_trail-inverse :
    (lead host : Bytes) (o : Option Bytes) {a : Address}
    → with_trail lead host o ≡ some a
    → (t : Bytes) × (o ≡ some t) × (a ≡ record { lead = lead; host = host; trail = t })
unfolding with_trail
with_trail-inverse lead host none h = absurd (ground arith)
with_trail-inverse lead host (some t) {a} h = (t, refl, ground arith)

host_at-Matches :
    (behind : Bytes → Option Bytes)
    → Consumes behind
    → (lead x : Bytes) {a : Address} → host_at behind lead x ≡ some a
    → Matches (lead ++ x) a
unfolding host_at
host_at-Matches behind consumes lead [] h = absurd (ground arith)
host_at-Matches behind consumes lead (c ∷ s) {a} h = elim (Bool-cases (is_alnum c)) [
  | inr other ↦ absurd (let gone = rw other at h in ground arith)
  | inl starts ↦
      let host = c ∷ take_while is_host_char s in
      let (t, after, e) =
        with_trail-inverse lead host (behind (drop_while is_host_char s)) (rw starts at h) in
      let (rest, left) = consumes (drop_while is_host_char s) t after in
      let all : c ∷ s ≡ (host ++ t) ++ rest =
        ap (λ z. c ∷ z)
          (sym (take_while-drop_while is_host_char s)
            ∙ ap (λ z. take_while is_host_char s ++ z) left
            ∙ sym (append_assoc (take_while is_host_char s) t rest)) in
      (
        rest,
        ap (λ z. lead ++ z) all
            ∙ sym (append_assoc lead (host ++ t) rest)
            ∙ ap (λ z. address_text z ++ rest) (sym e),
        ap (λ (z : Address). length z.host == 0) e ∙ ground arith,
      )
]

led_by-Matches :
    (behind : Bytes → Option Bytes)
    → Consumes behind
    → (lead x : Bytes) {a : Address} → led_by lead behind x ≡ some a
    → Matches x a
unfolding led_by
led_by-Matches behind consumes lead x {a} h = elim (Option-cases (cut_prefix lead x)) [
  | inl other ↦ absurd (let gone = rw (other, led_by) at h in ground arith)
  | inr (r, led) ↦
      let (rest, e, full) = host_at-Matches behind consumes lead r (rw (led, led_by) at h) in
      (rest, cut_prefix_append lead x r led ∙ e, full)
]

or_else-cases :
    (o p : Option Address) {a : Address} → or_else o p ≡ some a → (o ≡ some a) ⊎ (p ≡ some a)
unfolding or_else
or_else-cases none p h = inr h
or_else-cases (some b) p h = inl h

start-Matches :
    (start : Bool) (x : Bytes) {a : Address}
    → (if start then host_at port_at [] x else none) ≡ some a
    → Matches x a
start-Matches true x h = host_at-Matches port_at port_at-Consumes [] x h
start-Matches false x h = absurd (ground arith)

address_at-Matches :
    (start : Bool) (x : Bytes) {a : Address} → address_at start x ≡ some a → Matches x a
unfolding address_at
address_at-Matches start x h = elim (or_else-cases _ _ h) [
  | inl slashes ↦ led_by-Matches trail_at trail_at-Consumes (text "//") x slashes
  | inr h' ↦ elim (or_else-cases _ _ h') [
    | inl at_sign ↦ led_by-Matches trail_at trail_at-Consumes (text "@") x at_sign
    | inr h'' ↦ elim (or_else-cases _ _ h'') [
      | inl first ↦ start-Matches start x first
      | inr equals ↦ led_by-Matches port_at port_at-Consumes (text "=") x equals
    ]
  ]
]

text_of : List Piece → Bytes
text_of [] = []
text_of (plain c ∷ ps) = c ∷ text_of ps
text_of (address a ∷ ps) = address_text a ++ text_of ps

length-address :
    (a : Address) → length (address_text a) ≡ length a.lead + length a.host + length a.trail
length-address a =
    omega (arith, length-append a.lead (a.host ++ a.trail), length-append a.host a.trail)

at_least_one : (l h t : ℕ) → (h == 0) ≡ false → l + h + t ≡ suc (l + h + t - 1)
at_least_one l h t full = ground arith

drop-nil : (n : ℕ) → drop {A = ℕ} n [] ≡ []
unfolding drop
drop-nil zero = refl
drop-nil (suc n) = refl

-- Reading a value into pieces loses nothing.
text_of-pieces_from :
    (start : Bool) (skip : ℕ) (s : Bytes) → text_of (pieces_from start skip s) ≡ drop skip s
unfolding pieces_from text_of drop
text_of-pieces_from start skip [] = sym (drop-nil skip)
text_of-pieces_from start (suc skip) (c ∷ s) = text_of-pieces_from false skip s
text_of-pieces_from start zero (c ∷ s) = elim (Option-cases (address_at start (c ∷ s))) [
  | inl other ↦ rw (other, pieces_from) (ap (λ z. c ∷ z) (text_of-pieces_from false zero s))
  | inr (a, found) ↦
      let (rest, e, full) = address_at-Matches start (c ∷ s) found in
      let n = length a.lead + length a.host + length a.trail in
      let size : length (address_text a) ≡ suc (n - 1) =
        length-address a ∙ at_least_one _ _ _ full in
      let left : drop (n - 1) s ≡ rest =
        ap (drop (suc (n - 1))) e ∙ drop-append (address_text a) rest (suc (n - 1)) size in
      rw (found, pieces_from)
        (ap (λ z. address_text a ++ z) (text_of-pieces_from false (n - 1) s ∙ left) ∙ sym e)
]

-- Whether the host of an address has been replaced.
abbrev pub is_repointed : Bytes × Verdict → Bool
is_repointed (host, repointed to) = true
is_repointed (host, ignored) = false
is_repointed (host, own) = false

module _ (verdict : Bytes → Verdict) where
  -- A host that is not replaced, in front of what is unchanged.
  same_host :
      (a : Address) (v : Verdict) (rest rest' : Bytes)
      → is_repointed (a.host, v) ≡ false
      → rest ≡ rest'
      → a.lead ++ (host_for v a.host ++ (a.trail ++ rest)) ≡ address_text a ++ rest'
  same_host a ignored rest rest' h e =
      rw (append_assoc a.lead (a.host ++ a.trail) rest', append_assoc a.host a.trail rest')
        (ap (λ z. a.lead ++ (a.host ++ (a.trail ++ z))) e)
  same_host a own rest rest' h e =
      rw (append_assoc a.lead (a.host ++ a.trail) rest', append_assoc a.host a.trail rest')
        (ap (λ z. a.lead ++ (a.host ++ (a.trail ++ z))) e)
  same_host a (repointed to) rest rest' h e = absurd (ground arith)

  -- The verdict on an address is among what is found, unless it is to be ignored.
  abbrev found_with : Address → List (Bytes × Verdict) → Verdict → List (Bytes × Verdict)
  found_with a rest v = elim v [
    | ignored ↦ rest
    | own ↦ (a.host, own) ∷ rest
    | repointed to ↦ (a.host, repointed to) ∷ rest
  ]

  found_address :
      (a : Address) (rest : List (Bytes × Verdict)) (v : Verdict)
      → any is_repointed (found_with a rest v) ≡ false
      → (is_repointed (a.host, v) ≡ false) × (any is_repointed rest ≡ false)
  unfolding any
  found_address a rest ignored h = (refl, h)
  found_address a rest own h = (refl, h)
  found_address a rest (repointed to) h = absurd (ground arith)

  rewritten_unchanged :
      (ps : List Piece)
      → any is_repointed (found_in verdict ps) ≡ false
      → rewritten verdict ps ≡ text_of ps
  unfolding rewritten text_of
  rewritten_unchanged [] h = refl
  rewritten_unchanged (plain c ∷ ps) h =
      ap (λ z. c ∷ z) (rewritten_unchanged ps (unfold found_in in h))
  rewritten_unchanged (address a ∷ ps) h =
      let v = verdict a.host in
      let (kept, rest) = found_address a (found_in verdict ps) v (unfold found_in in h) in
      same_host a v _ _ kept (rewritten_unchanged ps rest)

  -- Where no address of a value is repointed, whatever decides on the hosts, the value is left as it is, byte for byte.
  pub value_kept :
      (value : Bytes)
      → any is_repointed (rewrite_siblings verdict value).1 ≡ false
      → (rewrite_siblings verdict value).0 ≡ value
  unfolding rewrite_siblings pieces drop
  value_kept value h =
      rewritten_unchanged (pieces_from true zero value) h ∙ text_of-pieces_from true zero value
