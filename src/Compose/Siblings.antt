-- ===== src/Compose/Siblings.antt =====
-- compose/convert.go: addresses of other services in a value, and how they are repointed. A value
-- is read once into the pieces that `siblingHost` finds: the matches do not overlap, and the
-- leftmost is taken first.
pub mod Unchanged
use k8s_lab.Common.{
  Bool, true, false, ℕ, zero, suc, ◌+◌, ◌-◌, List, [], ◌∷◌, ◌++◌, Option, none, some, ◌||◌, ◌&&◌,
  not, ◌==◌, nat_eq, list_eq, if◌then◌else◌, length, contains,
}
use k8s_lab.Common.Bytes.{
  Bytes, text, is_digit, is_upper, is_lower, take_while, drop_while, cut_prefix,
}
use k8s_lab.Common.Map.{get, has}
use k8s_lab.Compose.{Template, Runtime, Note, EnvVar, Generated}
use k8s_lab.Compose.Names.{object_name}

-- A match: what stands in front of the host, the host, and what stands behind it.
pub record Address : Type 0 where
  pub lead : Bytes
  pub host : Bytes
  pub trail : Bytes

pub data Piece : Type 0 where
  plain : ℕ → Piece
  address : Address → Piece

abbrev is_alnum : ℕ → Bool
is_alnum c = is_upper c || (is_lower c || is_digit c)

abbrev is_host_char : ℕ → Bool
is_host_char c = is_alnum c || (c == b'.' || (c == b'_' || c == b'-'))

-- (?:[/?]|$)
stop_at : Bytes → Option Bytes
stop_at [] = some []
stop_at (c ∷ s) = if c == b'/' || c == b'?' then some (c ∷ []) else none

followed : Bytes → Option Bytes → Option Bytes
followed front none = none
followed front (some rest) = some (front ++ rest)

-- :[0-9]+(?:[/?]|$)
port_at : Bytes → Option Bytes
unfolding stop_at followed take_while drop_while
port_at [] = none
port_at (c ∷ s) =
    if c == b':' && not (take_while is_digit s == [])
    then followed (c ∷ take_while is_digit s) (stop_at (drop_while is_digit s))
    else none

-- (?::[0-9]+)?(?:[/?]|$)
trail_at : Bytes → Option Bytes
unfolding port_at stop_at
trail_at s = elim (port_at s) [ some t ↦ some t | none ↦ stop_at s ]

with_trail : Bytes → Bytes → Option Bytes → Option Address
with_trail lead host none = none
with_trail lead host (some trail) = some (record { lead = lead; host = host; trail = trail })

-- A host at the head of a text, and the given continuation behind it.
host_at : (Bytes → Option Bytes) → Bytes → Bytes → Option Address
unfolding with_trail take_while drop_while
host_at behind lead [] = none
host_at behind lead (c ∷ s) =
    if is_alnum c
    then with_trail lead (c ∷ take_while is_host_char s) (behind (drop_while is_host_char s))
    else none

led_by : Bytes → (Bytes → Option Bytes) → Bytes → Option Address
unfolding host_at cut_prefix
led_by lead behind s = elim (cut_prefix lead s) [ none ↦ none | some r ↦ host_at behind lead r ]

or_else : Option Address → Option Address → Option Address
or_else (some a) b = some a
or_else none b = b

-- A match at the head of a text; the flag says that it is the start of the value.
unfoldable pub address_at : Bool → Bytes → Option Address
unfolding or_else led_by host_at port_at trail_at text
address_at start s = or_else (led_by (text "//") trail_at s) (
    or_else (led_by (text "@") trail_at s)
      (or_else (if start then host_at port_at [] s else none) (led_by (text "=") port_at s)))

-- `skip` bytes belong to the match before.
pieces_from : Bool → ℕ → Bytes → List Piece
unfolding address_at
pieces_from start skip [] = []
pieces_from start (suc skip) (c ∷ s) = pieces_from false skip s
pieces_from start zero (c ∷ s) = elim (address_at start (c ∷ s)) [
  | none ↦ plain c ∷ pieces_from false zero s
  | some a ↦ address a ∷ pieces_from false (length a.lead + length a.host + length a.trail - 1) s
]

unfoldable pub pieces : Bytes → List Piece
unfolding pieces_from
pieces value = pieces_from true zero value

-- What one address becomes: left alone, left alone and reported, or repointed.
pub data Verdict : Type 0 where
  ignored own : Verdict
  repointed : Bytes → Verdict

-- The tests of the loop of `rewriteSiblings` on one host.
unfoldable pub judge : Runtime → Template → Bytes → Bytes → Bytes → Verdict
unfolding get object_name
judge go t self primary host =
    if host == self
    then ignored
    else if not (has host t.services)
    then ignored
    else if host == primary
    then own
    else repointed (object_name go (t.name ++ (b'-' ∷ host)))

abbrev host_for : Verdict → Bytes → Bytes
host_for (repointed to) host = to
host_for ignored host = host
host_for own host = host

-- The hosts that have a note, and the notes.
pub record Report : Type 0 where
  pub fixed : List Bytes
  pub unfixed : List Bytes
  pub notes : List Note

own_detail : Runtime → Bytes → Bytes
unfolding text
own_detail go host =
    text "addresses "
    ++ (go.quote host
        ++ text
            ", which is this template's own application. What that runs under is chosen when it is installed, not here, so this one reference is left as compose wrote it and does not resolve")

repointed_detail : Runtime → Bytes → Bytes → Bytes
unfolding text
repointed_detail go host to =
    text "addresses "
    ++ (go.quote host
        ++ (text
              ", which is what compose calls that service and not what it is called here; it has been repointed at "
            ++ to))

-- One step of the loop of `repointSiblings` over the addresses of one value.
unfoldable pub report : Runtime → Bytes → Bytes → Report → Bytes × Verdict → Report
unfolding own_detail repointed_detail contains
report go self field acc (host, ignored) = acc
report go self field acc (host, own) = if contains acc.unfixed host then acc else record acc {
  unfixed = host ∷ acc.unfixed;
  notes = acc.notes ++ (record { service = self; field = field; detail = own_detail go host } ∷ []);
}
report go self field acc (host, repointed to) =
    if contains acc.fixed host then acc else record acc {
      fixed = host ∷ acc.fixed;
      notes =
          acc.notes
          ++ (record { service = self; field = field; detail = repointed_detail go host to } ∷ []);
    }

unfoldable pub report_all : Runtime → Bytes → Bytes → Report → List (Bytes × Verdict) → Report
unfolding report
report_all go self field acc [] = acc
report_all go self field acc (f ∷ fs) = report_all go self field (report go self field acc f) fs

-- `verdict` is `judge` at a template, a service and the primary one.
module _ (verdict : Bytes → Verdict) where
  unfoldable pub rewritten : List Piece → Bytes
  rewritten [] = []
  rewritten (plain c ∷ ps) = c ∷ rewritten ps
  rewritten (address a ∷ ps) =
      a.lead ++ (host_for (verdict a.host) a.host ++ (a.trail ++ rewritten ps))

  -- The hosts that are services, with the verdict on each: the `found` of the source, whose empty
  -- `to` is `own`.
  unfoldable pub found_in : List Piece → List (Bytes × Verdict)
  found_in [] = []
  found_in (plain c ∷ ps) = found_in ps
  found_in (address a ∷ ps) = elim (verdict a.host) [
    | ignored ↦ found_in ps
    | own ↦ (a.host, own) ∷ found_in ps
    | repointed to ↦ (a.host, repointed to) ∷ found_in ps
  ]

  -- rewriteSiblings
  unfoldable pub rewrite_siblings : Bytes → Bytes × List (Bytes × Verdict)
  unfolding rewritten found_in pieces
  rewrite_siblings value = (rewritten (pieces value), found_in (pieces value))

  -- The loop over the two lists, with the values written back.
  unfoldable pub repoint_env : List EnvVar → List EnvVar
  unfolding rewrite_siblings
  repoint_env [] = []
  repoint_env (e ∷ es) = record e { value = (rewrite_siblings e.value).0 } ∷ repoint_env es

  unfoldable pub repoint_generated : List Generated → List Generated
  unfolding rewrite_siblings
  repoint_generated [] = []
  repoint_generated (g ∷ gs) =
      record g { value = (rewrite_siblings g.value).0 } ∷ repoint_generated gs

  module _ (go : Runtime) (self : Bytes) where
    unfoldable pub report_env : Report → List EnvVar → Report
    unfolding rewrite_siblings report_all
    report_env acc [] = acc
    report_env acc (e ∷ es) =
        report_env (report_all go self e.name acc (rewrite_siblings e.value).1) es

    unfoldable pub report_generated : Report → List Generated → Report
    unfolding rewrite_siblings report_all
    report_generated acc [] = acc
    report_generated acc (g ∷ gs) =
        report_generated (report_all go self g.key acc (rewrite_siblings g.value).1) gs

    -- The notes of `repointSiblings`.
    unfoldable pub sibling_notes : List EnvVar → List Generated → List Note
    unfolding report_env report_generated
    sibling_notes env gen =
        let start : Report = record { fixed = []; unfixed = []; notes = [] } in
        (report_generated (report_env start env) gen).notes
