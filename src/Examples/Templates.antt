-- ===== src/Examples/Templates.antt =====
-- compose/convert.go on single values: names, interpolations, addresses and ports.
use k8s_lab.Common.{
  Bool, true, false, List, [], ◌∷◌, ◌≡◌, ◌⊎◌, refl, some, map, ◌==◌, list_eq, nat_eq,
}
use k8s_lab.Common.Bytes.{Bytes, text, all}
use k8s_lab.Common.Int.{pos, to_int32}
use k8s_lab.Compose.{Runtime}
use k8s_lab.Compose.Names.{object_name, identifier}
use k8s_lab.Compose.Names.Labels.{IsLabel, object_name-IsLabel}
use k8s_lab.Compose.Names.Identifiers.{is_admitted, identifier_admitted}
use k8s_lab.Compose.Interpolation.{pieces, placeholder, literal, literal_except_sources, sources}
use k8s_lab.Compose.Interpolation.Written.{
  Item, byte, variable, defaulting, print, piece_of, pieces-print,
}
use k8s_lab.Compose.Interpolation.Nested.{nested_value, nested_default_passes_through}
use k8s_lab.Compose.Siblings.{Verdict, ignored, repointed, rewrite_siblings}
use k8s_lab.Compose.Ports.{health_port}
use k8s_lab.Compose.Ports.Range.{url_with}
use k8s_lab.Compose.Variables.{is_magic}

-- A script with no case, and quotes left out.
abbrev pub plain_runtime : Runtime
plain_runtime = record { lower = λ s. s; quote = λ s. s }

named : object_name plain_runtime (text "my_app--web-") ≡ text "my-app--web"
unfolding object_name text
named = refl

object_name-IsLabel_example : IsLabel (object_name plain_runtime (text "my_app--web-"))
object_name-IsLabel_example = object_name-IsLabel plain_runtime (text "my_app--web-")

identifier_admitted_example :
    ((identifier plain_runtime (text "db") (text "database") (text "plausible-db")).0 ≡ [])
    ⊎ (is_admitted (identifier plain_runtime (text "db") (text "database") (text "plausible-db")).0
        ≡ true)
identifier_admitted_example =
    identifier_admitted plain_runtime (text "db") (text "database") (text "plausible-db")

fixed :
    (identifier plain_runtime (text "db") (text "database") (text "plausible-db")).0
    ≡ text "plausible_db"
unfolding identifier text
fixed = refl

abbrev items : List Item
items =
    byte b'p'
    ∷ variable (text "SERVICE_USER_PG")
    ∷ byte b':'
    ∷ defaulting (text "PORT") (text "5432")
    ∷ []

pieces-print_example : pieces (print items) ≡ map piece_of items
unfolding text all
pieces-print_example = pieces-print items refl

connection :
    literal_except_sources (text "postgres://${SERVICE_USER_PG}:${PW:-x}@db")
    ≡ text "postgres://${SERVICE_USER_PG}:x@db"
unfolding literal_except_sources text
connection = refl

nested_default_passes_through_example :
    (sources (nested_value (text "PW") (text "SERVICE_PASSWORD_X")) ≡ [])
    × (literal (nested_value (text "PW") (text "SERVICE_PASSWORD_X"))
        ≡ placeholder (text "SERVICE_PASSWORD_X"))
unfolding text all is_magic
nested_default_passes_through_example =
    nested_default_passes_through (text "PW") (text "SERVICE_PASSWORD_X") refl refl refl

-- A template with a `db`, seen from `web`.
verdict : Bytes → Verdict
unfolding text
verdict host = if_db (host == text "db")
  where
    if_db : Bool → Verdict
    if_db true = repointed (text "blog-db")
    if_db false = ignored

repointed_address :
    (rewrite_siblings verdict (text "redis://u:db@db:6379/0")).0
    ≡ text "redis://u:db@blog-db:6379/0"
unfolding verdict rewrite_siblings text
repointed_address = refl

abbrev published : List Bytes
published = text "127.0.0.1:80:8080/tcp" ∷ []

-- A numeral past 2^32 comes out as another port.
wrapped : health_port (some (url_with (text "4294967376"))) ≡ some (pos 80)
unfolding text health_port to_int32
wrapped = refl
