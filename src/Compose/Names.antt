-- ===== src/Compose/Names.antt =====
-- compose/convert.go: names that the platform's interfaces accept, and the repository of an image.
pub mod Labels
pub mod Identifiers
use k8s_lab.Common.{
  Bool, true, false, ℕ, suc, ◌<◌, List, [], ◌∷◌, ◌++◌, Option, none, some, ◌||◌, ◌&&◌, not, ◌==◌,
  nat_eq, list_eq, if◌then◌else◌, ltb, leb, length, take,
}
use k8s_lab.Common.Bytes.{
  Bytes, text, is_digit, is_lower, trim, replace_outside, before, last_index, has_suffix,
}
use k8s_lab.Compose.{Note, Runtime}
use k8s_lab.Compose.Interpolation.{sources, literal}

-- [a-z0-9-]
abbrev pub is_dns_char : ℕ → Bool
is_dns_char c = is_lower c || (is_digit c || c == b'-')

-- [a-z0-9_]
abbrev pub is_identifier_char : ℕ → Bool
is_identifier_char c = is_lower c || (is_digit c || c == b'_')

-- if len(s) > 40 { s = strings.Trim(s[:40], "-") }
unfoldable pub shortened : Bytes → Bytes
unfolding trim take
shortened s = if ltb 40 (length s) then trim b'-' (take 40 s) else s

unfoldable pub or_app : Bytes → Bytes
unfolding text
or_app [] = text "app"
or_app (c ∷ s) = c ∷ s

-- objectName
unfoldable pub object_name : Runtime → Bytes → Bytes
unfolding shortened or_app replace_outside trim
object_name go s = or_app (shortened (trim b'-' (replace_outside is_dns_char b'-' (go.lower s))))

-- Whether a value may be an identifier of PostgreSQL: what the guard of `identifier` lets through.
unfoldable pub is_identifier : Bytes → Bool
is_identifier [] = false
is_identifier (c ∷ s) = is_lower c

not_an_identifier : Runtime → Bytes → Bytes
unfolding text
not_an_identifier go resolved =
    go.quote resolved
    ++ text " is not a PostgreSQL identifier and could not be made into one; the default stands"

made_identifier : Runtime → Bytes → Bytes → Bytes
unfolding text
made_identifier go resolved fixed =
    go.quote resolved ++ (text " is not a PostgreSQL identifier; using " ++ go.quote fixed)

mints_itself : Bytes
unfolding text
mints_itself = text "names a generated value; the platform mints this database's credentials itself"

-- The identifier, and the notes of `service` about it.
fixed_identifier : Runtime → Bytes → Bytes → Bytes → Bytes → Bytes × List Note
unfolding is_identifier not_an_identifier made_identifier
fixed_identifier go service field resolved fixed =
    if not (is_identifier fixed)
    then (
      [],
      record { service = service; field = field; detail = not_an_identifier go resolved } ∷ [],
    )
    else if not (fixed == resolved)
    then (
      fixed,
      record { service = service; field = field; detail = made_identifier go resolved fixed } ∷ [],
    )
    else (fixed, [])

unfoldable pub identifier : Runtime → Bytes → Bytes → Bytes → Bytes × List Note
unfolding fixed_identifier mints_itself sources literal trim replace_outside
identifier go service field v =
    if v == []
    then ([], [])
    else if not (length (sources v) == 0)
    then ([], record { service = service; field = field; detail = mints_itself } ∷ [])
    else fixed_identifier go service field (literal v)
        (trim b'_' (replace_outside is_identifier_char b'_' (go.lower (literal v))))

-- The order of two results of strings.LastIndex, of which `none` is -1.
abbrev is_later : Option ℕ → Option ℕ → Bool
is_later none j = false
is_later (some i) none = true
is_later (some i) (some j) = ltb j i

without_tag : Bytes → Bytes
unfolding last_index take
without_tag repo = elim (last_index b':' repo) [
  | none ↦ repo
  | some i ↦ if is_later (some i) (last_index b'/' repo) then take i repo else repo
]

-- imageRepo
unfoldable pub image_repo : Bytes → Bytes
unfolding without_tag before
image_repo image = without_tag (before b'@' image)

database_images : List Bytes
unfolding text
database_images = text "postgres" ∷ text "postgis/postgis" ∷ text "pgvector/pgvector" ∷ []

is_image_of : List Bytes → Bytes → Bool
unfolding has_suffix
is_image_of [] repo = false
is_image_of (prefix ∷ rest) repo =
    (repo == prefix || has_suffix (b'/' ∷ prefix) repo) || is_image_of rest repo

-- The test of `asDatabase` on the image of a service.
unfoldable pub is_database_image : Bytes → Bool
unfolding is_image_of database_images image_repo
is_database_image image = is_image_of database_images (image_repo image)
