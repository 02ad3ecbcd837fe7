-- ===== src/Compose/Databases.antt =====
-- compose/convert.go, `asDatabase`, `declaredSources` and `linkDatabase`.
use k8s_lab.Common.{
  ℕ, zero, suc, List, [], ◌∷◌, ◌++◌, Option, none, some, ◌&&◌, ◌==◌, nat_eq, list_eq, if◌then◌else◌,
  map,
}
use k8s_lab.Common.Bytes.{Bytes, text, join}
use k8s_lab.Common.Map.{Map}
use k8s_lab.Compose.{
  Service, Template, Source, Note, Options, Workload, Database, Conversion, Runtime,
}
use k8s_lab.Compose.Variables.{is_magic}
use k8s_lab.Compose.Interpolation.{add_source, source_of, sources}
use k8s_lab.Compose.Names.{identifier, is_database_image}
use k8s_lab.Compose.Workloads.{object_meta, sorted_keys, value_of}

unfoldable pub database_of :
    Runtime
    → Bytes
    → Bytes
    → Service
    → Options
    → Bytes × List Note
    → Bytes × List Note
    → Database × List Note
unfolding object_meta
database_of go template name svc o database username = (
  record {
    meta = object_meta go template name o;
    image = svc.image;
    storage = o.volume_size;
    database = database.0;
    username = username.0;
  },
  database.1 ++ username.1,
)

unfoldable pub database_for : Runtime → Bytes → Bytes → Service → Options → Database × List Note
unfolding database_of identifier value_of text
database_for go template name svc o =
    database_of go template name svc o
      (identifier go name (text "database") (value_of (text "POSTGRES_DB") svc.environment))
      (identifier go name (text "username") (value_of (text "POSTGRES_USER") svc.environment))

-- asDatabase, `none` where the image is not one of a database
unfoldable pub as_database :
    Runtime → Template → Bytes → Service → Options → Option (Database × List Note)
unfolding database_for is_database_image
as_database go t name svc o =
    if is_database_image svc.image then some (database_for go t.name name svc o) else none

add_all : List Source → List Source → List Source
unfolding add_source
add_all out [] = out
add_all out (s ∷ ss) = add_all (add_source out s) ss

declared_loop : Map Bytes Bytes → List Source → List Bytes → List Source
unfolding add_all add_source is_magic sources value_of
declared_loop m out [] = out
declared_loop m out (k ∷ ks) =
    declared_loop m
      (if value_of k m == [] && is_magic k
        then add_source out (source_of k)
        else add_all out (sources (value_of k m)))
      ks

-- declaredSources
unfoldable pub declared_sources : Service → List Source
unfolding declared_loop sorted_keys
declared_sources svc = declared_loop svc.environment [] (sorted_keys svc.environment)

unfoldable pub set_database : Bytes → ℕ → List Workload → List Workload
set_database name i [] = []
set_database name zero (w ∷ ws) = record w { database = name } ∷ ws
set_database name (suc i) (w ∷ ws) = w ∷ set_database name i ws

unfoldable pub name_at : ℕ → List Workload → Bytes
name_at i [] = []
name_at zero (w ∷ ws) = w.meta.name
name_at (suc i) (w ∷ ws) = name_at i ws

pointed_note : Bytes → Bytes → Note
unfolding text
pointed_note workload database = record {
  service = workload;
  field = text "database";
  detail =
      text "pointed at "
      ++ (database
          ++ text
              ", so it receives POSTGRES_USER, POSTGRES_PASSWORD, POSTGRES_DB, DB_HOST and DB_PORT. A template that builds its own connection string from those has to be given one built from these names instead");
}

several_note : List Bytes → Note
unfolding text join
several_note names = record {
  service = [];
  field = text "database";
  detail =
      text "more than one database ("
      ++ (join (text ", ") names
          ++ text "); compose does not say which service uses which, so none was attached");
}

unfoldable pub link : ℕ → Conversion → List Database → Conversion
unfolding set_database name_at pointed_note several_note
link front res [] = res
link front res (db ∷ []) = record res {
  workloads = set_database db.meta.name front res.workloads;
  notes = res.notes ++ (pointed_note (name_at front res.workloads) db.meta.name ∷ []);
}
link front res (db ∷ other ∷ rest) = record res {
  notes =
      res.notes ++ (several_note (map (λ (d : Database). d.meta.name) (db ∷ other ∷ rest)) ∷ []);
}

-- linkDatabase
unfoldable pub link_database : ℕ → Conversion → Conversion
unfolding link
link_database front res = link front res res.databases
