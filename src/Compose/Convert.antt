-- ===== src/Compose/Convert.antt =====
-- compose/convert.go, `Convert` and `primaryService`.
pub mod Coverage
pub mod Front
pub mod Stable
use k8s_lab.Common.{
  Bool, true, false, ℕ, List, [], ◌∷◌, ◌++◌, Option, none, some, ◌||◌, ◌&&◌, not, ◌==◌, nat_eq,
  list_eq, if◌then◌else◌, length, any,
}
use k8s_lab.Common.Bytes.{Bytes, text, has_infix, join}
use k8s_lab.Common.Int.{ℤ, pos, negsuc}
use k8s_lab.Common.Map.{get}
use k8s_lab.Common.Result.{Result, ok, err}
use k8s_lab.Evidence.Ids.{show}
use k8s_lab.Compose.{
  Service, Template, HealthCheck, Note, Options, Workload, Database, Generated, Conversion, Runtime,
}
use k8s_lab.Compose.Interpolation.{image_defaults}
use k8s_lab.Compose.Workloads.{as_workload, sorted_keys}
use k8s_lab.Compose.Databases.{as_database, declared_sources, link_database}

-- The two errors of `Convert`, and a panic: `sorted[0]` of no names.
pub data Error : Type 0 where
  no_namespace nothing_to_run out_of_range : Error

abbrev pub zero_service : Service
zero_service = record {
  image = [];
  environment = [];
  volumes = [];
  ports = [];
  health_check = none;
  depends_on = [];
  command = [];
  entrypoint = [];
  user = [];
  cap_add = [];
  network_mode = [];
  security_opt = [];
  ulimits = [];
}

-- t.Services[name]
unfoldable pub service_of : Template → Bytes → Service
unfolding get
service_of t name = elim (get name t.services) [ none ↦ zero_service | some svc ↦ svc ]

mentions : Bytes → Option HealthCheck → Bool
unfolding has_infix join
mentions want none = false
mentions want (some hc) = has_infix want (join (b' ' ∷ []) hc.test)

-- The loop of `primaryService`: the first service with the port.
unfoldable pub with_port : Template → Bytes → List Bytes → Option Bytes
unfolding mentions has_infix any service_of
with_port t want [] = none
with_port t want (name ∷ names) =
    let rest = with_port t want names in
    if any (has_infix want) (service_of t name).ports
      || mentions want (service_of t name).health_check
    then some name
    else rest

unfoldable pub or_first : Bytes → Option Bytes → Bytes
or_first first none = first
or_first first (some name) = name

unfoldable pub by_port : Template → List Bytes → ℤ → Option Bytes
unfolding with_port show text
by_port t names (negsuc n) = none
by_port t names (pos n) = if n == 0 then none else with_port t (text (show (pos n))) names

-- primaryService, `none` for the panic
unfoldable pub primary_service : Template → List Bytes → Option Bytes
unfolding or_first by_port
primary_service t [] = none
primary_service t (name ∷ []) = some name
primary_service t (name ∷ other ∷ rest) =
    some (or_first name (by_port t (name ∷ other ∷ rest) t.port))

hollow_note : Bytes → Bytes → List Bytes → Note
unfolding text join
hollow_note name image hollow = record {
  service = name;
  field = text "image";
  detail =
      image
      ++ (text " names "
          ++ (join (text ", ") hollow
              ++ text ", which compose has no value for; what is left is not a usable reference"));
}

-- The service with its image resolved, and a note.
unfoldable pub resolve : Bytes → Service → Service × List Note
unfolding image_defaults hollow_note
resolve name svc =
    let found = image_defaults svc.image in
    if found.0 == svc.image then (svc, []) else (
      record svc { image = found.0 },
      if length found.1 == 0 then [] else hollow_note name svc.image found.1 ∷ [],
    )

database_note : Bytes → Note
unfolding text
database_note name = record {
  service = name;
  field = text "image";
  detail =
      text
        "converted to a Database, which brings backups and the restore rehearsal; its compose settings other than the image are not carried over";
}

-- The result of the loop of `Convert` so far; `front` is `none` for -1.
pub record Progress : Type 0 where
  pub res : Conversion
  pub front : Option ℕ

unfoldable pub add_database :
    Bytes → Service → List Note → Progress → Database × List Note → Progress
unfolding declared_sources database_note
add_database name svc notes acc db = record acc {
  res = record acc.res {
    databases = acc.res.databases ++ (db.0 ∷ []);
    database_sources = acc.res.database_sources ++ declared_sources svc;
    notes = acc.res.notes ++ (notes ++ (database_note name ∷ db.1));
  };
}

unfoldable pub add_workload :
    Bytes → Bytes → List Note → Progress → Workload × List Note × List Generated → Progress
add_workload name primary notes acc w = record {
  res = record acc.res {
    workloads = acc.res.workloads ++ (w.0 ∷ []);
    notes = acc.res.notes ++ (notes ++ w.1);
    generated = acc.res.generated ++ w.2;
  };
  front = (if name == primary then some (length acc.res.workloads) else acc.front);
}

-- One round of the loop, with the service that `resolve` answers.
unfoldable pub convert_resolved :
    Runtime → Template → Options → Bytes → Bytes → Progress → Service × List Note → Progress
unfolding as_database as_workload add_database add_workload
convert_resolved go t o primary name acc svc = elim (as_database go t name svc.0 o) [
  | some db ↦ add_database name svc.0 svc.1 acc db
  | none ↦ add_workload name primary svc.1 acc (as_workload go t name svc.0 o primary)
]

unfoldable pub convert_loop :
    Runtime → Template → Options → Bytes → Progress → List Bytes → Progress
unfolding convert_resolved resolve service_of
convert_loop go t o primary acc [] = acc
convert_loop go t o primary acc (name ∷ names) =
    convert_loop go t o primary
      (convert_resolved go t o primary name acc (resolve name (service_of t name))) names

abbrev pub nothing_yet : Progress
nothing_yet = record {
  res = record {
    workloads = [];
    databases = [];
    primary = 0;
    generated = [];
    database_sources = [];
    notes = [];
  };
  front = none;
}

unfoldable pub front_of : Option ℕ → ℕ
front_of none = 0
front_of (some i) = i

-- The end of `Convert`, behind the loop.
unfoldable pub finish : Progress → Result Error Conversion
unfolding front_of link_database
finish acc =
    if length acc.res.workloads == 0
    then err nothing_to_run
    else ok (link_database (front_of acc.front) (record acc.res { primary = front_of acc.front }))

abbrev with_size : Options → Options
with_size o = if o.volume_size == text "0" then record o { volume_size = text "1Gi" } else o

unfoldable pub converted :
    Runtime → Template → Options → List Bytes → Option Bytes → Result Error Conversion
unfolding finish convert_loop text
converted go t o names none = err out_of_range
converted go t o names (some primary) =
    finish (convert_loop go t (with_size o) primary nothing_yet names)

unfoldable pub convert : Runtime → Template → Options → Result Error Conversion
unfolding converted sorted_keys primary_service
convert go t o =
    if o.namespace == []
    then err no_namespace
    else converted go t o (sorted_keys t.services) (primary_service t (sorted_keys t.services))
