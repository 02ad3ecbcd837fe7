-- ===== src/Compose/Workloads.antt =====
-- compose/convert.go, `asWorkload`: the Workload of one service, what has to be generated for it,
-- and the notes on what does not convert.
pub mod Volumes
pub mod HealthPorts
pub mod Environments
use k8s_lab.Common.{
  Bool, true, false, ℕ, suc, List, [], ◌∷◌, ◌++◌, Option, none, some, ◌||◌, ◌&&◌, not, ◌==◌, nat_eq,
  list_eq, if◌then◌else◌, length, leb, map, String,
}
use k8s_lab.Common.Bytes.{Bytes, text, precedes}
use k8s_lab.Common.Int.{ℤ, pos, negsuc}
use k8s_lab.Common.Map.{Map, get, entries}
use k8s_lab.Common.Sort.{sort_by}
use k8s_lab.Evidence.Ids.{show}
use k8s_lab.Compose.{
  Service, Template, VolumeSpec, HealthCheck, Generated, Note, Options, EnvVar, Volume, ObjectMeta,
  Workload, Quantity, Runtime,
}
use k8s_lab.Compose.Variables.{is_magic, is_url}
use k8s_lab.Compose.Interpolation.{
  literal, literal_except_sources, refers, source_of, sources, placeholder,
}
use k8s_lab.Compose.Names.{object_name}
use k8s_lab.Compose.Ports.{container_port, health_port, http_path}
use k8s_lab.Compose.Siblings.{Verdict, judge, repoint_env, repoint_generated, sibling_notes}

-- Note.String
unfoldable pub note_text : Note → Bytes
unfolding text
note_text n =
    if n.service == []
    then n.field ++ (text ": " ++ n.detail)
    else n.service ++ (b'.' ∷ (n.field ++ (text ": " ++ n.detail)))

unfoldable pub sort_notes : List Note → List Note
unfolding sort_by precedes note_text
sort_notes = sort_by (λ a b. precedes (note_text a) (note_text b))

-- The keys of a map, sorted.
unfoldable pub sorted_keys : {V : Type 0} → Map Bytes V → List Bytes
unfolding sort_by precedes entries
sorted_keys m = sort_by precedes (map (λ x. x.0) (entries m))

-- m[k], empty where it is not there
unfoldable pub value_of : Bytes → Map Bytes Bytes → Bytes
unfolding get
value_of k m = elim (get k m) [ none ↦ [] | some v ↦ v ]

abbrev say : Bytes → String → String → Note
say service field detail = record { service = service; field = text field; detail = text detail }

-- The switch on the port: the port, and a note.
abbrev pub positive : ℤ → Bool
positive (pos n) = not (n == 0)
positive (negsuc n) = false

unfoldable pub port_choice : ℤ → Bytes → Service → Bool → ℤ × List Note
unfolding container_port health_port show text
port_choice port name svc is_primary =
    if is_primary && positive port then (port, []) else elim (container_port svc.ports) [
      | some p ↦ (p, [])
      | none ↦ elim (health_port svc.health_check) [
        | some p ↦ (
          p,
          record {
            service = name;
            field = text "port";
            detail =
                text "no published port; "
                ++ (text (show p) ++ text " taken from the healthcheck URL");
          }
              ∷ [],
        )
        | none ↦ (
          pos 0,
          say name "port"
                "no port declared anywhere; the API's default of 8080 will be used and is probably wrong"
              ∷ [],
        )
      ]
    ]

-- What the loop over the environment has produced so far.
pub record Environment : Type 0 where
  pub env : List EnvVar
  pub generated : List Generated
  pub notes : List Note

abbrev asks_for_url : Bytes → Bytes → Bool
asks_for_url k v = is_url k || refers is_url v

unfoldable pub url_note : Bytes → Bytes → Note
unfolding text
url_note name k = record {
  service = name;
  field = k;
  detail =
      text "expects the platform to supply its own public URL; set it once the domain is known";
}

unfoldable pub environment_step : Bytes → Environment → Bytes → Bytes → Environment
unfolding is_magic is_url refers sources literal_except_sources literal placeholder url_note
environment_step name acc k v =
    if v == [] && is_magic k
    then record acc {
      generated =
          acc.generated
          ++ (record { service = name; key = k; sources = source_of k ∷ []; value = placeholder k }
              ∷ []);
    }
    else if asks_for_url k v
    then record acc { notes = acc.notes ++ (url_note name k ∷ []) }
    else if not (length (sources v) == 0)
    then record acc {
      generated =
          acc.generated
          ++ (record {
            service = name;
            key = k;
            sources = sources v;
            value = literal_except_sources v;
          }
              ∷ []);
    }
    else record acc { env = acc.env ++ (record { name = k; value = literal v } ∷ []) }

unfoldable pub environment_loop : Bytes → Map Bytes Bytes → Environment → List Bytes → Environment
unfolding environment_step value_of
environment_loop name m acc [] = acc
environment_loop name m acc (k ∷ ks) =
    environment_loop name m (environment_step name acc k (value_of k m)) ks

abbrev pub no_environment : Environment
no_environment = record { env = []; generated = []; notes = [] }

unfoldable pub read_environment : Bytes → Map Bytes Bytes → Environment
unfolding environment_loop sorted_keys
read_environment name m = environment_loop name m no_environment (sorted_keys m)

unfoldable pub volume_note : Bytes → Bytes → Note
unfolding text
volume_note name detail = record { service = name; field = text "volumes"; detail = detail }

unfoldable pub bind_note : Bytes → VolumeSpec → Note
unfolding volume_note
bind_note name v = volume_note name (
    v.source
    ++ text
        " is a bind mount from the host; there is no host to bind to. Put the contents in the image, or mount a volume and write them there")

-- The bytes 226, 128 and 148 are a dash.
unfoldable pub claimed_note : Bytes → Quantity → VolumeSpec → Note
unfolding volume_note
claimed_note name size v = volume_note name (
    v.source
    ++ (text " claimed at "
        ++ (size
            ++ (32
                ∷ 226
                ∷ 128
                ∷ 148
                ∷ text
                    " compose declares no size, so this is a number this platform chose and a claim cannot be shrunk"))))

unfoldable pub volume_step :
    Runtime → Bytes → Quantity → List Volume × List Note → VolumeSpec → List Volume × List Note
unfolding bind_note claimed_note volume_note object_name text
volume_step go name size acc v =
    if v.bind
    then (acc.0, acc.1 ++ (bind_note name v ∷ []))
    else if v.target == []
    then (acc.0, acc.1 ++ (volume_note name (v.source ++ text " has no target path") ∷ []))
    else if leb 8 (length acc.0)
    then (
      acc.0,
      acc.1
          ++ (volume_note name (v.source ++ text " dropped: a workload may declare eight volumes")
              ∷ []),
    )
    else (
      acc.0 ++ (record { name = object_name go v.source; path = v.target; size = size } ∷ []),
      acc.1 ++ (claimed_note name size v ∷ []),
    )

unfoldable pub volume_loop :
    Runtime → Bytes → Quantity → List Volume × List Note → List VolumeSpec → List Volume × List Note
unfolding volume_step
volume_loop go name size acc [] = acc
volume_loop go name size acc (v ∷ vs) = volume_loop go name size (volume_step go name size acc v) vs

-- The probe path, and a note.
unfoldable pub probe : Bytes → Option HealthCheck → Bytes × List Note
unfolding http_path text
probe name none = ([], [])
probe name (some hc) = elim (http_path hc) [
  | some path ↦ (path, [])
  | none ↦ (
    [],
    say name "healthcheck"
          "not an HTTP request, so no probe path could be taken from it; the API's defaults will be used"
        ∷ [],
  )
]

abbrev when : Bool → Note → List Note
when present note = if present then note ∷ [] else []

abbrev some_of {ℓ} : {A : Type ℓ} → List A → Bool
some_of [] = false
some_of (x ∷ xs) = true

-- Everything that has nowhere to go.
unfoldable pub unsupported_notes : Bytes → Service → List Note
unfolding text
unsupported_notes name svc =
    when (some_of svc.command) (
      say name "command"
        "overrides the image's command; the platform runs images as built. Build an image that does what the command did")
    ++ (when (some_of svc.entrypoint) (
          say name "entrypoint"
            "overrides the image's entrypoint; the platform runs images as built")
        ++ (when (some_of svc.user) (
              say name "user"
                "runs as a specific uid; every pod here runs as a non-root uid the platform chooses")
            ++ (when (some_of svc.cap_add) (
                  say name "cap_add"
                    "asks for Linux capabilities; pods here drop all of them and there is no field to keep one")
                ++ (when (some_of svc.network_mode) (
                      say name "network_mode"
                        "shares another container's network; each workload gets its own address")
                    ++ (when (some_of svc.security_opt) (
                          say name "security_opt"
                            "changes the container's confinement; the platform sets that and offers no override")
                        ++ (when (some_of svc.ulimits) (
                              say name "ulimits"
                                "sets process limits; not expressible, and usually a symptom of a container that should be built differently")
                            ++ when (some_of svc.depends_on) (
                                say name "depends_on"
                                  "declares start order; Kubernetes restarts until dependencies answer instead. Usually harmless, occasionally a slow first start")))))))

unfoldable pub object_meta : Runtime → Bytes → Bytes → Options → ObjectMeta
unfolding object_name
object_meta go template name o = record {
  name = object_name go (template ++ (b'-' ∷ name));
  namespace = o.namespace;
  from_compose = template;
  compose_service = name;
}

-- What is read of a template: its name, its port, whether it has one service, and what becomes of
-- a host that a value of the service addresses.
unfoldable pub workload_from :
    Runtime
    → Bytes
    → ℤ
    → Bool
    → (Bytes → Verdict)
    → Bytes
    → Service
    → Options
    → Bool
    → Workload × List Note × List Generated
unfolding object_meta port_choice read_environment repoint_env repoint_generated sibling_notes
    volume_loop probe unsupported_notes sort_notes object_name
workload_from go template template_port is_single verdict name svc o is_primary =
    let meta = object_meta go template name o in
    let port = port_choice template_port name svc is_primary in
    let found = read_environment name svc.environment in
    let volumes = volume_loop go name o.volume_size ([], []) svc.volumes in
    let health = probe name svc.health_check in
    (
      record {
        meta = record meta { name = (if is_single then object_name go template else meta.name) };
        image = svc.image;
        port = port.0;
        domain = (if is_primary && not (o.domain == []) then o.domain else []);
        env = repoint_env verdict found.env;
        env_from = [];
        volumes = volumes.0;
        liveness_path = health.0;
        readiness_path = health.0;
        database = [];
      },
      sort_notes (
          port.1
          ++ (found.notes
              ++ (sibling_notes verdict go name found.env found.generated
                  ++ (volumes.1 ++ (health.1 ++ unsupported_notes name svc))))),
      repoint_generated verdict found.generated,
    )

-- asWorkload
unfoldable pub as_workload :
    Runtime → Template → Bytes → Service → Options → Bytes → Workload × List Note × List Generated
unfolding workload_from judge entries
as_workload go t name svc o primary =
    workload_from go t.name t.port (length (entries t.services) == 1) (judge go t name primary) name
      svc o (name == primary)
