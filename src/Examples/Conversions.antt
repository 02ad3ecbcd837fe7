-- ===== src/Examples/Conversions.antt =====
-- `Convert` of compose/convert.go on a template with an application and its database.
use k8s_lab.Common.{
  List, ◌++◌, leb, Bool, true, false, [], ◌∷◌, ◌≡◌, refl, some, none, map, ◌<◌, length, take, keep,
  not, ◌==◌, list_eq, nat_eq, Memᴰ, get_elem?, if◌then◌else◌, arith,
}
use k8s_lab.Common.Bytes.{Bytes, text, all, atoi}
use k8s_lab.Common.Int.{pos, to_int32}
use k8s_lab.Common.Map.{get}
use k8s_lab.Common.Result.{Result, ok, err}
use k8s_lab.Compose.{VolumeSpec, Service, Template, Options, Conversion, EnvVar, Generated}
use k8s_lab.Compose.Workloads.{as_workload, sorted_keys, url_note}
use k8s_lab.Compose.Workloads.Volumes.{claim, is_claimable, mount_note, volumes_claimed}
use k8s_lab.Compose.Workloads.Environments.{
  of_service, is_plain, is_generated, is_waiting, environment_accounted,
}
use k8s_lab.Compose.Ports.{container_port, is_host_char}
use k8s_lab.Compose.Ports.Range.{url_with}
use k8s_lab.Compose.Workloads.HealthPorts.{health_port_unchecked}
use k8s_lab.Compose.Convert.{Error, zero_service, primary_service, convert}
use k8s_lab.Compose.Convert.Coverage.{
  is_stored, workload_services, database_services, convert_covers,
}
use k8s_lab.Compose.Convert.Front.{primary_is_a_workload}
use k8s_lab.Compose.Convert.Stable.{convert_same}
use k8s_lab.Examples.Templates.{plain_runtime}

abbrev web : Service
web = record zero_service {
  image = text "ghcr.io/x/web:${TAG:-1.2}";
  environment =
      (text "PASSWORD", text "${SERVICE_PASSWORD_WEB}")
      ∷ (text "MODE", text "production")
      ∷ (text "ORIGIN", text "https://${SERVICE_FQDN_WEB}")
      ∷ [];
  volumes =
      record { source = text "uploads"; target = text "/data"; bind = false }
      ∷ record { source = text "/etc"; target = text "/etc"; bind = true }
      ∷ [];
  ports = text "80:8080" ∷ [];
}

abbrev db : Service
db = record zero_service { image = text "postgres:16" }

abbrev blog : Template
blog = record {
  name = text "blog";
  slogan = [];
  documentation = [];
  category = [];
  tags = [];
  logo = [];
  ignore = false;
  port = pos 8080;
  services = (text "web", web) ∷ (text "db", db) ∷ [];
}

abbrev blog_reordered : Template
blog_reordered = record blog { services = (text "db", db) ∷ (text "web", web) ∷ [] }

abbrev options : Options
options = record { namespace = text "prod"; volume_size = text "1Gi"; domain = [] }

abbrev result_of : Result Error Conversion → Conversion
result_of (ok r) = r
result_of (err e) = record {
  workloads = [];
  databases = [];
  primary = 0;
  generated = [];
  database_sources = [];
  notes = [];
}

abbrev result : Conversion
result = result_of (convert plain_runtime blog options)

converts : convert plain_runtime blog options ≡ ok result
unfolding convert text
converts = refl

convert_covers_example :
    (workload_services result
      ≡ keep (λ name. not (is_stored blog name)) (sorted_keys blog.services))
    × (database_services result ≡ keep (is_stored blog) (sorted_keys blog.services))
convert_covers_example = convert_covers plain_runtime blog options result converts

primary_is_a_workload_example :
    (result.primary < length result.workloads)
    × ((p : Bytes)
        → primary_service blog (sorted_keys blog.services) ≡ some p
        → is_stored blog p ≡ false
        → get_elem? (workload_services result) result.primary ≡ some p)
primary_is_a_workload_example = primary_is_a_workload plain_runtime blog options result converts

environment_accounted_example :
    let out = as_workload plain_runtime blog (text "web") web options (text "web") in
    let keys = sorted_keys web.environment in
    (map (λ (e : EnvVar). e.name) out.0.env ≡ keep (of_service is_plain web) keys)
    × (map (λ (g : Generated). g.key) out.2 ≡ keep (of_service is_generated web) keys)
    × ((k : Bytes)
        → Memᴰ k keys
        → of_service is_waiting web k ≡ true
        → Memᴰ (url_note (text "web") k) out.1)
environment_accounted_example =
    environment_accounted plain_runtime blog (text "web") web options (text "web")

volumes_claimed_example :
    let out = as_workload plain_runtime blog (text "web") web options (text "web") in
    (out.0.volumes
      ≡ map (claim plain_runtime options.volume_size) (take 8 (keep is_claimable web.volumes)))
    × ((us : List VolumeSpec) (v : VolumeSpec) (vs : List VolumeSpec)
        → web.volumes ≡ us ++ (v ∷ vs)
        → Memᴰ
            (mount_note (text "web") options.volume_size (leb 8 (length (keep is_claimable us))) v)
            out.1)
volumes_claimed_example = volumes_claimed plain_runtime blog (text "web") web options (text "web")

services_agree : (k : Bytes) → get k blog.services ≡ get k blog_reordered.services
unfolding get text
services_agree k = two_orders (text "web" == k) (text "db" == k) (one_name k)
  where
    one_name : (k : Bytes) → (text "web" == k) ≡ true → (text "db" == k) ≡ false
    one_name k h = ground arith

    two_orders :
        (a b : Bool)
        → (a ≡ true → b ≡ false)
        → (if a then some web else if b then some db else none)
          ≡ (if b then some db else if a then some web else none)
    two_orders true true h = absurd (ground arith)
    two_orders true false h = refl
    two_orders false true h = refl
    two_orders false false h = refl

convert_same_example :
    convert plain_runtime blog options ≡ convert plain_runtime blog_reordered options
convert_same_example =
    convert_same plain_runtime blog blog_reordered
      (record { name = refl; port = refl; services = services_agree }) options

-- A service that publishes nothing and is asked for its health at a port past 65535.
abbrev probed : Service
probed = record web { ports = []; health_check = some (url_with (text "70000")) }

unpublished : container_port probed.ports ≡ none
unfolding container_port
unpublished = refl

numeral : atoi (text "70000") ≡ some (pos 70000)
unfolding atoi text
numeral = refl

host_chars : all is_host_char (text "70000") ≡ true
unfolding all text
host_chars = refl

health_port_unchecked_example :
    (as_workload plain_runtime blog (text "web") probed options (text "db")).0.port
    ≡ to_int32 (pos 70000)
unfolding text
health_port_unchecked_example =
    health_port_unchecked plain_runtime blog (text "web") probed options (text "db") (text "70000")
      (pos 70000) refl unpublished refl host_chars numeral
