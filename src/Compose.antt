-- ===== src/Compose.antt =====
-- compose/compose.go and the types of compose/convert.go: a template, and what it converts to.
-- A service has the fields that `Convert` reads; of `ulimits` only the keys are kept.
pub mod Variables
pub mod Interpolation
pub mod Names
pub mod Ports
pub mod Siblings
pub mod Workloads
pub mod Databases
pub mod Convert
use k8s_lab.Common.{Bool, List, Option, ℕ}
use k8s_lab.Common.Map.{Map}
use k8s_lab.Common.Bytes.{Bytes}
use k8s_lab.Common.Int.{ℤ}

pub record VolumeSpec : Type 0 where
  pub source : Bytes
  pub target : Bytes
  pub bind : Bool

pub record HealthCheck : Type 0 where
  pub test : List Bytes

pub record Service : Type 0 where
  pub image : Bytes
  pub environment : Map Bytes Bytes
  pub volumes : List VolumeSpec
  pub ports : List Bytes
  pub health_check : Option HealthCheck
  pub depends_on : Map Bytes Bytes
  pub command : List Bytes
  pub entrypoint : List Bytes
  pub user : Bytes
  pub cap_add : List Bytes
  pub network_mode : Bytes
  pub security_opt : List Bytes
  pub ulimits : List Bytes

pub record Template : Type 0 where
  pub name : Bytes
  pub slogan : Bytes
  pub documentation : Bytes
  pub category : Bytes
  pub tags : List Bytes
  pub logo : Bytes
  pub ignore : Bool
  pub port : ℤ
  pub services : Map Bytes Service

-- The value to mint, and its kind.
pub record Source : Type 0 where
  pub name : Bytes
  pub kind : Bytes

pub record Generated : Type 0 where
  pub service : Bytes
  pub key : Bytes
  pub sources : List Source
  pub value : Bytes

pub record Note : Type 0 where
  pub service : Bytes
  pub field : Bytes
  pub detail : Bytes

-- A resource.Quantity, by its canonical form.
abbrev pub Quantity : Type 0
Quantity = Bytes

pub record Options : Type 0 where
  pub namespace : Bytes
  pub volume_size : Quantity
  pub domain : Bytes

pub record EnvVar : Type 0 where
  pub name : Bytes
  pub value : Bytes

pub record Volume : Type 0 where
  pub name : Bytes
  pub path : Bytes
  pub size : Quantity

-- The name, the namespace, the one label and the one annotation of an object.
pub record ObjectMeta : Type 0 where
  pub name : Bytes
  pub namespace : Bytes
  pub from_compose : Bytes
  pub compose_service : Bytes

-- A field that `Convert` leaves at its zero value is empty: a port 0, a path "", a database "".
pub record Workload : Type 0 where
  pub meta : ObjectMeta
  pub image : Bytes
  pub port : ℤ
  pub domain : Bytes
  pub env : List EnvVar
  pub env_from : List Bytes
  pub volumes : List Volume
  pub liveness_path : Bytes
  pub readiness_path : Bytes
  pub database : Bytes

pub record Database : Type 0 where
  pub meta : ObjectMeta
  pub image : Bytes
  pub storage : Quantity
  pub database : Bytes
  pub username : Bytes

pub record Conversion : Type 0 where
  pub workloads : List Workload
  pub databases : List Database
  pub primary : ℕ
  pub generated : List Generated
  pub database_sources : List Source
  pub notes : List Note

-- What comes from outside of the repository: strings.ToLower, with the tables of the Unicode
-- standard, and strconv.Quote.
pub record Runtime : Type 0 where
  pub lower : Bytes → Bytes
  pub quote : Bytes → Bytes
