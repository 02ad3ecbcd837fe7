-- ===== src/Catalog/Plan.antt =====
-- catalog/plan.go: what installing an entry produces, and every reason not to.
pub mod Secrets
pub mod Images
pub mod Listening
pub mod Made
pub mod Acceptable
pub mod Accepted
pub mod Mint
pub mod Minted
pub mod Met
pub mod Pinned
use k8s_lab.Common.{
  Bool, true, false, ℕ, List, [], ◌∷◌, ◌++◌, Option, none, some, ◌||◌, ◌&&◌, not, ◌==◌, nat_eq,
  list_eq, if◌then◌else◌, length, keep, any, map,
}
use k8s_lab.Common.Bytes.{Bytes, text, precedes, join, has_suffix, has_infix, last_field}
use k8s_lab.Common.Int.{ℤ, pos, negsuc}
use k8s_lab.Common.Map.{Map, get, put, values}
use k8s_lab.Common.Sort.{sort_by}
use k8s_lab.Common.Result.{Result, ok, err}
use k8s_lab.Evidence.Ids.{show}
use k8s_lab.Compose.{Source, Generated, Note, Workload, Database, Conversion, Runtime, Quantity}
use k8s_lab.Compose
use k8s_lab.Compose.Convert
use k8s_lab.Catalog.{Entry, Catalog, get_entry}

pub record Key : Type 0 where
  pub name : Bytes
  pub template : Bytes
  pub sources : List Source

pub record Secret : Type 0 where
  pub name : Bytes
  pub namespace : Bytes
  pub keys : List Key

pub record Blocker : Type 0 where
  pub object : Bytes
  pub field : Bytes
  pub detail : Bytes

-- `Pin` and `Ports` ask a registry, which answers or fails with a text; the answer is taken to
-- depend on the image alone. `none` is a nil function.
abbrev pub Pin : Type 0
Pin = Option (Bytes → Result Bytes Bytes)

abbrev pub Ports : Type 0
Ports = Option (Bytes → Result Bytes (List ℤ))

pub record Options : Type 0 where
  pub namespace : Bytes
  pub domain : Bytes
  pub volume_size : Quantity
  pub pin : Pin
  pub ports : Ports

pub record Plan : Type 0 where
  pub entry : Entry
  pub namespace : Bytes
  pub workloads : List Workload
  pub databases : List Database
  pub primary : ℕ
  pub secrets : List Secret
  pub mint : List Source
  pub notes : List Note
  pub blockers : List Blocker

-- Installable of a Plan
unfoldable pub is_installable : Plan → Bool
is_installable p = length p.blockers == 0
