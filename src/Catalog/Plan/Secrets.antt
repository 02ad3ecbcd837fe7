-- ===== src/Catalog/Plan/Secrets.antt =====
-- attachSecrets and ownedByDatabase of catalog/plan.go.
use k8s_lab.Common.{List, [], ◌∷◌, ◌++◌, ◌==◌, nat_eq, list_eq, if◌then◌else◌, length, keep, any}
use k8s_lab.Common.Bytes.{Bytes, text, precedes, join}
use k8s_lab.Common.Map.{Map, put, values}
use k8s_lab.Common.Sort.{sort_by}
use k8s_lab.Compose.{Source, Generated, Workload, Conversion}
use k8s_lab.Catalog.Plan.{Key, Secret, Blocker}

-- ownedByDatabase
unfoldable pub owned_by_database : List Source → List Source → List Bytes
unfolding any
owned_by_database [] owned = []
owned_by_database (w ∷ want) owned =
    let rest = owned_by_database want owned in
    if any (λ (o : Source). o.name == w.name) owned then w.name ∷ rest else rest

owned_detail : List Bytes → Bytes
unfolding text join
owned_detail owned =
    text "is built from "
    ++ (join (text " and ") owned
        ++ text
            ", which belong to the database this template runs. The platform publishes those as POSTGRES_USER, POSTGRES_PASSWORD, POSTGRES_DB, DB_HOST and DB_PORT, and cannot assemble them into one string for an application that only reads one")

unfoldable pub owned_blocker : Bytes → Bytes → List Bytes → Blocker
unfolding owned_detail
owned_blocker object field owned = record {
  object = object;
  field = field;
  detail = owned_detail owned;
}

-- mint[s.Name] = s for each
unfoldable pub mint_all : List Source → Map Bytes Source → Map Bytes Source
unfolding put
mint_all [] m = m
mint_all (s ∷ ss) m = mint_all ss (put s.name s m)

-- What the loop over the requests of one workload has collected: its keys, what is to be minted,
-- and the blockers.
pub record Asked : Type 0 where
  pub keys : List Key
  pub mint : Map Bytes Source
  pub blockers : List Blocker

unfoldable pub ask : Bytes → List Source → Asked → Generated → Asked
unfolding owned_by_database owned_blocker mint_all
ask object database_sources acc g =
    if length (owned_by_database g.sources database_sources) == 0
    then record acc {
      keys = acc.keys ++ (record { name = g.key; template = g.value; sources = g.sources } ∷ []);
      mint = mint_all g.sources acc.mint;
    }
    else record acc {
      blockers =
          acc.blockers
          ++ (owned_blocker object g.key (owned_by_database g.sources database_sources) ∷ []);
    }

unfoldable pub ask_all : Bytes → List Source → Asked → List Generated → Asked
unfolding ask
ask_all object database_sources acc [] = acc
ask_all object database_sources acc (g ∷ gs) =
    ask_all object database_sources (ask object database_sources acc g) gs

-- The requests of a workload, found by its annotation.
unfoldable pub asked_of : List Generated → Workload → List Generated
unfolding keep
asked_of generated w = keep (λ (g : Generated). g.service == w.meta.compose_service) generated

unfoldable pub secret_name : Workload → Bytes
unfolding text
secret_name w = w.meta.name ++ text "-env"

unfoldable pub secret_of : Workload → List Key → Secret
unfolding sort_by precedes secret_name
secret_of w keys = record {
  name = secret_name w;
  namespace = w.meta.namespace;
  keys = sort_by (λ (a b : Key). precedes a.name b.name) keys;
}

pub record Attached : Type 0 where
  pub workloads : List Workload
  pub secrets : List Secret
  pub mint : Map Bytes Source
  pub blockers : List Blocker

-- The end of a round of the loop over the workloads.
unfoldable pub attach_keys : Workload → Attached → Asked → Attached
unfolding secret_of
attach_keys w acc asked = elim (asked.keys) [
  | [] ↦ record acc {
    workloads = acc.workloads ++ (w ∷ []);
    mint = asked.mint;
    blockers = asked.blockers;
  }
  | k ∷ ks ↦ record {
    workloads =
        acc.workloads
        ++ (record w { env_from = w.env_from ++ ((secret_of w (k ∷ ks)).name ∷ []) } ∷ []);
    secrets = acc.secrets ++ (secret_of w (k ∷ ks) ∷ []);
    mint = asked.mint;
    blockers = asked.blockers;
  }
]

unfoldable pub attach_one : Conversion → Attached → Workload → Attached
unfolding attach_keys ask_all asked_of
attach_one res acc w = attach_keys w acc (
    ask_all w.meta.name res.database_sources
      (record { keys = []; mint = acc.mint; blockers = acc.blockers }) (asked_of res.generated w))

unfoldable pub attach_secrets : Conversion → Attached → List Workload → Attached
unfolding attach_one
attach_secrets res acc [] = acc
attach_secrets res acc (w ∷ ws) = attach_secrets res (attach_one res acc w) ws

unfoldable pub sorted_sources : Map Bytes Source → List Source
unfolding sort_by precedes values
sorted_sources m = sort_by (λ (a b : Source). precedes a.name b.name) (values m)

abbrev pub nothing_attached : Attached
nothing_attached = record { workloads = []; secrets = []; mint = []; blockers = [] }
