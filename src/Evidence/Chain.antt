-- ===== src/Evidence/Chain.antt =====
-- evidence/chain.go: the links of the hash chain. SHA-256 and `json.Marshal` are parameters.
use k8s_lab.Common.{String, List, [], ℕ, ◌++◌}
use k8s_lab.Common.Clock.{Time, truncate_us}
use k8s_lab.Evidence.{
  Ref, Actor, Source, Image, AdmissionOutcome, State, Hash, Record, Event, Observation,
}

-- What of a record is chained.
pub record ChainedRecord : Type 0 where
  pub idempotency_key : String
  pub id : String
  pub seq : ℕ
  pub ref : Ref
  pub actor : Actor
  pub source : Source
  pub image : Image
  pub admission : AdmissionOutcome
  pub note : String
  pub initial_state : State
  pub created_at : Time

pub data Payload : Type 0 where
  of_record : ChainedRecord → Payload
  of_event : String → Event → Payload

pub record Hasher : Type 0 where
  pub sum256 : List ℕ → Hash
  pub marshal : Payload → List ℕ

abbrev pub canonical_observation : Observation → Observation
canonical_observation o = record o { at = truncate_us o.at }

module _ (h : Hasher) where
  -- The panic on a payload that is not marshalled (a year past 9999) is left out.
  unfoldable pub link : Hash → Payload → Hash
  link prev payload = h.sum256 (prev ++ h.marshal payload)

  abbrev pub chained : Record → ChainedRecord
  chained r = record {
    idempotency_key = r.idempotency_key;
    id = r.id;
    seq = r.seq;
    ref = r.ref;
    actor = r.actor;
    source = r.source;
    image = r.image;
    admission = r.admission;
    note = r.note;
    initial_state = r.initial_state;
    created_at = truncate_us r.created_at;
  }

  unfoldable pub chain_record : Hash → Record → Hash
  chain_record prev r = link prev (of_record (chained r))

  abbrev pub chained_event : Event → Event
  chained_event e = record e {
    prev_hash = [];
    hash = [];
    at = truncate_us e.at;
    observation = canonical_observation e.observation;
  }

  unfoldable pub chain_event : Hash → String → Event → Hash
  chain_event prev record_id e = link prev (of_event record_id (chained_event e))
