-- ===== src/Evidence.antt =====
-- evidence/evidence.go: what a record of a deploy holds, and what a store of them is asked.
pub mod Ids
pub mod Chain
pub mod Store
pub mod Reads
pub mod Consistent
pub mod Fences
pub mod Races
pub mod Idempotency
pub mod Links
pub mod Audit
pub mod Proofs
pub mod Breaks
pub mod Current
pub mod Pruning
pub mod Retained
pub mod Learned
use k8s_lab.Common.{
  String, Bool, List, ℕ, ◌≡◌, Option, ◌&&◌, true, ap, ◌↔◌, Comparable, ◌==◌, string_eq, eq_iff,
  arith,
}
use k8s_lab.Common.Clock.{Time}
use Ids.{ℤ}

pub data Error : Type 0 where
  not_found conflict duplicate invalid no_key : Error

pub record Ref : Type 0 where
  pub tenant_id : String
  pub app : String
  pub env : String

abbrev pub ref_eqb : Ref → Ref → Bool
ref_eqb a b = a.tenant_id == b.tenant_id && (a.app == b.app && a.env == b.env)

ref_of : String → String → String → Ref
ref_of t a e = record { tenant_id = t; app = a; env = e }

ref-ext : (a b : Ref) → a.tenant_id ≡ b.tenant_id → a.app ≡ b.app → a.env ≡ b.env → a ≡ b
unfolding ref_of
ref-ext a b t p e =
    let same : ref_of a.tenant_id a.app a.env ≡ ref_of b.tenant_id b.app b.env = cc in same

pub ref_eqb_iff : (a b : Ref) → (ref_eqb a b ≡ true) ↔ (a ≡ b)
ref_eqb_iff a b = (
  λ h.
      ref-ext a b (ground (arith, eq_iff a.tenant_id b.tenant_id))
        (ground (arith, eq_iff a.app b.app)) (ground (arith, eq_iff a.env b.env)),
  λ e. ground (
    arith,
    ap (λ (r : Ref). r.tenant_id) e,
    ap (λ (r : Ref). r.app) e,
    ap (λ (r : Ref). r.env) e,
    eq_iff a.tenant_id b.tenant_id,
    eq_iff a.app b.app,
    eq_iff a.env b.env,
  ),
)

instance abbrev pub ref_eq : Comparable Ref
ref_eq = record { equals = ref_eqb; equals_iff = ref_eqb_iff }

abbrev pub State : Type 0
State = String

abbrev pub pending : State
pending = "pending"

abbrev pub syncing : State
syncing = "syncing"

abbrev pub applied : State
applied = "applied"

abbrev pub running : State
running = "running"

abbrev pub rejected : State
rejected = "rejected"

abbrev pub failed : State
failed = "failed"

abbrev pub unknown : State
unknown = "unknown"

pub record Actor : Type 0 where
  pub id : String
  pub kind : String
  pub display_name : String
  pub email : String

pub record Source : Type 0 where
  pub repo_url : String
  pub ref : String
  pub path : String
  pub commit_sha : String
  pub author_email : String
  pub committer_email : String

pub record Image : Type 0 where
  pub requested_ref : String
  pub admitted_digest : String

pub record AdmissionOutcome : Type 0 where
  pub allowed : Bool
  pub reason : String
  pub message : String

pub record Observation : Type 0 where
  pub source : String
  pub application_uid : String
  pub history_id : Option ℤ
  pub revision : String
  pub operation_phase : String
  pub at : Time

-- A hash is a list of bytes, and the empty list is `nil`.
abbrev pub Hash : Type 0
Hash = List ℕ

pub record Event : Type 0 where
  pub from_state : State
  pub to_state : State
  pub at : Time
  pub reason : String
  pub observation : Observation
  pub prev_hash : Hash
  pub hash : Hash

pub record Record : Type 0 where
  pub idempotency_key : String
  pub ref : Ref
  pub actor : Actor
  pub source : Source
  pub image : Image
  pub admission : AdmissionOutcome
  pub note : String
  pub id : String
  pub seq : ℕ
  pub state : State
  pub initial_state : State
  pub created_at : Time
  pub updated_at : Time
  pub transitions : List Event
  pub prev_hash : Hash
  pub hash : Hash

pub record Transition : Type 0 where
  pub from_states : List State
  pub to_state : State
  pub at : Time
  pub reason : String
  pub observation : Observation
  pub expect_events : Option ℤ
  pub admission : Option AdmissionOutcome
  pub image : Option Image

pub data Order : Type 0 where
  newest oldest : Order

pub record Query : Type 0 where
  pub ref : Ref
  pub states : List State
  pub since : Time
  pub until : Time
  pub limit : ℤ
  pub after : String
  pub order : Order

pub record Page : Type 0 where
  pub records : List Record
  pub next : String

-- `checked_at` and the anchors, which no store fills, are left out.
pub record Proof : Type 0 where
  pub ref : Ref
  pub from_seq : ℕ
  pub to_seq : ℕ
  pub records : ℕ
  pub valid : Bool
  pub broken_at : ℕ
  pub root_hash : Hash

pub record PruneResult : Type 0 where
  pub examined : ℕ
  pub deleted : ℕ
  pub oldest : Time
