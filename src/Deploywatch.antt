-- ===== src/Deploywatch.antt =====
-- internal/deploywatch/deploywatch.go: the observer that moves the record a Deployment names.
pub mod Settled
pub mod Loop
pub mod Sweep
use k8s_lab.Common.{
  String, Bool, true, false, List, [], ◌∷◌, Option, none, some, ◌&&◌, not, ◌==◌, string_eq, nat_eq,
  list_eq, if◌then◌else◌, length, nat_eqb,
}
use k8s_lab.Common.Map.{is_some}
use k8s_lab.Common.Clock.{Time}
use k8s_lab.Common.Result.{Result, ok, err}
use k8s_lab.Evidence
use k8s_lab.Evidence.{
  State, pending, syncing, applied, running, rejected, failed, unknown, conflict, not_found, Image,
  AdmissionOutcome, Transition, Record,
}
use k8s_lab.Evidence.Ids.{ℤ, pos, negsuc}
use k8s_lab.Evidence.Chain.{Hasher}
use k8s_lab.Evidence.Store.{Store, get_record, transition, Refusal}

pub record Condition : Type 0 where
  pub kind : String
  pub status : String
  pub reason : String
  pub message : String

-- What is read of a Deployment. Numbers of the Kubernetes API are compared and nothing else.
pub record Deployment : Type 0 where
  pub rollout : String
  pub generation : ℤ
  pub observed_generation : ℤ
  pub replicas_wanted : Option ℤ
  pub replicas : ℤ
  pub updated_replicas : ℤ
  pub ready_replicas : ℤ
  pub conditions : List Condition
  pub images : List String

abbrev int_eqb : ℤ → ℤ → Bool
int_eqb (pos m) (pos n) = nat_eqb m n
int_eqb (negsuc m) (negsuc n) = nat_eqb m n
int_eqb a b = false

unfoldable pub is_deadline_exceeded : List Condition → Bool
is_deadline_exceeded [] = false
is_deadline_exceeded (c ∷ cs) =
    let rest = is_deadline_exceeded cs in
    if c.kind == "Progressing" && c.reason == "ProgressDeadlineExceeded" then true else rest

unfoldable pub admission_refused : List Condition → Option Condition
admission_refused [] = none
admission_refused (c ∷ cs) =
    let rest = admission_refused cs in
    if c.kind == "ReplicaFailure" && c.status == "True" then some c else rest

abbrev wanted : Deployment → ℤ
wanted d = elim d.replicas_wanted [ none ↦ pos 1 | some n ↦ n ]

-- The state that a Deployment shows, empty where nothing is known yet, and why.
unfoldable pub derive : Deployment → State × String
unfolding is_deadline_exceeded admission_refused
derive d =
    if not (int_eqb d.observed_generation d.generation)
    then ("", "")
    else if int_eqb (wanted d) (pos 0)
    then ("", "")
    else if int_eqb d.updated_replicas (wanted d)
        && (int_eqb d.ready_replicas (wanted d) && int_eqb d.replicas (wanted d))
    then (running, "every replica is updated and ready")
    else elim (admission_refused d.conditions) [
      | some c ↦ (rejected, c.message)
      | none ↦
          if is_deadline_exceeded d.conditions
          then (failed, "the rollout did not complete before its deadline")
          else (applied, "the objects were admitted")
    ]

unfoldable pub allowed_from : State → List State
allowed_from to_state =
    if to_state == applied
    then pending ∷ syncing ∷ unknown ∷ []
    else if to_state == running
    then pending ∷ syncing ∷ applied ∷ unknown ∷ []
    else if to_state == failed
    then pending ∷ syncing ∷ applied ∷ []
    else if to_state == rejected
    then pending ∷ syncing ∷ unknown ∷ []
    else []

unfoldable pub admitted_image : List String → Option Image
admitted_image [] = none
admitted_image (image ∷ rest) =
    let later = admitted_image rest in
    if not (image == "")
    then some (record { requested_ref = image; admitted_digest = "" })
    else later

unfoldable pub admission_outcome : Deployment → State → Option AdmissionOutcome
admission_outcome d state = elim (admission_refused d.conditions) [
  | some c ↦ some (record { allowed = false; reason = c.reason; message = c.message })
  | none ↦
      if state == applied
      then some (record {
        allowed = true;
        reason = "Admitted";
        message = "the objects were admitted and the pods exist";
      })
      else if state == running
      then some (record {
        allowed = true;
        reason = "Admitted";
        message = "the objects were admitted and the pods exist";
      })
      else none
]

-- What the API server answers for the name of a request.
pub data Lookup : Type 0 where
  found : Deployment → Lookup
  absent unreadable : Lookup

-- The error of `Reconcile`: of the API server, or of the evidence store. A result that asks for a
-- requeue answers a conflict of the API server, which no method of this store returns.
pub data Error : Type 0 where
  api : Error
  evidence : Evidence.Error → Error

-- The clock of the observer at its two readings, and of the store.
pub record Clock : Type 0 where
  pub at : Time
  pub seen : Time
  pub stored : Time

abbrev pub move : Clock → Deployment → Record → Transition
move clock d rec = record {
  from_states = allowed_from (derive d).0;
  to_state = (derive d).0;
  at = clock.at;
  reason = (derive d).1;
  observation = record {
    source = "workload.status";
    application_uid = "";
    history_id = none;
    revision = "";
    operation_phase = "";
    at = clock.seen;
  };
  expect_events = some (pos (length rec.transitions));
  admission = admission_outcome d (derive d).0;
  image = admitted_image d.images;
}

abbrev ignore_conflict : Result Refusal Record → Result Error (Unit {0})
ignore_conflict (ok rec) = ok tt
ignore_conflict (err (conflict, rec)) = ok tt
ignore_conflict (err (e, rec)) = err (evidence e)

unfoldable pub reconcile : Hasher → Clock → Lookup → Store → Result Error (Unit {0}) × Store
unfolding derive allowed_from admission_outcome admitted_image
reconcile h clock absent s = (ok tt, s)
reconcile h clock unreadable s = (err api, s)
reconcile h clock (found d) s =
    if d.rollout == "" then (ok tt, s) else elim (get_record d.rollout s) [
      | err not_found ↦ (ok tt, s)
      | err e ↦ (err (evidence e), s)
      | ok rec ↦
          if (derive d).0 == ""
          then (ok tt, s)
          else if rec.state == (derive d).0
          then (ok tt, s)
          else if allowed_from (derive d).0 == []
          then (ok tt, s)
          else (let (answer, after) = transition h clock.stored rec.id (move clock d rec) s in
              (ignore_conflict answer, after))
    ]
