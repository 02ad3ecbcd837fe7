-- ===== src/Examples/Deploys.antt =====
-- evidence/memory/memory.go with the deploys of one app.
use k8s_lab.Common.{
  String, true, false, suc, [], ◌∷◌, ◌≡◌, ◌↔◌, refl, arith, eq_iff, if◌then◌else◌, ◌==◌, string_eq,
  list_eq, nat_eq, none, some, keep, contains, length,
}
use k8s_lab.Common.Clock.{truncate_us}
use k8s_lab.Common.Result.{ok, err, is_err}
use k8s_lab.Common.Map.{get, put, delete}
use k8s_lab.Evidence.{Ref, ref_eq, Record, Transition, pending, running, conflict, duplicate}
use k8s_lab.Evidence.Ids.{pos, id_of, show}
use k8s_lab.Evidence.Chain.{Hasher, of_record, of_event, link, chain_record, chain_event}
use k8s_lab.Evidence.Store.{
  Store, new, append, appended, transition, moved, event_of, is_elsewhere, is_stale, get_record,
}
use k8s_lab.Evidence.Reads.{
  records_of, is_chained, verify, history, fill, is_match, limit_of, after_cursor, check_records,
  newest_of, current,
}
use k8s_lab.Evidence.Consistent.{IsConsistent, new-IsConsistent}
use k8s_lab.Evidence.Fences.{IsAccepted, transition_exact}
use k8s_lab.Evidence.Races.{appends, transitions, step, run, run-IsConsistent, stale_writer_loses}
use k8s_lab.Evidence.Idempotency.{append_once}
use k8s_lab.Evidence.Proofs.{IsFull}

abbrev pub api : Ref
api = record { tenant_id = "t1"; app = "api"; env = "prod" }

pub api-IsFull : IsFull api
api-IsFull = (
  λ e. ground (arith, eq_iff "t1" ""),
  λ e. ground (arith, eq_iff "api" ""),
  λ e. ground (arith, eq_iff "prod" ""),
)

-- A hash that keeps what it hashes, and a form of a record that tells whether it has an image.
abbrev pub hasher : Hasher
hasher = record {
  sum256 = λ bytes. bytes;
  marshal = λ payload. elim payload [
    | of_record c ↦ (if c.image.requested_ref == "" then 0 else 1) ∷ c.seq ∷ []
    | of_event id e ↦ 2 ∷ []
  ];
}

abbrev pub deploy : String → Record
deploy key = record {
  idempotency_key = key;
  ref = api;
  actor = record { id = "a1"; kind = "user"; display_name = "Ada"; email = "ada@acme.test" };
  source = record {
    repo_url = "https://git.test/acme/apps";
    ref = "main";
    path = "apps/prod";
    commit_sha = key;
    author_email = "";
    committer_email = "";
  };
  image = record { requested_ref = ""; admitted_digest = "" };
  admission = record { allowed = true; reason = ""; message = "" };
  note = "";
  id = "";
  seq = 0;
  state = "";
  initial_state = "";
  created_at = 0;
  updated_at = 0;
  transitions = [];
  prev_hash = [];
  hash = [];
}

abbrev pub to_running : Transition
to_running = record {
  from_states = pending ∷ [];
  to_state = running;
  at = 5000;
  reason = "";
  observation = record {
    source = "workload.status";
    application_uid = "";
    history_id = none;
    revision = "";
    operation_phase = "";
    at = 5000;
  };
  expect_events = some (pos 0);
  admission = none;
  image = none;
}

abbrev pub first_id : String
first_id = id_of (pos 1000) "k1"

abbrev pub first : Record
first = appended hasher (pos 1000) 1000 (deploy "k1") (new 0)

abbrev pub one : Store
one = run hasher (appends (pos 1000) 1000 (deploy "k1") ∷ []) (new 0)

pub one-IsConsistent : IsConsistent one
one-IsConsistent =
    run-IsConsistent hasher (appends (pos 1000) 1000 (deploy "k1") ∷ []) (new 0)
      (new-IsConsistent 0)

pub first_there : get first_id one.by_id ≡ some first
unfolding run step new append appended transition moved event_of is_elsewhere is_stale id_of show
    get_record get put delete keep contains records_of is_chained chain_record chain_event link
    truncate_us verify history fill is_match limit_of after_cursor check_records newest_of current
first_there = refl

transition_exact_example :
    let r = transition hasher 6000 first_id to_running one in
    ((is_err r.0 ≡ false) ↔ IsAccepted to_running first)
    × (is_err r.0 ≡ true → r.1 ≡ one)
    × (is_err r.0 ≡ false
        → (after : Record) × (get_record first_id r.1 ≡ ok after)
          × (after.state ≡ running)
          × (length after.transitions ≡ suc (length first.transitions))
          × (after.hash ≡ first.hash))
transition_exact_example =
    transition_exact hasher 6000 first_id to_running first one first_there refl

first_moves : is_err (transition hasher 6000 first_id to_running one).0 ≡ false
unfolding run step new append appended transition moved event_of is_elsewhere is_stale id_of show
    get_record get put delete keep contains records_of is_chained chain_record chain_event link
    truncate_us verify history fill is_match limit_of after_cursor check_records newest_of current
first_moves = refl

first_unmoved : some (pos 0) ≡ some (pos (length first.transitions))
unfolding run step new append appended transition moved event_of is_elsewhere is_stale id_of show
    get_record get put delete keep contains records_of is_chained chain_record chain_event link
    truncate_us verify history fill is_match limit_of after_cursor check_records newest_of current
first_unmoved = refl

stale_writer_loses_example :
    let after =
      run hasher
        (appends (pos 7000) 7000 (deploy "k2") ∷ [])
        (transition hasher 6000 first_id to_running one).1 in
    (found : Record) × (transition hasher 8000 first_id to_running after
      ≡ (err (conflict, some found), after))
stale_writer_loses_example =
    stale_writer_loses hasher one 6000 8000 first_id to_running to_running first
      (appends (pos 7000) 7000 (deploy "k2") ∷ []) one-IsConsistent first_there first_moves
      first_unmoved refl

first_appends : is_err (append hasher (pos 1000) 1000 (deploy "k1") (new 0)).0 ≡ false
unfolding run step new append appended transition moved event_of is_elsewhere is_stale id_of show
    get_record get put delete keep contains records_of is_chained chain_record chain_event link
    truncate_us verify history fill is_match limit_of after_cursor check_records newest_of current
first_appends = refl

append_once_example :
    let after =
      run hasher
        (transitions 6000 first_id to_running ∷ [])
        (append hasher (pos 1000) 1000 (deploy "k1") (new 0)).1 in
    (found : Record) × (found.idempotency_key ≡ "k1")
    × (append hasher (pos 9000) 9000 (deploy "k1") after ≡ (err (duplicate, some found), after))
append_once_example =
    append_once hasher (new 0) (pos 1000) (pos 9000) 1000 9000 (deploy "k1") (deploy "k1")
      (transitions 6000 first_id to_running ∷ []) (new-IsConsistent 0) first_appends refl

first_answer : (append hasher (pos 1000) 1000 (deploy "k1") (new 0)).0 ≡ ok first
unfolding run step new append appended transition moved event_of is_elsewhere is_stale id_of show
    get_record get put delete keep contains records_of is_chained chain_record chain_event link
    truncate_us verify history fill is_match limit_of after_cursor check_records newest_of current
first_answer = refl
