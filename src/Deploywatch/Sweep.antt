-- ===== src/Deploywatch/Sweep.antt =====
-- internal/deploywatch/sweep.go: one pass of the sweep over the evidence store. The loop of `Once`
-- over the pages has fuel, one for each page.
pub mod Pages
pub mod Exact
pub mod Whole
pub mod Runs
pub mod Lost
use k8s_lab.Common.{
  String, Bool, true, false, ℕ, zero, suc, ◌-◌, List, [], ◌∷◌, Option, none, some, not, ◌==◌,
  string_eq, nat_eq, if◌then◌else◌, length,
}
use k8s_lab.Common.Clock.{Time, before}
use k8s_lab.Common.Result.{Result, ok, err}
use k8s_lab.Evidence
use k8s_lab.Evidence.{
  State, pending, syncing, unknown, conflict, Ref, Transition, Record, Query, Page, oldest,
}
use k8s_lab.Evidence.Ids.{ℤ, pos, negsuc}
use k8s_lab.Evidence.Chain.{Hasher}
use k8s_lab.Evidence.Store.{Store, transition, Refusal}
use k8s_lab.Evidence.Reads.{history}
use k8s_lab.Deploywatch.{Clock}

-- `Every` and the ticker are the caller's; the evidence store is the state.
pub record Sweep : Type 0 where
  pub after : ℤ

-- 30 * time.Minute where nothing positive is set, in nanoseconds
unfoldable pub after_of : Sweep → ℕ
after_of sweep = elim sweep.after [
  | negsuc n ↦ 1_800_000_000_000
  | pos n ↦ if n == 0 then 1_800_000_000_000 else n
]

abbrev pub waiting : List State
waiting = pending ∷ syncing ∷ []

-- time.Duration's String is a parameter: the reason is the given text.
abbrev pub give_up : String → Clock → Record → Transition
give_up reason clock rec = record {
  from_states = waiting;
  to_state = unknown;
  at = clock.at;
  reason = reason;
  observation = record {
    source = "sweep";
    application_uid = "";
    history_id = none;
    revision = "";
    operation_phase = "";
    at = clock.seen;
  };
  expect_events = some (pos (length rec.transitions));
  admission = none;
  image = none;
}

abbrev pub sweep_query : Time → String → Query
sweep_query cutoff after = record {
  ref = record { tenant_id = ""; app = ""; env = "" };
  states = waiting;
  since = 0;
  until = cutoff;
  limit = pos 100;
  after = after;
  order = oldest;
}

-- How a pass ends.
pub data Outcome : Type 0 where
  done out_of_fuel : Outcome
  failed : Evidence.Error → Outcome

-- The switch on what `Transition` answers: an error that ends the pass.
abbrev pub ends : Result Refusal Record → Option Evidence.Error
ends (ok rec) = none
ends (err (conflict, rec)) = none
ends (err (e, rec)) = some e

-- What the clock answers while the record with an id is given up.
abbrev pub Clocks : Type 0
Clocks = String → Clock

-- `continue`, or the end of the pass by an error.
unfoldable pub go_on :
    (Store → Option Evidence.Error × Store)
    → Option Evidence.Error × Store
    → Option Evidence.Error × Store
go_on rest (some e, s) = (some e, s)
go_on rest (none, s) = rest s

module _ (h : Hasher) (reason : String) (clocks : Clocks) (cutoff : Time) where
  unfoldable pub sweep_one : Record → Store → Option Evidence.Error × Store
  sweep_one rec s =
      if not (before rec.created_at cutoff)
      then (none, s)
      else (let (answer, after) =
            transition h (clocks rec.id).stored rec.id (give_up reason (clocks rec.id) rec) s in
          (ends answer, after))

  -- The inner loop. A step that ends the pass leaves the rest alone.
  unfoldable pub sweep_records : List Record → Store → Option Evidence.Error × Store
  unfolding sweep_one go_on
  sweep_records [] s = (none, s)
  sweep_records (rec ∷ recs) s = go_on (sweep_records recs) (sweep_one rec s)

  -- How the outer loop goes on behind a page.
  unfoldable pub turn_page :
      (String → Store → Outcome × Store) → String → Option Evidence.Error × Store → Outcome × Store
  turn_page next_page next (some e, s) = (failed e, s)
  turn_page next_page next (none, s) = elim (next == "") [
    | true ↦ (done, s)
    | false ↦ next_page next s
  ]

  -- The outer loop.
  unfoldable pub sweep_pages : ℕ → String → Store → Outcome × Store
  unfolding sweep_records history turn_page
  sweep_pages zero after s = (out_of_fuel, s)
  sweep_pages (suc fuel) after s = elim (history (sweep_query cutoff after) s) [
    | err e ↦ (failed e, s)
    | ok page ↦ turn_page (sweep_pages fuel) page.next (sweep_records page.records s)
  ]

-- Once. A cutoff before Go's zero time stands at it.
unfoldable pub once : Hasher → Sweep → String → Clocks → ℕ → Time → Store → Outcome × Store
unfolding sweep_pages after_of
once h sweep reason clocks fuel now s = sweep_pages h reason clocks (now - after_of sweep) fuel "" s
