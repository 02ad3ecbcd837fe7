-- ===== src/Examples/Sweeps.antt =====
-- internal/deploywatch/sweep.go with one deploy that is overdue and one that is not.
use k8s_lab.Common.{
  String, false, List, [], ◌∷◌, ◌-◌, ◌<◌, ◌≡◌, refl, Memᴰ, some, none, length, if◌then◌else◌, arith,
  inl, keep, contains, string_eq,
}
use k8s_lab.Common.Clock.{truncate_us}
use k8s_lab.Common.Result.{ok}
use k8s_lab.Common.Map.{get, put, delete}
use k8s_lab.Evidence.{Record}
use k8s_lab.Evidence.Ids.{pos, id_of, show}
use k8s_lab.Evidence.Store.{
  Store, new, append, appended, transition, moved, event_of, is_elsewhere, is_stale, get_record,
}
use k8s_lab.Evidence.Races.{Call, appends, step, run}
use k8s_lab.Deploywatch.Sweep.{Sweep, waiting, done, Clocks, after_of, once, sweep_one}
use k8s_lab.Deploywatch.Sweep.Exact.{is_overdue, given_up}
use k8s_lab.Deploywatch.Sweep.Runs.{sweep_exact}
use k8s_lab.Deploywatch.Sweep.Lost.{sweep_loses}
use k8s_lab.Examples.Deploys.{hasher, deploy, one, first, first_id, to_running}

abbrev calls : List Call
calls = appends (pos 1000) 1000 (deploy "k1") ∷ appends (pos 9000) 9000 (deploy "k2") ∷ []

abbrev archive : Store
archive = run hasher calls (new 0)

abbrev sweep : Sweep
sweep = record { after = pos 5000 }

abbrev clocks : Clocks
clocks id = record { stored = 10000; at = 10000; seen = 10000 }

two_records : length archive.order < 3
unfolding run step new append appended id_of show get put delete keep contains truncate_us
two_records = omega arith

sweep_exact_example :
    ((once hasher sweep "late" clocks 3 10000 archive).0 ≡ done)
    × ((id : String) (r : Record)
        → Memᴰ id archive.order
        → get_record id archive ≡ ok r
        → get_record id (once hasher sweep "late" clocks 3 10000 archive).1
          ≡ ok (
              if is_overdue (10000 - after_of sweep) r
              then given_up hasher "late" clocks (10000 - after_of sweep) r
              else r))
sweep_exact_example =
    sweep_exact hasher sweep "late" clocks 3 10000 calls 0 (λ id. refl) two_records

-- The observer answers between the page and the write.
abbrev answered : Store
answered = (transition hasher 6000 first_id to_running one).1

abbrev answer : Record
answer = moved hasher 6000 to_running first

answered_there : get first.id answered.by_id ≡ some answer
unfolding run step new append appended transition moved event_of is_elsewhere is_stale id_of show
    get put delete keep contains truncate_us
answered_there = refl

answered_state : contains waiting answer.state ≡ false
unfolding moved contains
answered_state = refl

sweep_loses_example : sweep_one hasher "late" clocks 9000 first answered ≡ (none, answered)
sweep_loses_example =
    sweep_loses hasher "late" clocks 9000 first answer answered answered_there refl
      (inl answered_state)
