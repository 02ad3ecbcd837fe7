-- ===== src/Examples/Watch.antt =====
-- internal/deploywatch/deploywatch.go looking at a Deployment whose rollout is done.
use k8s_lab.Common.{[], ◌∷◌, ◌≡◌, refl, some, keep, contains, string_eq, list_eq, nat_eq}
use k8s_lab.Common.Clock.{Time, truncate_us}
use k8s_lab.Common.Result.{ok}
use k8s_lab.Common.Map.{get, put, delete}
use k8s_lab.Evidence.Ids.{pos, id_of, show}
use k8s_lab.Evidence.Store.{
  Store, new, append, appended, transition, moved, event_of, is_elsewhere, is_stale, get_record,
}
use k8s_lab.Evidence.Consistent.{transition-IsConsistent}
use k8s_lab.Evidence.Races.{step, run}
use k8s_lab.Deploywatch.{
  Deployment, found, absent, Clock, derive, allowed_from, admission_outcome, admitted_image,
  reconcile,
}
use k8s_lab.Deploywatch.Loop.{settled_is_final, reconcile_idempotent, observe}
use k8s_lab.Examples.Deploys.{hasher, one, one-IsConsistent, first, first_id, to_running}

abbrev ready : Deployment
ready = record {
  rollout = first_id;
  generation = pos 2;
  observed_generation = pos 2;
  replicas_wanted = some (pos 1);
  replicas = pos 1;
  updated_replicas = pos 1;
  ready_replicas = pos 1;
  conditions =
      record {
        kind = "ReplicaFailure";
        status = "True";
        reason = "FailedCreate";
        message = "denied";
      }
      ∷ [];
  images = "nginx:1" ∷ [];
}

abbrev clock : Time → Clock
clock t = record { at = t; seen = t; stored = t }

reconcile_idempotent_example :
    let after = (reconcile hasher (clock 5000) (found ready) one).1 in
    (reconcile hasher (clock 6000) (found ready) after).1 ≡ after
reconcile_idempotent_example =
    reconcile_idempotent hasher (clock 5000) (clock 6000) ready one one-IsConsistent refl

abbrev settled : Store
settled = (transition hasher 6000 first_id to_running one).1

-- A look at the rollout scaled up, of which one replica is refused.
abbrev refused : Deployment
refused = record ready { replicas_wanted = some (pos 2) }

settled_there : get first_id settled.by_id ≡ some (moved hasher 6000 to_running first)
unfolding run step new append appended transition moved event_of is_elsewhere is_stale id_of show
    get_record get put delete keep contains truncate_us derive allowed_from admission_outcome
    admitted_image
settled_there = refl

settled_is_final_example :
    get_record first_id
      (observe hasher ((clock 7000, found refused) ∷ (clock 8000, absent) ∷ []) settled)
    ≡ ok (moved hasher 6000 to_running first)
unfolding moved
settled_is_final_example =
    settled_is_final hasher ((clock 7000, found refused) ∷ (clock 8000, absent) ∷ []) settled
      first_id (moved hasher 6000 to_running first)
      (transition-IsConsistent hasher one one-IsConsistent 6000 first_id to_running) settled_there
      refl
