-- ===== src/Placement/History.antt =====
-- Any sequence of calls on the store of placement/memory/memory.go.
use k8s_lab.Common.{String, List, [], ◌∷◌, string_eq}
use k8s_lab.Common.Text.{Unicode}
use k8s_lab.Common.Clock.{Time}
use k8s_lab.Placement.{Placement, Trigger}
use k8s_lab.Placement.Store.{Store, put_placement, delete_placement, set_trigger}
use k8s_lab.Placement.Claims.{IsClaimed}
use k8s_lab.Placement.Keeps.{
  put_placement-IsClaimed, delete_placement-IsClaimed, set_trigger-IsClaimed,
}

-- The methods of `placement.Store` that write.
pub data Call : Type 0 where
  puts : Placement → Call
  deletes : String → String → String → Call
  sets_trigger : Trigger → Call

module _ (u : Unicode) where
  unfoldable pub step : Time → Call → Store → Store
  step now (puts p) s = (put_placement now p s).1
  step now (deletes t app env) s = delete_placement t app env s
  step now (sets_trigger t) s = (set_trigger u t s).1

  unfoldable pub run : List (Time × Call) → Store → Store
  run [] s = s
  run ((now, c) ∷ rest) s = run rest (step now c s)

  step-IsClaimed : (now : Time) (c : Call) (s : Store) → IsClaimed s → IsClaimed (step now c s)
  unfolding step
  step-IsClaimed now (puts p) s h = put_placement-IsClaimed now p s h
  step-IsClaimed now (deletes t app env) s h = delete_placement-IsClaimed t app env s h
  step-IsClaimed now (sets_trigger t) s h = set_trigger-IsClaimed u t s h

  pub run-IsClaimed :
      (calls : List (Time × Call)) (s : Store) → IsClaimed s → IsClaimed (run calls s)
  unfolding run
  run-IsClaimed [] s h = h
  run-IsClaimed ((now, c) ∷ rest) s h = run-IsClaimed rest (step now c s) (step-IsClaimed now c s h)
