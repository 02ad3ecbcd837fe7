-- ===== src/Catalog/Plan/Images.antt =====
-- pinImages and refusedImage of catalog/plan.go.
use k8s_lab.Common.{List, [], ◌∷◌, ◌++◌, Option, none, some, not, nat_eq, list_eq, if◌then◌else◌}
use k8s_lab.Common.Bytes.{Bytes, text, has_suffix, has_infix, last_field}
use k8s_lab.Common.Result.{ok, err}
use k8s_lab.Compose.{Workload, Database}
use k8s_lab.Catalog.Plan.{Blocker, Pin}

-- refusedImage: why the interface refuses an image, `none` where it does not
unfoldable pub refused_image : Bytes → Option Bytes
unfolding has_suffix has_infix last_field text
refused_image image =
    if has_suffix (text ":latest") image
    then some (text "uses the :latest tag")
    else if has_infix (text "@") image
    then none
    else if not (has_infix (text ":") (last_field b'/' image))
    then some (text "carries no tag or digest")
    else none

unfoldable pub refusal : Bytes → Bytes → Bytes
unfolding text
refusal image reason =
    image
    ++ (32
        ∷ (reason
            ++ text
                ", and the API refuses it: a rollback to a tag that moved restores something other than what was rolled back from"))

unfoldable pub image_blocker : Bytes → Bytes → Blocker
unfolding text
image_blocker object detail = record { object = object; field = text "image"; detail = detail }

-- What is committed for an image that is refused, and a blocker if it is still refused.
unfoldable pub checked : Bytes → Bytes → Bytes → Bytes × List Blocker
unfolding refused_image image_blocker
checked object detail resolved = elim (refused_image resolved) [
  | none ↦ (resolved, [])
  | some reason ↦ (resolved, image_blocker object detail ∷ [])
]

unfoldable pub resolved_by : Pin → Bytes → Bytes → Bytes → Bytes × List Blocker
unfolding checked image_blocker text
resolved_by none object image detail = (image, image_blocker object detail ∷ [])
resolved_by (some pin) object image detail = elim (pin image) [
  | err e ↦ (image, image_blocker object (image ++ (text " could not be resolved: " ++ e)) ∷ [])
  | ok resolved ↦ checked object detail resolved
]

unfoldable pub pin_image : Pin → Bytes → Bytes → Bytes × List Blocker
unfolding refused_image resolved_by refusal
pin_image pin object image = elim (refused_image image) [
  | none ↦ (image, [])
  | some reason ↦ resolved_by pin object image (refusal image reason)
]

unfoldable pub pin_workloads : Pin → List Workload → List Workload × List Blocker
unfolding pin_image
pin_workloads pin [] = ([], [])
pin_workloads pin (w ∷ ws) =
    let here = pin_image pin w.meta.name w.image in
    let rest = pin_workloads pin ws in (record w { image = here.0 } ∷ rest.0, here.1 ++ rest.1)

unfoldable pub pin_databases : Pin → List Database → List Database × List Blocker
unfolding pin_image
pin_databases pin [] = ([], [])
pin_databases pin (d ∷ ds) =
    let here = pin_image pin d.meta.name d.image in
    let rest = pin_databases pin ds in (record d { image = here.0 } ∷ rest.0, here.1 ++ rest.1)
