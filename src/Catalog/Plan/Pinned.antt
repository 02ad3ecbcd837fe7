-- ===== src/Catalog/Plan/Pinned.antt =====
-- When a plan of catalog/plan.go depends on what the registry resolves.
use k8s_lab.Common.{
  true, List, [], ◌∷◌, ◌++◌, none, ◌≡◌, refl, ap₂, arith, inl, inr, append_nil, Option-cases,
}
use k8s_lab.Common.Bytes.{Bytes}
use k8s_lab.Compose.{Workload, Database, Conversion}
use k8s_lab.Catalog.{Entry}
use k8s_lab.Catalog.Plan.{Plan, Options, Pin, Blocker, is_installable}
use k8s_lab.Catalog.Plan.Secrets.{attach_secrets, nothing_attached, sorted_sources}
use k8s_lab.Catalog.Plan.Images.{
  refused_image, resolved_by, pin_image, pin_workloads, pin_databases,
}
use k8s_lab.Catalog.Plan.Listening.{resolve_ports}
use k8s_lab.Catalog.Plan.Made.{plan_of}
use k8s_lab.Catalog.Plan.Accepted.{blockers_nil}

pin_image-same :
    (pin : Pin) (object image : Bytes)
    → (pin_image none object image).1 ≡ []
    → pin_image pin object image ≡ pin_image none object image
unfolding pin_image resolved_by
pin_image-same pin object image h = elim (Option-cases (refused_image image)) [
  | inl fine ↦ rw (fine, pin_image) refl
  | inr (reason, bad) ↦ absurd (let e = rw (bad, pin_image) at h in ground arith)
]

pin_workloads-same :
    (pin : Pin) (ws : List Workload)
    → (pin_workloads none ws).1 ≡ []
    → pin_workloads pin ws ≡ pin_workloads none ws
unfolding pin_workloads
pin_workloads-same pin [] h = refl
pin_workloads-same pin (w ∷ ws) h =
    let (here, rest) =
      append_nil (pin_image none w.meta.name w.image).1 (pin_workloads none ws).1 h in
    ap₂
      (λ (x : Bytes × List Blocker) (y : List Workload × List Blocker).
        (record w { image = x.0 } ∷ y.0, x.1 ++ y.1))
      (pin_image-same pin w.meta.name w.image here) (pin_workloads-same pin ws rest)

pin_databases-same :
    (pin : Pin) (ds : List Database)
    → (pin_databases none ds).1 ≡ []
    → pin_databases pin ds ≡ pin_databases none ds
unfolding pin_databases
pin_databases-same pin [] h = refl
pin_databases-same pin (d ∷ ds) h =
    let (here, rest) =
      append_nil (pin_image none d.meta.name d.image).1 (pin_databases none ds).1 h in
    ap₂
      (λ (x : Bytes × List Blocker) (y : List Database × List Blocker).
        (record d { image = x.0 } ∷ y.0, x.1 ++ y.1))
      (pin_image-same pin d.meta.name d.image here) (pin_databases-same pin ds rest)

-- The end of `Plan`, from the images that are pinned.
abbrev from_pinned :
    Entry
    → Options
    → Conversion
    → List Workload × List Blocker
    → List Database × List Blocker
    → Plan
from_pinned entry o res pinned databases =
    let attached = attach_secrets res nothing_attached res.workloads in
    let ported = resolve_ports o.ports pinned.0 in
    record {
      entry = entry;
      namespace = o.namespace;
      workloads = ported.0;
      databases = databases.0;
      primary = res.primary;
      secrets = attached.secrets;
      mint = sorted_sources attached.mint;
      notes = res.notes;
      blockers = attached.blockers ++ ((pinned.1 ++ databases.1) ++ ported.1);
    }

-- A resolver cannot take an entry away: what installs where no image can be resolved makes the
-- same plan with any resolver, one that always fails included.
pub pin_not_needed :
    (entry : Entry) (o : Options) (res : Conversion) (pin : Pin)
    → is_installable (plan_of entry (record o { pin = none }) res) ≡ true
    → plan_of entry (record o { pin = pin }) res ≡ plan_of entry (record o { pin = none }) res
unfolding plan_of
pin_not_needed entry o res pin fine =
    let attached = attach_secrets res nothing_attached res.workloads in
    let pinned = pin_workloads none attached.workloads in
    let databases = pin_databases none res.databases in
    let ported = resolve_ports o.ports pinned.0 in
    let (_, images) =
      append_nil attached.blockers ((pinned.1 ++ databases.1) ++ ported.1)
        (blockers_nil (plan_of entry (record o { pin = none }) res) fine) in
    let (pins, _) = append_nil (pinned.1 ++ databases.1) ported.1 images in
    let (ws, ds) = append_nil pinned.1 databases.1 pins in
    ap₂ (from_pinned entry o res) (pin_workloads-same pin attached.workloads ws)
      (pin_databases-same pin res.databases ds)
