-- ===== src/Compose/Convert/Coverage.antt =====
-- Which object each service of a template becomes, in `Convert` of compose/convert.go.
use k8s_lab.Common.{
  Bool, true, false, ℕ, zero, suc, List, [], ◌∷◌, ◌++◌, Option, none, some, not, ◌==◌, nat_eq,
  list_eq, list_eqb_iff, ◌≡◌, refl, sym, ap, ◌∙◌, if◌then◌else◌, length, map, keep, arith, inl, inr,
  Bool-cases,
}
use mathlib.Core.List.{append_assoc, append-nil, map-append}
use k8s_lab.Common.Bytes.{Bytes}
use k8s_lab.Common.Result.{ok}
use k8s_lab.Compose.{Service, Template, Note, Options, Workload, Database, Conversion, Runtime}
use k8s_lab.Compose.Interpolation.{literal, image_defaults}
use k8s_lab.Compose.Names.{is_database_image}
use k8s_lab.Compose.Workloads.{as_workload, workload_from, object_meta, sorted_keys}
use k8s_lab.Compose.Databases.{
  as_database, database_for, database_of, set_database, link, link_database,
}
use k8s_lab.Compose.Convert.{
  Progress, service_of, primary_service, resolve, convert_resolved, convert_loop, add_database,
  add_workload, nothing_yet, front_of, finish, with_size, converted, convert,
}

-- Whether a service runs the image of a database, its variables resolved.
unfoldable pub is_stored : Template → Bytes → Bool
is_stored t name = is_database_image (literal (service_of t name).image)

-- The services that the workloads and the databases of a result came from.
abbrev pub from_workload : Workload → Bytes
from_workload w = w.meta.compose_service

abbrev pub from_database : Database → Bytes
from_database d = d.meta.compose_service

abbrev pub workload_services : Conversion → List Bytes
workload_services r = map from_workload r.workloads

abbrev pub database_services : Conversion → List Bytes
database_services r = map from_database r.databases

resolve-image : (name : Bytes) (svc : Service) → (resolve name svc).0.image ≡ literal svc.image
unfolding resolve image_defaults
resolve-image name svc = elim (Bool-cases (literal svc.image == svc.image)) [
  | inl same ↦ rw same (sym ((list_eqb_iff (literal svc.image) svc.image).0 same))
  | inr other ↦ rw other refl
]

as_database-none :
    (go : Runtime) (t : Template) (name : Bytes) (svc : Service) (o : Options)
    → is_database_image svc.image ≡ false
    → as_database go t name svc o ≡ none
unfolding as_database
as_database-none go t name svc o h = rw h refl

as_database-some :
    (go : Runtime) (t : Template) (name : Bytes) (svc : Service) (o : Options)
    → is_database_image svc.image ≡ true
    → (db : Database × List Note) × (as_database go t name svc o ≡ some db)
      × (from_database db.0 ≡ name)
unfolding as_database database_for database_of object_meta
as_database-some go t name svc o h = (database_for go t.name name svc o, rw h refl, refl)

as_workload-from :
    (go : Runtime) (t : Template) (name : Bytes) (svc : Service) (o : Options) (primary : Bytes)
    → from_workload (as_workload go t name svc o primary).0 ≡ name
unfolding as_workload workload_from object_meta
as_workload-from go t name svc o primary = refl

module _ (go : Runtime) (t : Template) (o : Options) (primary : Bytes) where
  -- One round puts the service at the end of one of the two lists.
  abbrev pub round : Progress → Bytes → Progress
  round acc name = convert_resolved go t o primary name acc (resolve name (service_of t name))

  pub round_stored :
      (acc : Progress) (name : Bytes)
      → is_stored t name ≡ true
      → (workload_services (round acc name).res ≡ workload_services acc.res)
        × (database_services (round acc name).res ≡ database_services acc.res ++ (name ∷ []))
        × ((round acc name).front ≡ acc.front)
  unfolding convert_resolved add_database is_stored
  round_stored acc name h =
      let svc = resolve name (service_of t name) in
      let (db, e, from) =
        as_database-some go t name svc.0 o
          (ap is_database_image (resolve-image name (service_of t name)) ∙ h) in
      (
        rw (e, convert_resolved) refl,
        rw (e, convert_resolved)
            (map-append from_database acc.res.databases (db.0 ∷ [])
              ∙ ap (λ z. database_services acc.res ++ (z ∷ [])) from),
        rw (e, convert_resolved) refl,
      )

  pub round_run :
      (acc : Progress) (name : Bytes)
      → is_stored t name ≡ false
      → (workload_services (round acc name).res ≡ workload_services acc.res ++ (name ∷ []))
        × (database_services (round acc name).res ≡ database_services acc.res)
        × ((round acc name).front
            ≡ (if name == primary then some (length acc.res.workloads) else acc.front))
  unfolding convert_resolved add_workload is_stored
  round_run acc name h =
      let svc = resolve name (service_of t name) in
      let e =
        as_database-none go t name svc.0 o
          (ap is_database_image (resolve-image name (service_of t name)) ∙ h) in
      let w = as_workload go t name svc.0 o primary in
      (
        rw (e, convert_resolved)
            (map-append from_workload acc.res.workloads (w.0 ∷ [])
              ∙ ap (λ z. workload_services acc.res ++ (z ∷ []))
                  (as_workload-from go t name svc.0 o primary)),
        rw (e, convert_resolved) refl,
        rw (e, convert_resolved) refl,
      )

  abbrev runs : Bytes → Bool
  runs name = not (is_stored t name)

  convert_loop-services :
      (acc : Progress) (names : List Bytes)
      → (workload_services (convert_loop go t o primary acc names).res
          ≡ workload_services acc.res ++ keep runs names)
        × (database_services (convert_loop go t o primary acc names).res
            ≡ database_services acc.res ++ keep (is_stored t) names)
  unfolding convert_loop keep
  convert_loop-services acc [] = (sym (append-nil _), sym (append-nil _))
  convert_loop-services acc (name ∷ names) =
      let (w, d) = convert_loop-services (round acc name) names in
      elim (Bool-cases (is_stored t name)) [
        | inl stored ↦
            let (same, more, _) = round_stored acc name stored in
            (
              w ∙ rw stored (ap (λ z. z ++ keep runs names) same),
              d
                  ∙ rw stored (
                      ap (λ z. z ++ keep (is_stored t) names) more
                      ∙ append_assoc (database_services acc.res) (name ∷ [])
                          (keep (is_stored t) names)),
            )
        | inr run ↦
            let (more, same, _) = round_run acc name run in
            (
              w
                  ∙ rw run (
                      ap (λ z. z ++ keep runs names) more
                      ∙ append_assoc (workload_services acc.res) (name ∷ []) (keep runs names)),
              d ∙ rw run (ap (λ z. z ++ keep (is_stored t) names) same),
            )
      ]

set_database-services :
    (name : Bytes) (i : ℕ) (ws : List Workload)
    → map from_workload (set_database name i ws) ≡ map from_workload ws
unfolding set_database
set_database-services name i [] = refl
set_database-services name zero (w ∷ ws) = refl
set_database-services name (suc i) (w ∷ ws) =
    ap (λ z. from_workload w ∷ z) (set_database-services name i ws)

link-services :
    (front : ℕ) (res : Conversion) (dbs : List Database)
    → (workload_services (link front res dbs) ≡ workload_services res)
      × (database_services (link front res dbs) ≡ database_services res)
      × ((link front res dbs).primary ≡ res.primary)
unfolding link
link-services front res [] = (refl, refl, refl)
link-services front res (db ∷ []) =
    (set_database-services db.meta.name front res.workloads, refl, refl)
link-services front res (db ∷ other ∷ rest) = (refl, refl, refl)

-- What a successful end of `Convert` leaves of the loop's result.
pub finish_services :
    (acc : Progress) {r : Conversion}
    → finish acc ≡ ok r
    → (workload_services r ≡ workload_services acc.res)
      × (database_services r ≡ database_services acc.res)
      × (r.primary ≡ front_of acc.front)
      × ((length acc.res.workloads == 0) ≡ false)
unfolding finish link_database
finish_services acc {r} h = elim (Bool-cases (length acc.res.workloads == 0)) [
  | inl empty ↦ absurd (ground arith)
  | inr some_left ↦
      let front = front_of acc.front in
      let res : Conversion = record acc.res { primary = front } in
      let (w, d, p) = link-services front res acc.res.databases in
      let e : link front res acc.res.databases ≡ r = ground arith in
      (
        ap workload_services (sym e) ∙ w,
        ap database_services (sym e) ∙ d,
        ap (λ (z : Conversion). z.primary) (sym e) ∙ p,
        some_left,
      )
]

-- A conversion that succeeds ran the loop over the sorted names, for a primary service.
pub convert_ran :
    (go : Runtime) (t : Template) (o : Options) {r : Conversion}
    → convert go t o ≡ ok r
    → (primary : Bytes) × (primary_service t (sorted_keys t.services) ≡ some primary)
      × (finish (convert_loop go t (with_size o) primary nothing_yet (sorted_keys t.services))
          ≡ ok r)
unfolding convert
convert_ran go t o {r} h = elim (Bool-cases (o.namespace == [])) [
  | inl missing ↦ absurd (ground arith)
  | inr given ↦ ran (primary_service t (sorted_keys t.services)) refl (rw given at h)
]
  where
    ran :
        (p : Option Bytes)
        → primary_service t (sorted_keys t.services) ≡ p
        → converted go t o (sorted_keys t.services) p ≡ ok r
        → (primary : Bytes) × (primary_service t (sorted_keys t.services) ≡ some primary)
          × (finish (convert_loop go t (with_size o) primary nothing_yet (sorted_keys t.services))
              ≡ ok r)
    ran none e k = absurd (ground arith)
    ran (some primary) e k = (primary, e, k)

-- Every service of a template becomes exactly one object: where the conversion succeeds, the
-- databases come from the services whose image, its variables resolved, is one of a database, and
-- the workloads from all the others, both in the sorted order of the services' names.
pub convert_covers :
    (go : Runtime) (t : Template) (o : Options) (r : Conversion)
    → convert go t o ≡ ok r
    → (workload_services r ≡ keep (λ name. not (is_stored t name)) (sorted_keys t.services))
      × (database_services r ≡ keep (is_stored t) (sorted_keys t.services))
convert_covers go t o r h =
    let (primary, _, done) = convert_ran go t o h in
    let names = sorted_keys t.services in
    let acc = convert_loop go t (with_size o) primary nothing_yet names in
    let (w, d, _, _) = finish_services acc done in
    let (ws, ds) = convert_loop-services go t (with_size o) primary nothing_yet names in
    (w ∙ ws, d ∙ ds)
