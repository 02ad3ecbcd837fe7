-- ===== src/Catalog/Plan/Accepted.antt =====
-- The images and the ports of an installable plan of catalog/plan.go.
use k8s_lab.Common.{
  Bool, true, false, List, [], ◌∷◌, ◌++◌, Option, none, some, ◌||◌, ◌==◌, nat_eq, list_eq, ◌≡◌,
  refl, ap, ap₂, subst, ◌∙◌, if◌then◌else◌, length, any, any_of_mem, Memᴰ, ◌≢◌, append_nil, arith,
  inl, inr, Bool-cases, Option-cases,
}
use k8s_lab.Common.Bytes.{Bytes}
use k8s_lab.Common.Int.{ℤ, pos}
use k8s_lab.Common.Map.{is_some}
use k8s_lab.Common.Result.{Result, ok, err, Result-cases}
use k8s_lab.Compose.Convert
use k8s_lab.Compose.{Workload, Database, Conversion, Runtime}
use k8s_lab.Catalog.{Entry, Catalog, get_entry}
use k8s_lab.Catalog.Plan.{Plan, Options, Pin, Ports, Blocker, is_installable}
use k8s_lab.Catalog.Plan.Secrets.{attach_secrets, nothing_attached}
use k8s_lab.Catalog.Plan.Images.{
  refused_image, checked, resolved_by, refusal, pin_image, pin_workloads, pin_databases,
}
use k8s_lab.Catalog.Plan.Acceptable.{IsAcceptable, refused_image-IsAcceptable}
use k8s_lab.Catalog.Plan.Listening.{port_answer, asked_ports, is_unset, resolve_port, resolve_ports}
use k8s_lab.Catalog.Plan.Made.{plan_of, planned, planned_entry, plan, convert_options}

-- Whether the schema refuses the image of an object, or has no port to write.
abbrev is_refused : Workload → Bool
is_refused w = is_some (refused_image w.image)

abbrev is_refused_database : Database → Bool
is_refused_database d = is_some (refused_image d.image)

abbrev has_no_port : Workload → Bool
has_no_port w = is_unset w.port

-- What the registry answers is a port that is not zero, where it answers one.
abbrev pub AnswersPorts : Ports → Type 0
AnswersPorts none = Unit {0}
AnswersPorts (some ports) = (image : Bytes) (n : ℤ) → ports image ≡ ok (n ∷ []) → is_unset n ≡ false

checked-accepted :
    (object detail resolved : Bytes)
    → (checked object detail resolved).1 ≡ []
    → is_some (refused_image (checked object detail resolved).0) ≡ false
unfolding checked
checked-accepted object detail resolved h = elim (Option-cases (refused_image resolved)) [
  | inl fine ↦ rw (fine, checked) (rw fine refl)
  | inr (reason, bad) ↦ absurd (let e = rw (bad, checked) at h in ground arith)
]

resolved_by-accepted :
    (pin : Pin) (object image detail : Bytes)
    → (resolved_by pin object image detail).1 ≡ []
    → is_some (refused_image (resolved_by pin object image detail).0) ≡ false
unfolding resolved_by
resolved_by-accepted none object image detail h = absurd (ground arith)
resolved_by-accepted (some pin) object image detail h = elim (Result-cases (pin image)) [
  | inl (r, answer) ↦
      rw (answer, resolved_by) (checked-accepted object detail r (rw (answer, resolved_by) at h))
  | inr (e, failed) ↦ absurd (let g = rw (failed, resolved_by) at h in ground arith)
]

pin_image-accepted :
    (pin : Pin) (object image : Bytes)
    → (pin_image pin object image).1 ≡ []
    → is_some (refused_image (pin_image pin object image).0) ≡ false
unfolding pin_image
pin_image-accepted pin object image h = elim (Option-cases (refused_image image)) [
  | inl fine ↦ rw (fine, pin_image) (rw fine refl)
  | inr (reason, bad) ↦
      rw (bad, pin_image)
        (resolved_by-accepted pin object image (refusal image reason) (rw (bad, pin_image) at h))
]

pin_workloads-accepted :
    (pin : Pin) (ws : List Workload)
    → (pin_workloads pin ws).1 ≡ []
    → any is_refused (pin_workloads pin ws).0 ≡ false
unfolding pin_workloads any
pin_workloads-accepted pin [] h = refl
pin_workloads-accepted pin (w ∷ ws) h =
    let (here, rest) =
      append_nil (pin_image pin w.meta.name w.image).1 (pin_workloads pin ws).1 h in
    ap₂ ◌||◌ (pin_image-accepted pin w.meta.name w.image here) (pin_workloads-accepted pin ws rest)

pin_databases-accepted :
    (pin : Pin) (ds : List Database)
    → (pin_databases pin ds).1 ≡ []
    → any is_refused_database (pin_databases pin ds).0 ≡ false
unfolding pin_databases any
pin_databases-accepted pin [] h = refl
pin_databases-accepted pin (d ∷ ds) h =
    let (here, rest) =
      append_nil (pin_image pin d.meta.name d.image).1 (pin_databases pin ds).1 h in
    ap₂ ◌||◌ (pin_image-accepted pin d.meta.name d.image here) (pin_databases-accepted pin ds rest)

resolve_ports-images :
    (ports : Ports) (ws : List Workload)
    → any is_refused (resolve_ports ports ws).0 ≡ any is_refused ws
unfolding resolve_ports any
resolve_ports-images ports [] = refl
resolve_ports-images ports (w ∷ ws) = ap (λ z. is_refused w || z) (resolve_ports-images ports ws)

port_answer-set :
    (object image : Bytes) (answer : Result Bytes (List ℤ))
    → ((n : ℤ) → answer ≡ ok (n ∷ []) → is_unset n ≡ false)
    → (port_answer object image answer).1 ≡ []
    → is_unset (port_answer object image answer).0 ≡ false
unfolding port_answer
port_answer-set object image (err e) k h = absurd (ground arith)
port_answer-set object image (ok []) k h = absurd (ground arith)
port_answer-set object image (ok (n ∷ [])) k h = k n refl
port_answer-set object image (ok (n ∷ m ∷ rest)) k h = absurd (ground arith)

asked_ports-set :
    (ports : Ports) (object image : Bytes)
    → AnswersPorts ports
    → (asked_ports ports object image).1 ≡ []
    → is_unset (asked_ports ports object image).0 ≡ false
unfolding asked_ports
asked_ports-set none object image k h = absurd (ground arith)
asked_ports-set (some ports) object image k h =
    port_answer-set object image (ports image) (k image) h

resolve_port-set :
    (ports : Ports) (w : Workload)
    → AnswersPorts ports
    → (resolve_port ports w).1 ≡ []
    → is_unset (resolve_port ports w).0 ≡ false
unfolding resolve_port
resolve_port-set ports w k h = by_port (is_unset w.port) refl h
  where
    by_port :
        (b : Bool)
        → is_unset w.port ≡ b
        → (if b then asked_ports ports w.meta.name w.image else (w.port, [])).1 ≡ []
        → is_unset (if b then asked_ports ports w.meta.name w.image else (w.port, [])).0 ≡ false
    by_port true e g = asked_ports-set ports w.meta.name w.image k g
    by_port false e g = e

resolve_ports-set :
    (ports : Ports) (ws : List Workload)
    → AnswersPorts ports
    → (resolve_ports ports ws).1 ≡ []
    → any has_no_port (resolve_ports ports ws).0 ≡ false
unfolding resolve_ports any
resolve_ports-set ports [] k h = refl
resolve_ports-set ports (w ∷ ws) k h =
    let (here, rest) = append_nil (resolve_port ports w).1 (resolve_ports ports ws).1 h in
    ap₂ ◌||◌ (resolve_port-set ports w k here) (resolve_ports-set ports ws k rest)

pub blockers_nil : (p : Plan) → is_installable p ≡ true → p.blockers ≡ []
unfolding is_installable
blockers_nil p h = by_list p.blockers h
  where
    by_list : (bs : List Blocker) → (length bs == 0) ≡ true → bs ≡ []
    by_list [] g = refl
    by_list (b ∷ bs) g = absurd (ground arith)

plan_accepted :
    (entry : Entry) (o : Options) (res : Conversion)
    → AnswersPorts o.ports
    → is_installable (plan_of entry o res) ≡ true
    → (any is_refused (plan_of entry o res).workloads ≡ false)
      × (any is_refused_database (plan_of entry o res).databases ≡ false)
      × (any has_no_port (plan_of entry o res).workloads ≡ false)
unfolding plan_of
plan_accepted entry o res k h =
    let attached = attach_secrets res nothing_attached res.workloads in
    let pinned = pin_workloads o.pin attached.workloads in
    let databases = pin_databases o.pin res.databases in
    let ported = resolve_ports o.ports pinned.0 in
    let (_, images) =
      append_nil attached.blockers ((pinned.1 ++ databases.1) ++ ported.1)
        (blockers_nil (plan_of entry o res) h) in
    let (pins, ports_left) = append_nil (pinned.1 ++ databases.1) ported.1 images in
    let (ws, ds) = append_nil pinned.1 databases.1 pins in
    (
      resolve_ports-images o.ports pinned.0 ∙ pin_workloads-accepted o.pin attached.workloads ws,
      pin_databases-accepted o.pin res.databases ds,
      resolve_ports-set o.ports pinned.0 k ports_left,
    )

passes :
    {A : Type 0} (p : A → Bool) (xs : List A) (x : A) → any p xs ≡ false → Memᴰ x xs → p x ≡ false
passes p xs x h m = elim (Bool-cases (p x)) [
  | inr f ↦ f
  | inl t ↦ absurd (ground (arith, any_of_mem p xs m t))
]

acceptable : (image : Bytes) → is_some (refused_image image) ≡ false → IsAcceptable image
acceptable image h = refused_image-IsAcceptable image (ground arith)

set_port : (n : ℤ) → is_unset n ≡ false → n ≢ pos 0
set_port n h e = absurd (let unset = ap is_unset e in ground arith)

-- What a plan commits where it is installable.
abbrev pub IsSettled : Plan → Type 0
IsSettled p =
    ((w : Workload) → Memᴰ w p.workloads → IsAcceptable w.image × (w.port ≢ pos 0))
    × ((d : Database) → Memᴰ d p.databases → IsAcceptable d.image)

plan_of-IsSettled :
    (entry : Entry) (o : Options) (res : Conversion)
    → AnswersPorts o.ports
    → is_installable (plan_of entry o res) ≡ true
    → IsSettled (plan_of entry o res)
plan_of-IsSettled entry o res k h =
    let (images, stored, ports) = plan_accepted entry o res k h in
    let p = plan_of entry o res in
    (
      λ w m. (
        acceptable w.image (passes is_refused p.workloads w images m),
        set_port w.port (passes has_no_port p.workloads w ports m),
      ),
      λ d m. acceptable d.image (passes is_refused_database p.databases d stored m),
    )

-- An installable plan leaves no image and no port open. Where `Plan` answers a plan with no
-- blockers, and the port zero is not the one port that the registry answers for an image, the image
-- of every workload and of every database keeps the two rules of the schema on images: it does not
-- end in `:latest`, and it has a digest, or a tag behind its last slash; and no workload's port is
-- zero. Whether the port is one of the schema's 1 to 65535 is not said.
pub installable_accepted :
    (go : Runtime) (c : Catalog) (name : Bytes) (o : Options) (p : Plan)
    → plan go c name o ≡ ok p
    → is_installable p ≡ true
    → AnswersPorts o.ports
    → IsSettled p
unfolding plan planned_entry planned
installable_accepted go c name o p made fine k = judge_entry (get_entry name c) made
  where
    judge :
        (entry : Entry) (answer : Result Convert.Error Conversion)
        → planned entry o answer ≡ ok p
        → IsSettled p
    judge entry (err e) g = absurd (ground arith)
    judge entry (ok res) g =
        let same : plan_of entry o res ≡ p = ground arith in
        subst IsSettled same (plan_of-IsSettled entry o res k (ap is_installable same ∙ fine))

    judge_entry : (found : Option Entry) → planned_entry go o found ≡ ok p → IsSettled p
    judge_entry none g = absurd (ground arith)
    judge_entry (some entry) g = elim (Bool-cases (o.namespace == [])) [
      | inl bare ↦ absurd (let e = rw bare at g in ground arith)
      | inr named ↦
          judge entry (Convert.convert go entry.template (convert_options o)) (rw named at g)
    ]
