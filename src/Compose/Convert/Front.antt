-- ===== src/Compose/Convert/Front.antt =====
-- The service in front of a template, in `Convert` of compose/convert.go.
use k8s_lab.Common.{
  Bool, true, false, ℕ, ◌<◌, List, [], ◌∷◌, ◌++◌, Option, none, some, ◌==◌, nat_eq, list_eq,
  list_eqb_iff, ◌≡◌, refl, sym, ap, ◌∙◌, subst, if◌then◌else◌, length, contains, arith, inl, inr,
  Bool-cases, get_elem?, get_elem?-append, get_elem?-append_end, lt-length_of_get_elem?, length-map,
  eq_refl,
}
use k8s_lab.Common.Bytes.{Bytes, text}
use k8s_lab.Common.Map.{is_some}
use k8s_lab.Common.Int.{ℤ, pos, negsuc}
use k8s_lab.Common.Result.{ok}
use k8s_lab.Evidence.Ids.{show}
use k8s_lab.Compose.{Template, Options, Conversion, Runtime}
use k8s_lab.Compose.Workloads.{sorted_keys}
use k8s_lab.Compose.Convert.{
  Progress, with_port, or_first, by_port, primary_service, convert_loop, nothing_yet, front_of,
  with_size, convert,
}
use k8s_lab.Compose.Convert.Coverage.{
  is_stored, workload_services, from_workload, round, round_stored, round_run, finish_services,
  convert_ran,
}

-- The index, where there is one, is that of the workload of the primary service.
abbrev IsFront : Bytes → List Bytes → Option ℕ → Type 0
IsFront primary services none = Unit {0}
IsFront primary services (some i) = get_elem? services i ≡ some primary

IsFront-append :
    (primary : Bytes) (services more : List Bytes) (front : Option ℕ)
    → IsFront primary services front
    → IsFront primary (services ++ more) front
IsFront-append primary services more none h = h
IsFront-append primary services more (some i) h = get_elem?-append services more i primary h

is_some-if :
    (b : Bool) (i : ℕ) (o : Option ℕ) → is_some o ≡ true → is_some (if b then some i else o) ≡ true
is_some-if true i o h = refl
is_some-if false i o h = h

module _ (go : Runtime) (t : Template) (o : Options) (primary : Bytes) where
  round-IsFront :
      (acc : Progress) (name : Bytes)
      → IsFront primary (workload_services acc.res) acc.front
      → IsFront primary
          (workload_services (round go t o primary acc name).res)
          (round go t o primary acc name).front
  round-IsFront acc name h = elim (Bool-cases (is_stored t name)) [
    | inl stored ↦
        let (w, _, f) = round_stored go t o primary acc name stored in
        subst (λ z. IsFront primary z (round go t o primary acc name).front) (sym w)
          (subst (λ z. IsFront primary (workload_services acc.res) z) (sym f) h)
    | inr run ↦
        let (w, _, f) = round_run go t o primary acc name run in
        subst (λ z. IsFront primary z (round go t o primary acc name).front) (sym w)
          (subst (λ z. IsFront primary (workload_services acc.res ++ (name ∷ [])) z) (sym f)
            (elim (Bool-cases (name == primary)) [
              | inl here ↦ rw here (
                  get_elem?-append_end (workload_services acc.res) (length acc.res.workloads) name
                    (length-map from_workload acc.res.workloads)
                  ∙ ap some ((list_eqb_iff name primary).0 here))
              | inr other ↦
                  rw other
                    (IsFront-append primary (workload_services acc.res) (name ∷ []) acc.front h)
            ]))
  ]

  loop-IsFront :
      (acc : Progress) (names : List Bytes)
      → IsFront primary (workload_services acc.res) acc.front
      → let end = convert_loop go t o primary acc names in
        IsFront primary (workload_services end.res) end.front
  unfolding convert_loop
  loop-IsFront acc [] h = h
  loop-IsFront acc (name ∷ names) h =
      loop-IsFront (round go t o primary acc name) names (round-IsFront acc name h)

  round_stays :
      (acc : Progress) (name : Bytes)
      → is_some acc.front ≡ true
      → is_some (round go t o primary acc name).front ≡ true
  round_stays acc name h = elim (Bool-cases (is_stored t name)) [
    | inl stored ↦ ap is_some (round_stored go t o primary acc name stored).2 ∙ h
    | inr run ↦
        ap is_some (round_run go t o primary acc name run).2
        ∙ is_some-if (name == primary) (length acc.res.workloads) acc.front h
  ]

  loop_stays :
      (acc : Progress) (names : List Bytes)
      → is_some acc.front ≡ true
      → is_some (convert_loop go t o primary acc names).front ≡ true
  unfolding convert_loop
  loop_stays acc [] h = h
  loop_stays acc (name ∷ names) h =
      loop_stays (round go t o primary acc name) names (round_stays acc name h)

  loop_finds :
      (acc : Progress) (names : List Bytes)
      → contains names primary ≡ true
      → is_stored t primary ≡ false
      → is_some (convert_loop go t o primary acc names).front ≡ true
  unfolding convert_loop contains
  loop_finds acc [] h run = absurd (ground arith)
  loop_finds acc (name ∷ names) h run = elim (Bool-cases (name == primary)) [
    | inl here ↦
        let runs : is_stored t name ≡ false =
          ap (is_stored t) ((list_eqb_iff name primary).0 here) ∙ run in
        loop_stays (round go t o primary acc name) names
          (ap is_some (round_run go t o primary acc name runs).2 ∙ rw here refl)
    | inr later ↦ loop_finds (round go t o primary acc name) names (rw later at h) run
  ]

with_port-contains :
    (t : Template) (want : Bytes) (names : List Bytes) (p : Bytes)
    → with_port t want names ≡ some p
    → contains names p ≡ true
unfolding with_port contains
with_port-contains t want [] p h = absurd (ground arith)
with_port-contains t want (name ∷ names) p h =
    ground (arith, list_eqb_iff name p, with_port-contains t want names p)

or_first-contains :
    (names : List Bytes) (first p : Bytes) (o : Option Bytes)
    → contains names first ≡ true
    → ((q : Bytes) → o ≡ some q → contains names q ≡ true)
    → or_first first o ≡ p
    → contains names p ≡ true
unfolding or_first
or_first-contains names first p none h k e = ap (contains names) (sym e) ∙ h
or_first-contains names first p (some q) h k e = ap (contains names) (sym e) ∙ k q refl

by_port-contains :
    (t : Template) (names : List Bytes) (n : ℤ) (q : Bytes)
    → by_port t names n ≡ some q
    → contains names q ≡ true
unfolding by_port
by_port-contains t names (negsuc n) q h = absurd (ground arith)
by_port-contains t names (pos n) q h = elim (Bool-cases (n == 0)) [
  | inl z ↦ absurd (ground arith)
  | inr some_port ↦ with_port-contains t (text (show (pos n))) names q (rw some_port at h)
]

some_eq : (p q : Bytes) → some p ≡ some q → p ≡ q
some_eq p q e = ground arith

-- The primary service is one of the services.
primary_service-contains :
    (t : Template) (names : List Bytes) (p : Bytes)
    → primary_service t names ≡ some p
    → contains names p ≡ true
unfolding primary_service contains
primary_service-contains t [] p h = absurd (ground arith)
primary_service-contains t (name ∷ []) p h = rw ((list_eqb_iff name p).1 (some_eq name p h)) refl
primary_service-contains t (name ∷ other ∷ rest) p h =
    or_first-contains (name ∷ other ∷ rest) name p (by_port t (name ∷ other ∷ rest) t.port)
      (rw (eq_refl name) refl) (by_port-contains t (name ∷ other ∷ rest) t.port) (some_eq _ p h)

front_valid :
    (primary : Bytes) (services : List Bytes) (front : Option ℕ)
    → IsFront primary services front
    → (length services == 0) ≡ false
    → (front_of front < length services)
      × (is_some front ≡ true → get_elem? services (front_of front) ≡ some primary)
unfolding front_of
front_valid primary services none h some_left = (ground arith, λ k. absurd (ground arith))
front_valid primary services (some i) h some_left =
    (lt-length_of_get_elem? services i primary h, λ k. h)

-- Where a conversion succeeds, its primary index is the index of a workload; and where the service
-- that `primaryService` chooses does not run the image of a database, the workload there is the
-- one of that service.
pub primary_is_a_workload :
    (go : Runtime) (t : Template) (o : Options) (r : Conversion)
    → convert go t o ≡ ok r
    → (r.primary < length r.workloads)
      × ((p : Bytes)
          → primary_service t (sorted_keys t.services) ≡ some p
          → is_stored t p ≡ false
          → get_elem? (workload_services r) r.primary ≡ some p)
primary_is_a_workload go t o r h =
    let (primary, chosen, done) = convert_ran go t o h in
    let names = sorted_keys t.services in
    let acc = convert_loop go t (with_size o) primary nothing_yet names in
    let (w, _, at, some_left) = finish_services acc done in
    let same : length acc.res.workloads ≡ length (workload_services acc.res) =
      sym (length-map from_workload acc.res.workloads) in
    let (below, front) =
      front_valid primary (workload_services acc.res) acc.front
        (loop-IsFront go t (with_size o) primary nothing_yet names tt)
        (ap (λ (n : ℕ). n == 0) (sym same) ∙ some_left) in
    let size : length r.workloads ≡ length (workload_services acc.res) =
      sym (length-map from_workload r.workloads) ∙ ap length w in
    (
      omega arith,
      λ p e run.
          let is : primary ≡ p = some_eq primary p (sym chosen ∙ e) in
          let runs : is_stored t primary ≡ false = ap (is_stored t) is ∙ run in
          ap (λ z. get_elem? z r.primary) w
          ∙ ap (get_elem? (workload_services acc.res)) at
          ∙ front (
              loop_finds go t (with_size o) primary nothing_yet names
                (primary_service-contains t names primary chosen) runs)
          ∙ ap some is,
    )
