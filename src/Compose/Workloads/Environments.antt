-- ===== src/Compose/Workloads/Environments.antt =====
-- The environment of a workload, in `asWorkload` of compose/convert.go.
use k8s_lab.Common.{
  Bool, true, List, [], ◌∷◌, ◌++◌, ◌&&◌, ◌||◌, not, ◌==◌, nat_eq, list_eq, ◌≡◌, refl, sym, ap, ◌∙◌,
  if◌then◌else◌, length, map, keep, arith, inl, inr, Bool-cases, Memᴰ, subst, mem-keep,
}
use mathlib.Core.List.Memᴰ
use mathlib.Core.List.{append-nil, append_assoc}
use k8s_lab.Common.Bytes.{Bytes, precedes}
use k8s_lab.Common.Map.{Map}
use k8s_lab.Common.Sort.{mem-sort_by}
use k8s_lab.Common.Sort.Unique.{mem-append_left, mem-append_right}
use k8s_lab.Compose.{EnvVar, Generated, Note, Runtime, Template, Service, Options}
use k8s_lab.Compose.Variables.{is_magic}
use k8s_lab.Compose.Interpolation.{literal, literal_except_sources, placeholder, sources, source_of}
use k8s_lab.Compose.Siblings.{Verdict, judge, repoint_env, repoint_generated}
use k8s_lab.Compose.Workloads.{
  Environment, asks_for_url, url_note, environment_step, environment_loop, no_environment,
  read_environment, sorted_keys, value_of, as_workload, workload_from, sort_notes, note_text,
  port_choice,
}

-- The three ways of a variable: it is to be generated, it waits for the public URL, or it is
-- passed on.
abbrev is_bare : Bytes → Bytes → Bool
is_bare k v = v == [] && is_magic k

abbrev has_sources : Bytes → Bool
has_sources v = not (length (sources v) == 0)

abbrev pub is_generated : Bytes → Bytes → Bool
is_generated k v = is_bare k v || (not (asks_for_url k v) && has_sources v)

abbrev pub is_waiting : Bytes → Bytes → Bool
is_waiting k v = not (is_bare k v) && asks_for_url k v

abbrev pub is_plain : Bytes → Bytes → Bool
is_plain k v = not (is_bare k v) && (not (asks_for_url k v) && not (has_sources v))

abbrev pub env_var : Bytes → Bytes → EnvVar
env_var k v = record { name = k; value = literal v }

abbrev pub generated_var : Bytes → Bytes → Bytes → Generated
generated_var name k v =
    if is_bare k v
    then record { service = name; key = k; sources = source_of k ∷ []; value = placeholder k }
    else record { service = name; key = k; sources = sources v; value = literal_except_sources v }

-- What one variable adds to a list.
abbrev when {ℓ} : {A : Type ℓ} → Bool → A → List A
when b a = if b then a ∷ [] else []

step_adds :
    (name : Bytes) (acc : Environment) (k v : Bytes)
    → let after = environment_step name acc k v in
      (after.env ≡ acc.env ++ when (is_plain k v) (env_var k v))
      × (after.generated ≡ acc.generated ++ when (is_generated k v) (generated_var name k v))
      × (after.notes ≡ acc.notes ++ when (is_waiting k v) (url_note name k))
unfolding environment_step
step_adds name acc k v = elim (Bool-cases (is_bare k v)) [
  | inl bare ↦ rw bare (sym (append-nil acc.env), refl, sym (append-nil acc.notes))
  | inr full ↦ elim (Bool-cases (asks_for_url k v)) [
    | inl asks ↦ rw (full, asks) (sym (append-nil acc.env), sym (append-nil acc.generated), refl)
    | inr tells ↦ elim (Bool-cases (length (sources v) == 0)) [
      | inl none_named ↦
          rw (full, tells, none_named)
            (refl, sym (append-nil acc.generated), sym (append-nil acc.notes))
      | inr named ↦
          rw (full, tells, named) (sym (append-nil acc.env), refl, sym (append-nil acc.notes))
    ]
  ]
]

-- A list with what one key adds, and then what the others add.
join_step {ℓ} :
    {A : Type ℓ} (f : Bytes → A) (p : Bytes → Bool) (k : Bytes) (ks : List Bytes)
    (before now after : List A)
    → now ≡ before ++ when (p k) (f k)
    → after ≡ now ++ map f (keep p ks)
    → after ≡ before ++ map f (keep p (k ∷ ks))
unfolding keep
join_step f p k ks before now after h e = elim (Bool-cases (p k)) [
  | inl taken ↦ rw taken (
      e
      ∙ ap (λ z. z ++ map f (keep p ks)) (h ∙ rw taken refl)
      ∙ append_assoc before (f k ∷ []) (map f (keep p ks)))
  | inr left ↦ rw left (e ∙ ap (λ z. z ++ map f (keep p ks)) (h ∙ rw left refl ∙ append-nil before))
]

module _ (name : Bytes) (m : Map Bytes Bytes) where
  abbrev at {ℓ} : {A : Type ℓ} → (Bytes → Bytes → A) → Bytes → A
  at f k = f k (value_of k m)

  loop_adds :
      (ks : List Bytes) (acc : Environment)
      → let after = environment_loop name m acc ks in
        (after.env ≡ acc.env ++ map (at env_var) (keep (at is_plain) ks))
        × (after.generated
            ≡ acc.generated ++ map (at (generated_var name)) (keep (at is_generated) ks))
        × (after.notes ≡ acc.notes ++ map (url_note name) (keep (at is_waiting) ks))
  unfolding environment_loop keep
  loop_adds [] acc =
      (sym (append-nil acc.env), sym (append-nil acc.generated), sym (append-nil acc.notes))
  loop_adds (k ∷ ks) acc =
      let now = environment_step name acc k (value_of k m) in
      let (e, g, n) = step_adds name acc k (value_of k m) in
      let (es, gs, ns) = loop_adds ks now in
      let after = environment_loop name m now ks in
      (
        join_step (at env_var) (at is_plain) k ks acc.env now.env after.env e es,
        join_step (at (generated_var name)) (at is_generated) k ks acc.generated now.generated
            after.generated g gs,
        join_step (url_note name) (at is_waiting) k ks acc.notes now.notes after.notes n ns,
      )

repoint_env-names :
    (verdict : Bytes → Verdict) (es : List EnvVar)
    → map (λ (e : EnvVar). e.name) (repoint_env verdict es) ≡ map (λ (e : EnvVar). e.name) es
unfolding repoint_env
repoint_env-names verdict [] = refl
repoint_env-names verdict (e ∷ es) = ap (λ z. e.name ∷ z) (repoint_env-names verdict es)

repoint_generated-keys :
    (verdict : Bytes → Verdict) (gs : List Generated)
    → map (λ (g : Generated). g.key) (repoint_generated verdict gs)
      ≡ map (λ (g : Generated). g.key) gs
unfolding repoint_generated
repoint_generated-keys verdict [] = refl
repoint_generated-keys verdict (g ∷ gs) = ap (λ z. g.key ∷ z) (repoint_generated-keys verdict gs)

names_of :
    (f : Bytes → EnvVar)
    → ((k : Bytes) → (f k).name ≡ k)
    → (ks : List Bytes) → map (λ (e : EnvVar). e.name) (map f ks) ≡ ks
names_of f h [] = refl
names_of f h (k ∷ ks) = ground (arith, h k, names_of f h ks)

keys_of :
    (f : Bytes → Generated)
    → ((k : Bytes) → (f k).key ≡ k)
    → (ks : List Bytes) → map (λ (g : Generated). g.key) (map f ks) ≡ ks
keys_of f h [] = refl
keys_of f h (k ∷ ks) = ground (arith, h k, keys_of f h ks)

generated_var-key : (name k v : Bytes) → (generated_var name k v).key ≡ k
generated_var-key name k v = ground arith

-- The three ways of a service's variable, by its key.
abbrev pub of_service : (Bytes → Bytes → Bool) → Service → Bytes → Bool
of_service way svc k = way k (value_of k svc.environment)

pub mem-sort_notes : (ns : List Note) {n : Note} → Memᴰ n ns → Memᴰ n (sort_notes ns)
unfolding sort_notes
mem-sort_notes ns m = mem-sort_by (λ a b. precedes (note_text a) (note_text b)) ns m

-- No variable of a service is lost: taken in sorted order, the keys of those that are passed on are
-- the names in the workload's environment, those that are to be generated are the keys of what is
-- generated, and each one that waits for the public URL leaves a note.
pub environment_accounted :
    (go : Runtime) (t : Template) (name : Bytes) (svc : Service) (o : Options) (primary : Bytes)
    → let out = as_workload go t name svc o primary in
      let keys = sorted_keys svc.environment in
      (map (λ (e : EnvVar). e.name) out.0.env ≡ keep (of_service is_plain svc) keys)
      × (map (λ (g : Generated). g.key) out.2 ≡ keep (of_service is_generated svc) keys)
      × ((k : Bytes)
          → Memᴰ k keys
          → of_service is_waiting svc k ≡ true
          → Memᴰ (url_note name k) out.1)
unfolding as_workload workload_from read_environment
environment_accounted go t name svc o primary =
    let m = svc.environment in
    let keys = sorted_keys m in
    let found = read_environment name m in
    let (e, g, n) = loop_adds name m keys no_environment in
    (
      repoint_env-names (judge go t name primary) found.env
          ∙ ap (map (λ (x : EnvVar). x.name)) e
          ∙ names_of (at name m env_var) (λ k. refl) (keep (of_service is_plain svc) keys),
      repoint_generated-keys (judge go t name primary) found.generated
          ∙ ap (map (λ (x : Generated). x.key)) g
          ∙ keys_of (at name m (generated_var name)) (λ k. generated_var-key name k (value_of k m))
              (keep (of_service is_generated svc) keys),
      λ k present waits. mem-sort_notes _ (
          mem-append_right (port_choice t.port name svc (name == primary)).1 _ (
            mem-append_left found.notes _ (
              subst (λ z. Memᴰ (url_note name k) z) (sym n)
                (Memᴰ.map (url_note name)
                  (mem-keep (of_service is_waiting svc) keys present waits))))),
    )
