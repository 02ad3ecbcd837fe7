-- ===== src/Compose/Convert/Stable.antt =====
-- `Convert` of compose/convert.go against the order in which a map of Go is ranged over.
use k8s_lab.Common.{
  Bool, true, false, ℕ, List, [], ◌∷◌, ◌++◌, Option, none, some, ◌||◌, not, ◌==◌, nat_eq, list_eq,
  ◌≡◌, refl, sym, ap, ap₂, ◌∙◌, if◌then◌else◌, length, any, arith, Memᴰ, length-map,
}
use mathlib.Core.Path.{fun_ext}
use k8s_lab.Common.Bytes.{Bytes, text, precedes, has_infix}
use k8s_lab.Common.Map.{Map, get, entries, is_some}
use k8s_lab.Common.Map.Keys.{keys, keys-Nodup, get_of_mem-keys, mem-keys_of_get}
use k8s_lab.Common.Sort.{length-sort_by}
use k8s_lab.Common.Sort.Unique.{IsOrder, sort_by_unique}
use k8s_lab.Common.Int.{ℤ, pos, negsuc}
use k8s_lab.Common.Result.{Result, err}
use k8s_lab.Evidence.Ids.{show}
use k8s_lab.Compose.{
  Service, Template, Note, Options, Workload, Database, Generated, Conversion, Runtime,
}
use k8s_lab.Compose.Siblings.{Verdict, ignored, own, repointed, judge}
use k8s_lab.Compose.Workloads.{as_workload, workload_from, sorted_keys}
use k8s_lab.Compose.Databases.{as_database, database_for}
use k8s_lab.Compose.Names.{is_database_image, object_name}
use k8s_lab.Compose.Convert.{
  Error, no_namespace, Progress, zero_service, service_of, mentions, with_port, or_first, by_port,
  primary_service, resolve, convert_resolved, convert_loop, add_database, add_workload, nothing_yet,
  finish, with_size, converted, convert,
}

precedes_total : (x y : Bytes) → precedes x y ≡ false → precedes y x ≡ true
unfolding precedes
precedes_total [] y h = absurd (ground arith)
precedes_total (c ∷ s) [] h = refl
precedes_total (c ∷ s) (d ∷ t) h = ground (arith, precedes_total s t)

precedes_antisym : (x y : Bytes) → precedes x y ≡ true → precedes y x ≡ true → x ≡ y
unfolding precedes
precedes_antisym [] [] h k = refl
precedes_antisym [] (d ∷ t) h k = absurd (ground arith)
precedes_antisym (c ∷ s) [] h k = absurd (ground arith)
precedes_antisym (c ∷ s) (d ∷ t) h k = ground (arith, precedes_antisym s t)

precedes_trans : (x y z : Bytes) → precedes x y ≡ true → precedes y z ≡ true → precedes x z ≡ true
unfolding precedes
precedes_trans [] y z h k = refl
precedes_trans (b ∷ r) [] z h k = absurd (ground arith)
precedes_trans (b ∷ r) (c ∷ s) [] h k = absurd (ground arith)
precedes_trans (b ∷ r) (c ∷ s) (d ∷ t) h k = ground (arith, precedes_trans r s t)

precedes-IsOrder : IsOrder precedes
precedes-IsOrder = record {
  total = precedes_total;
  antisym = precedes_antisym;
  trans = precedes_trans;
}

module _ {V : Type 0} (m m' : Map Bytes V) where
  mem-keys_same :
      ((k : Bytes) → get k m ≡ get k m') → (k : Bytes) → Memᴰ k (keys m) → Memᴰ k (keys m')
  mem-keys_same same k h =
      let (v, at) = get_of_mem-keys m k h in mem-keys_of_get m' k v (sym (same k) ∙ at)

sorted_keys_same :
    {V : Type 0} (m m' : Map Bytes V)
    → ((k : Bytes) → get k m ≡ get k m')
    → sorted_keys m ≡ sorted_keys m'
unfolding sorted_keys
sorted_keys_same m m' same =
    sort_by_unique precedes precedes-IsOrder (keys m) (keys m') (keys-Nodup m) (keys-Nodup m')
      (mem-keys_same m m' same) (mem-keys_same m' m (λ k. sym (same k)))

length-entries : {V : Type 0} (m : Map Bytes V) → length (entries m) ≡ length (sorted_keys m)
unfolding sorted_keys
length-entries m = sym (length-sort_by precedes (keys m) ∙ length-map (λ x. x.0) (entries m))

-- Two templates that differ at most in the order of their services.
pub record IsSame (t t' : Template) : Type 0 where
  pub name : t.name ≡ t'.name
  pub port : t.port ≡ t'.port
  pub services : (k : Bytes) → get k t.services ≡ get k t'.services

abbrev judged : Runtime → Bytes → Bytes → Bytes → Option Service → Bytes → Verdict
judged go self primary host found template =
    if host == self
    then ignored
    else if not (is_some found)
    then ignored
    else if host == primary
    then own
    else repointed (object_name go (template ++ (b'-' ∷ host)))

abbrev has_port : Bytes → Bytes → Service → Option Bytes → Option Bytes
has_port want name svc rest =
    if any (has_infix want) svc.ports || mentions want svc.health_check then some name else rest

-- One round of `Convert`, by what the two conversions of the service answer.
abbrev outcome :
    Bytes
    → Bytes
    → Progress
    → Service × List Note
    → Option (Database × List Note)
    → Workload × List Note × List Generated
    → Progress
outcome name primary acc svc db w = elim db [
  | some d ↦ add_database name svc.0 svc.1 acc d
  | none ↦ add_workload name primary svc.1 acc w
]

module _ (go : Runtime) (t t' : Template) (s : IsSame t t') where
  names_same : sorted_keys t.services ≡ sorted_keys t'.services
  names_same = sorted_keys_same t.services t'.services s.services

  single_same : (length (entries t.services) == 1) ≡ (length (entries t'.services) == 1)
  single_same =
      ap (λ (n : ℕ). n == 1)
        (length-entries t.services ∙ ap length names_same ∙ sym (length-entries t'.services))

  service_of_same : (k : Bytes) → service_of t k ≡ service_of t' k
  unfolding service_of
  service_of_same k =
      let read : Option Service → Service =
        λ found. elim found [ none ↦ zero_service | some svc ↦ svc ] in
      ap read (s.services k)

  judge_same : (self primary : Bytes) → judge go t self primary ≡ judge go t' self primary
  unfolding judge
  judge_same self primary = fun_ext (λ host.
      ap₂
        (λ (found : Option Service) (template : Bytes). judged go self primary host found template)
        (s.services host) s.name)

  as_workload_same :
      (name : Bytes) (svc : Service) (o : Options) (primary : Bytes)
      → as_workload go t name svc o primary ≡ as_workload go t' name svc o primary
  unfolding as_workload
  as_workload_same name svc o primary =
      let build : Bytes → ℤ → Bool → (Bytes → Verdict) → Workload × List Note × List Generated =
        λ template port is_single verdict.
          workload_from go template port is_single verdict name svc o (name == primary) in
      ap (λ z. build z t.port (length (entries t.services) == 1) (judge go t name primary)) s.name
      ∙ ap (λ z. build t'.name z (length (entries t.services) == 1) (judge go t name primary))
          s.port
      ∙ ap₂ (λ z w. build t'.name t'.port z w) single_same (judge_same name primary)

  as_database_same :
      (name : Bytes) (svc : Service) (o : Options)
      → as_database go t name svc o ≡ as_database go t' name svc o
  unfolding as_database
  as_database_same name svc o =
      ap (λ z. if is_database_image svc.image then some (database_for go z name svc o) else none)
        s.name

  with_port_same :
      (want : Bytes) (names : List Bytes) → with_port t want names ≡ with_port t' want names
  unfolding with_port
  with_port_same want [] = refl
  with_port_same want (name ∷ names) =
      ap₂ (has_port want name) (service_of_same name) (with_port_same want names)

  by_port_same : (names : List Bytes) (n : ℤ) → by_port t names n ≡ by_port t' names n
  unfolding by_port
  by_port_same names (negsuc n) = refl
  by_port_same names (pos n) =
      ap (λ z. if n == 0 then none else z) (with_port_same (text (show (pos n))) names)

  primary_service_same : (names : List Bytes) → primary_service t names ≡ primary_service t' names
  unfolding primary_service
  primary_service_same [] = refl
  primary_service_same (name ∷ []) = refl
  primary_service_same (name ∷ other ∷ rest) =
      ap (λ z. some (or_first name z))
        (ap (by_port t (name ∷ other ∷ rest)) s.port ∙ by_port_same (name ∷ other ∷ rest) t'.port)

  convert_resolved_same :
      (o : Options) (primary name : Bytes) (acc : Progress) (svc : Service × List Note)
      → convert_resolved go t o primary name acc svc ≡ convert_resolved go t' o primary name acc svc
  unfolding convert_resolved
  convert_resolved_same o primary name acc svc =
      ap₂ (outcome name primary acc svc) (as_database_same name svc.0 o)
        (as_workload_same name svc.0 o primary)

  convert_loop_same :
      (o : Options) (primary : Bytes) (acc : Progress) (names : List Bytes)
      → convert_loop go t o primary acc names ≡ convert_loop go t' o primary acc names
  unfolding convert_loop
  convert_loop_same o primary acc [] = refl
  convert_loop_same o primary acc (name ∷ names) =
      convert_loop_same o primary
        (convert_resolved go t o primary name acc (resolve name (service_of t name))) names
      ∙ ap (λ z. convert_loop go t' o primary z names)
          (convert_resolved_same o primary name acc (resolve name (service_of t name))
            ∙ ap (λ z. convert_resolved go t' o primary name acc (resolve name z))
                (service_of_same name))

  converted_same :
      (o : Options) (names : List Bytes) (primary : Option Bytes)
      → converted go t o names primary ≡ converted go t' o names primary
  unfolding converted
  converted_same o names none = refl
  converted_same o names (some primary) =
      ap finish (convert_loop_same (with_size o) primary nothing_yet names)

  -- The result of a conversion, an error or the objects with all their notes, does not depend on
  -- the order in which the services are ranged over: two templates with the same name and port that
  -- find the same service under every name convert to the same.
  pub convert_same : (o : Options) → convert go t o ≡ convert go t' o
  unfolding convert
  convert_same o =
      let end : Result Error Conversion → Result Error Conversion =
        λ z. if o.namespace == [] then err no_namespace else z in
      ap end (
        converted_same o (sorted_keys t.services) (primary_service t (sorted_keys t.services))
        ∙ ap₂ (converted go t' o) names_same
            (primary_service_same (sorted_keys t.services) ∙ ap (primary_service t') names_same))
