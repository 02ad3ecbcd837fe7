-- ===== src/Catalog/Plan/Met.antt =====
-- What attachSecrets of catalog/plan.go makes of the requests of a conversion, where it blocks nothing.
use k8s_lab.Common.{
  true, List, [], ◌∷◌, ◌++◌, ◌==◌, nat_eq, list_eq, ◌≡◌, refl, sym, ap, ◌∙◌, subst, length, arith,
  inl, inr, Bool-cases, Memᴰ, append_nil, mem-keep,
}
use mathlib.Core.List.Memᴰ
use k8s_lab.Common.Bytes.{Bytes, precedes}
use k8s_lab.Common.Map.{Map}
use k8s_lab.Common.Sort.{mem-sort_by}
use k8s_lab.Common.Sort.Unique.{mem-append_left, mem-append_right}
use k8s_lab.Compose.{Workload, Conversion, Source, Generated}
use k8s_lab.Catalog.{Entry}
use k8s_lab.Catalog.Plan.{Options, Blocker, Key, Secret, is_installable}
use k8s_lab.Catalog.Plan.Secrets.{
  Asked, Attached, owned_by_database, ask, ask_all, asked_of, secret_of, secret_name, attach_keys,
  attach_one, attach_secrets, nothing_attached,
}
use k8s_lab.Catalog.Plan.Made.{plan_of}
use k8s_lab.Catalog.Plan.Accepted.{blockers_nil}

abbrev pub key_of : Generated → Key
key_of g = record { name = g.key; template = g.value; sources = g.sources }

-- A key is in the Secret of a workload.
abbrev pub IsIn : List Secret → Workload → Key → Type 0
IsIn secrets w k = (x : Secret) × Memᴰ x secrets × (x.name ≡ secret_name w) × Memᴰ k x.keys

grown-IsIn :
    (secrets more : List Secret) (w : Workload) (k : Key)
    → ((x : Secret) → Memᴰ x secrets → Memᴰ x more)
    → IsIn secrets w k
    → IsIn more w k
grown-IsIn secrets more w k grows (x, m, n, i) = (x, grows x m, n, i)

module _ (object : Bytes) (owned : List Source) where
  ask-blockers :
      (acc : Asked) (g : Generated)
      → (ask object owned acc g).blockers ≡ []
      → (acc.blockers ≡ []) × ((ask object owned acc g).keys ≡ acc.keys ++ (key_of g ∷ []))
  unfolding ask
  ask-blockers acc g h = elim (Bool-cases (length (owned_by_database g.sources owned) == 0)) [
    | inl fine ↦ rw fine (rw fine at h, refl)
    | inr bad ↦ let (_, end) = append_nil acc.blockers _ (rw bad at h) in absurd (ground arith)
  ]

  ask_all-met :
      (gs : List Generated) (acc : Asked)
      → (ask_all object owned acc gs).blockers ≡ []
      → (acc.blockers ≡ [])
        × ((k : Key) → Memᴰ k acc.keys → Memᴰ k (ask_all object owned acc gs).keys)
        × ((g : Generated) → Memᴰ g gs → Memᴰ (key_of g) (ask_all object owned acc gs).keys)
  unfolding ask_all
  ask_all-met [] acc h = (h, λ k m. m, λ g m. absurd (Memᴰ.not-nil m))
  ask_all-met (x ∷ gs) acc h =
      let (free, keep_on, met) = ask_all-met gs (ask object owned acc x) h in
      let (start, made) = ask-blockers acc x free in
      (
        start,
        λ k m.
            keep_on k
              (subst (λ z. Memᴰ k z) (sym made) (mem-append_left acc.keys (key_of x ∷ []) m)),
        λ g m. elim (Memᴰ.cases_cons m) [
          | inr later ↦ met g later
          | inl here ↦ keep_on (key_of g) (
              subst (λ z. Memᴰ (key_of g) z) (sym made)
                (mem-append_right acc.keys (key_of x ∷ []) (Memᴰ.head (ap key_of here))))
        ],
      )

-- The end of a round loses no Secret, and what it collected is in the workload's.
attach_keys-met :
    (w : Workload) (acc : Attached) (ks : List Key) (mint : Map Bytes Source)
    (blockers : List Blocker)
    → let next = attach_keys w acc (record { keys = ks; mint = mint; blockers = blockers }) in
      (next.blockers ≡ blockers)
      × ((x : Secret) → Memᴰ x acc.secrets → Memᴰ x next.secrets)
      × ((k : Key) → Memᴰ k ks → IsIn next.secrets w k)
unfolding attach_keys secret_of
attach_keys-met w acc [] mint blockers = (refl, λ x m. m, λ k m. absurd (Memᴰ.not-nil m))
attach_keys-met w acc (j ∷ ks) mint blockers = (
  refl,
  λ x m. mem-append_left acc.secrets _ m,
  λ k m. (
    secret_of w (j ∷ ks),
    mem-append_right acc.secrets (secret_of w (j ∷ ks) ∷ []) (Memᴰ.head refl),
    refl,
    mem-sort_by (λ (a b : Key). precedes a.name b.name) (j ∷ ks) m,
  ),
)

module _ (res : Conversion) where
  attach_one-met :
      (acc : Attached) (w : Workload)
      → (attach_one res acc w).blockers ≡ []
      → (acc.blockers ≡ [])
        × ((x : Secret) → Memᴰ x acc.secrets → Memᴰ x (attach_one res acc w).secrets)
        × ((g : Generated)
            → Memᴰ g (asked_of res.generated w)
            → IsIn (attach_one res acc w).secrets w (key_of g))
  unfolding attach_one
  attach_one-met acc w h =
      let start : Asked = record { keys = []; mint = acc.mint; blockers = acc.blockers } in
      let asked = ask_all w.meta.name res.database_sources start (asked_of res.generated w) in
      let (same, grows, into) = attach_keys-met w acc asked.keys asked.mint asked.blockers in
      let (free, _, met) =
        ask_all-met w.meta.name res.database_sources (asked_of res.generated w) start
          (sym same ∙ h) in
      (free, grows, λ g m. into (key_of g) (met g m))

  attach_secrets-met :
      (ws : List Workload) (acc : Attached)
      → (attach_secrets res acc ws).blockers ≡ []
      → (acc.blockers ≡ [])
        × ((x : Secret) → Memᴰ x acc.secrets → Memᴰ x (attach_secrets res acc ws).secrets)
        × ((w : Workload) (g : Generated)
            → Memᴰ w ws
            → Memᴰ g (asked_of res.generated w)
            → IsIn (attach_secrets res acc ws).secrets w (key_of g))
  unfolding attach_secrets
  attach_secrets-met [] acc h = (h, λ x m. m, λ w g m. absurd (Memᴰ.not-nil m))
  attach_secrets-met (v ∷ ws) acc h =
      let (free, grows, met) = attach_secrets-met ws (attach_one res acc v) h in
      let (start, first, here) = attach_one-met acc v free in
      (
        start,
        λ x m. grows x (first x m),
        λ w g m a. elim (Memᴰ.cases_cons m) [
          | inr later ↦ met w g later a
          | inl same ↦ grown-IsIn (attach_one res acc v).secrets _ w (key_of g) grows (
              subst (λ z. IsIn (attach_one res acc v).secrets z (key_of g)) (sym same)
                (here g (subst (λ z. Memᴰ g (asked_of res.generated z)) same a)))
        ],
      )

-- An installable plan meets every request: the value that the conversion asks for, of a workload
-- that it made, is a key of the Secret that is named after that workload, under the request's key
-- and with its template and sources.
pub requests_met :
    (entry : Entry) (o : Options) (res : Conversion) (w : Workload) (g : Generated)
    → is_installable (plan_of entry o res) ≡ true
    → Memᴰ w res.workloads
    → Memᴰ g res.generated
    → g.service ≡ w.meta.compose_service
    → IsIn (plan_of entry o res).secrets w (key_of g)
unfolding plan_of asked_of
requests_met entry o res w g fine a b c =
    let (free, _) =
      append_nil (attach_secrets res nothing_attached res.workloads).blockers _
        (blockers_nil (plan_of entry o res) fine) in
    let (_, _, met) = attach_secrets-met res res.workloads nothing_attached free in
    met w g a (
      mem-keep (λ (x : Generated). x.service == w.meta.compose_service) res.generated b
        ((list_eq.equals_iff g.service w.meta.compose_service).1 c))
