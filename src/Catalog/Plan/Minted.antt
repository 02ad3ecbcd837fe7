-- ===== src/Catalog/Plan/Minted.antt =====
-- What attachSecrets of catalog/plan.go has minted: the values that its Secrets are built from.
use k8s_lab.Common.{
  Bool, true, false, List, [], ◌∷◌, ◌==◌, nat_eq, list_eq, ◌≡◌, sym, subst, length, any, arith, inl,
  inr, Bool-cases, Memᴰ, map, refl, ◌⊎◌, ◌↔◌,
}
use mathlib.Core.List.Memᴰ
use k8s_lab.Common.Bytes.{Bytes, precedes}
use k8s_lab.Common.Map.{Map, has}
use k8s_lab.Common.Sort.{mem-sort_by, mem_of_mem-sort_by}
use k8s_lab.Common.Sort.Unique.{mem-append_left, mem-append_right}
use k8s_lab.Compose.{Workload, Conversion, Source, Generated}
use k8s_lab.Catalog.{Entry}
use k8s_lab.Catalog.Plan.{Options, Blocker, Key, Secret}
use k8s_lab.Catalog.Plan.Secrets.{
  Asked, Attached, owned_by_database, ask, ask_all, asked_of, secret_of, attach_keys, attach_one,
  attach_secrets, nothing_attached, sorted_sources,
}
use k8s_lab.Catalog.Plan.Mint.{
  IsNamed, empty-IsNamed, empty_has, mint_all-IsNamed, mint_all-keeps, mint_all-has,
  mint_all-origin, mem-sorted_sources, get_of_mem-sorted_sources,
}
use k8s_lab.Catalog.Plan.Made.{plan_of}

abbrev pub is_owned : List Source → Source → Bool
is_owned owned s = any (λ (o : Source). o.name == s.name) owned

owned_by_database_nil :
    (want owned : List Source) (s : Source)
    → (length (owned_by_database want owned) == 0) ≡ true
    → Memᴰ s want
    → is_owned owned s ≡ false
unfolding owned_by_database
owned_by_database_nil [] owned s h m = absurd (Memᴰ.not-nil m)
owned_by_database_nil (w ∷ want) owned s h m = elim (Bool-cases (is_owned owned w)) [
  | inl bad ↦ absurd (let e = rw bad at h in ground arith)
  | inr fine ↦ elim (Memᴰ.cases_cons m) [
    | inl here ↦ subst (λ z. is_owned owned z ≡ false) (sym here) fine
    | inr later ↦ owned_by_database_nil want owned s (rw fine at h) later
  ]
]

-- A source of a key of one of the Secrets has a name.
abbrev pub IsUsed : List Secret → Bytes → Type 0
IsUsed secrets n =
    (x : Secret) × Memᴰ x secrets
    × (k : Key) × Memᴰ k x.keys
    × (s : Source) × Memᴰ s k.sources
    × (s.name ≡ n)

module _ (owned : List Source) where
  -- The sources of a key are minted and no database's.
  abbrev IsCovered : Map Bytes Source → Key → Type 0
  IsCovered m k =
      (s : Source) → Memᴰ s k.sources → (has s.name m ≡ true) × (is_owned owned s ≡ false)

  abbrev AreCovered : Map Bytes Source → List Key → Type 0
  AreCovered m ks = (k : Key) → Memᴰ k ks → IsCovered m k

  -- What is minted stays minted.
  abbrev Grows : Map Bytes Source → Map Bytes Source → Type 0
  Grows m m' = (n : Bytes) → has n m ≡ true → has n m' ≡ true

  AreCovered-Grows :
      (m m' : Map Bytes Source) (ks : List Key) → Grows m m' → AreCovered m ks → AreCovered m' ks
  AreCovered-Grows m m' ks grows c k h s i = let (x, y) = c k h s i in (grows s.name x, y)

  -- A source of one of the keys has a name.
  abbrev AreUsing : List Key → Bytes → Type 0
  AreUsing ks n = (k : Key) × Memᴰ k ks × (s : Source) × Memᴰ s k.sources × (s.name ≡ n)

  -- What a round of the loop over the requests keeps, from what was minted before.
  abbrev Holds : Map Bytes Source → Asked → Type 0
  Holds before acc =
      IsNamed acc.mint
      × Grows before acc.mint
      × AreCovered acc.mint acc.keys
      × ((n : Bytes) → has n acc.mint ≡ true → (has n before ≡ true) ⊎ AreUsing acc.keys n)

  module _ (object : Bytes) (before : Map Bytes Source) where
    ask-Holds :
        (acc : Asked) (g : Generated) → Holds before acc → Holds before (ask object owned acc g)
    unfolding ask
    ask-Holds acc g (named, grows, covered, origin) =
        elim (Bool-cases (length (owned_by_database g.sources owned) == 0)) [
          | inr bad ↦ rw bad (named, grows, covered, origin)
          | inl fine ↦ rw fine (
            mint_all-IsNamed g.sources acc.mint named,
            λ n h. mint_all-keeps g.sources acc.mint n (grows n h),
            λ k m s i. elim (Memᴰ.append_cases acc.keys m) [
              | inl old ↦
                  let (x, y) = covered k old s i in (mint_all-keeps g.sources acc.mint s.name x, y)
              | inr new ↦ elim (Memᴰ.cases_cons new) [
                | inr end ↦ absurd (Memᴰ.not-nil end)
                | inl e ↦
                    let j : Memᴰ s g.sources = subst (λ (z : Key). Memᴰ s z.sources) e i in
                    (
                      mint_all-has g.sources acc.mint s j,
                      owned_by_database_nil g.sources owned s fine j,
                    )
              ]
            ],
            λ n h. elim (mint_all-origin g.sources acc.mint n h) [
              | inr (s, i, is_n) ↦ inr (
                record { name = g.key; template = g.value; sources = g.sources },
                mem-append_right acc.keys _ (Memᴰ.head refl),
                s,
                i,
                is_n,
              )
              | inl earlier ↦ elim (origin n earlier) [
                | inl old ↦ inl old
                | inr (k, m, s, i, is_n) ↦ inr (k, mem-append_left acc.keys _ m, s, i, is_n)
              ]
            ],
          )
        ]

    ask_all-Holds :
        (gs : List Generated) (acc : Asked)
        → Holds before acc
        → Holds before (ask_all object owned acc gs)
    unfolding ask_all
    ask_all-Holds [] acc h = h
    ask_all-Holds (g ∷ gs) acc h = ask_all-Holds gs (ask object owned acc g) (ask-Holds acc g h)

  abbrev AreSecretsCovered : Map Bytes Source → List Secret → Type 0
  AreSecretsCovered m secrets = (x : Secret) → Memᴰ x secrets → AreCovered m x.keys

  abbrev IsAttached : Attached → Type 0
  IsAttached acc =
      IsNamed acc.mint
      × AreSecretsCovered acc.mint acc.secrets
      × ((n : Bytes) → has n acc.mint ≡ true → IsUsed acc.secrets n)

  attach_keys-IsAttached :
      (w : Workload) (acc : Attached) (ks : List Key) (mint : Map Bytes Source)
      (blockers : List Blocker)
      → IsAttached acc
      → Holds acc.mint (record { keys = ks; mint = mint; blockers = blockers })
      → IsAttached (attach_keys w acc (record { keys = ks; mint = mint; blockers = blockers }))
  unfolding attach_keys secret_of
  attach_keys-IsAttached w acc [] mint blockers h holds = (
    holds.0,
    λ x m. AreCovered-Grows acc.mint mint x.keys holds.1 (h.1 x m),
    λ n there. elim (holds.3 n there) [
      | inl old ↦ h.2 n old
      | inr (k, m, s, i, is_n) ↦ absurd (Memᴰ.not-nil m)
    ],
  )
  attach_keys-IsAttached w acc (k ∷ ks) mint blockers h holds = (
    holds.0,
    λ x m. elim (Memᴰ.append_cases acc.secrets m) [
      | inl old ↦ AreCovered-Grows acc.mint mint x.keys holds.1 (h.1 x old)
      | inr new ↦ elim (Memᴰ.cases_cons new) [
        | inr end ↦ absurd (Memᴰ.not-nil end)
        | inl same ↦
            subst (λ (z : Secret). AreCovered mint z.keys) (sym same)
              (λ key i.
                holds.2 key (mem_of_mem-sort_by (λ (a b : Key). precedes a.name b.name) (k ∷ ks) i))
      ]
    ],
    λ n there. elim (holds.3 n there) [
      | inl old ↦
          let (x, m, key, j, s, i, is_n) = h.2 n old in
          (x, mem-append_left acc.secrets _ m, key, j, s, i, is_n)
      | inr (key, m, s, i, is_n) ↦ (
        secret_of w (k ∷ ks),
        mem-append_right acc.secrets _ (Memᴰ.head refl),
        key,
        mem-sort_by (λ (a b : Key). precedes a.name b.name) (k ∷ ks) m,
        s,
        i,
        is_n,
      )
    ],
  )

module _ (res : Conversion) where
  attach_one-IsAttached :
      (acc : Attached) (w : Workload)
      → IsAttached res.database_sources acc
      → IsAttached res.database_sources (attach_one res acc w)
  unfolding attach_one
  attach_one-IsAttached acc w h =
      let start : Asked = record { keys = []; mint = acc.mint; blockers = acc.blockers } in
      let asked = ask_all w.meta.name res.database_sources start (asked_of res.generated w) in
      attach_keys-IsAttached res.database_sources w acc asked.keys asked.mint asked.blockers h (
        ask_all-Holds res.database_sources w.meta.name acc.mint (asked_of res.generated w) start
          (h.0, λ n x. x, λ k m. absurd (Memᴰ.not-nil m), λ n there. inl there))

  attach_secrets-IsAttached :
      (ws : List Workload) (acc : Attached)
      → IsAttached res.database_sources acc
      → IsAttached res.database_sources (attach_secrets res acc ws)
  unfolding attach_secrets
  attach_secrets-IsAttached [] acc h = h
  attach_secrets-IsAttached (w ∷ ws) acc h =
      attach_secrets-IsAttached ws (attach_one res acc w) (attach_one-IsAttached acc w h)

-- A plan mints what its Secrets need, nothing else, and nothing that a database publishes: the
-- names of the sources to mint are exactly those of the sources of the keys of the Secrets, and no
-- source to mint has the name of one of a database of the conversion.
pub secrets_minted :
    (entry : Entry) (o : Options) (res : Conversion)
    → let p = plan_of entry o res in
      ((n : Bytes) → Memᴰ n (map (λ (s : Source). s.name) p.mint) ↔ IsUsed p.secrets n)
      × ((s : Source) → Memᴰ s p.mint → is_owned res.database_sources s ≡ false)
unfolding plan_of
secrets_minted entry o res =
    let end = attach_secrets res nothing_attached res.workloads in
    let (named, covered, used) =
      attach_secrets-IsAttached res res.workloads nothing_attached
        (empty-IsNamed, λ x m. absurd (Memᴰ.not-nil m), λ n h. absurd (empty_has n h)) in
    (
      λ n. (
        λ m.
            let (s, i, same) = Memᴰ.of_map (λ (s : Source). s.name) (sorted_sources end.mint) m in
            used n (
              subst (λ z. has z end.mint ≡ true) same
                (get_of_mem-sorted_sources end.mint s named i)),
        λ (x, a, k, b, s, c, same).
            mem-sorted_sources end.mint n named
              (subst (λ z. has z end.mint ≡ true) same (covered x a k b s c).0),
      ),
      λ s i.
          let (x, a, k, b, t, c, same) =
            used s.name (get_of_mem-sorted_sources end.mint s named i) in
          subst (λ z. any (λ (o : Source). o.name == z) res.database_sources ≡ false) same
            (covered x a k b t c).1,
    )
