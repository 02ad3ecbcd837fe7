-- ===== src/Deploywatch/Sweep/Exact.antt =====
-- What a pass of the sweep of internal/deploywatch/sweep.go leaves in the archive.
use k8s_lab.Common.{
  String, Bool, true, false, ℕ, List, [], ◌∷◌, ◌++◌, ◌≡◌, ◌≢◌, refl, sym, ap, ◌∙◌, subst, none,
  some, ◌&&◌, string_eq, nat_eq, eq_iff, nat_eqb_iff, arith, if◌then◌else◌, inl, inr, Bool-cases,
  keep, Memᴰ, length, contains,
}
use mathlib.Core.List.Memᴰ
use k8s_lab.Common.Map.{Map, get, put, get-put}
use k8s_lab.Common.Sort.Unique.{Nodup}
use k8s_lab.Common.Clock.{Time, before, is_zero}
use k8s_lab.Evidence.{Record}
use k8s_lab.Evidence.Ids.{pos}
use k8s_lab.Evidence.Chain.{Hasher}
use k8s_lab.Evidence.Store.{Store, transition, moved, is_elsewhere, is_stale}
use k8s_lab.Evidence.Reads.{is_match}
use k8s_lab.Deploywatch.Sweep.{
  waiting, give_up, sweep_query, Clocks, sweep_one, go_on, sweep_records,
}
use k8s_lab.Deploywatch.Sweep.Pages.{ids}

-- A record that a pass gives up: opened before the cutoff and not answered.
abbrev pub is_overdue : Time → Record → Bool
is_overdue cutoff r = contains waiting r.state && before r.created_at cutoff

overdue_matches :
    (cutoff : Time) (after : String) (r : Record)
    → is_match (sweep_query cutoff after) r ≡ false
    → is_overdue cutoff r ≡ false
unfolding is_match
overdue_matches cutoff after r h = ground arith

waiting_here : (state : String) → contains waiting state ≡ true → is_elsewhere waiting state ≡ false
unfolding is_elsewhere
waiting_here state h = rw h refl

not_stale : (n : ℕ) → is_stale (some (pos n)) n ≡ false
unfolding is_stale
not_stale n = rw ((nat_eqb_iff n n).1 refl) refl

module _ (h : Hasher) (reason : String) (clocks : Clocks) (cutoff : Time) where
  -- A record once it is given up.
  abbrev pub given_up : Record → Record
  given_up r = moved h (clocks r.id).stored (give_up reason (clocks r.id) r) r

  -- The records under their ids, after those of a list that are overdue are given up.
  unfoldable pub swept : List Record → Map String Record → Map String Record
  swept [] m = m
  swept (r ∷ rs) m = swept rs (if is_overdue cutoff r then put r.id (given_up r) m else m)

  pub swept-append :
      (xs ys : List Record) (m : Map String Record) → swept (xs ++ ys) m ≡ swept ys (swept xs m)
  unfolding swept
  swept-append [] ys m = refl
  swept-append (x ∷ xs) ys m = swept-append xs ys _

  -- Records that do not match are not overdue.
  pub swept-keep :
      (after : String) (rs : List Record) (m : Map String Record)
      → swept (keep (is_match (sweep_query cutoff after)) rs) m ≡ swept rs m
  unfolding swept keep
  swept-keep after [] m = refl
  swept-keep after (r ∷ rs) m = elim (Bool-cases (is_match (sweep_query cutoff after) r)) [
    | inl matches ↦ rw (matches, keep) (swept-keep after rs _)
    | inr other ↦
        rw (other, keep) (swept-keep after rs m ∙ rw (overdue_matches cutoff after r other) refl)
  ]

  pub get-give_up :
      (r : Record) (m : Map String Record) (id : String)
      → r.id ≢ id
      → get id (if is_overdue cutoff r then put r.id (given_up r) m else m) ≡ get id m
  get-give_up r m id other = ground (arith, get-put r.id id (given_up r) m, eq_iff r.id id)

  -- Records of other ids are left alone.
  pub get-swept :
      (rs : List Record) (m : Map String Record) (id : String)
      → (Memᴰ id (ids rs) → ⊥)
      → get id (swept rs m) ≡ get id m
  unfolding swept
  get-swept [] m id new = refl
  get-swept (r ∷ rs) m id new =
      get-swept rs _ id (λ k. new (Memᴰ.tail k)) ∙ get-give_up r m id (λ e. new (Memᴰ.head (sym e)))

  module _ (running_clock : (id : String) → is_zero (clocks id).at ≡ false) where
    sweep_one-swept :
        (r : Record) (s : Store) (m : Map String Record)
        → get r.id m ≡ some r
        → contains waiting r.state ≡ true
        → sweep_one h reason clocks cutoff r (record s { by_id = m }) ≡ (
          none,
          record s { by_id = (if is_overdue cutoff r then put r.id (given_up r) m else m) },
        )
    unfolding sweep_one transition
    sweep_one-swept r s m there waits = elim (Bool-cases (before r.created_at cutoff)) [
      | inr young ↦ rw (young, waits) refl
      | inl old ↦
          rw
            (
              old,
              running_clock r.id,
              there,
              waiting_here r.state waits,
              not_stale (length r.transitions),
              waits,
            )
            refl
    ]

    -- Over records that are as stored and all wait, the inner loop gives up those overdue.
    pub sweep_records-swept :
        (rs : List Record) (s : Store) (m : Map String Record)
        → ((r : Record) → Memᴰ r rs → get r.id m ≡ some r)
        → ((r : Record) → Memᴰ r rs → contains waiting r.state ≡ true)
        → Nodup (ids rs)
        → sweep_records h reason clocks cutoff rs (record s { by_id = m })
          ≡ (none, record s { by_id = swept rs m })
    unfolding sweep_records swept go_on
    sweep_records-swept [] s m there waits n = refl
    sweep_records-swept (r ∷ rs) s m there waits n =
        ap (go_on (sweep_records h reason clocks cutoff rs))
          (sweep_one-swept r s m (there r (Memᴰ.head refl)) (waits r (Memᴰ.head refl)))
        ∙ sweep_records-swept rs s _
            (λ x k.
              get-give_up r m x.id (λ e.
                n.0 (subst (λ z. Memᴰ z (ids rs)) (sym e) (Memᴰ.map (λ (y : Record). y.id) k)))
              ∙ there x (Memᴰ.tail k))
            (λ x k. waits x (Memᴰ.tail k)) n.1
