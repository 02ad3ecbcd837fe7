-- ===== src/Deploywatch/Sweep/Lost.antt =====
-- A record that changes between the page that the sweep of internal/deploywatch/sweep.go reads and
-- its write.
use k8s_lab.Common.{
  String, true, false, ℕ, ◌≡◌, ◌≢◌, ◌⊎◌, refl, some, none, arith, inl, inr, Bool-cases, length,
  contains, string_eq, nat_eqb, nat_eqb_iff,
}
use k8s_lab.Common.Map.{get}
use k8s_lab.Common.Clock.{Time, before, is_zero}
use k8s_lab.Evidence.{Record}
use k8s_lab.Evidence.Ids.{pos}
use k8s_lab.Evidence.Chain.{Hasher}
use k8s_lab.Evidence.Store.{Store, transition, is_elsewhere, is_stale}
use k8s_lab.Deploywatch.Sweep.{waiting, Clocks, sweep_one}

answered_elsewhere :
    (state : String) → contains waiting state ≡ false → is_elsewhere waiting state ≡ true
unfolding is_elsewhere
answered_elsewhere state h = rw h refl

newer_is_stale : (m n : ℕ) → m ≢ n → is_stale (some (pos m)) n ≡ true
unfolding is_stale
newer_is_stale m n h = elim (Bool-cases (nat_eqb m n)) [
  | inl same ↦ absurd (h ((nat_eqb_iff m n).0 same))
  | inr other ↦ rw other refl
]

-- The sweep loses to whoever got there first: where the record that it wants to give up has in the
-- meantime left pending and syncing, or has got an event, nothing is written and the pass goes on,
-- at any time of the clock that is not zero.
pub sweep_loses :
    (h : Hasher) (reason : String) (clocks : Clocks) (cutoff : Time) (rec now : Record) (s : Store)
    → get rec.id s.by_id ≡ some now
    → is_zero (clocks rec.id).at ≡ false
    → (contains waiting now.state ≡ false) ⊎ (length rec.transitions ≢ length now.transitions)
    → sweep_one h reason clocks cutoff rec s ≡ (none, s)
unfolding sweep_one transition
sweep_loses h reason clocks cutoff rec now s there when changed =
    elim (Bool-cases (before rec.created_at cutoff)) [
      | inr young ↦ rw young refl
      | inl old ↦ elim (Bool-cases (is_elsewhere waiting now.state)) [
        | inl elsewhere ↦ rw (old, when, there, elsewhere) refl
        | inr here ↦ elim changed [
          | inl answered ↦ absurd (let gone = answered_elsewhere now.state answered in ground arith)
          | inr newer ↦
              rw
                (
                  old,
                  when,
                  there,
                  here,
                  newer_is_stale (length rec.transitions) (length now.transitions) newer,
                )
                refl
        ]
      ]
    ]
