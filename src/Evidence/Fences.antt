-- ===== src/Evidence/Fences.antt =====
-- The compare-and-set and the version fence of `Transition` (evidence/memory/memory.go).
use k8s_lab.Common.{
  String, true, false, List, [], ◌∷◌, ℕ, suc, ◌≡◌, refl, Option, none, some, string_eq, eq_refl,
  nat_eqb_iff, arith, inl, inr, ◌⊎◌, ◌↔◌, length, length-append, Memᴰ, mem_of_contains,
  contains_of_mem,
}
use k8s_lab.Common.Map.{get, get-put}
use k8s_lab.Common.Clock.{Time, is_zero}
use k8s_lab.Common.Result.{ok, is_err}
use k8s_lab.Evidence.{ref_eq, Record, Transition}
use k8s_lab.Evidence.Ids.{ℤ, pos, negsuc}
use k8s_lab.Evidence.Chain.{Hasher}
use k8s_lab.Evidence.Store.{Store, transition, moved, is_elsewhere, is_stale, get_record}

-- What `Transition` asks of the record that it finds.
abbrev pub IsAccepted : Transition → Record → Type 0
IsAccepted t rec =
    ((t.from_states ≡ []) ⊎ Memᴰ rec.state t.from_states)
    × ((n : ℤ) → t.expect_events ≡ some n → n ≡ pos (length rec.transitions))

not_elsewhere : (xs : List String) (x : String) → is_elsewhere xs x ≡ false → (xs ≡ []) ⊎ Memᴰ x xs
unfolding is_elsewhere
not_elsewhere [] x e = inl refl
not_elsewhere (y ∷ ys) x e = inr (mem_of_contains (y ∷ ys) (ground arith))

elsewhere : (xs : List String) (x : String) → (xs ≡ []) ⊎ Memᴰ x xs → is_elsewhere xs x ≡ false
unfolding is_elsewhere
elsewhere [] x e = refl
elsewhere (y ∷ ys) x (inl e) = absurd (ground arith)
elsewhere (y ∷ ys) x (inr m) = ground (arith, contains_of_mem (y ∷ ys) m)

not_stale : (o : Option ℤ) (n : ℕ) → is_stale o n ≡ false → (m : ℤ) → o ≡ some m → m ≡ pos n
unfolding is_stale
not_stale none n e m q = absurd (ground arith)
not_stale (some (pos k)) n e m q = ground (arith, nat_eqb_iff k n)
not_stale (some (negsuc k)) n e m q = absurd (ground arith)

pos_injective : (m n : ℕ) → pos m ≡ pos n → m ≡ n
pos_injective m n e = ground arith

stale : (o : Option ℤ) (n : ℕ) → ((m : ℤ) → o ≡ some m → m ≡ pos n) → is_stale o n ≡ false
unfolding is_stale
stale none n h = refl
stale (some (pos k)) n h = ground (arith, nat_eqb_iff k n, pos_injective k n (h (pos k) refl))
stale (some (negsuc k)) n h = absurd (let e = h (negsuc k) refl in ground arith)

pub moved-length :
    (h : Hasher) (now : Time) (t : Transition) (rec : Record)
    → length (moved h now t rec).transitions ≡ suc (length rec.transitions)
unfolding moved
moved-length h now t rec = omega (arith, length-append rec.transitions _)

-- The compare-and-set: a transition of a stored record, with a time, succeeds if and only if the
-- record is in one of the states expected, or none is, and it has as many events as the caller
-- derived from, if the caller says so. Then the record has one event more and the new state, and
-- otherwise the store is as it was.
pub transition_exact :
    (h : Hasher) (now : Time) (id : String) (t : Transition) (rec : Record) (s : Store)
    → get id s.by_id ≡ some rec
    → is_zero t.at ≡ false
    → let r = transition h now id t s in
      ((is_err r.0 ≡ false) ↔ IsAccepted t rec)
      × (is_err r.0 ≡ true → r.1 ≡ s)
      × (is_err r.0 ≡ false
          → (after : Record) × (get_record id r.1 ≡ ok after)
            × (after.state ≡ t.to_state)
            × (length after.transitions ≡ suc (length rec.transitions))
            × (after.hash ≡ rec.hash))
unfolding transition get_record
transition_exact h now id t rec s at when = (
  (
    λ done. (
      not_elsewhere t.from_states rec.state (ground arith),
      not_stale t.expect_events (length rec.transitions) (ground arith),
    ),
    λ (from, fence). ground (
      arith,
      elsewhere t.from_states rec.state from,
      stale t.expect_events (length rec.transitions) fence,
    ),
  ),
  λ refused. ground arith,
  λ done. (
    moved h now t rec,
    ground (arith, get-put id id (moved h now t rec) s.by_id, eq_refl id),
    unfold moved in refl,
    moved-length h now t rec,
    unfold moved in refl,
  ),
)
