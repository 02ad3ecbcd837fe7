-- ===== src/Evidence/Current.antt =====
-- Which record a `Ref` is on: `Current` of evidence/memory/memory.go.
use k8s_lab.Common.{
  Bool, true, false, List, [], ◌∷◌, ℕ, ◌<◌, ◌≤◌, ◌≡◌, ◌≢◌, refl, sym, ap, ◌∙◌, subst, Option, none,
  some, ◌==◌, string_eq, arith, if◌then◌else◌, inl, inr, ◌⊎◌, ◌↔◌, Bool-cases, ltb, ◌&&◌, Memᴰ,
}
use mathlib.Core.List.Memᴰ
use k8s_lab.Common.Result.{Result, ok, err}
use k8s_lab.Evidence.{Ref, ref_eq, Record, Error, not_found}
use k8s_lab.Evidence.Store.{Store}
use k8s_lab.Evidence.Reads.{records, is_live, better, newest_of, current}

abbrev pub is_candidate : Ref → Record → Bool
is_candidate ref r = r.ref == ref && is_live r

-- The best record of a list and of one found before it.
abbrev IsBest : Ref → Option Record → List Record → Option Record → Type 0
IsBest ref best rs none = (best ≡ none) × ((q : Record) → Memᴰ q rs → is_candidate ref q ≡ false)
IsBest ref best rs (some r) =
    ((best ≡ some r) ⊎ (Memᴰ r rs × (is_candidate ref r ≡ true)))
    × ((b : Record) → best ≡ some b → b.seq ≤ r.seq)
    × ((q : Record) → Memᴰ q rs → is_candidate ref q ≡ true → q.seq ≤ r.seq)

-- A bound that holds of the head and of the rest holds of the whole.
bound_cons :
    (ref : Ref) (r : Record) (rs : List Record) (n : ℕ)
    → (is_candidate ref r ≡ true → r.seq ≤ n)
    → ((q : Record) → Memᴰ q rs → is_candidate ref q ≡ true → q.seq ≤ n)
    → (q : Record) → Memᴰ q (r ∷ rs)
    → is_candidate ref q ≡ true
    → q.seq ≤ n
bound_cons ref r rs n here rest q m c = elim (Memᴰ.cases_cons m) [
  | inl e ↦
      let first = here (sym (ap (is_candidate ref) e) ∙ c) in
      subst (λ (k : Record). k.seq ≤ n) (sym e) first
  | inr k ↦ rest q k c
]

-- The record that a loop has found after one that did not take the place of the best.
kept-IsBest :
    (ref : Ref) (best : Option Record) (r : Record) (rs : List Record) (o : Option Record)
    → ((x : Record) → o ≡ some x → is_candidate ref r ≡ true → r.seq ≤ x.seq)
    → (o ≡ none → is_candidate ref r ≡ false)
    → IsBest ref best rs o
    → IsBest ref best (r ∷ rs) o
kept-IsBest ref best r rs none low out (e, others) = (
  e,
  λ q m. elim (Memᴰ.cases_cons m) [
    | inl same ↦ ap (is_candidate ref) same ∙ out refl
    | inr k ↦ others q k
  ],
)
kept-IsBest ref best r rs (some x) low out (from, above, over) = (
  elim from [ inl e ↦ inl e | inr (m, c) ↦ inr (Memᴰ.tail m, c) ],
  above,
  bound_cons ref r rs x.seq (low x refl) over,
)

-- And after one that did.
taken-IsBest :
    (ref : Ref) (best : Option Record) (r : Record) (rs : List Record) (o : Option Record)
    → is_candidate ref r ≡ true
    → ((b : Record) → best ≡ some b → b.seq < r.seq)
    → IsBest ref (some r) rs o
    → IsBest ref best (r ∷ rs) o
taken-IsBest ref best r rs none c better_than (e, others) = absurd (ground arith)
taken-IsBest ref best r rs (some x) c better_than (from, above, over) = (
  elim from [
    | inl e ↦
        let same : x ≡ r = ground arith in inr (Memᴰ.head same, ap (is_candidate ref) same ∙ c)
    | inr (m, d) ↦ inr (Memᴰ.tail m, d)
  ],
  λ b e. omega (arith, better_than b e, above r refl),
  bound_cons ref r rs x.seq (λ d. above r refl) over,
)

IsBest-step :
    (ref : Ref) (best : Option Record) (r : Record) (rs : List Record) (o : Option Record)
    → IsBest ref (if is_candidate ref r then better best r else best) rs o
    → IsBest ref best (r ∷ rs) o
IsBest-step ref best r rs o ih = elim (Bool-cases (is_candidate ref r)) [
  | inr f ↦
      let ih' : IsBest ref best rs o =
        subst (λ b. IsBest ref (if b then better best r else best) rs o) f ih in
      kept-IsBest ref best r rs o (λ x e c. absurd (ground arith)) (λ e. f) ih'
  | inl t ↦ candidate t best (subst (λ b. IsBest ref (if b then better best r else best) rs o) t ih)
]
  where
    low_of :
        (b : Record) (w : Option Record)
        → r.seq ≤ b.seq
        → IsBest ref (some b) rs w
        → (x : Record) → w ≡ some x
        → r.seq ≤ x.seq
    low_of b none le ih' x e = absurd (ground arith)
    low_of b (some y) le (from, above, over) x e =
        let same : y ≡ x = ground arith in
        subst (λ (z : Record). r.seq ≤ z.seq) same (omega (arith, le, above b refl))

    some_of : (b : Record) (w : Option Record) → IsBest ref (some b) rs w → w ≢ none
    some_of b none ih' e = ground arith
    some_of b (some y) ih' e = ground arith

    candidate :
        is_candidate ref r ≡ true
        → (w : Option Record) → IsBest ref (better w r) rs o
        → IsBest ref w (r ∷ rs) o
    candidate t none ih' = taken-IsBest ref none r rs o t (λ b e. absurd (ground arith)) ih'
    candidate t (some b) ih' = elim (Bool-cases (ltb b.seq r.seq)) [
      | inl more ↦
          taken-IsBest ref (some b) r rs o t
            (λ d e.
              let same : b ≡ d = ground arith in
              subst (λ (z : Record). z.seq < r.seq) same (ground arith))
            (subst (λ c. IsBest ref (if c then some r else some b) rs o) more ih')
      | inr less ↦
          let ih2 : IsBest ref (some b) rs o =
            subst (λ c. IsBest ref (if c then some r else some b) rs o) less ih' in
          kept-IsBest ref (some b) r rs o (λ x e c. low_of b o (ground arith) ih2 x e)
            (λ e. absurd (some_of b o ih2 e)) ih2
    ]

newest_of-IsBest :
    (ref : Ref) (rs : List Record) (best : Option Record)
    → IsBest ref best rs (newest_of ref best rs)
unfolding newest_of
newest_of-IsBest ref [] none = (refl, λ q m. absurd (Memᴰ.not-nil m))
newest_of-IsBest ref [] (some r) = (inl refl, λ b e. ground arith, λ q m. absurd (Memᴰ.not-nil m))
newest_of-IsBest ref (r ∷ rs) best =
    IsBest-step ref best r rs _
      (newest_of-IsBest ref rs (if is_candidate ref r then better best r else best))

-- `Current` answers the record of the `Ref` with the greatest number among those that are running
-- or applied, whichever of the two it is in, and not-found if and only if there is none.
pub current_exact :
    (ref : Ref) (s : Store)
    → ((r : Record)
        → current ref s ≡ ok r
        → Memᴰ r (records s)
          × (is_candidate ref r ≡ true)
          × ((q : Record) → Memᴰ q (records s) → is_candidate ref q ≡ true → q.seq ≤ r.seq))
      × ((current ref s ≡ err not_found)
          ↔ ((q : Record) → Memᴰ q (records s) → is_candidate ref q ≡ false))
unfolding current
current_exact ref s =
    answer (newest_of ref none (records s)) (newest_of-IsBest ref (records s) none)
  where
    result : Option Record → Result Error Record
    result o = elim o [ none ↦ err not_found | some r ↦ ok r ]

    answer :
        (o : Option Record)
        → IsBest ref none (records s) o
        → ((r : Record)
            → result o ≡ ok r
            → Memᴰ r (records s)
              × (is_candidate ref r ≡ true)
              × ((q : Record) → Memᴰ q (records s) → is_candidate ref q ≡ true → q.seq ≤ r.seq))
          × ((result o ≡ err not_found)
              ↔ ((q : Record) → Memᴰ q (records s) → is_candidate ref q ≡ false))
    answer none (e, others) = (λ r h. absurd (ground arith), (λ h. others, λ h. refl))
    answer (some x) (from, above, over) =
        let (m, c) = the_entry x from in
        (
          λ r h.
              let same : x ≡ r = ground arith in
              subst
                (λ (z : Record).
                  Memᴰ z (records s)
                  × (is_candidate ref z ≡ true)
                  × ((q : Record) → Memᴰ q (records s) → is_candidate ref q ≡ true → q.seq ≤ z.seq))
                same (m, c, over),
          (λ h. absurd (ground arith), λ h. let no = h x m in absurd (ground arith)),
        )
      where
        the_entry :
            (z : Record)
            → (none ≡ some z) ⊎ (Memᴰ z (records s) × (is_candidate ref z ≡ true))
            → Memᴰ z (records s) × (is_candidate ref z ≡ true)
        the_entry z (inl e) = absurd (ground arith)
        the_entry z (inr p) = p
