-- ===== src/Deploywatch/Sweep/Pages.antt =====
-- How the pages of `History` in evidence/memory/memory.go follow each other.
use k8s_lab.Common.{
  String, true, false, ℕ, suc, ◌<◌, List, [], ◌∷◌, ◌++◌, ◌≡◌, ◌⊎◌, refl, sym, ap, ap₂, some, ◌==◌,
  string_eq, nat_eq, eq_iff, eq_refl, nat_eqb, nat_eqb_iff, arith, inl, inr, Bool-cases,
  Option-cases, keep, map, Memᴰ,
}
use k8s_lab.Common.Map.{Map, get}
use k8s_lab.Evidence.{Record, Query, Page}
use k8s_lab.Evidence.Reads.{is_match, fill, after_cursor, records_of}

abbrev pub ids : List Record → List String
ids rs = map (λ (r : Record). r.id) rs

-- A page with everything that is left, a page that stops at the record `x` with `back` behind it,
-- or a full page to which nothing is added.
abbrev pub IsLast : Query → List Record → Page → Type 0
IsLast q rs page = (page.records ≡ keep (is_match q) rs) × (page.next ≡ "")

abbrev pub IsCut : Query → List Record → Page → Type 0
IsCut q rs page =
    (front : List Record) × (x : Record) × (back : List Record) × (rs ≡ front ++ (x ∷ back))
    × (page.records ≡ keep (is_match q) (front ++ (x ∷ [])))
    × (page.next ≡ x.id)

abbrev IsFull : ℕ → ℕ → String → Page → Type 0
IsFull limit n last page = (n ≡ limit) × (page.records ≡ []) × (page.next ≡ last)

abbrev Filled : Query → ℕ → ℕ → String → List Record → Page → Type 0
Filled q limit n last rs page = IsLast q rs page ⊎ (IsCut q rs page ⊎ IsFull limit n last page)

skip_one :
    (q : Query) (limit n : ℕ) (last : String) (r : Record) (rs : List Record) (page : Page)
    → is_match q r ≡ false
    → Filled q limit n last rs page
    → Filled q limit n last (r ∷ rs) page
unfolding keep
skip_one q limit n last r rs page m (inl (all, end)) = inl (rw m all, end)
skip_one q limit n last r rs page m (inr (inl (front, x, back, e, all, next))) =
    inr (inl (r ∷ front, x, back, ap (λ z. r ∷ z) e, rw m all, next))
skip_one q limit n last r rs page m (inr (inr full)) = inr (inr full)

take_one :
    (q : Query) (limit n : ℕ) (last : String) (r : Record) (rs : List Record) (page : Page)
    → is_match q r ≡ true
    → Filled q limit (suc n) r.id rs page
    → Filled q limit n last (r ∷ rs) (record page { records = r ∷ page.records })
unfolding keep
take_one q limit n last r rs page m (inl (all, end)) = inl (rw m (ap (λ z. r ∷ z) all), end)
take_one q limit n last r rs page m (inr (inl (front, x, back, e, all, next))) =
    inr (inl (r ∷ front, x, back, ap (λ z. r ∷ z) e, rw m (ap (λ z. r ∷ z) all), next))
take_one q limit n last r rs page m (inr (inr (full, none_more, next))) =
    inr (inl ([], r, rs, refl, rw m (ap (λ z. r ∷ z) none_more), next))

fill-Filled :
    (q : Query) (limit n : ℕ) (last : String) (rs : List Record)
    → Filled q limit n last rs (fill q limit n last rs)
unfolding fill
fill-Filled q limit n last [] = inl (unfold keep in refl, refl)
fill-Filled q limit n last (r ∷ rs) = elim (Bool-cases (is_match q r)) [
  | inl m ↦ elim (Bool-cases (nat_eqb n limit)) [
    | inl full ↦ rw (m, full, fill) (inr (inr ((nat_eqb_iff n limit).0 full, refl, refl)))
    | inr room ↦
        rw (m, room, fill)
          (take_one q limit n last r rs (fill q limit (suc n) r.id rs) m
            (fill-Filled q limit (suc n) r.id rs))
  ]
  | inr m ↦
      rw (m, fill)
        (skip_one q limit n last r rs (fill q limit n last rs) m (fill-Filled q limit n last rs))
]

-- A page is the last one, or it stops at a record.
pub fill-page :
    (q : Query) (limit : ℕ) (rs : List Record)
    → 0 < limit
    → IsLast q rs (fill q limit 0 "" rs) ⊎ IsCut q rs (fill q limit 0 "" rs)
fill-page q limit rs some_room = elim (fill-Filled q limit 0 "" rs) [
  | inl last ↦ inl last
  | inr (inl cut) ↦ inr cut
  | inr (inr (full, _, _)) ↦ absurd (omega arith)
]

-- The cursor of a record leads to what stands behind it, where its id stands once.
pub after_cursor-append :
    (front back : List Record) (x : Record)
    → (Memᴰ x.id (ids front) → ⊥)
    → after_cursor x.id (front ++ (x ∷ back)) ≡ some back
unfolding after_cursor
after_cursor-append [] back x new = rw (eq_refl x.id, after_cursor) refl
after_cursor-append (r ∷ front) back x new = elim (Bool-cases (r.id == x.id)) [
  | inl same ↦ absurd (new (Memᴰ.head (sym ((eq_iff r.id x.id).0 same))))
  | inr other ↦ rw (other, after_cursor) (after_cursor-append front back x (λ m. new (Memᴰ.tail m)))
]

-- The records of an order, where each id leads to the given one.
pub records_of-exact :
    (m : Map String Record) (rs : List Record)
    → ((r : Record) → Memᴰ r rs → get r.id m ≡ some r)
    → records_of m (ids rs) ≡ rs
unfolding records_of
records_of-exact m [] there = refl
records_of-exact m (r ∷ rs) there =
    rw (there r (Memᴰ.head refl), records_of)
      (ap (λ z. r ∷ z) (records_of-exact m rs (λ x n. there x (Memᴰ.tail n))))

-- The cursor depends on the ids alone.
pub after_cursor-ids :
    (front back : List Record) (before_it : List String) (c : String)
    → ids front ≡ before_it ++ (c ∷ [])
    → (Memᴰ c before_it → ⊥)
    → after_cursor c (front ++ back) ≡ some back
unfolding after_cursor
after_cursor-ids [] back [] c e new = absurd (ground arith)
after_cursor-ids [] back (i ∷ is) c e new = absurd (ground arith)
after_cursor-ids (r ∷ []) back [] c e new = rw ((eq_iff r.id c).1 (ground arith), after_cursor) refl
after_cursor-ids (r ∷ q ∷ front) back [] c e new = absurd (ground arith)
after_cursor-ids (r ∷ front) back (i ∷ is) c e new = elim (Bool-cases (r.id == c)) [
  | inl same ↦ absurd (new (Memᴰ.head (ground (arith, eq_iff r.id c))))
  | inr other ↦
      rw (other, after_cursor)
        (after_cursor-ids front back is c (ground arith) (λ m. new (Memᴰ.tail m)))
]

pub records_of-split :
    (m : Map String Record) (js ks : List String)
    → records_of m (js ++ ks) ≡ records_of m js ++ records_of m ks
unfolding records_of
records_of-split m [] ks = refl
records_of-split m (j ∷ js) ks = elim (Option-cases (get j m)) [
  | inl gone ↦ rw (gone, records_of) (records_of-split m js ks)
  | inr (r, there) ↦ rw (there, records_of) (ap (λ z. r ∷ z) (records_of-split m js ks))
]

-- Where every id leads to a record that has it, the records of some ids have these ids.
pub ids-records_of :
    (m : Map String Record) (js : List String)
    → ((j : String) → Memᴰ j js → (r : Record) × (get j m ≡ some r) × (r.id ≡ j))
    → ids (records_of m js) ≡ js
unfolding records_of
ids-records_of m [] there = refl
ids-records_of m (j ∷ js) there =
    let (r, at, named) = there j (Memᴰ.head refl) in
    rw (at, records_of) (ap₂ ◌∷◌ named (ids-records_of m js (λ k n. there k (Memᴰ.tail n))))
