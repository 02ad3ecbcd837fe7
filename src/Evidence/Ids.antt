-- ===== src/Evidence/Ids.antt =====
-- `fmt.Sprintf("%d-%s", nanos, key)`, the id that evidence/memory/memory.go gives to a record.
use Prim.Native.Char.{Char, code}
use Prim.Native.String.{◌++◌}
use text.Mathlib.TextLemmas.{
  append-ne-nil_of_right_ne-nil, nil-append, cons-append, cons-ne-nil, concat-ne-nil,
  head-eq_of_cons-eq, tail-eq_of_cons-eq,
}
pub use k8s_lab.Common.Int.{ℤ, pos, negsuc}
use k8s_lab.Common.{
  String, Bool, true, false, ℕ, zero, suc, ◌/◌, ◌%◌, ◌<◌, ◌≡◌, ◌≢◌, refl, sym, ap, ◌∙◌, ltb,
  nat_eqb, arith, if◌then◌else◌, Bool-cases, inl, inr, subst,
}

digit : ℕ → Char
digit n =
    if nat_eqb n 0
    then "0"
    else if nat_eqb n 1
    then "1"
    else if nat_eqb n 2
    then "2"
    else if nat_eqb n 3
    then "3"
    else if nat_eqb n 4
    then "4"
    else if nat_eqb n 5
    then "5"
    else if nat_eqb n 6
    then "6"
    else if nat_eqb n 7
    then "7"
    else if nat_eqb n 8
    then "8"
    else "9"

-- The decimal digits of a number, on fuel: every step divides by ten, so more fuel than the number
-- is enough.
decimal : ℕ → ℕ → String
unfolding digit
decimal zero n = ""
decimal (suc fuel) n =
    let rest = decimal fuel (n / 10) in
    let last = String.◌∷◌ (digit (n % 10)) String.[] in if ltb n 10 then last else rest ++ last

-- %d
unfoldable pub show : ℤ → String
unfolding decimal
show (pos n) = decimal (suc n) n
show (negsuc n) = String.◌∷◌ "-" (decimal (suc (suc n)) (suc n))

unfoldable pub id_of : ℤ → String → String
unfolding show
id_of nanos idempotency_key = show nanos ++ String.◌∷◌ "-" idempotency_key

decimal-fuel : (f g n : ℕ) → n < f → n < g → decimal f n ≡ decimal g n
unfolding decimal
decimal-fuel zero g n h k = absurd (omega arith)
decimal-fuel (suc f) zero n h k = absurd (omega arith)
decimal-fuel (suc f) (suc g) n h k = elim (Bool-cases (ltb n 10)) [
  | inl small ↦ ground arith
  | inr large ↦
      let below : n / 10 < n = ground arith in
      ground (arith, decimal-fuel f g (n / 10) (omega arith) (omega arith))
]

abbrev HasNoDash : String → Type 0
HasNoDash String.[] = Unit {0}
HasNoDash (String.◌∷◌ c s) = (c ≢ "-") × HasNoDash s

if-ne_dash :
    (b : Bool) (c d : Char) → code c ≢ b'-' → code d ≢ b'-' → code (if b then c else d) ≢ b'-'
if-ne_dash true c d h k = h
if-ne_dash false c d h k = k

digit_ne_dash : (n : ℕ) → digit n ≢ "-"
unfolding digit
digit_ne_dash n e =
    (if-ne_dash (nat_eqb n 0) _ _ (λ h. omega arith)
        (if-ne_dash (nat_eqb n 1) _ _ (λ h. omega arith)
          (if-ne_dash (nat_eqb n 2) _ _ (λ h. omega arith)
            (if-ne_dash (nat_eqb n 3) _ _ (λ h. omega arith)
              (if-ne_dash (nat_eqb n 4) _ _ (λ h. omega arith)
                (if-ne_dash (nat_eqb n 5) _ _ (λ h. omega arith)
                  (if-ne_dash (nat_eqb n 6) _ _ (λ h. omega arith)
                    (if-ne_dash (nat_eqb n 7) _ _ (λ h. omega arith)
                      (if-ne_dash (nat_eqb n 8) _ _ (λ h. omega arith) (λ h. omega arith))))))))))
      (ap (λ (c : Char). code c) e)

append-HasNoDash : (a b : String) → HasNoDash a → HasNoDash b → HasNoDash (a ++ b)
append-HasNoDash String.[] b h k = subst HasNoDash (sym (nil-append b)) k
append-HasNoDash (String.◌∷◌ c a) b h k =
    subst HasNoDash (sym (cons-append c a b)) (h.0, append-HasNoDash a b h.1 k)

if-HasNoDash :
    (b : Bool) (s t : String) → HasNoDash s → HasNoDash t → HasNoDash (if b then s else t)
if-HasNoDash true s t h k = h
if-HasNoDash false s t h k = k

decimal-HasNoDash : (f n : ℕ) → HasNoDash (decimal f n)
unfolding decimal
decimal-HasNoDash zero n = tt
decimal-HasNoDash (suc f) n =
    if-HasNoDash (ltb n 10) _ _ (digit_ne_dash (n % 10), tt)
      (append-HasNoDash (decimal f (n / 10)) _ (decimal-HasNoDash f (n / 10))
        (digit_ne_dash (n % 10), tt))

if-nonempty : (b : Bool) (s t : String) → s ≢ "" → t ≢ "" → (if b then s else t) ≢ ""
if-nonempty true s t h k = h
if-nonempty false s t h k = k

decimal-nonempty : (f n : ℕ) → decimal (suc f) n ≢ ""
unfolding decimal
decimal-nonempty f n = if-nonempty (ltb n 10) _ _ (cons-ne-nil _ _) (concat-ne-nil _ _)

split_at_dash :
    (a b a' b' : String)
    → HasNoDash a
    → HasNoDash a'
    → a ++ String.◌∷◌ "-" b ≡ a' ++ String.◌∷◌ "-" b'
    → b ≡ b'
split_at_dash String.[] b String.[] b' h h' e =
    tail-eq_of_cons-eq (sym (nil-append _) ∙ e ∙ nil-append _)
split_at_dash String.[] b (String.◌∷◌ c a') b' h h' e =
    absurd (h'.0 (sym (head-eq_of_cons-eq (sym (nil-append _) ∙ e ∙ cons-append c a' _))))
split_at_dash (String.◌∷◌ c a) b String.[] b' h h' e =
    absurd (h.0 (head-eq_of_cons-eq (sym (cons-append c a _) ∙ e ∙ nil-append _)))
split_at_dash (String.◌∷◌ c a) b (String.◌∷◌ d a') b' h h' e =
    split_at_dash a b a' b' h.1 h'.1
      (tail-eq_of_cons-eq (sym (cons-append c a _) ∙ e ∙ cons-append d a' _))

signed_apart :
    (a b a' b' : String) → HasNoDash a → a ≢ "" → a ++ String.◌∷◌ "-" b ≢ (String.◌∷◌ "-" a') ++ b'
signed_apart String.[] b a' b' h ne e = ne refl
signed_apart (String.◌∷◌ c a) b a' b' h ne e =
    h.0 (head-eq_of_cons-eq (sym (cons-append c a _) ∙ e ∙ cons-append _ a' _))

-- Two ids are the same only for one idempotency key, whatever the two clocks said.
pub id_of_injective : (n m : ℤ) (k j : String) → id_of n k ≡ id_of m j → k ≡ j
unfolding id_of show
id_of_injective (pos n) (pos m) k j e =
    split_at_dash _ k _ j (decimal-HasNoDash (suc n) n) (decimal-HasNoDash (suc m) m) e
id_of_injective (pos n) (negsuc m) k j e =
    absurd (signed_apart _ k _ _ (decimal-HasNoDash (suc n) n) (decimal-nonempty n n) e)
id_of_injective (negsuc n) (pos m) k j e =
    absurd (signed_apart _ j _ _ (decimal-HasNoDash (suc m) m) (decimal-nonempty m m) (sym e))
id_of_injective (negsuc n) (negsuc m) k j e =
    split_at_dash _ k _ j (decimal-HasNoDash (suc (suc n)) (suc n))
      (decimal-HasNoDash (suc (suc m)) (suc m))
      (tail-eq_of_cons-eq (sym (cons-append _ _ _) ∙ e ∙ cons-append _ _ _))

pub id_of-ne-nil : (nanos : ℤ) (key : String) → id_of nanos key ≢ ""
unfolding id_of
id_of-ne-nil nanos key = append-ne-nil_of_right_ne-nil (show nanos) (cons-ne-nil "-" key)
