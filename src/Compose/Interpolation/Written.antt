-- ===== src/Compose/Interpolation/Written.antt =====
-- Values as an author writes them, and what the reader of compose/convert.go finds in them.
use k8s_lab.Common.{
  Bool, true, false, ℕ, zero, suc, ◌+◌, ◌-◌, List, [], ◌∷◌, ◌++◌, none, some, ◌&&◌, not, ◌==◌,
  nat_eq, ◌≡◌, refl, ap, ◌∙◌, length, length-append, map, arith, inl, inr, Bool-cases,
}
use mathlib.Core.List.{append_assoc}
use k8s_lab.Common.Bytes.{Bytes, text, all, cut_prefix}
use k8s_lab.Common.Bytes.Trimmed.{take_while-append, drop_while-append}
use k8s_lab.Compose.Interpolation.{
  Reference, Piece, plain, refer, is_name_start, is_name_char, is_not_close, closed, defaulted,
  tail_of, named, reference_at, pieces_from, pieces,
}

-- A byte that is not a dollar, `${name}`, or `${name:-default}`.
pub data Item : Type 0 where
  byte : ℕ → Item
  variable : Bytes → Item
  defaulting : Bytes → Bytes → Item

abbrev pub is_name : Bytes → Bool
is_name [] = false
is_name (c ∷ s) = is_name_start c && all is_name_char s

-- An item that reads back: no dollar as a byte, a name by the rules, no brace in the default.
abbrev pub is_item : Item → Bool
is_item (byte c) = not (c == b'$')
is_item (variable name) = is_name name
is_item (defaulting name fallback) = is_name name && all is_not_close fallback

abbrev pub are_items : List Item → Bool
are_items [] = true
are_items (i ∷ is) = is_item i && are_items is

abbrev behind_name : Item → Bytes
behind_name (byte c) = []
behind_name (variable name) = b'}' ∷ []
behind_name (defaulting name fallback) = b':' ∷ b'-' ∷ (fallback ++ (b'}' ∷ []))

abbrev pub print_item : Item → Bytes
print_item (byte c) = c ∷ []
print_item (variable name) = b'$' ∷ b'{' ∷ (name ++ (b'}' ∷ []))
print_item (defaulting name fallback) =
    b'$' ∷ b'{' ∷ (name ++ (b':' ∷ b'-' ∷ (fallback ++ (b'}' ∷ []))))

abbrev pub print : List Item → Bytes
print [] = []
print (i ∷ is) = print_item i ++ print is

abbrev pub piece_of : Item → Piece
piece_of (byte c) = plain c
piece_of (variable name) = refer (record { name = name; fallback = []; width = length name + 3 })
piece_of (defaulting name fallback) =
    refer
      (record { name = name; fallback = fallback; width = length name + 4 + length fallback + 1 })

reference_at-dollar : (c : ℕ) (s : Bytes) → (c == b'$') ≡ false → reference_at (c ∷ s) ≡ none
unfolding reference_at named cut_prefix text
reference_at-dollar c s h = ground arith

tail_of-brace :
    (name rest : Bytes)
    → tail_of name (b'}' ∷ rest)
      ≡ some (record { name = name; fallback = []; width = length name + 3 })
unfolding tail_of
tail_of-brace name [] = refl
tail_of-brace name (c ∷ rest) = refl

tail_of-default :
    (name fallback rest : Bytes)
    → all is_not_close fallback ≡ true
    → tail_of name (b':' ∷ b'-' ∷ (fallback ++ (b'}' ∷ rest)))
      ≡ some (record {
        name = name;
        fallback = fallback;
        width = length name + 4 + length fallback + 1;
      })
unfolding tail_of defaulted closed
tail_of-default name fallback rest h =
    rw
      (
        take_while-append is_not_close fallback b'}' rest h refl,
        drop_while-append is_not_close fallback b'}' rest h refl,
      )
      refl

-- Behind a dollar and a brace, a name is read up to the first byte that no name has.
reference_at-name :
    (name : Bytes) (c : ℕ) (rest : Bytes)
    → is_name name ≡ true
    → is_name_char c ≡ false
    → reference_at (b'$' ∷ b'{' ∷ (name ++ (c ∷ rest))) ≡ tail_of name (c ∷ rest)
unfolding reference_at named cut_prefix text
reference_at-name [] c rest h e = absurd (ground arith)
reference_at-name (d ∷ name) c rest h e = elim (Bool-cases (is_name_start d)) [
  | inl start ↦
      let chars : all is_name_char name ≡ true = rw start at h in
      rw
        (
          start,
          take_while-append is_name_char name c rest chars e,
          drop_while-append is_name_char name c rest chars e,
        )
        refl
  | inr no_start ↦ absurd (ground arith)
]

pieces_from-skip :
    (s rest : Bytes) (n : ℕ) → length s ≡ n → pieces_from n (s ++ rest) ≡ pieces_from zero rest
unfolding pieces_from
pieces_from-skip [] rest zero h = refl
pieces_from-skip [] rest (suc n) h = absurd (omega arith)
pieces_from-skip (c ∷ s) rest zero h = absurd (omega arith)
pieces_from-skip (c ∷ s) rest (suc n) h = pieces_from-skip s rest n (omega arith)

-- A match at the head of a text is one piece, and the reading goes on behind it.
pieces_from-reference :
    (c : ℕ) (s rest : Bytes) (r : Reference)
    → reference_at (c ∷ (s ++ rest)) ≡ some r
    → length s + 1 ≡ r.width
    → pieces_from zero (c ∷ (s ++ rest)) ≡ refer r ∷ pieces_from zero rest
unfolding pieces_from
pieces_from-reference c s rest r h e =
    rw (h, pieces_from)
      (ap (λ ps. refer r ∷ ps) (pieces_from-skip s rest (r.width - 1) (omega arith)))

pieces_from-item :
    (i : Item) (rest : Bytes)
    → is_item i ≡ true
    → pieces_from zero (print_item i ++ rest) ≡ piece_of i ∷ pieces_from zero rest
pieces_from-item (byte c) rest h =
    unfold pieces_from in rw (reference_at-dollar c rest (ground arith), pieces_from) refl
pieces_from-item (variable name) rest h =
    pieces_from-reference b'$' (b'{' ∷ (name ++ (b'}' ∷ []))) rest _
      (rw (append_assoc name (b'}' ∷ []) rest)
        (reference_at-name name b'}' rest h refl ∙ tail_of-brace name rest))
      (omega (arith, length-append name (b'}' ∷ [])))
pieces_from-item (defaulting name fallback) rest h =
    let tail = b':' ∷ b'-' ∷ (fallback ++ (b'}' ∷ [])) in
    pieces_from-reference b'$' (b'{' ∷ (name ++ tail)) rest _
      (rw (append_assoc name tail rest, append_assoc fallback (b'}' ∷ []) rest)
        (reference_at-name name b':' (b'-' ∷ (fallback ++ (b'}' ∷ rest))) (ground arith) refl
          ∙ tail_of-default name fallback rest (ground arith)))
      (omega (arith, length-append name tail, length-append fallback (b'}' ∷ [])))

pieces_from-print :
    (is : List Item) → are_items is ≡ true → pieces_from zero (print is) ≡ map piece_of is
pieces_from-print [] h = unfold pieces_from in refl
pieces_from-print (i ∷ is) h =
    pieces_from-item i (print is) (ground arith)
    ∙ ap (λ ps. piece_of i ∷ ps) (pieces_from-print is (ground arith))

-- A value reads back as it was written: of any sequence of bytes other than the dollar, of
-- variables `${NAME}` and of variables with a default `${NAME:-default}`, with names by the rules
-- and no closing brace in a default, the reader finds exactly these, in this order.
pub pieces-print : (is : List Item) → are_items is ≡ true → pieces (print is) ≡ map piece_of is
unfolding pieces
pieces-print is h = pieces_from-print is h
