-- ===== src/Compose/Variables/Letters.antt =====
-- The letters of the variables that compose/convert.go recognises.
use k8s_lab.Common.{
  Bool, true, false, ℕ, List, [], ◌∷◌, ◌++◌, Option, none, some, ◌||◌, ◌&&◌, ◌==◌, nat_eq, list_eq,
  ◌≡◌, refl, subst, sym, arith, any, inl, inr, Bool-cases,
}
use k8s_lab.Common.Bytes.{Bytes, text, is_digit, is_upper, all, cut_prefix}
use k8s_lab.Common.Bytes.Trimmed.{all-append, cut_prefix_append}
use k8s_lab.Compose.Variables.{is_suffix, is_one_of, magic_words, is_magic}

-- [A-Z0-9_]
abbrev pub is_capital : ℕ → Bool
is_capital c = is_upper c || (is_digit c || c == b'_')

suffix_letters : (s : Bytes) → is_suffix s ≡ true → all is_capital s ≡ true
unfolding is_suffix all
suffix_letters [] h = refl
suffix_letters (c ∷ s) h = ground arith

all_words : List Bytes → Bool
all_words [] = true
all_words (w ∷ ws) = all is_capital w && all_words ws

word_letters :
    (word s : Bytes) (o : Option Bytes)
    → cut_prefix word s ≡ o
    → all is_capital word ≡ true
    → (elim o [ none ↦ false | some rest ↦ is_suffix rest ]) ≡ true
    → all is_capital s ≡ true
word_letters word s none e h k = absurd (ground arith)
word_letters word s (some rest) e h k =
    subst (λ z. all is_capital z ≡ true) (sym (cut_prefix_append word s rest e))
      (all-append is_capital word rest h (suffix_letters rest k))

words_letters :
    (words : List Bytes) (s : Bytes)
    → all_words words ≡ true
    → is_one_of words (some s) ≡ true
    → all is_capital s ≡ true
unfolding all_words is_one_of any
words_letters [] s h k = absurd (ground arith)
words_letters (w ∷ ws) s h k =
    elim (Bool-cases (elim (cut_prefix w s) [ none ↦ false | some rest ↦ is_suffix rest ])) [
      | inl here ↦ word_letters w s (cut_prefix w s) refl (ground arith) here
      | inr later ↦ words_letters ws s (ground arith) (rw later at k)
    ]

magic_from :
    (name : Bytes) (o : Option Bytes)
    → cut_prefix (text "SERVICE_") name ≡ o
    → is_one_of magic_words o ≡ true
    → (s : Bytes) × (name ≡ text "SERVICE_" ++ s) × (all is_capital s ≡ true)
unfolding magic_words text all_words all
magic_from name none e h = absurd (unfold is_one_of in ground arith)
magic_from name (some s) e h =
    (s, cut_prefix_append (text "SERVICE_") name s e, words_letters magic_words s refl h)

-- A variable of the platform is `SERVICE_` and then capitals, digits and underscores.
pub magic_letters :
    (name : Bytes)
    → is_magic name ≡ true
    → (s : Bytes) × (name ≡ text "SERVICE_" ++ s) × (all is_capital s ≡ true)
unfolding is_magic
magic_letters name h = magic_from name (cut_prefix (text "SERVICE_") name) refl h
