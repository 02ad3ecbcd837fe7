-- ===== src/Compose/Interpolation/Nested.antt =====
-- What compose/convert.go makes of a value that stands for a generated one: the placeholder that
-- it writes, and a default that is itself a variable.
use k8s_lab.Common.{
  true, false, List, [], ◌∷◌, ◌++◌, nat_eq, map, ◌≡◌, refl, ap, ◌∙◌, sym, subst, arith,
}
use mathlib.Core.List.{append-nil, append_assoc}
use k8s_lab.Common.Bytes.{Bytes, text, all}
use k8s_lab.Compose.Variables.{is_magic}
use k8s_lab.Compose.Variables.Letters.{is_capital, magic_letters}
use k8s_lab.Compose.Interpolation.{
  pieces, references, replaced, placeholder, literal, literal_except_sources, sources, sources_loop,
  source_of, add_source, is_name_char, is_not_close,
}
use k8s_lab.Compose.Interpolation.Written.{
  Item, byte, variable, defaulting, is_name, print, piece_of, pieces-print,
}

capitals_name : (s : Bytes) → all is_capital s ≡ true → all is_name_char s ≡ true
unfolding all
capitals_name [] h = refl
capitals_name (c ∷ s) h = ground (arith, capitals_name s)

capitals_open : (s : Bytes) → all is_capital s ≡ true → all is_not_close s ≡ true
unfolding all
capitals_open [] h = refl
capitals_open (c ∷ s) h = ground (arith, capitals_open s)

magic_name : (name : Bytes) → is_magic name ≡ true → is_name name ≡ true
unfolding text all
magic_name name h =
    let (s, e, letters) = magic_letters name h in
    subst (λ z. is_name z ≡ true) (sym e) (capitals_name s letters)

magic_open : (name : Bytes) → is_magic name ≡ true → all is_not_close name ≡ true
unfolding text all
magic_open name h =
    let (s, e, letters) = magic_letters name h in
    subst (λ z. all is_not_close z ≡ true) (sym e) (capitals_open s letters)

placeholder-print : (name : Bytes) → placeholder name ≡ print (variable name ∷ [])
unfolding placeholder text
placeholder-print name = rw (append-nil (name ++ (b'}' ∷ []))) refl

pieces-placeholder :
    (name : Bytes) → is_name name ≡ true → pieces (placeholder name) ≡ piece_of (variable name) ∷ []
pieces-placeholder name h =
    ap pieces (placeholder-print name) ∙ pieces-print (variable name ∷ []) (ground arith)

-- The placeholder that is written for a variable of the platform reads back as that variable: its
-- one source is the variable itself, and resolving everything but the sources leaves it as it is.
pub placeholder_reads_back :
    (name : Bytes)
    → is_magic name ≡ true
    → (sources (placeholder name) ≡ source_of name ∷ [])
      × (literal_except_sources (placeholder name) ≡ placeholder name)
unfolding sources sources_loop references literal_except_sources replaced add_source
placeholder_reads_back name h =
    let e = pieces-placeholder name (magic_name name h) in
    (rw (e, h) refl, rw (e, h) (append-nil (placeholder name)))

nested : Bytes → Bytes → List Item
nested outer name = defaulting outer (b'$' ∷ b'{' ∷ name) ∷ byte b'}' ∷ []

abbrev pub nested_value : Bytes → Bytes → Bytes
nested_value outer name = b'$' ∷ b'{' ∷ (outer ++ (b':' ∷ b'-' ∷ (placeholder name ++ (b'}' ∷ []))))

nested-print : (outer name : Bytes) → nested_value outer name ≡ print (nested outer name)
unfolding placeholder text nested
nested-print outer name =
    let front = b':' ∷ b'-' ∷ ((b'$' ∷ b'{' ∷ name) ++ (b'}' ∷ [])) in
    ap (λ z. b'$' ∷ b'{' ∷ z) (sym (append_assoc outer front (b'}' ∷ [])))

-- A default that is itself a variable of the platform is passed through: in
-- `${OUTER:-${SERVICE_…}}`, where the outer variable is not one of the platform, no source is
-- found, and the value resolves to the text of the inner placeholder.
pub nested_default_passes_through :
    (outer name : Bytes)
    → is_name outer ≡ true
    → is_magic outer ≡ false
    → is_magic name ≡ true
    → (sources (nested_value outer name) ≡ [])
      × (literal (nested_value outer name) ≡ placeholder name)
unfolding sources sources_loop references literal replaced nested
nested_default_passes_through outer name valid plain magic =
    let e : pieces (nested_value outer name) ≡ map piece_of (nested outer name) =
      ap pieces (nested-print outer name)
      ∙ pieces-print (nested outer name) (unfold all in ground (arith, magic_open name magic)) in
    (rw (e, plain) refl, rw e (unfold placeholder text in refl))
