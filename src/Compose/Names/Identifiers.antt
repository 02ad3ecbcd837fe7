-- ===== src/Compose/Names/Identifiers.antt =====
-- `identifier` of compose/convert.go against the identifiers of PostgreSQL.
use k8s_lab.Common.{
  Bool, true, [], ◌≡◌, ◌⊎◌, refl, ◌==◌, nat_eq, list_eq, ◌&&◌, length, inl, inr, Bool-cases,
}
use k8s_lab.Common.Bytes.{Bytes, all, trim, replace_outside}
use k8s_lab.Common.Bytes.Trimmed.{all-trim, all-replace_outside}
use k8s_lab.Compose.{Runtime}
use k8s_lab.Compose.Interpolation.{sources, literal}
use k8s_lab.Compose.Names.{is_identifier_char, is_identifier, fixed_identifier, identifier}

-- What the schema of the Database admits: a letter first, and then letters, digits and underscores.
abbrev pub is_admitted : Bytes → Bool
is_admitted s = is_identifier s && all is_identifier_char s

fixed-admitted :
    (go : Runtime) (service field resolved fixed : Bytes)
    → all is_identifier_char fixed ≡ true
    → ((fixed_identifier go service field resolved fixed).0 ≡ [])
      ⊎ (is_admitted (fixed_identifier go service field resolved fixed).0 ≡ true)
unfolding fixed_identifier
fixed-admitted go service field resolved fixed h = elim (Bool-cases (is_identifier fixed)) [
  | inr no_start ↦ inl (rw no_start refl)
  | inl start ↦ inr (elim (Bool-cases (fixed == resolved)) [
    | inl same ↦ rw (start, same) (rw (start, h) refl)
    | inr other ↦ rw (start, other) (rw (start, h) refl)
  ])
]

-- A name that `identifier` takes over is left empty, or is one that the schema of the Database
-- admits: a letter from a to z, and then any of a-z, 0-9 and the underscore.
pub identifier_admitted :
    (go : Runtime) (service field v : Bytes)
    → ((identifier go service field v).0 ≡ [])
      ⊎ (is_admitted (identifier go service field v).0 ≡ true)
unfolding identifier
identifier_admitted go service field v = elim (Bool-cases (v == [])) [
  | inl none_given ↦ inl (rw none_given refl)
  | inr given ↦ elim (Bool-cases (length (sources v) == 0)) [
    | inr minted ↦ inl (rw (given, minted) refl)
    | inl plain ↦
        let cleaned = replace_outside is_identifier_char b'_' (go.lower (literal v)) in
        rw (given, plain)
          (fixed-admitted go service field (literal v) (trim b'_' cleaned) (
            all-trim is_identifier_char b'_' cleaned
              (all-replace_outside is_identifier_char b'_' (go.lower (literal v)) refl)))
  ]
]
