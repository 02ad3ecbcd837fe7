-- ===== src/Catalog/Plan/Acceptable.antt =====
-- The two rules on an image in api/v1alpha1/workload_types.go and database_types.go, and refusedImage
-- of catalog/plan.go against them.
use k8s_lab.Common.{
  ◌∷◌, ◌++◌, none, nat_eq, list_eq, ◌≡◌, ◌≢◌, ◌⊎◌, inl, inr, sym, ap, ◌∙◌, subst, arith, Bool-cases,
  Memᴰ,
}
use mathlib.Core.List.{append_assoc}
use k8s_lab.Common.Bytes.{Bytes, text, has_suffix, has_infix, last_field}
use k8s_lab.Common.Bytes.Fields.{
  has_suffix-append, mem_of_has_infix, last_field-IsLast, split_of_mem,
}
use k8s_lab.Common.Sort.Unique.{mem-append_right}
use k8s_lab.Catalog.Plan.Images.{refused_image}

-- An image with a colon behind its last slash.
abbrev pub HasTag : Bytes → Type 0
HasTag image = (name : Bytes) × (tag : Bytes) × (image ≡ name ++ (b':' ∷ tag)) × (Memᴰ b'/' tag → ⊥)

-- An image with a tag or a digest, that does not end in `:latest`.
abbrev pub IsAcceptable : Bytes → Type 0
IsAcceptable image =
    ((name : Bytes) → image ≢ name ++ text ":latest") × (Memᴰ b'@' image ⊎ HasTag image)

last_field-HasTag : (image : Bytes) → Memᴰ b':' (last_field b'/' image) → HasTag image
last_field-HasTag image m =
    let (flat, dir, split) = last_field-IsLast b'/' image in
    let (before, tag, parts) = split_of_mem b':' (last_field b'/' image) m in
    (
      dir ++ before,
      tag,
      split ∙ ap (λ z. dir ++ z) parts ∙ sym (append_assoc dir before (b':' ∷ tag)),
      λ k. flat (subst (λ z. Memᴰ b'/' z) (sym parts) (mem-append_right before _ (Memᴰ.tail k))),
    )

-- An image that is not refused keeps both rules.
pub refused_image-IsAcceptable : (image : Bytes) → refused_image image ≡ none → IsAcceptable image
unfolding refused_image
refused_image-IsAcceptable image h = elim (Bool-cases (has_suffix (text ":latest") image)) [
  | inl latest ↦ absurd (let e = rw latest at h in ground arith)
  | inr other ↦ (
    λ name e.
        let ends = ap (has_suffix (text ":latest")) e ∙ has_suffix-append name (text ":latest") in
        absurd (ground arith),
    elim (Bool-cases (has_infix (text "@") image)) [
      | inl digest ↦ inl (mem_of_has_infix b'@' image (unfold text in digest))
      | inr plain ↦ elim (Bool-cases (has_infix (text ":") (last_field b'/' image))) [
        | inl tagged ↦ inr (
            last_field-HasTag image
              (mem_of_has_infix b':' (last_field b'/' image) (unfold text in tagged)))
        | inr bare ↦ absurd (let e = rw (other, plain, bare) at h in ground arith)
      ]
    ],
  )
]
