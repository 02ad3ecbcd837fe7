-- ===== src/Compose/Names/Labels.antt =====
-- `objectName` of compose/convert.go against the labels of DNS.
use k8s_lab.Common.{
  true, false, ◌≤◌, [], ◌∷◌, ◌≡◌, refl, nat_eq, ltb, length, take, arith, inl, inr, Bool-cases,
}
use k8s_lab.Common.Bytes.{Bytes, text, all, trim, replace_outside}
use k8s_lab.Common.Bytes.Trimmed.{
  starts_with, ends_with, all-take, all-trim, all-replace_outside, starts_with-trim, ends_with-trim,
  length-take-le, length-trim-le,
}
use k8s_lab.Compose.{Runtime}
use k8s_lab.Compose.Names.{is_dns_char, shortened, or_app, object_name}

-- A text of at most 40 bytes of a-z, 0-9 and the hyphen, with no hyphen at either end.
record IsTrimmed (s : Bytes) : Type 0 where
  chars : all is_dns_char s ≡ true
  first : starts_with b'-' s ≡ false
  last : ends_with b'-' s ≡ false

pub record IsLabel (s : Bytes) : Type 0 where
  pub chars : all is_dns_char s ≡ true
  pub first : starts_with b'-' s ≡ false
  pub last : ends_with b'-' s ≡ false
  pub short : length s ≤ 40
  pub some_char : 1 ≤ length s

trim-IsTrimmed : (s : Bytes) → all is_dns_char s ≡ true → IsTrimmed (trim b'-' s)
trim-IsTrimmed s h = record {
  chars = all-trim is_dns_char b'-' s h;
  first = starts_with-trim b'-' s;
  last = ends_with-trim b'-' s;
}

shortened-IsTrimmed : (s : Bytes) → IsTrimmed s → IsTrimmed (shortened s)
unfolding shortened
shortened-IsTrimmed s w = elim (Bool-cases (ltb 40 (length s))) [
  | inl h ↦ rw h (trim-IsTrimmed (take 40 s) (all-take is_dns_char 40 s w.chars))
  | inr h ↦ rw h w
]

length-shortened-le : (s : Bytes) → length (shortened s) ≤ 40
unfolding shortened
length-shortened-le s = ground (arith, length-trim-le b'-' (take 40 s), length-take-le 40 s)

or_app-IsLabel : (s : Bytes) → IsTrimmed s → length s ≤ 40 → IsLabel (or_app s)
unfolding or_app text all
or_app-IsLabel [] w h = record {
  chars = refl;
  first = refl;
  last = refl;
  short = omega arith;
  some_char = omega arith;
}
or_app-IsLabel (c ∷ s) w h = record {
  chars = w.chars;
  first = w.first;
  last = w.last;
  short = h;
  some_char = omega arith;
}

-- The name that `objectName` makes of any text is a label: it has at least one and at most 40
-- bytes, every one of them is one of a-z, 0-9 and the hyphen, and neither the first nor the last is
-- a hyphen.
pub object_name-IsLabel : (go : Runtime) (s : Bytes) → IsLabel (object_name go s)
unfolding object_name
object_name-IsLabel go s =
    let clean = replace_outside is_dns_char b'-' (go.lower s) in
    let trimmed = trim-IsTrimmed clean (all-replace_outside is_dns_char b'-' (go.lower s) refl) in
    or_app-IsLabel (shortened (trim b'-' clean)) (shortened-IsTrimmed (trim b'-' clean) trimmed)
      (length-shortened-le (trim b'-' clean))
