-- ===== src/Identity/Digests.antt =====
-- The hexadecimal form of a digest, under which identity/memory/memory.go files a session.
use k8s_lab.Common.{
  false, List, ℕ, [], ◌∷◌, ◌/◌, ◌%◌, ◌<◌, ◌≡◌, refl, ap₂, ◌==◌, nat_eq, list_eq, list_eqb_iff,
  eq_refl, arith, Bool-cases, inl, inr, if◌then◌else◌,
}
use k8s_lab.Common.Map.{get-put}
use k8s_lab.Common.Clock.{Time}
use k8s_lab.Common.Result.{ok, err, is_err}
use k8s_lab.Identity.{not_found, Session}
use k8s_lab.Identity.Store.{Store, hex_digit, encode_to_string}
use k8s_lab.Identity.Sessions.{create_session, session, is_expired}
use k8s_lab.Identity.Cases.{stored_session, create_session_cases}

abbrev pub AreBytes : List ℕ → Type 0
AreBytes [] = Unit {0}
AreBytes (b ∷ bs) = (b < 256) × AreBytes bs

hex_digit_injective : (a b : ℕ) → a < 16 → b < 16 → hex_digit a ≡ hex_digit b → a ≡ b
hex_digit_injective a b ha hb e = ground arith

byte_of_digits : (a b : ℕ) → a / 16 ≡ b / 16 → a % 16 ≡ b % 16 → a ≡ b
byte_of_digits a b h l = omega arith

-- The hexadecimal form determines the bytes.
pub encode_to_string_injective :
    (xs ys : List ℕ)
    → AreBytes xs
    → AreBytes ys
    → encode_to_string xs ≡ encode_to_string ys
    → xs ≡ ys
unfolding encode_to_string
encode_to_string_injective [] [] hx hy e = refl
encode_to_string_injective [] (y ∷ ys) hx hy e = cc
encode_to_string_injective (x ∷ xs) [] hx hy e = cc
encode_to_string_injective (x ∷ xs) (y ∷ ys) hx hy e =
    let high : x / 16 ≡ y / 16 =
      hex_digit_injective (x / 16) (y / 16) (omega arith) (omega arith) (ground arith) in
    let low : x % 16 ≡ y % 16 =
      hex_digit_injective (x % 16) (y % 16) (omega arith) (omega arith) (ground arith) in
    ap₂ ◌∷◌ (byte_of_digits x y high low)
      (encode_to_string_injective xs ys hx.1 hy.1 (ground arith))

-- A session that was created, under a digest of bytes, is found under it until it expires, with its
-- times at the precision of the store; under every other digest of bytes `Session` answers as before.
pub create_session_found :
    (x : Session) (s : Store) (d : List ℕ) (now : Time)
    → AreBytes x.digest
    → AreBytes d
    → is_err (create_session x s).0 ≡ false
    → session d now (create_session x s).1 ≡ (
        if x.digest == d
        then (if is_expired now (stored_session x) then err not_found else ok (stored_session x))
        else session d now s)
unfolding session
create_session_found x s d now hx hd done = elim (Bool-cases (x.digest == d)) [
  | inl here ↦
      rw (here, ← (list_eqb_iff x.digest d).0 here)
        (ground (
          arith,
          create_session_cases s x,
          get-put (encode_to_string x.digest) (encode_to_string x.digest) (stored_session x)
              s.sessions,
          eq_refl (encode_to_string x.digest),
        ))
  | inr there ↦ ground (
    arith,
    create_session_cases s x,
    get-put (encode_to_string x.digest) (encode_to_string d) (stored_session x) s.sessions,
    list_eqb_iff (encode_to_string x.digest) (encode_to_string d),
    list_eqb_iff x.digest d,
    encode_to_string_injective x.digest d hx hd,
  )
]
