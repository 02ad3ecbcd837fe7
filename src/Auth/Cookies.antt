-- ===== src/Auth/Cookies.antt =====
-- The life of a cookie: `Issue`, `Resolve` and `Revoke` of auth/session.go.
use k8s_lab.Common.{
  String, Bool, false, ◌+◌, ◌≡◌, ◌≢◌, ◌==◌, string_eq, nat_eq, list_eq, eq_iff, eq_refl, arith,
  some, ◌&&◌, ◌||◌, Option-cases, inl, inr, if◌then◌else◌,
}
use k8s_lab.Common.Map.{get-put, get-delete}
use k8s_lab.Common.Text.{Unicode}
use k8s_lab.Common.Clock.{Time, truncate_us, before}
use k8s_lab.Common.Result.{ok, err, is_err}
use k8s_lab.Identity.Store.{Store, encode_to_string}
use k8s_lab.Identity.Sessions.{session, delete_session}
use k8s_lab.Identity.Cases.{stored_session, create_session_cases}
use k8s_lab.Auth.{Sessions, Request, no_session, issued, issue, resolve, revoke, ttl}
use k8s_lab.Auth.Host.{canonical_host}

-- Whether a session bound to the host `x` may be used at the host `y`.
abbrev pub is_bound : String → String → Bool
is_bound x y = x == "" || x == y

-- A cookie that was issued, with a token that is not empty and a session that could be stored, is
-- good exactly until its time to live has passed, and only at the host that it was issued for, in
-- its canonical form: then it resolves to the session of the account it was issued to, and
-- otherwise to no session. One that was issued for a host whose canonical form is empty is good at
-- every host until then.
pub issue_resolves :
    (u : Unicode) (c : Sessions) (now later : Time) (token account_id host : String) (s : Store)
    (r : Request)
    → token ≢ ""
    → is_err (issue u c now token account_id host s).0 ≡ false
    → r.cookie ≡ some token
    → resolve u c later r (issue u c now token account_id host s).1 ≡ (
        if before later (truncate_us (now + ttl c))
          && is_bound (canonical_host u host) (canonical_host u r.host)
        then ok (stored_session (issued u c now token account_id host))
        else err no_session)
unfolding issue resolve session issued
issue_resolves u c now later token account_id host s r ne done e =
    let x = stored_session (issued u c now token account_id host) in
    ground (
      arith,
      create_session_cases s (issued u c now token account_id host),
      get-put (encode_to_string (c.sum256 token)) (encode_to_string (c.sum256 token)) x s.sessions,
      eq_refl (encode_to_string (c.sum256 token)),
      eq_iff token "",
    )

-- Logging out: the cookie of the request resolves to no session any more, at any host and time.
pub revoke_resolves :
    (u : Unicode) (c : Sessions) (later : Time) (r r' : Request) (s : Store)
    → r'.cookie ≡ r.cookie
    → resolve u c later r' (revoke c r s).1 ≡ err no_session
unfolding revoke resolve session delete_session
revoke_resolves u c later r r' s e = elim (Option-cases r.cookie) [
  | inl none_sent ↦ ground arith
  | inr (value, sent) ↦
      let k = encode_to_string (c.sum256 value) in
      ground (arith, get-delete k k s.sessions, eq_refl k)
]
