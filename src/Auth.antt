-- ===== src/Auth.antt =====
-- auth/session.go and `subjectFrom` of server/login.go: from a cookie to a subject.
pub mod Host
pub mod Access
pub mod Cookies
pub mod Login
pub mod Entry
use k8s_lab.Common.{
  String, Bool, true, List, ℕ, ◌+◌, ◌/◌, [], ◌∷◌, Option, none, some, ◌&&◌, not, ◌==◌, string_eq,
  nat_eqb, if◌then◌else◌,
}
use k8s_lab.Common.Clock.{Time}
use k8s_lab.Common.Result.{Result, ok, err}
use k8s_lab.Common.Text.{Unicode}
use k8s_lab.Identity
use k8s_lab.Identity.{Session, not_found}
use k8s_lab.Identity.Store.{Store}
use k8s_lab.Identity.Accounts.{account}
use k8s_lab.Identity.Members.{membership}
use k8s_lab.Identity.Tenants.{tenant}
use k8s_lab.Identity.Sessions.{create_session, session, delete_session}
use k8s_lab.Authz.{Subject}
use Host.{canonical_host}

pub data SameSite : Type 0 where
  unset lax strict none_mode : SameSite

-- `MaxAge`: a number of seconds, or -1, which clears the cookie.
pub data MaxAge : Type 0 where
  seconds : ℕ → MaxAge
  clear : MaxAge

pub record Cookie : Type 0 where
  pub name : String
  pub value : String
  pub path : String
  pub http_only : Bool
  pub secure : Bool
  pub same_site : SameSite
  pub max_age : MaxAge

-- The part of an `http.Request` that is read: the value of the session cookie and the host.
pub record Request : Type 0 where
  pub cookie : Option String
  pub host : String

abbrev pub cookie_name : String
cookie_name = "damga_session"

-- The `Sessions` struct. A `ttl` that is not positive in the source is 0 here. `sum256` is SHA-256.
pub record Sessions : Type 0 where
  pub ttl_set : ℕ
  pub secure : Bool
  pub same_site : SameSite
  pub sum256 : String → List ℕ

pub data Error : Type 0 where
  no_session no_account : Error
  store : Identity.Error → Error

-- Nanoseconds in twelve hours.
abbrev pub default_ttl : ℕ
default_ttl = 43_200_000_000_000

abbrev pub ttl : Sessions → ℕ
ttl s = if nat_eqb s.ttl_set 0 then default_ttl else s.ttl_set

abbrev pub same_site_or_lax : SameSite → SameSite
same_site_or_lax unset = lax
same_site_or_lax other = other

-- The session that `Issue` stores for the token that `rand.Text` answers.
unfoldable pub issued : Unicode → Sessions → Time → String → String → String → Session
issued u c now token account_id host = record {
  digest = c.sum256 token;
  account_id = account_id;
  issued_for = canonical_host u host;
  created_at = now;
  expires_at = now + ttl c;
}

unfoldable pub issued_cookie : Sessions → String → Cookie
issued_cookie c token = record {
  name = cookie_name;
  value = token;
  path = "/";
  http_only = true;
  secure = c.secure;
  same_site = same_site_or_lax c.same_site;
  max_age = seconds (ttl c / 1_000_000_000);
}

unfoldable pub issue :
    Unicode → Sessions → Time → String → String → String → Store → Result Error Cookie × Store
unfolding issued issued_cookie
issue u c now token account_id host s =
    if account_id == ""
    then (err no_account, s)
    else (let (r, s') = create_session (issued u c now token account_id host) s in
        elim r [ err e ↦ (err (store e), s') | ok _ ↦ (ok (issued_cookie c token), s') ])

unfoldable pub resolve : Unicode → Sessions → Time → Request → Store → Result Error Session
resolve u c now r s = elim r.cookie [
  | none ↦ err no_session
  | some value ↦ if value == "" then err no_session else elim (session (c.sum256 value) now s) [
    | err e ↦ err no_session
    | ok x ↦
        if not (x.issued_for == "") && not (x.issued_for == canonical_host u r.host)
        then err no_session
        else ok x
  ]
]

unfoldable pub cleared_cookie : Sessions → Cookie
cleared_cookie c = record {
  name = cookie_name;
  value = "";
  path = "/";
  http_only = true;
  secure = c.secure;
  same_site = same_site_or_lax c.same_site;
  max_age = clear;
}

unfoldable pub revoke : Sessions → Request → Store → Cookie × Store
unfolding cleared_cookie
revoke c r s = elim r.cookie [
  | none ↦ (cleared_cookie c, s)
  | some value ↦
      if value == ""
      then (cleared_cookie c, s)
      else (cleared_cookie c, (delete_session (c.sum256 value) s).1)
]

unfoldable pub subject_from : Session → String → Store → Result Identity.Error Subject
subject_from x tenant_id s = elim (account x.account_id s) [
  | err e ↦ err e
  | ok a ↦ if a.disabled then err not_found else elim (membership x.account_id tenant_id s) [
    | err e ↦ err e
    | ok m ↦ elim (tenant m.tenant_id s) [
      | err e ↦ err e
      | ok t ↦
          if t.suspended
          then err not_found
          else ok
              (record { id = a.id; tenant = m.tenant_id; email = a.email; groups = m.role ∷ [] })
    ]
  ]
]
