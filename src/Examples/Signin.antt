-- ===== src/Examples/Signin.antt =====
-- server/login.go with the people of one company: somebody unknown, and somebody who signs in.
use k8s_lab.Common.{
  String, true, false, [], ◌≡◌, ◌≢◌, refl, some, ◌+◌, ◌&&◌, ◌==◌, string_eq, nat_eq, list_eq,
  if◌then◌else◌, arith, eq_iff, keep,
}
use k8s_lab.Common.Map.{get, put, delete}
use k8s_lab.Common.Text.{caseless, to_lower, trim_space, trim_suffix}
use k8s_lab.Common.Clock.{truncate_us, before}
use k8s_lab.Common.Result.{ok, err, is_err}
use k8s_lab.Identity.{Account, Credential}
use k8s_lab.Identity.Store.{new, fold, encode_to_string}
use k8s_lab.Identity.Tenants.{create_tenant}
use k8s_lab.Identity.Accounts.{
  create_account, with_credential, account, account_by_email, credential,
}
use k8s_lab.Identity.Sessions.{create_session}
use k8s_lab.Identity.Cases.{stored_session, stamped_account}
use k8s_lab.Identity.History.{step, run}
use k8s_lab.Auth.{issue, issued, issued_cookie, resolve, no_session, ttl}
use k8s_lab.Auth.Host.{canonical_host}
use k8s_lab.Auth.Cookies.{is_bound}
use k8s_lab.Auth.Login.{
  Hasher, Call, LoginRequest, matches, mismatch, unreadable, refused, logged_in, login,
}
use k8s_lab.Auth.Entry.{IsEntitled, login_uniform, login_resolves}
use k8s_lab.Examples.People.{people, ada, hash_of}
use k8s_lab.Examples.Access.{cookies, request}

-- A hash that is the password itself, and that is always to be raised. An empty one is unreadable.
abbrev hasher : Hasher
hasher = record {
  verify = λ hash password.
      if hash == "" then unreadable else if hash == password then matches else mismatch;
  needs_rehash = λ hash. true;
  hash = λ salt password. some password;
}

abbrev call : String → Call
call email = record {
  body = some (record { email = email; password = "h0" });
  host = "acme.test:443";
  token = "token";
  salt = [];
  now = 5000;
  stored = 6000;
}

abbrev asked : String → LoginRequest
asked email = record { email = email; password = "h0" }

nobody_there :
    (a : Account) (cred : Credential)
    → ¬ IsEntitled caseless hasher (asked "eve@acme.test") people a cred
unfolding step run new create_tenant create_account with_credential fold get put delete keep
    create_session encode_to_string account account_by_email credential to_lower trim_space
    trim_suffix truncate_us issue issued issued_cookie canonical_host
nobody_there a cred entitled = let found = entitled.0 in ground arith

stored_readable :
    (a : Account) (cred : Credential)
    → account_by_email caseless "eve@acme.test" people ≡ ok a
    → credential a.id people ≡ ok cred
    → hasher.verify cred.hash "h0" ≢ unreadable
unfolding step run new create_tenant create_account with_credential fold get put delete keep
    create_session encode_to_string account account_by_email credential to_lower trim_space
    trim_suffix truncate_us issue issued issued_cookie canonical_host
stored_readable a cred found has_hash = absurd (ground arith)

login_uniform_example :
    login caseless cookies hasher (call "eve@acme.test") people ≡ (refused, 1, people)
login_uniform_example =
    login_uniform caseless cookies hasher (call "eve@acme.test") (asked "eve@acme.test") people refl
      refl stored_readable nobody_there

abbrev stored_ada : Account
stored_ada = stamped_account 2000 ada

abbrev stored_hash : Credential
stored_hash = record (hash_of "h0") { updated_at = 2000 }

ada-IsEntitled : IsEntitled caseless hasher (asked "ada@acme.test") people stored_ada stored_hash
unfolding step run new create_tenant create_account with_credential fold get put delete keep
    create_session encode_to_string account account_by_email credential to_lower trim_space
    trim_suffix truncate_us issue issued issued_cookie canonical_host
ada-IsEntitled = (refl, refl, refl, refl)

can_issue : is_err (issue caseless cookies 5000 "token" "a1" "acme.test:443" people).0 ≡ false
unfolding step run new create_tenant create_account with_credential fold get put delete keep
    create_session encode_to_string account account_by_email credential to_lower trim_space
    trim_suffix truncate_us issue issued issued_cookie canonical_host
can_issue = refl

login_resolves_example :
    let out = login caseless cookies hasher (call "ada@acme.test") people in
    (out.0 ≡ logged_in (issued_cookie cookies "token") stored_ada)
    × (out.1 ≡ 2)
    × (resolve caseless cookies 7000 (request "acme.test") out.2 ≡ (
        if before 7000 (truncate_us (5000 + ttl cookies))
          && is_bound
              (canonical_host caseless "acme.test:443")
              (canonical_host caseless "acme.test")
        then ok (stored_session (issued caseless cookies 5000 "token" "a1" "acme.test:443"))
        else err no_session))
login_resolves_example =
    login_resolves caseless cookies hasher (call "ada@acme.test") (asked "ada@acme.test") people
      refl refl stored_ada stored_hash 7000 (request "acme.test") ada-IsEntitled
      (λ e. ground (arith, eq_iff "token" "")) can_issue refl
