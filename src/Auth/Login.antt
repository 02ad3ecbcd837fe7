-- ===== src/Auth/Login.antt =====
-- The login handler of server/login.go. The `Hasher` of auth/password.go is an interface: what its
-- methods answer, and how often each derives a key, which is what it costs.
use k8s_lab.Common.{
  String, Bool, ℕ, List, Option, none, some, ◌+◌, ◌||◌, ◌==◌, string_eq, if◌then◌else◌,
}
use k8s_lab.Common.Clock.{Time}
use k8s_lab.Common.Result.{Result, ok, err}
use k8s_lab.Common.Text.{Unicode}
use k8s_lab.Identity.{not_found, Account, Credential}
use k8s_lab.Identity.Store.{Store}
use k8s_lab.Identity.Accounts.{account_by_email, credential, rehash_credential}
use k8s_lab.Auth.{Error, Sessions, Cookie, issue}

pub data Verdict : Type 0 where
  matches mismatch unreadable : Verdict

-- `hash` takes the salt that it reads from the system, and none is its failure.
pub record Hasher : Type 0 where
  pub verify : String → String → Verdict
  pub needs_rehash : String → Bool
  pub hash : List ℕ → String → Option String

pub record LoginRequest : Type 0 where
  pub email : String
  pub password : String

pub data Response : Type 0 where
  bad_request refused unavailable not_created : Response
  logged_in : Cookie → Account → Response

-- What a request brings from outside: the body where it decodes, the host, the token that
-- `rand.Text` answers, the salt, and the clock of the session and of the store.
pub record Call : Type 0 where
  pub body : Option LoginRequest
  pub host : String
  pub token : String
  pub salt : List ℕ
  pub now : Time
  pub stored : Time

-- How often `Verify` derives a key: not at all for a hash that it cannot read.
abbrev pub cost : Verdict → ℕ
cost unreadable = 0
cost other = 1

-- A failure to raise the hash is logged, and leaves the login as it was.
unfoldable pub raise_hash : Hasher → Call → Account → Credential → String → Store → Store
raise_hash h call a cred password s =
    if h.needs_rehash cred.hash
    then elim (h.hash call.salt password) [
      | none ↦ s
      | some fresh ↦
          (rehash_credential call.stored
            (record { account_id = a.id; hash = fresh; updated_at = 0 }) s).1
    ]
    else s

-- How often raising the hash derives a key: `Hash` derives one unless it fails before.
abbrev pub raise_cost : Hasher → Call → Credential → String → ℕ
raise_cost h call cred password =
    if h.needs_rehash cred.hash
    then elim (h.hash call.salt password) [ none ↦ 0 | some fresh ↦ 1 ]
    else 0

-- What follows `Issue`.
unfoldable pub after_issue :
    Hasher
    → Call
    → Account
    → Credential
    → String
    → Result Error Cookie × Store
    → Response × ℕ × Store
unfolding raise_hash
after_issue h call a cred password (err e, s) = (not_created, 0, s)
after_issue h call a cred password (ok cookie, s) =
    (logged_in cookie a, raise_cost h call cred password, raise_hash h call a cred password s)

abbrev pub grant :
    Unicode
    → Sessions
    → Hasher
    → Call
    → Account
    → Credential
    → String
    → Store
    → Response × ℕ × Store
grant u c h call a cred password s =
    after_issue h call a cred password (issue u c call.now call.token a.id call.host s)

-- The answer, how often a key was derived before it, and the store.
unfoldable pub login : Unicode → Sessions → Hasher → Call → Store → Response × ℕ × Store
unfolding after_issue
login u c h call s = elim call.body [
  | none ↦ (bad_request, 0, s)
  | some req ↦
      if req.email == "" || req.password == ""
      then (refused, 0, s)
      else elim (account_by_email u req.email s) [
        | err not_found ↦ (refused, 1, s)
        | err e ↦ (unavailable, 0, s)
        | ok a ↦ elim (credential a.id s) [
          | err not_found ↦ (refused, 1, s)
          | err e ↦ (unavailable, 0, s)
          | ok cred ↦ elim (h.verify cred.hash req.password) [
            | mismatch ↦ (refused, cost mismatch, s)
            | unreadable ↦ (refused, cost unreadable, s)
            | matches ↦
                if a.disabled
                then (refused, cost matches, s)
                else (let (answer, more, s') = grant u c h call a cred req.password s in
                    (answer, cost matches + more, s'))
          ]
        ]
      ]
]
