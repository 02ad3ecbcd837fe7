-- ===== src/Auth/Entry.antt =====
-- What a login gives away and what it gives (server/login.go).
use k8s_lab.Common.{
  String, false, ℕ, List, ◌≡◌, ◌≢◌, refl, ap, ◌∙◌, some, ◌||◌, ◌&&◌, ◌+◌, ◌==◌, string_eq, nat_eq,
  list_eq, if◌then◌else◌, arith, inl, inr, ◌⊎◌, Bool-cases, Option-cases,
}
use k8s_lab.Common.Clock.{Time, truncate_us, before}
use k8s_lab.Common.Result.{Result, ok, err, Result-cases, is_err}
use k8s_lab.Common.Text.{Unicode}
use k8s_lab.Identity.{Error, not_found, Account, Credential}
use k8s_lab.Identity.Store.{Store}
use k8s_lab.Identity.Accounts.{account, account_by_email, credential}
use k8s_lab.Identity.Sessions.{session}
use k8s_lab.Identity.Cases.{stored_session}
use k8s_lab.Identity.Revocation.{rehash_credential_keeps_sessions}
use k8s_lab.Auth
use k8s_lab.Auth.{Sessions, Request, Cookie, issue, issued, issued_cookie, resolve, no_session, ttl}
use k8s_lab.Auth.Host.{canonical_host}
use k8s_lab.Auth.Cookies.{issue_resolves, is_bound}
use k8s_lab.Auth.Login.{
  Hasher, Call, LoginRequest, Verdict, matches, mismatch, unreadable, refused, logged_in, login,
  grant, after_issue, raise_hash, raise_cost,
}

-- Who may come in with an address and a password: the account that is found, with a credential
-- that the password matches, and not disabled.
abbrev pub IsEntitled : Unicode → Hasher → LoginRequest → Store → Account → Credential → Type 0
IsEntitled u h req s a cred =
    (account_by_email u req.email s ≡ ok a)
    × (credential a.id s ≡ ok cred)
    × (h.verify cred.hash req.password ≡ matches)
    × (a.disabled ≡ false)

Verdict-cases : (v : Verdict) → (v ≡ matches) ⊎ ((v ≡ mismatch) ⊎ (v ≡ unreadable))
Verdict-cases matches = inl refl
Verdict-cases mismatch = inr (inl refl)
Verdict-cases unreadable = inr (inr refl)

account_by_email-error :
    (u : Unicode) (email : String) (s : Store) (e : Error)
    → account_by_email u email s ≡ err e
    → e ≡ not_found
unfolding account_by_email account
account_by_email-error u email s e h = ground arith

credential-error : (id : String) (s : Store) (e : Error) → credential id s ≡ err e → e ≡ not_found
unfolding credential
credential-error id s e h = ground arith

-- `Resolve` reads nothing of the store but the sessions.
resolve-same :
    (u : Unicode) (c : Sessions) (later : Time) (r : Request) (s s' : Store)
    → ((d : List ℕ) (t : Time) → session d t s' ≡ session d t s)
    → resolve u c later r s' ≡ resolve u c later r s
unfolding resolve
resolve-same u c later r s s' same = elim (Option-cases r.cookie) [
  | inl none_sent ↦ rw none_sent refl
  | inr (value, sent) ↦ rw (sent, same (c.sum256 value) later) refl
]

raise_hash-session :
    (h : Hasher) (call : Call) (a : Account) (cred : Credential) (password : String) (s : Store)
    (d : List ℕ) (t : Time)
    → session d t (raise_hash h call a cred password s) ≡ session d t s
unfolding raise_hash
raise_hash-session h call a cred password s d t = elim (Bool-cases (h.needs_rehash cred.hash)) [
  | inr strong ↦ rw strong refl
  | inl weak ↦ elim (Option-cases (h.hash call.salt password)) [
    | inl failed ↦ rw (weak, failed) refl
    | inr (fresh, made) ↦
        rw (weak, made)
          ((rehash_credential_keeps_sessions call.stored
              (record { account_id = a.id; hash = fresh; updated_at = 0 }) s).0
            d t)
  ]
]

issue-cookie :
    (u : Unicode) (c : Sessions) (now : Time) (token account_id host : String) (s : Store)
    → is_err (issue u c now token account_id host s).0 ≡ false
    → (issue u c now token account_id host s).0 ≡ ok (issued_cookie c token)
unfolding issue
issue-cookie u c now token account_id host s done = ground arith

after_issue-ok :
    (h : Hasher) (call : Call) (a : Account) (cred : Credential) (password : String)
    (cookie : Cookie) (p : Result Auth.Error Cookie × Store)
    → p.0 ≡ ok cookie
    → after_issue h call a cred password p
      ≡ (logged_in cookie a, raise_cost h call cred password, raise_hash h call a cred password p.1)
unfolding after_issue
after_issue-ok h call a cred password cookie (err e, s) same = absurd (ground arith)
after_issue-ok h call a cred password cookie (ok x, s) same =
    let here : x ≡ cookie = ground arith in
    ap (λ k. (logged_in k a, raise_cost h call cred password, raise_hash h call a cred password s))
      here

grant_issued :
    (u : Unicode) (c : Sessions) (h : Hasher) (call : Call) (a : Account) (cred : Credential)
    (password : String) (s : Store)
    → is_err (issue u c call.now call.token a.id call.host s).0 ≡ false
    → grant u c h call a cred password s ≡ (
      logged_in (issued_cookie c call.token) a,
      raise_cost h call cred password,
      raise_hash h call a cred password (issue u c call.now call.token a.id call.host s).1,
    )
grant_issued u c h call a cred password s done =
    after_issue-ok h call a cred password (issued_cookie c call.token)
      (issue u c call.now call.token a.id call.host s)
      (issue-cookie u c call.now call.token a.id call.host s done)

module _ (u : Unicode) (c : Sessions) (h : Hasher) (call : Call) (req : LoginRequest) (s : Store)
    (body : call.body ≡ some req) (given : (req.email == "" || req.password == "") ≡ false) where
  -- A login tells nobody which addresses have an account: for a body that decodes, with an address
  -- and a password that are not empty, an address with no account, an account with no password, a
  -- wrong password and a disabled account get one answer, after deriving one key, and leave the
  -- store as it is; except that the hash that is stored for the account of the address, if there
  -- is one, has to be readable.
  pub login_uniform :
      ((a : Account) (cred : Credential)
        → account_by_email u req.email s ≡ ok a
        → credential a.id s ≡ ok cred
        → h.verify cred.hash req.password ≢ unreadable)
      → ((a : Account) (cred : Credential) → ¬ IsEntitled u h req s a cred)
      → login u c h call s ≡ (refused, 1, s)
  unfolding login
  login_uniform readable nobody = elim (Result-cases (account_by_email u req.email s)) [
    | inr (e, gone) ↦
        let none_there = gone ∙ ap err (account_by_email-error u req.email s e gone) in
        rw (body, given, none_there) refl
    | inl (a, found) ↦ elim (Result-cases (credential a.id s)) [
      | inr (e, gone) ↦
          let none_there = gone ∙ ap err (credential-error a.id s e gone) in
          rw (body, given, found, none_there) refl
      | inl (cred, has_hash) ↦ elim (Verdict-cases (h.verify cred.hash req.password)) [
        | inr (inl wrong) ↦ rw (body, given, found, has_hash, wrong) refl
        | inr (inr bad) ↦ absurd (readable a cred found has_hash bad)
        | inl right ↦ elim (Bool-cases a.disabled) [
          | inl off ↦ rw (body, given, found, has_hash, right, off) refl
          | inr on ↦ absurd (nobody a cred (found, has_hash, right, on))
        ]
      ]
    ]
  ]

  login_granted :
      (a : Account) (cred : Credential)
      → IsEntitled u h req s a cred
      → login u c h call s ≡ (
        (grant u c h call a cred req.password s).0,
        1 + (grant u c h call a cred req.password s).1,
        (grant u c h call a cred req.password s).2,
      )
  unfolding login
  login_granted a cred (found, has_hash, right, enabled) =
      rw (body, given, found, has_hash, right, enabled) refl

  -- Signing in: for a body that decodes, with a token that is not empty, the right password of an
  -- account that is not disabled is answered with the account and the cookie, if the session can be
  -- stored, after deriving one key to verify the password and, where the stored hash is to be
  -- raised and hashing does not fail, a second one for the new hash. Whether or not the hash is
  -- raised on the way, the cookie then resolves to the account's session until its time to live has
  -- passed, at the host of the login in its canonical form and no other; a login at a host whose
  -- canonical form is empty gives a session that is good at every host.
  pub login_resolves :
      (a : Account) (cred : Credential) (later : Time) (r : Request)
      → IsEntitled u h req s a cred
      → call.token ≢ ""
      → is_err (issue u c call.now call.token a.id call.host s).0 ≡ false
      → r.cookie ≡ some call.token
      → let out = login u c h call s in
        (out.0 ≡ logged_in (issued_cookie c call.token) a)
        × (out.1 ≡ 1 + raise_cost h call cred req.password)
        × (resolve u c later r out.2 ≡ (
            if before later (truncate_us (call.now + ttl c))
              && is_bound (canonical_host u call.host) (canonical_host u r.host)
            then ok (stored_session (issued u c call.now call.token a.id call.host))
            else err no_session))
  login_resolves a cred later r entitled ne done sent =
      let s' = (issue u c call.now call.token a.id call.host s).1 in
      let granted = grant_issued u c h call a cred req.password s done in
      rw (login_granted a cred entitled, granted)
        (
          refl,
          refl,
          resolve-same u c later r s' (raise_hash h call a cred req.password s')
                (raise_hash-session h call a cred req.password s')
              ∙ issue_resolves u c call.now later call.token a.id call.host s r ne done sent,
        )
