-- ===== src/Identity/Owned.antt =====
-- What points at an account or a tenant in the store of identity/memory/memory.go, and the writes
-- to the maps that keep it pointing.
use k8s_lab.Common.{
  String, Bool, true, List, ℕ, ◌≡◌, sym, ◌==◌, string_eq, nat_eq, list_eq, eq_iff, list_eqb_iff,
  arith, some, Bool-cases, subst, inl, inr,
}
use k8s_lab.Common.Map.{
  Map, get, put, delete, delete_where, has, get-put, get-delete, get-delete_where, has-put,
}
use k8s_lab.Identity.{Tenant, Account, Credential, Membership, Session, is_valid_role}
use k8s_lab.Identity.Store.{member_key, encode_to_string}

-- Every credential belongs to the account that it is filed under.
abbrev pub CredsOwned : Map String Account → Map String Credential → Type 0
CredsOwned accounts creds =
    (id : String) (c : Credential)
    → get id creds ≡ some c
    → (c.account_id ≡ id) × (has id accounts ≡ true)

-- Every membership is filed under its key, joins an account and a tenant that exist, and has one
-- of the three roles.
abbrev pub MembersOwned : Map String Account → Map String Tenant → Map String Membership → Type 0
MembersOwned accounts tenants members =
    (k : String) (m : Membership)
    → get k members ≡ some m
    → (k ≡ member_key m.account_id m.tenant_id)
      × (has m.account_id accounts ≡ true)
      × (has m.tenant_id tenants ≡ true)
      × (is_valid_role m.role ≡ true)

-- Every session is filed under its digest and belongs to an account that exists.
abbrev pub SessionsOwned : Map String Account → Map (List ℕ) Session → Type 0
SessionsOwned accounts sessions =
    (k : List ℕ) (x : Session)
    → get k sessions ≡ some x
    → (k ≡ encode_to_string x.digest) × (has x.account_id accounts ≡ true)

module _ (accounts : Map String Account) where
  pub CredsOwned-put :
      (creds : Map String Credential) (c : Credential)
      → CredsOwned accounts creds
      → has c.account_id accounts ≡ true
      → CredsOwned accounts (put c.account_id c creds)
  CredsOwned-put creds c k h id x e =
      ground (arith, get-put c.account_id id c creds, eq_iff c.account_id id, k id x)

  pub CredsOwned-more :
      (creds : Map String Credential) (id : String) (a : Account)
      → CredsOwned accounts creds
      → CredsOwned (put id a accounts) creds
  CredsOwned-more creds id a k j x e = let (o, h) = k j x e in (o, has-put id j a accounts h)

  pub SessionsOwned-more :
      (sessions : Map (List ℕ) Session) (id : String) (a : Account)
      → SessionsOwned accounts sessions
      → SessionsOwned (put id a accounts) sessions
  SessionsOwned-more sessions id a k j x e =
      let (o, h) = k j x e in (o, has-put id x.account_id a accounts h)

  pub SessionsOwned-put :
      (sessions : Map (List ℕ) Session) (x : Session)
      → SessionsOwned accounts sessions
      → has x.account_id accounts ≡ true
      → SessionsOwned accounts (put (encode_to_string x.digest) x sessions)
  SessionsOwned-put sessions x k h j y e = ground (
    arith,
    get-put (encode_to_string x.digest) j x sessions,
    list_eqb_iff (encode_to_string x.digest) j,
    k j y,
  )

  pub SessionsOwned-delete_where :
      (sessions : Map (List ℕ) Session) (p : Session → Bool)
      → SessionsOwned accounts sessions
      → SessionsOwned accounts (delete_where (λ j x. p x) sessions)
  SessionsOwned-delete_where sessions p k j y e =
      ground (arith, get-delete_where (λ j x. p x) j sessions, k j y)

  pub SessionsOwned-delete :
      (sessions : Map (List ℕ) Session) (d : List ℕ)
      → SessionsOwned accounts sessions
      → SessionsOwned accounts (delete d sessions)
  SessionsOwned-delete sessions d k j y e = ground (arith, get-delete d j sessions, k j y)

  module _ (tenants : Map String Tenant) (members : Map String Membership)
      (k : MembersOwned accounts tenants members) where
    pub MembersOwned-put :
        (m : Membership)
        → has m.account_id accounts ≡ true
        → has m.tenant_id tenants ≡ true
        → is_valid_role m.role ≡ true
        → MembersOwned accounts tenants (put (member_key m.account_id m.tenant_id) m members)
    MembersOwned-put m a t r j y e = elim (Bool-cases (member_key m.account_id m.tenant_id == j)) [
      | inl here ↦
          let same : m ≡ y =
            ground (arith, get-put (member_key m.account_id m.tenant_id) j m members) in
          subst
            (λ z.
              (j ≡ member_key z.account_id z.tenant_id)
              × (has z.account_id accounts ≡ true)
              × (has z.tenant_id tenants ≡ true)
              × (is_valid_role z.role ≡ true))
            same (sym ((eq_iff (member_key m.account_id m.tenant_id) j).0 here), a, t, r)
      | inr there ↦
          k j y (ground (arith, get-put (member_key m.account_id m.tenant_id) j m members))
    ]

    pub MembersOwned-delete : (d : String) → MembersOwned accounts tenants (delete d members)
    MembersOwned-delete d j y e = k j y (ground (arith, get-delete d j members))

    pub MembersOwned-more_tenants :
        (id : String) (t : Tenant) → MembersOwned accounts (put id t tenants) members
    MembersOwned-more_tenants id t j y e =
        let (key, a, x, r) = k j y e in (key, a, has-put id y.tenant_id t tenants x, r)

    pub MembersOwned-more_accounts :
        (id : String) (a : Account) → MembersOwned (put id a accounts) tenants members
    MembersOwned-more_accounts id a j y e =
        let (key, h, x, r) = k j y e in (key, has-put id y.account_id a accounts h, x, r)
