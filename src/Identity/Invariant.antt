-- ===== src/Identity/Invariant.antt =====
-- The invariant of the store of identity/memory/memory.go between two calls.
use k8s_lab.Common.{
  String, Bool, false, List, ℕ, ◌≡◌, refl, ◌==◌, string_eq, nat_eq, list_eq, eq_iff, arith, some,
  Bool-cases, inl, inr,
}
use k8s_lab.Common.Map.{Map, get, put, get-nil, none_of_has, some_of_has, has-put_self}
use k8s_lab.Common.Index.{IsIndexed, IsIndexed-nil, IsIndexed-create, IsIndexed-update}
use k8s_lab.Common.Text.{Unicode}
use k8s_lab.Common.Clock.{Time, or_now, truncate_us}
use k8s_lab.Identity.{Tenant, Account, Credential, Membership, Session, role_owner}
use k8s_lab.Identity.Store.{Store, new, fold, member_key}
use k8s_lab.Identity.Tenants.{create_tenant, update_tenant, held_by_another, stamp}
use k8s_lab.Identity.Accounts.{
  create_account, with_credential, set_credential, rehash_credential, is_session_of,
}
use k8s_lab.Identity.Members.{add_member, remove_member}
use k8s_lab.Identity.Sessions.{create_session, delete_session, delete_sessions}
use k8s_lab.Identity.Owned.{
  CredsOwned, MembersOwned, SessionsOwned, CredsOwned-put, CredsOwned-more, SessionsOwned-more,
  SessionsOwned-put, SessionsOwned-delete_where, SessionsOwned-delete, MembersOwned-put,
  MembersOwned-delete, MembersOwned-more_tenants, MembersOwned-more_accounts,
}
use k8s_lab.Identity.Cases.{
  stamped_tenant, stamped_account, stamped_credential, stored_session, create_tenant_cases,
  update_tenant_cases, create_account_cases, set_credential_cases, rehash_credential_cases,
  add_member_cases, remove_member_cases, create_session_cases, delete_session_cases,
  bootstrap_cases,
}
use k8s_lab.Identity.Bootstrap.{bootstrap, claim}

pub record IsConsistent (u : Unicode) (s : Store) : Type 0 where
  pub tenants_indexed : IsIndexed (λ t. t.id) (λ t. t.slug) s.tenants s.slugs
  pub accounts_indexed : IsIndexed (λ a. a.id) (λ a. fold u a.email) s.accounts s.emails
  pub creds_owned : CredsOwned s.accounts s.creds
  pub members_owned : MembersOwned s.accounts s.tenants s.members
  pub sessions_owned : SessionsOwned s.accounts s.sessions

-- The holder of a slug that `UpdateTenant` lets through is the tenant itself.
holder_is :
    (slugs : Map String String) (slug id : String)
    → held_by_another (get slug slugs) id ≡ false
    → (holder : String) → get slug slugs ≡ some holder
    → holder ≡ id
unfolding held_by_another
holder_is slugs slug id f h e = ground (arith, eq_iff h id)

with_credential-CredsOwned :
    (accounts : Map String Account) (creds : Map String Credential)
    → CredsOwned accounts creds
    → (a : Account) (cred : Credential)
    → CredsOwned (put a.id a accounts) (with_credential a cred creds)
unfolding with_credential
with_credential-CredsOwned accounts creds k a cred = elim (Bool-cases (cred.hash == "")) [
  | inl e ↦ rw (e, with_credential) (CredsOwned-more accounts creds a.id a k)
  | inr e ↦
      rw (e, with_credential)
        (CredsOwned-put (put a.id a accounts) creds
          (record cred { account_id = a.id; updated_at = or_now cred.updated_at a.created_at })
          (CredsOwned-more accounts creds a.id a k) (has-put_self a.id a accounts))
]

module _ (u : Unicode) where
  pub new-IsConsistent : IsConsistent u new
  unfolding new
  new-IsConsistent = record {
    tenants_indexed = IsIndexed-nil _ _;
    accounts_indexed = IsIndexed-nil _ _;
    creds_owned = λ id c h. absurd (ground (arith, get-nil {V = Credential} id));
    members_owned = λ k m h. absurd (ground (arith, get-nil {V = Membership} k));
    sessions_owned = λ k x h. absurd (ground (arith, get-nil {V = Session} k));
  }

  module _ (s : Store) (c : IsConsistent u s) where
    pub create_tenant-IsConsistent :
        (now : Time) (t : Tenant) → IsConsistent u (create_tenant now t s).1
    create_tenant-IsConsistent now t = elim (create_tenant_cases s now t) [
      | inl r ↦ rw r.1 c
      | inr (free, fresh, done) ↦ rw done.1 (record {
        tenants_indexed =
            IsIndexed-create _ _ s.tenants s.slugs c.tenants_indexed (stamped_tenant now t)
              (none_of_has t.id s.tenants fresh) (none_of_has t.slug s.slugs free);
        accounts_indexed = c.accounts_indexed;
        creds_owned = c.creds_owned;
        members_owned =
            MembersOwned-more_tenants s.accounts s.tenants s.members c.members_owned t.id _;
        sessions_owned = c.sessions_owned;
      })
    ]

    pub update_tenant-IsConsistent : (t : Tenant) → IsConsistent u (update_tenant t s).1
    update_tenant-IsConsistent t = elim (update_tenant_cases s t) [
      | inl r ↦ rw r.1 c
      | inr (old, found, free, done) ↦ rw done.1 (record {
        tenants_indexed =
            IsIndexed-update _ _ s.tenants s.slugs c.tenants_indexed old
              (record t { created_at = old.created_at }) found (holder_is s.slugs t.slug t.id free);
        accounts_indexed = c.accounts_indexed;
        creds_owned = c.creds_owned;
        members_owned =
            MembersOwned-more_tenants s.accounts s.tenants s.members c.members_owned t.id _;
        sessions_owned = c.sessions_owned;
      })
    ]

    pub create_account-IsConsistent :
        (now : Time) (a : Account) (cred : Credential)
        → IsConsistent u (create_account u now a cred s).1
    create_account-IsConsistent now a cred = elim (create_account_cases s u now a cred) [
      | inl r ↦ rw r.1 c
      | inr (free, fresh, done) ↦ rw done.1 (record {
        tenants_indexed = c.tenants_indexed;
        accounts_indexed =
            IsIndexed-create _ _ s.accounts s.emails c.accounts_indexed (stamped_account now a)
              (none_of_has a.id s.accounts fresh) (none_of_has (fold u a.email) s.emails free);
        creds_owned =
            with_credential-CredsOwned s.accounts s.creds c.creds_owned (stamped_account now a)
              cred;
        members_owned =
            MembersOwned-more_accounts s.accounts s.tenants s.members c.members_owned a.id _;
        sessions_owned = SessionsOwned-more s.accounts s.sessions a.id _ c.sessions_owned;
      })
    ]

    pub set_credential-IsConsistent :
        (now : Time) (cred : Credential) → IsConsistent u (set_credential now cred s).1
    set_credential-IsConsistent now cred = elim (set_credential_cases s now cred) [
      | inl r ↦ rw r.1 c
      | inr (known, done) ↦ rw done.1 (record {
        tenants_indexed = c.tenants_indexed;
        accounts_indexed = c.accounts_indexed;
        creds_owned =
            CredsOwned-put s.accounts s.creds (stamped_credential now cred) c.creds_owned known;
        members_owned = c.members_owned;
        sessions_owned =
            SessionsOwned-delete_where s.accounts s.sessions (is_session_of cred.account_id)
              c.sessions_owned;
      })
    ]

    pub rehash_credential-IsConsistent :
        (now : Time) (cred : Credential) → IsConsistent u (rehash_credential now cred s).1
    rehash_credential-IsConsistent now cred = elim (rehash_credential_cases s now cred) [
      | inl r ↦ rw r.1 c
      | inr (known, done) ↦ rw done.1 (record {
        tenants_indexed = c.tenants_indexed;
        accounts_indexed = c.accounts_indexed;
        creds_owned =
            CredsOwned-put s.accounts s.creds (stamped_credential now cred) c.creds_owned (
              let (x, found) = some_of_has cred.account_id s.creds known in
              (c.creds_owned cred.account_id x found).1);
        members_owned = c.members_owned;
        sessions_owned = c.sessions_owned;
      })
    ]

    pub add_member-IsConsistent :
        (now : Time) (m : Membership) → IsConsistent u (add_member now m s).1
    add_member-IsConsistent now m = elim (add_member_cases s now m) [
      | inl r ↦ rw r.1 c
      | inr (role, a, t, free, done) ↦ rw done.1 (record {
        tenants_indexed = c.tenants_indexed;
        accounts_indexed = c.accounts_indexed;
        creds_owned = c.creds_owned;
        members_owned =
            MembersOwned-put s.accounts s.tenants s.members c.members_owned
              (record m { created_at = stamp now m.created_at }) a t role;
        sessions_owned = c.sessions_owned;
      })
    ]

    pub remove_member-IsConsistent :
        (account_id tenant_id : String) → IsConsistent u (remove_member account_id tenant_id s).1
    remove_member-IsConsistent a t = elim (remove_member_cases s a t) [
      | inl r ↦ rw r.1 c
      | inr (known, done) ↦ rw done.1 (record {
        tenants_indexed = c.tenants_indexed;
        accounts_indexed = c.accounts_indexed;
        creds_owned = c.creds_owned;
        members_owned =
            MembersOwned-delete s.accounts s.tenants s.members c.members_owned (member_key a t);
        sessions_owned = c.sessions_owned;
      })
    ]

    pub create_session-IsConsistent : (x : Session) → IsConsistent u (create_session x s).1
    create_session-IsConsistent x = elim (create_session_cases s x) [
      | inl r ↦ rw r.1 c
      | inr (known, free, done) ↦ rw done.1 (record {
        tenants_indexed = c.tenants_indexed;
        accounts_indexed = c.accounts_indexed;
        creds_owned = c.creds_owned;
        members_owned = c.members_owned;
        sessions_owned =
            SessionsOwned-put s.accounts s.sessions (stored_session x) c.sessions_owned known;
      })
    ]

    pub delete_session-IsConsistent : (d : List ℕ) → IsConsistent u (delete_session d s).1
    delete_session-IsConsistent d = elim (delete_session_cases s d) [
      | inl r ↦ rw r.1 c
      | inr (known, done) ↦ rw done.1 (record {
        tenants_indexed = c.tenants_indexed;
        accounts_indexed = c.accounts_indexed;
        creds_owned = c.creds_owned;
        members_owned = c.members_owned;
        sessions_owned = SessionsOwned-delete s.accounts s.sessions _ c.sessions_owned;
      })
    ]

    pub delete_sessions-IsConsistent : (p : Session → Bool) → IsConsistent u (delete_sessions p s).1
    unfolding delete_sessions
    delete_sessions-IsConsistent p = record {
      tenants_indexed = c.tenants_indexed;
      accounts_indexed = c.accounts_indexed;
      creds_owned = c.creds_owned;
      members_owned = c.members_owned;
      sessions_owned = SessionsOwned-delete_where s.accounts s.sessions p c.sessions_owned;
    }

    pub bootstrap-IsConsistent :
        (now : Time) (t : Tenant) (a : Account) (cred : Credential)
        → IsConsistent u (bootstrap u now t a cred s).1
    unfolding claim
    bootstrap-IsConsistent now t a cred = elim (bootstrap_cases s u now t a cred) [
      | inl r ↦ rw r.1 c
      | inr (valid, first, slug, id, email, account, done) ↦ rw done.1 (record {
        tenants_indexed =
            IsIndexed-create _ _ s.tenants s.slugs c.tenants_indexed (stamped_tenant clock t)
              (none_of_has t.id s.tenants id) (none_of_has t.slug s.slugs slug);
        accounts_indexed =
            IsIndexed-create _ _ s.accounts s.emails c.accounts_indexed (stamped_account clock a)
              (none_of_has a.id s.accounts account) (none_of_has (fold u a.email) s.emails email);
        creds_owned =
            CredsOwned-put (put a.id (stamped_account clock a) s.accounts) s.creds
              (record cred { account_id = a.id; updated_at = stamp clock a.created_at })
              (CredsOwned-more s.accounts s.creds a.id _ c.creds_owned)
              (has-put_self a.id _ s.accounts);
        members_owned =
            MembersOwned-put _ _ s.members
              (MembersOwned-more_tenants _ s.tenants s.members
                (MembersOwned-more_accounts s.accounts s.tenants s.members c.members_owned a.id
                  (stamped_account clock a))
                t.id (stamped_tenant clock t))
              (record {
                account_id = a.id;
                tenant_id = t.id;
                role = role_owner;
                created_at = stamp clock a.created_at;
              })
              (has-put_self a.id _ s.accounts) (has-put_self t.id _ s.tenants) refl;
        sessions_owned = SessionsOwned-more s.accounts s.sessions a.id _ c.sessions_owned;
      })
    ]
      where
        clock : Time
        clock = truncate_us now
