-- ===== src/Identity/Cases.antt =====
-- The branches of each method that writes: it refuses, or its guards held and this is the store
-- that it leaves.
use k8s_lab.Common.{
  String, Bool, true, false, List, ℕ, ◌≡◌, ◌⊎◌, string_eq, nat_eq, list_eq, arith, some,
}
use k8s_lab.Common.Map.{get, put, delete, delete_where, has}
use k8s_lab.Common.Text.{Unicode}
use k8s_lab.Common.Clock.{Time, truncate_us}
use k8s_lab.Common.Result.{Refuses, Succeeds}
use k8s_lab.Identity.{Tenant, Account, Credential, Membership, Session, is_valid_role}
use k8s_lab.Identity.Store.{Store, fold, member_key, encode_to_string}
use k8s_lab.Identity.Tenants.{create_tenant, update_tenant, held_by_another, stamp}
use k8s_lab.Identity.Accounts.{
  create_account, with_credential, set_credential, rehash_credential, is_session_of,
}
use k8s_lab.Identity.Members.{add_member, remove_member}
use k8s_lab.Identity.Sessions.{create_session, delete_session}
use k8s_lab.Identity.Bootstrap.{is_invalid_bootstrap, bootstrap, claim}

abbrev pub stamped_tenant : Time → Tenant → Tenant
stamped_tenant now t = record t { created_at = stamp now t.created_at }

abbrev pub stamped_account : Time → Account → Account
stamped_account now a = record a { created_at = stamp now a.created_at }

abbrev pub stamped_credential : Time → Credential → Credential
stamped_credential now cred = record cred { updated_at = stamp now cred.updated_at }

abbrev pub stored_session : Session → Session
stored_session x = record x {
  created_at = truncate_us x.created_at;
  expires_at = truncate_us x.expires_at;
}

module _ (s : Store) where
  abbrev pub with_tenant : Tenant → Store
  with_tenant t = record s { tenants = put t.id t s.tenants; slugs = put t.slug t.id s.slugs }

  abbrev pub with_renamed : Tenant → Tenant → Store
  with_renamed old t = record s {
    tenants = put t.id t s.tenants;
    slugs = put t.slug t.id (delete old.slug s.slugs);
  }

  abbrev pub with_account : Unicode → Account → Credential → Store
  with_account u a cred = record s {
    accounts = put a.id a s.accounts;
    emails = put (fold u a.email) a.id s.emails;
    creds = with_credential a cred s.creds;
  }

  abbrev pub with_hash : Credential → Store
  with_hash cred = record s { creds = put cred.account_id cred s.creds }

  abbrev pub without_sessions : (Session → Bool) → Store
  without_sessions p = record s { sessions = delete_where (λ k x. p x) s.sessions }

  abbrev pub with_member : Membership → Store
  with_member m = record s { members = put (member_key m.account_id m.tenant_id) m s.members }

  abbrev pub with_session : Session → Store
  with_session x = record s { sessions = put (encode_to_string x.digest) x s.sessions }

  pub create_tenant_cases :
      (now : Time) (t : Tenant)
      → Refuses s (create_tenant now t s)
        ⊎ ((has t.slug s.slugs ≡ false)
            × (has t.id s.tenants ≡ false)
            × Succeeds (with_tenant (stamped_tenant now t)) (create_tenant now t s))
  unfolding create_tenant
  create_tenant_cases now t = ground arith

  pub update_tenant_cases :
      (t : Tenant)
      → Refuses s (update_tenant t s)
        ⊎ ((old : Tenant) × (get t.id s.tenants ≡ some old)
            × (held_by_another (get t.slug s.slugs) t.id ≡ false)
            × Succeeds
                (with_renamed old (record t { created_at = old.created_at }))
                (update_tenant t s))
  unfolding update_tenant
  update_tenant_cases t = ground arith

  pub create_account_cases :
      (u : Unicode) (now : Time) (a : Account) (cred : Credential)
      → Refuses s (create_account u now a cred s)
        ⊎ ((has (fold u a.email) s.emails ≡ false)
            × (has a.id s.accounts ≡ false)
            × Succeeds
                (with_account u (stamped_account now a) cred)
                (create_account u now a cred s))
  unfolding create_account
  create_account_cases u now a cred = ground arith

  pub set_credential_cases :
      (now : Time) (cred : Credential)
      → Refuses s (set_credential now cred s)
        ⊎ ((has cred.account_id s.accounts ≡ true)
            × Succeeds
                (record (with_hash (stamped_credential now cred)) {
                  sessions = delete_where (λ k x. is_session_of cred.account_id x) s.sessions;
                })
                (set_credential now cred s))
  unfolding set_credential
  set_credential_cases now cred = ground arith

  pub rehash_credential_cases :
      (now : Time) (cred : Credential)
      → Refuses s (rehash_credential now cred s)
        ⊎ ((has cred.account_id s.creds ≡ true)
            × Succeeds (with_hash (stamped_credential now cred)) (rehash_credential now cred s))
  unfolding rehash_credential
  rehash_credential_cases now cred = ground arith

  pub add_member_cases :
      (now : Time) (m : Membership)
      → Refuses s (add_member now m s)
        ⊎ ((is_valid_role m.role ≡ true)
            × (has m.account_id s.accounts ≡ true)
            × (has m.tenant_id s.tenants ≡ true)
            × (has (member_key m.account_id m.tenant_id) s.members ≡ false)
            × Succeeds
                (with_member (record m { created_at = stamp now m.created_at }))
                (add_member now m s))
  unfolding add_member
  add_member_cases now m = ground arith

  pub remove_member_cases :
      (account_id tenant_id : String)
      → Refuses s (remove_member account_id tenant_id s)
        ⊎ ((has (member_key account_id tenant_id) s.members ≡ true)
            × Succeeds
                (record s { members = delete (member_key account_id tenant_id) s.members })
                (remove_member account_id tenant_id s))
  unfolding remove_member
  remove_member_cases account_id tenant_id = ground arith

  pub create_session_cases :
      (x : Session)
      → Refuses s (create_session x s)
        ⊎ ((has x.account_id s.accounts ≡ true)
            × (has (encode_to_string x.digest) s.sessions ≡ false)
            × Succeeds (with_session (stored_session x)) (create_session x s))
  unfolding create_session
  create_session_cases x = ground arith

  pub delete_session_cases :
      (digest : List ℕ)
      → Refuses s (delete_session digest s)
        ⊎ ((has (encode_to_string digest) s.sessions ≡ true)
            × Succeeds
                (record s { sessions = delete (encode_to_string digest) s.sessions })
                (delete_session digest s))
  unfolding delete_session
  delete_session_cases digest = ground arith

  pub bootstrap_cases :
      (u : Unicode) (now : Time) (t : Tenant) (a : Account) (cred : Credential)
      → Refuses s (bootstrap u now t a cred s)
        ⊎ ((is_invalid_bootstrap t a cred ≡ false)
            × (s.bootstrapped ≡ false)
            × (has t.slug s.slugs ≡ false)
            × (has t.id s.tenants ≡ false)
            × (has (fold u a.email) s.emails ≡ false)
            × (has a.id s.accounts ≡ false)
            × Succeeds (claim u now t a cred s) (bootstrap u now t a cred s))
  unfolding bootstrap
  bootstrap_cases u now t a cred = ground arith
