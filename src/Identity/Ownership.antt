-- ===== src/Identity/Ownership.antt =====
-- `Bootstrap` and the calls that are refused (identity/memory/memory.go).
use k8s_lab.Common.{
  Bool, true, false, List, [], ◌∷◌, ◌≡◌, refl, string_eq, nat_eq, list_eq, eq_refl, arith,
  if◌then◌else◌,
}
use k8s_lab.Common.Map.{get-put}
use k8s_lab.Common.Text.{Unicode}
use k8s_lab.Common.Clock.{Time, truncate_us}
use k8s_lab.Common.Result.{ok, err, is_err}
use k8s_lab.Identity.{invalid, duplicate, Tenant, Account, Credential, role_owner}
use k8s_lab.Identity.Store.{Store, fold, member_key}
use k8s_lab.Identity.Tenants.{stamp, tenant, tenant_by_slug, create_tenant, update_tenant}
use k8s_lab.Identity.Accounts.{
  account, account_by_email, credential, create_account, set_credential, rehash_credential,
}
use k8s_lab.Identity.Members.{membership, add_member, remove_member}
use k8s_lab.Identity.Sessions.{
  create_session, delete_session, delete_sessions, delete_account_sessions, prune_expired,
}
use k8s_lab.Identity.Bootstrap.{is_invalid_bootstrap, claim, bootstrap}
use k8s_lab.Identity.Cases
use k8s_lab.Identity.Cases.{stamped_tenant, stamped_account}
use k8s_lab.Identity.History.{
  Call, creates_tenant, updates_tenant, creates_account, sets_credential, rehashes_credential,
  adds_member, removes_member, creates_session, deletes_session, deletes_account_sessions,
  prunes_expired, bootstraps, step, run,
}

module _ (u : Unicode) where
  -- Whether a call returns an error.
  unfoldable pub is_refused : Time → Call → Store → Bool
  is_refused now (creates_tenant t) s = is_err (create_tenant now t s).0
  is_refused now (updates_tenant t) s = is_err (update_tenant t s).0
  is_refused now (creates_account a cred) s = is_err (create_account u now a cred s).0
  is_refused now (sets_credential cred) s = is_err (set_credential now cred s).0
  is_refused now (rehashes_credential cred) s = is_err (rehash_credential now cred s).0
  is_refused now (adds_member m) s = is_err (add_member now m s).0
  is_refused now (removes_member a t) s = is_err (remove_member a t s).0
  is_refused now (creates_session x) s = is_err (create_session x s).0
  is_refused now (deletes_session d) s = is_err (delete_session d s).0
  is_refused now (deletes_account_sessions a) s = is_err (delete_account_sessions a s).0
  is_refused now prunes_expired s = is_err (prune_expired now s).0
  is_refused now (bootstraps t a cred) s = is_err (bootstrap u now t a cred s).0

  -- A call that returns an error has written nothing.
  pub refused_unchanged :
      (now : Time) (c : Call) (s : Store) → is_refused now c s ≡ true → step u now c s ≡ s
  unfolding is_refused step delete_account_sessions prune_expired delete_sessions
  refused_unchanged now (creates_tenant t) s h = ground (arith, Cases.create_tenant_cases s now t)
  refused_unchanged now (updates_tenant t) s h = ground (arith, Cases.update_tenant_cases s t)
  refused_unchanged now (creates_account a cred) s h =
      ground (arith, Cases.create_account_cases s u now a cred)
  refused_unchanged now (sets_credential cred) s h =
      ground (arith, Cases.set_credential_cases s now cred)
  refused_unchanged now (rehashes_credential cred) s h =
      ground (arith, Cases.rehash_credential_cases s now cred)
  refused_unchanged now (adds_member m) s h = ground (arith, Cases.add_member_cases s now m)
  refused_unchanged now (removes_member a t) s h = ground (arith, Cases.remove_member_cases s a t)
  refused_unchanged now (creates_session x) s h = ground (arith, Cases.create_session_cases s x)
  refused_unchanged now (deletes_session d) s h = ground (arith, Cases.delete_session_cases s d)
  refused_unchanged now (deletes_account_sessions a) s h = ground arith
  refused_unchanged now prunes_expired s h = ground arith
  refused_unchanged now (bootstraps t a cred) s h =
      ground (arith, Cases.bootstrap_cases s u now t a cred)

  step-bootstrapped :
      (now : Time) (c : Call) (s : Store)
      → s.bootstrapped ≡ true
      → (step u now c s).bootstrapped ≡ true
  unfolding step delete_account_sessions prune_expired delete_sessions
  step-bootstrapped now (creates_tenant t) s h = ground (arith, Cases.create_tenant_cases s now t)
  step-bootstrapped now (updates_tenant t) s h = ground (arith, Cases.update_tenant_cases s t)
  step-bootstrapped now (creates_account a cred) s h =
      ground (arith, Cases.create_account_cases s u now a cred)
  step-bootstrapped now (sets_credential cred) s h =
      ground (arith, Cases.set_credential_cases s now cred)
  step-bootstrapped now (rehashes_credential cred) s h =
      ground (arith, Cases.rehash_credential_cases s now cred)
  step-bootstrapped now (adds_member m) s h = ground (arith, Cases.add_member_cases s now m)
  step-bootstrapped now (removes_member a t) s h = ground (arith, Cases.remove_member_cases s a t)
  step-bootstrapped now (creates_session x) s h = ground (arith, Cases.create_session_cases s x)
  step-bootstrapped now (deletes_session d) s h = ground (arith, Cases.delete_session_cases s d)
  step-bootstrapped now (deletes_account_sessions a) s h = h
  step-bootstrapped now prunes_expired s h = h
  step-bootstrapped now (bootstraps t a cred) s h =
      ground (arith, Cases.bootstrap_cases s u now t a cred)

  run-bootstrapped :
      (calls : List (Time × Call)) (s : Store)
      → s.bootstrapped ≡ true
      → (run u calls s).bootstrapped ≡ true
  unfolding run
  run-bootstrapped [] s h = h
  run-bootstrapped ((now, c) ∷ rest) s h =
      run-bootstrapped rest (step u now c s) (step-bootstrapped now c s h)

  claimed :
      (now : Time) (t : Tenant) (a : Account) (cred : Credential) (s : Store)
      → is_err (bootstrap u now t a cred s).0 ≡ false
      → (bootstrap u now t a cred s).1 ≡ claim u now t a cred s
  claimed now t a cred s h = ground (arith, Cases.bootstrap_cases s u now t a cred)

  -- An install is bootstrapped at most once: after a bootstrap that succeeded, and any calls
  -- since, another is refused whatever it is given, as invalid where its arguments fail the
  -- checks and as a duplicate where they pass.
  pub bootstrap_once :
      (now : Time) (t : Tenant) (a : Account) (cred : Credential) (s : Store)
      → is_err (bootstrap u now t a cred s).0 ≡ false
      → (calls : List (Time × Call)) (later : Time) (t' : Tenant) (a' : Account)
        (cred' : Credential)
      → (bootstrap u later t' a' cred' (run u calls (bootstrap u now t a cred s).1)).0
        ≡ err (if is_invalid_bootstrap t' a' cred' then invalid else duplicate)
  bootstrap_once now t a cred s h calls later t' a' cred' =
      refused (run u calls (bootstrap u now t a cred s).1) (
        run-bootstrapped calls (bootstrap u now t a cred s).1
          (rw (claimed now t a cred s h) (unfold claim in refl)))
    where
      refused :
          (r : Store)
          → r.bootstrapped ≡ true
          → (bootstrap u later t' a' cred' r).0
            ≡ err (if is_invalid_bootstrap t' a' cred' then invalid else duplicate)
      refused r e = unfold bootstrap in ground arith

  -- A bootstrap that succeeds leaves an install somebody can sign in to: the account is found by
  -- its email, has a credential with the hash given, and is an owner of the tenant, which is found
  -- by its slug.
  pub bootstrap_opens :
      (now : Time) (t : Tenant) (a : Account) (cred : Credential) (s : Store)
      → is_err (bootstrap u now t a cred s).0 ≡ false
      → let after = (bootstrap u now t a cred s).1 in
        let at = stamp (truncate_us now) a.created_at in
        (account_by_email u a.email after ≡ ok (stamped_account (truncate_us now) a))
        × (credential a.id after ≡ ok (record cred { account_id = a.id; updated_at = at }))
        × (membership a.id t.id after
            ≡ ok (record {
              account_id = a.id;
              tenant_id = t.id;
              role = role_owner;
              created_at = at;
            }))
        × (tenant_by_slug t.slug after ≡ ok (stamped_tenant (truncate_us now) t))
        × (after.bootstrapped ≡ true)
  unfolding claim account_by_email account credential membership tenant_by_slug tenant
  bootstrap_opens now t a cred s h =
      let at = stamp (truncate_us now) a.created_at in
      rw (claimed now t a cred s h) (
        ground (
          arith,
          get-put (fold u a.email) (fold u a.email) a.id s.emails,
          eq_refl (fold u a.email),
          get-put a.id a.id (stamped_account (truncate_us now) a) s.accounts,
          eq_refl a.id,
        ),
        ground (
          arith,
          get-put a.id a.id (record cred { account_id = a.id; updated_at = at }) s.creds,
          eq_refl a.id,
        ),
        ground (
          arith,
          get-put (member_key a.id t.id) (member_key a.id t.id)
              (record { account_id = a.id; tenant_id = t.id; role = role_owner; created_at = at })
              s.members,
          eq_refl (member_key a.id t.id),
        ),
        ground (
          arith,
          get-put t.slug t.slug t.id s.slugs,
          eq_refl t.slug,
          get-put t.id t.id (stamped_tenant (truncate_us now) t) s.tenants,
          eq_refl t.id,
        ),
        refl,
      )
