-- ===== src/Identity/History.antt =====
-- Any sequence of calls on the store of identity/memory/memory.go. The mutex serialises the calls
-- of concurrent callers, so every interleaving is such a sequence.
use k8s_lab.Common.{String, List, ℕ, [], ◌∷◌}
use k8s_lab.Common.Text.{Unicode}
use k8s_lab.Common.Clock.{Time}
use k8s_lab.Identity.{Tenant, Account, Credential, Membership, Session}
use k8s_lab.Identity.Store.{Store, new}
use k8s_lab.Identity.Tenants.{create_tenant, update_tenant}
use k8s_lab.Identity.Accounts.{create_account, set_credential, rehash_credential, is_session_of}
use k8s_lab.Identity.Members.{add_member, remove_member}
use k8s_lab.Identity.Sessions.{
  create_session, delete_session, delete_account_sessions, prune_expired, is_expired,
}
use k8s_lab.Identity.Bootstrap.{bootstrap}
use k8s_lab.Identity.Invariant.{IsConsistent, new-IsConsistent}
use k8s_lab.Identity.Invariant

-- The methods of `identity.Store` that write. The reads leave the store as it is.
pub data Call : Type 0 where
  creates_tenant updates_tenant : Tenant → Call
  creates_account : Account → Credential → Call
  sets_credential rehashes_credential : Credential → Call
  adds_member : Membership → Call
  removes_member : String → String → Call
  creates_session : Session → Call
  deletes_session : List ℕ → Call
  deletes_account_sessions : String → Call
  prunes_expired : Call
  bootstraps : Tenant → Account → Credential → Call

module _ (u : Unicode) where
  -- One call, with what `time.Now()` answers during it.
  unfoldable pub step : Time → Call → Store → Store
  step now (creates_tenant t) s = (create_tenant now t s).1
  step now (updates_tenant t) s = (update_tenant t s).1
  step now (creates_account a cred) s = (create_account u now a cred s).1
  step now (sets_credential cred) s = (set_credential now cred s).1
  step now (rehashes_credential cred) s = (rehash_credential now cred s).1
  step now (adds_member m) s = (add_member now m s).1
  step now (removes_member a t) s = (remove_member a t s).1
  step now (creates_session x) s = (create_session x s).1
  step now (deletes_session d) s = (delete_session d s).1
  step now (deletes_account_sessions a) s = (delete_account_sessions a s).1
  step now prunes_expired s = (prune_expired now s).1
  step now (bootstraps t a cred) s = (bootstrap u now t a cred s).1

  unfoldable pub run : List (Time × Call) → Store → Store
  run [] s = s
  run ((now, c) ∷ rest) s = run rest (step now c s)

  step-IsConsistent :
      (now : Time) (c : Call) (s : Store) → IsConsistent u s → IsConsistent u (step now c s)
  unfolding step delete_account_sessions prune_expired
  step-IsConsistent now (creates_tenant t) s k = Invariant.create_tenant-IsConsistent u s k now t
  step-IsConsistent now (updates_tenant t) s k = Invariant.update_tenant-IsConsistent u s k t
  step-IsConsistent now (creates_account a cred) s k =
      Invariant.create_account-IsConsistent u s k now a cred
  step-IsConsistent now (sets_credential cred) s k =
      Invariant.set_credential-IsConsistent u s k now cred
  step-IsConsistent now (rehashes_credential cred) s k =
      Invariant.rehash_credential-IsConsistent u s k now cred
  step-IsConsistent now (adds_member m) s k = Invariant.add_member-IsConsistent u s k now m
  step-IsConsistent now (removes_member a t) s k = Invariant.remove_member-IsConsistent u s k a t
  step-IsConsistent now (creates_session x) s k = Invariant.create_session-IsConsistent u s k x
  step-IsConsistent now (deletes_session d) s k = Invariant.delete_session-IsConsistent u s k d
  step-IsConsistent now (deletes_account_sessions a) s k =
      Invariant.delete_sessions-IsConsistent u s k (is_session_of a)
  step-IsConsistent now prunes_expired s k =
      Invariant.delete_sessions-IsConsistent u s k (is_expired now)
  step-IsConsistent now (bootstraps t a cred) s k =
      Invariant.bootstrap-IsConsistent u s k now t a cred

  run-IsConsistent :
      (calls : List (Time × Call)) (s : Store) → IsConsistent u s → IsConsistent u (run calls s)
  unfolding run
  run-IsConsistent [] s k = k
  run-IsConsistent ((now, c) ∷ rest) s k =
      run-IsConsistent rest (step now c s) (step-IsConsistent now c s k)

  -- After any calls on a new store, by any callers in any order, the slug and email indexes are
  -- exact, and every credential, membership and session belongs to an account that exists, is
  -- filed under its own key, and every membership names a tenant that exists and a valid role.
  pub run-new-IsConsistent : (calls : List (Time × Call)) → IsConsistent u (run calls new)
  run-new-IsConsistent calls = run-IsConsistent calls new (new-IsConsistent u)
