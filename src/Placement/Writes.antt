-- ===== src/Placement/Writes.antt =====
-- What the reads of placement/memory/memory.go answer after `Put`, `Delete` and `SetTrigger`.
use k8s_lab.Common.{
  String, Bool, true, false, ◌≡◌, ◌≢◌, ◌↔◌, Memᴰ, ◌==◌, string_eq, eq_iff, eq_refl, sym, refl,
  arith, if◌then◌else◌, keep, mem-keep, mem_of_mem-keep, none, some, List, nat_eq,
}
use k8s_lab.Common.Map.{get, has, get-put, get-delete, values, mem-values}
use k8s_lab.Common.Sort.{sort_by, mem-sort_by, mem_of_mem-sort_by}
use k8s_lab.Common.Text.{Unicode}
use k8s_lab.Common.Clock.{Time, truncate_us}
use k8s_lab.Common.Result.{Result, ok, err, is_err}
use k8s_lab.Placement.{Error, not_found, Placement, Trigger, canonical_repo, is_invalid_trigger}
use k8s_lab.Placement.Store.{
  Store, key, key_of, release_unused, put_placement, get_placement, delete_placement, set_trigger,
  triggers_for, is_match, list, by_app_and_env, stamped, created_before,
}
use k8s_lab.Placement.Claims.{IsClaimed}
use k8s_lab.Placement.Keeps.{put_placement_cases, set_trigger_cases}

-- What `Get` answers for a key after the placement `p` was put at the time `now`.
abbrev pub replaced : Time → Placement → Result Error Placement → Result Error Placement
replaced now p (ok old) =
    ok (record p { created_at = old.created_at; updated_at = truncate_us now })
replaced now p (err e) =
    ok (record p { created_at = truncate_us now; updated_at = truncate_us now })

-- A placement that was put is the one that is read, with the time of its first put kept through
-- every replacement, and no placement under another key changes.
pub put_placement_reads :
    (now : Time) (p : Placement) (tenant_id app env : String) (s : Store)
    → is_err (put_placement now p s).0 ≡ false
    → get_placement tenant_id app env (put_placement now p s).1 ≡ (
        if key_of p == key tenant_id app env
        then replaced now p (get_placement tenant_id app env s)
        else get_placement tenant_id app env s)
unfolding get_placement created_before release_unused
put_placement_reads now p tenant_id app env s done = ground (
  arith,
  put_placement_cases now p s,
  get-put (key_of p) (key tenant_id app env) (stamped now p s) s.by_key,
  eq_iff (key_of p) (key tenant_id app env),
)

-- Deleting a placement removes it and its trigger, whether or not it was there, and no placement
-- under another key.
pub delete_placement_reads :
    (tenant_id app env tenant' app' env' : String) (s : Store)
    → let after = delete_placement tenant_id app env s in
      (get_placement tenant' app' env' after ≡ (
        if key tenant_id app env == key tenant' app' env'
        then err not_found
        else get_placement tenant' app' env' s))
      × (get (key tenant_id app env) after.triggers ≡ none)
unfolding get_placement delete_placement release_unused
delete_placement_reads tenant_id app env tenant' app' env' s =
    let k = key tenant_id app env in
    (
      ground (arith, get-delete k (key tenant' app' env') s.by_key),
      ground (arith, get-delete k k s.triggers, eq_refl k),
    )

-- A push finds exactly the triggers of its provider and repository that hold a secret.
pub triggers_for_exact :
    (u : Unicode) (provider url : String) (s : Store) (t : Trigger)
    → Memᴰ t (triggers_for u provider url s) ↔ (
        (k : String) × (get k s.triggers ≡ some t)
        × (t.provider ≡ provider)
        × (t.repo_url ≡ canonical_repo u url)
        × (t.secret ≢ ""))
unfolding triggers_for
triggers_for_exact u provider url s t = (found, triggered)
  where
    want : Trigger → Bool
    want = is_match provider (canonical_repo u url)

    found :
        Memᴰ t (triggers_for u provider url s)
        → (k : String) × (get k s.triggers ≡ some t)
          × (t.provider ≡ provider)
          × (t.repo_url ≡ canonical_repo u url)
          × (t.secret ≢ "")
    found h =
        let (n, p) =
          mem_of_mem-keep want (values s.triggers)
            (mem_of_mem-sort_by _ (keep want (values s.triggers)) h) in
        let (k, at) = (mem-values s.triggers t).0 n in
        (
          k,
          at,
          ground (arith, eq_iff t.provider provider),
          ground (arith, eq_iff t.repo_url (canonical_repo u url)),
          λ e. ground (arith, eq_iff t.secret ""),
        )

    triggered :
        (k : String) × (get k s.triggers ≡ some t)
          × (t.provider ≡ provider)
          × (t.repo_url ≡ canonical_repo u url)
          × (t.secret ≢ "")
        → Memᴰ t (triggers_for u provider url s)
    triggered (k, at, p, r, n) = mem-sort_by _ (keep want (values s.triggers)) (
        mem-keep want (values s.triggers) ((mem-values s.triggers t).1 (k, at)) (
          ground (
            arith,
            eq_iff t.provider provider,
            eq_iff t.repo_url (canonical_repo u url),
            eq_iff t.secret "",
          )))

-- A trigger that was set is found by every spelling of its repository with one canonical form, as
-- long as its provider asks, and only a placement that exists can be given one.
pub set_trigger_found :
    (u : Unicode) (t : Trigger) (url : String) (s : Store)
    → is_err (set_trigger u t s).0 ≡ false
    → canonical_repo u url ≡ canonical_repo u t.repo_url
    → Memᴰ
        (record t { repo_url = canonical_repo u t.repo_url })
        (triggers_for u t.provider url (set_trigger u t s).1)
      × (has (key t.tenant_id t.app t.env) s.by_key ≡ true)
unfolding is_invalid_trigger set_trigger
set_trigger_found u t url s done e =
    let k = key t.tenant_id t.app t.env in
    let x = record t { repo_url = canonical_repo u t.repo_url } in
    (
      (triggers_for_exact u t.provider url (set_trigger u t s).1 x).1 (
        k,
        ground (arith, set_trigger_cases u t s, get-put k k x s.triggers, eq_refl k),
        refl,
        sym e,
        λ empty. ground (arith, eq_iff t.secret ""),
      ),
      ground (arith, set_trigger_cases u t s),
    )

-- In a store whose claims are exact `List` is what `Get` finds: for a tenant id that is not empty
-- it answers, and lists a placement if and only if it is that tenant's and is read under its own
-- app and environment.
pub list_exact :
    (tenant_id : String) (s : Store)
    → IsClaimed s
    → tenant_id ≢ ""
    → (ps : List Placement) × (list tenant_id s ≡ ok ps)
      × ((p : Placement)
          → Memᴰ p ps
            ↔ ((p.tenant_id ≡ tenant_id) × (get_placement p.tenant_id p.app p.env s ≡ ok p)))
unfolding list get_placement
list_exact tenant_id s c ne =
    (sort_by by_app_and_env mine, ground (arith, eq_iff tenant_id ""), λ p. (listed p, found p))
  where
    is_mine : Placement → Bool
    is_mine q = q.tenant_id == tenant_id

    mine : List Placement
    mine = keep is_mine (values s.by_key)

    listed :
        (p : Placement)
        → Memᴰ p (sort_by by_app_and_env mine)
        → (p.tenant_id ≡ tenant_id) × (get_placement p.tenant_id p.app p.env s ≡ ok p)
    listed p m =
        let (n, same) =
          mem_of_mem-keep is_mine (values s.by_key) (mem_of_mem-sort_by by_app_and_env mine m) in
        let (k, at) = (mem-values s.by_key p).0 n in
        ((eq_iff p.tenant_id tenant_id).0 same, ground (arith, c.held.keyed k p at, at))

    found :
        (p : Placement)
        → (p.tenant_id ≡ tenant_id) × (get_placement p.tenant_id p.app p.env s ≡ ok p)
        → Memᴰ p (sort_by by_app_and_env mine)
    found p (t, at) = mem-sort_by by_app_and_env mine (
        mem-keep is_mine (values s.by_key) ((mem-values s.by_key p).1 (key_of p, ground arith))
          ((eq_iff p.tenant_id tenant_id).1 t))
