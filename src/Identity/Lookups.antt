-- ===== src/Identity/Lookups.antt =====
-- What the reads of identity/memory/memory.go answer after a write.
use k8s_lab.Common.{
  String, Bool, true, false, ◌≡◌, ◌≢◌, ◌↔◌, Memᴰ, ◌==◌, string_eq, nat_eq, list_eq, eq_iff, eq_refl,
  arith, if◌then◌else◌, Option-cases, Bool-cases, inl, inr, keep, mem-keep, mem_of_mem-keep,
}
use k8s_lab.Common.Map.{get, put, delete, get-put, get-delete, values, mem-values}
use k8s_lab.Common.Text.{Unicode, HasNoNul, join_injective}
use k8s_lab.Common.Clock.{Time}
use k8s_lab.Common.Result.{Result, ok, err, is_err}
use k8s_lab.Identity.{Error, not_found, Tenant, Membership}
use k8s_lab.Identity.Store.{Store, member_key}
use k8s_lab.Identity.Tenants.{stamp, tenant, tenant_by_slug, update_tenant, held_by_another}
use k8s_lab.Identity.Members.{add_member, membership, memberships, remove_member}
use k8s_lab.Identity.Invariant.{IsConsistent}

-- What `TenantBySlug` answers after tenant `old` became `t`.
abbrev pub renamed : Tenant → Tenant → Store → String → Result Error Tenant
renamed old t s slug =
    if t.slug == slug
    then ok (record t { created_at = old.created_at })
    else if old.slug == slug
    then err not_found
    else tenant_by_slug slug s

-- Renaming a tenant in a consistent store: it is found under the new slug with the time of its creation kept, its old
-- slug, if another, is free, and every other slug leads where it led.
pub update_tenant_renames :
    (u : Unicode) (s : Store) (old t : Tenant)
    → IsConsistent u s
    → tenant t.id s ≡ ok old
    → is_err (update_tenant t s).0 ≡ false
    → (slug : String) → tenant_by_slug slug (update_tenant t s).1 ≡ renamed old t s slug
unfolding tenant_by_slug tenant update_tenant held_by_another
update_tenant_renames u s old t c found done slug = elim (Option-cases (get slug s.slugs)) [
  | inl e ↦ ground (
    arith,
    get-put t.slug slug t.id (delete old.slug s.slugs),
    get-delete old.slug slug s.slugs,
    get-put t.id t.id (record t { created_at = old.created_at }) s.tenants,
    eq_refl t.id,
  )
  | inr (id, e) ↦ ground (
    arith,
    get-put t.slug slug t.id (delete old.slug s.slugs),
    get-delete old.slug slug s.slugs,
    get-put t.id t.id (record t { created_at = old.created_at }) s.tenants,
    eq_refl t.id,
    get-put t.id id (record t { created_at = old.created_at }) s.tenants,
    eq_iff t.id id,
    eq_iff old.slug slug,
    c.tenants_indexed.of_name slug id e,
  )
]

-- A membership that was granted is the one that is read, with the time it was granted; a second
-- grant for the same account and tenant is refused; and once removed it is not found.
pub add_member_grants :
    (now : Time) (m : Membership) (s : Store)
    → is_err (add_member now m s).0 ≡ false
    → let after = (add_member now m s).1 in
      (membership m.account_id m.tenant_id after
        ≡ ok (record m { created_at = stamp now m.created_at }))
      × (is_err (add_member now m after).0 ≡ true)
      × (membership m.account_id m.tenant_id (remove_member m.account_id m.tenant_id after).1
          ≡ err not_found)
unfolding add_member membership remove_member
add_member_grants now m s done =
    let k = member_key m.account_id m.tenant_id in
    let m' = record m { created_at = stamp now m.created_at } in
    (
      ground (arith, get-put k k m' s.members, eq_refl k),
      ground (arith, get-put k k m' s.members, eq_refl k),
      ground (arith, get-put k k m' s.members, eq_refl k, get-delete k k (put k m' s.members)),
    )

-- The keys of two pairs of ids agree only if the pairs do.
member_key_ne :
    (a t b r : String)
    → HasNoNul a
    → HasNoNul b
    → (a ≡ b → t ≢ r)
    → (member_key a t == member_key b r) ≡ false
unfolding member_key
member_key_ne a t b r ha hb ne = elim (Bool-cases (member_key a t == member_key b r)) [
  | inl e ↦ let (p, q) = join_injective a t b r ha hb ((eq_iff _ _).0 e) in absurd (ne p q)
  | inr e ↦ e
]

-- Granting or removing a role changes no membership of another account or in another tenant,
-- for account ids with no NUL in them.
pub membership_separate :
    (now : Time) (m : Membership) (a t : String) (s : Store)
    → HasNoNul m.account_id
    → HasNoNul a
    → (m.account_id ≡ a → m.tenant_id ≢ t)
    → (membership a t (add_member now m s).1 ≡ membership a t s)
      × (membership a t (remove_member m.account_id m.tenant_id s).1 ≡ membership a t s)
unfolding add_member membership remove_member
membership_separate now m a t s hm ha ne =
    let k = member_key m.account_id m.tenant_id in
    let other = member_key_ne m.account_id m.tenant_id a t hm ha ne in
    (
      ground (
        arith,
        other,
        get-put k (member_key a t) (record m { created_at = stamp now m.created_at }) s.members,
      ),
      ground (arith, other, get-delete k (member_key a t) s.members),
    )

-- In a consistent store `Memberships` lists exactly what `Membership` finds: a membership is
-- listed for an account if and only if it is that account's and is found under its tenant.
pub memberships_exact :
    (u : Unicode) (s : Store) (a : String) (m : Membership)
    → IsConsistent u s
    → Memᴰ m (memberships a s) ↔ ((m.account_id ≡ a) × (membership a m.tenant_id s ≡ ok m))
unfolding memberships membership
memberships_exact u s a m c = (listed, found)
  where
    mine : Membership → Bool
    mine x = x.account_id == a

    listed :
        Memᴰ m (keep mine (values s.members))
        → (m.account_id ≡ a) × (membership a m.tenant_id s ≡ ok m)
    listed h =
        let (n, p) = mem_of_mem-keep mine (values s.members) h in
        let (k, at) = (mem-values s.members m).0 n in
        let same : m.account_id ≡ a = (eq_iff m.account_id a).0 p in
        (same, ground (arith, c.members_owned k m at))

    found :
        (m.account_id ≡ a) × (membership a m.tenant_id s ≡ ok m)
        → Memᴰ m (keep mine (values s.members))
    found h =
        mem-keep mine (values s.members)
          ((mem-values s.members m).1 (member_key a m.tenant_id, ground arith))
          ((eq_iff m.account_id a).1 h.0)
