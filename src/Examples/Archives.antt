-- ===== src/Examples/Archives.antt =====
-- `Verify` and `Current` of evidence/memory/memory.go on honest and on edited archives.
use k8s_lab.Common.{
  true, false, List, [], ◌∷◌, ◌++◌, ◌≤◌, ◌≡◌, ◌≢◌, ◌↔◌, Memᴰ, refl, arith, ◌==◌, string_eq, list_eq,
  nat_eq, some, keep, contains, ap, length, eq_iff,
}
use k8s_lab.Common.Clock.{truncate_us}
use k8s_lab.Common.Result.{ok, err, is_err}
use k8s_lab.Common.Map.{get, put, delete}
use k8s_lab.Evidence.{ref_eq, Hash, Image, Record, Transition, Proof, not_found}
use k8s_lab.Evidence.Ids.{pos, id_of, show}
use k8s_lab.Evidence.Chain.{of_record, chained, link, chain_record, chain_event}
use k8s_lab.Evidence.Store.{
  Store, new, append, appended, transition, moved, event_of, is_elsewhere, is_stale, get_record,
}
use k8s_lab.Evidence.Reads.{
  records_of, records, is_chained, verify, history, fill, is_match, limit_of, after_cursor,
  check_records, newest_of, current,
}
use k8s_lab.Evidence.Races.{Call, appends, transitions, step, run}
use k8s_lab.Evidence.Links.{of_ref}
use k8s_lab.Evidence.Proofs.{run-verified}
use k8s_lab.Evidence.Breaks.{IsBrokenAt, verify_reports_break, verify_from_cursor_breaks}
use k8s_lab.Evidence.Learned.{learned_image_breaks}
use k8s_lab.Evidence.Current.{is_candidate, current_exact}
use k8s_lab.Examples.Deploys.{
  api, api-IsFull, hasher, deploy, to_running, first_id, first, one, first_there,
}

abbrev history_of_two : List Call
history_of_two =
    appends (pos 1000) 1000 (deploy "k1")
    ∷ appends (pos 2000) 2000 (deploy "k2")
    ∷ transitions 6000 first_id to_running
    ∷ []

abbrev two : Store
two = run hasher history_of_two (new 0)

run-verified_example :
    (proof : Proof) × (verify hasher api "" "" two ≡ ok proof) × (proof.valid ≡ true)
run-verified_example =
    run-verified hasher 0 history_of_two api api-IsFull (refl, (refl, ((refl, refl), tt)))

abbrev with_image : Record → Record
with_image r = record r { image = record { requested_ref = "nginx:1"; admitted_digest = "" } }

-- The first record edited in place.
abbrev edited : Store
edited = record one { by_id = put first_id (with_image first) one.by_id }

edited_records : of_ref api (records edited) ≡ [] ++ (with_image first ∷ [])
unfolding run step new append appended transition moved event_of is_elsewhere is_stale id_of show
    get_record get put delete keep contains records_of is_chained chain_record chain_event link
    truncate_us verify history fill is_match limit_of after_cursor check_records newest_of current
edited_records = refl

edited_hash : chain_record hasher [] (with_image first) ≢ (with_image first).hash
unfolding run step new append appended transition moved event_of is_elsewhere is_stale id_of show
    get_record get put delete keep contains records_of is_chained chain_record chain_event link
    truncate_us verify history fill is_match limit_of after_cursor check_records newest_of current
edited_hash = λ e. ground arith

verify_reports_break_example :
    (proof : Proof) × (verify hasher api "" "" edited ≡ ok proof) × IsBrokenAt first.seq proof
verify_reports_break_example =
    verify_reports_break hasher api edited [] [] (with_image first) [] api-IsFull edited_records
      refl (omega arith) edited_hash

abbrev nginx : Image
nginx = record { requested_ref = "nginx:1"; admitted_digest = "" }

abbrev learns_image : Transition
learns_image = record to_running { image = some nginx }

image_learned : is_err (transition hasher 6000 first_id learns_image one).0 ≡ false
unfolding run step new append appended transition moved event_of is_elsewhere is_stale id_of show
    get_record get put delete keep contains records_of is_chained chain_record chain_event link
    truncate_us verify history fill is_match limit_of after_cursor check_records newest_of current
image_learned = refl

image_new : nginx ≢ first.image
unfolding run step new append appended transition moved event_of is_elsewhere is_stale id_of show
    get_record get put delete keep contains records_of is_chained chain_record chain_event link
    truncate_us verify history fill is_match limit_of after_cursor check_records newest_of current
image_new e = ground (arith, ap (λ (i : Image). i.requested_ref) e, eq_iff "nginx:1" "")

one_record : length (of_ref first.ref (records one)) ≤ 200
unfolding run step new append appended transition moved event_of is_elsewhere is_stale id_of show
    get_record get put delete keep contains records_of is_chained chain_record chain_event link
    truncate_us verify history fill is_match limit_of after_cursor check_records newest_of current
one_record = omega arith

image_shown :
    hasher.marshal (of_record (chained hasher (moved hasher 6000 learns_image first)))
      ≡ hasher.marshal (of_record (chained hasher first))
    → (moved hasher 6000 learns_image first).image ≡ first.image
unfolding run step new append appended transition moved event_of is_elsewhere is_stale id_of show
    get_record get put delete keep contains records_of is_chained chain_record chain_event link
    truncate_us verify history fill is_match limit_of after_cursor check_records newest_of current
image_shown e = absurd (ground arith)

apart :
    (p : Hash)
    → chain_record hasher p (moved hasher 6000 learns_image first) ≡ chain_record hasher p first
    → p ++ hasher.marshal (of_record (chained hasher (moved hasher 6000 learns_image first)))
      ≡ p ++ hasher.marshal (of_record (chained hasher first))
unfolding run step new append appended transition moved event_of is_elsewhere is_stale id_of show
    get_record get put delete keep contains records_of is_chained chain_record chain_event link
    truncate_us verify history fill is_match limit_of after_cursor check_records newest_of current
apart p e = e

learned_image_breaks_example :
    (proof : Proof) × (verify hasher first.ref "" ""
        (transition hasher 6000 first_id learns_image one).1
      ≡ ok proof)
    × IsBrokenAt first.seq proof
unfolding appended
learned_image_breaks_example =
    learned_image_breaks hasher 0 (appends (pos 1000) 1000 (deploy "k1") ∷ []) 6000 first_id
      learns_image first nginx api-IsFull (refl, tt) first_there image_learned one_record refl
      image_new image_shown apart

abbrev second : Record
second = appended hasher (pos 2000) 2000 (deploy "k2") one

cursor_given : (first_id == "") ≡ false
unfolding run step new append appended transition moved event_of is_elsewhere is_stale id_of show
    get_record get put delete keep contains records_of is_chained chain_record chain_event link
    truncate_us verify history fill is_match limit_of after_cursor check_records newest_of current
cursor_given = refl

cursor_there : after_cursor first_id (records two) ≡ some (second ∷ [])
unfolding run step new append appended transition moved event_of is_elsewhere is_stale id_of show
    get_record get put delete keep contains records_of is_chained chain_record chain_event link
    truncate_us verify history fill is_match limit_of after_cursor check_records newest_of current
cursor_there = refl

cursor_records : of_ref api (second ∷ []) ≡ second ∷ []
unfolding run step new append appended transition moved event_of is_elsewhere is_stale id_of show
    get_record get put delete keep contains records_of is_chained chain_record chain_event link
    truncate_us verify history fill is_match limit_of after_cursor check_records newest_of current
cursor_records = refl

cursor_hash : chain_record hasher [] second ≢ second.hash
unfolding run step new append appended transition moved event_of is_elsewhere is_stale id_of show
    get_record get put delete keep contains records_of is_chained chain_record chain_event link
    truncate_us verify history fill is_match limit_of after_cursor check_records newest_of current
cursor_hash = λ e. ground arith

verify_from_cursor_breaks_example :
    (proof : Proof) × (verify hasher api first_id "" two ≡ ok proof) × IsBrokenAt second.seq proof
verify_from_cursor_breaks_example =
    verify_from_cursor_breaks hasher api first_id two (second ∷ []) [] second api-IsFull
      cursor_given cursor_there cursor_records cursor_hash

current_exact_example :
    ((r : Record)
      → current api two ≡ ok r
      → Memᴰ r (records two)
        × (is_candidate api r ≡ true)
        × ((q : Record) → Memᴰ q (records two) → is_candidate api q ≡ true → q.seq ≤ r.seq))
    × ((current api two ≡ err not_found)
        ↔ ((q : Record) → Memᴰ q (records two) → is_candidate api q ≡ false))
current_exact_example = current_exact api two
