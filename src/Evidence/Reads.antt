-- ===== src/Evidence/Reads.antt =====
-- evidence/memory/memory.go: the methods that read several records, and `Prune`.
use k8s_lab.Common.{
  String, Bool, true, false, List, [], ◌∷◌, ◌++◌, ℕ, suc, ◌-◌, Option, none, some, ◌||◌, ◌&&◌, not,
  ◌==◌, string_eq, list_eq, nat_eq, reverse, nat_eqb, ltb, if◌then◌else◌, keep, contains,
}
use Prim.Native.String.{compare}
use Prim.Native.Nat.{Ordering}
use k8s_lab.Common.Map.{Map, get, delete, values}
use k8s_lab.Common.Sort.{sort_by}
use k8s_lab.Common.Clock.{Time, is_zero, before}
use k8s_lab.Common.Result.{Result, ok, err}
use k8s_lab.Evidence.{
  Error, not_found, invalid, Ref, ref_eq, Hash, Event, Record, Query, Page, Proof, PruneResult,
  Order, oldest, newest, running, applied,
}
use k8s_lab.Evidence.Ids.{ℤ, pos, negsuc}
use k8s_lab.Evidence.Chain.{Hasher, chain_record, chain_event}
use k8s_lab.Evidence.Store.{Store}

-- The records of the ids of an order. An id with no record is a nil pointer in the source, and
-- there is none.
unfoldable pub records_of : Map String Record → List String → List Record
records_of by_id [] = []
records_of by_id (id ∷ ids) =
    let rest = records_of by_id ids in elim (get id by_id) [ none ↦ rest | some r ↦ r ∷ rest ]

abbrev pub records : Store → List Record
records s = records_of s.by_id s.order

abbrev pub is_live : Record → Bool
is_live r = r.state == running || r.state == applied

-- One step of the loop of `Current`: the record with the greatest number so far.
abbrev pub better : Option Record → Record → Option Record
better none r = some r
better (some best) r = if ltb best.seq r.seq then some r else some best

unfoldable pub newest_of : Ref → Option Record → List Record → Option Record
newest_of ref best [] = best
newest_of ref best (r ∷ rs) =
    newest_of ref (if r.ref == ref && is_live r then better best r else best) rs

unfoldable pub current : Ref → Store → Result Error Record
current ref s = elim (newest_of ref none (records s)) [ none ↦ err not_found | some r ↦ ok r ]

unfoldable pub find_by_source : String → String → Store → List Record
find_by_source repo_url sha s =
    keep (λ r. r.source.repo_url == repo_url && r.source.commit_sha == sha) (records s)

abbrev wide_or_same : String → String → Bool
wide_or_same want have = want == "" || have == want

abbrev is_any_of : List String → String → Bool
is_any_of [] state = true
is_any_of (x ∷ xs) state = contains (x ∷ xs) state

-- match
unfoldable pub is_match : Query → Record → Bool
is_match q r =
    (wide_or_same q.ref.tenant_id r.ref.tenant_id
      && (wide_or_same q.ref.app r.ref.app && wide_or_same q.ref.env r.ref.env))
    && (is_any_of q.states r.state
        && ((is_zero q.since || not (before r.created_at q.since))
            && (is_zero q.until || not (before q.until r.created_at))))

-- Outside 1 to 200 a limit is 50.
unfoldable pub limit_of : ℤ → ℕ
limit_of (negsuc n) = 50
limit_of (pos n) = if nat_eqb n 0 || ltb 200 n then 50 else n

-- The loop of `History` once the cursor is passed: `n` is the length of the page so far and `last`
-- the id of its last record.
unfoldable pub fill : Query → ℕ → ℕ → String → List Record → Page
fill q limit n last [] = record { records = []; next = "" }
fill q limit n last (r ∷ rs) = elim (is_match q r) [
  | false ↦ fill q limit n last rs
  | true ↦ elim (nat_eqb n limit) [
    | true ↦ record { records = []; next = last }
    | false ↦ let page = fill q limit (suc n) r.id rs in record page { records = r ∷ page.records }
  ]
]

-- The part of that loop before the cursor: what follows it, where it is reached.
unfoldable pub after_cursor : String → List Record → Option (List Record)
after_cursor cursor [] = none
after_cursor cursor (r ∷ rs) = elim (r.id == cursor) [
  | true ↦ some rs
  | false ↦ after_cursor cursor rs
]

abbrev pub in_order : Order → List Record → List Record
in_order oldest rs = rs
in_order newest rs = reverse rs

unfoldable pub history : Query → Store → Result Error Page
history q s =
    if q.after == ""
    then ok (fill q (limit_of q.limit) 0 "" (in_order q.order (records s)))
    else elim (after_cursor q.after (in_order q.order (records s))) [
      | none ↦ err invalid
      | some rs ↦ ok (fill q (limit_of q.limit) 0 "" rs)
    ]

-- The inner loop of `Verify`: whether the events of a record chain off each other.
unfoldable pub is_chained : Hasher → Hash → String → List Event → Bool
is_chained h prev id [] = true
is_chained h prev id (e ∷ es) = chain_event h prev id e == e.hash && is_chained h e.hash id es

abbrev is_past : String → String → Bool
is_past to id = elim (compare id to) [ Ordering.gt ↦ not (to == "") | _ ↦ false ]

-- Its outer loop, with the proof so far.
unfoldable pub check_records : Hasher → String → Hash → Proof → List Record → Proof
check_records h to prev proof [] = record proof { root_hash = prev }
check_records h to prev proof (r ∷ rs) = elim (is_past to r.id) [
  | true ↦ record proof { root_hash = prev }
  | false ↦ elim (chain_record h prev r == r.hash) [
    | false ↦ record proof { valid = false; broken_at = r.seq; root_hash = prev }
    | true ↦ elim (is_chained h r.hash r.id r.transitions) [
      | false ↦ record proof { valid = false; broken_at = r.seq }
      | true ↦
          check_records h to r.hash
            (record proof {
              records = suc proof.records;
              to_seq = r.seq;
              from_seq = (if nat_eqb proof.from_seq 0 then r.seq else proof.from_seq);
            })
            rs
    ]
  ]
]

abbrev pub fresh_proof : Ref → Proof
fresh_proof ref = record {
  ref = ref;
  from_seq = 0;
  to_seq = 0;
  records = 0;
  valid = true;
  broken_at = 0;
  root_hash = [];
}

abbrev pub verify_query : Ref → String → Query
verify_query ref after = record {
  ref = ref;
  states = [];
  since = 0;
  until = 0;
  limit = pos 200;
  after = after;
  order = oldest;
}

unfoldable pub verify : Hasher → Ref → String → String → Store → Result Error Proof
verify h ref after to s = elim (history (verify_query ref after) s) [
  | err e ↦ err e
  | ok page ↦ ok (check_records h to [] (fresh_proof ref) page.records)
]

unfoldable pub is_current : Store → Record → Bool
is_current s r = elim (current r.ref s) [ err e ↦ false | ok best ↦ best.id == r.id ]

-- Whether `Prune` keeps a record that it examines.
unfoldable pub is_kept : Time → Store → Record → Bool
is_kept cutoff s r = not (before r.created_at cutoff) || is_current s r

-- One round of the loop of `Prune`: the result so far, and the store with what is kept so far.
unfoldable pub prune_one : Time → Store → Record → PruneResult × Store → PruneResult × Store
prune_one cutoff s r acc =
    if is_kept cutoff s r
    then (
      record acc.0 {
        examined = suc acc.0.examined;
        oldest =
            (if is_zero acc.0.oldest || before r.created_at acc.0.oldest
              then r.created_at
              else acc.0.oldest);
      },
      record acc.1 { order = acc.1.order ++ (r.id ∷ []) },
    )
    else (
      record acc.0 { examined = suc acc.0.examined; deleted = suc acc.0.deleted },
      record acc.1 {
        by_id = delete r.id acc.1.by_id;
        by_key = delete r.idempotency_key acc.1.by_key;
      },
    )

unfoldable pub prune_loop : Time → Store → List Record → PruneResult × Store → PruneResult × Store
unfolding prune_one
prune_loop cutoff s [] acc = acc
prune_loop cutoff s (r ∷ rs) acc = prune_loop cutoff s rs (prune_one cutoff s r acc)

unfoldable pub prune : Time → Store → PruneResult × Store
prune now s =
    if nat_eqb s.window 0
    then (record { examined = 0; deleted = 0; oldest = 0 }, s)
    else prune_loop (now - s.window) s (records s)
        (record { examined = 0; deleted = 0; oldest = 0 }, record s { order = [] })

abbrev not_after : String → String → Bool
not_after a b = elim (compare a b) [ Ordering.gt ↦ false | _ ↦ true ]

abbrev by_app_and_env : Ref → Ref → Bool
by_app_and_env a b = if a.app == b.app then not_after a.env b.env else not_after a.app b.app

-- Each of a list once, in the place where it stands first.
distinct : List Ref → List Ref → List Ref
distinct seen [] = []
distinct seen (r ∷ rs) = elim (contains seen r) [
  | true ↦ distinct seen rs
  | false ↦ r ∷ distinct (r ∷ seen) rs
]

refs_in : String → List Record → List Ref
refs_in tenant_id [] = []
refs_in tenant_id (r ∷ rs) =
    let rest = refs_in tenant_id rs in if r.ref.tenant_id == tenant_id then r.ref ∷ rest else rest

unfoldable pub refs : String → Store → Result Error (List Ref)
unfolding distinct refs_in
refs tenant_id s =
    if tenant_id == ""
    then err invalid
    else ok (sort_by by_app_and_env (distinct [] (refs_in tenant_id (values s.by_id))))
