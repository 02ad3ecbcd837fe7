-- ===== src/Evidence/Store.antt =====
-- evidence/memory/memory.go: the store, and the methods that write one record.
use k8s_lab.Common.{
  String, Bool, true, false, List, [], ◌∷◌, ◌++◌, ℕ, suc, Option, none, some, not, ◌==◌, string_eq,
  nat_eqb, if◌then◌else◌, contains, length,
}
use k8s_lab.Common.Map.{Map, get, put}
use k8s_lab.Common.Clock.{Time, truncate_us, is_zero}
use k8s_lab.Common.Result.{Result, ok, err}
use k8s_lab.Evidence.{
  Error, not_found, conflict, duplicate, invalid, no_key, Ref, ref_eq, Hash, Event, Record,
  Transition, pending,
}
use k8s_lab.Evidence.Ids.{ℤ, pos, negsuc, id_of}
use k8s_lab.Evidence.Chain.{Hasher, chain_record, chain_event, canonical_observation}

-- `window` is a `time.Duration`; 0 keeps everything.
pub record Store : Type 0 where
  pub by_id : Map String Record
  pub by_key : Map String String
  pub order : List String
  pub seq : Map Ref ℕ
  pub last : Map Ref Hash
  pub window : ℕ

unfoldable pub new : ℕ → Store
new window = record { by_id = []; by_key = []; order = []; seq = []; last = []; window = window }

-- An error comes with the stored record where the source returns one.
abbrev pub Refusal : Type 0
Refusal = Error × Option Record

-- A missing key reads as the zero value.
abbrev pub seq_of : Ref → Store → ℕ
seq_of ref s = elim (get ref s.seq) [ none ↦ 0 | some n ↦ n ]

abbrev pub last_of : Ref → Store → Hash
last_of ref s = elim (get ref s.last) [ none ↦ [] | some h ↦ h ]

abbrev pub state_or_pending : String → String
state_or_pending state = if state == "" then pending else state

-- The clock is read twice: for the id, in nanoseconds since 1970, and for the two times.
unfoldable pub appended : Hasher → ℤ → Time → Record → Store → Record
appended h nanos now rec s =
    let r = record rec {
      state = state_or_pending rec.state;
      initial_state = state_or_pending rec.state;
      seq = suc (seq_of rec.ref s);
      id = id_of nanos rec.idempotency_key;
      created_at = truncate_us now;
      updated_at = truncate_us now;
      prev_hash = last_of rec.ref s;
    } in
    record r { hash = chain_record h (last_of rec.ref s) r }

abbrev pub stored : Record → Store → Store
stored r s = record s {
  seq = put r.ref r.seq s.seq;
  last = put r.ref r.hash s.last;
  by_id = put r.id r s.by_id;
  by_key = put r.idempotency_key r.id s.by_key;
  order = s.order ++ (r.id ∷ []);
}

unfoldable pub append : Hasher → ℤ → Time → Record → Store → Result Refusal Record × Store
unfolding appended
append h nanos now rec s =
    if rec.idempotency_key == ""
    then (err (no_key, none), s)
    else elim (get rec.idempotency_key s.by_key) [
      | some id ↦ (err (duplicate, get id s.by_id), s)
      | none ↦ (ok (appended h nanos now rec s), stored (appended h nanos now rec s) s)
    ]

-- `len(t.From) > 0 && !slices.Contains(t.From, rec.State)`
unfoldable pub is_elsewhere : List String → String → Bool
is_elsewhere [] state = false
is_elsewhere (x ∷ xs) state = not (contains (x ∷ xs) state)

-- `t.ExpectEvents != nil && *t.ExpectEvents != len(rec.Transitions)`
unfoldable pub is_stale : Option ℤ → ℕ → Bool
is_stale none n = false
is_stale (some (pos m)) n = not (nat_eqb m n)
is_stale (some (negsuc m)) n = true

abbrev pub last_hash : Hash → List Event → Hash
last_hash h [] = h
last_hash h (e ∷ es) = last_hash e.hash es

abbrev pub head_hash : Record → Hash
head_hash rec = last_hash rec.hash rec.transitions

unfoldable pub event_of : Hasher → Transition → Record → Event
event_of h t rec =
    let e : Event = record {
      from_state = rec.state;
      to_state = t.to_state;
      at = truncate_us t.at;
      reason = t.reason;
      observation = canonical_observation t.observation;
      prev_hash = head_hash rec;
      hash = [];
    } in
    record e { hash = chain_event h (head_hash rec) rec.id e }

abbrev pub or_else {ℓ} : {A : Type ℓ} → Option A → A → A
or_else none a = a
or_else (some b) a = b

unfoldable pub moved : Hasher → Time → Transition → Record → Record
unfolding event_of
moved h now t rec = record rec {
  transitions = rec.transitions ++ (event_of h t rec ∷ []);
  state = t.to_state;
  updated_at = truncate_us now;
  admission = or_else t.admission rec.admission;
  image = or_else t.image rec.image;
}

unfoldable pub transition :
    Hasher → Time → String → Transition → Store → Result Refusal Record × Store
unfolding moved is_elsewhere is_stale
transition h now id t s = if is_zero t.at then (err (invalid, none), s) else elim (get id s.by_id) [
  | none ↦ (err (not_found, none), s)
  | some rec ↦
      if is_elsewhere t.from_states rec.state
      then (err (conflict, some rec), s)
      else if is_stale t.expect_events (length rec.transitions)
      then (err (conflict, some rec), s)
      else (ok (moved h now t rec), record s { by_id = put id (moved h now t rec) s.by_id })
]

unfoldable pub get_record : String → Store → Result Error Record
get_record id s = elim (get id s.by_id) [ none ↦ err not_found | some r ↦ ok r ]
