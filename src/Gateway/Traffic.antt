-- ===== src/Gateway/Traffic.antt =====
-- rust/crates/gateway/src/traffic.rs and the records of rust/crates/domain/src/traffic.rs: the gate
-- that counts a pool's requests. Each operation holds the lock and is a function of the state;
-- instants are seconds. `is_uuid` is the parser of the nonce.
pub mod Active
use xscope.Prelude.{
  ℕ, ◌+◌, ◌-◌, Bool, true, false, not, ◌&&◌, ◌||◌, Option, none, some, List, [], ◌∷◌, if◌then◌else◌,
  Result, ok, err, ◌>>=◌, ◌>>◌, refuse, ok_or, ltb, leb, ◌==◌, any, find, length, is_none_or,
  is_some_and, is_empty, map,
}
use xscope.Prelude.Int.{ℤ, pos, leb_ℤ, eq_ℤ}
use xscope.Prelude.Text.{Text, codes, text_eq, text_mem, starts_with}
use xscope.Billing.Store.{upsert}

abbrev pub lease_seconds : ℕ
lease_seconds = 15

unfoldable pub managed : Text → Bool
managed id = starts_with id (codes "managed-")

pub record PoolControl : Type 0 where
  pub id : Text
  pub generation : ℤ
  pub accepting : Bool

pub record TrafficSnapshot : Type 0 where
  pub admission_token : Text
  pub session_id : Text
  pub sequence : ℤ
  pub nonce : Text
  pub lease_seconds : ℕ
  pub pools : List PoolControl

-- `controls` is the map by their IDs of the snapshot's pools, which are distinct.
pub record Gate : Type 0 where
  pub snapshot : Option TrafficSnapshot
  pub controls : List PoolControl
  pub deadline : Option ℕ
  pub active : Text → Option ℕ
  pub closed : Bool

pub record TrafficReport : Type 0 where
  pub closed : Bool
  pub session_id : Text
  pub sequence : ℤ
  pub nonce : Text
  pub active : Text → Option ℕ

pub data TrafficError : Type 0 where
  invalid_grant invalid_pool stale_grant removed_or_rewound : TrafficError
  not_accepting count_exhausted : TrafficError

abbrev pub new_gate : Gate
new_gate = record {
  snapshot = none;
  controls = [];
  deadline = none;
  active = λ _. none;
  closed = false;
}

abbrev pub control_of : Text → List PoolControl → Option PoolControl
control_of id = find (λ p. text_eq p.id id)

unfoldable pub bad_grant : (Text → Bool) → Text → TrafficSnapshot → Bool
bad_grant is_uuid session s =
    not (text_eq s.session_id session)
    || leb_ℤ s.sequence (pos 0)
    || not (s.lease_seconds == lease_seconds)
    || not (is_uuid s.nonce)
    || ltb 10000 (length s.pools)

-- The loop over the pools, with the IDs that it has seen.
unfoldable pub bad_pools : List Text → List PoolControl → Bool
unfolding managed
bad_pools seen [] = false
bad_pools seen (p ∷ pools) =
    not (managed p.id)
    || leb_ℤ p.generation (pos 0)
    || text_mem p.id seen
    || bad_pools (p.id ∷ seen) pools

-- A pool of the previous grant is gone, or its generation went back.
unfoldable pub rewinds : List PoolControl → List PoolControl → Bool
rewinds controls [] = false
rewinds controls (old ∷ olds) =
    not (is_some_and (control_of old.id controls) (λ p. leb_ℤ old.generation p.generation))
    || rewinds controls olds

abbrev pub check_previous :
    TrafficSnapshot → Option TrafficSnapshot → Result TrafficError (Unit {0})
check_previous s none = ok tt
check_previous s (some previous) =
    refuse (leb_ℤ s.sequence previous.sequence) stale_grant
    >> refuse (rewinds s.pools previous.pools) removed_or_rewound

-- `active.entry(id).or_default()`
abbrev pub or_default : Text → Option ℕ → (Text → Option ℕ) → Text → Option ℕ
or_default id none active = upsert id 0 active
or_default id (some n) active = active

unfoldable pub enroll : List PoolControl → (Text → Option ℕ) → Text → Option ℕ
enroll [] active = active
enroll (p ∷ pools) active = enroll pools (or_default p.id (active p.id) active)

unfoldable pub install :
    (Text → Bool) → Text → TrafficSnapshot → ℕ → Gate → Result TrafficError Gate
unfolding bad_grant bad_pools rewinds enroll
install is_uuid session s fetched_at gate = do
  refuse (bad_grant is_uuid session s) invalid_grant
  refuse (bad_pools [] s.pools) invalid_pool
  check_previous s gate.snapshot
  ok (record gate {
    active = enroll s.pools gate.active;
    deadline = some (fetched_at + lease_seconds);
    controls = s.pools;
    snapshot = some s;
  })

abbrev pub count_of : Option ℕ → ℕ
count_of none = 0
count_of (some n) = n

unfoldable pub enter : Text → ℤ → ℕ → Gate → Result TrafficError Gate
enter pool generation now gate = do
  refuse
      (gate.closed
        || is_none_or gate.deadline (λ t. leb t now)
        || not (
            is_some_and (control_of pool gate.controls)
              (λ p. eq_ℤ p.generation generation && p.accepting)))
      not_accepting
  refuse (leb 18446744073709551615 (count_of (gate.active pool))) count_exhausted
  ok (record gate { active = upsert pool (count_of (gate.active pool) + 1) gate.active })

abbrev pub decrement : Text → Option ℕ → Gate → Gate
decrement pool none gate = gate
decrement pool (some n) gate = record gate { active = upsert pool (n - 1) gate.active }

-- `Drop` of a permit
unfoldable pub leave : Text → Gate → Gate
leave pool gate = decrement pool (gate.active pool) gate

abbrev pub report_of : Text → Gate → TrafficSnapshot → TrafficReport
report_of session gate s = record {
  closed = gate.closed;
  session_id = session;
  sequence = s.sequence;
  nonce = s.nonce;
  active = gate.active;
}

unfoldable pub report : Text → Gate → Option TrafficReport
report session gate = elim gate.snapshot [ none ↦ none | some s ↦ some (report_of session gate s) ]

abbrev pub headers_of : Text → Option TrafficSnapshot → Option (Text × Text)
headers_of session none = none
headers_of session (some s) =
    if is_empty s.admission_token then none else some (session, s.admission_token)

unfoldable pub admission_headers : Text → ℕ → Gate → Option (Text × Text)
admission_headers session now gate =
    if gate.closed || is_none_or gate.deadline (λ t. leb t now)
    then none
    else headers_of session gate.snapshot

unfoldable pub close : Gate → Gate
close gate = record gate { closed = true }
