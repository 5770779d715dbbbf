-- ===== src/Gateway/Outbox.antt =====
-- rust/crates/gateway/src/delivery.rs: the bounded outbox of usage events. Each operation holds the
-- lock from its first read to its last write, and is a function of the state. Instants are
-- milliseconds; an event is what it carries and the length of its JSON. The threads, the waits
-- and the telemetry are left out.
pub mod Turns
pub mod Bounds
pub mod Kept
use xscope.Prelude.{
  ℕ, ◌+◌, ◌-◌, ◌*◌, ◌%◌, ◌^◌, min, Bool, true, false, not, ◌&&◌, ◌||◌, Option, none, some, List, [],
  ◌∷◌, if◌then◌else◌, Result, ok, err, ◌>>=◌, ◌>>◌, refuse, ok_or, ltb, leb, ◌==◌, any, find,
  length, is_some, is_some_and, is_none_or,
}
use xscope.Prelude.Text.{Text, text_eq}

pub record Settings : Type 0 where
  pub capacity : ℕ
  pub workers : ℕ
  pub max_age : ℕ
  pub drain : ℕ
  pub grace_seconds : ℕ

-- `Event` stands for the usage event.
pub record Entry (Event : Type 0) : Type 0 where
  pub event : Option Event
  pub queued : Option ℕ
  pub next : ℕ
  pub attempt : ℕ
  pub busy : Bool

-- The map of entries is ordered by its keys, the first inserted first.
pub record State (Event : Type 0) : Type 0 where
  pub entries : List (ℕ × Entry Event)
  pub sequence : ℕ
  pub draining : Bool
  pub stopped : Bool
  pub fatal : Bool

pub data QueueError : Type 0 where
  not_ready sequence_exhausted foreign_permit too_large missing_permit submitted_before : QueueError

pub data DeliveryError : Type 0 where
  retry permanent : ℕ → DeliveryError

abbrev pub max_u64 : ℕ
max_u64 = 18446744073709551615

abbrev pub max_u32 : ℕ
max_u32 = 4294967295

-- `backoff(attempt, id)`, in milliseconds
unfoldable pub backoff : ℕ → ℕ → ℕ
backoff attempt id = min (min (250 * 2 ^ min attempt 6) max_u64) 10000 + id % 251

-- A status that only an operator can repair.
abbrev pub is_fatal : ℕ → Bool
is_fatal status =
    (leb 300 status && leb status 399)
    || status == 401
    || status == 403
    || status == 404
    || status == 0

module _ {Event : Type 0} where
  abbrev pub empty : State Event
  empty = record { entries = []; sequence = 0; draining = false; stopped = false; fatal = false }

  -- `queued.is_some_and(|t| t.elapsed() >= max_age)`; an instant of the future has elapsed by 0.
  abbrev pub too_old : ℕ → ℕ → ℕ × Entry Event → Bool
  too_old max_age now (_, e) = is_some_and e.queued (λ t. leb max_age (now - t))

  unfoldable pub ready : Settings → ℕ → State Event → Bool
  ready settings now state =
      not state.draining
      && not state.stopped
      && not state.fatal
      && ltb (length state.entries) settings.capacity
      && not (any (too_old settings.max_age now) state.entries)

  abbrev pub slot : ℕ → Entry Event
  slot now = record { event = none; queued = none; next = now; attempt = 0; busy = false }

  -- `entries.insert(id, entry)` of an ID that is above all others
  abbrev pub push_back : ℕ × Entry Event → List (ℕ × Entry Event) → List (ℕ × Entry Event)
  push_back new [] = new ∷ []
  push_back new (e ∷ es) = e ∷ push_back new es

  -- `reserve`: the ID of the permit
  unfoldable pub reserve : Settings → ℕ → State Event → Result QueueError (ℕ × State Event)
  unfolding ready
  reserve settings now state = do
    refuse (not (ready settings now state)) not_ready
    refuse (leb max_u64 state.sequence) sequence_exhausted
    ok (
      state.sequence + 1,
      record state {
        sequence = state.sequence + 1;
        entries = push_back (state.sequence + 1, slot now) state.entries;
      },
    )

  abbrev pub lookup : ℕ → List (ℕ × Entry Event) → Option (Entry Event)
  lookup id [] = none
  lookup id ((i, e) ∷ es) = if i == id then some e else lookup id es

  -- `entries.remove(&id)`
  abbrev pub remove : ℕ → List (ℕ × Entry Event) → List (ℕ × Entry Event)
  remove id [] = []
  remove id ((i, e) ∷ es) = let rest = remove id es in if i == id then es else (i, e) ∷ rest

  -- A write through `entries.get_mut(&id)`
  abbrev pub update :
      ℕ → (Entry Event → Entry Event) → List (ℕ × Entry Event) → List (ℕ × Entry Event)
  update id f [] = []
  update id f ((i, e) ∷ es) =
      let rest = update id f es in if i == id then (i, f e) ∷ es else (i, e) ∷ rest

  -- `submit`: `same_queue` is the test of the permit's queue, `bytes` the length of the event's JSON.
  unfoldable pub submit : Bool → ℕ → ℕ → ℕ → Event → State Event → Result QueueError (State Event)
  submit same_queue bytes now id event state = do
    refuse (not same_queue) foreign_permit
    refuse (ltb (32 * 1024) bytes) too_large
    entry ← ok_or (lookup id state.entries) missing_permit
    refuse (is_some entry.event) submitted_before
    ok (record state {
      entries =
          update id (λ e. record e { event = some event; queued = some now; next = now })
            state.entries;
    })

  -- `Drop` of a permit: the slot is given back unless a completion was accepted for it.
  unfoldable pub drop_permit : ℕ → State Event → State Event
  drop_permit id state =
      if is_some_and (lookup id state.entries) (λ e. not (is_some e.event))
      then record state { entries = remove id state.entries }
      else state

  unfoldable pub begin_drain : State Event → State Event
  begin_drain state = record state { draining = true }

  -- The last write of `finish`, behind its wait, with the number of entries that remain.
  unfoldable pub stop_workers : State Event → ℕ × State Event
  stop_workers state = (length state.entries, record state { stopped = true })

  abbrev pub is_due : ℕ → ℕ × Entry Event → Bool
  is_due now (_, e) = not e.busy && is_some e.event && leb e.next now

  abbrev pub work_of : ℕ × Entry Event → Option (ℕ × Event)
  work_of (id, e) = elim e.event [ none ↦ none | some event ↦ some (id, event) ]

  abbrev pub take_work :
      ℕ → Option (ℕ × Entry Event) → State Event → Option (ℕ × Event) × State Event
  take_work now none state = (none, state)
  take_work now (some (id, e)) state = (
    work_of (id, e),
    record state { entries = update id (λ v. record v { busy = true }) state.entries },
  )

  -- The locked part of `run` that chooses the next event: the first that is due, unless the workers
  -- have been stopped.
  unfoldable pub pick : ℕ → State Event → Option (ℕ × Event) × State Event
  pick now state =
      if state.stopped then (none, state) else take_work now (find (is_due now) state.entries) state

  abbrev pub retried : ℕ → ℕ → Entry Event → Entry Event
  retried now id e =
      let attempt = if leb max_u32 e.attempt then max_u32 else e.attempt + 1 in
      record e { busy = false; attempt = attempt; next = now + backoff attempt id }

  -- What `run` does with the answer to a delivery.
  unfoldable pub delivered : ℕ → ℕ → Result DeliveryError (Unit {0}) → State Event → State Event
  unfolding backoff
  delivered now id (ok _) state = record state { entries = remove id state.entries }
  delivered now id (err (retry _)) state = record state {
    entries = update id (retried now id) state.entries;
  }
  delivered now id (err (permanent status)) state = record state {
    entries = remove id state.entries;
    fatal = state.fatal || is_fatal status;
  }
