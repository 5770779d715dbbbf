-- ===== src/Worker/Complete.antt =====
-- `complete_event_job` of rust/crates/control-plane/src/event_worker.rs.
use xscope.Prelude.{
  ℕ, Bool, true, false, not, ◌&&◌, ◌||◌, Option, none, some, List, [], ◌∷◌, ◌++◌, if◌then◌else◌,
  ltb, leb, find, length, retain, is_none_or, is_empty,
}
use xscope.Prelude.Int.{ℤ, pos, ltb_ℤ, leb_ℤ, eq_ℤ, checked_add}
use xscope.Prelude.Text.{Text, text_eq}
use xscope.Billing.Types.{
  not_found, invalid, conflict, invalid_worker_batch, event_sequence_exhausted, sequence_gap,
  serialization_failed, processed_event_changed, boundary_missed, lease_expired, Event, Effect, Job,
  idle, pending,
}
use xscope.Billing.Store.{Tx, ◌>>=◌, ◌>>◌, pure, fail_if, some_or, gets, modify}
use xscope.Worker.Batch.{batch, validate_event}
use xscope.Worker.Jobs.{Lease, put_job, locked}

-- The readings of the clock in one completion.
pub record Readings : Type 0 where
  pub locked_at : ℕ
  pub processed_at : ℕ
  pub fenced_at : ℕ

abbrev pub in_effects : Text → ℤ → ℤ → Effect → Bool
in_effects id after through e =
    text_eq e.billing_account_id id && ltb_ℤ after e.sequence && leb_ℤ e.sequence through

abbrev pub find_effect : ℤ → List Effect → Option Effect
find_effect sequence = find (λ e. eq_ℤ e.sequence sequence)

abbrev pub done_job : ℕ → ℤ → Job → Job
done_job time acknowledged row = record row {
  acknowledged = acknowledged;
  state = if ltb_ℤ acknowledged row.target_sequence then pending else idle;
  lease_token = none;
  lease_until = none;
  attempts = pos 0;
  last_error = none;
  available_at = time;
}

-- The part behind the loop: the boundary, the effects, the fence and the row.
unfoldable pub finish : Readings → Lease → Job → ℤ × List Effect → Tx (ℤ × Bool)
finish at lease row reached = do
  fail_if (not (eq_ℤ reached.0 lease.through_sequence)) (conflict boundary_missed)
  modify (λ db. record db { effects = reached.1 ++ db.effects })
  fail_if (is_none_or row.lease_until (λ until. leb until at.fenced_at)) (conflict lease_expired)
  modify (put_job lease.billing_account_id (done_job at.fenced_at reached.0 row))
  pure (reached.0, false)

abbrev pub effect_of : Text → ℕ → Text → Event → Effect
effect_of id processed_at hash event = record {
  billing_account_id = id;
  sequence = event.sequence;
  kind = event.kind;
  payload_sha256 = hash;
  processed_at = processed_at;
}

-- A prior effect must be of the same payload, and is not recorded again.
abbrev pub new_effect : Text → ℕ → Text → Event → Option Effect → Tx (List Effect)
new_effect id processed_at hash event none = pure (effect_of id processed_at hash event ∷ [])
new_effect id processed_at hash event (some prior) = do
  fail_if (not (text_eq prior.payload_sha256 hash)) (conflict processed_event_changed)
  pure []

abbrev pub already_done : Lease → Job → Bool
already_done lease row =
    leb_ℤ lease.through_sequence row.acknowledged
    && ltb_ℤ lease.expected_sequence lease.through_sequence

module _ (serialize : Event → Option (List ℕ)) (sha256 : List ℕ → Text) where
  -- The loop over the batch: the sequence reached, and the effects to insert.
  unfoldable pub process : Text → ℕ → List Effect → List Event → ℤ → Tx (ℤ × List Effect)
  unfolding validate_event
  process id processed_at prior [] expected = pure (expected, [])
  process id processed_at prior (event ∷ events) expected = do
    next ← some_or (checked_add expected (pos 1)) (invalid event_sequence_exhausted)
    fail_if (not (eq_ℤ event.sequence next)) (conflict sequence_gap)
    validate_event event
    bytes ← some_or (serialize event) (invalid serialization_failed)
    new ← new_effect id processed_at (sha256 bytes) event (find_effect event.sequence prior)
    rest ← process id processed_at prior events next
    pure (rest.0, new ++ rest.1)

  -- The part behind the locked row.
  unfoldable pub complete_locked : Readings → Lease → Job → Tx (ℤ × Bool)
  unfolding process batch finish
  complete_locked at lease row = do
    all_events ← gets (λ db. db.events)
    let events =
        batch lease.billing_account_id row.acknowledged lease.through_sequence 101 all_events
    fail_if (is_empty events || ltb 100 (length events)) (conflict invalid_worker_batch)
    all_effects ← gets (λ db. db.effects)
    let prior =
        retain (in_effects lease.billing_account_id row.acknowledged lease.through_sequence)
          all_effects
    reached ← process lease.billing_account_id at.processed_at prior events row.acknowledged
    finish at lease row reached

  -- The acknowledged sequence, and whether it was acknowledged before.
  unfoldable pub complete_event_job : Readings → Lease → Tx (ℤ × Bool)
  unfolding locked complete_locked
  complete_event_job at lease = do
    jobs ← gets (λ db. db.jobs)
    row ← some_or (jobs lease.billing_account_id) not_found
    if already_done lease row
        then pure (row.acknowledged, true)
        else (locked at.locked_at lease >>= complete_locked at lease)
