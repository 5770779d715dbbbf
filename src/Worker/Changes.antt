-- ===== src/Worker/Changes.antt =====
-- The life of a job's row: what each transaction of the worker may make of it.
use xscope.Prelude.{ℕ, ◌≡◌, refl, true, false, some, List, ◌++◌, arith}
use xscope.Prelude.Int.{ℤ, pos, ◌≤ℤ◌, ◌+ℤ◌, eq_ℤ_iff, int_laws}
use xscope.Prelude.Text.{Text}
use xscope.Billing.Types.{Effect, Job, JobState, idle, pending, running, dead, Db}
use xscope.Billing.Store.{upsert}
use xscope.Worker.Jobs.{Lease, is_running, is_dead, stale, failed_job, leased_job, retried_job}
use xscope.Worker.Complete.{done_job}
use xscope.Worker.Completed.{HasEffect}

pub data Change : Job → Job → Type 0 where
  fails :
      (time : ℕ) (reason : Text) (row : Job)
      → row.state ≡ running
      → Change row (failed_job time reason row)
  grants :
      (time seconds : ℕ) (lease : Lease) (row : Job)
      → row.state ≡ pending
      → lease.lease_epoch ≡ row.lease_epoch +ℤ pos 1
      → Change row (leased_job time seconds lease row)
  acknowledges :
      (time : ℕ) (through : ℤ) (row : Job)
      → row.state ≡ running
      → row.acknowledged +ℤ pos 1 ≤ℤ through
      → through ≤ℤ row.target_sequence
      → Change row (done_job time through row)
  revives : (time : ℕ) (row : Job) → row.state ≡ dead → Change row (retried_job time row)

-- One row changed, and what is acknowledged now has its effects.
pub record Move (db db' : Db) : Type 0 where
  pub id : Text
  pub row : Job
  pub row' : Job
  pub new : List Effect
  pub found : db.jobs id ≡ some row
  pub change : Change row row'
  pub jobs : db'.jobs ≡ upsert id row' db.jobs
  pub effects : db'.effects ≡ new ++ db.effects
  pub events : db'.events ≡ db.events
  pub covers :
      (s : ℤ) → row.acknowledged +ℤ pos 1 ≤ℤ s → s ≤ℤ row'.acknowledged → HasEffect id s db'.effects

pub is_running_inv : (s : JobState) → is_running s ≡ true → s ≡ running
is_running_inv running h = refl
is_running_inv idle h = cc
is_running_inv pending h = cc
is_running_inv dead h = cc

pub is_dead_inv : (s : JobState) → is_dead s ≡ true → s ≡ dead
is_dead_inv dead h = refl
is_dead_inv idle h = cc
is_dead_inv pending h = cc
is_dead_inv running h = cc

pub stale_inv :
    (lease : Lease) (time : ℕ) (row : Job)
    → stale lease time row ≡ false
    → (row.state ≡ running)
      × (row.lease_epoch ≡ lease.lease_epoch)
      × (row.acknowledged ≡ lease.expected_sequence)
      × (lease.expected_sequence +ℤ pos 1 ≤ℤ lease.through_sequence)
      × (lease.through_sequence ≤ℤ row.target_sequence)
unfolding stale ◌+ℤ◌
stale_inv lease time row h = (
  is_running_inv row.state (ground arith),
  (eq_ℤ_iff row.lease_epoch lease.lease_epoch).0 (ground arith),
  (eq_ℤ_iff row.acknowledged lease.expected_sequence).0 (ground arith),
  ground arith,
  ground arith,
)

-- A row that keeps its acknowledged sequence leaves nothing to cover.
pub nothing_new :
    (id : Text) (a s : ℤ) (effects : List Effect)
    → a +ℤ pos 1 ≤ℤ s
    → s ≤ℤ a
    → HasEffect id s effects
nothing_new id a s effects low high = absurd (omega int_laws)
