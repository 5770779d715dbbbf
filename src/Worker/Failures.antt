-- ===== src/Worker/Failures.antt =====
-- The failures of a job, counted from a history, and the rows that count them.
use native.Mathlib.Decide.{dec_le}
use xscope.Prelude.{
  sym, ap, subst, ◌∙◌, ◌≢◌, if◌then◌else◌, ℕ, ◌+◌, ◌≤◌, ◌≡◌, refl, ◌⊎◌, inl, inr, Bool, true, false,
  not, ◌&&◌, Bool-cases, Option, none, some, arith,
}
use xscope.Prelude.Int.{ℤ, pos, leb_ℤ, ◌+ℤ◌}
use xscope.Prelude.Text.{Text, text_eq, text_eq_iff}
use xscope.Billing.Types.{Job, JobState, idle, pending, running, dead, Db}
use xscope.Billing.Store.{upsert}
use xscope.Billing.Ledger.{reschedule, schedule}
use xscope.Billing.History.Writes.{IsClosed}
use xscope.Worker.Backoff.{next_attempt}
use xscope.Worker.Jobs.{Lease, is_dead, is_running, picked, failed_job, leased_job, retried_job}
use xscope.Worker.Complete.{done_job}
use xscope.Worker.Histories.{
  Setting, Turn, bills, claims, completes, reports_failure, retries, Turns, halt, turn,
}

-- Whether the row that a claim locked was running: its worker let the lease run out.
abbrev pub locked_running : Text → Option (Text × Job) → Bool
locked_running id none = false
locked_running id (some (j, row)) = is_running row.state && text_eq j id

-- The failures of the account's job behind a transaction, counted from the calls and their answers: a failure that
-- was reported and a lease that a claim found run out are one more, a batch that was acknowledged and a retry by an
-- operator forget them.
abbrev pub failures_behind : {env : Setting} {db db' : Db} → Text → Turn env db db' → ℕ → ℕ
failures_behind id (bills db db' s) n = n
failures_behind id (claims time token pick request answer db db' h) n =
    if locked_running id (picked time pick db) then n + 1 else n
failures_behind id (completes at lease answer db db' h) n =
    if not answer.1 && text_eq lease.billing_account_id id then 0 else n
failures_behind id (reports_failure read_at written_at request answer db db' h) n =
    if text_eq request.lease.billing_account_id id then n + 1 else n
failures_behind id (retries time audit_id account actor reason db db' h) n =
    if text_eq account id then 0 else n

-- The failures at the end of a history that starts with some of them.
abbrev pub failures : {env : Setting} {db db' : Db} → Text → Turns env db db' → ℕ → ℕ
failures id halt n = n
failures id (turn t ts) n = failures id ts (failures_behind id t n)

-- The row counts the failures; it is dead at eight of them, and not before.
abbrev pub IsCounted : ℕ → Job → Type 0
IsCounted n row =
    (row.attempts ≡ pos n)
    × (((row.state ≡ dead) × (n ≡ 8)) ⊎ ((is_dead row.state ≡ false) × (n ≤ 7)))

-- An account without a job has no failures.
abbrev pub IsTallied : Option Job → ℕ → Type 0
IsTallied none n = n ≡ 0
IsTallied (some row) n = IsCounted n row

abbrev pub Tallied : Text → ℕ → Db → Type 0
Tallied id n db = IsTallied (db.jobs id) n

next_attempt-pos : (n : ℕ) → n ≤ 7 → next_attempt (pos n) ≡ pos (n + 1)
unfolding next_attempt ◌+ℤ◌
next_attempt-pos n h = ground arith

alive :
    (s : JobState) (n : ℕ)
    → s ≢ dead
    → ((s ≡ dead) × (n ≡ 8)) ⊎ ((is_dead s ≡ false) × (n ≤ 7))
    → n ≤ 7
alive s n h (inl (e, _)) = absurd (h e)
alive s n h (inr (_, le)) = le

after_failure :
    (n : ℕ)
    → n ≤ 7
    → (((if leb_ℤ (pos 8) (pos (n + 1)) then dead else pending) ≡ dead) × (n + 1 ≡ 8))
      ⊎ ((is_dead (if leb_ℤ (pos 8) (pos (n + 1)) then dead else pending) ≡ false) × (n + 1 ≤ 7))
after_failure n h = elim (dec_le 7 n) [
  | yes last ↦ let full : n ≡ 7 = omega arith in rw full (inl (refl, refl))
  | no more ↦ inr (ground arith, omega arith)
]

pub failed_job-IsCounted :
    (time : ℕ) (reason : Text) (row : Job) (n : ℕ)
    → row.state ≡ running
    → IsCounted n row
    → IsCounted (n + 1) (failed_job time reason row)
unfolding failed_job
failed_job-IsCounted time reason row n now (e, b) =
    let few : n ≤ 7 = alive row.state n (λ q. let clash = sym now ∙ q in cc) b in
    let up : next_attempt row.attempts ≡ pos (n + 1) = ap next_attempt e ∙ next_attempt-pos n few in
    (up, rw up (after_failure n few))

pub leased_job-IsCounted :
    (time seconds : ℕ) (lease : Lease) (row : Job) (n : ℕ)
    → row.state ≡ pending
    → IsCounted n row
    → IsCounted n (leased_job time seconds lease row)
leased_job-IsCounted time seconds lease row n now (e, b) =
    (e, inr (refl, alive row.state n (λ q. let clash = sym now ∙ q in cc) b))

pub done_job-IsCounted :
    (time : ℕ) (through : ℤ) (row : Job) → IsCounted 0 (done_job time through row)
done_job-IsCounted time through row = (refl, inr (ground arith, omega arith))

pub retried_job-IsCounted : (time : ℕ) (row : Job) → IsCounted 0 (retried_job time row)
retried_job-IsCounted time row = (refl, inr (refl, omega arith))

woken : (s : JobState) → is_dead s ≡ false → is_dead (elim s [ idle ↦ pending | t ↦ t ]) ≡ false
woken idle h = refl
woken pending h = refl
woken running h = refl
woken dead h = h

reschedule-IsTallied :
    (clock : ℕ) (s : ℤ) (o : Option Job) (n : ℕ)
    → IsTallied o n
    → IsCounted n (reschedule clock s o)
reschedule-IsTallied clock s none n e = (ap pos (sym e), inr (refl, rw e (omega arith)))
reschedule-IsTallied clock s (some row) n (e, inl (d, q)) = (e, inl (rw d refl, q))
reschedule-IsTallied clock s (some row) n (e, inr (a, q)) = (e, inr (woken row.state a, q))

pub either : (b : Bool) (n : ℕ) → (if b then n else n) ≡ n
either true n = refl
either false n = refl

-- One row is written: its account's failures go from n to n'.
upsert-IsTallied :
    (id j : Text) (row : Job) (n n' : ℕ) (jobs : Text → Option Job)
    → (IsTallied (jobs j) n → IsCounted n' row)
    → IsTallied (jobs id) n
    → IsTallied (upsert j row jobs id) (if text_eq j id then n' else n)
upsert-IsTallied id j row n n' jobs step p = elim (Bool-cases (text_eq j id)) [
  | inl e ↦
      let same = (text_eq_iff j id).0 e in
      rw e (step (subst (λ k. IsTallied (jobs k) n) (sym same) p))
  | inr e ↦ rw e p
]

pub put-Tallied :
    (id j : Text) (row row' : Job) (n n' : ℕ) (db db' : Db)
    → db.jobs j ≡ some row
    → (IsCounted n row → IsCounted n' row')
    → db'.jobs ≡ upsert j row' db.jobs
    → Tallied id n db
    → Tallied id (if text_eq j id then n' else n) db'
put-Tallied id j row row' n n' db db' found step e p =
    subst (λ (t : Text → Option Job). IsTallied (t id) (if text_eq j id then n' else n)) (sym e)
      (upsert-IsTallied id j row' n n' db.jobs
        (λ q. step (subst (λ (o : Option Job). IsTallied o n) found q)) p)

pub Tallied-IsClosed : (id : Text) (n : ℕ) → IsClosed (Tallied id n)
unfolding schedule
Tallied-IsClosed id n = record {
  balances = λ db b p. p;
  holds = λ db h p. p;
  spends = λ db s p. p;
  reservations = λ db r p. p;
  usage = λ db u p. p;
  clock = λ db t p. p;
  postings = λ db txn a h delta counter p. p;
  events = λ db j kind aggregate s _ p.
      let same =
        upsert-IsTallied id j (reschedule db.clock s (db.jobs j)) n n db.jobs
          (reschedule-IsTallied db.clock s (db.jobs j) n) p in
      subst (IsTallied (upsert j (reschedule db.clock s (db.jobs j)) db.jobs id))
        (either (text_eq j id) n) same;
}
