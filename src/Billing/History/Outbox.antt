-- ===== src/Billing/History/Outbox.antt =====
-- The numbering of the outbox and the worker's high watermark, over histories of the protocol.
use xscope.Prelude.{
  ℕ, ◌+◌, suc, ◌≡◌, refl, sym, ap, subst, ◌∙◌, false, Bool-cases, inl, inr, Option, none, some,
  List, [], ◌∷◌, if◌then◌else◌, arith,
}
use xscope.Prelude.Int.{ℤ, pos, checked_add-some, ◌+ℤ◌, +ℤ-pos}
use xscope.Prelude.Text.{Text, text_eq, text_eq_iff, text_eq_refl}
use xscope.Domain.Catalog.{CatalogModel}
use xscope.Billing.Types.{Account, ApiKey, Event, Job, Db}
use xscope.Billing.Ledger.{
  last_sequence, later, next_sequence, schedule, with_event, or_zero, reschedule,
}
use xscope.Billing.Store.{upsert_cases}
use xscope.Billing.Consistent.Reachable.{Run, fresh}
use xscope.Billing.History.Writes.{IsClosed}
use xscope.Billing.History.Lifecycle.{Run-preserves}

abbrev pub count_events : Text → List Event → ℕ
count_events id [] = 0
count_events id (e ∷ es) =
    let rest = count_events id es in if text_eq e.billing_account_id id then suc rest else rest

-- Each event carries its place among the events of its account.
abbrev pub IsNumbered : List Event → Type 0
IsNumbered [] = Unit
IsNumbered (e ∷ es) =
    (e.sequence ≡ pos (suc (count_events e.billing_account_id es))) × IsNumbered es

-- The watermark of an account's job is the number of its events, and an account without a job has
-- none.
pub record IsOutbox (db : Db) : Type 0 where
  pub numbered : IsNumbered db.events
  pub target :
      (id : Text) (job : Job)
      → db.jobs id ≡ some job
      → job.target_sequence ≡ pos (count_events id db.events)
  pub silent : (id : Text) → db.jobs id ≡ none → count_events id db.events ≡ 0

later-next :
    (s : ℤ) (rest : Option ℤ) (n : ℕ)
    → or_zero rest ≡ pos n
    → s ≡ pos (suc n)
    → or_zero (later s rest) ≡ pos (suc n)
later-next s none n h e = e
later-next s (some t) n h e = ground arith

last_sequence-count :
    (id : Text) (events : List Event)
    → IsNumbered events
    → or_zero (last_sequence id events) ≡ pos (count_events id events)
unfolding last_sequence
last_sequence-count id [] n = refl
last_sequence-count id (e ∷ es) (here, n) = elim (Bool-cases (text_eq e.billing_account_id id)) [
  | inl q ↦ rw q (
      later-next e.sequence (last_sequence id es) (count_events id es) (last_sequence-count id es n)
        (rw ((text_eq_iff e.billing_account_id id).0 q) at here))
  | inr q ↦ rw q (last_sequence-count id es n)
]

next_sequence-count :
    (id : Text) (events : List Event) (s : ℤ)
    → IsNumbered events
    → next_sequence id events ≡ some s
    → s ≡ pos (suc (count_events id events))
unfolding next_sequence
next_sequence-count id events s n h =
    let exact = checked_add-some (or_zero (last_sequence id events)) (pos 1) s h in
    let last = last_sequence-count id events n in
    let sum : pos (count_events id events) +ℤ pos 1 ≡ pos (count_events id events + 1) =
      +ℤ-pos (count_events id events) 1 in
    exact ∙ ap (λ l. l +ℤ pos 1) last ∙ sum ∙ ap pos (omega arith)

count_events-other :
    (id j : Text) (e : Event) (es : List Event)
    → e.billing_account_id ≡ id
    → text_eq id j ≡ false
    → count_events j (e ∷ es) ≡ count_events j es
count_events-other id j e es same other = rw (same, other)

count_events-own :
    (id : Text) (e : Event) (es : List Event)
    → e.billing_account_id ≡ id
    → count_events id (e ∷ es) ≡ suc (count_events id es)
count_events-own id e es same = rw (same, text_eq_refl id)

reschedule-target :
    (clock : ℕ) (s : ℤ) (o : Option Job) → (reschedule clock s o).target_sequence ≡ s
reschedule-target clock s none = refl
reschedule-target clock s (some job) = refl

append_event-IsOutbox :
    (db : Db) (id kind aggregate : Text) (s : ℤ)
    → next_sequence id db.events ≡ some s
    → IsOutbox db
    → IsOutbox (schedule id s (with_event id kind aggregate s db))
unfolding schedule
append_event-IsOutbox db id kind aggregate s next o =
    let number = next_sequence-count id db.events s o.numbered next in
    let event : Event = record {
      billing_account_id = id;
      sequence = s;
      kind = kind;
      aggregate_id = aggregate;
    } in
    record {
      numbered = (number, o.numbered);
      target = λ j job h.
          elim (upsert_cases id j (reschedule db.clock s (db.jobs id)) job db.jobs h) [
            | inl (same, _, e) ↦
                ap (λ (v : Job). v.target_sequence) (sym e)
                ∙ reschedule-target db.clock s (db.jobs id)
                ∙ number
                ∙ ap pos (
                    subst
                      (λ k. suc (count_events id db.events) ≡ count_events k (event ∷ db.events))
                      same (sym (count_events-own id event db.events refl)))
            | inr (other, e) ↦
                o.target j job e ∙ ap pos (sym (count_events-other id j event db.events refl other))
          ];
      silent = λ j h. elim (Bool-cases (text_eq id j)) [
        | inl q ↦ let clash = rw q at h in cc
        | inr q ↦ rw q (o.silent j (rw q at h))
      ];
    }

pub IsOutbox-IsClosed : IsClosed IsOutbox
IsOutbox-IsClosed = record {
  balances = λ db b o. record { numbered = o.numbered; target = o.target; silent = o.silent };
  holds = λ db h o. record { numbered = o.numbered; target = o.target; silent = o.silent };
  spends = λ db s o. record { numbered = o.numbered; target = o.target; silent = o.silent };
  reservations = λ db r o. record { numbered = o.numbered; target = o.target; silent = o.silent };
  usage = λ db u o. record { numbered = o.numbered; target = o.target; silent = o.silent };
  clock = λ db t o. record { numbered = o.numbered; target = o.target; silent = o.silent };
  postings = λ db txn a h delta counter o. record {
    numbered = o.numbered;
    target = o.target;
    silent = o.silent;
  };
  events = append_event-IsOutbox;
}

-- At the end of any history of committed transactions from a new database, the events of every
-- account carry the sequence numbers 1, 2, 3 and so on without a gap, and the high watermark of the
-- account's worker job is their number.
pub IsOutbox-numbered :
    (month_of : ℕ → ℕ) (accounts : List Account) (keys : List ApiKey)
    (catalog : Text → Option CatalogModel) (db : Db)
    → Run month_of (fresh accounts keys catalog) db
    → IsOutbox db
IsOutbox-numbered month_of accounts keys catalog db run =
    let start : IsOutbox (fresh accounts keys catalog) = record {
      numbered = tt;
      target = λ id job h. cc;
      silent = λ id h. refl;
    } in
    Run-preserves IsOutbox-IsClosed start run
