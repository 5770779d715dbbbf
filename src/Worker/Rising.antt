-- ===== src/Worker/Rising.antt =====
-- Numbers of a job's row that only rise, over histories: the lemmas for one that no change lowers.
use xscope.Prelude.{ℕ, ◌≡◌, sym, ap, subst, ◌∙◌, Bool-cases, inl, inr, Option, none, some, arith}
use xscope.Prelude.Int.{ℤ, ◌≤ℤ◌}
use xscope.Prelude.Text.{Text, text_eq, text_eq_iff, text_eq_refl}
use xscope.Billing.Types.{Job, Db}
use xscope.Billing.Store.{upsert}
use xscope.Billing.Ledger.{reschedule, schedule}
use xscope.Billing.History.Writes.{IsClosed}
use xscope.Worker.Changes.{Change, Move}
use xscope.Worker.Histories.{Setting, Turns, Turns-preserve}

pub upsert_own :
    {V : Type 0} (k : Text) (v : V) (table : Text → Option V) → upsert k v table k ≡ some v
upsert_own k v table = rw (text_eq_refl k)

pub some_injective : {a b : Job} → some a ≡ some b → a ≡ b
some_injective h = ground arith

-- The account has a job whose number is at least the bound.
abbrev pub HasReached : (Job → ℤ) → Text → ℤ → Db → Type 0
HasReached f id low db = (row : Job) × (db.jobs id ≡ some row) × (low ≤ℤ f row)

module _ (f : Job → ℤ) (changes : (row row' : Job) → Change row row' → f row ≤ℤ f row')
    (rescheduled : (clock : ℕ) (s : ℤ) (row : Job)
      → f row ≤ℤ f (reschedule clock s (some row))) where
  upsert_HasReached :
      (id j : Text) (low : ℤ) (row row' : Job) (jobs : Text → Option Job)
      → jobs id ≡ some row
      → low ≤ℤ f row
      → ((old : Job) → jobs j ≡ some old → f old ≤ℤ f row')
      → (new : Job) × (upsert j row' jobs id ≡ some new) × (low ≤ℤ f new)
  upsert_HasReached id j low row row' jobs found reached grows = elim (Bool-cases (text_eq j id)) [
    | inl e ↦
        let same = (text_eq_iff j id).0 e in
        let up = grows row (subst (λ k. jobs k ≡ some row) (sym same) found) in
        (row', rw e, omega arith)
    | inr e ↦ (row, rw e found, reached)
  ]

  Move-HasReached :
      (id : Text) (low : ℤ) (db db' : Db)
      → Move db db'
      → HasReached f id low db
      → HasReached f id low db'
  Move-HasReached id low db db' m (row, found, reached) =
      let own = λ (old : Job) (e : db.jobs m.id ≡ some old).
        let same : m.row ≡ old = some_injective (sym m.found ∙ e) in
        subst (λ (r : Job). f r ≤ℤ f m.row') same (changes m.row m.row' m.change) in
      let (new, e, up) = upsert_HasReached id m.id low row m.row' db.jobs found reached own in
      (new, ap (λ (t : Text → Option Job). t id) m.jobs ∙ e, up)

  grown :
      (clock : ℕ) (s : ℤ) (o : Option Job) (old : Job)
      → o ≡ some old
      → f old ≤ℤ f (reschedule clock s o)
  grown clock s none old h = cc
  grown clock s (some row) old h =
      subst (λ (r : Job). f r ≤ℤ f (reschedule clock s (some row))) (some_injective h)
        (rescheduled clock s row)

  HasReached-IsClosed : (id : Text) (low : ℤ) → IsClosed (HasReached f id low)
  unfolding schedule
  HasReached-IsClosed id low = record {
    balances = λ db b p. p;
    holds = λ db h p. p;
    spends = λ db s p. p;
    reservations = λ db r p. p;
    usage = λ db u p. p;
    clock = λ db t p. p;
    postings = λ db txn a h delta counter p. p;
    events = λ db j kind aggregate s _ (row, found, reached).
        upsert_HasReached id j low row (reschedule db.clock s (db.jobs j)) db.jobs found reached
          (grown db.clock s (db.jobs j));
  }

  pub Turns-HasReached :
      (env : Setting) (id : Text) (low : ℤ) (db db' : Db)
      → Turns env db db'
      → HasReached f id low db
      → HasReached f id low db'
  Turns-HasReached env id low db db' history p =
      Turns-preserve env (HasReached-IsClosed id low) (Move-HasReached id low) p history
