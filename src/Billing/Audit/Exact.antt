-- ===== src/Billing/Audit/Exact.antt =====
-- The verdict of `projection_check`: when it says that the projections were consistent.
use xscope.Prelude.{
  ℕ, ◌≡◌, ◌↔◌, refl, sym, ap, subst, ◌∙◌, Bool, true, not, ◌&&◌, Option, none, some, arith, ok,
  is_some_and, find,
}
use xscope.Prelude.Int.{ℤ, eq_ℤ, eq_ℤ_iff}
use xscope.Prelude.Text.{Text, text_eq}
use xscope.Billing.Types.{not_found, invalid, invalid_month_start, Account, Balance, Db}
use xscope.Billing.Store.{
  total, bind-eq-ok, bind-fail_if-eq-ok, bind-some_or-eq-ok, bind-lift-eq-ok, ok_inv,
}
use xscope.Billing.Projection.{
  booked_sum, held_sum, key_held_sum, spent_sum, historical_balance_and_held,
}
use xscope.Billing.Ledger.{lock_account, lock_account_inv}
use xscope.Billing.Consistent.Reserve.{some_injective}
use xscope.Billing.Consistent.{find_account}
use xscope.Billing.Audit.{
  CheckRequest, Report, agrees, compare, rebuild_rows, projection_check, total_inv, history_inv,
}

-- The rows of an account, a key and a month are stored, and are the sums that they stand for.
abbrev pub IsExact : (ℕ → ℕ) → Text → CheckRequest → Db → Type 0
IsExact month_of id request db =
    (row : Balance) × (db.balances id ≡ some row)
    × (row.balance_microunits ≡ booked_sum id db.ledger)
    × (row.held_microunits ≡ held_sum id db.reservations)
    × (db.holds request.api_key_id ≡ some (key_held_sum request.api_key_id db.reservations))
    × (db.spends request.api_key_id request.month
        ≡ some (spent_sum month_of request.api_key_id request.month db.usage))

abbrev verdict : Option Balance → Option ℤ → Option ℤ → ℤ → ℤ → ℤ → ℤ → Bool
verdict a k s booked held key_held spent =
    is_some_and a (λ v. agrees v booked held)
    && is_some_and k (λ v. eq_ℤ v key_held)
    && is_some_and s (λ v. eq_ℤ v spent)

abbrev Agreement : Option Balance → Option ℤ → Option ℤ → ℤ → ℤ → ℤ → ℤ → Type 0
Agreement a k s booked held key_held spent =
    (row : Balance) × (a ≡ some row)
    × (row.balance_microunits ≡ booked)
    × (row.held_microunits ≡ held)
    × (k ≡ some key_held)
    × (s ≡ some spent)

verdict-Agreement :
    (a : Option Balance) (k s : Option ℤ) (booked held key_held spent : ℤ)
    → verdict a k s booked held key_held spent ≡ true
    → Agreement a k s booked held key_held spent
verdict-Agreement (some a) (some k) (some s) booked held key_held spent h = (
  a,
  refl,
  (eq_ℤ_iff _ _).0 (ground arith),
  (eq_ℤ_iff _ _).0 (ground arith),
  ap some ((eq_ℤ_iff _ _).0 (ground arith)),
  ap some ((eq_ℤ_iff _ _).0 (ground arith)),
)
verdict-Agreement none k s booked held key_held spent h = cc
verdict-Agreement (some a) none s booked held key_held spent h = ground arith
verdict-Agreement (some a) (some k) none booked held key_held spent h = ground arith

Agreement-verdict :
    (a : Option Balance) (k s : Option ℤ) (booked held key_held spent : ℤ)
    → Agreement a k s booked held key_held spent
    → verdict a k s booked held key_held spent ≡ true
Agreement-verdict a k s booked held key_held spent (row, p, q, r, t, u) =
    rw
      (
        p,
        t,
        u,
        (eq_ℤ_iff row.balance_microunits booked).1 q,
        (eq_ℤ_iff row.held_microunits held).1 r,
        (eq_ℤ_iff key_held key_held).1 refl,
        (eq_ℤ_iff spent spent).1 refl,
      )
      refl

compare_same :
    (id : Text) (request : CheckRequest) (rebuild : Bool) (sums : ℤ × ℤ) (booked held k k' s s' : ℤ)
    (db : Db)
    → sums.0 ≡ booked
    → sums.1 ≡ held
    → k ≡ k'
    → s ≡ s'
    → compare id request rebuild sums k s db ≡ compare id request rebuild (booked, held) k' s' db
unfolding compare
compare_same id request rebuild sums booked held k k' s s' db p q r t = rw (p, q, r, t) refl

module _ (month_of : ℕ → ℕ) where
  -- The report that a check of the account gives.
  abbrev pub expected : Text → CheckRequest → Bool → Db → Report
  expected id request rebuild db =
      compare id request rebuild (booked_sum id db.ledger, held_sum id db.reservations)
        (key_held_sum request.api_key_id db.reservations)
        (spent_sum month_of request.api_key_id request.month db.usage) db

  pub projection_check_inv :
      (first_day : ℕ → Bool) (project : Text) (request : CheckRequest) (rebuild : Bool)
      (owner : Account) (report : Report) (db db' : Db)
      → find_account project db.accounts ≡ some owner
      → projection_check first_day month_of project request rebuild db ≡ ok (report, db')
      → (report ≡ expected owner.id request rebuild db)
        × (rebuild_rows month_of owner.id request report rebuild db ≡ ok (tt, db'))
  unfolding projection_check
  projection_check_inv first_day project request rebuild owner report db db' a h =
      let (_, h1) =
        bind-fail_if-eq-ok (not (first_day request.month)) (invalid invalid_month_start) _ db h in
      let (o, x, e2, h2) = bind-eq-ok (lock_account project) _ db h1 in
      let (_, _, h3) =
        bind-some_or-eq-ok
          (find (λ k. text_eq k.id request.api_key_id && text_eq k.project_id project) x.keys)
          not_found _ x h2 in
      let (sums, y, e4, h4) = bind-eq-ok (historical_balance_and_held o.id) _ x h3 in
      let (kh, e5, h5) =
        bind-lift-eq-ok (total (key_held_sum request.api_key_id y.reservations)) _ y h4 in
      let (sp, e6, h6) =
        bind-lift-eq-ok (total (spent_sum month_of request.api_key_id request.month y.usage)) _ y
          h5 in
      let r = compare o.id request rebuild sums kh sp y in
      let (_, z, e7, h7) = bind-eq-ok (rebuild_rows month_of o.id request r rebuild) _ y h6 in
      let (f, stay) = lock_account_inv project o db x e2 in
      let (p, q, still) = history_inv o.id sums x y e4 in
      let same : o ≡ owner = some_injective (sym f ∙ a) in
      let here : y ≡ db = sym (stay ∙ still) in
      let (given, last) = ok_inv r report z db' h7 in
      let told : r ≡ expected o.id request rebuild y =
        compare_same o.id request rebuild sums _ _ kh _ sp _ y
          (p ∙ ap (λ (d : Db). booked_sum o.id d.ledger) still)
          (q ∙ ap (λ (d : Db). held_sum o.id d.reservations) still) (sym (total_inv _ kh e5))
          (sym (total_inv _ sp e6)) in
      let moved = λ (d : Db) (at : y ≡ d) (b : Account) (own : o ≡ b).
        subst {A = Db} (λ e. report ≡ expected b.id request rebuild e) at
          (subst {A = Account} (λ c. report ≡ expected c.id request rebuild y) own
            (sym given ∙ told)) in
      (
        moved db here owner same,
        subst {A = Db} (λ e. rebuild_rows month_of owner.id request report rebuild e ≡ ok (tt, db'))
            here
            (subst {A = Account}
              (λ c. rebuild_rows month_of c.id request report rebuild y ≡ ok (tt, db')) same
              (subst {A = Report}
                (λ v. rebuild_rows month_of o.id request v rebuild y ≡ ok (tt, db')) given
                (subst {A = Db} (λ v. rebuild_rows month_of o.id request r rebuild y ≡ ok (tt, v))
                  last e7))),
      )

  -- In any state, a check, with or without a rebuild, reports that the projections were consistent exactly if the
  -- three rows of the account, the key and the month were stored and were the sums that they stand for: of the
  -- account's customer ledger entries and held reservations, of the key's held reservations, and of the costs of the
  -- key's usage in the month.
  pub projection_check-IsExact :
      (first_day : ℕ → Bool) (project : Text) (request : CheckRequest) (rebuild : Bool)
      (owner : Account) (report : Report) (db db' : Db)
      → find_account project db.accounts ≡ some owner
      → projection_check first_day month_of project request rebuild db ≡ ok (report, db')
      → (report.consistent_before ≡ true) ↔ IsExact month_of owner.id request db
  unfolding compare
  projection_check-IsExact first_day project request rebuild owner report db db' a h =
      let told =
        ap (λ (r : Report). r.consistent_before)
          (projection_check_inv first_day project request rebuild owner report db db' a h).0 in
      (
        (λ t.
            verdict-Agreement (db.balances owner.id) (db.holds request.api_key_id)
              (db.spends request.api_key_id request.month) _ _ _ _ (sym told ∙ t)),
        λ t.
            told
            ∙ Agreement-verdict (db.balances owner.id) (db.holds request.api_key_id)
                (db.spends request.api_key_id request.month) _ _ _ _ t,
      )
