-- ===== src/Billing/Consistent/Keeps.antt =====
-- Reads of the projections that may initialise them, and the consistent states.
use xscope.Prelude.{ℕ, ◌≡◌, refl, sym, ap, subst, ◌∙◌, Bool, true, false, ok, Bool-cases, inl, inr}
use xscope.Prelude.Int.{ℤ, pos, ltb_ℤ, checked_mul}
use xscope.Prelude.Text.{Text}
use xscope.Domain.Money.{micros_per_minor_unit}
use xscope.Billing.Types.{ServiceError, invalid, Account, ApiKey, Balance, budget_overflow, Db}
use xscope.Billing.Store.{bind-eq-ok, bind-some_or-eq-ok, ok_inv, fail_if}
use xscope.Billing.Projection.{
  booked_sum, held_sum, key_held_sum, spent_sum, monthly, key_hold, balance_and_held, account,
}
use xscope.Billing.Reserve.{check_balance, check_budget}
use xscope.Billing.Moves.{Moved, account-Moved, key_hold-Moved, monthly-Moved}
use xscope.Billing.Consistent.{IsConsistent, unmoved, settled_move}

pub fail_if_inv :
    (t : Bool) (e : ServiceError) (db db' : Db)
    → fail_if t e db ≡ ok (tt, db')
    → (t ≡ false) × (db ≡ db')
fail_if_inv true e db db' h = cc
fail_if_inv false e db db' h = (refl, (ok_inv tt tt db db' h).1)

abbrev pub SameRows : Db → Db → Type 0
SameRows db db' =
    (db'.accounts ≡ db.accounts) × (db'.ledger ≡ db.ledger) × (db'.reservations ≡ db.reservations)

abbrev pub Keeps : (ℕ → ℕ) → Db → Db → Type 0
Keeps month_of db db' = IsConsistent month_of db' × SameRows db db'

SameRows-trans : (a b c : Db) → SameRows a b → SameRows b c → SameRows a c
SameRows-trans a b c (p, q, r) (p', q', r') = (p' ∙ p, q' ∙ q, r' ∙ r)

-- A move that leaves the expected counters as they were: a first initialisation.
pub initialised :
    (month_of : ℕ → ℕ) (db db' : Db)
    → IsConsistent month_of db
    → Moved db
        (λ id. booked_sum id db.ledger)
        (λ id. held_sum id db.reservations)
        (λ key. key_held_sum key db.reservations)
        (λ key m. spent_sum month_of key m db.usage)
        db'
    → Keeps month_of db db'
initialised month_of db db' c (b, h, s, same, t) = (
  settled_move month_of db db' (b, h, s, same, t) (λ _. refl) (λ _. refl) (λ _. refl) (λ _ _. refl)
      c.owned,
  (
    ap (λ (d : Db). d.accounts) same,
    ap (λ (d : Db). d.ledger) same,
    ap (λ (d : Db). d.reservations) same,
  ),
)

module _ (month_of : ℕ → ℕ) where
  account-Keeps :
      (id : Text) (row : Balance) (db db' : Db)
      → IsConsistent month_of db
      → account id db ≡ ok (row, db')
      → Keeps month_of db db'
  account-Keeps id row db db' c e =
      initialised month_of db db' c
        (account-Moved db id row db db' refl refl (unmoved month_of db c) e).0

  pub balance_and_held-Keeps :
      (id : Text) (row : ℤ × ℤ) (db db' : Db)
      → IsConsistent month_of db
      → balance_and_held id db ≡ ok (row, db')
      → Keeps month_of db db'
  unfolding balance_and_held
  balance_and_held-Keeps id row db db' c h =
      let (b, x, e, g) = bind-eq-ok (account id) _ db h in
      subst (Keeps month_of db) (ok_inv _ row x db' g).1 (account-Keeps id b db x c e)

  monthly-Keeps :
      (key : Text) (m : ℕ) (row : ℤ) (db db' : Db)
      → IsConsistent month_of db
      → monthly month_of key m db ≡ ok (row, db')
      → Keeps month_of db db'
  monthly-Keeps key m row db db' c e =
      initialised month_of db db' c
        (monthly-Moved db month_of key m row db db' refl (unmoved month_of db c) e).0

  key_hold-Keeps :
      (key : Text) (row : ℤ) (db db' : Db)
      → IsConsistent month_of db
      → key_hold key db ≡ ok (row, db')
      → Keeps month_of db db'
  key_hold-Keeps key row db db' c e =
      initialised month_of db db' c
        (key_hold-Moved db key row db db' refl (unmoved month_of db c) e).0

  pub check_balance-Keeps :
      (a : Account) (amount : ℤ) (db db' : Db)
      → IsConsistent month_of db
      → check_balance a amount db ≡ ok (tt, db')
      → Keeps month_of db db'
  unfolding check_balance
  check_balance-Keeps a amount db db' c h = elim (Bool-cases a.enforce_balance) [
    | inl q ↦
        let (sums, x, e, g) = bind-eq-ok (balance_and_held a.id) _ db (rw q at h) in
        let (_, stay) = fail_if_inv _ _ x db' g in
        subst (Keeps month_of db) stay (balance_and_held-Keeps a.id sums db x c e)
    | inr q ↦
        let (_, stay) = ok_inv tt tt db db' (rw q at h) in
        subst (Keeps month_of db) stay (c, (refl, refl, refl))
  ]

  pub check_budget-Keeps :
      (now : ℕ) (key : ApiKey) (amount : ℤ) (db db' : Db)
      → IsConsistent month_of db
      → check_budget month_of now key amount db ≡ ok (tt, db')
      → Keeps month_of db db'
  unfolding check_budget
  check_budget-Keeps now key amount db db' c h =
      elim (Bool-cases (ltb_ℤ (pos 0) key.monthly_budget_amount)) [
        | inl q ↦
            let (spent, x, e, g) =
              bind-eq-ok (monthly month_of key.id (month_of now)) _ db (rw q at h) in
            let (held, y, e', g') = bind-eq-ok (key_hold key.id) _ x g in
            let (budget, e'', g'') =
              bind-some_or-eq-ok (checked_mul key.monthly_budget_amount (pos micros_per_minor_unit))
                (invalid budget_overflow) _ y g' in
            let (_, stay) = fail_if_inv _ _ y db' g'' in
            let (c1, a1) = monthly-Keeps key.id (month_of now) spent db x c e in
            let (c2, a2) = key_hold-Keeps key.id held x y c1 e' in
            subst (Keeps month_of db) stay (c2, SameRows-trans db x y a1 a2)
        | inr q ↦
            let (_, stay) = ok_inv tt tt db db' (rw q at h) in
            subst (Keeps month_of db) stay (c, (refl, refl, refl))
      ]

pair : {A B : Type 0} {a a' : A} {b b' : B} → a ≡ a' → b ≡ b' → ◌≡◌ {A = A × B} (a, b) (a', b')
pair p q = rw (p, q)

-- In a consistent state the answer of `balance_and_held` is the pair of historical sums.
pub balance_and_held-sums :
    (month_of : ℕ → ℕ) (db db' : Db) (id : Text) (sums : ℤ × ℤ)
    → IsConsistent month_of db
    → balance_and_held id db ≡ ok (sums, db')
    → sums ≡ (booked_sum id db.ledger, held_sum id db.reservations)
unfolding balance_and_held
balance_and_held-sums month_of db db' id sums c h =
    let (row, x, e, g) = bind-eq-ok (account id) _ db h in
    let ((b, _, _, same, t), at) =
      account-Moved db id row db x refl refl (unmoved month_of db c) e in
    let (p, q) = t.of_balance id row (ap (λ (d : Db). d.balances id) (sym same) ∙ at) in
    sym (ok_inv _ sums x db' g).0 ∙ pair p q
