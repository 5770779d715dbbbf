-- ===== src/Billing/Tracks.antt =====
-- What the projection tables hold, against functions that give the expected counters.
use xscope.Prelude.{
  ℕ, ◌≡◌, ap, ◌∙◌, ◌⊎◌, inl, inr, true, false, ◌&&◌, Option, some, arith, if◌then◌else◌, Bool-cases,
  ◌==◌,
}
use xscope.Prelude.Int.{ℤ, ◌+ℤ◌}
use xscope.Prelude.Text.{Text, text_eq, text_eq_iff}
use xscope.Billing.Types.{Balance}
use xscope.Billing.Store.{upsert, upsert_cases, set_month}

-- Every row of the three tables is the counter that the functions give.
pub record Tracks (booked held key_held : Text → ℤ) (spent : Text → ℕ → ℤ)
    (balances : Text → Option Balance) (holds : Text → Option ℤ) (spends : Text → ℕ → Option ℤ)
    : Type 0 where
  pub of_balance :
      (id : Text) (b : Balance)
      → balances id ≡ some b
      → (b.balance_microunits ≡ booked id) × (b.held_microunits ≡ held id)
  pub of_hold : (key : Text) (h : ℤ) → holds key ≡ some h → h ≡ key_held key
  pub of_spend : (key : Text) (m : ℕ) (s : ℤ) → spends key m ≡ some s → s ≡ spent key m

-- A counter that moves by `d` at one key.
abbrev pub shift : (Text → ℤ) → Text → ℤ → Text → ℤ
shift f a d x = if text_eq a x then f x +ℤ d else f x

abbrev pub shift_month : (Text → ℕ → ℤ) → Text → ℕ → ℤ → Text → ℕ → ℤ
shift_month f a m d x n = if text_eq a x && m == n then f x n +ℤ d else f x n

set_month_cases :
    (a key : Text) (m n : ℕ) (s c : ℤ) (spends : Text → ℕ → Option ℤ)
    → set_month a m s spends key n ≡ some c
    → ((a ≡ key) × (m ≡ n) × (s ≡ c) × ((text_eq a key && m == n) ≡ true))
      ⊎ (((text_eq a key && m == n) ≡ false) × (spends key n ≡ some c))
set_month_cases a key m n s c spends h = elim (Bool-cases (text_eq a key && m == n)) [
  | inl e ↦ inl ((text_eq_iff a key).0 (ground arith), ground arith, ground arith, e)
  | inr e ↦ inr (e, rw e at h)
]

module _ {B H K : Text → ℤ} {S : Text → ℕ → ℤ} {balances : Text → Option Balance}
    {holds : Text → Option ℤ} {spends : Text → ℕ → Option ℤ}
    (t : Tracks B H K S balances holds spends) where
  -- A first initialisation, with the expected counters.
  pub Tracks-new_balance :
      (a : Text) (b : Balance)
      → b.balance_microunits ≡ B a
      → b.held_microunits ≡ H a
      → Tracks B H K S (upsert a b balances) holds spends
  Tracks-new_balance a b e f = record {
    of_balance = λ id c q. elim (upsert_cases a id b c balances q) [
      | inl (same, _, v) ↦ rw (← v, ← same) (e, f)
      | inr (_, old) ↦ t.of_balance id c old
    ];
    of_hold = t.of_hold;
    of_spend = t.of_spend;
  }

  pub Tracks-new_hold :
      (a : Text) (h : ℤ) → h ≡ K a → Tracks B H K S balances (upsert a h holds) spends
  Tracks-new_hold a h e = record {
    of_balance = t.of_balance;
    of_hold = λ key c q. elim (upsert_cases a key h c holds q) [
      | inl (same, _, v) ↦ rw (← v, ← same) e
      | inr (_, old) ↦ t.of_hold key c old
    ];
    of_spend = t.of_spend;
  }

  -- A counter that was read is written back moved by `d`.
  pub Tracks-set_held :
      (a : Text) (row : Balance) (d : ℤ)
      → balances a ≡ some row
      → Tracks B
          (shift H a d)
          K
          S
          (upsert a (record row { held_microunits = row.held_microunits +ℤ d }) balances)
          holds
          spends
  Tracks-set_held a row d r = record {
    of_balance = λ id c q. elim (upsert_cases a id _ c balances q) [
      | inl (same, eq, v) ↦
          let (e, f) = t.of_balance a row r in rw (eq, ← v, ← same) (e, ap (λ x. x +ℤ d) f)
      | inr (eq, old) ↦ rw eq (t.of_balance id c old)
    ];
    of_hold = t.of_hold;
    of_spend = t.of_spend;
  }

  pub Tracks-set_balance :
      (a : Text) (row : Balance) (d : ℤ)
      → balances a ≡ some row
      → Tracks
          (shift B a d)
          H
          K
          S
          (upsert a (record row { balance_microunits = row.balance_microunits +ℤ d }) balances)
          holds
          spends
  Tracks-set_balance a row d r = record {
    of_balance = λ id c q. elim (upsert_cases a id _ c balances q) [
      | inl (same, eq, v) ↦
          let (e, f) = t.of_balance a row r in rw (eq, ← v, ← same) (ap (λ x. x +ℤ d) e, f)
      | inr (eq, old) ↦ rw eq (t.of_balance id c old)
    ];
    of_hold = t.of_hold;
    of_spend = t.of_spend;
  }

  pub Tracks-set_hold :
      (a : Text) (h d : ℤ)
      → holds a ≡ some h
      → Tracks B H (shift K a d) S balances (upsert a (h +ℤ d) holds) spends
  Tracks-set_hold a h d r = record {
    of_balance = t.of_balance;
    of_hold = λ key c q. elim (upsert_cases a key _ c holds q) [
      | inl (same, eq, v) ↦ rw (eq, ← v, ← same) (ap (λ x. x +ℤ d) (t.of_hold a h r))
      | inr (eq, old) ↦ rw eq (t.of_hold key c old)
    ];
    of_spend = t.of_spend;
  }

  pub Tracks-new_spend :
      (a : Text) (m : ℕ) (s : ℤ)
      → s ≡ S a m
      → Tracks B H K S balances holds (set_month a m s spends)
  Tracks-new_spend a m s e = record {
    of_balance = t.of_balance;
    of_hold = t.of_hold;
    of_spend = λ key n c q. elim (set_month_cases a key m n s c spends q) [
      | inl (same, at, v, _) ↦ rw (← v, ← same, ← at) e
      | inr (_, old) ↦ t.of_spend key n c old
    ];
  }

  pub Tracks-set_spend :
      (a : Text) (m : ℕ) (s d : ℤ)
      → spends a m ≡ some s
      → Tracks B H K (shift_month S a m d) balances holds (set_month a m (s +ℤ d) spends)
  Tracks-set_spend a m s d r = record {
    of_balance = t.of_balance;
    of_hold = t.of_hold;
    of_spend = λ key n c q. elim (set_month_cases a key m n _ c spends q) [
      | inl (same, at, v, eq) ↦ rw (eq, ← v, ← same, ← at) (ap (λ x. x +ℤ d) (t.of_spend a m s r))
      | inr (eq, old) ↦ rw eq (t.of_spend key n c old)
    ];
  }

  -- Functions that agree at every point give the same counters.
  pub Tracks-same :
      {B' H' K' : Text → ℤ} {S' : Text → ℕ → ℤ}
      → ((id : Text) → B id ≡ B' id)
      → ((id : Text) → H id ≡ H' id)
      → ((key : Text) → K key ≡ K' key)
      → ((key : Text) (m : ℕ) → S key m ≡ S' key m)
      → Tracks B' H' K' S' balances holds spends
  Tracks-same b h k s = record {
    of_balance = λ id c q. let (e, f) = t.of_balance id c q in (e ∙ b id, f ∙ h id);
    of_hold = λ key c q. t.of_hold key c q ∙ k key;
    of_spend = λ key m c q. t.of_spend key m c q ∙ s key m;
  }
