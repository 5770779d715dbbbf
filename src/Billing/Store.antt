-- ===== src/Billing/Store.antt =====
-- A database transaction as a state-passing action: an error discards every write. The queries of
-- the money protocol are functions on the tables.
use xscope.Prelude.{
  ℕ, ◌≡◌, refl, arith, ◌⊎◌, inl, inr, Bool-cases, ap, Bool, true, false, ◌&&◌, Option, none, some,
  List, [], ◌∷◌, if◌then◌else◌, Result, ok, err, find, ◌==◌,
}
use xscope.Prelude.Int.{ℤ, pos, ◌+ℤ◌, int_laws, parts_of_eq, fits_i64}
use xscope.Prelude.Text.{Text, text_eq, text_eq_iff}
use xscope.Billing.Types.{
  ServiceError, database, ReservationState, reserved, dispatched, Reservation, Db,
}

abbrev pub Tx : Type 0 → Type 0
Tx A = Db → Result ServiceError (A × Db)

infixl 5 ◌>>=◌ ◌>>◌
abbrev pub ◌>>=◌ : {A B : Type 0} → Tx A → (A → Tx B) → Tx B
◌>>=◌ m f db = elim (m db) [ ok (a, db') ↦ f a db' | err e ↦ err e ]

abbrev pub ◌>>◌ : {A B : Type 0} → Tx A → Tx B → Tx B
m >> k = m >>= λ _. k

abbrev pub pure : {A : Type 0} → A → Tx A
pure a db = ok (a, db)

abbrev pub fail : {A : Type 0} → ServiceError → Tx A
fail e db = err e

-- `return Err(e)` under a test.
abbrev pub fail_if : Bool → ServiceError → Tx (Unit {0})
fail_if true e = fail e
fail_if false e = pure tt

abbrev pub lift : {A : Type 0} → Result ServiceError A → Tx A
lift (ok a) = pure a
lift (err e) = fail e

abbrev pub some_or : {A : Type 0} → Option A → ServiceError → Tx A
some_or (some a) e = pure a
some_or none e = fail e

abbrev pub gets : {A : Type 0} → (Db → A) → Tx A
gets f db = ok (f db, db)

abbrev pub modify : (Db → Db) → Tx (Unit {0})
modify f db = ok (tt, f db)

bind_cases :
    {A B : Type 0} (r : Result ServiceError (A × Db)) (f : A → Tx B) {b : B} {db'' : Db}
    → elim r [ ok (a, db') ↦ f a db' | err e ↦ err e ] ≡ ok (b, db'')
    → (a : A) × (db' : Db) × (r ≡ ok (a, db')) × (f a db' ≡ ok (b, db''))
bind_cases (ok (a, db')) f h = (a, db', refl, h)
bind_cases (err e) f h = cc

-- What a successful bind went through.
pub bind-eq-ok :
    {A B : Type 0} (m : Tx A) (f : A → Tx B) (db : Db) {b : B} {db'' : Db}
    → (m >>= f) db ≡ ok (b, db'')
    → (a : A) × (db' : Db) × (m db ≡ ok (a, db')) × (f a db' ≡ ok (b, db''))
bind-eq-ok m f db h = bind_cases (m db) f h

pub bind-lift-eq-ok :
    {A B : Type 0} (r : Result ServiceError A) (f : A → Tx B) (db : Db) {b : B} {db'' : Db}
    → (lift r >>= f) db ≡ ok (b, db'')
    → (a : A) × (r ≡ ok a) × (f a db ≡ ok (b, db''))
bind-lift-eq-ok (ok a) f db h = (a, refl, h)
bind-lift-eq-ok (err e) f db h = cc

pub bind-some_or-eq-ok :
    {A B : Type 0} (o : Option A) (e : ServiceError) (f : A → Tx B) (db : Db) {b : B} {db'' : Db}
    → (some_or o e >>= f) db ≡ ok (b, db'')
    → (a : A) × (o ≡ some a) × (f a db ≡ ok (b, db''))
bind-some_or-eq-ok (some a) e f db h = (a, refl, h)
bind-some_or-eq-ok none e f db h = cc

pub bind-fail_if-eq-ok :
    {B : Type 0} (t : Bool) (e : ServiceError) (k : Tx B) (db : Db) {b : B} {db'' : Db}
    → (fail_if t e >> k) db ≡ ok (b, db'')
    → (t ≡ false) × (k db ≡ ok (b, db''))
bind-fail_if-eq-ok true e k db h = cc
bind-fail_if-eq-ok false e k db h = (refl, h)

pub ok_inv :
    {A : Type 0} (a b : A) (db db' : Db)
    → ◌≡◌ {A = Result ServiceError (A × Db)} (ok (a, db)) (ok (b, db'))
    → (a ≡ b) × (db ≡ db')
ok_inv a b db db' h = (cc, cc)

pub some_or_inv :
    {A : Type 0} (o : Option A) (e : ServiceError) (a : A) (db db' : Db)
    → some_or o e db ≡ ok (a, db')
    → (o ≡ some a) × (db ≡ db')
some_or_inv (some b) e a db db' h = let (x, y) = ok_inv b a db db' h in (ap some x, y)
some_or_inv none e a db db' h = cc

-- A row of a table that is read by its key.
abbrev pub upsert : {V : Type 0} → Text → V → (Text → Option V) → Text → Option V
upsert k v table j = if text_eq k j then some v else table j

-- A read behind a write: of the same key with its value, or of another with what was there.
pub upsert_cases :
    {V : Type 0} (k j : Text) (v w : V) (table : Text → Option V)
    → upsert k v table j ≡ some w
    → ((k ≡ j) × (text_eq k j ≡ true) × (v ≡ w)) ⊎ ((text_eq k j ≡ false) × (table j ≡ some w))
upsert_cases k j v w table h = elim (Bool-cases (text_eq k j)) [
  | inl e ↦ inl ((text_eq_iff k j).0 e, e, ground arith)
  | inr e ↦ inr (e, rw e at h)
]

-- The write of one month's row.
abbrev pub set_month : Text → ℕ → ℤ → (Text → ℕ → Option ℤ) → Text → ℕ → Option ℤ
set_month key month spent spends k m =
    if text_eq key k && month == m then some spent else spends k m

abbrev pub is_held : ReservationState → Bool
is_held reserved = true
is_held dispatched = true
is_held _ = false

-- `find_by_id(id)`
abbrev pub find_reservation : Text → List Reservation → Option Reservation
find_reservation id = find (λ r. text_eq r.id id)

-- `update` of the row with a primary key
abbrev pub replace_reservation : Text → Reservation → List Reservation → List Reservation
replace_reservation id new [] = []
replace_reservation id new (r ∷ rs) =
    let rest = replace_reservation id new rs in if text_eq r.id id then new ∷ rs else r ∷ rest

-- A sum over the rows that pass a filter.
unfoldable pub sum_where {ℓ} : {A : Type ℓ} → (A → Bool) → (A → ℤ) → List A → ℤ
sum_where p f [] = pos 0
sum_where p f (x ∷ xs) = let rest = sum_where p f xs in if p x then f x +ℤ rest else rest

-- `SUM` as `bigint`: the cast fails the query where the sum does not fit.
abbrev pub total : ℤ → Result ServiceError ℤ
total sum = if fits_i64 sum then ok sum else err database

-- What a row contributes to such a sum.
abbrev pub weight {ℓ} : {A : Type ℓ} → (A → Bool) → (A → ℤ) → A → ℤ
weight p f x = if p x then f x else pos 0

pub sum_where-cons {ℓ} :
    {A : Type ℓ} (p : A → Bool) (f : A → ℤ) (x : A) (xs : List A)
    → sum_where p f (x ∷ xs) ≡ weight p f x +ℤ sum_where p f xs
unfolding sum_where
sum_where-cons p f x xs = elim (Bool-cases (p x)) [ inl e ↦ rw e | inr e ↦ rw e (omega int_laws) ]

pub found_head :
    (id : Text) (r : Reservation) (rs : List Reservation) (old : Reservation)
    → text_eq r.id id ≡ true
    → find_reservation id (r ∷ rs) ≡ some old
    → r ≡ old
found_head id r rs old e h = ground arith

-- Replacing the row that a key finds changes the sum by the difference of their contributions.
pub sum_where-replace :
    (p : Reservation → Bool) (f : Reservation → ℤ) (id : Text) (old new : Reservation)
    (rs : List Reservation)
    → find_reservation id rs ≡ some old
    → sum_where p f (replace_reservation id new rs) +ℤ weight p f old
      ≡ sum_where p f rs +ℤ weight p f new
sum_where-replace p f id old new [] h = cc
sum_where-replace p f id old new (r ∷ rs) h = elim (Bool-cases (text_eq r.id id)) [
  | inl e ↦
      rw (e, sum_where-cons p f new rs, sum_where-cons p f r rs)
        (omega (int_laws, parts_of_eq _ _ (ap (weight p f) (found_head id r rs old e h))))
  | inr e ↦
      rw (e, sum_where-cons p f r (replace_reservation id new rs), sum_where-cons p f r rs)
        (omega (int_laws, parts_of_eq _ _ (sum_where-replace p f id old new rs (rw e at h))))
]
