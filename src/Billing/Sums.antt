-- ===== src/Billing/Sums.antt =====
-- How the historical sums change when a reservation is replaced or a row is added.
use xscope.Prelude.{
  ◌≡◌, subst, inl, inr, Bool, true, false, ◌&&◌, some, List, [], ◌∷◌, if◌then◌else◌, Bool-cases,
  All,
}
use xscope.Prelude.Int.{ℤ, pos, neg, ◌+ℤ◌, int_laws, parts_of_eq}
use xscope.Prelude.Text.{Text, text_eq, text_eq_iff}
use xscope.Billing.Types.{Reservation}
use xscope.Billing.Store.{
  is_held, find_reservation, replace_reservation, sum_where, weight, sum_where-replace, found_head,
}

abbrev pub held_by : (Reservation → Bool) → List Reservation → ℤ
held_by m = sum_where (λ r. m r && is_held r.state) (λ r. r.reserved_microunits)

abbrev held_weight : (Reservation → Bool) → Reservation → ℤ
held_weight m = weight (λ r. m r && is_held r.state) (λ r. r.reserved_microunits)

replaced :
    (m : Reservation → Bool) (id : Text) (old new : Reservation) (rs : List Reservation)
    → find_reservation id rs ≡ some old
    → held_by m (replace_reservation id new rs) +ℤ held_weight m old
      ≡ held_by m rs +ℤ held_weight m new
replaced m = sum_where-replace (λ r. m r && is_held r.state) (λ r. r.reserved_microunits)

cancel : (a b w v : ℤ) → a +ℤ w ≡ b +ℤ v → v ≡ w → a ≡ b
cancel a b w v h e = omega (int_laws, parts_of_eq (a +ℤ w) (b +ℤ v) h, parts_of_eq v w e)

-- A row that stays held, with its amount and its owner, changes no sum.
pub keep_sum :
    (m : Reservation → Bool) (id : Text) (old new : Reservation) (rs : List Reservation)
    → find_reservation id rs ≡ some old
    → m new ≡ m old
    → is_held new.state ≡ is_held old.state
    → new.reserved_microunits ≡ old.reserved_microunits
    → held_by m (replace_reservation id new rs) ≡ held_by m rs
keep_sum m id old new rs h owner state amount =
    cancel _ _ (held_weight m old) (held_weight m new) (replaced m id old new rs h)
      (rw (owner, state, amount))

dropped :
    (b : Bool) (s s' w : ℤ)
    → s' +ℤ (if b then w else pos 0) ≡ s +ℤ pos 0
    → s' ≡ (if b then s +ℤ neg w else s)
dropped true s s' w h = omega (int_laws, parts_of_eq (s' +ℤ w) (s +ℤ pos 0) h)
dropped false s s' w h = omega (int_laws, parts_of_eq (s' +ℤ pos 0) (s +ℤ pos 0) h)

weight_held :
    (m : Reservation → Bool) (r : Reservation)
    → is_held r.state ≡ true
    → held_weight m r ≡ (if m r then r.reserved_microunits else pos 0)
weight_held m r e = elim (Bool-cases (m r)) [ inl q ↦ rw (q, e) | inr q ↦ rw q ]

weight_free :
    (m : Reservation → Bool) (r : Reservation) → is_held r.state ≡ false → held_weight m r ≡ pos 0
weight_free m r e = elim (Bool-cases (m r)) [ inl q ↦ rw (q, e) | inr q ↦ rw q ]

-- A held row that stops to be held takes its amount out of the sums of its owner.
pub drop_sum :
    (m : Reservation → Bool) (id : Text) (old new : Reservation) (rs : List Reservation)
    → find_reservation id rs ≡ some old
    → is_held old.state ≡ true
    → is_held new.state ≡ false
    → held_by m (replace_reservation id new rs)
      ≡ (if m old then held_by m rs +ℤ neg old.reserved_microunits else held_by m rs)
drop_sum m id old new rs h before after =
    dropped (m old) (held_by m rs) (held_by m (replace_reservation id new rs))
      old.reserved_microunits
      (rw (weight_held m old before, weight_free m new after) at (replaced m id old new rs h))

pub All-replace {κ} :
    (P : Reservation → Type κ) (id : Text) (new : Reservation) (rs : List Reservation)
    → P new
    → All P rs
    → All P (replace_reservation id new rs)
All-replace P id new [] p h = tt
All-replace P id new (r ∷ rs) p h = elim (Bool-cases (text_eq r.id id)) [
  | inl e ↦ rw e (p, h.1)
  | inr e ↦ rw e (h.0, All-replace P id new rs p h.1)
]

pub All-find {κ} :
    (P : Reservation → Type κ) (id : Text) (old : Reservation) (rs : List Reservation)
    → find_reservation id rs ≡ some old
    → All P rs
    → P old
All-find P id old [] e h = cc
All-find P id old (r ∷ rs) e h = elim (Bool-cases (text_eq r.id id)) [
  | inl q ↦ subst P (found_head id r rs old q e) h.0
  | inr q ↦ All-find P id old rs (rw q at e) h.1
]

pub found_id :
    (id : Text) (old : Reservation) (rs : List Reservation)
    → find_reservation id rs ≡ some old
    → old.id ≡ id
found_id id old [] e = cc
found_id id old (r ∷ rs) e = elim (Bool-cases (text_eq r.id id)) [
  | inl q ↦
      subst (λ (x : Reservation). x.id ≡ id) (found_head id r rs old q e)
        ((text_eq_iff r.id id).0 q)
  | inr q ↦ found_id id old rs (rw q at e)
]
