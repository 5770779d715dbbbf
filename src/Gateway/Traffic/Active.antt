-- ===== src/Gateway/Traffic/Active.antt =====
-- The counters of the gate and the permits that are out.
use xscope.Prelude.{
  ℕ, ◌+◌, ◌-◌, ◌≡◌, refl, sym, ap, ◌∙◌, Bool, Bool-cases, inl, inr, Option, none, some, List, [],
  ◌∷◌, if◌then◌else◌, Result, ok, >>=-eq-ok, refuse-eq-ok, Option-cases, leb, arith,
}
use xscope.Prelude.Int.{ℤ}
use xscope.Prelude.Text.{Text, text_eq, text_eq_iff, text_eq_refl}
use xscope.Billing.Store.{upsert}
use xscope.Gateway.Traffic.{
  PoolControl, TrafficSnapshot, Gate, TrafficError, TrafficReport, invalid_grant, invalid_pool,
  not_accepting, count_exhausted, bad_grant, bad_pools, check_previous, or_default, enroll, install,
  count_of, enter, decrement, leave, close, new_gate, report,
}

-- The pools of the permits that are out, a new one first; one that is dropped goes.
abbrev pub drop_one : Text → List Text → List Text
drop_one pool [] = []
drop_one pool (p ∷ ps) = let rest = drop_one pool ps in if text_eq pool p then ps else p ∷ rest

abbrev pub count_permits : Text → List Text → ℕ
count_permits pool [] = 0
count_permits pool (p ∷ ps) =
    let rest = count_permits pool ps in if text_eq p pool then rest + 1 else rest

-- One operation of the gate, with the permits before and behind it.
pub data Turn (is_uuid : Text → Bool) (session : Text)
    : Gate → List Text → Gate → List Text → Type 0 where
  installs :
      (s : TrafficSnapshot) (fetched_at : ℕ) (gate gate' : Gate) (ps : List Text)
      → install is_uuid session s fetched_at gate ≡ ok gate'
      → Turn is_uuid session gate ps gate' ps
  enters :
      (pool : Text) (generation : ℤ) (now : ℕ) (gate gate' : Gate) (ps : List Text)
      → enter pool generation now gate ≡ ok gate'
      → Turn is_uuid session gate ps gate' (pool ∷ ps)
  leaves :
      (pool : Text) (gate : Gate) (ps : List Text)
      → Turn is_uuid session gate ps (leave pool gate) (drop_one pool ps)
  closes : (gate : Gate) (ps : List Text) → Turn is_uuid session gate ps (close gate) ps

pub data Turns (is_uuid : Text → Bool) (session : Text)
    : Gate → List Text → Gate → List Text → Type 0 where
  halts : {gate : Gate} {ps : List Text} → Turns is_uuid session gate ps gate ps
  serve :
      {g h k : Gate} {ps qs rs : List Text}
      → Turn is_uuid session g ps h qs
      → Turns is_uuid session h qs k rs
      → Turns is_uuid session g ps k rs

-- The counter of every pool is the number of its permits.
abbrev pub IsCounted : (Text → Option ℕ) → List Text → Type 0
IsCounted active ps = (pool : Text) → count_of (active pool) ≡ count_permits pool ps

or_default-count :
    (id pool : Text) (o : Option ℕ) (active : Text → Option ℕ)
    → active id ≡ o
    → count_of (or_default id o active pool) ≡ count_of (active pool)
or_default-count id pool (some n) active e = refl
or_default-count id pool none active e = elim (Bool-cases (text_eq id pool)) [
  | inl q ↦
      let same = (text_eq_iff id pool).0 q in rw q (sym (ap count_of (ap active (sym same) ∙ e)))
  | inr q ↦ rw q refl
]

enroll-count :
    (pools : List PoolControl) (active : Text → Option ℕ) (pool : Text)
    → count_of (enroll pools active pool) ≡ count_of (active pool)
unfolding enroll
enroll-count [] active pool = refl
enroll-count (p ∷ pools) active pool =
    enroll-count pools (or_default p.id (active p.id) active) pool
    ∙ or_default-count p.id pool (active p.id) active refl

drop_one-count :
    (pool j : Text) (ps : List Text)
    → count_permits j (drop_one pool ps)
      ≡ (if text_eq pool j then count_permits j ps - 1 else count_permits j ps)
drop_one-count pool j [] = ground arith
drop_one-count pool j (p ∷ ps) = elim (Bool-cases (text_eq pool p)) [
  | inl q ↦
      let same = (text_eq_iff pool p).0 q in
      elim (Bool-cases (text_eq p j)) [
        | inl t ↦ rw (same, text_eq_refl p, t) (omega arith)
        | inr t ↦ rw (same, text_eq_refl p, t) refl
      ]
  | inr q ↦ elim (Bool-cases (text_eq p j)) [
    | inl t ↦ elim (Bool-cases (text_eq pool j)) [
      | inl u ↦
          let same : pool ≡ p = (text_eq_iff pool j).0 u ∙ sym ((text_eq_iff p j).0 t) in
          let clash = rw ((text_eq_iff pool p).1 same) at q in cc
      | inr u ↦ rw (q, t, u, drop_one-count pool j ps) (rw u refl)
    ]
    | inr t ↦ rw (q, t, drop_one-count pool j ps) refl
  ]
]

nothing_dropped :
    (pool j : Text) (ps : List Text)
    → 0 ≡ count_permits pool ps
    → count_permits j ps ≡ count_permits j (drop_one pool ps)
nothing_dropped pool j ps h = elim (Bool-cases (text_eq pool j)) [
  | inl q ↦
      let same = (text_eq_iff pool j).0 q in
      let empty : 0 ≡ count_permits j ps = h ∙ ap (λ k. count_permits k ps) same in
      let fewer = drop_one-count pool j ps in
      let dropped : count_permits j (drop_one pool ps) ≡ count_permits j ps - 1 = rw q at fewer in
      omega arith
  | inr q ↦ let fewer = drop_one-count pool j ps in sym (rw q at fewer)
]

decremented :
    (pool j : Text) (n : ℕ) (gate : Gate) (ps : List Text)
    → n ≡ count_permits pool ps
    → count_of (gate.active j) ≡ count_permits j ps
    → count_of (upsert pool (n - 1) gate.active j) ≡ count_permits j (drop_one pool ps)
decremented pool j n gate ps h c =
    let fewer = drop_one-count pool j ps in
    elim (Bool-cases (text_eq pool j)) [
      | inl q ↦
          let same = (text_eq_iff pool j).0 q in
          let out : n ≡ count_permits j ps = h ∙ ap (λ k. count_permits k ps) same in
          let dropped : count_permits j (drop_one pool ps) ≡ count_permits j ps - 1 =
            rw q at fewer in
          rw q (omega arith)
      | inr q ↦ rw q (c ∙ sym (rw q at fewer))
    ]

entered_count :
    (pool j : Text) (active : Text → Option ℕ) (ps : List Text)
    → IsCounted active ps
    → count_of (upsert pool (count_of (active pool) + 1) active j) ≡ count_permits j (pool ∷ ps)
entered_count pool j active ps c = elim (Bool-cases (text_eq pool j)) [
  | inl q ↦
      let same = (text_eq_iff pool j).0 q in
      let here = c pool in
      let out : count_of (active pool) ≡ count_permits j ps =
        here ∙ ap (λ k. count_permits k ps) same in
      rw q (omega arith)
  | inr q ↦ rw q (c j)
]

ok_gate_inv : {a b : Gate} → ◌≡◌ {A = Result TrafficError Gate} (ok a) (ok b) → a ≡ b
ok_gate_inv h = cc

leave-IsCounted :
    (pool : Text) (gate : Gate) (ps : List Text)
    → IsCounted gate.active ps
    → IsCounted (leave pool gate).active (drop_one pool ps)
unfolding leave
leave-IsCounted pool gate ps c j = elim (Option-cases (gate.active pool)) [
  | inl e ↦
      let none_out : 0 ≡ count_permits pool ps = sym (ap count_of e) ∙ c pool in
      ap (λ o. count_of ((decrement pool o gate).active j)) e
      ∙ c j
      ∙ nothing_dropped pool j ps none_out
  | inr (n, e) ↦
      let out : n ≡ count_permits pool ps = sym (ap count_of e) ∙ c pool in
      ap (λ o. count_of ((decrement pool o gate).active j)) e
      ∙ decremented pool j n gate ps out (c j)
]

enter-IsCounted :
    (pool : Text) (generation : ℤ) (now : ℕ) (gate gate' : Gate) (ps : List Text)
    → enter pool generation now gate ≡ ok gate'
    → IsCounted gate.active ps
    → IsCounted gate'.active (pool ∷ ps)
unfolding enter
enter-IsCounted pool generation now gate gate' ps h c j =
    let (_, h1) = refuse-eq-ok _ not_accepting _ h in
    let (_, h2) =
      refuse-eq-ok (leb 18446744073709551615 (count_of (gate.active pool))) count_exhausted _ h1 in
    let entered : gate'.active ≡ upsert pool (count_of (gate.active pool) + 1) gate.active =
      ap (λ (g : Gate). g.active) (sym (ok_gate_inv h2)) in
    ap (λ (t : Text → Option ℕ). count_of (t j)) entered ∙ entered_count pool j gate.active ps c

install-IsCounted :
    (is_uuid : Text → Bool) (session : Text) (s : TrafficSnapshot) (fetched_at : ℕ)
    (gate gate' : Gate) (ps : List Text)
    → install is_uuid session s fetched_at gate ≡ ok gate'
    → IsCounted gate.active ps
    → IsCounted gate'.active ps
unfolding install
install-IsCounted is_uuid session s fetched_at gate gate' ps h c j =
    let (_, h1) = refuse-eq-ok (bad_grant is_uuid session s) invalid_grant _ h in
    let (_, h2) = refuse-eq-ok (bad_pools [] s.pools) invalid_pool _ h1 in
    let (_, _, h3) = >>=-eq-ok (check_previous s gate.snapshot) _ h2 in
    let enrolled : gate'.active ≡ enroll s.pools gate.active =
      ap (λ (g : Gate). g.active) (sym (ok_gate_inv h3)) in
    ap (λ (t : Text → Option ℕ). count_of (t j)) enrolled ∙ enroll-count s.pools gate.active j ∙ c j

module _ (is_uuid : Text → Bool) (session : Text) where
  Turn-IsCounted :
      {g h : Gate} {ps qs : List Text}
      → Turn is_uuid session g ps h qs
      → IsCounted g.active ps
      → IsCounted h.active qs
  unfolding close
  Turn-IsCounted (installs s fetched_at gate gate' ps h) c =
      install-IsCounted is_uuid session s fetched_at gate gate' ps h c
  Turn-IsCounted (enters pool generation now gate gate' ps h) c =
      enter-IsCounted pool generation now gate gate' ps h c
  Turn-IsCounted (leaves pool gate ps) c = leave-IsCounted pool gate ps c
  Turn-IsCounted (closes gate ps) c = c

  Turns-IsCounted :
      {g h : Gate} {ps qs : List Text}
      → Turns is_uuid session g ps h qs
      → IsCounted g.active ps
      → IsCounted h.active qs
  Turns-IsCounted halts c = c
  Turns-IsCounted (serve t ts) c = Turns-IsCounted ts (Turn-IsCounted t c)

report_inv :
    (session : Text) (gate : Gate) (r : TrafficReport)
    → report session gate ≡ some r
    → r.active ≡ gate.active
unfolding report
report_inv session gate r h = elim (Option-cases gate.snapshot) [
  | inl e ↦ let clash = rw e at h in cc
  | inr (s, e) ↦ ap (λ (t : TrafficReport). t.active) (sym (some_report_inv (rw e at h)))
]
  where
    some_report_inv : {a b : TrafficReport} → some a ≡ some b → a ≡ b
    some_report_inv h = cc

-- At the end of any history of the gate from a new one, what a report says of a pool's active requests
-- is the number of the pool's permits that were given and not dropped: an entry that it lacks is 0.
pub report-IsCounted :
    (is_uuid : Text → Bool) (session : Text) (gate : Gate) (ps : List Text) (r : TrafficReport)
    → Turns is_uuid session new_gate [] gate ps
    → report session gate ≡ some r
    → IsCounted r.active ps
report-IsCounted is_uuid session gate ps r history h pool =
    ap (λ (t : Text → Option ℕ). count_of (t pool)) (report_inv session gate r h)
    ∙ Turns-IsCounted is_uuid session history (λ _. refl) pool
