-- ===== src/Worker/Completed.antt =====
-- What a completion went through, and the effects of the events of its batch.
use xscope.Prelude.{
  ℕ, ◌≡◌, refl, sym, ap, subst, ◌∙◌, ◌⊎◌, inl, inr, Bool, true, false, not, Bool-cases, ◌||◌,
  Option, none, some, Option-cases, List, [], ◌∷◌, ◌++◌, ok, arith, find, retain, length, ltb, leb,
  is_empty, is_none_or, In,
}
use xscope.Prelude.Int.{
  ℤ, pos, ◌≤ℤ◌, ◌+ℤ◌, eq_ℤ, eq_ℤ_iff, int_laws, checked_add, checked_add-some, parts_of_eq,
}
use xscope.Prelude.Text.{Text, text_eq_iff}
use xscope.Billing.Types.{
  invalid, conflict, invalid_worker_batch, event_sequence_exhausted, sequence_gap,
  serialization_failed, boundary_missed, lease_expired, Event, Effect, Job, Db,
}
use xscope.Billing.Store.{bind-eq-ok, bind-some_or-eq-ok, bind-fail_if-eq-ok, ok_inv}
use xscope.Billing.History.Writes.{Preserves, preserving}
use xscope.Worker.Batch.{
  batch, validate_event, validate_posting, validate_reservation, validate_review,
}
use xscope.Worker.Jobs.{Lease, put_job, stale}
use xscope.Worker.Complete.{
  Readings, in_effects, find_effect, done_job, effect_of, new_effect, process, finish,
  complete_locked,
}

-- An effect is recorded for an event of the account.
abbrev pub HasEffect : Text → ℤ → List Effect → Type 0
HasEffect id s effects =
    (e : Effect) × In e effects × (e.billing_account_id ≡ id) × (e.sequence ≡ s)

pub In-append-left : {A : Type 0} (a : A) (xs ys : List A) → In a xs → In a (xs ++ ys)
In-append-left a [] ys m = absurd m
In-append-left a (x ∷ xs) ys (inl e) = inl e
In-append-left a (x ∷ xs) ys (inr m) = inr (In-append-left a xs ys m)

pub In-append-right : {A : Type 0} (a : A) (xs ys : List A) → In a ys → In a (xs ++ ys)
In-append-right a [] ys m = m
In-append-right a (x ∷ xs) ys m = inr (In-append-right a xs ys m)

pub In-retain :
    {A : Type 0} (p : A → Bool) (a : A) (xs : List A) → In a (retain p xs) → In a xs × (p a ≡ true)
In-retain p a [] m = absurd m
In-retain p a (x ∷ xs) m = elim (Bool-cases (p x)) [
  | inl e ↦ elim (rw e at m) [
    | inl same ↦ (inl same, subst (λ v. p v ≡ true) same e)
    | inr later ↦ let (i, q) = In-retain p a xs later in (inr i, q)
  ]
  | inr e ↦ let (i, q) = In-retain p a xs (rw e at m) in (inr i, q)
]

pub find-In :
    {A : Type 0} (p : A → Bool) (a : A) (xs : List A) → find p xs ≡ some a → In a xs × (p a ≡ true)
find-In p a [] h = cc
find-In p a (x ∷ xs) h = elim (Bool-cases (p x)) [
  | inl e ↦ let same : x ≡ a = ground arith in (inl same, subst (λ v. p v ≡ true) same e)
  | inr e ↦ let (i, q) = find-In p a xs (rw e at h) in (inr i, q)
]

pub HasEffect-left :
    (id : Text) (s : ℤ) (xs ys : List Effect) → HasEffect id s xs → HasEffect id s (xs ++ ys)
HasEffect-left id s xs ys (e, i, p, q) = (e, In-append-left e xs ys i, p, q)

pub HasEffect-right :
    (id : Text) (s : ℤ) (xs ys : List Effect) → HasEffect id s ys → HasEffect id s (xs ++ ys)
HasEffect-right id s xs ys (e, i, p, q) = (e, In-append-right e xs ys i, p, q)

-- The validation of an event only reads.
validate_event-reads : (db : Db) (e : Event) → Preserves (λ d. d ≡ db) (validate_event e)
unfolding validate_event validate_posting validate_reservation validate_review
validate_event-reads db e = search preserving depth 16

le-eq-false : (a b : ℤ) → a ≤ℤ b → eq_ℤ b a ≡ false → a +ℤ pos 1 ≤ℤ b
unfolding ◌+ℤ◌
le-eq-false a b h q = ground arith

-- The writes of a completion that reached its boundary.
abbrev pub finished : Readings → Lease → Job → List Effect → Db → Db
finished at lease row new db =
    put_job lease.billing_account_id (done_job at.fenced_at lease.through_sequence row)
      (record db { effects = new ++ db.effects })

finish_inv :
    (at : Readings) (lease : Lease) (row : Job) (answer : ℤ × Bool) (reached : ℤ × List Effect)
    (db db' : Db)
    → finish at lease row reached db ≡ ok (answer, db')
    → (reached.0 ≡ lease.through_sequence)
      × (is_none_or row.lease_until (λ until. leb until at.fenced_at) ≡ false)
      × (answer ≡ (lease.through_sequence, false))
      × (db' ≡ finished at lease row reached.1 db)
unfolding finish
finish_inv at lease row answer (end, new) db db' h =
    let (t, h1) =
      bind-fail_if-eq-ok (not (eq_ℤ end lease.through_sequence)) (conflict boundary_missed) _ db
        h in
    let recorded : Db = record db { effects = new ++ db.effects } in
    let (fence, h2) =
      bind-fail_if-eq-ok (is_none_or row.lease_until (λ until. leb until at.fenced_at))
        (conflict lease_expired) _ recorded h1 in
    let (p, q) =
      ok_inv (end, false) answer
        (put_job lease.billing_account_id (done_job at.fenced_at end row) recorded) db' h2 in
    let boundary : end ≡ lease.through_sequence =
      (eq_ℤ_iff end lease.through_sequence).0 (ground arith) in
    (
      boundary,
      fence,
      sym p ∙ ap (λ v. (v, false)) boundary,
      sym q
          ∙ ap (λ v. put_job lease.billing_account_id (done_job at.fenced_at v row) recorded)
              boundary,
    )

module _ (serialize : Event → Option (List ℕ)) (sha256 : List ℕ → Text) where
  -- What an event's step records, or finds recorded.
  abbrev Covers : Text → ℤ → List Effect → List Effect → Type 0
  Covers id s new prior = HasEffect id s new ⊎ HasEffect id s prior

  abbrev Owned : Text → List Effect → Type 0
  Owned id prior = (e : Effect) → In e prior → e.billing_account_id ≡ id

  new_effect-reads :
      (db : Db) (id : Text) (at : ℕ) (hash : Text) (event : Event) (o : Option Effect)
      → Preserves (λ d. d ≡ db) (new_effect id at hash event o)
  new_effect-reads db id at hash event none = search preserving
  new_effect-reads db id at hash event (some old) = search preserving

  process-reads :
      (db : Db) (id : Text) (at : ℕ) (prior : List Effect) (events : List Event) (start : ℤ)
      → Preserves (λ d. d ≡ db) (process serialize sha256 id at prior events start)
  unfolding process
  process-reads db id at prior [] start = search preserving
  process-reads db id at prior (event ∷ events) start =
      search
        (
          preserving,
          validate_event-reads db,
          new_effect-reads db,
          process-reads db id at prior events,
        )
        depth 12

  new_effect-Covers :
      (id : Text) (at : ℕ) (hash : Text) (event : Event) (prior new : List Effect) (db db' : Db)
      → Owned id prior
      → new_effect id at hash event (find_effect event.sequence prior) db ≡ ok (new, db')
      → Covers id event.sequence new prior
  new_effect-Covers id at hash event prior new db db' own h =
      elim (Option-cases (find_effect event.sequence prior)) [
        | inl e ↦
            let (p, _) = ok_inv _ new db db' (rw e at h) in
            let recorded : Effect = effect_of id at hash event in
            inl (subst (HasEffect id event.sequence) p (recorded, inl refl, refl, refl))
        | inr (old, e) ↦
            let (i, same) = find-In (λ v. eq_ℤ v.sequence event.sequence) old prior e in
            inr (old, i, own old i, (eq_ℤ_iff old.sequence event.sequence).0 same)
      ]

  Covers-more :
      (id : Text) (s : ℤ) (new rest prior : List Effect)
      → Covers id s rest prior
      → Covers id s (new ++ rest) prior
  Covers-more id s new rest prior (inl h) = inl (HasEffect-right id s new rest h)
  Covers-more id s new rest prior (inr h) = inr h

  Covers-first :
      (id : Text) (s : ℤ) (new rest prior : List Effect)
      → Covers id s new prior
      → Covers id s (new ++ rest) prior
  Covers-first id s new rest prior (inl h) = inl (HasEffect-left id s new rest h)
  Covers-first id s new rest prior (inr h) = inr h

  process-Covers :
      (id : Text) (at : ℕ) (prior : List Effect) (events : List Event) (start s : ℤ)
      (reached : ℤ × List Effect) (db db' : Db)
      → Owned id prior
      → process serialize sha256 id at prior events start db ≡ ok (reached, db')
      → start +ℤ pos 1 ≤ℤ s
      → s ≤ℤ reached.0
      → Covers id s reached.1 prior
  unfolding process
  process-Covers id at prior [] start s reached db db' own h low high =
      let (p, _) = ok_inv _ reached db db' h in
      let end = parts_of_eq start reached.0 (ap (λ v. v.0) p) in absurd (omega int_laws)
  process-Covers id at prior (event ∷ events) start s reached db db' own h low high =
      let (following, e0, h1) =
        bind-some_or-eq-ok (checked_add start (pos 1)) (invalid event_sequence_exhausted) _ db h in
      let (same, h2) =
        bind-fail_if-eq-ok (not (eq_ℤ event.sequence following)) (conflict sequence_gap) _ db h1 in
      let (_, x, _, h3) = bind-eq-ok (validate_event event) _ db h2 in
      let (bytes, _, h4) =
        bind-some_or-eq-ok (serialize event) (invalid serialization_failed) _ x h3 in
      let (new, y, n, h5) =
        bind-eq-ok (new_effect id at (sha256 bytes) event (find_effect event.sequence prior)) _ x
          h4 in
      let (rest, z, r, h6) =
        bind-eq-ok (process serialize sha256 id at prior events following) _ y h5 in
      let (p, _) = ok_inv _ reached z db' h6 in
      let here : event.sequence ≡ following =
        (eq_ℤ_iff event.sequence following).0 (ground arith) in
      let exact = checked_add-some start (pos 1) following e0 in
      elim (Bool-cases (eq_ℤ s following)) [
        | inl q ↦
            subst (λ v. Covers id s v prior) (ap (λ v. v.1) p)
              (Covers-first id s new rest.1 prior (
                subst (λ v. Covers id v new prior) (here ∙ sym ((eq_ℤ_iff s following).0 q))
                  (new_effect-Covers id at (sha256 bytes) event prior new x y own n)))
        | inr q ↦
            subst (λ v. Covers id s v prior) (ap (λ v. v.1) p)
              (Covers-more id s new rest.1 prior (
                process-Covers id at prior events following s rest y z own r
                  (le-eq-false following s (subst (λ v. v ≤ℤ s) (sym exact) low) q)
                  (subst (λ v. s ≤ℤ v.0) (sym p) high)))
      ]

  -- A completion that was not one before: the granted row, what it recorded and what it wrote.
  pub record Completed (at : Readings) (lease : Lease) (answer : ℤ × Bool) (db db' : Db)
      : Type 0 where
    pub row : Job
    pub new : List Effect
    pub found : db.jobs lease.billing_account_id ≡ some row
    pub granted : stale lease at.locked_at row ≡ false
    pub in_time : is_none_or row.lease_until (λ until. leb until at.fenced_at) ≡ false
    pub answered : answer ≡ (lease.through_sequence, false)
    pub written : db' ≡ finished at lease row new db
    pub covers :
        (s : ℤ)
        → row.acknowledged +ℤ pos 1 ≤ℤ s
        → s ≤ℤ lease.through_sequence
        → HasEffect lease.billing_account_id s (new ++ db.effects)

  Owned-prior :
      (id : Text) (after through : ℤ) (effects : List Effect)
      → Owned id (retain (in_effects id after through) effects)
  Owned-prior id after through effects e i =
      let (_, q) = In-retain (in_effects id after through) e effects i in
      (text_eq_iff e.billing_account_id id).0 (ground arith)

  covered_db :
      (id : Text) (s after through : ℤ) (new effects : List Effect)
      → Covers id s new (retain (in_effects id after through) effects)
      → HasEffect id s (new ++ effects)
  covered_db id s after through new effects (inl h) = HasEffect-left id s new effects h
  covered_db id s after through new effects (inr (e, i, p, q)) =
      HasEffect-right id s new effects
        (e, (In-retain (in_effects id after through) e effects i).0, p, q)

  pub complete_locked-Completed :
      (at : Readings) (lease : Lease) (row : Job) (answer : ℤ × Bool) (db db' : Db)
      → db.jobs lease.billing_account_id ≡ some row
      → stale lease at.locked_at row ≡ false
      → complete_locked serialize sha256 at lease row db ≡ ok (answer, db')
      → Completed at lease answer db db'
  unfolding complete_locked
  complete_locked-Completed at lease row answer db db' found granted h =
      let id = lease.billing_account_id in
      let through = lease.through_sequence in
      let events = batch id row.acknowledged through 101 db.events in
      let prior = retain (in_effects id row.acknowledged through) db.effects in
      let (_, h1) =
        bind-fail_if-eq-ok (is_empty events || ltb 100 (length events))
          (conflict invalid_worker_batch) _ db h in
      let (reached, x, e, h2) =
        bind-eq-ok (process serialize sha256 id at.processed_at prior events row.acknowledged) _ db
          h1 in
      let read : x ≡ db =
        (process-reads db id at.processed_at prior events row.acknowledged).after db x reached refl
          e in
      let (all_reached, fence, p, q) = finish_inv at lease row answer reached x db' h2 in
      let end : reached.0 ≡ through = all_reached in
      record {
        row = row;
        new = reached.1;
        found = found;
        granted = granted;
        in_time = fence;
        answered = p;
        written = subst (λ d. db' ≡ finished at lease row reached.1 d) read q;
        covers = λ s low high. covered_db id s row.acknowledged through reached.1 db.effects (
            process-Covers id at.processed_at prior events row.acknowledged s reached db x
              (Owned-prior id row.acknowledged through db.effects) e low
              (subst (λ v. s ≤ℤ v) (sym end) high));
      }
