-- ===== src/Gateway/Outbox/Kept.antt =====
-- What becomes of an accepted completion, over histories of the outbox.
use xscope.Prelude.{
  ℕ, ◌+◌, ◌≡◌, refl, sym, ap, subst, ◌∙◌, Bool, true, false, not, Bool-cases, ◌⊎◌, inl, inr, Option,
  none, some, Result, ok, err, ◌==◌, ==_iff, arith, find, is_some, is_some_and, if◌then◌else◌,
}
use xscope.Gateway.Outbox.{
  Settings, Entry, State, DeliveryError, retry, permanent, submit, drop_permit, begin_drain,
  stop_workers, pick, take_work, is_due, retried, delivered, lookup, remove, update, slot,
}
use xscope.Gateway.Outbox.Turns.{
  Turn, reserves, submits, drops, drains, stops, picks, delivers, Turns, halt, turn, reserve_inv,
  submit_inv, lookup-remove, lookup-update, lookup-update_same, lookup-push_back,
}

module _ {Event : Type 0} where
  -- The outbox holds the event under the permit's ID.
  abbrev pub Holds : ℕ → Event → State Event → Type 0
  Holds id event s = (e : Entry Event) × (lookup id s.entries ≡ some e) × (e.event ≡ some event)

  -- The answer that ends an event: a success or a permanent failure.
  abbrev pub Disposes : {settings : Settings} {s s' : State Event} → ℕ → Turn settings s s' → Type 0
  Disposes id (delivers now j (ok _) s) = j ≡ id
  Disposes id (delivers now j (err (permanent status)) s) = j ≡ id
  Disposes id _ = ⊥

  abbrev pub DisposedIn :
      {settings : Settings} {s s' : State Event} → ℕ → Turns settings s s' → Type 0
  DisposedIn id halt = ⊥
  DisposedIn id (turn t ts) = Disposes id t ⊎ DisposedIn id ts

  some_entry_injective : {a b : Entry Event} → some a ≡ some b → a ≡ b
  some_entry_injective h = ground arith

  update-Holds :
      (id j : ℕ) (event : Event) (f : Entry Event → Entry Event) (s s' : State Event)
      → ((e : Entry Event)
          → lookup j s.entries ≡ some e
          → e.event ≡ some event
          → (f e).event ≡ some event)
      → s'.entries ≡ update j f s.entries
      → Holds id event s
      → Holds id event s'
  update-Holds id j event f s s' same q (e, found, has) = elim (Bool-cases (j == id)) [
    | inl t ↦
        let own : j ≡ id = (==_iff j id).0 t in
        (
          f e,
          subst (λ k. lookup k s'.entries ≡ some (f e)) own
              (rw q (lookup-update_same j f s.entries e (rw own found))),
          same e (rw own found) has,
        )
    | inr t ↦ (e, rw q (lookup-update id j f s.entries t ∙ found), has)
  ]

  remove-Holds :
      (id j : ℕ) (event : Event) (s s' : State Event)
      → (j == id) ≡ false
      → s'.entries ≡ remove j s.entries
      → Holds id event s
      → Holds id event s'
  remove-Holds id j event s s' t q (e, found, has) =
      (e, rw q (lookup-remove id j s.entries t ∙ found), has)

  removed_or_disposed :
      (id j : ℕ) (event : Event) (s s' : State Event)
      → s'.entries ≡ remove j s.entries
      → Holds id event s
      → Holds id event s' ⊎ (j ≡ id)
  removed_or_disposed id j event s s' q h = elim (Bool-cases (j == id)) [
    | inl t ↦ inr ((==_iff j id).0 t)
    | inr t ↦ inl (remove-Holds id j event s s' t q h)
  ]

  drop_permit-Holds :
      (id j : ℕ) (event : Event) (s : State Event)
      → Holds id event s
      → Holds id event (drop_permit j s)
  unfolding drop_permit
  drop_permit-Holds id j event s (e, found, has) =
      elim (Bool-cases (is_some_and (lookup j s.entries) (λ e. not (is_some e.event)))) [
        | inl q ↦ elim (Bool-cases (j == id)) [
          | inl t ↦
              let own : j ≡ id = (==_iff j id).0 t in
              let vacant : not (is_some e.event) ≡ true = rw found at (rw own at q) in
              let clash : not (is_some (some event)) ≡ true = rw has at vacant in cc
          | inr t ↦ rw q (
              remove-Holds id j event s (record s { entries = remove j s.entries }) t refl
                (e, found, has))
        ]
        | inr q ↦ rw q (e, found, has)
      ]

  take_work-Holds :
      (id now : ℕ) (o : Option (ℕ × Entry Event)) (event : Event) (s : State Event)
      → Holds id event s
      → Holds id event (take_work now o s).1
  take_work-Holds id now none event s h = h
  take_work-Holds id now (some (j, d)) event s h =
      update-Holds id j event (λ v. record v { busy = true }) s (take_work now (some (j, d)) s).1
        (λ e _ has. has) refl h

  pick-Holds :
      (id now : ℕ) (event : Event) (s : State Event)
      → Holds id event s
      → Holds id event (pick now s).1
  unfolding pick
  pick-Holds id now event s held = held_either s.stopped
    where
      held_either :
          (stopped : Bool)
          → Holds id event
              (if stopped then (none, s) else take_work now (find (is_due now) s.entries) s).1
      held_either true = held
      held_either false = take_work-Holds id now (find (is_due now) s.entries) event s held

  submit-Holds :
      (id j : ℕ) (same_queue : Bool) (bytes now : ℕ) (event other : Event) (s s' : State Event)
      → submit same_queue bytes now j other s ≡ ok s'
      → Holds id event s
      → Holds id event s'
  submit-Holds id j same_queue bytes now event other s s' h held =
      let (d, found, vacant, w) = submit_inv same_queue bytes now j other s s' h in
      update-Holds id j event (λ e. record e { event = some other; queued = some now; next = now })
        s s'
        (λ e at has.
          let same : e ≡ d = some_entry_injective (sym at ∙ found) in
          let clash : is_some (some event) ≡ false =
            rw has at (subst (λ (v : Entry Event). is_some v.event ≡ false) (sym same) vacant) in
          cc)
        (ap {A = State Event} (λ t. t.entries) w) held

  delivered-Holds :
      (settings : Settings) (id now j : ℕ) (answer : Result DeliveryError (Unit {0}))
      (event : Event) (s : State Event)
      → Holds id event s
      → Holds id event (delivered now j answer s)
        ⊎ Disposes {settings = settings} id (delivers now j answer s)
  unfolding delivered
  delivered-Holds settings id now j (ok done) event s h =
      removed_or_disposed id j event s (delivered now j (ok done) s) refl h
  delivered-Holds settings id now j (err (retry status)) event s h = inl (
      update-Holds id j event (retried now j) s (delivered now j (err (retry status)) s)
        (λ e _ has. has) refl h)
  delivered-Holds settings id now j (err (permanent status)) event s h =
      removed_or_disposed id j event s (delivered now j (err (permanent status)) s) refl h

  Turn-Holds :
      {settings : Settings} {s s' : State Event} (id : ℕ) (event : Event) (t : Turn settings s s')
      → Holds id event s
      → Holds id event s' ⊎ Disposes id t
  unfolding begin_drain stop_workers
  Turn-Holds {settings} id event (reserves now j s s' h) (e, found, has) =
      let (_, w) = reserve_inv settings now j s s' h in
      inl (
        e,
        ap {A = State Event} (λ t. lookup id t.entries) w
            ∙ lookup-push_back id (s.sequence + 1, slot now) s.entries e found,
        has,
      )
  Turn-Holds id event (submits same_queue bytes now j other s s' h) held =
      inl (submit-Holds id j same_queue bytes now event other s s' h held)
  Turn-Holds id event (drops j s) held = inl (drop_permit-Holds id j event s held)
  Turn-Holds id event (drains s) (e, found, has) = inl (e, found, has)
  Turn-Holds id event (stops s) (e, found, has) = inl (e, found, has)
  Turn-Holds id event (picks now s) held = inl (pick-Holds id now event s held)
  Turn-Holds {settings} id event (delivers now j answer s) held =
      delivered-Holds settings id now j answer event s held

  Turns-Holds :
      {settings : Settings} {s s' : State Event} (id : ℕ) (event : Event) (ts : Turns settings s s')
      → Holds id event s
      → Holds id event s' ⊎ DisposedIn id ts
  Turns-Holds id event halt held = inl held
  Turns-Holds id event (turn t ts) held = elim (Turn-Holds id event t held) [
    | inl kept ↦ elim (Turns-Holds id event ts kept) [ inl h ↦ inl h | inr d ↦ inr (inr d) ]
    | inr d ↦ inr (inl d)
  ]

-- Behind an accepted submission, at the end of any history of the outbox: it still holds the event
-- under the permit's ID, or an answer that was a success or a permanent failure has come for it.
pub submit_kept :
    (Event : Type 0) (settings : Settings) (same_queue : Bool) (bytes now id : ℕ) (event : Event)
    (s s' s'' : State Event)
    → submit same_queue bytes now id event s ≡ ok s'
    → (ts : Turns settings s' s'') → Holds id event s'' ⊎ DisposedIn id ts
submit_kept Event settings same_queue bytes now id event s s' s'' h ts =
    let (e, found, _, w) = submit_inv same_queue bytes now id event s s' h in
    let filled : Entry Event = record e { event = some event; queued = some now; next = now } in
    let held : Holds id event s' = (
      filled,
      ap {A = State Event} (λ t. lookup id t.entries) w
          ∙ lookup-update_same id
              (λ e. record e { event = some event; queued = some now; next = now }) s.entries e
              found,
      refl,
    ) in
    Turns-Holds id event ts held
