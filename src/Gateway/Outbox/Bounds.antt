-- ===== src/Gateway/Outbox/Bounds.antt =====
-- The number of entries and their IDs, over histories of the outbox.
use xscope.Prelude.{
  ℕ, suc, ◌+◌, ◌≤◌, ◌<◌, ◌≡◌, refl, ap, find, true, not, Bool-cases, inl, inr, Option, none, some,
  List, [], ◌∷◌, Result, ok, err, ◌==◌, arith, length, is_some, is_some_and, Bool, false,
  if◌then◌else◌,
}
use xscope.Gateway.Outbox.{
  Settings, Entry, State, DeliveryError, retry, permanent, reserve, drop_permit, begin_drain,
  stop_workers, pick, take_work, is_due, retried, delivered, lookup, remove, update, push_back,
  slot, empty,
}
use xscope.Gateway.Outbox.Turns.{
  Turn, reserves, submits, drops, drains, stops, picks, delivers, Turns, halt, turn, reserve_inv,
  submit_inv,
}

module _ {Event : Type 0} where
  -- The IDs rise along the map, and the last one is at most `top`.
  abbrev pub Rising : ℕ → ℕ → List (ℕ × Entry Event) → Type 0
  Rising low top [] = low ≤ top
  Rising low top ((i, e) ∷ es) = (low < i) × Rising i top es

  pub record IsBounded (settings : Settings) (s : State Event) : Type 0 where
    pub within : length s.entries ≤ settings.capacity
    pub rising : Rising 0 s.sequence s.entries

  length-push_back :
      (new : ℕ × Entry Event) (es : List (ℕ × Entry Event))
      → length (push_back new es) ≡ suc (length es)
  length-push_back new [] = refl
  length-push_back new (e ∷ es) = omega (arith, length-push_back new es)

  length-update :
      (id : ℕ) (f : Entry Event → Entry Event) (es : List (ℕ × Entry Event))
      → length (update id f es) ≡ length es
  length-update id f [] = refl
  length-update id f ((i, e) ∷ es) = ground (arith, length-update id f es)

  length-remove : (id : ℕ) (es : List (ℕ × Entry Event)) → length (remove id es) ≤ length es
  length-remove id [] = omega arith
  length-remove id ((i, e) ∷ es) = ground (arith, length-remove id es)

  Rising-push_back :
      (low top : ℕ) (e : Entry Event) (es : List (ℕ × Entry Event))
      → Rising low top es
      → Rising low (top + 1) (push_back (top + 1, e) es)
  Rising-push_back low top e [] h = (omega arith, omega arith)
  Rising-push_back low top e ((i, d) ∷ es) (lt, h) = (lt, Rising-push_back i top e es h)

  Rising-update :
      (low top id : ℕ) (f : Entry Event → Entry Event) (es : List (ℕ × Entry Event))
      → Rising low top es
      → Rising low top (update id f es)
  Rising-update low top id f [] h = h
  Rising-update low top id f ((i, e) ∷ es) (lt, h) = elim (Bool-cases (i == id)) [
    | inl q ↦ rw q (lt, h)
    | inr q ↦ rw q (lt, Rising-update i top id f es h)
  ]

  Rising-lower :
      (low low' top : ℕ) (es : List (ℕ × Entry Event))
      → low ≤ low'
      → Rising low' top es
      → Rising low top es
  Rising-lower low low' top [] le h = omega arith
  Rising-lower low low' top ((i, e) ∷ es) le (lt, h) = (omega arith, h)

  Rising-remove :
      (low top id : ℕ) (es : List (ℕ × Entry Event))
      → Rising low top es
      → Rising low top (remove id es)
  Rising-remove low top id [] h = h
  Rising-remove low top id ((i, e) ∷ es) (lt, h) = elim (Bool-cases (i == id)) [
    | inl q ↦ rw q (Rising-lower low i top es (omega arith) h)
    | inr q ↦ rw q (lt, Rising-remove i top id es h)
  ]

  module _ (settings : Settings) where
    updated :
        (id : ℕ) (f : Entry Event → Entry Event) (s s' : State Event)
        → s'.sequence ≡ s.sequence
        → s'.entries ≡ update id f s.entries
        → IsBounded settings s
        → IsBounded settings s'
    updated id f s s' p q b = record {
      within = rw (q, length-update id f s.entries) b.within;
      rising = rw (p, q) (Rising-update 0 s.sequence id f s.entries b.rising);
    }

    removed :
        (id : ℕ) (s s' : State Event)
        → s'.sequence ≡ s.sequence
        → s'.entries ≡ remove id s.entries
        → IsBounded settings s
        → IsBounded settings s'
    removed id s s' p q b = record {
      within = rw q (omega (arith, length-remove id s.entries, b.within));
      rising = rw (p, q) (Rising-remove 0 s.sequence id s.entries b.rising);
    }

    unchanged :
        (s s' : State Event)
        → s'.sequence ≡ s.sequence
        → s'.entries ≡ s.entries
        → IsBounded settings s
        → IsBounded settings s'
    unchanged s s' p q b = record { within = rw q b.within; rising = rw (p, q) b.rising }

    reserve-IsBounded :
        (now id : ℕ) (s s' : State Event)
        → reserve settings now s ≡ ok (id, s')
        → IsBounded settings s
        → IsBounded settings s'
    reserve-IsBounded now id s s' h b =
        let (room, e) = reserve_inv settings now id s s' h in
        rw e (record {
          within = omega (arith, length-push_back (s.sequence + 1, slot now) s.entries);
          rising = Rising-push_back 0 s.sequence (slot now) s.entries b.rising;
        })

    drop_permit-IsBounded :
        (id : ℕ) (s : State Event) → IsBounded settings s → IsBounded settings (drop_permit id s)
    unfolding drop_permit
    drop_permit-IsBounded id s b =
        elim (Bool-cases (is_some_and (lookup id s.entries) (λ e. not (is_some e.event)))) [
          | inl q ↦ rw q (removed id s (record s { entries = remove id s.entries }) refl refl b)
          | inr q ↦ rw q b
        ]

    take_work-IsBounded :
        (now : ℕ) (o : Option (ℕ × Entry Event)) (s : State Event)
        → IsBounded settings s
        → IsBounded settings (take_work now o s).1
    take_work-IsBounded now none s b = b
    take_work-IsBounded now (some (id, e)) s b =
        updated id (λ v. record v { busy = true }) s _ refl refl b

    pick-IsBounded :
        (now : ℕ) (s : State Event) → IsBounded settings s → IsBounded settings (pick now s).1
    unfolding pick
    pick-IsBounded now s b = bounded_either s.stopped
      where
        bounded_either :
            (stopped : Bool)
            → IsBounded settings
                (if stopped then (none, s) else take_work now (find (is_due now) s.entries) s).1
        bounded_either true = b
        bounded_either false = take_work-IsBounded now (find (is_due now) s.entries) s b

    delivered-IsBounded :
        (now id : ℕ) (answer : Result DeliveryError (Unit {0})) (s : State Event)
        → IsBounded settings s
        → IsBounded settings (delivered now id answer s)
    unfolding delivered
    delivered-IsBounded now id (ok _) s b = removed id s _ refl refl b
    delivered-IsBounded now id (err (retry _)) s b = updated id (retried now id) s _ refl refl b
    delivered-IsBounded now id (err (permanent status)) s b = removed id s _ refl refl b

    Turn-IsBounded :
        {s s' : State Event} → Turn settings s s' → IsBounded settings s → IsBounded settings s'
    unfolding begin_drain stop_workers
    Turn-IsBounded (reserves now id s s' h) b = reserve-IsBounded now id s s' h b
    Turn-IsBounded (submits same_queue bytes now id event s s' h) b =
        let (_, _, _, e) = submit_inv same_queue bytes now id event s s' h in
        updated id (λ e. record e { event = some event; queued = some now; next = now }) s s'
          (ap {A = State Event} (λ t. t.sequence) e) (ap {A = State Event} (λ t. t.entries) e) b
    Turn-IsBounded (drops id s) b = drop_permit-IsBounded id s b
    Turn-IsBounded (drains s) b = unchanged s _ refl refl b
    Turn-IsBounded (stops s) b = unchanged s _ refl refl b
    Turn-IsBounded (picks now s) b = pick-IsBounded now s b
    Turn-IsBounded (delivers now id answer s) b = delivered-IsBounded now id answer s b

    Turns-IsBounded :
        {s s' : State Event} → Turns settings s s' → IsBounded settings s → IsBounded settings s'
    Turns-IsBounded halt b = b
    Turns-IsBounded (turn t ts) b = Turns-IsBounded ts (Turn-IsBounded t b)

    empty-IsBounded : IsBounded settings empty
    empty-IsBounded = record { within = omega arith; rising = omega arith }

-- At the end of any history of the outbox from an empty one, there are at most as many entries as
-- its capacity, their IDs rise along the map, and none is above the last one given.
pub outbox-IsBounded :
    (Event : Type 0) (settings : Settings) (s : State Event)
    → Turns settings empty s
    → (length s.entries ≤ settings.capacity) × Rising 0 s.sequence s.entries
outbox-IsBounded Event settings s history =
    let b = Turns-IsBounded settings history (empty-IsBounded settings) in (b.within, b.rising)
