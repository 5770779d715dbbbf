-- ===== src/Gateway/Outbox/Turns.antt =====
-- Histories of the outbox: the operations of requests and of the delivery threads in any order.
use xscope.Prelude.{
  ℕ, ◌+◌, ◌*◌, ◌<◌, not, leb, ltb, length, is_some, refuse-eq-ok, ok_or-eq-ok, ◌≡◌, refl, Bool,
  false, some, List, [], ◌∷◌, Result, ok, ◌==◌, arith,
}
use xscope.Gateway.Outbox.{
  Settings, Entry, State, DeliveryError, reserve, submit, drop_permit, begin_drain, stop_workers,
  ready, slot, max_u64, not_ready, sequence_exhausted, foreign_permit, too_large, missing_permit,
  submitted_before, pick, delivered, lookup, remove, update, push_back,
}

-- One operation under the lock. An answer to a delivery may come at any time.
pub data Turn {Event : Type 0} (settings : Settings) : State Event → State Event → Type 0 where
  reserves :
      (now id : ℕ) (s s' : State Event) → reserve settings now s ≡ ok (id, s') → Turn settings s s'
  submits :
      (same_queue : Bool) (bytes now id : ℕ) (event : Event) (s s' : State Event)
      → submit same_queue bytes now id event s ≡ ok s'
      → Turn settings s s'
  drops : (id : ℕ) (s : State Event) → Turn settings s (drop_permit id s)
  drains : (s : State Event) → Turn settings s (begin_drain s)
  stops : (s : State Event) → Turn settings s (stop_workers s).1
  picks : (now : ℕ) (s : State Event) → Turn settings s (pick now s).1
  delivers :
      (now id : ℕ) (answer : Result DeliveryError (Unit {0})) (s : State Event)
      → Turn settings s (delivered now id answer s)

pub data Turns {Event : Type 0} (settings : Settings) : State Event → State Event → Type 0 where
  halt : {s : State Event} → Turns settings s s
  turn : {s t u : State Event} → Turn settings s t → Turns settings t u → Turns settings s u

module _ {Event : Type 0} where
  pub lookup-remove :
      (id j : ℕ) (es : List (ℕ × Entry Event))
      → (j == id) ≡ false
      → lookup id (remove j es) ≡ lookup id es
  lookup-remove id j [] h = refl
  lookup-remove id j ((i, e) ∷ es) h = ground (arith, lookup-remove id j es h)

  pub lookup-update :
      (id j : ℕ) (f : Entry Event → Entry Event) (es : List (ℕ × Entry Event))
      → (j == id) ≡ false
      → lookup id (update j f es) ≡ lookup id es
  lookup-update id j f [] h = refl
  lookup-update id j f ((i, e) ∷ es) h = ground (arith, lookup-update id j f es h)

  pub lookup-update_same :
      (id : ℕ) (f : Entry Event → Entry Event) (es : List (ℕ × Entry Event)) (e : Entry Event)
      → lookup id es ≡ some e
      → lookup id (update id f es) ≡ some (f e)
  lookup-update_same id f [] e h = cc
  lookup-update_same id f ((i, d) ∷ es) e h = ground (arith, lookup-update_same id f es e)

  pub lookup-push_back :
      (id : ℕ) (new : ℕ × Entry Event) (es : List (ℕ × Entry Event)) (e : Entry Event)
      → lookup id es ≡ some e
      → lookup id (push_back new es) ≡ some e
  lookup-push_back id new [] e h = cc
  lookup-push_back id new ((i, d) ∷ es) e h = ground (arith, lookup-push_back id new es e)

  -- What a permit and an accepted submission came from.
  pub reserve_inv :
      (settings : Settings) (now id : ℕ) (s s' : State Event)
      → reserve settings now s ≡ ok (id, s')
      → (length s.entries < settings.capacity)
        × (s' ≡ record s {
          sequence = s.sequence + 1;
          entries = push_back (s.sequence + 1, slot now) s.entries;
        })
  unfolding reserve ready
  reserve_inv settings now id s s' h =
      let (free, h1) = refuse-eq-ok (not (ready settings now s)) not_ready _ h in
      let (_, h2) = refuse-eq-ok (leb max_u64 s.sequence) sequence_exhausted _ h1 in
      (ground arith, cc)

  pub submit_inv :
      (same_queue : Bool) (bytes now id : ℕ) (event : Event) (s s' : State Event)
      → submit same_queue bytes now id event s ≡ ok s'
      → (e : Entry Event) × (lookup id s.entries ≡ some e)
        × (is_some e.event ≡ false)
        × (s' ≡ record s {
          entries =
              update id
                (λ e. record e { event = some event; queued = some now; next = now })
                s.entries;
        })
  unfolding submit
  submit_inv same_queue bytes now id event s s' h =
      let (_, h1) = refuse-eq-ok (not same_queue) foreign_permit _ h in
      let (_, h2) = refuse-eq-ok (ltb (32 * 1024) bytes) too_large _ h1 in
      let (e, found, h3) = ok_or-eq-ok (lookup id s.entries) missing_permit _ h2 in
      let (vacant, h4) = refuse-eq-ok (is_some e.event) submitted_before _ h3 in
      (e, found, vacant, cc)
