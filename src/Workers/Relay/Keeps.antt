-- ===== src/Workers/Relay/Keeps.antt =====
-- What a batch of the outbox relay keeps from one entry to the next.
use relay_webhooks.Prelude.{
  ℕ, ◌==◌, ◌≡◌, ◌⊎◌, ◌∙◌, refl, ap, sym, subst, arith, Bool-cases, inl, inr, Option, some, none,
  List, All, All-map, filter_by, map,
}
use relay_webhooks.Prelude.Result.{ok}
use relay_webhooks.Platform.Storage.{Storage}
use relay_webhooks.Platform.Redis.{Redis, unread, StreamFields}
use relay_webhooks.Domain.Deliveries.{Delivery}
use relay_webhooks.Domain.Endpoints.{Endpoint}
use relay_webhooks.Domain.Records.{Event, OutboxEntry, processed}
use relay_webhooks.World.{World}
use relay_webhooks.Repositories.Endpoints
use relay_webhooks.Repositories.Events
use relay_webhooks.Repositories.Outbox
use relay_webhooks.Repositories.Outbox.{due, claimed}
use relay_webhooks.Workers.Relay.{fan_out, process_found, process_entry}
use relay_webhooks.Workers.Relay.FanOut.{IsServed, new_delivery, fields_of, Extends, fan_out_serves}

abbrev pub marked : OutboxEntry → OutboxEntry
marked e = record e { status = processed }

module _ ⦃σ : Storage⦄ ⦃ρ : Redis⦄ where
  -- the endpoints that listen to an event
  abbrev pub listeners : World → Event → List Endpoint
  listeners w event =
      filter_by (Endpoints.is_target event.tenant_id event.type) (Endpoints.all_rows w)

  -- What a batch keeps: rows and messages, entries up to their mark, the rest as it was.
  pub record Keeps (w w' : World) : Type 0 where
    pub rows :
        (i : ℕ) (d : Delivery)
        → σ.get Delivery w.session.deliveries i ≡ some d
        → σ.get Delivery w'.session.deliveries i ≡ some d
    pub messages :
        (k : ℕ) (f : StreamFields)
        → ρ.message w.stream k ≡ unread f
        → ρ.message w'.stream k ≡ unread f
    pub entries :
        (i : ℕ) (e : OutboxEntry)
        → σ.get OutboxEntry w.session.outbox i ≡ some e
        → (σ.get OutboxEntry w'.session.outbox i ≡ some e)
          ⊎ (σ.get OutboxEntry w'.session.outbox i ≡ some (marked e))
    pub same_clock : w'.clock ≡ w.clock
    pub same_events : w'.session.events ≡ w.session.events
    pub same_endpoints : w'.session.endpoints ≡ w.session.endpoints

  pub Keeps-refl : (w : World) → Keeps w w
  Keeps-refl w = record {
    rows = λ i d h. h;
    messages = λ k f h. h;
    entries = λ i e h. inl h;
    same_clock = refl;
    same_events = refl;
    same_endpoints = refl;
  }

  entries_trans :
      (u v w : World)
      → Keeps u v
      → Keeps v w
      → (i : ℕ) (e : OutboxEntry) → σ.get OutboxEntry u.session.outbox i ≡ some e
      → (σ.get OutboxEntry w.session.outbox i ≡ some e)
        ⊎ (σ.get OutboxEntry w.session.outbox i ≡ some (marked e))
  entries_trans u v w x y i e h = elim (x.entries i e h) [
    | inl same ↦ y.entries i e same
    | inr mark ↦ elim (y.entries i (marked e) mark) [ inl same ↦ inr same | inr again ↦ inr again ]
  ]

  pub Keeps-trans : (u v w : World) → Keeps u v → Keeps v w → Keeps u w
  Keeps-trans u v w x y = record {
    rows = λ i d h. y.rows i d (x.rows i d h);
    messages = λ k f h. y.messages k f (x.messages k f h);
    entries = entries_trans u v w x y;
    same_clock = y.same_clock ∙ x.same_clock;
    same_events = y.same_events ∙ x.same_events;
    same_endpoints = y.same_endpoints ∙ x.same_endpoints;
  }

  Keeps-of_Extends : (event : Event) (w w' : World) → Extends event w w' → Keeps w w'
  Keeps-of_Extends event w w' x = record {
    rows = x.rows;
    messages = x.messages;
    entries =
        λ i e h. inl (ap (λ (t : σ.Table OutboxEntry). σ.get OutboxEntry t i) x.same_outbox ∙ h);
    same_clock = x.same_clock;
    same_events = x.same_events;
    same_endpoints = x.same_endpoints;
  }

  -- the entry as it stands, and its mark
  pub write-Keeps :
      (w : World) (e : OutboxEntry)
      → σ.get OutboxEntry w.session.outbox e.id ≡ some e
      → Keeps w (Outbox.write (marked e) w)
  unfolding Outbox.write
  write-Keeps w e stored = record {
    rows = λ i d h. h;
    messages = λ k f h. h;
    entries = λ i x h. elim (Bool-cases (e.id == i)) [
      | inl same ↦
          inr (ground (arith, stored, σ.get_put OutboxEntry w.session.outbox e.id i (marked e)))
      | inr other ↦ inl (σ.get_put OutboxEntry w.session.outbox e.id i (marked e) ∙ rw other h)
    ];
    same_clock = refl;
    same_events = refl;
    same_endpoints = refl;
  }

  -- the world before the mark of an entry
  unfoldable pub fanned : World → Option Event → World
  fanned w none = w
  fanned w (some event) = (fan_out event (listeners w event) w).1

  pub fanned-Keeps : (w : World) (found : Option Event) → Keeps w (fanned w found)
  unfolding fanned
  fanned-Keeps w none = Keeps-refl w
  fanned-Keeps w (some event) =
      Keeps-of_Extends event w (fan_out event (listeners w event) w).1
        (fan_out_serves event (listeners w event) w).2

  mark_lem :
      (u : World) (i : ℕ) (e : OutboxEntry)
      → σ.get OutboxEntry u.session.outbox i ≡ some e
      → Outbox.mark_processed i u ≡ (ok tt, Outbox.write (marked e) u)
  unfolding Outbox.mark_processed Outbox.find
  mark_lem u i e h = rw h refl

  -- An entry is fanned out, then marked, whatever of its mark it has already.
  pub process_entry_lem :
      (w : World) (entry e : OutboxEntry) (found : Option Event)
      → σ.get Event w.session.events entry.event_id ≡ found
      → σ.get OutboxEntry (fanned w found).session.outbox entry.id ≡ some e
      → process_entry entry w ≡ (ok tt, Outbox.write (marked e) (fanned w found))
  unfolding process_entry process_found Events.get Endpoints.list_active_subscribed fanned
  process_entry_lem w entry e none is_found at_e = rw is_found (mark_lem w entry.id e at_e)
  process_entry_lem w entry e (some event) is_found at_e =
      rw (is_found, (fan_out_serves event (listeners w event) w).0)
        (mark_lem (fan_out event (listeners w event) w).1 entry.id e at_e)

  -- The entry stands in the table, with or without its mark.
  abbrev pub IsPresent : World → OutboxEntry → Type 0
  IsPresent w entry =
      (e : OutboxEntry) × (σ.get OutboxEntry w.session.outbox entry.id ≡ some e)
      × (marked e ≡ marked entry)

  pub IsPresent-later :
      (w w' : World) → Keeps w w' → (entry : OutboxEntry) → IsPresent w entry → IsPresent w' entry
  IsPresent-later w w' x entry (e, at_e, same) = elim (x.entries entry.id e at_e) [
    | inl still ↦ (e, still, same)
    | inr mark ↦ (marked e, mark, same)
  ]

  -- Each listener of the event, if it is stored, has its delivery and its message.
  abbrev pub IsFannedOut : World → World → OutboxEntry → Type 0
  IsFannedOut w0 w' entry =
      (event : Event)
      → σ.get Event w0.session.events entry.event_id ≡ some event
      → All (IsServed event w') (listeners w0 event)

  abbrev pub IsMarked : World → OutboxEntry → Type 0
  IsMarked w entry = σ.get OutboxEntry w.session.outbox entry.id ≡ some (marked entry)

  pub IsMarked-later :
      (w w' : World) → Keeps w w' → (entry : OutboxEntry) → IsMarked w entry → IsMarked w' entry
  IsMarked-later w w' x entry h = elim (x.entries entry.id (marked entry) h) [
    | inl still ↦ still
    | inr again ↦ again
  ]

  pub IsServed-later :
      (event : Event) (w w' : World)
      → Keeps w w'
      → (p : Endpoint) → IsServed event w p
      → IsServed event w' p
  IsServed-later event w w' x p (i, k, row, message) = (
    i,
    k,
    x.rows i (new_delivery event w.clock i p) row
        ∙ ap (λ t. some (new_delivery event t i p)) (sym x.same_clock),
    x.messages k (fields_of event i) message,
  )

  -- the listeners of an event, from the events and endpoints of an earlier world
  pub IsFannedOut-moved :
      (w0 w w' : World)
      → Keeps w0 w
      → (entry : OutboxEntry) → IsFannedOut w w' entry
      → IsFannedOut w0 w' entry
  IsFannedOut-moved w0 w w' x entry h event is_event =
      subst
        (λ (t : σ.Table Endpoint). All (IsServed event w') (
          filter_by (Endpoints.is_target event.tenant_id event.type)
            (map (λ (p : ℕ × Endpoint). p.1) (σ.rows Endpoint t))))
        x.same_endpoints
        (h event
          (ap (λ (t : σ.Table Event). σ.get Event t entry.event_id) x.same_events ∙ is_event))

  pub IsFannedOut-later :
      (w0 w w' : World)
      → Keeps w w'
      → (entry : OutboxEntry) → IsFannedOut w0 w entry
      → IsFannedOut w0 w' entry
  IsFannedOut-later w0 w w' x entry h event is_event =
      All-map (IsServed-later event w w' x) (listeners w0 event) (h event is_event)
