-- ===== src/Workers/Relay/Batch.antt =====
-- A batch of the outbox relay, from the claim to the one commit.
use relay_webhooks.Prelude.{
  ℕ, ◌≤◌, ◌≡◌, ◌∙◌, refl, ap, sym, subst, length-take-le, Bool, Option, some, some-injective, none,
  List, [], ◌∷◌, All, map-All, All-of_map, length-map, All-map, length, map,
}
use relay_webhooks.Prelude.Result.{ok, Result}
use relay_webhooks.Platform.Storage.{Storage}
use relay_webhooks.Platform.Storage.Laws.{get-put_eq}
use relay_webhooks.Platform.Redis.{Redis}
use relay_webhooks.Domain.Records.{Event, OutboxEntry}
use relay_webhooks.World.{World, with_uow, rollback, commit}
use relay_webhooks.Repositories.Outbox
use relay_webhooks.Repositories.Outbox.{due, claimed, claim_due}
use relay_webhooks.Workers.Relay.{fan_out, process_entry, process_all, run_once}
use relay_webhooks.Workers.Relay.Claims.{
  OutboxIsKeyed, due-IsStored, claimed_table, with_outbox, claim_all_lem, claims-done,
}
use relay_webhooks.Workers.Relay.FanOut.{IsServed, fan_out_serves}
use relay_webhooks.Workers.Relay.Keeps.{
  marked, listeners, Keeps, Keeps-refl, Keeps-trans, fanned, fanned-Keeps, process_entry_lem,
  IsPresent, IsPresent-later, IsFannedOut, IsMarked, IsMarked-later, write-Keeps, IsFannedOut-moved,
  IsFannedOut-later,
}

module _ ⦃σ : Storage⦄ ⦃ρ : Redis⦄ where
  IsFannedOut-found :
      (w : World) (entry : OutboxEntry) (found : Option Event)
      → σ.get Event w.session.events entry.event_id ≡ found
      → IsFannedOut w (fanned w found) entry
  unfolding fanned
  IsFannedOut-found w entry none is_found event is_event = absurd (cc (is_found, is_event))
  IsFannedOut-found w entry (some event) is_found event' is_event =
      let same : event ≡ event' = some-injective (sym is_found ∙ is_event) in
      subst
        (λ (e : Event). All (IsServed e (fan_out event (listeners w event) w).1) (listeners w e))
        same (fan_out_serves event (listeners w event) w).1

  fanned-committed : (w : World) (found : Option Event) → (fanned w found).committed ≡ w.committed
  unfolding fanned
  fanned-committed w none = refl
  fanned-committed w (some event) = (fan_out_serves event (listeners w event) w).2.same_committed

  -- what the entries of a batch have at the end of its loop
  abbrev IsHandled : World → World → OutboxEntry → Type 0
  IsHandled w w' entry = IsMarked w' entry × IsFannedOut w w' entry

  abbrev Handles : World → Result (Unit {0}) × World → List OutboxEntry → Type 0
  Handles w r es =
      (r.0 ≡ ok tt) × Keeps w r.1 × All (IsHandled w r.1) es × (r.1.committed ≡ w.committed)

  entry-Handles :
      (w : World) (entry : OutboxEntry)
      → IsPresent w entry
      → Handles w (process_entry entry w) (entry ∷ [])
  unfolding Outbox.write
  entry-Handles w entry present =
      let found = σ.get Event w.session.events entry.event_id in
      let u = fanned w found in
      let x = fanned-Keeps w found in
      let (e, at_e, same) = IsPresent-later w u x entry present in
      let ids = ap (λ (o : OutboxEntry). o.id) same in
      let y = write-Keeps u e (ap (σ.get OutboxEntry u.session.outbox) ids ∙ at_e) in
      subst (λ (r : Result (Unit {0}) × World). Handles w r (entry ∷ []))
        (sym (process_entry_lem w entry e found refl at_e))
        (
          refl,
          Keeps-trans w u (Outbox.write (marked e) u) x y,
          (
            (
              get-put_eq u.session.outbox e.id entry.id (marked e) ids ∙ ap some same,
              IsFannedOut-later w u (Outbox.write (marked e) u) y entry
                  (IsFannedOut-found w entry found refl),
            ),
            tt,
          ),
          fanned-committed w found,
        )

  process_all-cons :
      (entry : OutboxEntry) (es : List OutboxEntry) (w : World)
      → (process_entry entry w).0 ≡ ok tt
      → process_all (entry ∷ es) w ≡ process_all es (process_entry entry w).1
  unfolding process_all
  process_all-cons entry es w h = rw h refl

  IsHandled-later :
      (w u v : World)
      → Keeps u v
      → (entry : OutboxEntry) → IsHandled w u entry
      → IsHandled w v entry
  IsHandled-later w u v x entry h =
      (IsMarked-later u v x entry h.0, IsFannedOut-later w u v x entry h.1)

  All-Handles :
      (es : List OutboxEntry) (w : World) → All (IsPresent w) es → Handles w (process_all es w) es
  unfolding process_all
  All-Handles [] w present = (refl, Keeps-refl w, tt, refl)
  All-Handles (entry ∷ es) w present =
      let u = (process_entry entry w).1 in
      let (returns, x, handled, kept) = entry-Handles w entry present.0 in
      let (returns', y, handled', kept') =
        All-Handles es u (All-map (IsPresent-later w u x) es present.1) in
      let v = (process_all es u).1 in
      subst (λ (r : Result (Unit {0}) × World). Handles w r (entry ∷ es))
        (sym (process_all-cons entry es w returns))
        (
          returns',
          Keeps-trans w u v x y,
          (
            IsHandled-later w u v y entry handled.0,
            All-map (λ e h. (h.0, IsFannedOut-moved w u v x e h.1)) es handled',
          ),
          kept' ∙ kept,
        )

module _ ⦃σ : Storage⦄ ⦃ρ : Redis⦄ (locked : ℕ → Bool) (limit : ℕ) (w : World) where
  -- the unit of work at its start, and the entries that it claims
  abbrev pub opened : World
  opened = record w { session = w.committed }

  abbrev pub batch : List OutboxEntry
  batch = due locked limit opened

  -- The entry is processed in the committed table, and each listener of its event has a committed
  -- delivery and an unread message.
  abbrev pub IsProcessed : World → OutboxEntry → Type 0
  IsProcessed w' e =
      (σ.get OutboxEntry w'.committed.outbox e.id ≡ some (marked (claimed w.clock e)))
      × IsFannedOut opened w' e

  claimed_world : World
  claimed_world = with_outbox (claimed_table w.clock batch opened.session.outbox) opened

  claims : List OutboxEntry
  claims = map (claimed w.clock) batch

  claims-IsPresent : OutboxIsKeyed w.committed.outbox → All (IsPresent claimed_world) claims
  unfolding claims claimed_world claimed
  claims-IsPresent keyed = map-All (claimed w.clock) (IsPresent claimed_world) batch (
      All-map (λ e h. (claimed w.clock e, h, refl)) batch
        (claims-done w.clock opened.session.outbox batch opened.session.outbox
          (due-IsStored locked limit opened keyed)))

  length-due : length batch ≤ limit
  unfolding due
  length-due = length-take-le limit _

  run_once_lem :
      (r : Result (Unit {0}) × World)
      → process_all claims claimed_world ≡ r
      → r.0 ≡ ok tt
      → run_once locked limit w
        ≡ (ok (length claims), record r.1 { committed = r.1.session; session = r.1.session })
  unfolding run_once claim_due with_uow rollback commit claims claimed_world
  run_once_lem r ran returns = rw (claim_all_lem w.clock batch opened, ran, returns) refl

  -- A batch raises nothing, whether rows are locked by others or not, where each entry stands under
  -- its own id: it returns how many entries were due, and in one commit each of them, at most the
  -- limit, is processed, with a new pending delivery and an unread message for every active
  -- endpoint of the tenant that listens to the event, if the event is stored.
  pub run_once_processes :
      OutboxIsKeyed w.committed.outbox
      → let r = run_once locked limit w in
        (r.0 ≡ ok (length batch)) × (length batch ≤ limit) × All (IsProcessed r.1) batch
  unfolding claims claimed claimed_world
  run_once_processes keyed =
      let (returns, kept, handled, same) =
        All-Handles claims claimed_world (claims-IsPresent keyed) in
      let v = (process_all claims claimed_world).1 in
      rw (run_once_lem (process_all claims claimed_world) refl returns) (
        ap ok (length-map (claimed w.clock) batch),
        length-due,
        All-map (λ e h. h) batch
            (All-of_map (claimed w.clock) (IsHandled claimed_world v) batch handled),
      )
