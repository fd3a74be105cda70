-- ===== src/Examples/Pipeline.antt =====
-- A dispatcher handles a message, an event is posted, a relay and a scheduler run, and an endpoint
-- is deleted.
use relay_webhooks.Prelude.{
  ◌≡◌, refl, ap, ℕ, zero, suc, some, some-injective, [], ◌∷◌, false, none, subst, inl, inr, sym,
}
use relay_webhooks.Domain.Deliveries.{Delivery, DeliveryState}
use relay_webhooks.Domain.Endpoints.{Endpoint, closed}
use relay_webhooks.Domain.Records.{Event}
use relay_webhooks.Infra.Streams.{DeliveryMessage}
use relay_webhooks.Platform.Redis.{StreamFields, unacked}
use relay_webhooks.Settings.{default_settings}
use relay_webhooks.Services.Endpoints.{Urls, delete}
use relay_webhooks.Services.Ingest.{ingest}
use relay_webhooks.Workers.Dispatcher.{handle_and_ack}
use relay_webhooks.Workers.Pipeline.Attempted.{RaisesItsOwn}
use relay_webhooks.Workers.Pipeline.Lossless.{Runs-LosesNone}
use relay_webhooks.Workers.Pipeline.Steps.{
  LosesNone, HasParents, here, next, handle, ingested, relayed, fire, withdrawn,
}
use relay_webhooks.Workers.Pipeline.Tracked.{NamesOnly, on_stream}
use relay_webhooks.Workers.Relay as RelayWorker
use relay_webhooks.Workers.Scheduler as SchedulerWorker
use relay_webhooks.World.{World}
use relay_webhooks.Examples.Tables.{list_storage}
use relay_webhooks.Examples.Queues.{list_redis}
use relay_webhooks.Examples.Worlds.{order_paid, endpoint_in, delivery_in, db_of, world_at, outside}

abbrev fields : StreamFields
fields = record { delivery_id = 0; correlation_id = some "trace" }

abbrev message : DeliveryMessage
message = record { message_id = 0; delivery_id = 0; correlation_id = some "trace" }

-- the dispatcher has read the message of the one delivery
abbrev busy : World
busy =
    let w = world_at 70_000_000 (db_of (endpoint_in closed) (delivery_in DeliveryState.pending)) in
    record w { stream = unacked fields ∷ [] }

delivery_id :
    (i : ℕ) (d : Delivery)
    → list_storage.get Delivery busy.committed.deliveries i ≡ some d
    → d.id ≡ i
delivery_id zero d h = ap (λ (d : Delivery). d.id) (sym (some-injective h))
delivery_id (suc i) d h = cc h

endpoint_id :
    (j : ℕ) (p : Endpoint)
    → list_storage.get Endpoint busy.committed.endpoints j ≡ some p
    → p.id ≡ j
endpoint_id zero p h = ap (λ (p : Endpoint). p.id) (sym (some-injective h))
endpoint_id (suc j) p h = cc h

event_id : (j : ℕ) (e : Event) → list_storage.get Event busy.committed.events j ≡ some e → e.id ≡ j
event_id zero e h = ap (λ (e : Event). e.id) (sym (some-injective h))
event_id (suc j) e h = cc h

parents :
    (i : ℕ) (d : Delivery)
    → list_storage.get Delivery busy.committed.deliveries i ≡ some d
    → HasParents busy.committed d
parents zero d h =
    subst (HasParents busy.committed) (some-injective h)
      ((order_paid, refl), (endpoint_in closed, refl))
parents (suc i) d h = cc h

place :
    (i : ℕ) (d : Delivery) → list_storage.get Delivery busy.committed.deliveries i ≡ some d → 0 ≡ i
place zero d h = refl
place (suc i) d h = cc h

busy-LosesNone : LosesNone busy
busy-LosesNone = record {
  delivery_ids = delivery_id;
  endpoint_ids = endpoint_id;
  event_ids = event_id;
  parents = parents;
  tracked = λ i d at_i live. on_stream 0 fields (inr refl) (place i d at_i);
}

own : RaisesItsOwn outside
own url payload headers h = cc h

names : NamesOnly busy.stream 0 0
names f (inl h) = cc h
names f (inr h) = cc h

abbrev urls : Urls
urls = record { scheme = λ url. "https"; netloc = λ url. url; strip = λ t. t }

abbrev handled : World
handled = (handle_and_ack default_settings outside message busy).1

abbrev ingested_after : World
ingested_after = (ingest (λ db. db) 0 "order.paid" "{}" "k2" none handled).1

abbrev relayed_after : World
relayed_after = (RelayWorker.run_once (λ k. false) 50 ingested_after).1

abbrev fired_after : World
fired_after = (SchedulerWorker.run_once 100 relayed_after).1

abbrev withdrawn_after : World
withdrawn_after = (delete urls 0 0 fired_after).1

Runs-LosesNone_example : LosesNone withdrawn_after
Runs-LosesNone_example =
    Runs-LosesNone default_settings outside own busy withdrawn_after busy-LosesNone (
      next
        (next
          (next
            (next (next here (handle message names))
              (ingested (λ db. db) (λ db s z n. n) 0 "order.paid" "{}" "k2" none))
            (relayed (λ k. false) 50))
          (fire 100))
        (withdrawn urls 0 0))
