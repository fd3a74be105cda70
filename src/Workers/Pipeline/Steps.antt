-- ===== src/Workers/Pipeline/Steps.antt =====
-- The steps of the four workers, of requests to the API, and of a worker that dies, in any order. A step runs
-- from one wait for another process to the next; what dies with a worker is the rest of its step.
use relay_webhooks.Prelude.{ℕ, ◌≡◌, ◌≤◌, Bool, true, some, String, List, Option}
use relay_webhooks.Platform.Storage.{Storage}
use relay_webhooks.Platform.Redis.{Redis, StreamFields}
use relay_webhooks.Domain.Deliveries.{Delivery}
use relay_webhooks.Domain.Endpoints.{Endpoint, EndpointStatus}
use relay_webhooks.Domain.Records.{Event}
use relay_webhooks.Infra.Streams.{DeliveryMessage, read_deliveries, claim_stale_deliveries}
use relay_webhooks.Services.Attempt.{Outside, attempt}
use relay_webhooks.Services.Endpoints.{Urls, register, update, delete}
use relay_webhooks.Services.Ingest.{ingest}
use relay_webhooks.Services.Replay.{replay}
use relay_webhooks.Settings.{Settings}
use relay_webhooks.Workers.Dispatcher.{handle_and_ack, process_delivery_message}
use relay_webhooks.Workers.Reaper.{reprocess}
use relay_webhooks.Workers.Relay as RelayWorker
use relay_webhooks.Workers.Scheduler as SchedulerWorker
use relay_webhooks.Workers.Pipeline.Attempted.{is_open}
use relay_webhooks.Workers.Pipeline.Tracked.{IsTracked, IsOpen, NamesOnly}
use relay_webhooks.World.{World, Db}

module _ ⦃σ : Storage⦄ ⦃ρ : Redis⦄ where
  -- the event and the endpoint of a delivery, which its foreign keys name
  abbrev pub HasParents : Db → Delivery → Type 0
  HasParents db d =
      ((e : Event) × (σ.get Event db.events d.event_id ≡ some e))
      × ((p : Endpoint) × (σ.get Endpoint db.endpoints d.endpoint_id ≡ some p))

  -- Rows stand under their ids, foreign keys name rows, and each delivery that is still to be sent
  -- is tracked.
  pub record NoneLost (db : Db) (s : ρ.Stream) (z : ρ.Retries) : Type 0 where
    pub delivery_ids : (i : ℕ) (d : Delivery) → σ.get Delivery db.deliveries i ≡ some d → d.id ≡ i
    pub endpoint_ids : (j : ℕ) (p : Endpoint) → σ.get Endpoint db.endpoints j ≡ some p → p.id ≡ j
    pub event_ids : (j : ℕ) (e : Event) → σ.get Event db.events j ≡ some e → e.id ≡ j
    pub parents : (i : ℕ) (d : Delivery) → σ.get Delivery db.deliveries i ≡ some d → HasParents db d
    pub tracked :
        (i : ℕ) (d : Delivery)
        → σ.get Delivery db.deliveries i ≡ some d
        → is_open d.state ≡ true
        → IsTracked s z i

  abbrev pub LosesNone : World → Type 0
  LosesNone w = NoneLost w.committed w.stream w.retries

  -- What others commit during an ingest loses no delivery.
  abbrev pub RaceIsSafe : (Db → Db) → Type 0
  RaceIsSafe race =
      (db : Db) (s : ρ.Stream) (z : ρ.Retries) → NoneLost db s z → NoneLost (race db) s z

module _ ⦃σ : Storage⦄ ⦃ρ : Redis⦄ (s : Settings) (o : Outside) where
  pub data Step (w : World) : World → Type 0 where
    pass_time : (later : ℕ) → w.clock ≤ later → Step w (record w { clock = later })
    relayed : (locked : ℕ → Bool) (limit : ℕ) → Step w (RelayWorker.run_once locked limit w).1
    read : (consumer : String) (count : ℕ) → Step w (read_deliveries consumer count w).1
    handle :
        (m : DeliveryMessage)
        → NamesOnly w.stream m.message_id m.delivery_id
        → Step w (handle_and_ack s o m w).1
    claim :
        (consumer : String) (min_idle_ms count : ℕ)
        → Step w (claim_stale_deliveries consumer min_idle_ms count w).1
    reap :
        (m : DeliveryMessage)
        → NamesOnly w.stream m.message_id m.delivery_id
        → Step w (reprocess s o m w).1
    fire : (limit : ℕ) → Step w (SchedulerWorker.run_once limit w).1
    replayed : (delivery_id tenant_id : ℕ) → Step w (replay delivery_id tenant_id w).1
    -- requests: an endpoint is registered, updated or deleted, and an event is posted
    registered :
        (u : Urls) (secret : String) (tenant_id : ℕ) (url : String) (types : List String)
        → Step w (register u secret tenant_id url types w).1
    updated :
        (u : Urls) (endpoint_id tenant_id : ℕ) (url : Option String) (types : Option (List String))
        (status : Option EndpointStatus)
        → Step w (update u endpoint_id tenant_id url types status w).1
    withdrawn : (u : Urls) (endpoint_id tenant_id : ℕ) → Step w (delete u endpoint_id tenant_id w).1
    ingested :
        (race : Db → Db)
        → RaceIsSafe race
        → (tenant_id : ℕ) (event_type payload key : String) (correlation_id : Option String)
        → Step w (ingest race tenant_id event_type payload key correlation_id w).1
    -- a relay that dies before its commit leaves messages behind, which name no delivery
    orphan : (f : StreamFields) → Step w (record w { stream = (ρ.xadd w.stream f).1 })
    -- the worker dies between the commit of an attempt and the schedule of its retry
    die_before_schedule :
        (m : DeliveryMessage) (f : StreamFields)
        → IsOpen (ρ.message w.stream m.message_id) f
        → f.delivery_id ≡ m.delivery_id
        → Step w (attempt s o m.delivery_id w).1
    -- the worker dies between the schedule of the retry and the acknowledgement
    die_before_ack :
        (m : DeliveryMessage) (f : StreamFields)
        → IsOpen (ρ.message w.stream m.message_id) f
        → f.delivery_id ≡ m.delivery_id
        → Step w (process_delivery_message s o m.delivery_id m.correlation_id w).1

  pub data Runs (w : World) : World → Type 0 where
    here : Runs w w
    next : {u v : World} → Runs w u → Step u v → Runs w v
