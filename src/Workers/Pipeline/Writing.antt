-- ===== src/Workers/Pipeline/Writing.antt =====
-- What the API writes of endpoints and events loses no delivery.
use relay_webhooks.Prelude.{
  ℕ, ◌==◌, ◌≡◌, ◌∙◌, refl, arith, Bool-cases, inl, inr, Option, Option-cases, none, some, String,
  List, str_eq, ◌&&◌, is_some,
}
use relay_webhooks.Prelude.Result.{
  Result, ok, err, idempotency_key_conflict, runtime_error, check-cases,
}
use relay_webhooks.Platform.Storage.{Storage}
use relay_webhooks.Platform.Redis.{Redis}
use relay_webhooks.Domain.Endpoints.{Endpoint, EndpointStatus}
use relay_webhooks.Domain.Records.{Event}
use relay_webhooks.Repositories.Endpoints as Repository
use relay_webhooks.Repositories.Events
use relay_webhooks.Repositories.Outbox
use relay_webhooks.Services.Endpoints.{
  Urls, of_tenant, check_given, validate_url, validate_event_types, register, update,
}
use relay_webhooks.Services.Ingest.{
  interleave, ingest, ingest_block, looked_up, insert_event, inserted, resolve, resolve_winner,
  finish_ingest,
}
use relay_webhooks.Workers.Pipeline.Safe.{
  Both, IsSafe, NoneLost-outbox, IsSafe-bind, IsSafe-gets, IsSafe-pure, IsSafe-raise,
  IsSafe-require, IsSafe-commit, LosesNone-with_uow,
}
use relay_webhooks.Workers.Pipeline.Steps.{NoneLost, LosesNone, RaceIsSafe}
use relay_webhooks.World.{World, Db, modify, with_uow, rollback, commit}

module _ ⦃σ : Storage⦄ ⦃ρ : Redis⦄ (db : Db) (s : ρ.Stream) (z : ρ.Retries)
    (n : NoneLost db s z) where
  -- An endpoint is written under its id, whether it is new or not.
  NoneLost-endpoint :
      (p : Endpoint) → NoneLost (record db { endpoints = σ.put Endpoint db.endpoints p.id p }) s z
  NoneLost-endpoint p = record {
    delivery_ids = n.delivery_ids;
    endpoint_ids = λ j q at_j. elim (Bool-cases (p.id == j)) [
      | inl same ↦ ground (arith, at_j, σ.get_put Endpoint db.endpoints p.id j p)
      | inr other ↦ n.endpoint_ids j q (rw (σ.get_put, other) at at_j)
    ];
    event_ids = n.event_ids;
    parents = λ i d at_i.
        let (event, (q, at_q)) = n.parents i d at_i in
        elim (Bool-cases (p.id == d.endpoint_id)) [
          | inl same ↦
              (event, (p, σ.get_put Endpoint db.endpoints p.id d.endpoint_id p ∙ rw same refl))
          | inr other ↦
              (event, (q, σ.get_put Endpoint db.endpoints p.id d.endpoint_id p ∙ rw other at_q))
        ];
    tracked = n.tracked;
  }

  NoneLost-event : (e : Event) → NoneLost (record db { events = σ.put Event db.events e.id e }) s z
  NoneLost-event e = record {
    delivery_ids = n.delivery_ids;
    endpoint_ids = n.endpoint_ids;
    event_ids = λ j x at_j. elim (Bool-cases (e.id == j)) [
      | inl same ↦ ground (arith, at_j, σ.get_put Event db.events e.id j e)
      | inr other ↦ n.event_ids j x (rw (σ.get_put, other) at at_j)
    ];
    parents = λ i d at_i.
        let ((x, at_x), endpoint) = n.parents i d at_i in
        elim (Bool-cases (e.id == d.event_id)) [
          | inl same ↦ ((e, σ.get_put Event db.events e.id d.event_id e ∙ rw same refl), endpoint)
          | inr other ↦ ((x, σ.get_put Event db.events e.id d.event_id e ∙ rw other at_x), endpoint)
        ];
    tracked = n.tracked;
  }

module _ ⦃σ : Storage⦄ ⦃ρ : Redis⦄ (u : Urls) (w : World) (n : LosesNone w) where
  pub register-LosesNone :
      (secret : String) (tenant_id : ℕ) (url : String) (types : List String)
      → LosesNone (register u secret tenant_id url types w).1
  unfolding register with_uow rollback commit Repository.create Repository.save Repository.write
  register-LosesNone secret tenant_id url types = elim (check-cases (validate_url u url)) [
    | inr (x, bad) ↦ rw bad n
    | inl good ↦ elim (check-cases (validate_event_types u types)) [
      | inr (x, bad) ↦ rw (good, bad) n
      | inl fine ↦ rw (good, fine) (NoneLost-endpoint w.committed w.stream w.retries n _)
    ]
  ]

  updated :
      (k tenant_id : ℕ) (url : Option String) (types : Option (List String))
      (status : Option EndpointStatus)
      → check_given (validate_url u) url ≡ ok tt
      → check_given (validate_event_types u) types ≡ ok tt
      → LosesNone (update u k tenant_id url types status w).1
  unfolding update with_uow rollback commit Repository.get Repository.update Repository.save
      Repository.write
  updated k tenant_id url types status good fine =
      elim (Option-cases (σ.get Endpoint w.committed.endpoints k)) [
        | inl gone ↦ rw (good, fine, gone) n
        | inr (p, found) ↦ elim (Option-cases (of_tenant tenant_id (some p))) [
          | inl foreign ↦ rw (good, fine, found, foreign) n
          | inr (q, own) ↦
              rw (good, fine, found, own, found)
                (NoneLost-endpoint w.committed w.stream w.retries n _)
        ]
      ]

  pub update-LosesNone :
      (k tenant_id : ℕ) (url : Option String) (types : Option (List String))
      (status : Option EndpointStatus)
      → LosesNone (update u k tenant_id url types status w).1
  unfolding update
  update-LosesNone k tenant_id url types status =
      elim (check-cases (check_given (validate_url u) url)) [
        | inr (x, bad) ↦ rw bad n
        | inl good ↦ elim (check-cases (check_given (validate_event_types u) types)) [
          | inr (x, bad) ↦ rw (good, bad) n
          | inl fine ↦ updated k tenant_id url types status good fine
        ]
      ]

module _ ⦃σ : Storage⦄ ⦃ρ : Redis⦄ where
  resolve-IsSafe : (e : Event) (event_type payload : String) → IsSafe (resolve e event_type payload)
  unfolding resolve
  resolve-IsSafe e event_type payload =
      elim (Bool-cases (str_eq e.type event_type && str_eq e.payload payload)) [
        | inl same ↦ record { keeps = λ w b. rw same b }
        | inr other ↦ record { keeps = λ w b. rw other b }
      ]

  finish-IsSafe : (e : Event) → IsSafe (finish_ingest e)
  unfolding finish_ingest Outbox.create Outbox.write
  finish-IsSafe e =
      IsSafe-bind (Outbox.create e.id) _
        (record { keeps = λ w b. (b.0, NoneLost-outbox w.session w.stream w.retries _ b.1) })
        λ entry. IsSafe-bind _ _ IsSafe-commit λ done. IsSafe-pure e

  winner-IsSafe :
      (tenant_id : ℕ) (event_type payload key : String)
      → IsSafe (resolve_winner tenant_id event_type payload key)
  unfolding resolve_winner Events.get_by_idempotency_key
  winner-IsSafe tenant_id event_type payload key = IsSafe-bind _ _ (IsSafe-gets _) λ found.
      IsSafe-bind _ _ (IsSafe-require runtime_error found)
        λ winner. resolve-IsSafe winner event_type payload

  inserted-IsSafe :
      (tenant_id : ℕ) (event_type payload key : String) (r : Result Event)
      → IsSafe (inserted tenant_id event_type payload key r)
  unfolding inserted
  inserted-IsSafe tenant_id event_type payload key (ok e) = finish-IsSafe e
  inserted-IsSafe tenant_id event_type payload key (err idempotency_key_conflict) =
      winner-IsSafe tenant_id event_type payload key
  inserted-IsSafe tenant_id event_type payload key (err x) = IsSafe-raise x

  created-Both :
      (tenant_id : ℕ) (event_type payload key : String) (correlation_id : Option String) (w : World)
      → Both w
      → Both (Events.create tenant_id event_type payload key correlation_id w).1
  unfolding Events.create Events.write
  created-Both tenant_id event_type payload key correlation_id w b =
      elim (Bool-cases (is_some (Events.find_key w tenant_id key))) [
        | inl taken ↦ rw taken b
        | inr free ↦ rw free (b.0, NoneLost-event w.session w.stream w.retries b.1 _)
      ]

  insert-IsSafe :
      (tenant_id : ℕ) (event_type payload key : String) (correlation_id : Option String)
      → IsSafe (insert_event tenant_id event_type payload key correlation_id)
  unfolding insert_event
  insert-IsSafe tenant_id event_type payload key correlation_id = record {
    keeps = λ w b.
        let r = Events.create tenant_id event_type payload key correlation_id w in
        (inserted-IsSafe tenant_id event_type payload key r.0).keeps r.1
          (created-Both tenant_id event_type payload key correlation_id w b);
  }

module _ ⦃σ : Storage⦄ ⦃ρ : Redis⦄ (race : Db → Db) (safe : RaceIsSafe race) where
  looked_up-IsSafe :
      (tenant_id : ℕ) (event_type payload key : String) (correlation_id : Option String)
      (existing : Option Event)
      → IsSafe (looked_up race tenant_id event_type payload key correlation_id existing)
  unfolding looked_up
  looked_up-IsSafe tenant_id event_type payload key correlation_id (some e) =
      resolve-IsSafe e event_type payload
  looked_up-IsSafe tenant_id event_type payload key correlation_id none =
      IsSafe-bind (modify (interleave race)) _
        (record {
          keeps = λ w b.
              (safe w.committed w.stream w.retries b.0, safe w.session w.stream w.retries b.1);
        })
        λ done. insert-IsSafe tenant_id event_type payload key correlation_id

  pub ingest-LosesNone :
      (w : World)
      → LosesNone w
      → (tenant_id : ℕ) (event_type payload key : String) (correlation_id : Option String)
      → LosesNone (ingest race tenant_id event_type payload key correlation_id w).1
  unfolding ingest ingest_block Events.get_by_idempotency_key
  ingest-LosesNone w n tenant_id event_type payload key correlation_id =
      LosesNone-with_uow _ w
        (IsSafe-bind _ _ (IsSafe-gets _)
          (looked_up-IsSafe tenant_id event_type payload key correlation_id))
        n
