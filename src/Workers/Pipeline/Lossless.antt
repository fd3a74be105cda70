-- ===== src/Workers/Pipeline/Lossless.antt =====
-- No delivery is lost between the workers.
use relay_webhooks.Platform.Storage.{Storage}
use relay_webhooks.Platform.Redis.{Redis}
use relay_webhooks.Infra.Streams.{read_deliveries, claim_stale_deliveries}
use relay_webhooks.Services.Attempt.{Outside}
use relay_webhooks.Settings.{Settings}
use relay_webhooks.Workers.Pipeline.Attempted.{RaisesItsOwn}
use relay_webhooks.Workers.Pipeline.Relaying.{relay-LosesNone}
use relay_webhooks.Workers.Pipeline.Restarting.{fire-LosesNone, replay-LosesNone}
use relay_webhooks.Workers.Pipeline.Sending.{NoneLost-moved, attempt-LosesNone}
use relay_webhooks.Workers.Pipeline.Settling.{process-LosesNone, handle-LosesNone, reap-LosesNone}
use relay_webhooks.Workers.Pipeline.Steps.{
  LosesNone, Step, pass_time, relayed, read, handle, claim, reap, fire, replayed, withdrawn,
  registered, updated, ingested, orphan, die_before_schedule, die_before_ack, Runs, here, next,
}
use relay_webhooks.Workers.Pipeline.Tracked.{
  Holds, tracked-Holds, read-Holds, claim-Holds, xadd-Holds,
}
use relay_webhooks.Workers.Pipeline.Withdrawing.{delete-LosesNone}
use relay_webhooks.Workers.Pipeline.Writing.{register-LosesNone, update-LosesNone, ingest-LosesNone}
use relay_webhooks.World.{World}

module _ ⦃σ : Storage⦄ ⦃ρ : Redis⦄ where
  LosesNone-Holds :
      (w : World) (s : ρ.Stream)
      → Holds w.stream s
      → LosesNone w
      → LosesNone (record w { stream = s })
  LosesNone-Holds w s holds =
      NoneLost-moved w.committed w.stream s w.retries w.retries
        (λ i. tracked-Holds w.stream s w.retries i holds)

module _ ⦃σ : Storage⦄ ⦃ρ : Redis⦄ (s : Settings) (o : Outside) (own : RaisesItsOwn o) where
  Step-LosesNone : (w w' : World) → Step s o w w' → LosesNone w → LosesNone w'
  unfolding read_deliveries claim_stale_deliveries
  Step-LosesNone w w' (pass_time later le) n = n
  Step-LosesNone w w' (relayed locked limit) n = relay-LosesNone w locked limit n
  Step-LosesNone w w' (read consumer count) n =
      LosesNone-Holds w _ (read-Holds w.stream consumer count) n
  Step-LosesNone w w' (handle m names) n = handle-LosesNone s o own w n m names
  Step-LosesNone w w' (claim consumer idle count) n =
      LosesNone-Holds w _ (claim-Holds w.stream consumer idle w.clock count) n
  Step-LosesNone w w' (reap m names) n = reap-LosesNone s o own w n m names
  Step-LosesNone w w' (fire limit) n = fire-LosesNone w n limit
  Step-LosesNone w w' (replayed i tenant_id) n = replay-LosesNone w n i tenant_id
  Step-LosesNone w w' (registered u secret tenant_id url types) n =
      register-LosesNone u w n secret tenant_id url types
  Step-LosesNone w w' (updated u k tenant_id url types status) n =
      update-LosesNone u w n k tenant_id url types status
  Step-LosesNone w w' (ingested race safe tenant_id event_type payload key correlation_id) n =
      ingest-LosesNone race safe w n tenant_id event_type payload key correlation_id
  Step-LosesNone w w' (withdrawn u k tenant_id) n = delete-LosesNone u w k tenant_id n
  Step-LosesNone w w' (orphan f) n = LosesNone-Holds w _ (xadd-Holds w.stream f) n
  Step-LosesNone w w' (die_before_schedule m f held names) n =
      attempt-LosesNone s o own w n m.delivery_id m.message_id f held names
  Step-LosesNone w w' (die_before_ack m f held names) n =
      process-LosesNone s o own w n m f held names

  -- Let each delivery that is still to be sent have a message that is not acknowledged or a retry
  -- that is scheduled, let rows stand under their ids, and let the event and the endpoint of each
  -- delivery be stored. Then so it is after any steps, in any order, of relays, dispatchers, reapers
  -- and schedulers, of requests that post events, replay deliveries, or register, update or delete
  -- endpoints, and of workers that die in or after an attempt, if the sender does not raise the
  -- domain's not-found error: no delivery is left that nothing would send.
  pub Runs-LosesNone : (w w' : World) → LosesNone w → Runs s o w w' → LosesNone w'
  Runs-LosesNone w w' n here = n
  Runs-LosesNone w w' n (next {u} {v} runs step) =
      Step-LosesNone u v step (Runs-LosesNone w u n runs)
