-- ===== src/Workers/Pipeline/Safe.antt =====
-- What a part of a unit of work keeps: that neither the committed tables nor those of the open
-- session lose a delivery.
use relay_webhooks.Prelude.{Option, none, some}
use relay_webhooks.Prelude.Result.{Error, Result, ok, err}
use relay_webhooks.Platform.Storage.{Storage}
use relay_webhooks.Platform.Redis.{Redis}
use relay_webhooks.Domain.Records.{OutboxEntry}
use relay_webhooks.Workers.Pipeline.Steps.{NoneLost, LosesNone}
use relay_webhooks.World.{
  World, Db, Exec, ◌>>=◌, resume, gets, pure, raise, require, commit, with_uow, rollback,
}

module _ ⦃σ : Storage⦄ ⦃ρ : Redis⦄ where
  -- of the committed tables and of those of the open session
  abbrev pub Both : World → Type 0
  Both w = NoneLost w.committed w.stream w.retries × NoneLost w.session w.stream w.retries

  pub record IsSafe {A : Type 0} (m : Exec A) : Type 0 where
    pub keeps : (w : World) → Both w → Both (m w).1

  pub NoneLost-outbox :
      (db : Db) (s : ρ.Stream) (z : ρ.Retries) (t : σ.Table OutboxEntry)
      → NoneLost db s z
      → NoneLost (record db { outbox = t }) s z
  NoneLost-outbox db s z t n = record {
    delivery_ids = n.delivery_ids;
    endpoint_ids = n.endpoint_ids;
    event_ids = n.event_ids;
    parents = n.parents;
    tracked = n.tracked;
  }

  pub resume-Both :
      {A B : Type 0} (r : Result A) (f : A → Exec B) (w : World)
      → ((a : A) → IsSafe (f a))
      → Both w
      → Both (resume r f w).1
  resume-Both (ok a) f w h b = (h a).keeps w b
  resume-Both (err e) f w h b = b

  pub IsSafe-bind :
      {A B : Type 0} (m : Exec A) (f : A → Exec B)
      → IsSafe m
      → ((a : A) → IsSafe (f a))
      → IsSafe (m >>= f)
  IsSafe-bind m f hm hf = record { keeps = λ w b. resume-Both (m w).0 f (m w).1 hf (hm.keeps w b) }

  pub IsSafe-gets : {A : Type 0} (f : World → A) → IsSafe (gets f)
  IsSafe-gets f = record { keeps = λ w b. b }

  pub IsSafe-pure : {A : Type 0} (a : A) → IsSafe (pure a)
  IsSafe-pure a = record { keeps = λ w b. b }

  pub IsSafe-commit : IsSafe commit
  unfolding commit
  IsSafe-commit = record { keeps = λ w b. (b.1, b.1) }

  -- A unit of work opens its session on the committed tables.
  pub LosesNone-with_uow :
      {A : Type 0} (m : Exec A) (w : World) → IsSafe m → LosesNone w → LosesNone (with_uow m w).1
  unfolding with_uow rollback
  LosesNone-with_uow m w h n = (h.keeps (record w { session = w.committed }) (n, n)).0

  pub IsSafe-raise : {A : Type 0} (e : Error) → IsSafe (raise {A = A} e)
  IsSafe-raise e = record { keeps = λ w b. b }

  pub IsSafe-require : {A : Type 0} (e : Error) (o : Option A) → IsSafe (require e o)
  IsSafe-require e none = record { keeps = λ w b. b }
  IsSafe-require e (some a) = record { keeps = λ w b. b }
