-- ===== src/Workers/Dispatcher/Pool.antt =====
-- src/relay/workers/dispatcher.py: the tasks of `run_forever` and the two kinds of semaphore that
-- gate them, as a step relation. What a task does between two steps is `handle_and_ack`.
pub mod Bounds
use relay_webhooks.Prelude.{
  ℕ, suc, ◌+◌, ◌==◌, ◌≡◌, Bool, true, false, Option, none, some, List, [], ◌∷◌, ◌++◌, if◌then◌else◌,
}

-- A task of `_handle_and_ack`: before its lookup has answered, waiting for the semaphore of an
-- endpoint, or in its attempt, with the endpoint whose semaphore it has acquired.
pub data Task : Type 0 where
  started : Task
  waiting : ℕ → Task
  attempting : Option ℕ → Task

-- The value of a semaphore is what may still be acquired.
pub record Pool : Type 0 where
  pub semaphore : ℕ
  pub endpoint_semaphores : ℕ → Option ℕ
  pub in_flight : List Task

abbrev pub set_semaphore : ℕ → ℕ → (ℕ → Option ℕ) → ℕ → Option ℕ
set_semaphore endpoint_id value semaphores j = if endpoint_id == j then some value else semaphores j

abbrev pub value_or : ℕ → Option ℕ → ℕ
value_or fresh none = fresh
value_or fresh (some value) = value

-- `endpoint_semaphore`: created at first sight
unfoldable pub endpoint_semaphore : ℕ → ℕ → (ℕ → Option ℕ) → ℕ → Option ℕ
endpoint_semaphore per_endpoint_concurrency endpoint_id semaphores =
    set_semaphore endpoint_id (value_or per_endpoint_concurrency (semaphores endpoint_id))
      semaphores

abbrev pub bumped : Option ℕ → ℕ
bumped none = 1
bumped (some value) = value + 1

-- `acquired_endpoint_sem.release()`, if one was acquired
unfoldable pub release_endpoint : Option ℕ → (ℕ → Option ℕ) → ℕ → Option ℕ
release_endpoint none semaphores = semaphores
release_endpoint (some endpoint_id) semaphores =
    set_semaphore endpoint_id (bumped (semaphores endpoint_id)) semaphores

unfoldable pub start_pool : ℕ → Pool
start_pool concurrency = record {
  semaphore = concurrency;
  endpoint_semaphores = λ endpoint_id. none;
  in_flight = [];
}

module _ (per_endpoint_concurrency : ℕ) where
  pub data Step (p : Pool) : Pool → Type 0 where
    -- the loop acquires the semaphore and creates a task
    create_task :
        (value : ℕ)
        → p.semaphore ≡ suc value
        → Step p (record p { semaphore = value; in_flight = started ∷ p.in_flight })
    -- the lookup finds the delivery, and the task asks for its endpoint's semaphore
    look_up :
        (before later : List Task) (endpoint_id : ℕ)
        → p.in_flight ≡ before ++ (started ∷ later)
        → Step p (record p {
          endpoint_semaphores =
              endpoint_semaphore per_endpoint_concurrency endpoint_id p.endpoint_semaphores;
          in_flight = before ++ (waiting endpoint_id ∷ later);
        })
    -- the lookup finds no delivery: no gate
    fall_through :
        (before later : List Task)
        → p.in_flight ≡ before ++ (started ∷ later)
        → Step p (record p { in_flight = before ++ (attempting none ∷ later) })
    -- the task acquires the endpoint's semaphore
    acquire :
        (before later : List Task) (endpoint_id value : ℕ)
        → p.in_flight ≡ before ++ (waiting endpoint_id ∷ later)
        → p.endpoint_semaphores endpoint_id ≡ some (suc value)
        → Step p (record p {
          endpoint_semaphores = set_semaphore endpoint_id value p.endpoint_semaphores;
          in_flight = before ++ (attempting (some endpoint_id) ∷ later);
        })
    -- the lookup raises: the `finally` clause with no endpoint's semaphore
    fail :
        (before later : List Task)
        → p.in_flight ≡ before ++ (started ∷ later)
        → Step p (record p { semaphore = p.semaphore + 1; in_flight = before ++ later })
    -- the attempt has returned or raised: the `finally` clause
    finish :
        (before later : List Task) (acquired : Option ℕ)
        → p.in_flight ≡ before ++ (attempting acquired ∷ later)
        → Step p (record {
          semaphore = p.semaphore + 1;
          endpoint_semaphores = release_endpoint acquired p.endpoint_semaphores;
          in_flight = before ++ later;
        })

  pub data Reach (concurrency : ℕ) : Pool → Type 0 where
    here : Reach concurrency (start_pool concurrency)
    next : {p q : Pool} → Reach concurrency p → Step p q → Reach concurrency q
