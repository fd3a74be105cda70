-- ===== src/Workers/Dispatcher/Pool/Bounds.antt =====
-- The bounds on concurrent attempts, and that a task which waits does not wait for nothing.
use relay_webhooks.Prelude.{
  ℕ, suc, ◌+◌, ◌<◌, ◌≤◌, ◌⊎◌, inl, inr, refl, Option, zero, ◌==◌, ◌≡◌, ap, true, none, some, List,
  [], ◌∷◌, ◌++◌, arith, length, length-append, is_some, if◌then◌else◌,
}
use relay_webhooks.Workers.Dispatcher.Pool.{
  Task, started, waiting, attempting, Pool, value_or, endpoint_semaphore, release_endpoint,
  start_pool, Step, create_task, look_up, fall_through, acquire, fail, finish, Reach, here, next,
}

-- 1 for a task that has acquired the semaphore of `e`, 1 for one that waits for it
abbrev holds : ℕ → Task → ℕ
holds e (attempting (some j)) = if j == e then 1 else 0
holds e _ = 0

abbrev waits : ℕ → Task → ℕ
waits e (waiting j) = if j == e then 1 else 0
waits e _ = 0

abbrev pub total : (Task → ℕ) → List Task → ℕ
total f [] = 0
total f (t ∷ ts) = f t + total f ts

-- the attempts that are gated by the semaphore of `e`, and the tasks that wait for it
abbrev pub holders : ℕ → List Task → ℕ
holders e = total (holds e)

abbrev pub waiters : ℕ → List Task → ℕ
waiters e = total (waits e)

pub total-append : (f : Task → ℕ) (a b : List Task) → total f (a ++ b) ≡ total f a + total f b
total-append f [] b = omega arith
total-append f (t ∷ a) b = omega (arith, total-append f a b)

-- a list with one task put in the middle
total-middle :
    (f : Task → ℕ) (a : List Task) (t : Task) (b : List Task)
    → total f (a ++ (t ∷ b)) ≡ f t + total f (a ++ b)
total-middle f a t b = omega (arith, total-append f a (t ∷ b), total-append f a b)

length-middle :
    (a : List Task) (t : Task) (b : List Task) → length (a ++ (t ∷ b)) ≡ suc (length (a ++ b))
length-middle a t b = omega (arith, length-append a (t ∷ b), length-append a b)

module _ (concurrency per : ℕ) where
  pub record IsGated (p : Pool) : Type 0 where
    pub counted : p.semaphore + length p.in_flight ≡ concurrency
    pub shared : (e : ℕ) → value_or per (p.endpoint_semaphores e) + holders e p.in_flight ≡ per
    pub made : (e : ℕ) → 0 < waiters e p.in_flight → is_some (p.endpoint_semaphores e) ≡ true

  start_pool-IsGated : IsGated (start_pool concurrency)
  unfolding start_pool
  start_pool-IsGated = record {
    counted = omega arith;
    shared = λ e. omega arith;
    made = λ e h. absurd (omega arith);
  }

  -- A task in the middle is replaced.
  module _ (p : Pool) (g : IsGated p) (a b : List Task) (t : Task)
      (at_t : p.in_flight ≡ a ++ (t ∷ b)) where
    counted-middle : p.semaphore + suc (length (a ++ b)) ≡ concurrency
    counted-middle = omega (arith, g.counted, ap (length {A = Task}) at_t, length-middle a t b)

    shared-middle :
        (e : ℕ)
        → value_or per (p.endpoint_semaphores e) + (holds e t + total (holds e) (a ++ b)) ≡ per
    shared-middle e =
        omega (arith, g.shared e, ap (total (holds e)) at_t, total-middle (holds e) a t b)

    made-middle :
        (e : ℕ)
        → 0 < waits e t + total (waits e) (a ++ b)
        → is_some (p.endpoint_semaphores e) ≡ true
    made-middle e h =
        g.made e (omega (arith, ap (total (waits e)) at_t, total-middle (waits e) a t b))

  Step-IsGated : {p q : Pool} → Step per p q → IsGated p → IsGated q
  unfolding endpoint_semaphore release_endpoint
  Step-IsGated {p} (create_task value e) g = record {
    counted = omega (arith, g.counted);
    shared = λ j. omega (arith, g.shared j);
    made = λ j h. g.made j (omega arith);
  }
  Step-IsGated {p} (look_up a b i at_t) g = record {
    counted = omega (arith, counted-middle p g a b started at_t, length-middle a (waiting i) b);
    shared = λ j.
        ground
          (arith, shared-middle p g a b started at_t j, total-middle (holds j) a (waiting i) b);
    made = λ j h.
        ground (arith, made-middle p g a b started at_t j, total-middle (waits j) a (waiting i) b);
  }
  Step-IsGated {p} (fall_through a b at_t) g = record {
    counted =
        omega (arith, counted-middle p g a b started at_t, length-middle a (attempting none) b);
    shared = λ j.
        omega (
          arith,
          shared-middle p g a b started at_t j,
          total-middle (holds j) a (attempting none) b,
        );
    made = λ j h.
        made-middle p g a b started at_t j
          (omega (arith, total-middle (waits j) a (attempting none) b));
  }
  Step-IsGated {p} (acquire a b i value at_t free) g = record {
    counted =
        omega
          (arith, counted-middle p g a b (waiting i) at_t, length-middle a (attempting (some i)) b);
    shared = λ j. ground (
      arith,
      shared-middle p g a b (waiting i) at_t j,
      total-middle (holds j) a (attempting (some i)) b,
    );
    made = λ j h. ground (
      arith,
      made-middle p g a b (waiting i) at_t j,
      total-middle (waits j) a (attempting (some i)) b,
    );
  }
  Step-IsGated {p} (fail a b at_t) g = record {
    counted = omega (arith, counted-middle p g a b started at_t);
    shared = λ j. omega (arith, shared-middle p g a b started at_t j);
    made = λ j h. made-middle p g a b started at_t j (omega arith);
  }
  Step-IsGated {p} (finish a b none at_t) g = record {
    counted = omega (arith, counted-middle p g a b (attempting none) at_t);
    shared = λ j. omega (arith, shared-middle p g a b (attempting none) at_t j);
    made = λ j h. made-middle p g a b (attempting none) at_t j (omega arith);
  }
  Step-IsGated {p} (finish a b (some i) at_t) g = record {
    counted = omega (arith, counted-middle p g a b (attempting (some i)) at_t);
    shared = λ j. ground (arith, shared-middle p g a b (attempting (some i)) at_t j);
    made = λ j h. ground (arith, made-middle p g a b (attempting (some i)) at_t j);
  }

  pub Reach-IsGated : {p : Pool} → Reach per concurrency p → IsGated p
  Reach-IsGated here = start_pool-IsGated
  Reach-IsGated (next r s) = Step-IsGated s (Reach-IsGated r)

  -- In every state that the dispatcher's loop and its tasks can reach, no more tasks are in flight
  -- than its concurrency, no more attempts that are gated by an endpoint's semaphore than the
  -- concurrency for each endpoint, and once no task is in flight every slot is free again.
  pub Reach-bounds :
      {p : Pool}
      → Reach per concurrency p
      → (length p.in_flight ≤ concurrency)
        × ((e : ℕ) → holders e p.in_flight ≤ per)
        × (p.in_flight ≡ [] → p.semaphore ≡ concurrency)
        × (p.in_flight ≡ [] → (e : ℕ) → value_or per (p.endpoint_semaphores e) ≡ per)
  Reach-bounds {p} r =
      let g = Reach-IsGated r in
      (
        omega (arith, g.counted),
        λ e. omega (arith, g.shared e),
        λ idle. omega (arith, g.counted, ap (length {A = Task}) idle),
        λ idle e. omega (arith, g.shared e, ap (total (holds e)) idle),
      )

  -- a task that waits shows that the semaphore exists
  waiting-made :
      (p : Pool) (a b : List Task) (e : ℕ)
      → IsGated p
      → p.in_flight ≡ a ++ (waiting e ∷ b)
      → is_some (p.endpoint_semaphores e) ≡ true
  waiting-made p a b e g at_wait =
      let own : waits e (waiting e) ≡ 1 = ground arith in
      made-middle p g a b (waiting e) at_wait e (omega (arith, own))

  abbrev Advances : Pool → ℕ → Type 0
  Advances p e =
      ((q : Pool) × Step per p q × (holders e q.in_flight ≡ holders e p.in_flight + 1))
      ⊎ (0 < holders e p.in_flight)

  advances :
      (p : Pool) (a b : List Task) (e : ℕ) (o : Option ℕ)
      → IsGated p
      → 0 < per
      → p.in_flight ≡ a ++ (waiting e ∷ b)
      → p.endpoint_semaphores e ≡ o
      → Advances p e
  advances p a b e none g some_slot at_wait at_e =
      absurd (cc (waiting-made p a b e g at_wait, ap is_some at_e))
  advances p a b e (some zero) g some_slot at_wait at_e =
      inr (omega (arith, g.shared e, ap (value_or per) at_e))
  advances p a b e (some (suc value)) g some_slot at_wait at_e =
      let own : holds e (attempting (some e)) ≡ 1 = ground arith in
      inl (
        _,
        acquire a b e value at_wait at_e,
        omega (
          arith,
          own,
          ap (holders e) at_wait,
          total-middle (holds e) a (waiting e) b,
          total-middle (holds e) a (attempting (some e)) b,
        ),
      )

  -- No task waits for nothing: while one waits for an endpoint's semaphore, and the concurrency for
  -- each endpoint is not 0, either a step is possible in which a task acquires it, or an attempt
  -- on that endpoint is running, which gives its slot back.
  pub Reach-progress :
      {p : Pool}
      → Reach per concurrency p
      → 0 < per
      → (a b : List Task) (e : ℕ) → p.in_flight ≡ a ++ (waiting e ∷ b)
      → ((q : Pool) × Step per p q × (holders e q.in_flight ≡ holders e p.in_flight + 1))
        ⊎ (0 < holders e p.in_flight)
  Reach-progress {p} r some_slot a b e at_wait =
      advances p a b e (p.endpoint_semaphores e) (Reach-IsGated r) some_slot at_wait refl
