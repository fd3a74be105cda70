-- ===== src/World/Atomic.antt =====
-- All or nothing: rules by which a use case that raises has committed nothing.
use relay_webhooks.Prelude.{
  ◌≡◌, ◌∙◌, refl, ap, Bool, true, false, Option, none, some, if◌then◌else◌,
}
use relay_webhooks.Prelude.Result.{Error, Result, ok, err}
use relay_webhooks.Platform.Storage.{Storage}
use relay_webhooks.Platform.Redis.{Redis}
use relay_webhooks.World.{
  World, Exec, ◌>>=◌, pure, lift, gets, modify, resume, require, raise_when, commit, with_uow,
  rollback, Db,
}

module _ ⦃σ : Storage⦄ ⦃ρ : Redis⦄ where
  -- what a use case keeps that commits nothing and sends no command to Redis
  abbrev pub held : World → Db × ρ.Stream × ρ.Retries
  held w = (w.committed, w.stream, w.retries)

  abbrev pub queues : World → ρ.Stream × ρ.Retries
  queues w = (w.stream, w.retries)

  -- `m` commits nothing and sends no command to Redis.
  pub record IsQuiet {A : Type 0} (m : Exec A) : Type 0 where
    pub keeps : (w : World) → held (m w).1 ≡ held w

  -- `m` sends no command to the stream or the retry set.
  pub record IsOffline {A : Type 0} (m : Exec A) : Type 0 where
    pub holds : (w : World) → queues (m w).1 ≡ queues w

  -- `m` raises nothing.
  pub record IsTotal {A : Type 0} (m : Exec A) : Type 0 where
    pub returns : (w : World) → (a : A) × ((m w).0 ≡ ok a)

  -- If `m` raises, it has committed nothing.
  pub record IsAtomic {A : Type 0} (m : Exec A) : Type 0 where
    pub undone : (w : World) (x : Error) → (m w).0 ≡ err x → (m w).1.committed ≡ w.committed

  pub IsQuiet-pure : {A : Type 0} (a : A) → IsQuiet (pure a)
  IsQuiet-pure a = record { keeps = λ w. refl }

  pub IsQuiet-lift : {A : Type 0} (r : Result A) → IsQuiet (lift r)
  IsQuiet-lift r = record { keeps = λ w. refl }

  pub IsQuiet-gets : {A : Type 0} (f : World → A) → IsQuiet (gets f)
  IsQuiet-gets f = record { keeps = λ w. refl }

  pub IsQuiet-require : {A : Type 0} (e : Error) (o : Option A) → IsQuiet (require e o)
  IsQuiet-require e none = record { keeps = λ w. refl }
  IsQuiet-require e (some a) = record { keeps = λ w. refl }

  pub IsQuiet-raise_when : (b : Bool) (e : Error) → IsQuiet (raise_when b e)
  IsQuiet-raise_when true e = record { keeps = λ w. refl }
  IsQuiet-raise_when false e = record { keeps = λ w. refl }

  pub IsQuiet-if :
      {A : Type 0} (b : Bool) (m n : Exec A) → IsQuiet m → IsQuiet n → IsQuiet (if b then m else n)
  IsQuiet-if true m n hm hn = hm
  IsQuiet-if false m n hm hn = hn

  pub resume-keeps :
      {A B : Type 0} (r : Result A) (f : A → Exec B) (w : World)
      → ((a : A) → IsQuiet (f a))
      → held (resume r f w).1 ≡ held w
  resume-keeps (ok a) f w h = (h a).keeps w
  resume-keeps (err e) f w h = refl

  pub IsQuiet-bind :
      {A B : Type 0} (m : Exec A) (f : A → Exec B)
      → IsQuiet m
      → ((a : A) → IsQuiet (f a))
      → IsQuiet (m >>= f)
  IsQuiet-bind m f hm hf = record { keeps = λ w. resume-keeps (m w).0 f (m w).1 hf ∙ hm.keeps w }

  pub IsAtomic-of_IsQuiet : {A : Type 0} (m : Exec A) → IsQuiet m → IsAtomic m
  IsAtomic-of_IsQuiet m h = record {
    undone = λ w x e. ap (λ (q : Db × ρ.Stream × ρ.Retries). q.0) (h.keeps w);
  }

  pub IsAtomic-of_IsTotal : {A : Type 0} (m : Exec A) → IsTotal m → IsAtomic m
  IsAtomic-of_IsTotal m h = record { undone = λ w x e. cc (e, (h.returns w).1) }

  pub IsAtomic-if :
      {A : Type 0} (b : Bool) (m n : Exec A)
      → IsAtomic m
      → IsAtomic n
      → IsAtomic (if b then m else n)
  IsAtomic-if true m n hm hn = hm
  IsAtomic-if false m n hm hn = hn

  resume-undone :
      {A B : Type 0} (r : Result A) (f : A → Exec B) (w : World) (x : Error)
      → ((a : A) → IsAtomic (f a))
      → (resume r f w).0 ≡ err x
      → (resume r f w).1.committed ≡ w.committed
  resume-undone (ok a) f w x h e = (h a).undone w x e
  resume-undone (err y) f w x h e = refl

  pub IsAtomic-bind :
      {A B : Type 0} (m : Exec A) (f : A → Exec B)
      → IsQuiet m
      → ((a : A) → IsAtomic (f a))
      → IsAtomic (m >>= f)
  IsAtomic-bind m f hm hf = record {
    undone = λ w x e.
        resume-undone (m w).0 f (m w).1 x hf e
        ∙ ap (λ (q : Db × ρ.Stream × ρ.Retries). q.0) (hm.keeps w);
  }

  resume_total :
      {A B : Type 0} (r : Result A) (f : A → Exec B) (w w' : World) (x : Error)
      → ((y : Error) → r ≡ err y → w'.committed ≡ w.committed)
      → ((a : A) → IsTotal (f a))
      → (resume r f w').0 ≡ err x
      → (resume r f w').1.committed ≡ w.committed
  resume_total (ok a) f w w' x h total e = cc (e, ((total a).returns w').1)
  resume_total (err y) f w w' x h total e = h y refl

  -- What follows the commit must not raise.
  pub IsAtomic-then :
      {A B : Type 0} (m : Exec A) (f : A → Exec B)
      → IsAtomic m
      → ((a : A) → IsTotal (f a))
      → IsAtomic (m >>= f)
  IsAtomic-then m f hm hf = record {
    undone = λ w x e. resume_total (m w).0 f w (m w).1 x (hm.undone w) hf e;
  }

  pub IsTotal-pure : {A : Type 0} (a : A) → IsTotal (pure a)
  IsTotal-pure a = record { returns = λ w. (a, refl) }

  pub IsTotal-modify : (f : World → World) → IsTotal (modify f)
  IsTotal-modify f = record { returns = λ w. (tt, refl) }

  pub IsTotal-gets : {A : Type 0} (f : World → A) → IsTotal (gets f)
  IsTotal-gets f = record { returns = λ w. (f w, refl) }

  pub IsTotal-commit : IsTotal commit
  unfolding commit
  IsTotal-commit = record { returns = λ w. (tt, refl) }

  pub IsTotal-if :
      {A : Type 0} (b : Bool) (m n : Exec A) → IsTotal m → IsTotal n → IsTotal (if b then m else n)
  IsTotal-if true m n hm hn = hm
  IsTotal-if false m n hm hn = hn

  pub IsTotal-bind :
      {A B : Type 0} (m : Exec A) (f : A → Exec B)
      → IsTotal m
      → ((a : A) → IsTotal (f a))
      → IsTotal (m >>= f)
  IsTotal-bind m f hm hf = record {
    returns = λ w.
        let (a, e) = hm.returns w in
        let (b, e') = (hf a).returns (m w).1 in (b, ap (λ r. (resume r f (m w).1).0) e ∙ e');
  }

  pub IsAtomic-with_uow : {A : Type 0} (m : Exec A) → IsAtomic m → IsAtomic (with_uow m)
  unfolding with_uow
  IsAtomic-with_uow m h = record {
    undone = λ w x e. h.undone (record w { session = w.committed }) x e;
  }

  pub IsQuiet-with_uow : {A : Type 0} (m : Exec A) → IsQuiet m → IsQuiet (with_uow m)
  unfolding with_uow
  IsQuiet-with_uow m h = record { keeps = λ w. h.keeps (record w { session = w.committed }) }

module _ ⦃σ : Storage⦄ ⦃ρ : Redis⦄ where
  pub IsOffline-of_IsQuiet : {A : Type 0} (m : Exec A) → IsQuiet m → IsOffline m
  IsOffline-of_IsQuiet m h = record {
    holds = λ w. ap (λ (q : Db × ρ.Stream × ρ.Retries). (q.1, q.2)) (h.keeps w);
  }

  pub IsOffline-pure : {A : Type 0} (a : A) → IsOffline (pure a)
  IsOffline-pure a = record { holds = λ w. refl }

  pub IsOffline-commit : IsOffline commit
  unfolding commit
  IsOffline-commit = record { holds = λ w. refl }

  pub IsOffline-if :
      {A : Type 0} (b : Bool) (m n : Exec A)
      → IsOffline m
      → IsOffline n
      → IsOffline (if b then m else n)
  IsOffline-if true m n hm hn = hm
  IsOffline-if false m n hm hn = hn

  resume-holds :
      {A B : Type 0} (r : Result A) (f : A → Exec B) (w : World)
      → ((a : A) → IsOffline (f a))
      → queues (resume r f w).1 ≡ queues w
  resume-holds (ok a) f w h = (h a).holds w
  resume-holds (err e) f w h = refl

  pub IsOffline-bind :
      {A B : Type 0} (m : Exec A) (f : A → Exec B)
      → IsOffline m
      → ((a : A) → IsOffline (f a))
      → IsOffline (m >>= f)
  IsOffline-bind m f hm hf = record { holds = λ w. resume-holds (m w).0 f (m w).1 hf ∙ hm.holds w }

  pub IsOffline-with_uow : {A : Type 0} (m : Exec A) → IsOffline m → IsOffline (with_uow m)
  unfolding with_uow rollback
  IsOffline-with_uow m h = record { holds = λ w. h.holds (record w { session = w.committed }) }

pub ruleset quiet_rules = (
  IsQuiet-pure, IsQuiet-lift, IsQuiet-gets, IsQuiet-require, IsQuiet-raise_when, IsQuiet-if,
  IsQuiet-bind, IsQuiet-with_uow,
)

pub ruleset total_rules =
    (IsTotal-pure, IsTotal-modify, IsTotal-gets, IsTotal-commit, IsTotal-if, IsTotal-bind)

pub ruleset offline_rules = (
  IsOffline-pure, IsOffline-commit, IsOffline-if, IsOffline-bind, IsOffline-with_uow,
  IsOffline-of_IsQuiet,
)
