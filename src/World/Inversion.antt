-- ===== src/World/Inversion.antt =====
-- From a result back to the steps that gave it.
use relay_webhooks.Prelude.{◌≡◌, refl, Option, some, none, Bool, true, false}
use relay_webhooks.Prelude.Result.{Error, Result, ok, err}
use relay_webhooks.Platform.Storage.{Storage}
use relay_webhooks.Platform.Redis.{Redis}
use relay_webhooks.World.{World, Exec, ◌>>=◌, resume, require, raise_when}

module _ ⦃σ : Storage⦄ ⦃ρ : Redis⦄ {A B : Type 0} where
  resume-eq-ok :
      (r : Result A) (f : A → Exec B) (w : World) (b : B)
      → (resume r f w).0 ≡ ok b
      → (a : A) × (r ≡ ok a) × ((f a w).0 ≡ ok b)
  resume-eq-ok (ok a) f w b h = (a, refl, h)
  resume-eq-ok (err e) f w b h = cc h

  pub bind-eq-ok :
      (m : Exec A) (f : A → Exec B) (w : World) (b : B)
      → ((m >>= f) w).0 ≡ ok b
      → (a : A) × ((m w).0 ≡ ok a) × ((f a (m w).1).0 ≡ ok b)
  bind-eq-ok m f w b h = resume-eq-ok (m w).0 f (m w).1 b h

  resume-ran :
      (r : Result A) (f : A → Exec B) (w : World) (b : B)
      → (resume r f w).0 ≡ ok b
      → (a : A) × (r ≡ ok a) × (resume r f w ≡ f a w)
  resume-ran (ok a) f w b h = (a, refl, refl)
  resume-ran (err e) f w b h = cc h

  -- The same, with the world that the steps leave.
  pub bind-ran :
      (m : Exec A) (f : A → Exec B) (w : World) (b : B)
      → ((m >>= f) w).0 ≡ ok b
      → (a : A) × ((m w).0 ≡ ok a) × ((m >>= f) w ≡ f a (m w).1)
  bind-ran m f w b h = resume-ran (m w).0 f (m w).1 b h

  pub require-eq-ok :
      (e : Error) (o : Option A) (f : A → Exec B) (w : World) (b : B)
      → ((require e o >>= f) w).0 ≡ ok b
      → (a : A) × (o ≡ some a) × ((f a w).0 ≡ ok b)
  require-eq-ok e none f w b h = cc h
  require-eq-ok e (some a) f w b h = (a, refl, h)

module _ ⦃σ : Storage⦄ ⦃ρ : Redis⦄ {B : Type 0} where
  pub raise_when-eq-ok :
      (test : Bool) (e : Error) (f : Unit {0} → Exec B) (w : World) (b : B)
      → ((raise_when test e >>= f) w).0 ≡ ok b
      → (test ≡ false) × ((f tt w).0 ≡ ok b)
  raise_when-eq-ok true e f w b h = cc h
  raise_when-eq-ok false e f w b h = (refl, h)
