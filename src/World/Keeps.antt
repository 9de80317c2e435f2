-- ===== src/World/Keeps.antt =====
-- Invariants across actions: one rule for each way in which the services put actions together.
use fileupload.Base.{if◌then◌else◌, Bool}
use fileupload.Domain.{err, ok, Result, DomainError}
use fileupload.Base.{true, false, Bool}
use fileupload.World.{
  clean_up, or_else, result, ◌>>=◌, lift, require, raise, continue, defer, ignore, gets, pure,
  attempt, World, Exec, after,
}

-- Whatever `m` returns, `P` holds of the world that it leaves if it held before.
pub record Keeps {A : Type 0} (P : World → Type 0) (m : Exec A) : Type 0 where
  pub from : (w : World) → P w → P (after m w)

module _ {P : World → Type 0} where
  pub Keeps-pure : {A : Type 0} (a : A) → Keeps P (pure a)
  Keeps-pure a = record { from = λ w h. h }

  pub Keeps-raise : {A : Type 0} (e : DomainError) → Keeps P (raise {A = A} e)
  Keeps-raise e = record { from = λ w h. h }

  pub Keeps-gets : {A : Type 0} (f : World → A) → Keeps P (gets f)
  Keeps-gets f = record { from = λ w h. h }

  pub Keeps-lift : {A : Type 0} (r : Result A) → Keeps P (lift r)
  Keeps-lift r = record { from = λ w h. h }

  pub Keeps-require : (b : Bool) (e : DomainError) → Keeps P (require b e)
  Keeps-require true e = record { from = λ w h. h }
  Keeps-require false e = record { from = λ w h. h }

  pub Keeps-if :
      {A : Type 0} (b : Bool) (m n : Exec A) → Keeps P m → Keeps P n → Keeps P (if b then m else n)
  Keeps-if true m n km kn = km
  Keeps-if false m n km kn = kn

  Keeps-continue :
      {A B : Type 0} (r : Result A) (f : A → Exec B) (w : World)
      → ((a : A) → Keeps P (f a))
      → P w
      → P (after (continue r f) w)
  Keeps-continue (ok a) f w kf h = (kf a).from w h
  Keeps-continue (err e) f w kf h = h

  pub Keeps-bind :
      {A B : Type 0} (m : Exec A) (f : A → Exec B)
      → Keeps P m
      → ((a : A) → Keeps P (f a))
      → Keeps P (m >>= f)
  Keeps-bind m f km kf = record {
    from = λ w h. Keeps-continue (result m w) f (after m w) kf (km.from w h);
  }

  pub Keeps-ignore : {A : Type 0} (m : Exec A) → Keeps P m → Keeps P (ignore m)
  Keeps-ignore m km = record { from = λ w h. km.from w h }

  pub Keeps-attempt : {A : Type 0} (m : Exec A) → Keeps P m → Keeps P (attempt m)
  Keeps-attempt m km = record { from = λ w h. km.from w h }

  pub Keeps-defer :
      {A : Type 0} (c : Exec (Unit {0})) (m : Exec A) → Keeps P c → Keeps P m → Keeps P (defer c m)
  Keeps-defer c m kc km = record { from = λ w h. kc.from (after m w) (km.from w h) }

  -- a cleanup after an error that itself keeps the invariant
  Keeps-clean_up :
      {A : Type 0} (r : Result A) (c : Exec (Unit {0})) (w : World)
      → Keeps P c
      → P w
      → P (after (clean_up r c) w)
  Keeps-clean_up (ok a) c w kc h = h
  Keeps-clean_up (err e) c w kc h = kc.from w h

  pub Keeps-or_else :
      {A : Type 0} (m : Exec A) (c : Exec (Unit {0}))
      → Keeps P m
      → Keeps P c
      → Keeps P (or_else m c)
  Keeps-or_else m c km kc = record {
    from = λ w h. Keeps-clean_up (result m w) c (after m w) kc (km.from w h);
  }

pub ruleset keeps_rules = (
  Keeps-pure, Keeps-raise, Keeps-gets, Keeps-lift, Keeps-require, Keeps-if, Keeps-bind,
  Keeps-ignore, Keeps-attempt, Keeps-defer,
)
