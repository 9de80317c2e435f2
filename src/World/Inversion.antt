-- ===== src/World/Inversion.antt =====
-- What a success says of the actions that it was put together from.
use fileupload.Domain.{err, ok, DomainError, Result}
use fileupload.Base.{inr, inl, ◌⊎◌, false, refl, arith, true, ◌≡◌, Bool}
use fileupload.World.{
  raise, pure, require, continue, or_else, clean_up, Exec, after, result, ◌>>=◌, World,
}

continue-ok :
    {A B : Type 0} (r : Result A) (f : A → Exec B) (w : World) (b : B)
    → result (continue r f) w ≡ ok b
    → (a : A) × ((r ≡ ok a) × (result (f a) w ≡ ok b))
continue-ok (ok a) f w b e = (a, (refl, e))
continue-ok (err x) f w b e = ground arith

pub bind-ok :
    {A B : Type 0} (m : Exec A) (f : A → Exec B) (w : World) (b : B)
    → result (m >>= f) w ≡ ok b
    → (a : A) × ((result m w ≡ ok a) × (result (f a) (after m w) ≡ ok b))
bind-ok m f w b e = continue-ok (result m w) f (after m w) b e

clean_up-ok :
    {A : Type 0} (r : Result A) (c : Exec (Unit {0})) (w : World) (a : A)
    → (clean_up r c w).0 ≡ ok a
    → r ≡ ok a
clean_up-ok (ok a') c w a e = e
clean_up-ok (err x) c w a e = ground arith

pub or_else-ok :
    {A : Type 0} (m : Exec A) (c : Exec (Unit {0})) (w : World) (a : A)
    → result (or_else m c) w ≡ ok a
    → result m w ≡ ok a
or_else-ok m c w a e = clean_up-ok (result m w) c (after m w) a e

pub require-ok :
    (b : Bool) (e : DomainError) (w : World) (u : Unit {0})
    → result (require b e) w ≡ ok u
    → b ≡ true
require-ok true e w u h = refl
require-ok false e w u h = ground arith

-- every value that the action returns has a property
pub record Yields {A : Type 0} (P : A → Type 0) (m : Exec A) : Type 0 where
  pub of_result : (w : World) (a : A) → result m w ≡ ok a → P a

pub Yields-pure : {A : Type 0} (P : A → Type 0) (a : A) → P a → Yields P (pure a)
Yields-pure P a h = record { of_result = λ w b e. ground (arith, h) }

pub Yields-bind :
    {A B : Type 0} (P : B → Type 0) (m : Exec A) (f : A → Exec B)
    → ((a : A) → Yields P (f a))
    → Yields P (m >>= f)
Yields-bind P m f yf = record {
  of_result = λ w b e. let i = bind-ok m f w b e in (yf i.0).of_result (after m w) b i.1.1;
}

-- with what the first action's values have
pub Yields-after :
    {A B : Type 0} (Q : A → Type 0) (P : B → Type 0) (m : Exec A) (f : A → Exec B)
    → Yields Q m
    → ((a : A) → Q a → Yields P (f a))
    → Yields P (m >>= f)
Yields-after Q P m f ym yf = record {
  of_result = λ w b e.
      let i = bind-ok m f w b e in
      (yf i.0 (ym.of_result w i.0 i.1.0)).of_result (after m w) b i.1.1;
}

pub Yields-or_else :
    {A : Type 0} (P : A → Type 0) (m : Exec A) (c : Exec (Unit {0}))
    → Yields P m
    → Yields P (or_else m c)
Yields-or_else P m c ym = record { of_result = λ w a e. ym.of_result w a (or_else-ok m c w a e) }

pub Yields-require : (b : Bool) (e : DomainError) → Yields (λ _. b ≡ true) (require b e)
Yields-require b e = record { of_result = λ w u h. require-ok b e w u h }

pub Yields-raise : {A : Type 0} (P : A → Type 0) (e : DomainError) → Yields P (raise {A = A} e)
Yields-raise P e = record { of_result = λ w a h. ground arith }

-- how a composition runs, once the first part has
pub bind_after_ok :
    {A B : Type 0} (m : Exec A) (f : A → Exec B) (w : World) (a : A)
    → result m w ≡ ok a
    → (m >>= f) w ≡ f a (after m w)
bind_after_ok m f w a e = rw e

pub bind_after_err :
    {A B : Type 0} (m : Exec A) (f : A → Exec B) (w : World) (e : DomainError)
    → result m w ≡ err e
    → (m >>= f) w ≡ (err e, after m w)
bind_after_err m f w e h = rw h

pub Result-cases :
    {A : Type 0} (r : Result A) → ((a : A) × (r ≡ ok a)) ⊎ ((e : DomainError) × (r ≡ err e))
Result-cases (ok a) = inl (a, refl)
Result-cases (err e) = inr (e, refl)
