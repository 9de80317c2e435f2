-- ===== src/World/Avoids.antt =====
-- An error that an action does not return, while an invariant holds.
use fileupload.Base.{arith, inr, inl, ◌≢◌}
use fileupload.World.Inversion.{bind_after_err, bind_after_ok, Result-cases}
use fileupload.Domain.{err, Result, DomainError}
use fileupload.World.{after, result, pure, Exec, World, ◌>>=◌}

-- an outcome that is not the error, with the invariant
pub record Away {A : Type 0} (x : DomainError) (P : World → Type 0) (o : Result A × World)
    : Type 0 where
  pub safe : o.0 ≢ err x
  pub kept : P o.1

pub record Avoids {A : Type 0} (x : DomainError) (P : World → Type 0) (m : Exec A) : Type 0 where
  pub from : (w : World) → P w → Away x P (m w)

module _ {x : DomainError} {P : World → Type 0} where
  pub Avoids-pure : {A : Type 0} (a : A) → Avoids x P (pure a)
  Avoids-pure a = record { from = λ w h. record { safe = λ e. cc; kept = h } }

  pub Avoids-bind :
      {A B : Type 0} (m : Exec A) (f : A → Exec B)
      → Avoids x P m
      → ((a : A) → Avoids x P (f a))
      → Avoids x P (m >>= f)
  Avoids-bind m f am af = record {
    from = λ w h.
        let first = am.from w h in
        elim (Result-cases (result m w)) [
          | inl (a, e) ↦ rw (bind_after_ok m f w a e) ((af a).from (after m w) first.kept)
          | inr (y, e) ↦
              rw (bind_after_err m f w y e)
                (record { safe = λ same. first.safe (ground (arith, e, same)); kept = first.kept })
        ];
  }
