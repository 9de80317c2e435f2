-- ===== src/World/Reads.antt =====
-- Actions that change no row and no content, and what they find.
use fileupload.World.Inversion.{bind_after_ok}
use fileupload.Domain.{ok, Result}
use fileupload.World.{attempt, after, Exec, World, ◌>>=◌}
use std.Path.{subst}
use fileupload.Base.{sym, ◌∙◌, ap, refl, ◌≡◌}

-- an action that only reads, and what it finds
pub record Reads {A : Type 0} (a : A) (w : World) (o : Result A × World) : Type 0 where
  pub value : o.0 ≡ ok a
  pub tables : o.1.db ≡ w.db
  pub disk : o.1.disk ≡ w.disk
  pub temp : o.1.temp ≡ w.temp
  pub redis : o.1.redis ≡ w.redis
  pub faults : o.1.fails ≡ w.fails

pub Reads-pure : {A : Type 0} (a : A) (w : World) → Reads a w (ok a, w)
Reads-pure a w = record {
  value = refl;
  tables = refl;
  disk = refl;
  temp = refl;
  redis = refl;
  faults = refl;
}

pub Reads-bind :
    {A B : Type 0} (m : Exec A) (f : A → Exec B) (w : World) (a : A) (b : B)
    → Reads a w (m w)
    → Reads b (after m w) (f a (after m w))
    → Reads b w ((m >>= f) w)
Reads-bind m f w a b first rest =
    subst (Reads b w) (sym (bind_after_ok m f w a first.value)) (record {
      value = rest.value;
      tables = rest.tables ∙ first.tables;
      disk = rest.disk ∙ first.disk;
      temp = rest.temp ∙ first.temp;
      redis = rest.redis ∙ first.redis;
      faults = rest.faults ∙ first.faults;
    })

-- an outcome that is an error is read as well
pub Reads-attempt_ok :
    {A : Type 0} (m : Exec A) (w : World) (a : A) → Reads a w (m w) → Reads (ok a) w (attempt m w)
Reads-attempt_ok m w a h = record {
  value = ap ok h.value;
  tables = h.tables;
  disk = h.disk;
  temp = h.temp;
  redis = h.redis;
  faults = h.faults;
}
