-- ===== src/World/Triple.antt =====
-- What an action makes of the world, by its outcome: `Q` where it returns, `R` where it fails.
use fileupload.World.Keeps.{Keeps}
use fileupload.Domain.{err, ok, Result}
use fileupload.World.{clean_up, or_else, continue, after, result, ◌>>=◌, Exec, World}

abbrev pub Post : {A : Type 0} → (World → Type 0) → (World → Type 0) → Result A → World → Type 0
Post Q R (ok a) w = Q w
Post Q R (err e) w = R w

pub record Triple {A : Type 0} (P Q R : World → Type 0) (m : Exec A) : Type 0 where
  pub from : (w : World) → P w → Post Q R (result m w) (after m w)

module _ (Q R S : World → Type 0) where
  Triple-continue :
      {A B : Type 0} (r : Result A) (f : A → Exec B) (w : World)
      → ((a : A) → Triple Q S R (f a))
      → Post Q R r w
      → Post S R (result (continue r f) w) (after (continue r f) w)
  Triple-continue (ok a) f w tf h = (tf a).from w h
  Triple-continue (err e) f w tf h = h

  Triple-clean_up :
      {A : Type 0} (r : Result A) (c : Exec (Unit {0})) (w : World)
      → ((v : World) → R v → S (after c v))
      → Post Q R r w
      → Post Q S (result (clean_up r c) w) (after (clean_up r c) w)
  Triple-clean_up (ok a) c w tc h = h
  Triple-clean_up (err e) c w tc h = tc w h

  Post-both : {A : Type 0} (r : Result A) (w : World) → Q w → (Q w → R w) → Post Q R r w
  Post-both (ok a) w h weaken = h
  Post-both (err e) w h weaken = weaken h

  Post-Keeps :
      {A : Type 0} (r : Result A) (w : World) → ((v : World) → Q v → R v) → Post Q R r w → R w
  Post-Keeps (ok a) w weaken h = weaken w h
  Post-Keeps (err e) w weaken h = h

module _ {P Q R S : World → Type 0} where
  pub Triple-bind :
      {A B : Type 0} (m : Exec A) (f : A → Exec B)
      → Triple P Q R m
      → ((a : A) → Triple Q S R (f a))
      → Triple P S R (m >>= f)
  Triple-bind m f tm tf = record {
    from = λ w h. Triple-continue Q R S (result m w) f (after m w) tf (tm.from w h);
  }

  -- the cleanup turns what an error leaves into S
  pub Triple-or_else :
      {A : Type 0} (m : Exec A) (c : Exec (Unit {0}))
      → Triple P Q R m
      → ((v : World) → R v → S (after c v))
      → Triple P Q S (or_else m c)
  Triple-or_else m c tm tc = record {
    from = λ w h. Triple-clean_up Q R S (result m w) c (after m w) tc (tm.from w h);
  }

-- an invariant that is stronger than what an error may leave
pub Keeps-Triple :
    {P R : World → Type 0} {A : Type 0} (m : Exec A)
    → Keeps P m
    → ((w : World) → P w → R w)
    → Triple P P R m
Keeps-Triple {P} {R} m k weaken = record {
  from = λ w h. Post-both P R R (result m w) (after m w) (k.from w h) (weaken (after m w));
}

pub Triple-Keeps :
    {P Q : World → Type 0} {A : Type 0} (m : Exec A)
    → Triple P Q P m
    → ((v : World) → Q v → P v)
    → Keeps P m
Triple-Keeps {P} {Q} m t weaken = record {
  from = λ w h. Post-Keeps Q P P (result m w) (after m w) weaken (t.from w h);
}
