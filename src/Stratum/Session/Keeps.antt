-- ===== src/Stratum/Session/Keeps.antt =====
-- Properties of the world that a handler keeps, whether it returns or throws.
use luminousminer.Prelude.{Bool, true, false, Option, none, some, if◌then◌else◌}
use luminousminer.Stratum.Session.{World, M, continue_with, cases, ◌>>=◌, ◌>>◌, done, get, session}

pub record Keeps {V A : Type 0} (P : World V → Type 0) (m : M V A) : Type 0 where
  pub at : (w : World V) → P w → P (m w).1

module _ {V : Type 0} (P : World V → Type 0) where
  continue_with-keeps :
      {A B : Type 0} (r : Option A × World V) (f : A → M V B)
      → P r.1
      → ((a : A) → Keeps P (f a))
      → P (continue_with r f).1
  continue_with-keeps (none, w) f h k = h
  continue_with-keeps (some a, w) f h k = (k a).at w h

module _ {V : Type 0} {P : World V → Type 0} where
  pub Keeps-bind :
      {A B : Type 0} {m : M V A} {f : A → M V B}
      → Keeps P m
      → ((a : A) → Keeps P (f a))
      → Keeps P (m >>= f)
  Keeps-bind {A} {B} {m} {f} h k = record { at = λ w p. continue_with-keeps P (m w) f (h.at w p) k }

  pub Keeps-then :
      {B : Type 0} {m : M V (Unit {0})} {k : M V B} → Keeps P m → Keeps P k → Keeps P (m >> k)
  Keeps-then {B} {m} {k} h l = Keeps-bind h (λ a. l)

  pub Keeps-done : Keeps P done
  Keeps-done = record { at = λ w p. p }

  pub Keeps-get : {A : Type 0} (o : Option A) → Keeps P (get o)
  Keeps-get o = record { at = λ w p. p }

  pub Keeps-session : Keeps P session
  Keeps-session = record { at = λ w p. p }

  pub Keeps-if :
      {A : Type 0} (b : Bool) {m k : M V A} → Keeps P m → Keeps P k → Keeps P (if b then m else k)
  Keeps-if true h l = h
  Keeps-if false h l = l

  pub Keeps-cases :
      {A B : Type 0} (o : Option A) {m : M V B} {f : A → M V B}
      → Keeps P m
      → ((a : A) → Keeps P (f a))
      → Keeps P (cases o m f)
  Keeps-cases none h k = h
  Keeps-cases (some a) h k = k a

pub ruleset keeps_rules =
    (Keeps-bind, Keeps-then, Keeps-done, Keeps-get, Keeps-session, Keeps-if, Keeps-cases)
