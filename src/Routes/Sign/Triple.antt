-- ===== src/Routes/Sign/Triple.antt =====
-- What the steps of a handler keep of the trace, for the order of its calls.
use signbyte_bff.Base.{ℕ, String, Bool, true, false, List, if◌then◌else◌}
use signbyte_bff.Errors.{Result, ok, err}
use signbyte_bff.Server.{Effect}
use signbyte_bff.Server.Monad.{
  M, Reply, Res, value, replied, panicked, St, follow, ret, reply, ◌>>=◌, sample, on_store,
}
use signbyte_bff.Routes.Relay.{or_relay, or_reply, require, ready, decoded_body}

-- What an outcome says of the trace.
abbrev pub EndsWith :
    {Db A : Type 0} → (A → List Effect → Type 0) → (List Effect → Type 0) → Res A × St Db → Type 0
EndsWith Q R (value a, s) = Q a s.trace
EndsWith Q R (replied r, s) = R s.trace
EndsWith Q R (panicked, s) = R s.trace

-- From a trace with `P` a value leaves one with `Q`, a reply one with `R`.
pub record Triple {Db A : Type 0} (P : List Effect → Type 0) (Q : A → List Effect → Type 0)
    (R : List Effect → Type 0) (m : M Db A) : Type 0 where
  pub at : (s : St Db) → P s.trace → EndsWith Q R (m s)

module _ {Db A B : Type 0} {Q : A → List Effect → Type 0} {R : List Effect → Type 0}
    {S : B → List Effect → Type 0} where
  pub Triple-follow :
      (f : A → M Db B)
      → ((a : A) → Triple (Q a) S R (f a))
      → (o : Res A × St Db) → EndsWith Q R o
      → EndsWith S R (follow f o)
  Triple-follow f h (value a, s) q = (h a).at s q
  Triple-follow f h (replied r, s) q = q
  Triple-follow f h (panicked, s) q = q

  pub Triple-bind :
      {P : List Effect → Type 0} (m : M Db A) (f : A → M Db B)
      → Triple P Q R m
      → ((a : A) → Triple (Q a) S R (f a))
      → Triple P S R (m >>= f)
  unfolding ◌>>=◌
  Triple-bind m f h k = record { at = λ s p. Triple-follow f k (m s) (h.at s p) }

-- What is known before, besides `P`, is at hand.
pub Triple-given :
    {Db A : Type 0} {P : List Effect → Type 0} {K : Type 0} {Q : A → List Effect → Type 0}
    {R : List Effect → Type 0} (m : M Db A)
    → (K → Triple P Q R m)
    → Triple (λ trace. P trace × K) Q R m
Triple-given m h = record { at = λ s p. (h p.1).at s p.0 }

-- The action keeps `P`, whatever it ends with.
abbrev pub Stays : {Db A : Type 0} → (List Effect → Type 0) → M Db A → Type 0
Stays P m = Triple P (λ a. P) P m

-- A property of the trace that every outcome has.
pub EndsWith-same :
    {Db A : Type 0} (P : List Effect → Type 0) (o : Res A × St Db)
    → EndsWith (λ a. P) P o
    → P o.1.trace
EndsWith-same P (value a, s) h = h
EndsWith-same P (replied r, s) h = h
EndsWith-same P (panicked, s) h = h

module _ {Db A B : Type 0} {P : List Effect → Type 0} where
  pub Stays-bind :
      (m : M Db A) (f : A → M Db B) → Stays P m → ((a : A) → Stays P (f a)) → Stays P (m >>= f)
  Stays-bind m f h k = Triple-bind m f h k

module _ {Db A : Type 0} {P : List Effect → Type 0} where
  pub Stays-ret : (a : A) → Stays P (ret {Db = Db} a)
  unfolding ret
  Stays-ret a = record { at = λ s p. p }

  pub Stays-reply : (r : Reply) → Stays P (reply {Db = Db} {A = A} r)
  unfolding reply
  Stays-reply r = record { at = λ s p. p }

  pub Stays-sample : (f : ℕ → A) → Stays P (sample {Db = Db} f)
  unfolding sample
  Stays-sample f = record { at = λ s p. p }

  pub Stays-on_store : (f : Db → A × Db) → Stays P (on_store f)
  unfolding on_store
  Stays-on_store f = record { at = λ s p. p }

  pub Stays-if : (b : Bool) (m n : M Db A) → Stays P m → Stays P n → Stays P (if b then m else n)
  Stays-if true m n h k = h
  Stays-if false m n h k = k

  pub Stays-or_reply : (r : Reply) (x : Result A) → Stays P (or_reply {Db = Db} r x)
  unfolding or_reply
  Stays-or_reply r (ok a) = Stays-ret a
  Stays-or_reply r (err e) = Stays-reply r

  pub Stays-or_relay : (x : Result A) → Stays P (or_relay {Db = Db} x)
  unfolding or_relay
  Stays-or_relay (ok a) = Stays-ret a
  Stays-or_relay (err e) = Stays-reply _

  pub Stays-decoded_body : (x : Result A) → Stays P (decoded_body {Db = Db} x)
  unfolding decoded_body
  Stays-decoded_body (ok a) = Stays-ret a
  Stays-decoded_body (err e) = Stays-reply _

module _ {Db : Type 0} {P : List Effect → Type 0} where
  pub Stays-require : (b : Bool) (r : Reply) → Stays P (require {Db = Db} b r)
  unfolding require
  Stays-require true r = Stays-ret tt
  Stays-require false r = Stays-reply r

  pub Stays-ready : (code : String) (b : Bool) → Stays P (ready {Db = Db} code b)
  unfolding ready
  Stays-ready code true = Stays-ret tt
  Stays-ready code false = Stays-reply _

pub ruleset staying = (
  Stays-bind, Stays-ret, Stays-reply, Stays-sample, Stays-on_store, Stays-or_reply, Stays-or_relay,
  Stays-decoded_body, Stays-require, Stays-ready,
)
