-- ===== src/Routes/Closes.antt =====
-- Rules for what a reply says about the trace at its moment, from any state.
use signbyte_bff.Base.{Bool, true, false, List, ◌≡◌, refl, Option, none, some, if◌then◌else◌}
use signbyte_bff.Server.{Effect}
use signbyte_bff.Server.Monad.{
  Reply, Res, value, replied, panicked, St, M, follow, reply, ret, ◌>>=◌, on_store, deferred,
}
use signbyte_bff.Routes.Relay.{some_or, require}

abbrev pub EndsIn :
    {Db A : Type 0} → (Reply → List Effect → Type 0) → (A → Type 0) → Res A × St Db → Type 0
EndsIn T Q (value a, s) = Q a
EndsIn T Q (replied r, s) = T r s.trace
EndsIn T Q (panicked, s) = Unit

-- From any state a reply has `T` with the trace at that moment, and a value has `Q`.
pub record Closes {Db A : Type 0} (T : Reply → List Effect → Type 0) (Q : A → Type 0) (m : M Db A)
    : Type 0 where
  pub at : (s : St Db) → EndsIn T Q (m s)

module _ {Db : Type 0} {T : Reply → List Effect → Type 0} where
  module _ {A B : Type 0} {Q : A → Type 0} {S : B → Type 0} where
    Closes-follow :
        (f : A → M Db B)
        → ((a : A) → Q a → Closes T S (f a))
        → (o : Res A × St Db) → EndsIn T Q o
        → EndsIn T S (follow f o)
    Closes-follow f h (value a, s) q = (h a q).at s
    Closes-follow f h (replied r, s) q = q
    Closes-follow f h (panicked, s) q = q

    pub Closes-bind :
        (m : M Db A) (f : A → M Db B)
        → Closes T Q m
        → ((a : A) → Q a → Closes T S (f a))
        → Closes T S (m >>= f)
    unfolding ◌>>=◌
    Closes-bind m f h k = record { at = λ s. Closes-follow f k (m s) (h.at s) }

  module _ {A : Type 0} {Q : A → Type 0} where
    pub Closes-ret : (a : A) → Q a → Closes T Q (ret {Db = Db} a)
    unfolding ret
    Closes-ret a q = record { at = λ s. q }

    pub Closes-reply :
        (r : Reply) → ((trace : List Effect) → T r trace) → Closes T Q (reply {Db = Db} r)
    unfolding reply
    Closes-reply r h = record { at = λ s. h s.trace }

    pub Closes-if :
        (b : Bool) (m n : M Db A)
        → (b ≡ true → Closes T Q m)
        → (b ≡ false → Closes T Q n)
        → Closes T Q (if b then m else n)
    Closes-if true m n h k = h refl
    Closes-if false m n h k = k refl

    pub Closes-deferred : (f : Db → Db) (m : M Db A) → Closes T Q m → Closes T Q (deferred f m)
    unfolding deferred
    Closes-deferred f m h = record { at = λ s. ended (m s) (h.at s) }
      where
        ended : (o : Res A × St Db) → EndsIn T Q o → EndsIn T Q (o.0, record o.1 { db = f o.1.db })
        ended (value a, s) q = q
        ended (replied r, s) q = q
        ended (panicked, s) q = q

  module _ {A : Type 0} where
    pub Closes-on_store : (f : Db → A × Db) → Closes T (λ a. Unit {0}) (on_store f)
    unfolding on_store
    Closes-on_store f = record { at = λ s. tt }

    pub Closes-some_or :
        (r : Reply) (o : Option A)
        → ((trace : List Effect) → T r trace)
        → Closes T (λ a. o ≡ some a) (some_or {Db = Db} r o)
    unfolding some_or
    Closes-some_or r none h = Closes-reply r h
    Closes-some_or r (some a) h = Closes-ret a refl

  pub Closes-require :
      (b : Bool) (r : Reply)
      → ((trace : List Effect) → T r trace)
      → Closes T (λ u. b ≡ true) (require {Db = Db} b r)
  unfolding require
  Closes-require true r h = Closes-ret tt refl
  Closes-require false r h = Closes-reply r h
