-- ===== src/Server/Safe.antt =====
-- Rules that carry a property of the state, of the values and of the replies through an action.
use signbyte_bff.Base.{ℕ, Bool, true, false, List, Option, none, some, ◌≡◌, refl, if◌then◌else◌}
use signbyte_bff.Server.{Effect}
use signbyte_bff.Server.Monad.{
  Reply, Res, value, replied, panicked, panic, St, M, follow, reply, ret, ◌>>=◌, sample, on_store,
  from_store, deferred,
}

-- What an outcome satisfies: a value `Q`, a reply `R`; for a panic `R` holds of none.
abbrev pub Outcome : {A : Type 0} → (A → Type 0) → (Option Reply → Type 0) → Res A → Type 0
Outcome Q R (value a) = Q a
Outcome Q R (replied r) = R (some r)
Outcome Q R panicked = R none

-- From a state with `P` the action ends in one with `P`, its value has `Q` and its reply `R`.
pub record Safe {Db A : Type 0} (P : List Effect → Type 0) (R : Option Reply → Type 0)
    (Q : A → Type 0) (m : M Db A) : Type 0 where
  pub at : (s : St Db) → P s.trace → P (m s).1.trace × Outcome Q R (m s).0

-- Every value will do.
abbrev pub Any : {A : Type 0} → A → Type 0
Any a = Unit

-- Every reply will do; a panic only if the test is false.
abbrev pub Responds : Bool → Option Reply → Type 0
Responds d none = d ≡ false
Responds d (some r) = Unit

-- No value comes back, so that the action has replied or panicked.
abbrev pub Never : {A : Type 0} → A → Type 0
Never a = ⊥

-- There is a reply: no panic, and no end without one.
abbrev pub Replies : {A : Type 0} → Res A → Type 0
Replies (replied r) = Unit
Replies r = ⊥

pub Responds-Replies : {A : Type 0} (r : Res A) → Outcome Never (Responds true) r → Replies r
Responds-Replies (value a) h = h
Responds-Replies (replied r) h = tt
Responds-Replies panicked h = absurd (never h)
  where
    never : true ≡ false → ⊥
    never e = cc

module _ {Db : Type 0} {P : List Effect → Type 0} {R : Option Reply → Type 0} where
  module _ {A B : Type 0} {Q : A → Type 0} {S : B → Type 0} where
    Safe-follow :
        (f : A → M Db B)
        → ((a : A) → Q a → Safe P R S (f a))
        → (o : Res A × St Db) → P o.1.trace
        → Outcome Q R o.0
        → P (follow f o).1.trace × Outcome S R (follow f o).0
    Safe-follow f h (value a, s) p q = (h a q).at s p
    Safe-follow f h (replied r, s) p q = (p, q)
    Safe-follow f h (panicked, s) p q = (p, q)

    pub Safe-bind :
        (m : M Db A) (f : A → M Db B)
        → Safe P R Q m
        → ((a : A) → Q a → Safe P R S (f a))
        → Safe P R S (m >>= f)
    unfolding ◌>>=◌
    Safe-bind m f h k = record { at = λ s p. Safe-follow f k (m s) (h.at s p).0 (h.at s p).1 }

  module _ {A B : Type 0} {S : B → Type 0} where
    pub Safe-then :
        (m : M Db A) (f : A → M Db B)
        → Safe P R Any m
        → ((a : A) → Safe P R S (f a))
        → Safe P R S (m >>= f)
    Safe-then m f h k = Safe-bind m f h λ a q. k a

  module _ {A : Type 0} {Q : A → Type 0} where
    pub Safe-ret : (a : A) → Q a → Safe P R Q (ret {Db = Db} a)
    unfolding ret
    Safe-ret a q = record { at = λ s p. (p, q) }

    pub Safe-reply : (r : Reply) → R (some r) → Safe P R Q (reply {Db = Db} r)
    unfolding reply
    Safe-reply r q = record { at = λ s p. (p, q) }

    pub Safe-panic : R none → Safe P R Q (panic {Db = Db})
    unfolding panic
    Safe-panic q = record { at = λ s p. (p, q) }

    pub Safe-if :
        (b : Bool) (m n : M Db A)
        → (b ≡ true → Safe P R Q m)
        → (b ≡ false → Safe P R Q n)
        → Safe P R Q (if b then m else n)
    Safe-if true m n h k = h refl
    Safe-if false m n h k = k refl

  module _ {A : Type 0} where
    pub Safe-sample : (f : ℕ → A) → Safe P R Any (sample {Db = Db} f)
    unfolding sample
    Safe-sample f = record { at = λ s p. (p, tt) }

    pub Safe-on_store : (f : Db → A × Db) → Safe P R Any (on_store f)
    unfolding on_store
    Safe-on_store f = record { at = λ s p. (p, tt) }

    pub Safe-from_store : (f : Db → A) → Safe P R Any (from_store f)
    unfolding from_store
    Safe-from_store f = record { at = λ s p. (p, tt) }

    pub Safe-deferred :
        {Q : A → Type 0} (f : Db → Db) (m : M Db A) → Safe P R Q m → Safe P R Q (deferred f m)
    unfolding deferred
    Safe-deferred f m h = record { at = λ s p. h.at s p }
