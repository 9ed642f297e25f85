-- ===== src/Base/Lists.antt =====
-- Lists with native lengths, and Go's `map[string]bool` as the list of the keys that were set.
use Prim.Native.Nat.{ℕ, suc, ◌+◌}
use Prim.Native.String.{String}
use mathlib.Core.Path.{◌≡◌, refl, sym, subst}
use mathlib.Core.Bool.{Bool, true, false, ◌||◌}
use mathlib.Core.Logic.{◌⊎◌, inl, inr}
use mathlib.Core.List.{List, [], ◌∷◌, ◌++◌}
use native.Mathlib.Omega.{arith}
use text.Mathlib.Text.{◌==◌}
use text.Mathlib.TextEquality.{eq_iff}
use signbyte_bff.Base.Tests.{if◌then◌else◌}

module _ {ℓ} {A : Type ℓ} where
  abbrev pub length : List A → ℕ
  length [] = 0
  length (x ∷ xs) = suc (length xs)

  -- The elements that pass a test, in their order.
  unfoldable pub keep : (A → Bool) → List A → List A
  keep p [] = []
  keep p (x ∷ xs) = let rest = keep p xs in if p x then x ∷ rest else rest

  pub length-append : (xs ys : List A) → length (xs ++ ys) ≡ length xs + length ys
  length-append [] ys = omega arith
  length-append (x ∷ xs) ys = omega (arith, length-append xs ys)

  -- A predicate of every element.
  module _ {κ} (P : A → Type κ) where
    abbrev pub All : List A → Type κ
    All [] = Unit
    All (x ∷ xs) = P x × All xs

    pub All-append : (xs ys : List A) → All xs → All ys → All (xs ++ ys)
    All-append [] ys h k = k
    All-append (x ∷ xs) ys (p, h) k = (p, All-append xs ys h k)

module _ {A : Type 0} where
  -- `x` is an element of the list.
  abbrev pub In : A → List A → Type 0
  In x [] = ⊥
  In x (y ∷ ys) = (x ≡ y) ⊎ In x ys

  pub In-append_left : (x : A) (xs ys : List A) → In x xs → In x (xs ++ ys)
  In-append_left x [] ys h = elim h [ ]
  In-append_left x (y ∷ xs) ys (inl e) = inl e
  In-append_left x (y ∷ xs) ys (inr h) = inr (In-append_left x xs ys h)

  pub In-append_right : (x : A) (xs ys : List A) → In x ys → In x (xs ++ ys)
  In-append_right x [] ys h = h
  In-append_right x (y ∷ xs) ys h = inr (In-append_right x xs ys h)

  pub In-append_cases : (x : A) (xs ys : List A) → In x (xs ++ ys) → In x xs ⊎ In x ys
  In-append_cases x [] ys h = inr h
  In-append_cases x (y ∷ xs) ys (inl e) = inl (inl e)
  In-append_cases x (y ∷ xs) ys (inr h) = elim (In-append_cases x xs ys h) [
    | inl k ↦ inl (inr k)
    | inr k ↦ inr k
  ]

  pub In-keep : (p : A → Bool) (xs : List A) (x : A) → In x (keep p xs) → In x xs × (p x ≡ true)
  unfolding keep
  In-keep p [] x m = elim m [ ]
  In-keep p (y ∷ xs) x m = ground (arith, In-keep p xs x)

  pub keep-In : (p : A → Bool) (xs : List A) (x : A) → In x xs → p x ≡ true → In x (keep p xs)
  unfolding keep
  keep-In p [] x m h = elim m [ ]
  keep-In p (y ∷ xs) x m h = ground (arith, keep-In p xs x)

pub All-In : {A : Type 0} (P : A → Type 0) (xs : List A) (x : A) → All P xs → In x xs → P x
All-In P [] x h m = absurd m
All-In P (y ∷ xs) x (p, h) (inl e) = subst P (sym e) p
All-In P (y ∷ xs) x (p, h) (inr m) = All-In P xs x h m

-- `set[k]` for a set whose keys were stored one by one.
unfoldable pub contains : List String → String → Bool
contains [] k = false
contains (x ∷ xs) k = x == k || contains xs k

pub contains-append :
    (xs ys : List String) (k : String) → contains (xs ++ ys) k ≡ (contains xs k || contains ys k)
unfolding contains
contains-append [] ys k = refl
contains-append (x ∷ xs) ys k = ground (arith, contains-append xs ys k)

pub contains→In : (xs : List String) (k : String) → contains xs k ≡ true → In k xs
unfolding contains
contains→In [] k h = ground arith
contains→In (x ∷ xs) k h = ground (arith, contains→In xs k, eq_iff x k)

pub In→contains : (xs : List String) (k : String) → In k xs → contains xs k ≡ true
unfolding contains
In→contains [] k h = elim h [ ]
In→contains (x ∷ xs) k h = ground (arith, In→contains xs k, eq_iff x k)
