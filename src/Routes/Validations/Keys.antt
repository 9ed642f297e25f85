-- ===== src/Routes/Validations/Keys.antt =====
-- The key of a cached answer names one user, one kind and one target, where no user has a colon.
use Prim.Native.String.{[] as empty_text, ◌∷◌ as cons_text}
use Prim.Native.String.{◌++◌}
use text.Mathlib.TextLemmas.{
  append_cancel_left, nil-append, cons-append, head-eq_of_cons-eq, tail-eq_of_cons-eq,
}
use Prim.Native.Char.{Char}
use signbyte_bff.Base.{
  String, Bool, true, false, ◌==◌, if◌then◌else◌, ◌≡◌, ◌≢◌, refl, sym, ap, ◌∙◌, arith, eq_iff,
}
use signbyte_bff.Routes.Validations.{answer_key}

unfoldable pub has_no_colon : String → Bool
has_no_colon empty_text = true
has_no_colon (cons_text c s) =
    let rest = has_no_colon s in if cons_text c "" == ":" then false else rest

colon-append : (a : String) → ":" ++ a ≡ cons_text ":" a
colon-append a = cons-append ":" "" a ∙ ap (λ x. cons_text ":" x) (nil-append a)

has_no_colon-head : (c : Char) (s : String) → has_no_colon (cons_text c s) ≡ true → c ≢ ":"
unfolding has_no_colon
has_no_colon-head c s h e =
    ground (arith, h, eq_iff (cons_text c "") ":", ap (λ x. cons_text x "") e)

has_no_colon-tail :
    (c : Char) (s : String) → has_no_colon (cons_text c s) ≡ true → has_no_colon s ≡ true
unfolding has_no_colon
has_no_colon-tail c s h = ground (arith, h)

-- Texts without a colon, each followed by one, are equal if the wholes are.
colon_inj :
    (s t a b : String)
    → has_no_colon s ≡ true
    → has_no_colon t ≡ true
    → s ++ ":" ++ a ≡ t ++ ":" ++ b
    → (s ≡ t) × (a ≡ b)
colon_inj empty_text empty_text a b h k e =
    (refl, append_cancel_left ":" a b (sym (nil-append (":" ++ a)) ∙ e ∙ nil-append (":" ++ b)))
colon_inj empty_text (cons_text d t) a b h k e = absurd (
    has_no_colon-head d t k (
      sym (
        head-eq_of_cons-eq
          (sym (nil-append (":" ++ a) ∙ colon-append a) ∙ e ∙ cons-append d t (":" ++ b)))))
colon_inj (cons_text c s) empty_text a b h k e = absurd (
    has_no_colon-head c s h (
      head-eq_of_cons-eq
        (sym (cons-append c s (":" ++ a)) ∙ e ∙ nil-append (":" ++ b) ∙ colon-append b)))
colon_inj (cons_text c s) (cons_text d t) a b h k e =
    let whole : cons_text c (s ++ ":" ++ a) ≡ cons_text d (t ++ ":" ++ b) =
      sym (cons-append c s (":" ++ a)) ∙ e ∙ cons-append d t (":" ++ b) in
    let (p, q) =
      colon_inj s t a b (has_no_colon-tail c s h) (has_no_colon-tail d t k)
        (tail-eq_of_cons-eq whole) in
    (λ i. cons_text (head-eq_of_cons-eq whole i) (p i), q)

-- Two answers share a key only if they are of the same user, kind and target: for users and kinds that
-- contain no colon.
pub answer_key-injective :
    (sub kind id user other target : String)
    → has_no_colon sub ≡ true
    → has_no_colon user ≡ true
    → has_no_colon kind ≡ true
    → has_no_colon other ≡ true
    → answer_key sub kind id ≡ answer_key user other target
    → (sub ≡ user) × (kind ≡ other) × (id ≡ target)
unfolding answer_key
answer_key-injective sub kind id user other target h k l m e =
    let (p, q) = colon_inj sub user (kind ++ ":" ++ id) (other ++ ":" ++ target) h k (
      append_cancel_left "va:" (sub ++ ":" ++ kind ++ ":" ++ id)
        (user ++ ":" ++ other ++ ":" ++ target) e) in
    let (r, s) = colon_inj kind other id target l m q in (p, r, s)

-- A user with a colon can share a key with another user.
pub answer_key_shared : answer_key "a" "doc" "x:doc:y" ≡ answer_key "a:doc:x" "doc" "y"
unfolding answer_key
answer_key_shared = refl
