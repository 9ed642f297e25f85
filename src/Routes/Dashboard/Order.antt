-- ===== src/Routes/Dashboard/Order.antt =====
-- `actedLater` is a strict order, and total up to the instant and the identifier.
use signbyte_bff.Base.{
  ◌≡◌, ◌⊎◌, true, false, arith, eq_iff, eq_refl, text_lt_irrefl, text_lt_trans, text_lt_total,
}
use signbyte_bff.Clients.Types.{Summary}
use signbyte_bff.Routes.Dashboard.{acted_later}

pub acted_later_irrefl : (a : Summary) → acted_later a a ≡ false
unfolding acted_later
acted_later_irrefl a = ground (arith, eq_refl a.updated_at, text_lt_irrefl a.id)

pub acted_later_trans :
    (a b c : Summary) → acted_later a b ≡ true → acted_later b c ≡ true → acted_later a c ≡ true
unfolding acted_later
acted_later_trans a b c h k = ground (
  arith,
  eq_iff a.updated_at b.updated_at,
  eq_iff b.updated_at c.updated_at,
  eq_iff a.updated_at c.updated_at,
  text_lt_trans c.updated_at b.updated_at a.updated_at,
  text_lt_trans c.id b.id a.id,
  text_lt_irrefl a.updated_at,
)

pub acted_later_total :
    (a b : Summary)
    → (acted_later a b ≡ true)
      ⊎ (acted_later b a ≡ true)
      ⊎ ((a.updated_at ≡ b.updated_at) × (a.id ≡ b.id))
unfolding acted_later
acted_later_total a b = ground (
  arith,
  eq_iff a.updated_at b.updated_at,
  eq_iff b.updated_at a.updated_at,
  text_lt_total a.updated_at b.updated_at,
  text_lt_total a.id b.id,
)

-- `acted_later` is a strict order: no envelope acted later than itself.
pub not_both : (a b : Summary) → acted_later a b ≡ true → acted_later b a ≡ true → ⊥
not_both a b h k = ground (arith, acted_later_irrefl a, acted_later_trans a b a)
