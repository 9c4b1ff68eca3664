-- ===== src/Mock/Names.antt =====
-- The names of the fake entries: the digits of their numbers.
use old_broker_repo.Prelude.{ℕ, zero, suc, ◌^◌, ◌<◌, [], ◌≡◌, arith, ap, sym, ◌∙◌}
use old_broker_repo.Server.Address.{value_from, value_from-digits_from}
use old_broker_repo.Mock.{itoa}

power_bound : (i : ℕ) → i < 10 ^ suc i
power_bound zero = omega arith
power_bound (suc i) = let ih = power_bound i in omega arith

-- The fuel of the digits is enough: read back, they give the number.
pub value_from-itoa : (i : ℕ) → value_from 0 (itoa i) ≡ i
unfolding itoa
value_from-itoa i = value_from-digits_from i i [] (power_bound i)

-- Numbers have texts of their own.
pub itoa_injective : (i j : ℕ) → itoa i ≡ itoa j → i ≡ j
itoa_injective i j h = sym (value_from-itoa i) ∙ ap (value_from 0) h ∙ value_from-itoa j
