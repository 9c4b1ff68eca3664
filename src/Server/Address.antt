-- ===== src/Server/Address.antt =====
-- The address to listen on: `fmt.Sprintf(":%d", port)`.
use Prim.Native.Nat.{◌/◌, ◌%◌}
use old_broker_repo.Prelude.{
  ℕ, zero, suc, Text, codes, length, [], ◌∷◌, ◌++◌, ◌+◌, ◌-◌, ◌*◌, ◌^◌, ◌<◌, ◌≤◌, ltb,
  if◌then◌else◌, Bool-cases, inl, inr, ◌≢◌, ◌⊎◌, All, ◌≡◌, refl, arith, ◌∙◌, ap,
}

abbrev digit : ℕ → ℕ
digit n = b'0' + n % 10

-- The decimal digits of a number before those that are there; a number of w bits has at most w.
unfoldable pub digits_from : ℕ → ℕ → Text → Text
digits_from zero n out = out
digits_from (suc fuel) n out =
    let rest = digits_from fuel (n / 10) (digit n ∷ out) in if ltb n 10 then digit n ∷ out else rest

-- A port has 16 bits, hence at most five digits.
unfoldable pub address : ℕ → Text
unfolding digits_from
address port = codes ":" ++ digits_from 5 port []

-- The number that a text of digits stands for, behind those read before.
abbrev pub value_from : ℕ → Text → ℕ
value_from n [] = n
value_from n (c ∷ text) = value_from (n * 10 + (c - b'0')) text

pub value_from-digits_from :
    (fuel n : ℕ) (out : Text)
    → n < 10 ^ suc fuel
    → value_from 0 (digits_from (suc fuel) n out) ≡ value_from n out
unfolding digits_from
value_from-digits_from zero n out h = elim (Bool-cases (ltb n 10)) [
  | inl p ↦ rw p (ap (λ m. value_from m out) (omega arith))
  | inr p ↦ rw p (ap (λ m. value_from m out) (omega arith))
]
value_from-digits_from (suc fuel) n out h = elim (Bool-cases (ltb n 10)) [
  | inl p ↦ let small : n < 10 = ground arith in rw p (ap (λ m. value_from m out) (omega arith))
  | inr p ↦
      let ih = value_from-digits_from fuel (n / 10) (digit n ∷ out) (omega arith) in
      rw p (ih ∙ ap (λ m. value_from m out) (omega arith))
]

length-digits_from : (fuel n : ℕ) (out : Text) → length (digits_from fuel n out) ≤ fuel + length out
unfolding digits_from
length-digits_from zero n out = omega arith
length-digits_from (suc fuel) n out = elim (Bool-cases (ltb n 10)) [
  | inl p ↦ rw p (omega arith)
  | inr p ↦ let ih = length-digits_from fuel (n / 10) (digit n ∷ out) in rw p (omega arith)
]

-- A decimal digit.
abbrev IsDigit : ℕ → Type 0
IsDigit c = (b'0' ≤ c) × (c ≤ b'9')

-- The text does not begin with a zero.
abbrev Leads : Text → Type 0
Leads [] = ⊥
Leads (c ∷ text) = c ≢ b'0'

-- The decimal numeral of a number: its digits, with no zero in front unless it is all there is.
pub record IsNumeral (n : ℕ) (text : Text) : Type 0 where
  pub digits : All IsDigit text
  pub value : value_from 0 text ≡ n
  pub first : (text ≡ codes "0") ⊎ Leads text

digit-IsDigit : (n : ℕ) → IsDigit (digit n)
digit-IsDigit n = (omega arith, omega arith)

digits_from-IsDigit :
    (fuel n : ℕ) (out : Text) → All IsDigit out → All IsDigit (digits_from fuel n out)
unfolding digits_from
digits_from-IsDigit zero n out h = h
digits_from-IsDigit (suc fuel) n out h = elim (Bool-cases (ltb n 10)) [
  | inl p ↦ rw p (digit-IsDigit n, h)
  | inr p ↦ rw p (digits_from-IsDigit fuel (n / 10) (digit n ∷ out) (digit-IsDigit n, h))
]

-- The digits of a positive number do not begin with a zero.
digits_from-Leads :
    (fuel n : ℕ) (out : Text) → 0 < n → n < 10 ^ suc fuel → Leads (digits_from (suc fuel) n out)
unfolding digits_from
digits_from-Leads zero n out h k = elim (Bool-cases (ltb n 10)) [
  | inl p ↦ rw p (λ q. omega arith)
  | inr p ↦ absurd (ground arith)
]
digits_from-Leads (suc fuel) n out h k = elim (Bool-cases (ltb n 10)) [
  | inl p ↦ let small : n < 10 = ground arith in rw p (λ q. omega arith)
  | inr p ↦
      let large : 10 ≤ n = ground arith in
      rw p (digits_from-Leads fuel (n / 10) (digit n ∷ out) (omega arith) (omega arith))
]

digits_from-first :
    (port : ℕ) → port < 2 ^ 16 → (digits_from 5 port [] ≡ codes "0") ⊎ Leads (digits_from 5 port [])
unfolding digits_from
digits_from-first zero h = inl refl
digits_from-first (suc n) h = inr (digits_from-Leads 4 (suc n) [] (omega arith) (omega arith))

-- The address that the server listens on, for a port of 16 bits, is a colon and the decimal numeral
-- of the port: at most five characters, all of them digits, which read back give the port and do
-- not begin with a zero unless the numeral is `0`.
pub address-port :
    (port : ℕ)
    → port < 2 ^ 16
    → (digits : Text) × (address port ≡ codes ":" ++ digits)
      × IsNumeral port digits
      × (length digits ≤ 5)
unfolding address
address-port port h = (
  digits_from 5 port [],
  refl,
  record {
    digits = digits_from-IsDigit 5 port [] tt;
    value = value_from-digits_from 4 port [] (omega arith);
    first = digits_from-first port h;
  },
  omega (arith, length-digits_from 5 port []),
)
