-- ===== src/Decimal/DigitsLaws.antt =====
-- Reading what was written.
use dos_amigos_ops.Base.{
  Bool-cases, Text, [], arith, false, inl, inr, ltb, refl, suc, true, zero, ℕ, ◌%◌, ◌*◌, ◌++◌, ◌+◌,
  ◌-◌, ◌/◌, ◌<◌, ◌∙◌, ◌∷◌, ◌≡◌,
}
use dos_amigos_ops.Decimal.Digits.{digits, digits_from, number_from}

pub number_from-append :
    (n : ℕ) (s t : Text) → number_from n (s ++ t) ≡ number_from (number_from n s) t
unfolding number_from
number_from-append n [] t = refl
number_from-append n (c ∷ s) t = number_from-append (n * 10 + (c - 48)) s t

pub digits_from_small : (fuel n : ℕ) → ltb n 10 ≡ true → digits_from (suc fuel) n ≡ (48 + n) ∷ []
unfolding digits_from
digits_from_small fuel n h = rw (h, digits_from) refl

pub digits_from_large :
    (fuel n : ℕ)
    → ltb n 10 ≡ false
    → digits_from (suc fuel) n ≡ digits_from fuel (n / 10) ++ (48 + n % 10) ∷ []
unfolding digits_from
digits_from_large fuel n h = rw (h, digits_from) refl

number_from-digits_from : (fuel n : ℕ) → n < fuel → number_from 0 (digits_from fuel n) ≡ n
unfolding number_from
number_from-digits_from zero n h = absurd (omega (arith, h))
number_from-digits_from (suc fuel) n h = elim (Bool-cases (ltb n 10)) [
  | inl small ↦ rw (digits_from_small fuel n small) (ground arith)
  | inr large ↦ rw (digits_from_large fuel n large) (
      number_from-append 0 (digits_from fuel (n / 10)) ((48 + n % 10) ∷ [])
      ∙ rw (number_from-digits_from fuel (n / 10) (ground arith)) (ground arith))
]

-- The digits of a number stand for it.
pub number_from-digits : (n : ℕ) → number_from 0 (digits n) ≡ n
unfolding digits
number_from-digits n = number_from-digits_from (suc n) n (omega arith)
