-- ===== src/Coo/Reading.antt =====
-- Numbers read back from the texts that `format(value, "f")` writes.
use native.Mathlib.Nat.{div-div-eq-div-mul}
use dos_amigos_ops.Base.{
  All, All-append, Bool, Bool-cases, Text, [], all, ap, append-nil, arith, codes, false,
  if◌then◌else◌, inl, inr, length, length-append, ltb, negsuc, pos, refl, some, subst, suc, sym,
  true, zero, ℕ, ℤ, ◌%◌, ◌*◌, ◌++◌, ◌+◌, ◌-◌, ◌/◌, ◌==◌, ◌∙◌, ◌∷◌, ◌≡◌, ◌≤◌,
}
use dos_amigos_ops.Decimal.{
  Decimal, digits, digits_from, format_f, last_digits, number_from, parse_decimal, power_of_ten,
  scan_number, signed_number,
}
use dos_amigos_ops.Decimal.DigitsLaws.{
  digits_from_large, digits_from_small, number_from-append, number_from-digits,
}
use dos_amigos_ops.Sales.{pointed}

-- A text of digits.
abbrev AllDigits : Text → Type 0
AllDigits = All (λ (c : ℕ). (48 ≤ c) × (c ≤ 57))

scan_digit :
    (n places : ℕ) (pointed numbered : Bool) (c : ℕ) (s : Text)
    → 48 ≤ c
    → c ≤ 57
    → scan_number n places pointed numbered (c ∷ s)
      ≡ scan_number (n * 10 + (c - 48)) (if pointed then places + 1 else places) pointed true s
unfolding scan_number
scan_digit n places pointed numbered c s low high = ground (arith, low, high)

-- Digits are read one after the other.
scan_digits :
    (n places : ℕ) (pointed : Bool) (d : ℕ) (ds rest : Text) (numbered : Bool)
    → AllDigits (d ∷ ds)
    → scan_number n places pointed numbered (d ∷ ds ++ rest)
      ≡ scan_number
          (number_from n (d ∷ ds))
          (if pointed then places + length (d ∷ ds) else places)
          pointed
          true
          rest
unfolding number_from
scan_digits n places pointed d [] rest numbered (h, _) =
    scan_digit n places pointed numbered d rest h.0 h.1
scan_digits n places true d (e ∷ ds) rest numbered (h, k) =
    scan_digit n places true numbered d (e ∷ ds ++ rest) h.0 h.1
    ∙ scan_digits (n * 10 + (d - 48)) (places + 1) true e ds rest true k
    ∙ ap (λ (m : ℕ). scan_number (number_from (n * 10 + (d - 48)) (e ∷ ds)) m true true rest)
        (omega arith)
scan_digits n places false d (e ∷ ds) rest numbered (h, k) =
    scan_digit n places false numbered d (e ∷ ds ++ rest) h.0 h.1
    ∙ scan_digits (n * 10 + (d - 48)) places false e ds rest true k

digits_from-AllDigits : (fuel n : ℕ) → AllDigits (digits_from fuel n)
digits_from-AllDigits zero n = unfold digits_from in tt
digits_from-AllDigits (suc fuel) n = elim (Bool-cases (ltb n 10)) [
  | inl small ↦ rw (digits_from_small fuel n small) ((omega arith, ground (arith, small)), tt)
  | inr large ↦ rw (digits_from_large fuel n large) (
      All-append (λ (c : ℕ). (48 ≤ c) × (c ≤ 57)) (digits_from fuel (n / 10)) ((48 + n % 10) ∷ [])
        (digits_from-AllDigits fuel (n / 10)) ((omega arith, omega arith), tt))
]

last_digits-AllDigits : (width n : ℕ) → AllDigits (last_digits width n)
unfolding last_digits
last_digits-AllDigits zero n = tt
last_digits-AllDigits (suc width) n =
    All-append (λ (c : ℕ). (48 ≤ c) × (c ≤ 57)) (last_digits width (n / 10)) ((48 + n % 10) ∷ [])
      (last_digits-AllDigits width (n / 10)) ((omega arith, omega arith), tt)

length-last_digits : (width n : ℕ) → length (last_digits width n) ≡ width
unfolding last_digits
length-last_digits zero n = refl
length-last_digits (suc width) n =
    length-append (last_digits width (n / 10)) ((48 + n % 10) ∷ [])
    ∙ rw (length-last_digits width (n / 10)) (omega arith)

-- The last digits behind the rest of the number.
number_from-last_digits :
    (width n : ℕ) → number_from (n / power_of_ten width) (last_digits width n) ≡ n
unfolding last_digits power_of_ten number_from
number_from-last_digits zero n = omega arith
number_from-last_digits (suc width) n =
    number_from-append (n / (10 * power_of_ten width)) (last_digits width (n / 10))
      ((48 + n % 10) ∷ [])
    ∙ ap (λ (m : ℕ). number_from (number_from m (last_digits width (n / 10))) ((48 + n % 10) ∷ []))
        (sym (div-div-eq-div-mul n 10 (power_of_ten width)))
    ∙ ap (λ (m : ℕ). number_from m ((48 + n % 10) ∷ [])) (number_from-last_digits width (n / 10))
    ∙ ground arith

ends_nonempty : (s : Text) (c : ℕ) → (d : ℕ) × (ds : Text) × (s ++ c ∷ [] ≡ d ∷ ds)
ends_nonempty [] c = (c, [], refl)
ends_nonempty (d ∷ s) c = (d, s ++ c ∷ [], refl)

-- A text of digits that is not empty begins with one.
abbrev Numbered : Text → Type 0
Numbered s = (d : ℕ) × (ds : Text) × (s ≡ d ∷ ds)

digits_nonempty : (n : ℕ) → Numbered (digits n)
unfolding digits
digits_nonempty n = elim (Bool-cases (ltb n 10)) [
  | inl small ↦ subst Numbered (sym (digits_from_small n n small)) (48 + n, [], refl)
  | inr large ↦
      subst Numbered (sym (digits_from_large n n large))
        (ends_nonempty (digits_from n (n / 10)) (48 + n % 10))
]

-- Digits, from the start.
scan_text :
    (n places : ℕ) (pointed : Bool) (s rest : Text) (numbered : Bool)
    → Numbered s
    → AllDigits s
    → scan_number n places pointed numbered (s ++ rest)
      ≡ scan_number
          (number_from n s)
          (if pointed then places + length s else places)
          pointed
          true
          rest
scan_text n places pointed s rest numbered (d, ds, e) all =
    rw e (scan_digits n places pointed d ds rest numbered (subst AllDigits e all))

scan_point : (n : ℕ) (s : Text) → scan_number n 0 false true (46 ∷ s) ≡ scan_number n 0 true true s
unfolding scan_number
scan_point n s = refl

-- What is written of a number without its sign.
abbrev unsigned : ℕ → ℕ → Text
unsigned n places =
    digits (n / power_of_ten places)
    ++ (if places == 0 then [] else codes "." ++ last_digits places n)

not_zero : (n : ℕ) → (suc n == 0) ≡ false
not_zero n = ground arith

scan-unsigned : (n places : ℕ) → scan_number 0 0 false false (unsigned n places) ≡ some (n, places)
unfolding digits last_digits power_of_ten scan_number
scan-unsigned n zero =
    scan_text 0 0 false (digits (n / 1)) [] false (digits_nonempty (n / 1))
      (digits_from-AllDigits (suc (n / 1)) (n / 1))
    ∙ ap (λ (m : ℕ). some (m, 0)) (number_from-digits (n / 1) ∙ omega arith)
scan-unsigned n (suc places) =
    let scale = power_of_ten (suc places) in
    let fraction = last_digits (suc places) n in
    ap
      (λ (whole : Bool).
        scan_number 0 0 false false
          (digits (n / scale) ++ (if whole then [] else codes "." ++ fraction)))
      (not_zero places)
    ∙ scan_text 0 0 false (digits (n / scale)) (46 ∷ fraction) false (digits_nonempty (n / scale))
        (digits_from-AllDigits (suc (n / scale)) (n / scale))
    ∙ scan_point (number_from 0 (digits (n / scale))) fraction
    ∙ ap (λ (t : Text). scan_number (number_from 0 (digits (n / scale))) 0 true true t)
        (sym (append-nil fraction))
    ∙ scan_text (number_from 0 (digits (n / scale))) 0 true fraction [] true
        (ends_nonempty (last_digits places (n / 10)) (48 + n % 10))
        (last_digits-AllDigits (suc places) n)
    ∙ ap (λ (m : ℕ). scan_number (number_from m fraction) (0 + length fraction) true true [])
        (number_from-digits (n / scale))
    ∙ ap (λ (m : ℕ). scan_number m (0 + length fraction) true true [])
        (number_from-last_digits (suc places) n)
    ∙ ap (λ (m : ℕ). some (n, 0 + m)) (length-last_digits (suc places) n)
    ∙ ap (λ (m : ℕ). some (n, m)) (omega arith)

-- A sign is read with the number behind it; a digit begins a number without one.
parse_negative :
    (s : Text) → parse_decimal (45 ∷ s) ≡ signed_number true (scan_number 0 0 false false s)
unfolding parse_decimal
parse_negative s = refl

parse_positive :
    (s : Text)
    → Numbered s
    → AllDigits s
    → (t : Text)
    → parse_decimal (s ++ t) ≡ signed_number false (scan_number 0 0 false false (s ++ t))
unfolding parse_decimal
parse_positive [] (d, ds, e) all t = cc
parse_positive (c ∷ s) numbered ((low, high), all) t = ground (arith, low)

parse_written :
    (n : ℤ) (places : ℕ)
    → parse_decimal (format_f (record { coefficient = n; places = places }))
      ≡ some (record { coefficient = n; places = places })
unfolding format_f digits
parse_written (pos n) places =
    parse_positive (digits (n / power_of_ten places)) (digits_nonempty (n / power_of_ten places))
      (digits_from-AllDigits (suc (n / power_of_ten places)) (n / power_of_ten places))
      (if places == 0 then [] else codes "." ++ last_digits places n)
    ∙ ap (signed_number false) (scan-unsigned n places)
parse_written (negsuc n) places =
    parse_negative (unsigned (suc n) places)
    ∙ ap (signed_number true) (scan-unsigned (suc n) places)

-- Reading what `format(value, "f")` writes of a number gives the number back, at its places.
pub parse_decimal-format_f : (d : Decimal) → parse_decimal (format_f d) ≡ some d
unfolding format_f
parse_decimal-format_f d = parse_written d.coefficient d.places
