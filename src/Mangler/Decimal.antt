-- ===== src/Mangler/Decimal.antt =====
-- Reading back the number that a length-prefixed name starts with.
use stridejit.Prelude.{
  Bool, Bool-cases, List, [], ap, arith, false, if◌then◌else◌, inl, inr, leb, ltb, ltb→le, ltb→lt,
  refl, suc, true, zero, ℕ, ◌%◌, ◌&&◌, ◌*◌, ◌++◌, ◌+◌, ◌-◌, ◌/◌, ◌<◌, ◌∙◌, ◌∷◌, ◌≡◌, ◌≤◌, ◌⊎◌,
}
use stridejit.Mangler.{decimal_before, decimal}

abbrev pub is_digit : ℕ → Bool
is_digit c = leb b'0' c && leb c b'9'

-- The number that the text starts with, behind `n`, and the text behind it.
pub read_number : ℕ → List ℕ → ℕ × List ℕ
read_number n [] = (n, [])
read_number n (c ∷ cs) =
    let longer = read_number (n * 10 + (c - b'0')) cs in if is_digit c then longer else (n, c ∷ cs)

-- The text does not start with a digit.
abbrev pub NoDigit : List ℕ → Type 0
NoDigit [] = Unit
NoDigit (c ∷ cs) = is_digit c ≡ false

digit_small : (d : ℕ) → d < 10 → is_digit (b'0' + d) ≡ true
digit_small d p = ground arith

read-digit :
    (n d : ℕ) (rest : List ℕ)
    → d < 10
    → read_number n ((b'0' + d) ∷ rest) ≡ read_number (n * 10 + d) rest
unfolding read_number
read-digit n d rest p =
    let digit : is_digit (b'0' + d) ≡ true = ground arith in
    let same : n * 10 + (b'0' + d - b'0') ≡ n * 10 + d = omega arith in rw (digit, same) refl

zero_times : (n : ℕ) → 0 * 10 + n ≡ n
zero_times n = omega arith

read-decimal_before :
    (rounds n : ℕ) (rest : List ℕ)
    → n < rounds
    → read_number 0 (decimal_before rounds n rest) ≡ read_number n rest
unfolding decimal_before
read-decimal_before zero n rest p = absurd (omega arith)
read-decimal_before (suc rounds) n rest p = elim (Bool-cases (ltb n 10)) [
  | inl small ↦
      rw (decimal_before, small)
        (read-digit 0 n rest (ltb→lt n 10 small) ∙ ap (λ k. read_number k rest) (zero_times n))
  | inr large ↦
      let small : n % 10 < 10 = omega arith in
      let whole : n / 10 * 10 + n % 10 ≡ n = omega arith in
      rw (decimal_before, large)
        (read-decimal_before rounds (n / 10) ((b'0' + n % 10) ∷ rest)
            (omega (arith, ltb→le n 10 large))
          ∙ read-digit (n / 10) (n % 10) rest small
          ∙ ap (λ k. read_number k rest) whole)
]

decimal_before-append :
    (rounds n : ℕ) (rest more : List ℕ)
    → decimal_before rounds n rest ++ more ≡ decimal_before rounds n (rest ++ more)
unfolding decimal_before
decimal_before-append zero n rest more = refl
decimal_before-append (suc rounds) n rest more = elim (Bool-cases (ltb n 10)) [
  | inl small ↦ rw (decimal_before, small) refl
  | inr large ↦
      rw (decimal_before, large)
        (decimal_before-append rounds (n / 10) ((b'0' + n % 10) ∷ rest) more)
]

read-NoDigit : (n : ℕ) (rest : List ℕ) → NoDigit rest → read_number n rest ≡ (n, rest)
unfolding read_number
read-NoDigit n [] h = refl
read-NoDigit n (c ∷ cs) h = rw h refl

-- A number that is written before a text is read back with that text.
pub read-decimal :
    (n : ℕ) (rest : List ℕ) → NoDigit rest → read_number 0 (decimal n ++ rest) ≡ (n, rest)
unfolding decimal
read-decimal n rest h =
    ap (read_number 0) (decimal_before-append (suc n) n [] rest)
    ∙ read-decimal_before (suc n) n rest (omega arith)
    ∙ read-NoDigit n rest h

abbrev pub StartsWithDigit : List ℕ → Type 0
StartsWithDigit [] = ⊥
StartsWithDigit (c ∷ cs) = is_digit c ≡ true

decimal_before-StartsWithDigit :
    (rounds n : ℕ) (rest : List ℕ)
    → (1 ≤ rounds) ⊎ StartsWithDigit rest
    → StartsWithDigit (decimal_before rounds n rest)
unfolding decimal_before
decimal_before-StartsWithDigit zero n rest (inl p) = absurd (omega arith)
decimal_before-StartsWithDigit zero n rest (inr h) = h
decimal_before-StartsWithDigit (suc rounds) n rest h = elim (Bool-cases (ltb n 10)) [
  | inl small ↦ rw (decimal_before, small) (digit_small n (ltb→lt n 10 small))
  | inr large ↦
      let digit : is_digit (b'0' + n % 10) ≡ true = ground arith in
      rw (decimal_before, large)
        (decimal_before-StartsWithDigit rounds (n / 10) ((b'0' + n % 10) ∷ rest) (inr digit))
]

pub decimal-StartsWithDigit : (n : ℕ) (rest : List ℕ) → StartsWithDigit (decimal n ++ rest)
unfolding decimal
decimal-StartsWithDigit n rest =
    rw (decimal_before-append (suc n) n [] rest)
      (decimal_before-StartsWithDigit (suc n) n rest (inl (omega arith)))
