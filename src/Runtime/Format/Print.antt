-- ===== src/Runtime/Format/Print.antt =====
-- C's `snprintf` at "%*d", "%0*d", "%*x", "%0*x", "%*X" and "%0*X".
use stridejit.Prelude.{
  Bool, List, [], arith, false, if◌then◌else◌, length, length-append, length-replicate, ltb, negsuc,
  pos, replicate, suc, true, zero, ℕ, ℤ, ◌%◌, ◌++◌, ◌+◌, ◌-◌, ◌/◌, ◌^◌, ◌∷◌, ◌≤◌,
}

-- A digit, upper case where asked.
abbrev digit : Bool → ℕ → ℕ
digit upper d = if ltb d 10 then b'0' + d else (if upper then b'A' else b'a') + (d - 10)

-- The digits of `n` in a base, before those of `rest`. Thirty-two rounds print 32 bits in any base.
digits : ℕ → Bool → ℕ → ℕ → List ℕ → List ℕ
digits zero upper base n rest = rest
digits (suc rounds) upper base n rest =
    let longer = digits rounds upper base (n / base) (digit upper (n % base) ∷ rest) in
    if ltb n base then digit upper n ∷ rest else longer

abbrev sign_of : ℤ → List ℕ
sign_of (pos n) = []
sign_of (negsuc n) = b'-' ∷ []

abbrev magnitude : ℤ → ℕ
magnitude (pos n) = n
magnitude (negsuc n) = suc n

-- Padding to a width: spaces before the sign, or zeros behind it.
abbrev pad_number : Bool → ℕ → List ℕ → List ℕ → List ℕ
pad_number zero_pad width sign ds =
    let missing = width - (length sign + length ds) in
    if zero_pad
    then sign ++ (replicate missing b'0' ++ ds)
    else replicate missing b' ' ++ (sign ++ ds)

unfoldable pub print_decimal : Bool → ℕ → ℤ → List ℕ
unfolding digits
print_decimal zero_pad width n =
    pad_number zero_pad width (sign_of n) (digits 32 false 10 (magnitude n) [])

-- `static_cast<uint32_t>(intVal)`
abbrev as_uint32 : ℤ → ℕ
as_uint32 (pos n) = n % 2 ^ 32
as_uint32 (negsuc n) = 2 ^ 32 - 1 - n % 2 ^ 32

unfoldable pub print_hex : Bool → Bool → ℕ → ℤ → List ℕ
unfolding digits
print_hex upper zero_pad width n =
    pad_number zero_pad width [] (digits 32 upper 16 (as_uint32 n) [])

length-pad :
    (zero_pad : Bool) (width : ℕ) (sign ds : List ℕ)
    → width ≤ length (pad_number zero_pad width sign ds)
length-pad true width sign ds =
    let k = width - (length sign + length ds) in
    omega (
      arith,
      length-append sign (replicate k b'0' ++ ds),
      length-append (replicate k b'0') ds,
      length-replicate {A = ℕ} k b'0',
    )
length-pad false width sign ds =
    let k = width - (length sign + length ds) in
    omega (
      arith,
      length-append (replicate k b' ') (sign ++ ds),
      length-append sign ds,
      length-replicate {A = ℕ} k b' ',
    )

-- The output is at least as long as the width.
pub print_decimal-width :
    (zero_pad : Bool) (width : ℕ) (n : ℤ) → width ≤ length (print_decimal zero_pad width n)
unfolding print_decimal
print_decimal-width zero_pad width n =
    length-pad zero_pad width (sign_of n) (digits 32 false 10 (magnitude n) [])

pub print_hex-width :
    (upper zero_pad : Bool) (width : ℕ) (n : ℤ) → width ≤ length (print_hex upper zero_pad width n)
unfolding print_hex
print_hex-width upper zero_pad width n =
    length-pad zero_pad width [] (digits 32 upper 16 (as_uint32 n) [])
