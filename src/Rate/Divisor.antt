-- ===== src/Rate/Divisor.antt =====
-- std::gcd divides both of its numbers.
use native.Mathlib.Nat.{
  mod-lt, mod_self, zero-mod, dvd_of_mod-eq-zero, dvd-mod_iff, mod-eq-zero_of_dvd, div-mul_cancel,
  mul_assoc, mul_comm, zero-mul,
}
use stridejit.Prelude.{
  ==_iff, Bool-cases, ap, arith, inl, inr, suc, sym, zero, ℕ, ◌%◌, ◌*◌, ◌/◌, ◌<◌, ◌==◌, ◌∙◌, ◌≡◌,
}
use stridejit.Rate.{gcd, gcd_loop}

gcd_loop-divides :
    (fuel a b : ℕ) → b < fuel → (a % gcd_loop fuel a b ≡ 0) × (b % gcd_loop fuel a b ≡ 0)
gcd_loop-divides zero a b h = absurd (omega arith)
gcd_loop-divides (suc fuel) a b h = elim (Bool-cases (b == 0)) [
  | inl e ↦
      let none_left : b ≡ 0 = (==_iff b 0).0 e in
      rw (gcd_loop, e) (mod_self a, ap (λ m. m % a) none_left ∙ zero-mod a)
  | inr e ↦
      let some_left : 0 < b = ground arith in
      let g = gcd_loop fuel b (a % b) in
      let (left, right) = gcd_loop-divides fuel b (a % b) (omega (arith, mod-lt a some_left)) in
      let divides = (dvd-mod_iff g (dvd_of_mod-eq-zero g left)).0 (dvd_of_mod-eq-zero g right) in
      rw (gcd_loop, e) (mod-eq-zero_of_dvd g divides, left)
]

-- The quotients of two numbers that are not 0 are not 0, and are to each other as the numbers are.
pub gcd-quotients :
    (a b : ℕ)
    → 0 < a
    → 0 < b
    → (0 < a / gcd a b) × (0 < b / gcd a b) × (a / gcd a b * b ≡ b / gcd a b * a)
unfolding gcd
gcd-quotients a b p q =
    let g = gcd_loop (suc b) a b in
    let (left, right) = gcd_loop-divides (suc b) a b (omega arith) in
    let whole_a = div-mul_cancel g (dvd_of_mod-eq-zero g left) in
    let whole_b = div-mul_cancel g (dvd_of_mod-eq-zero g right) in
    let x = a / g in
    let y = b / g in
    (
      not_zero x g a whole_a p,
      not_zero y g b whole_b q,
      ap (λ m. x * m) (sym whole_b)
          ∙ sym (mul_assoc x y g)
          ∙ ap (λ m. m * g) (mul_comm x y)
          ∙ mul_assoc y x g
          ∙ ap (λ m. y * m) whole_a,
    )
  where
    not_zero : (x g a : ℕ) → x * g ≡ a → 0 < a → 0 < x
    not_zero zero g a e p = absurd (omega (arith, zero-mul g))
    not_zero (suc x) g a e p = omega arith
