-- ===== src/Rate/Up.antt =====
-- UpsampleExprAST over any number of ticks.
use native.Mathlib.Nat.{suc-mul, zero-mul, add-mul}
use stridejit.Prelude.{
  Bool-cases, Option, ap, arith, false, inl, inr, ltb, ltb_ℤ, ltb→le, ltb→lt, pos, refl, some,
  sub_ℕ, suc, sym, true, wrap_i64, zero, ℕ, ℤ, ◌*◌, ◌+ℤ◌, ◌+◌, ◌-ℤ◌, ◌-◌, ◌<◌, ◌^◌, ◌∙◌, ◌≡◌, ◌≤◌,
}
use stridejit.Rate.Tick.{count_subticks, phase_subticks, phase_uptick, upsampled}
use stridejit.Rate.Steps.{sub_ℕ-add, sub_ℕ-sub, sub_ℕ-wrap, sub_ℕ-lt}
use stridejit.Rate.Counter.{wrap_i32-small}

-- With a factor below 2 ^ 31 and more fuel than the factor, the loop over a counter ends, and the
-- body has run as often as the factor says, from the number that is left on.
pub count_subticks-runs :
    (fuel k idx factor : ℕ)
    → idx + k ≡ factor
    → k < fuel
    → factor < 2 ^ 31
    → count_subticks fuel (pos factor) (pos idx) ≡ some k
unfolding count_subticks
count_subticks-runs zero k idx factor e h small = absurd (omega arith)
count_subticks-runs (suc fuel) zero idx factor e h small =
    let done : ltb_ℤ (pos idx) (pos factor) ≡ false = ground arith in rw done refl
count_subticks-runs (suc fuel) (suc k) idx factor e h small =
    let more : ltb_ℤ (pos idx) (pos factor) ≡ true = ground arith in
    let rest = count_subticks-runs fuel k (idx + 1) factor (omega arith) (omega arith) small in
    rw (more, wrap_i32-small (idx + 1) (omega arith), rest) refl

module _ (step_d step_c : ℕ) (p : 0 < step_d) (small_d : step_d < 2 ^ 61)
    (small_c : step_c < 2 ^ 61) where
  subticks-more :
      (fuel : ℕ) (phase next : ℤ) (k : ℕ) (last : ℤ)
      → ltb_ℤ phase (pos step_c) ≡ true
      → wrap_i64 (phase +ℤ pos step_d) ≡ next
      → phase_subticks fuel (pos step_d) (pos step_c) next ≡ some (k, last)
      → phase_subticks (suc fuel) (pos step_d) (pos step_c) phase ≡ some (suc k, last)
  unfolding phase_subticks
  subticks-more fuel phase next k last e f g = rw (e, f, g) refl

  subticks-done :
      (fuel : ℕ) (phase : ℤ)
      → ltb_ℤ phase (pos step_c) ≡ false
      → phase_subticks (suc fuel) (pos step_d) (pos step_c) phase ≡ some (0, phase)
  unfolding phase_subticks
  subticks-done fuel phase e = rw e refl

  -- The loop ends at the first phase that is not below the chain's step.
  subticks-end :
      (fuel a b : ℕ)
      → b ≤ a
      → a < b + step_c + step_d
      → b + step_c - a < fuel
      → (k : ℕ) × (phase_subticks fuel (pos step_d) (pos step_c) (sub_ℕ a b)
          ≡ some (k, sub_ℕ (a + k * step_d) b))
        × (b + step_c ≤ a + k * step_d)
        × (a + k * step_d < b + step_c + step_d)
  subticks-end zero a b le lt room = absurd (omega arith)
  subticks-end (suc fuel) a b le lt room = elim (Bool-cases (ltb a (b + step_c))) [
    | inl e ↦
        let below = ltb→lt a (b + step_c) e in
        let (k, rest, lo, hi) =
          subticks-end fuel (a + step_d) b (omega arith) (omega (arith, below))
            (omega (arith, below)) in
        let same : a + step_d + k * step_d ≡ a + suc k * step_d = omega (arith, suc-mul k step_d) in
        (
          suc k,
          subticks-more fuel (sub_ℕ a b) (sub_ℕ (a + step_d) b) k (sub_ℕ (a + suc k * step_d) b)
              (sub_ℕ-lt a b step_c ∙ e)
              (ap wrap_i64 (sub_ℕ-add a b step_d)
                ∙ sub_ℕ-wrap (a + step_d) b (omega arith) (omega arith))
              (rest ∙ ap (λ m. some (k, sub_ℕ m b)) same),
          omega (arith, same, lo),
          omega (arith, same, hi),
        )
    | inr e ↦
        let above = ltb→le a (b + step_c) e in
        let same : a ≡ a + 0 * step_d = omega (arith, zero-mul step_d) in
        (
          0,
          subticks-done fuel (sub_ℕ a b) (sub_ℕ-lt a b step_c ∙ e)
              ∙ ap (λ m. some (0, sub_ℕ m b)) same,
          omega (arith, same, above),
          omega (arith, same),
        )
  ]

  -- The phase after `n` ticks and `r` runs of the body, which are enough for the ticks.
  abbrev pub IsEnough : ℕ → ℕ → Type 0
  IsEnough r n = (n * step_c ≤ r * step_d) × (r * step_d < n * step_c + step_d)

  uptick-end :
      (fuel r n : ℕ)
      → step_c < fuel
      → IsEnough r n
      → (k : ℕ) × (phase_uptick fuel (pos step_d) (pos step_c) (sub_ℕ (r * step_d) (n * step_c))
          ≡ some (k, sub_ℕ ((r + k) * step_d) (suc n * step_c)))
        × IsEnough (r + k) (suc n)
  uptick-end fuel r n room (lo, hi) =
      let a = r * step_d in
      let b = n * step_c in
      let (k, ended, lo', hi') = subticks-end fuel a b lo (omega arith) (omega arith) in
      let runs : a + k * step_d ≡ (r + k) * step_d = sym (add-mul r k step_d) in
      let ticks : b + step_c ≡ suc n * step_c = sym (suc-mul n step_c) in
      let stored : wrap_i64 (sub_ℕ (a + k * step_d) b -ℤ pos step_c)
          ≡ sub_ℕ ((r + k) * step_d) (suc n * step_c) =
        ap wrap_i64 (sub_ℕ-sub (a + k * step_d) b step_c)
        ∙ sub_ℕ-wrap (a + k * step_d) (b + step_c) (omega arith) (omega arith)
        ∙ ap (λ m. sub_ℕ m (b + step_c)) runs
        ∙ ap (sub_ℕ ((r + k) * step_d)) ticks in
      (
        k,
        stores fuel (sub_ℕ a b) k (sub_ℕ (a + k * step_d) b) ended ∙ ap (λ z. some (k, z)) stored,
        (omega (arith, runs, ticks, lo'), omega (arith, runs, ticks, hi')),
      )
    where
      stores :
          (fuel : ℕ) (phase : ℤ) (k : ℕ) (last : ℤ)
          → phase_subticks fuel (pos step_d) (pos step_c) phase ≡ some (k, last)
          → phase_uptick fuel (pos step_d) (pos step_c) phase
            ≡ some (k, wrap_i64 (last -ℤ pos step_c))
      stores fuel phase k last e = rw (phase_uptick, e) refl

  -- With steps 0 < stepD < 2 ^ 61 and stepC < 2 ^ 61, from the phase 0, and with more fuel than stepC:
  -- the loop of every tick ends. After n ticks the body has run r times, where r * stepD is at least
  -- n * stepC and less than stepD above it, however many ticks there are; and the phase is
  -- r * stepD - n * stepC, so that no sum has overflowed.
  pub upsampled-exact :
      (fuel : ℕ)
      → step_c < fuel
      → (n : ℕ)
      → (r : ℕ) × (upsampled (phase_uptick fuel (pos step_d) (pos step_c)) n (pos 0)
          ≡ some (r, sub_ℕ (r * step_d) (n * step_c)))
        × (n * step_c ≤ r * step_d)
        × (r * step_d < n * step_c + step_d)
  upsampled-exact fuel room zero = (
    0,
    rw (zero-mul step_d, zero-mul step_c) refl,
    omega (arith, zero-mul step_d, zero-mul step_c),
    omega (arith, zero-mul step_d, zero-mul step_c),
  )
  upsampled-exact fuel room (suc n) =
      let (r, e, lo, hi) = upsampled-exact fuel room n in
      let (k, ticked, enough) = uptick-end fuel r n room (lo, hi) in
      (
        r + k,
        upsampled-step (phase_uptick fuel (pos step_d) (pos step_c)) n (pos 0) r
            (sub_ℕ (r * step_d) (n * step_c)) k (sub_ℕ ((r + k) * step_d) (suc n * step_c)) e
            ticked,
        enough.0,
        enough.1,
      )
    where
      upsampled-step :
          (tick : ℤ → Option (ℕ × ℤ)) (n : ℕ) (phase : ℤ) (r : ℕ) (now : ℤ) (k : ℕ) (next : ℤ)
          → upsampled tick n phase ≡ some (r, now)
          → tick now ≡ some (k, next)
          → upsampled tick (suc n) phase ≡ some (r + k, next)
      upsampled-step tick n phase r now k next e f = rw (upsampled, e, f) refl
