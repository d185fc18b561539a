-- ===== src/Rate/Down.antt =====
-- DownsampleExprAST over any number of ticks.
use native.Mathlib.Nat.{suc-mul, zero-mul}
use stridejit.Prelude.{
  Bool, Bool-cases, ap, arith, false, if◌then◌else◌, inl, inr, leb, leb_ℤ, leb→le, leb→lt, pos,
  refl, sub_ℕ, suc, sym, true, wrap_i32, wrap_i64, zero, ℕ, ℤ, ◌*◌, ◌+ℤ◌, ◌+◌, ◌-ℤ◌, ◌<◌, ◌^◌, ◌∙◌,
  ◌≡◌, ◌≤◌,
}
use stridejit.Rate.Tick.{phase_tick, downsampled}
use stridejit.Rate.Steps.{sub_ℕ-add, sub_ℕ-sub, sub_ℕ-wrap, sub_ℕ-not_pos}

pub downsampled-step {ℓ} :
    {A : Type ℓ} (tick : A → Bool × A) (n : ℕ) (phase : A) (r : ℕ) (now : A) (b : Bool) (next : A)
    → downsampled tick n phase ≡ (r, now)
    → tick now ≡ (b, next)
    → downsampled tick (suc n) phase ≡ (if b then suc r else r, next)
downsampled-step tick n phase r now b next e f = rw (downsampled, e, f) refl

wrap_i32-small : (n : ℕ) → n < 2 ^ 31 → wrap_i32 (pos n) ≡ pos n
wrap_i32-small n h = ground arith

pub le→leb : (a b : ℕ) → a ≤ b → leb a b ≡ true
le→leb a b h = ground arith

lt→leb : (a b : ℕ) → b < a → leb a b ≡ false
lt→leb a b h = ground arith

tick-runs :
    (d c p q r : ℤ)
    → leb_ℤ p (pos 0) ≡ true
    → wrap_i64 (p +ℤ d) ≡ q
    → wrap_i64 (q -ℤ c) ≡ r
    → phase_tick d c p ≡ (true, r)
tick-runs d c p q r e f g = rw (phase_tick, e, f, g) refl

tick-waits :
    (d c p r : ℤ) → leb_ℤ p (pos 0) ≡ false → wrap_i64 (p -ℤ c) ≡ r → phase_tick d c p ≡ (false, r)
tick-waits d c p r e g = rw (phase_tick, e, g) refl

module _ (step_d step_c : ℕ) where
  -- The phase after `n` ticks, `r` of which have run the body.
  abbrev phase_of : ℕ → ℕ → ℤ
  phase_of r n = sub_ℕ (r * step_d) (n * step_c)

  -- The body has run as often as it is due, and no more.
  abbrev pub IsDue : ℕ → ℕ → Type 0
  IsDue r n = (n * step_c < r * step_d + step_c) × (r * step_d + step_c ≤ n * step_c + step_d)

  module _ (p : 0 < step_c) (le : step_c ≤ step_d) (small : step_d < 2 ^ 62) where
    phase_tick-runs :
        (r n : ℕ)
        → IsDue r n
        → r * step_d ≤ n * step_c
        → phase_tick (pos step_d) (pos step_c) (phase_of r n) ≡ (true, phase_of (suc r) (suc n))
    phase_tick-runs r n due h =
        let a = r * step_d in
        let b = n * step_c in
        tick-runs (pos step_d) (pos step_c) (sub_ℕ a b) (sub_ℕ (a + step_d) b)
          (phase_of (suc r) (suc n)) (sub_ℕ-not_pos a b ∙ le→leb a b h)
          (ap wrap_i64 (sub_ℕ-add a b step_d)
            ∙ sub_ℕ-wrap (a + step_d) b (omega arith) (omega (arith, due)))
          (ap wrap_i64 (sub_ℕ-sub (a + step_d) b step_c)
            ∙ sub_ℕ-wrap (a + step_d) (b + step_c) (omega arith) (omega (arith, due))
            ∙ (let x : a + step_d ≡ suc r * step_d = sym (suc-mul r step_d) in
                let y : b + step_c ≡ suc n * step_c = sym (suc-mul n step_c) in
                ap (λ m. sub_ℕ m (b + step_c)) x ∙ ap (sub_ℕ (suc r * step_d)) y))

    phase_tick-waits :
        (r n : ℕ)
        → IsDue r n
        → n * step_c < r * step_d
        → phase_tick (pos step_d) (pos step_c) (phase_of r n) ≡ (false, phase_of r (suc n))
    phase_tick-waits r n due h =
        let a = r * step_d in
        let b = n * step_c in
        tick-waits (pos step_d) (pos step_c) (sub_ℕ a b) (phase_of r (suc n))
          (sub_ℕ-not_pos a b ∙ lt→leb a b h)
          (ap wrap_i64 (sub_ℕ-sub a b step_c)
            ∙ sub_ℕ-wrap a (b + step_c) (omega (arith, due)) (omega (arith, due))
            ∙ ap (sub_ℕ a) (sym (suc-mul n step_c)))

    -- After any number of ticks.
    pub downsampled-IsDue :
        (n : ℕ)
        → (r : ℕ) × (downsampled (phase_tick (pos step_d) (pos step_c)) n (pos 0)
            ≡ (r, phase_of r n))
          × IsDue r n
    downsampled-IsDue zero = (
      0,
      rw (zero-mul step_d, zero-mul step_c) refl,
      (
        omega (arith, zero-mul step_d, zero-mul step_c),
        omega (arith, zero-mul step_d, zero-mul step_c),
      ),
    )
    downsampled-IsDue (suc n) =
        let (r, e, due) = downsampled-IsDue n in
        elim (Bool-cases (leb (r * step_d) (n * step_c))) [
          | inl runs ↦
              let h = leb→le (r * step_d) (n * step_c) runs in
              (
                suc r,
                downsampled-step (phase_tick (pos step_d) (pos step_c)) n (pos 0) r (phase_of r n)
                    true (phase_of (suc r) (suc n)) e (phase_tick-runs r n due h),
                (
                  omega (arith, due, h, suc-mul r step_d, suc-mul n step_c),
                  omega (arith, due, h, suc-mul r step_d, suc-mul n step_c),
                ),
              )
          | inr waits ↦
              let h = leb→lt (r * step_d) (n * step_c) waits in
              (
                r,
                downsampled-step (phase_tick (pos step_d) (pos step_c)) n (pos 0) r (phase_of r n)
                    false (phase_of r (suc n)) e (phase_tick-waits r n due h),
                (omega (arith, due, h, suc-mul n step_c), omega (arith, due, h, suc-mul n step_c)),
              )
        ]

    -- With steps 0 < stepC ≤ stepD < 2 ^ 62, from the phase 0: after n + 1 ticks the body has run r
    -- times, where r * stepD is above n * stepC and at most stepD above it, however many ticks there
    -- are; and the phase is r * stepD - (n + 1) * stepC, so that no sum has overflowed.
    pub downsampled-exact :
        (n : ℕ)
        → (r : ℕ) × (downsampled (phase_tick (pos step_d) (pos step_c)) (suc n) (pos 0)
            ≡ (r, phase_of r (suc n)))
          × (n * step_c < r * step_d)
          × (r * step_d ≤ n * step_c + step_d)
    downsampled-exact n =
        let (r, e, due) = downsampled-IsDue (suc n) in
        (r, e, omega (arith, due, suc-mul n step_c), omega (arith, due, suc-mul n step_c))
