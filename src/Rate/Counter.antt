-- ===== src/Rate/Counter.antt =====
-- DownsampleExprAST with a counter, against the exact phase.
use native.Mathlib.Nat.{suc-mul, zero-mul, mod-lt, zero-mod, mul-le-mul_right}
use stridejit.Prelude.{
  ==_iff, Bool-cases, ap, arith, false, if◌then◌else◌, inl, inr, leb, leb_ℤ, leb→le, leb→lt, pos,
  refl, suc, sym, wrap_i32, zero, ℕ, ◌%◌, ◌*◌, ◌+◌, ◌<◌, ◌==◌, ◌^◌, ◌∙◌, ◌≡◌, ◌≤◌, ◌⊎◌,
}
use stridejit.Buffer.Ring.Slots.{next_slot}
use stridejit.Rate.Tick.{count_tick, phase_tick, downsampled}
use stridejit.Rate.Down.{IsDue, downsampled-step, downsampled-IsDue}

pub wrap_i32-small : (n : ℕ) → n < 2 ^ 31 → wrap_i32 (pos n) ≡ pos n
wrap_i32-small n h = ground arith

-- As often as is due, there is one number.
due-once : (factor r s n : ℕ) → IsDue factor 1 r n → IsDue factor 1 s n → r ≤ s
due-once factor r s n h k = elim (Bool-cases (leb r s)) [
  | inl e ↦ leb→le r s e
  | inr e ↦
      let more = mul-le-mul_right factor (leb→lt r s e) in
      absurd (omega (arith, more, suc-mul s factor, h, k))
]

module _ (factor : ℕ) (p : 0 < factor) (small : factor < 2 ^ 31) where
  -- The counter after `n` ticks.
  count_tick-counts :
      (n : ℕ) → count_tick (pos factor) (pos (n % factor)) ≡ (n % factor == 0, pos (suc n % factor))
  count_tick-counts n =
      let low = mod-lt n p in
      let next = next_slot n factor p in
      let limit = wrap_i32-small factor small in
      let inc = wrap_i32-small (n % factor + 1) (omega (arith, low)) in
      rw (count_tick, limit, inc, next) (ap (λ z. (n % factor == 0, z)) (wraps (n % factor) low))
    where
      wraps :
          (r : ℕ)
          → r < factor
          → (if leb_ℤ (pos factor) (pos (r + 1)) then pos 0 else pos (r + 1))
            ≡ pos (if suc r == factor then 0 else suc r)
      wraps r low = ground arith

  -- How often the body has run after `n` ticks.
  IsCounted : ℕ → ℕ → Type 0
  IsCounted r n =
      (n % factor ≡ 0) × (r * factor ≡ n)
      ⊎ (0 < n % factor) × (r * factor + n % factor ≡ n + factor)

  IsCounted-suc :
      (r n : ℕ) → IsCounted r n → IsCounted (if n % factor == 0 then suc r else r) (suc n)
  unfolding IsCounted
  IsCounted-suc r n h = elim (Bool-cases (suc (n % factor) == factor)) [
    | inl e ↦
        let last = (==_iff (suc (n % factor)) factor).0 e in
        let start : suc n % factor ≡ 0 = rw e at (next_slot n factor p) in wrapped h last start
    | inr e ↦
        let more : suc n % factor ≡ suc (n % factor) = rw e at (next_slot n factor p) in
        going h more
  ]
    where
      wrapped :
          IsCounted r n
          → suc (n % factor) ≡ factor
          → suc n % factor ≡ 0
          → IsCounted (if n % factor == 0 then suc r else r) (suc n)
      wrapped (inl (m, e)) last start = inl (start, rw m (omega (arith, suc-mul r factor)))
      wrapped (inr (m, e)) last start =
          let off : n % factor == 0 ≡ false = ground arith in inl (start, rw off (omega arith))

      going :
          IsCounted r n
          → suc n % factor ≡ suc (n % factor)
          → IsCounted (if n % factor == 0 then suc r else r) (suc n)
      going (inl (m, e)) more =
          inr (omega (arith, more), rw m (omega (arith, more, suc-mul r factor)))
      going (inr (m, e)) more =
          let off : n % factor == 0 ≡ false = ground arith in
          inr (omega (arith, more), rw off (omega (arith, more)))

  downsampled-IsCounted :
      (n : ℕ)
      → (r : ℕ) × (downsampled (count_tick (pos factor)) n (pos 0) ≡ (r, pos (n % factor)))
        × IsCounted r n
  unfolding IsCounted
  downsampled-IsCounted zero =
      (0, rw (zero-mod factor) refl, inl (zero-mod factor, zero-mul factor))
  downsampled-IsCounted (suc n) =
      let (r, e, counted) = downsampled-IsCounted n in
      (
        (if n % factor == 0 then suc r else r),
        downsampled-step (count_tick (pos factor)) n (pos 0) r (pos (n % factor)) (n % factor == 0)
            (pos (suc n % factor)) e (count_tick-counts n),
        IsCounted-suc r n counted,
      )

  IsCounted-IsDue : (r n : ℕ) → IsCounted r n → IsDue factor 1 r n
  unfolding IsCounted
  IsCounted-IsDue r n (inl (m, e)) = (omega arith, omega arith)
  IsCounted-IsDue r n (inr (m, e)) = (omega (arith, mod-lt n p), omega (arith, mod-lt n p))

  -- A counter with a limit 0 < N < 2 ^ 31 that starts at 0 is n modulo N after n ticks; the body runs
  -- in exactly the ticks whose number is a multiple of N, and after n ticks it has run as often as
  -- under the exact phase with the steps N and 1.
  pub counted-exact :
      (n : ℕ)
      → ((downsampled (count_tick (pos factor)) n (pos 0)).1 ≡ pos (n % factor))
        × ((count_tick (pos factor) (downsampled (count_tick (pos factor)) n (pos 0)).1).0
            ≡ (n % factor == 0))
        × ((downsampled (count_tick (pos factor)) n (pos 0)).0
            ≡ (downsampled (phase_tick (pos factor) (pos 1)) n (pos 0)).0)
  counted-exact n =
      let (r, e, counted) = downsampled-IsCounted n in
      let (s, f, due) = downsampled-IsDue factor 1 (omega arith) (omega arith) (omega arith) n in
      let mine = IsCounted-IsDue r n counted in
      let same : r ≡ s =
        omega (arith, due-once factor r s n mine due, due-once factor s r n due mine) in
      let first = ap (λ q. q.0) e in
      let second = ap (λ q. q.1) e in
      (
        second,
        ap (λ c. (count_tick (pos factor) c).0) second ∙ ap (λ q. q.0) (count_tick-counts n),
        first ∙ same ∙ sym (ap (λ q. q.0) f),
      )
