-- ===== src/Rate/Build.antt =====
-- The steps that RateScheduleSpec::build chooses.
use stridejit.Prelude.{
  Bool, List, Option, Option-cases, String, [], and-cases, ap, arith, false, if-some, if◌then◌else◌,
  inl, inr, leb_ℤ, leb→le, ltb_ℤ, ltb→lt, negsuc, none, pos, refl, some, suc, sym, true, ℕ, ℤ, ◌&&◌,
  ◌*◌, ◌-◌, ◌/◌, ◌<◌, ◌||◌, ◌∙◌, ◌∷◌, ◌≡◌,
}
use stridejit.Rate.{
  Reals, RateScheduleSpec, near, new_schedule, scaled, first_scaled, with_rational, with_integer,
  build, gcd,
}
use stridejit.Rate.Divisor.{gcd-quotients}

above_zero : (i : ℤ) → ltb_ℤ (pos 0) i ≡ true → (n : ℕ) × (i ≡ pos n) × (0 < n)
above_zero (pos n) e = (n, refl, ltb→lt 0 n e)
above_zero (negsuc n) e = cc

-- The tests on two rates at one scale.
checked :
    (below : Bool) (i j : ℤ) (p q : Bool) (r : ℤ × ℤ)
    → (if below
        then (if ltb_ℤ (pos 0) i && ltb_ℤ (pos 0) j && p && q then some (i, j) else none)
        else none)
      ≡ some r
    → (d : ℕ) × (c : ℕ) × (i ≡ pos d)
      × (j ≡ pos c)
      × (0 < d)
      × (0 < c)
      × (p ≡ true)
      × (q ≡ true)
      × ((i, j) ≡ r)
checked false i j p q r e = cc
checked true i j p q r e =
    let (on, same) = if-some _ (i, j) r e in
    let (three, q_is) = and-cases (ltb_ℤ (pos 0) i && ltb_ℤ (pos 0) j && p) q on in
    let (two, p_is) = and-cases (ltb_ℤ (pos 0) i && ltb_ℤ (pos 0) j) p three in
    let (i_is, j_is) = and-cases (ltb_ℤ (pos 0) i) (ltb_ℤ (pos 0) j) two in
    let (d, d_is, low_d) = above_zero i i_is in
    let (c, c_is, low_c) = above_zero j j_is in (d, c, d_is, c_is, low_d, low_c, p_is, q_is, same)

at_least_one : (i : ℤ) → leb_ℤ (pos 1) i ≡ true → (n : ℕ) × (i ≡ pos (suc n))
at_least_one (pos n) e = (n - 1, ap pos (omega (arith, leb→le 1 n e)))
at_least_one (negsuc n) e = cc

integer_step :
    (b : Bool) (i : ℤ) (n : ℕ)
    → i ≡ pos (suc n)
    → (m : ℕ) × ((if b then i else pos 1) ≡ pos (suc m))
integer_step true i n e = (n, e)
integer_step false i n e = (0, refl)

above : (n : ℕ) → 0 < n → (m : ℕ) × (pos n ≡ pos (suc m))
above n p = (n - 1, ap pos (omega arith))

module _ (R : Reals) where
  open R use {Real, of_int, mul, lt, le, llround, rate_epsilon, scale_epsilon, scales}

  -- Two rates that are integers at a scale, but for the tolerance.
  abbrev pub IsScaled : Real → Real → ℕ → ℕ → Type 0
  IsScaled domain_rate chain_rate d c =
      (scale : Real) × (0 < d)
      × (0 < c)
      × (llround (mul domain_rate scale) ≡ pos d)
      × (llround (mul chain_rate scale) ≡ pos c)
      × (near R (mul domain_rate scale) (of_int (pos d)) scale_epsilon ≡ true)
      × (near R (mul chain_rate scale) (of_int (pos c)) scale_epsilon ≡ true)

  -- Steps above 0.
  abbrev pub HasSteps : RateScheduleSpec R → Type 0
  HasSteps s =
      (n : ℕ) × (d : ℕ) × (c : ℕ) × (s.int_factor ≡ pos (suc n))
      × (s.step_d ≡ pos (suc d))
      × (s.step_c ≡ pos (suc c))

  scaled-IsScaled :
      (domain_rate chain_rate scale : Real) (r : ℤ × ℤ)
      → scaled R domain_rate chain_rate scale ≡ some r
      → (d : ℕ) × (c : ℕ) × (r ≡ (pos d, pos c)) × IsScaled domain_rate chain_rate d c
  scaled-IsScaled domain_rate chain_rate scale r e =
      let (d, c, d_is, c_is, low_d, low_c, near_d, near_c, same) =
        checked
          (lt (mul domain_rate scale) (R.max_int_rate)
            && lt (mul chain_rate scale) (R.max_int_rate))
          (llround (mul domain_rate scale)) (llround (mul chain_rate scale))
          (near R (mul domain_rate scale) (of_int (llround (mul domain_rate scale))) scale_epsilon)
          (near R (mul chain_rate scale) (of_int (llround (mul chain_rate scale))) scale_epsilon) r
          e in
      (
        d,
        c,
        sym same ∙ ap (λ i. (i, llround (mul chain_rate scale))) d_is ∙ ap (λ j. (pos d, j)) c_is,
        (scale, low_d, low_c, d_is, c_is, rw d_is at near_d, rw c_is at near_c),
      )

  first_scaled-IsScaled :
      (domain_rate chain_rate : Real) (ss : List Real) (r : ℤ × ℤ)
      → first_scaled R domain_rate chain_rate ss ≡ some r
      → (d : ℕ) × (c : ℕ) × (r ≡ (pos d, pos c)) × IsScaled domain_rate chain_rate d c
  first_scaled-IsScaled domain_rate chain_rate [] r e = cc
  first_scaled-IsScaled domain_rate chain_rate (s ∷ ss) r e =
      elim (Option-cases (scaled R domain_rate chain_rate s)) [
        | inl none_is ↦
            first_scaled-IsScaled domain_rate chain_rate ss r (rw (first_scaled, none_is) at e)
        | inr (q, some_is) ↦
            let same : some q ≡ some r = rw (first_scaled, some_is) at e in
            scaled-IsScaled domain_rate chain_rate s r (some_is ∙ same)
      ]

  -- The steps of a ratio that is no integer are to each other as the scaled rates are.
  abbrev pub IsRatio : Real → Real → RateScheduleSpec R → Type 0
  IsRatio domain_rate chain_rate s =
      (d : ℕ) × (c : ℕ) × (step_d : ℕ) × (step_c : ℕ) × IsScaled domain_rate chain_rate d c
      × (s.step_d ≡ pos step_d)
      × (s.step_c ≡ pos step_c)
      × (step_d * c ≡ step_c * d)

  with_rational-lem :
      (domain_rate chain_rate : Real) (spec : RateScheduleSpec R) (o : Option (ℤ × ℤ))
      → HasSteps spec
      → first_scaled R domain_rate chain_rate scales ≡ o
      → HasSteps (with_rational R spec o)
        × ((with_rational R spec o).use_int64_phase ≡ true
            → IsRatio domain_rate chain_rate (with_rational R spec o))
  with_rational-lem domain_rate chain_rate spec none steps e = (steps, λ off. cc)
  with_rational-lem domain_rate chain_rate spec (some r) steps e =
      let (d, c, same, scaled_is) = first_scaled-IsScaled domain_rate chain_rate scales r e in
      let (low_x, low_y, cross) = gcd-quotients d c scaled_is.1 scaled_is.2 in
      let (n, k, l, n_is, k_is, l_is) = steps in
      let (x, x_is) = above (d / gcd d c) low_x in
      let (y, y_is) = above (c / gcd d c) low_y in
      rw same (
        (n, x, y, n_is, x_is, y_is),
        λ on. (d, c, d / gcd d c, c / gcd d c, scaled_is, refl, refl, cross),
      )

  module _ (domain_rate chain_rate : Real) (phase_field_name boundary_signal : String) where
    abbrev fresh : RateScheduleSpec R
    fresh = new_schedule R domain_rate chain_rate phase_field_name boundary_signal

    by-IsRatio :
        (same integer : Bool) (i : ℤ)
        → (integer ≡ true → leb_ℤ (pos 1) i ≡ true)
        → (let s =
              if same
              then (record fresh { is_exact_integer = true; int_factor = pos 1 })
              else (if integer
                  then with_integer R fresh i
                  else with_rational R fresh (first_scaled R domain_rate chain_rate scales)) in
            HasSteps s
            × (s.is_exact_integer ≡ false
                → s.use_int64_phase ≡ true
                → IsRatio domain_rate chain_rate s))
    by-IsRatio true integer i h = ((0, 0, 0, refl, refl, refl), λ off. cc)
    by-IsRatio false true i h =
        let (n, e) = at_least_one i (h refl) in
        let (k, k_is) = integer_step (lt chain_rate domain_rate) i n e in
        let (l, l_is) = integer_step (lt domain_rate chain_rate) i n e in
        ((n, k, l, e, k_is, l_is), λ off. cc)
    by-IsRatio false false i h =
        let (steps, ratio) =
          with_rational-lem domain_rate chain_rate fresh
            (first_scaled R domain_rate chain_rate scales) (0, 0, 0, refl, refl, refl) refl in
        (steps, λ off. ratio)

    -- Whatever doubles do: the factor and the steps of a schedule are above 0. Where it is not an
    -- integer ratio and the phase is exact, there is a scale at which both rates round to integers
    -- above 0 that are near them, and the steps are to each other exactly as these integers.
    pub build-steps :
        HasSteps (build R domain_rate chain_rate phase_field_name boundary_signal)
        × ((build R domain_rate chain_rate phase_field_name boundary_signal).is_exact_integer
              ≡ false
            → (build R domain_rate chain_rate phase_field_name boundary_signal).use_int64_phase
              ≡ true
            → IsRatio domain_rate chain_rate
                (build R domain_rate chain_rate phase_field_name boundary_signal))
    unfolding build
    build-steps =
        let ratio =
          if lt domain_rate chain_rate
          then R.div chain_rate domain_rate
          else R.div domain_rate chain_rate in
        by-IsRatio
          (le domain_rate (of_int (pos 0))
            || le chain_rate (of_int (pos 0))
            || near R domain_rate chain_rate rate_epsilon)
          (leb_ℤ (pos 1) (llround ratio) && near R ratio (of_int (llround ratio)) rate_epsilon)
          (llround ratio)
          (λ e.
            (and-cases (leb_ℤ (pos 1) (llround ratio))
              (near R ratio (of_int (llround ratio)) rate_epsilon) e).0)
