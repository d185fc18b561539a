-- ===== src/Rate.antt =====
-- Chains that run at another rate than their domain: RateScheduleSpec of src/binaryexprast.cpp and
-- include/stride/stridejit/numberexprast.hpp. What a double does is a parameter.
pub mod Tick
pub mod Steps
pub mod Down
pub mod Counter
pub mod Up
pub mod Divisor
pub mod Build
mod Examples
use stridejit.Prelude.{
  Bool, List, Option, String, [], abs_ℤ, false, if◌then◌else◌, leb_ℤ, ltb_ℤ, none, not, pos, some,
  suc, true, zero, ℕ, ℤ, ◌%◌, ◌&&◌, ◌/◌, ◌==◌, ◌||◌, ◌∷◌,
}

-- Doubles: arithmetic, comparisons, std::llround and the constants of the source.
pub record Reals : Type 1 where
  pub Real : Type 0
  pub of_int : ℤ → Real
  pub add : Real → Real → Real
  pub sub : Real → Real → Real
  pub mul : Real → Real → Real
  pub div : Real → Real → Real
  pub abs : Real → Real
  pub lt : Real → Real → Bool
  pub le : Real → Real → Bool
  pub eq : Real → Real → Bool
  pub llround : Real → ℤ
  pub rate_epsilon : Real
  pub scale_epsilon : Real
  pub max_int_rate : Real
  pub scales : List Real

-- std::gcd of numbers that are not negative. The second number falls in each round.
abbrev pub gcd_loop : ℕ → ℕ → ℕ → ℕ
gcd_loop zero a b = a
gcd_loop (suc fuel) a b = let rest = gcd_loop fuel b (a % b) in if b == 0 then a else rest

unfoldable pub gcd : ℕ → ℕ → ℕ
gcd a b = gcd_loop (suc b) a b

module _ (R : Reals) where
  open R use {
    Real, of_int, sub, mul, div, abs, lt, le, llround, rate_epsilon, scale_epsilon, max_int_rate,
    scales,
  }

  pub record RateScheduleSpec : Type 0 where
    pub domain_rate : Real
    pub chain_rate : Real
    pub is_exact_integer : Bool
    pub int_factor : ℤ
    pub use_int64_phase : Bool
    pub step_d : ℤ
    pub step_c : ℤ
    pub phase_state_field_name : String
    pub transition_signal_name : String

  abbrev pub is_downsample : RateScheduleSpec → Bool
  is_downsample s =
      lt (of_int (pos 0)) s.domain_rate
      && lt (of_int (pos 0)) s.chain_rate
      && lt s.chain_rate s.domain_rate

  abbrev pub is_upsample : RateScheduleSpec → Bool
  is_upsample s =
      lt (of_int (pos 0)) s.domain_rate
      && lt (of_int (pos 0)) s.chain_rate
      && lt s.domain_rate s.chain_rate

  abbrev pub needs_persistent_phase_state : RateScheduleSpec → Bool
  needs_persistent_phase_state s =
      if le s.domain_rate (of_int (pos 0))
        || le s.chain_rate (of_int (pos 0))
        || R.eq s.domain_rate s.chain_rate
      then false
      else not (is_upsample s && s.is_exact_integer)

  -- Two doubles that are nearer than a bound.
  abbrev pub near : Real → Real → Real → Bool
  near a b bound = lt (abs (sub a b)) bound

  -- The fields as they are before the rates are looked at.
  abbrev pub new_schedule : Real → Real → String → String → RateScheduleSpec
  new_schedule domain_rate chain_rate phase_field_name boundary_signal = record {
    domain_rate = domain_rate;
    chain_rate = chain_rate;
    is_exact_integer = false;
    int_factor = pos 1;
    use_int64_phase = true;
    step_d = pos 1;
    step_c = pos 1;
    phase_state_field_name = phase_field_name;
    transition_signal_name = boundary_signal;
  }

  -- The rates as integers at a scale, where both are near enough to one.
  abbrev pub scaled : Real → Real → Real → Option (ℤ × ℤ)
  scaled domain_rate chain_rate scale =
      let d_scaled = mul domain_rate scale in
      let c_scaled = mul chain_rate scale in
      let d_int = llround d_scaled in
      let c_int = llround c_scaled in
      if lt d_scaled max_int_rate && lt c_scaled max_int_rate
      then (if ltb_ℤ (pos 0) d_int
            && ltb_ℤ (pos 0) c_int
            && near d_scaled (of_int d_int) scale_epsilon
            && near c_scaled (of_int c_int) scale_epsilon
          then some (d_int, c_int)
          else none)
      else none

  -- The first scale at which both are.
  abbrev pub first_scaled : Real → Real → List Real → Option (ℤ × ℤ)
  first_scaled domain_rate chain_rate [] = none
  first_scaled domain_rate chain_rate (s ∷ ss) = elim (scaled domain_rate chain_rate s) [
    | none ↦ first_scaled domain_rate chain_rate ss
    | some r ↦ some r
  ]

  -- The steps of a rational ratio, reduced.
  abbrev pub with_rational : RateScheduleSpec → Option (ℤ × ℤ) → RateScheduleSpec
  with_rational spec none = record spec { is_exact_integer = false; use_int64_phase = false }
  with_rational spec (some (d_int, c_int)) =
      let g = gcd (abs_ℤ d_int) (abs_ℤ c_int) in
      record spec {
        is_exact_integer = false;
        use_int64_phase = true;
        step_d = pos (abs_ℤ d_int / g);
        step_c = pos (abs_ℤ c_int / g);
      }

  -- The steps of an integer ratio.
  abbrev pub with_integer : RateScheduleSpec → ℤ → RateScheduleSpec
  with_integer spec rounded_ratio = record spec {
    is_exact_integer = true;
    int_factor = rounded_ratio;
    use_int64_phase = true;
    step_d = if lt spec.chain_rate spec.domain_rate then rounded_ratio else pos 1;
    step_c = if lt spec.domain_rate spec.chain_rate then rounded_ratio else pos 1;
  }

  unfoldable pub build : Real → Real → String → String → RateScheduleSpec
  build domain_rate chain_rate phase_field_name boundary_signal =
      let spec = new_schedule domain_rate chain_rate phase_field_name boundary_signal in
      let ratio =
        if lt domain_rate chain_rate
        then div chain_rate domain_rate
        else div domain_rate chain_rate in
      let rounded_ratio = llround ratio in
      if le domain_rate (of_int (pos 0))
        || le chain_rate (of_int (pos 0))
        || near domain_rate chain_rate rate_epsilon
      then record spec { is_exact_integer = true; int_factor = pos 1 }
      else (if leb_ℤ (pos 1) rounded_ratio && near ratio (of_int rounded_ratio) rate_epsilon
          then with_integer spec rounded_ratio
          else with_rational spec (first_scaled domain_rate chain_rate scales))
