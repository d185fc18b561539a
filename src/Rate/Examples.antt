-- ===== src/Rate/Examples.antt =====
-- A chain at two thirds of its domain's rate, and one at three halves.
use stridejit.Prelude.{
  [], abs_ℤ, arith, eqb_ℤ, false, leb_ℤ, ltb_ℤ, pos, refl, some, sub_ℕ, true, ℕ, ℤ, ◌*◌, ◌+ℤ◌, ◌+◌,
  ◌-ℤ◌, ◌/◌, ◌<◌, ◌∷◌, ◌≡◌, ◌≤◌,
}
use stridejit.Rate.{Reals, RateScheduleSpec, build, gcd}
use stridejit.Rate.Tick.{count_tick, phase_tick, phase_uptick, downsampled, upsampled}
use stridejit.Rate.Down.{downsampled-exact}
use stridejit.Rate.Counter.{counted-exact}
use stridejit.Rate.Up.{upsampled-exact}
use stridejit.Rate.Build.{HasSteps, IsRatio, build-steps}

-- Doubles as thousandths.
abbrev thousandths : Reals
thousandths = record {
  Real = ℤ;
  of_int = λ i. pos (abs_ℤ i * 1000);
  add = λ a b. a +ℤ b;
  sub = λ a b. a -ℤ b;
  mul = λ a b. pos (abs_ℤ a * abs_ℤ b / 1000);
  div = λ a b. pos (abs_ℤ a * 1000 / abs_ℤ b);
  abs = λ a. pos (abs_ℤ a);
  lt = ltb_ℤ;
  le = leb_ℤ;
  eq = eqb_ℤ;
  llround = λ a. pos ((abs_ℤ a + 500) / 1000);
  rate_epsilon = pos 1;
  scale_epsilon = pos 1;
  max_int_rate = pos 1000000000;
  scales = pos 1000 ∷ pos 1000000 ∷ [];
}

abbrev two_thirds : RateScheduleSpec thousandths
two_thirds = record {
  domain_rate = pos 3000;
  chain_rate = pos 2000;
  is_exact_integer = false;
  int_factor = pos 1;
  use_int64_phase = true;
  step_d = pos 3;
  step_c = pos 2;
  phase_state_field_name = "phase";
  transition_signal_name = "";
}

two_thirds-build : build thousandths (pos 3000) (pos 2000) "phase" "" ≡ two_thirds
unfolding build gcd
two_thirds-build = refl

build-steps_example :
    HasSteps thousandths two_thirds
    × (false ≡ false → true ≡ true → IsRatio thousandths (pos 3000) (pos 2000) two_thirds)
unfolding build gcd
build-steps_example = build-steps thousandths (pos 3000) (pos 2000) "phase" ""

-- In six ticks the body runs in four.
six-ticks : (downsampled (phase_tick (pos 3) (pos 2)) 6 (pos 0)).0 ≡ 4
six-ticks = refl

downsampled-exact_example :
    (r : ℕ) × (downsampled (phase_tick (pos 3) (pos 2)) 6 (pos 0) ≡ (r, sub_ℕ (r * 3) 12))
    × (10 < r * 3)
    × (r * 3 ≤ 13)
downsampled-exact_example = downsampled-exact 3 2 (omega arith) (omega arith) (omega arith) 5

counted-exact_example :
    ((downsampled (count_tick (pos 4)) 9 (pos 0)).1 ≡ pos 1)
    × ((count_tick (pos 4) (downsampled (count_tick (pos 4)) 9 (pos 0)).1).0 ≡ false)
    × ((downsampled (count_tick (pos 4)) 9 (pos 0)).0
        ≡ (downsampled (phase_tick (pos 4) (pos 1)) 9 (pos 0)).0)
counted-exact_example = counted-exact 4 (omega arith) (omega arith) 9

upsampled-exact_example :
    (r : ℕ) × (upsampled (phase_uptick 4 (pos 2) (pos 3)) 5 (pos 0) ≡ some (r, sub_ℕ (r * 2) 15))
    × (15 ≤ r * 2)
    × (r * 2 < 17)
upsampled-exact_example =
    upsampled-exact 2 3 (omega arith) (omega arith) (omega arith) 4 (omega arith) 5
