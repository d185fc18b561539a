-- ===== src/TestSpec/Examples.antt =====
-- Streams of integers, with doubles that are integers.
use stridejit.Prelude.{
  [], abs_ℤ, eqb_ℤ, false, if◌then◌else◌, leb_ℤ, ltb_ℤ, pos, refl, true, ℤ, ◌+ℤ◌, ◌-ℤ◌, ◌↔◌, ◌∷◌,
  ◌≡◌,
}
use stridejit.TestSpec.{
  Numbers, near, max_error, int32, SignalStreamVector, matches_tick, matches_array, format_value,
  format_condition,
}
use stridejit.TestSpec.Arrays.{MatchesStream, matches_array_iff}

abbrev integers : Numbers
integers = record {
  Real = ℤ;
  of_int = λ i. i;
  add = λ a b. a +ℤ b;
  sub = λ a b. a -ℤ b;
  abs = λ a. pos (abs_ℤ a);
  lt = ltb_ℤ;
  le = leb_ℤ;
  eq = eqb_ℤ;
  show_real = λ a. if eqb_ℤ a (pos 5) then "5" else "?";
  show_int = λ a. if eqb_ℤ a (pos 5) then "5" else "?";
  default_epsilon = pos 0;
  default_max_error = pos 0;
  default_min_snr = pos 80;
}

abbrev fives : SignalStreamVector integers
fives = record {
  values = int32 (pos 5) ∷ [];
  tick_values = (int32 (pos 5) ∷ int32 (pos 5) ∷ []) ∷ [];
  is_array_port = false;
  epsilon = pos 1;
  max_error_of = pos 2;
  min_snr = pos 80;
  kind = near;
}

five-condition : format_condition integers fives 0 ≡ "approx == [5, 5] (+/- ?)"
unfolding format_condition format_value
five-condition = refl

-- An error of 1 is within the stream's greatest error, and an array with it does not match.
abbrev tolerant : SignalStreamVector integers
tolerant = record fives { kind = max_error }

tolerant-value : matches_tick integers tolerant (int32 (pos 6)) 0 ≡ true
unfolding matches_tick
tolerant-value = refl

matches_array_iff_example :
    (matches_array integers tolerant (int32 (pos 5) ∷ int32 (pos 6) ∷ []) 0 ≡ true)
    ↔ MatchesStream integers tolerant (int32 (pos 5) ∷ int32 (pos 6) ∷ []) 0
matches_array_iff_example =
    matches_array_iff integers tolerant (int32 (pos 5) ∷ int32 (pos 6) ∷ []) 0

tolerant-array : matches_array integers tolerant (int32 (pos 5) ∷ int32 (pos 6) ∷ []) 0 ≡ false
unfolding matches_array matches_tick
tolerant-array = refl
