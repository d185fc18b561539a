-- ===== src/TestSpec/Match.antt =====
-- What matching a value says.
use stridejit.Prelude.{Bool, arith, eqb_ℤ, false, negsuc, pos, refl, some, true, ℕ, ℤ, ◌∙◌, ◌≡◌}
use stridejit.TestSpec.{
  Numbers, AssertionKind, equal, near, is_true, is_false, greater_than, greater_than_or_equal,
  less_than, less_than_or_equal, max_error, snr, SignalScalarValue, real, int32, int64, boolean,
  SignalStreamVector, to_double, bool_eq, equal_values, holds_for, expected_at, matches_tick,
  matches_value, element_stream,
}

-- An assertion that a value meets which is the expected one.
abbrev pub is_reflexive : AssertionKind → Bool
is_reflexive is_true = false
is_reflexive is_false = false
is_reflexive greater_than = false
is_reflexive less_than = false
is_reflexive _ = true

module _ (N : Numbers) where
  -- A double that is within the tolerances of a stream from itself.
  abbrev pub IsTolerated : SignalStreamVector N → N.Real → Type 0
  IsTolerated s r =
      (N.le (N.abs (N.sub r r)) s.epsilon ≡ true)
      × (N.le (N.abs (N.sub r r)) s.max_error_of ≡ true)
      × (N.le (N.sub r s.epsilon) r ≡ true)
      × (N.le r (N.add r s.epsilon) ≡ true)

  bool_eq_self : (b : Bool) → bool_eq N b b ≡ true
  bool_eq_self true = refl
  bool_eq_self false = refl

  eqb_ℤ-self : (i : ℤ) → eqb_ℤ i i ≡ true
  eqb_ℤ-self (pos n) = ground arith
  eqb_ℤ-self (negsuc n) = ground arith

  equal_values_self :
      (epsilon : N.Real) (v : SignalScalarValue N)
      → N.le (N.abs (N.sub (to_double N v) (to_double N v))) epsilon ≡ true
      → equal_values N epsilon v v ≡ true
  equal_values_self epsilon (real r) h = h
  equal_values_self epsilon (int32 i) h = eqb_ℤ-self i
  equal_values_self epsilon (int64 i) h = eqb_ℤ-self i
  equal_values_self epsilon (boolean b) h = bool_eq_self b

  holds_for_self :
      (k : AssertionKind) (s : SignalStreamVector N) (v : SignalScalarValue N)
      → is_reflexive k ≡ true
      → IsTolerated s (to_double N v)
      → holds_for N k s v v ≡ true
  holds_for_self equal s v r h = equal_values_self s.epsilon v h.0
  holds_for_self near s v r h = h.0
  holds_for_self is_true s v r h = cc
  holds_for_self is_false s v r h = cc
  holds_for_self greater_than s v r h = cc
  holds_for_self greater_than_or_equal s v r h = h.2
  holds_for_self less_than s v r h = cc
  holds_for_self less_than_or_equal s v r h = h.3
  holds_for_self max_error s v r h = h.1
  holds_for_self snr s v r h = refl

  -- Where the assertion is no Boolean one, a match at a tick is the switch on the expected value.
  matches_tick-kind :
      (k : AssertionKind) (s : SignalStreamVector N) (actual expected : SignalScalarValue N)
      (tick : ℕ)
      → s.kind ≡ k
      → is_reflexive k ≡ true
      → expected_at N s tick ≡ some expected
      → matches_tick N s actual tick ≡ holds_for N k s actual expected
  unfolding matches_tick
  matches_tick-kind equal s actual expected tick e r h = rw (matches_tick, e, h) refl
  matches_tick-kind near s actual expected tick e r h = rw (matches_tick, e, h) refl
  matches_tick-kind is_true s actual expected tick e r h = cc
  matches_tick-kind is_false s actual expected tick e r h = cc
  matches_tick-kind greater_than s actual expected tick e r h = cc
  matches_tick-kind greater_than_or_equal s actual expected tick e r h =
      rw (matches_tick, e, h) refl
  matches_tick-kind less_than s actual expected tick e r h = cc
  matches_tick-kind less_than_or_equal s actual expected tick e r h = rw (matches_tick, e, h) refl
  matches_tick-kind max_error s actual expected tick e r h = rw (matches_tick, e, h) refl
  matches_tick-kind snr s actual expected tick e r h = rw (matches_tick, e, h) refl

  -- A value that is expected at a tick matches there, for every kind of assertion but the Boolean ones
  -- and the strict orders, if the tolerances admit its double: its distance from itself is at most
  -- the epsilon and the greatest error, and it lies between itself less and itself plus the epsilon.
  pub matches_tick_self :
      (s : SignalStreamVector N) (tick : ℕ) (v : SignalScalarValue N)
      → expected_at N s tick ≡ some v
      → is_reflexive s.kind ≡ true
      → IsTolerated s (to_double N v)
      → matches_tick N s v tick ≡ true
  matches_tick_self s tick v e r h =
      matches_tick-kind s.kind s v v tick refl r e ∙ holds_for_self s.kind s v r h

  -- The stream with the default greatest error.
  abbrev pub with_default : SignalStreamVector N → SignalStreamVector N
  with_default s = record s { max_error_of = N.default_max_error }

  pub element-value :
      (k : AssertionKind) (s : SignalStreamVector N) (a e : SignalScalarValue N)
      → s.kind ≡ k
      → matches_tick N (element_stream N s e) a 0 ≡ matches_value N (with_default s) a e
  unfolding matches_tick matches_value
  element-value equal s a e h = rw (matches_tick, matches_value, h) refl
  element-value near s a e h = rw (matches_tick, matches_value, h) refl
  element-value is_true s a e h = rw (matches_tick, matches_value, h) refl
  element-value is_false s a e h = rw (matches_tick, matches_value, h) refl
  element-value greater_than s a e h = rw (matches_tick, matches_value, h) refl
  element-value greater_than_or_equal s a e h = rw (matches_tick, matches_value, h) refl
  element-value less_than s a e h = rw (matches_tick, matches_value, h) refl
  element-value less_than_or_equal s a e h = rw (matches_tick, matches_value, h) refl
  element-value max_error s a e h = rw (matches_tick, matches_value, h) refl
  element-value snr s a e h = rw (matches_tick, matches_value, h) refl
