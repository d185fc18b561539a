-- ===== src/TestSpec.antt =====
-- The assertions of function tests: src/testing/testspec.cpp and include/stride/testing/testspec.hpp.
-- What a double does, and how an output stream prints a number, are parameters.
pub mod Match
pub mod Arrays
mod Examples
use Prim.Native.String.{◌++◌ as str_append}
use stridejit.Prelude.{
  Bool, List, Option, String, [], eqb_ℤ, false, get_elem?, if◌then◌else◌, leb, length, ltb, none,
  not, pos, some, true, ℕ, ℤ, ◌&&◌, ◌==◌, ◌∷◌,
}

-- Doubles, the printing of numbers, and the defaults of a stream's tolerances.
pub record Numbers : Type 1 where
  pub Real : Type 0
  pub of_int : ℤ → Real
  pub add : Real → Real → Real
  pub sub : Real → Real → Real
  pub abs : Real → Real
  pub lt : Real → Real → Bool
  pub le : Real → Real → Bool
  pub eq : Real → Real → Bool
  pub show_real : Real → String
  pub show_int : ℤ → String
  pub default_epsilon : Real
  pub default_max_error : Real
  pub default_min_snr : Real

pub data AssertionKind : Type 0 where
  equal near is_true is_false greater_than greater_than_or_equal : AssertionKind
  less_than less_than_or_equal max_error snr : AssertionKind

module _ (N : Numbers) where
  open N use {Real, of_int, add, sub, abs, lt, le, eq, show_real, show_int}

  -- `SignalScalarValue`
  pub data SignalScalarValue : Type 0 where
    real : Real → SignalScalarValue
    int32 int64 : ℤ → SignalScalarValue
    boolean : Bool → SignalScalarValue

  pub record SignalStreamVector : Type 0 where
    pub values : List SignalScalarValue
    pub tick_values : List (List SignalScalarValue)
    pub is_array_port : Bool
    pub epsilon : Real
    pub max_error_of : Real
    pub min_snr : Real
    pub kind : AssertionKind

  abbrev pub to_double : SignalScalarValue → Real
  to_double (real r) = r
  to_double (int32 i) = of_int i
  to_double (int64 i) = of_int i
  to_double (boolean b) = if b then of_int (pos 1) else of_int (pos 0)

  abbrev pub to_bool : SignalScalarValue → Bool
  to_bool (real r) = not (eq r (of_int (pos 0)))
  to_bool (int32 i) = not (eqb_ℤ i (pos 0))
  to_bool (int64 i) = not (eqb_ℤ i (pos 0))
  to_bool (boolean b) = b

  abbrev pub bool_eq : Bool → Bool → Bool
  bool_eq true b = b
  bool_eq false b = not b

  -- `size`
  abbrev pub size_of : SignalStreamVector → ℕ
  size_of s = if not (length s.tick_values == 0) then length s.tick_values else length s.values

  abbrev pub within : SignalScalarValue → SignalScalarValue → Real → Bool
  within actual expected tolerance =
      le (abs (sub (to_double actual) (to_double expected))) tolerance

  -- `AssertionKind::Equal`
  abbrev pub equal_values : Real → SignalScalarValue → SignalScalarValue → Bool
  equal_values epsilon actual (boolean b) = bool_eq (to_bool actual) b
  equal_values epsilon (boolean b) expected = bool_eq b (to_bool expected)
  equal_values epsilon (int32 a) (int32 e) = eqb_ℤ a e
  equal_values epsilon (int32 a) (int64 e) = eqb_ℤ a e
  equal_values epsilon (int64 a) (int32 e) = eqb_ℤ a e
  equal_values epsilon (int64 a) (int64 e) = eqb_ℤ a e
  equal_values epsilon actual expected = within actual expected epsilon

  -- The switch on the kind.
  abbrev pub holds_for :
      AssertionKind → SignalStreamVector → SignalScalarValue → SignalScalarValue → Bool
  holds_for equal s actual expected = equal_values s.epsilon actual expected
  holds_for near s actual expected = within actual expected s.epsilon
  holds_for greater_than s actual expected = lt (to_double expected) (to_double actual)
  holds_for greater_than_or_equal s actual expected =
      le (sub (to_double expected) s.epsilon) (to_double actual)
  holds_for less_than s actual expected = lt (to_double actual) (to_double expected)
  holds_for less_than_or_equal s actual expected =
      le (to_double actual) (add (to_double expected) s.epsilon)
  holds_for max_error s actual expected = within actual expected s.max_error_of
  holds_for snr s actual expected = true
  holds_for _ s actual expected = false

  -- The value that is expected at a tick.
  abbrev pub expected_at : SignalStreamVector → ℕ → Option SignalScalarValue
  expected_at s tick =
      if not s.is_array_port && ltb tick (length s.values)
      then get_elem? s.values tick
      else elim (get_elem? s.tick_values tick) [
        | none ↦ get_elem? s.values tick
        | some vs ↦ elim vs [ [] ↦ get_elem? s.values tick | v ∷ rest ↦ some v ]
      ]

  -- `matches` of a value at a tick.
  unfoldable pub matches_tick : SignalStreamVector → SignalScalarValue → ℕ → Bool
  matches_tick s actual tick = elim s.kind [
    | is_true ↦ to_bool actual
    | is_false ↦ not (to_bool actual)
    | kind ↦ elim (expected_at s tick) [
      | none ↦ false
      | some expected ↦ holds_for kind s actual expected
    ]
  ]

  -- `matches` of a value and the one that is expected.
  unfoldable pub matches_value : SignalStreamVector → SignalScalarValue → SignalScalarValue → Bool
  matches_value s actual expected = elim s.kind [
    | is_true ↦ to_bool actual
    | is_false ↦ not (to_bool actual)
    | kind ↦ holds_for kind s actual expected
  ]

  -- The stream that the elements of an array are matched with.
  abbrev pub element_stream : SignalStreamVector → SignalScalarValue → SignalStreamVector
  element_stream s expected = record {
    values = expected ∷ [];
    tick_values = [];
    is_array_port = false;
    epsilon = s.epsilon;
    max_error_of = N.default_max_error;
    min_snr = N.default_min_snr;
    kind = s.kind;
  }

  abbrev pub matches_all :
      SignalStreamVector → List SignalScalarValue → List SignalScalarValue → Bool
  matches_all s [] expected = true
  matches_all s (a ∷ rest) [] = true
  matches_all s (a ∷ later) (e ∷ es) =
      let rest = matches_all s later es in
      if matches_tick (element_stream s e) a 0 then rest else false

  -- `matches` of the elements of an array.
  unfoldable pub matches_array : SignalStreamVector → List SignalScalarValue → ℕ → Bool
  matches_array s actual tick = elim (get_elem? s.tick_values tick) [
    | none ↦ false
    | some expected ↦
        if length actual == length expected then matches_all s actual expected else false
  ]

  abbrev pub show_value : SignalScalarValue → String
  show_value (real r) = show_real r
  show_value (int32 i) = show_int i
  show_value (int64 i) = show_int i
  show_value (boolean b) = if b then "true" else "false"

  abbrev pub show_rest : List SignalScalarValue → String
  show_rest [] = "]"
  show_rest (v ∷ vs) = str_append ", " (str_append (show_value v) (show_rest vs))

  abbrev pub show_list : List SignalScalarValue → String
  show_list [] = "[]"
  show_list (v ∷ vs) = str_append "[" (str_append (show_value v) (show_rest vs))

  abbrev pub show_option : Option SignalScalarValue → String
  show_option none = "<out-of-bounds>"
  show_option (some v) = show_value v

  -- `formatValue`
  unfoldable pub format_value : SignalStreamVector → ℕ → String
  format_value s tick =
      if leb (size_of s) tick then "<out-of-bounds>" else elim (get_elem? s.tick_values tick) [
        | none ↦ show_option (expected_at s tick)
        | some vs ↦ if ltb 1 (length vs) then show_list vs else show_option (expected_at s tick)
      ]

  -- `formatCondition`
  unfoldable pub format_condition : SignalStreamVector → ℕ → String
  format_condition s tick = elim s.kind [
    | equal ↦ str_append "== " (format_value s tick)
    | near ↦ str_append "approx == " (
        str_append (format_value s tick)
          (str_append " (+/- " (str_append (show_real s.epsilon) ")")))
    | is_true ↦ "== true"
    | is_false ↦ "== false"
    | greater_than ↦ str_append "> " (format_value s tick)
    | greater_than_or_equal ↦ str_append ">= " (format_value s tick)
    | less_than ↦ str_append "< " (format_value s tick)
    | less_than_or_equal ↦ str_append "<= " (format_value s tick)
    | max_error ↦ str_append "maxError <= " (show_real s.max_error_of)
    | snr ↦ str_append "SNR >= " (str_append (show_real s.min_snr) " dB")
  ]
