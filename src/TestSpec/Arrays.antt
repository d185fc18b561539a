-- ===== src/TestSpec/Arrays.antt =====
-- Matching the elements of an array.
use mathlib.Core.Option.{some-injective}
use mathlib.Core.Path.{subst}
use stridejit.Prelude.{
  ==_iff, Bool-cases, List, Option-cases, [], arith, false, get_elem?, inl, inr, length, refl, some,
  suc, sym, true, zero, ℕ, ◌==◌, ◌↔◌, ◌∙◌, ◌∷◌, ◌≡◌, ◌⊎◌,
}
use stridejit.TestSpec.{
  Numbers, SignalScalarValue, SignalStreamVector, matches_value, matches_tick, matches_array,
  matches_all, element_stream,
}
use stridejit.TestSpec.Match.{with_default, element-value}

module _ (N : Numbers) (s : SignalStreamVector N) where
  -- Two lists match at each index.
  abbrev pub MatchesEach : List (SignalScalarValue N) → List (SignalScalarValue N) → Type 0
  MatchesEach actual expected =
      (i : ℕ) (a e : SignalScalarValue N)
      → get_elem? actual i ≡ some a
      → get_elem? expected i ≡ some e
      → matches_value N (with_default N s) a e ≡ true

  all-each :
      (actual expected : List (SignalScalarValue N))
      → matches_all N s actual expected ≡ true
      → MatchesEach actual expected
  all-each [] expected h = λ i a e at_a at_e. cc
  all-each (x ∷ xs) [] h = λ i a e at_a at_e. cc
  all-each (x ∷ xs) (y ∷ ys) h =
      go (Bool-cases (matches_tick N (element_stream N s y) x 0)) (all-each xs ys)
    where
      go :
          (matches_tick N (element_stream N s y) x 0 ≡ true)
            ⊎ (matches_tick N (element_stream N s y) x 0 ≡ false)
          → (matches_all N s xs ys ≡ true → MatchesEach xs ys)
          → MatchesEach (x ∷ xs) (y ∷ ys)
      go (inl on) later zero a e at_a at_e =
          subst (λ v. matches_value N (with_default N s) v e ≡ true) (some-injective x a at_a)
            (subst (λ w. matches_value N (with_default N s) x w ≡ true) (some-injective y e at_e)
              (sym (element-value N s.kind s x y refl) ∙ on))
      go (inl on) later (suc i) a e at_a at_e =
          let rest : matches_all N s xs ys ≡ true = rw (matches_all, on) at h in
          later rest i a e at_a at_e
      go (inr off) later i a e at_a at_e =
          let wrong : false ≡ true = rw (matches_all, off) at h in cc

  each-all :
      (actual expected : List (SignalScalarValue N))
      → length actual ≡ length expected
      → MatchesEach actual expected
      → matches_all N s actual expected ≡ true
  each-all [] expected l h = refl
  each-all (x ∷ xs) [] l h = absurd (omega arith)
  each-all (x ∷ xs) (y ∷ ys) l h =
      let first = element-value N s.kind s x y refl ∙ h 0 x y refl refl in
      rw (matches_all, first) (each-all xs ys (omega arith) (λ i. h (suc i)))

  -- The stream has an array for a tick that a list matches at each index.
  abbrev pub MatchesStream : List (SignalScalarValue N) → ℕ → Type 0
  MatchesStream actual tick =
      (expected : List (SignalScalarValue N)) × (get_elem? s.tick_values tick ≡ some expected)
      × (length actual ≡ length expected)
      × MatchesEach actual expected

  -- The elements of an array match at a tick exactly when the stream has an array of the same length
  -- for this tick, and each element matches the one at its index as a single value does with the
  -- stream's kind and epsilon, but with the default greatest error in place of the stream's.
  pub matches_array_iff :
      (actual : List (SignalScalarValue N)) (tick : ℕ)
      → (matches_array N s actual tick ≡ true) ↔ MatchesStream actual tick
  unfolding matches_array
  matches_array_iff actual tick = (forward, backward)
    where
      forward : matches_array N s actual tick ≡ true → MatchesStream actual tick
      forward h = elim (Option-cases (get_elem? s.tick_values tick)) [
        | inl e ↦ let wrong : false ≡ true = rw (matches_array, e) at h in cc
        | inr (expected, e) ↦ elim (Bool-cases (length actual == length expected)) [
          | inl same ↦
              let all : matches_all N s actual expected ≡ true = rw (matches_array, e, same) at h in
              (
                expected,
                e,
                (==_iff (length actual) (length expected)).0 same,
                all-each actual expected all,
              )
          | inr other ↦ let wrong : false ≡ true = rw (matches_array, e, other) at h in cc
        ]
      ]

      backward : MatchesStream actual tick → matches_array N s actual tick ≡ true
      backward (expected, e, l, h) =
          rw (matches_array, e, (==_iff (length actual) (length expected)).1 l)
            (each-all actual expected l h)
