-- ===== src/Runtime/Search/Find.antt =====
-- What `__stride_string_find` and `__stride_string_find_last` return.
use stridejit.Prelude.{
  Bool, Bool-cases, List, ap, arith, drop, false, if◌then◌else◌, inl, inr, length, length-drop,
  length-take, ltb, ltb→le, ltb→lt, minus_one, negsuc, pos, refl, suc, sym, take, take-drop-take,
  true, zero, ℕ, ℤ, ◌+◌, ◌-◌, ◌<◌, ◌∙◌, ◌≡◌, ◌≤◌,
}
use native.Mathlib.Decide.{ℕ_discrete}
use native.Mathlib.Nat.{le_refl}
use stridejit.Runtime.View.{view}
use stridejit.Runtime.Search.{same_bytes, find_from, find, find_last_from, find_last}
use stridejit.Runtime.Search.Bytes.{same_bytes_sound, same_bytes_complete}

-- The `k` bytes of `nd` stand in `h` at `j`.
abbrev pub OccursAt : List ℕ → List ℕ → ℕ → Type 0
OccursAt h nd j = take (length nd) (drop j h) ≡ nd

-- A result for the positions from `i` up to `e`: the first at which the test holds.
abbrev pub FirstMatch : (ℕ → Bool) → ℕ → ℕ → ℤ → Type 0
FirstMatch test i e (pos f) =
    (i ≤ f) × (f < e) × (test f ≡ true) × ((j : ℕ) → i ≤ j → j < f → test j ≡ false)
FirstMatch test i e (negsuc m) = (m ≡ 0) × ((j : ℕ) → i ≤ j → j < e → test j ≡ false)

FirstMatch-step :
    (test : ℕ → Bool) (i e : ℕ) (r : ℤ)
    → test i ≡ false
    → FirstMatch test (i + 1) e r
    → FirstMatch test i e r
FirstMatch-step test i e (pos f) no_match (lo, hi, hit, before) = (
  omega arith,
  hi,
  hit,
  λ j p q. elim (ℕ_discrete i j) [
    | yes same ↦ rw (← same) no_match
    | no other ↦ before j (omega arith) q
  ],
)
FirstMatch-step test i e (negsuc m) no_match (z, before) = (
  z,
  λ j p q. elim (ℕ_discrete i j) [
    | yes same ↦ rw (← same) no_match
    | no other ↦ before j (omega arith) q
  ],
)

pub find_from-FirstMatch :
    (h nd : List ℕ) (k i rounds e : ℕ)
    → i + rounds ≡ e
    → FirstMatch (λ j. same_bytes (drop j h) nd k) i e (find_from h nd k i rounds)
unfolding find_from
find_from-FirstMatch h nd k i zero e p = (refl, λ j lo hi. absurd (omega arith))
find_from-FirstMatch h nd k i (suc rounds) e p = elim (Bool-cases (same_bytes (drop i h) nd k)) [
  | inl hit ↦ rw hit (le_refl i, omega arith, hit, λ j lo hi. absurd (omega arith))
  | inr miss ↦
      rw miss
        (FirstMatch-step _ i e _ miss (find_from-FirstMatch h nd k (i + 1) rounds e (omega arith)))
]

-- The same, for the last position below `e`.
abbrev pub LastMatch : (ℕ → Bool) → ℕ → ℤ → Type 0
LastMatch test e (pos f) = (f < e) × (test f ≡ true) × ((j : ℕ) → f < j → j < e → test j ≡ false)
LastMatch test e (negsuc m) = (m ≡ 0) × ((j : ℕ) → j < e → test j ≡ false)

LastMatch-step :
    (test : ℕ → Bool) (e : ℕ) (r : ℤ)
    → test e ≡ false
    → LastMatch test e r
    → LastMatch test (suc e) r
LastMatch-step test e (pos f) no_match (hi, hit, after) = (
  omega arith,
  hit,
  λ j p q. elim (ℕ_discrete e j) [
    | yes same ↦ rw (← same) no_match
    | no other ↦ after j p (omega arith)
  ],
)
LastMatch-step test e (negsuc m) no_match (z, after) = (
  z,
  λ j q. elim (ℕ_discrete e j) [
    | yes same ↦ rw (← same) no_match
    | no other ↦ after j (omega arith)
  ],
)

find_last_from-LastMatch :
    (h nd : List ℕ) (k e : ℕ)
    → LastMatch (λ j. same_bytes (drop j h) nd k) e (find_last_from h nd k e)
unfolding find_last_from
find_last_from-LastMatch h nd k zero = (refl, λ j hi. absurd (omega arith))
find_last_from-LastMatch h nd k (suc e) = elim (Bool-cases (same_bytes (drop e h) nd k)) [
  | inl hit ↦ rw hit (omega arith, hit, λ j lo hi. absurd (omega arith))
  | inr miss ↦ rw miss (LastMatch-step _ e _ miss (find_last_from-LastMatch h nd k e))
]

-- A haystack of `n` bytes at `h`, and a needle of `k` bytes at `nd`.
module _ (h nd : List ℕ) (n k : ℕ) (fits : n ≤ length h) (needle_fits : k ≤ length nd) where
  match-OccursAt :
      (j : ℕ) → j + k ≤ n → same_bytes (drop j h) nd k ≡ true → OccursAt (take n h) (take k nd) j
  match-OccursAt j inside e =
      let size : length (take k nd) ≡ k = omega (arith, length-take k nd) in
      rw size (
        take-drop-take k j n h (omega arith)
        ∙ same_bytes_sound (drop j h) nd k (omega (arith, length-drop j h)) needle_fits e)

  pub OccursAt-inside : (j : ℕ) → 0 < k → OccursAt (take n h) (take k nd) j → j + k ≤ n
  OccursAt-inside j p e = omega (
    arith,
    ap length e,
    length-take k nd,
    length-take (length (take k nd)) (drop j (take n h)),
    length-drop j (take n h),
    length-take n h,
  )

  OccursAt-match :
      (j : ℕ) → 0 < k → OccursAt (take n h) (take k nd) j → same_bytes (drop j h) nd k ≡ true
  OccursAt-match j p e =
      let size : length (take k nd) ≡ k = omega (arith, length-take k nd) in
      same_bytes_complete (drop j h) nd k
        (sym (take-drop-take k j n h (omega (arith, OccursAt-inside j p e))) ∙ (rw size at e))

-- What a search from `s` on promises: the first occurrence, or -1 where there is none.
abbrev pub FirstOccurrence : List ℕ → List ℕ → ℕ → ℤ → Type 0
FirstOccurrence h nd s (pos f) =
    (s ≤ f)
    × (f + length nd ≤ length h)
    × OccursAt h nd f
    × ((j : ℕ) → s ≤ j → j < f → ¬ OccursAt h nd j)
FirstOccurrence h nd s (negsuc m) = (m ≡ 0) × ((j : ℕ) → s ≤ j → ¬ OccursAt h nd j)

-- What a search from the end promises.
abbrev pub LastOccurrence : List ℕ → List ℕ → ℤ → Type 0
LastOccurrence h nd (pos f) =
    (f + length nd ≤ length h) × OccursAt h nd f × ((j : ℕ) → f < j → ¬ OccursAt h nd j)
LastOccurrence h nd (negsuc m) = (m ≡ 0) × ((j : ℕ) → ¬ OccursAt h nd j)

module _ (h nd : List ℕ) (n k : ℕ) (fits : n ≤ length h) (needle_fits : k ≤ length nd)
    (some_needle : 0 < k) where
  FirstMatch-FirstOccurrence :
      (s : ℕ) (r : ℤ)
      → FirstMatch (λ j. same_bytes (drop j h) nd k) s (n + 1 - k) r
      → FirstOccurrence (take n h) (take k nd) s r
  FirstMatch-FirstOccurrence s (pos f) (lo, hi, hit, before) = (
    lo,
    omega (arith, length-take k nd, length-take n h),
    match-OccursAt h nd n k fits needle_fits f (omega arith) hit,
    λ j p q e. cc (before j p q, OccursAt-match h nd n k fits needle_fits j some_needle e),
  )
  FirstMatch-FirstOccurrence s (negsuc m) (z, before) = (
    z,
    λ j p e. cc (
      before j p (
          let inside : j + k ≤ n = OccursAt-inside h nd n k fits needle_fits j some_needle e in
          omega arith),
      OccursAt-match h nd n k fits needle_fits j some_needle e,
    ),
  )

  LastMatch-LastOccurrence :
      (r : ℤ)
      → LastMatch (λ j. same_bytes (drop j h) nd k) (n + 1 - k) r
      → LastOccurrence (take n h) (take k nd) r
  LastMatch-LastOccurrence (pos f) (hi, hit, after) = (
    omega (arith, length-take k nd, length-take n h),
    match-OccursAt h nd n k fits needle_fits f (omega arith) hit,
    λ j p e. cc (
      after j p (
          let inside : j + k ≤ n = OccursAt-inside h nd n k fits needle_fits j some_needle e in
          omega arith),
      OccursAt-match h nd n k fits needle_fits j some_needle e,
    ),
  )
  LastMatch-LastOccurrence (negsuc m) (z, after) = (
    z,
    λ j e. cc (
      after j (
          let inside : j + k ≤ n = OccursAt-inside h nd n k fits needle_fits j some_needle e in
          omega arith),
      OccursAt-match h nd n k fits needle_fits j some_needle e,
    ),
  )

  find-eq :
      (s : ℕ)
      → find (view h n) (view nd k) (pos s)
        ≡ (if ltb n (s + k) then minus_one else find_from h nd k s (n + 1 - k - s))
  unfolding find
  find-eq s = ground (arith)

  find_last-eq : find_last (view h n) (view nd k) ≡ find_last_from h nd k (n + 1 - k)
  unfolding find_last
  find_last-eq = ground (arith)

  find-FirstMatch :
      (s : ℕ)
      → FirstMatch
          (λ j. same_bytes (drop j h) nd k)
          s
          (n + 1 - k)
          (find (view h n) (view nd k) (pos s))
  find-FirstMatch s = elim (Bool-cases (ltb n (s + k))) [
    | inl past ↦
        rw (find-eq s, past) (refl, λ j lo hi. absurd (omega (arith, ltb→lt n (s + k) past)))
    | inr room ↦
        rw (find-eq s, room)
          (find_from-FirstMatch h nd k s (n + 1 - k - s) (n + 1 - k)
            (omega (arith, ltb→le n (s + k) room)))
  ]

  -- A search with a needle that is not empty, from a start that is not negative, returns the first
  -- position from there on at which the needle's bytes stand in the haystack, and -1 where there
  -- is none.
  pub find-FirstOccurrence :
      (s : ℕ) → FirstOccurrence (take n h) (take k nd) s (find (view h n) (view nd k) (pos s))
  find-FirstOccurrence s = FirstMatch-FirstOccurrence s _ (find-FirstMatch s)

  -- The search from the end returns the last such position, and -1 where there is none.
  pub find_last-LastOccurrence :
      LastOccurrence (take n h) (take k nd) (find_last (view h n) (view nd k))
  find_last-LastOccurrence =
      rw find_last-eq (LastMatch-LastOccurrence _ (find_last_from-LastMatch h nd k (n + 1 - k)))
