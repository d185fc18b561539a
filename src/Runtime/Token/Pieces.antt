-- ===== src/Runtime/Token/Pieces.antt =====
-- The pieces that the three token loops of src/strideruntime_string.cpp walk over.
use stridejit.Prelude.{
  Bool-cases, List, [], ap, arith, false, inl, inr, leb_ℤ, length, length-take, ltb, ltb→le,
  minus_one, negsuc, pos, pos_part, refl, suc, take, true, zero, ℕ, ℤ, ◌+◌, ◌-◌, ◌<◌, ◌∙◌, ◌∷◌, ◌≡◌,
  ◌≤◌,
}
use stridejit.Runtime.View.{StringView, view}
use stridejit.Runtime.Search.Find.{FirstOccurrence, OccursAt, find-FirstOccurrence, OccursAt-inside}
use stridejit.Runtime.Token.{next_delim, slice_at}

-- The start and the length of each piece of a view from `start` on.
pub pieces : ℕ → StringView → StringView → ℕ → List (ℕ × ℕ)
pieces zero src delim start = []
pieces (suc fuel) src delim start = elim (leb_ℤ (pos start) src.length) [
  | false ↦ []
  | true ↦ elim (next_delim src delim start) [
    | negsuc _ ↦ (start, pos_part src.length - start) ∷ []
    | pos found ↦ (start, found - start) ∷ pieces fuel src delim (found + pos_part delim.length)
  ]
]

-- A piece as a view.
abbrev pub piece_view : StringView → ℕ × ℕ → StringView
piece_view src (start, len) = slice_at src start (pos len)

-- A text of `n` bytes at `b`, and a delimiter of `k` bytes at `d`.
module _ (b d : List ℕ) (n k : ℕ) (fits : n ≤ length b) (delim_fits : k ≤ length d)
    (some_delim : 0 < k) where
  next_delim-FirstOccurrence :
      (start : ℕ)
      → FirstOccurrence (take n b) (take k d) start (next_delim (view b n) (view d k) start)
  unfolding next_delim
  next_delim-FirstOccurrence start = elim (Bool-cases (ltb start n)) [
    | inl inside ↦ rw inside (find-FirstOccurrence b d n k fits delim_fits some_delim start)
    | inr past ↦ rw past (
      refl,
      λ j p e. absurd (
          omega
            (arith, ltb→le start n past, OccursAt-inside b d n k fits delim_fits j some_delim e)),
    )
  ]

  -- The two cases of a loop's body: the last piece, or a piece that ends at a delimiter.
  pub data Round (start : ℕ) : Type 0 where
    last :
        next_delim (view b n) (view d k) start ≡ minus_one
        → ((j : ℕ) → start ≤ j → ¬ OccursAt (take n b) (take k d) j)
        → Round start
    ends_at :
        (f : ℕ)
        → next_delim (view b n) (view d k) start ≡ pos f
        → start ≤ f
        → f + k ≤ n
        → OccursAt (take n b) (take k d) f
        → ((j : ℕ) → start ≤ j → j < f → ¬ OccursAt (take n b) (take k d) j)
        → Round start

  Round-of :
      (start : ℕ) (r : ℤ)
      → next_delim (view b n) (view d k) start ≡ r
      → FirstOccurrence (take n b) (take k d) start r
      → Round start
  Round-of start (pos f) e (lo, hi, here, before) =
      ends_at f e lo (omega (arith, length-take n b, length-take k d)) here before
  Round-of start (negsuc m) e (z, never) = last (e ∙ ap negsuc z) never

  pub Round-next_delim : (start : ℕ) → Round start
  Round-next_delim start = Round-of start _ refl (next_delim-FirstOccurrence start)

  pub pieces-last :
      (fuel start : ℕ)
      → start ≤ n
      → next_delim (view b n) (view d k) start ≡ minus_one
      → pieces (suc fuel) (view b n) (view d k) start ≡ (start, n - start) ∷ []
  unfolding pieces
  pieces-last fuel start h e = ground arith

  pub pieces-ends_at :
      (fuel start f : ℕ)
      → start ≤ n
      → next_delim (view b n) (view d k) start ≡ pos f
      → pieces (suc fuel) (view b n) (view d k) start
        ≡ (start, f - start) ∷ pieces fuel (view b n) (view d k) (f + k)
  unfolding pieces
  pieces-ends_at fuel start f h e = ground arith
