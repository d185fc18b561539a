-- ===== src/Runtime/Token/Loops.antt =====
-- The three token loops, as functions of the pieces.
use stridejit.Prelude.{
  List, [], arith, get_or, if◌then◌else◌, length, map, minus_one, pos, some, suc, zero, ℕ, ℤ, ◌+◌,
  ◌-◌, ◌<◌, ◌==◌, ◌∙◌, ◌∷◌, ◌≡◌, ◌≢◌, ◌≤◌,
}
use stridejit.Runtime.View.{StringView, view, null_view}
use stridejit.Runtime.Token.{
  next_delim, slice_at, Tokens, store_token, tokenize_loop, token_at_loop, token_count_loop,
}
use stridejit.Runtime.Token.Pieces.{
  pieces, piece_view, Round, Round-next_delim, pieces-last, pieces-ends_at,
}

-- Storing tokens one after the other.
unfoldable pub store_all : ℤ → List StringView → Tokens → Tokens
store_all max_tokens [] out = out
store_all max_tokens (t ∷ ts) out = store_all max_tokens ts (store_token max_tokens t out)

-- `start <= src.length`, and the rounds that are left are enough.
module _ (b d : List ℕ) (n k : ℕ) (fits : n ≤ length b) (delim_fits : k ≤ length d)
    (some_delim : 0 < k) where
  abbrev src : StringView
  src = view b n

  abbrev delim : StringView
  delim = view d k

  loop-last :
      (fuel start : ℕ) (max_tokens : ℤ) (out : Tokens)
      → start ≤ n
      → next_delim src delim start ≡ minus_one
      → tokenize_loop (suc fuel) src delim max_tokens start out
        ≡ some (store_token max_tokens (slice_at src start (pos (n - start))) out)
  unfolding tokenize_loop
  loop-last fuel start max_tokens out h e = ground arith

  loop-ends_at :
      (fuel start f : ℕ) (max_tokens : ℤ) (out : Tokens)
      → start ≤ f
      → f + k ≤ n
      → next_delim src delim start ≡ pos f
      → tokenize_loop (suc fuel) src delim max_tokens start out
        ≡ tokenize_loop fuel src delim max_tokens
            (f + k)
            (store_token max_tokens (slice_at src start (pos (f - start))) out)
  unfolding tokenize_loop
  loop-ends_at fuel start f max_tokens out lo hi e = ground arith

  -- The loop of `tokenize` stores every piece.
  pub tokenize_loop-store_all :
      (fuel start : ℕ) (max_tokens : ℤ) (out : Tokens)
      → start ≤ n
      → n + 1 < fuel + start
      → tokenize_loop fuel src delim max_tokens start out
        ≡ some (store_all max_tokens (map (piece_view src) (pieces fuel src delim start)) out)
  unfolding store_all
  tokenize_loop-store_all zero start max_tokens out h enough = absurd (omega arith)
  tokenize_loop-store_all (suc fuel) start max_tokens out h enough =
      elim (Round-next_delim b d n k fits delim_fits some_delim start) [
        | Round.last e never ↦
            rw (pieces-last b d n k fits delim_fits some_delim fuel start h e)
              (loop-last fuel start max_tokens out h e)
        | Round.ends_at f e lo hi here before ↦
            rw (pieces-ends_at b d n k fits delim_fits some_delim fuel start f h e) (
              loop-ends_at fuel start f max_tokens out lo hi e
              ∙ tokenize_loop-store_all fuel (f + k) max_tokens _ hi (omega arith))
      ]

  at-last :
      (fuel start cur i : ℕ)
      → start ≤ n
      → next_delim src delim start ≡ minus_one
      → token_at_loop (suc fuel) src delim (pos i) cur start
        ≡ some (if cur == i then slice_at src start (pos (n - start)) else null_view)
  unfolding token_at_loop
  at-last fuel start cur i h e = ground arith

  at-ends_at :
      (fuel start f cur i : ℕ)
      → start ≤ f
      → f + k ≤ n
      → next_delim src delim start ≡ pos f
      → token_at_loop (suc fuel) src delim (pos i) cur start ≡ (
          if cur == i
          then some (slice_at src start (pos (f - start)))
          else token_at_loop fuel src delim (pos i) (cur + 1) (f + k))
  unfolding token_at_loop
  at-ends_at fuel start f cur i lo hi e = ground arith

  -- The loop of `token_at` returns the piece of the index, and the null view past the last.
  pub token_at_loop-get_or :
      (fuel start cur i j : ℕ)
      → start ≤ n
      → n + 1 < fuel + start
      → cur + j ≡ i
      → token_at_loop fuel src delim (pos i) cur start
        ≡ some (get_or (map (piece_view src) (pieces fuel src delim start)) j null_view)
  token_at_loop-get_or zero start cur i j h enough index = absurd (omega arith)
  token_at_loop-get_or (suc fuel) start cur i zero h enough index =
      elim (Round-next_delim b d n k fits delim_fits some_delim start) [
        | Round.last e never ↦
            rw (pieces-last b d n k fits delim_fits some_delim fuel start h e)
              (ground (arith, at-last fuel start cur i h e))
        | Round.ends_at f e lo hi here before ↦
            rw (pieces-ends_at b d n k fits delim_fits some_delim fuel start f h e)
              (ground (arith, at-ends_at fuel start f cur i lo hi e))
      ]
  token_at_loop-get_or (suc fuel) start cur i (suc j) h enough index =
      elim (Round-next_delim b d n k fits delim_fits some_delim start) [
        | Round.last e never ↦
            rw (pieces-last b d n k fits delim_fits some_delim fuel start h e)
              (ground (arith, at-last fuel start cur i h e))
        | Round.ends_at f e lo hi here before ↦
            rw (pieces-ends_at b d n k fits delim_fits some_delim fuel start f h e) (
              ground (
                arith,
                at-ends_at fuel start f cur i lo hi e,
                token_at_loop-get_or fuel (f + k) (cur + 1) i j hi (omega arith) (omega arith),
              ))
      ]

  count-last :
      (fuel start c : ℕ)
      → start ≤ n
      → next_delim src delim start ≡ minus_one
      → token_count_loop (suc fuel) src delim c start ≡ some (c + 1)
  unfolding token_count_loop
  count-last fuel start c h e = ground arith

  pub count-ends_at :
      (fuel start f c : ℕ)
      → start ≤ f
      → f + k ≤ n
      → next_delim src delim start ≡ pos f
      → token_count_loop (suc fuel) src delim c start
        ≡ (if f == 0 then some (c + 1) else token_count_loop fuel src delim (c + 1) (f + k))
  unfolding token_count_loop
  count-ends_at fuel start f c lo hi e = ground arith

  not_at_zero : (start : ℕ) → 0 < start → next_delim src delim start ≢ pos 0
  not_at_zero start p z = elim (Round-next_delim b d n k fits delim_fits some_delim start) [
    | Round.last e never ↦ cc
    | Round.ends_at f e lo hi here before ↦ absurd (let same : f ≡ 0 = ground arith in omega arith)
  ]

  -- The loop of `token_count` counts every piece, where no delimiter is found at position 0.
  pub token_count_loop-length :
      (fuel start c : ℕ)
      → start ≤ n
      → n + 1 < fuel + start
      → next_delim src delim start ≢ pos 0
      → token_count_loop fuel src delim c start ≡ some (c + length (pieces fuel src delim start))
  token_count_loop-length zero start c h enough ne = absurd (omega arith)
  token_count_loop-length (suc fuel) start c h enough ne =
      elim (Round-next_delim b d n k fits delim_fits some_delim start) [
        | Round.last e never ↦
            rw (pieces-last b d n k fits delim_fits some_delim fuel start h e)
              (count-last fuel start c h e)
        | Round.ends_at zero e lo hi here before ↦ absurd (ne e)
        | Round.ends_at (suc f) e lo hi here before ↦
            rw (pieces-ends_at b d n k fits delim_fits some_delim fuel start (suc f) h e) (
              ground (
                arith,
                count-ends_at fuel start (suc f) c lo hi e,
                token_count_loop-length fuel (suc f + k) (c + 1) hi (omega arith)
                    (not_at_zero (suc f + k) (omega arith)),
              ))
      ]
