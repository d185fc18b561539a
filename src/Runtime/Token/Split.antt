-- ===== src/Runtime/Token/Split.antt =====
-- What `tokenize`, `token_at` and `token_count` return, and how they agree.
use stridejit.Prelude.{
  All, List, [], arith, get_or, get_or-take, if◌then◌else◌, inl, inr, length, length-map, ltb, map,
  pos, refl, some, suc, take, true, zero, ℕ, ◌++◌, ◌+◌, ◌<◌, ◌∙◌, ◌∷◌, ◌≡◌, ◌≢◌, ◌≤◌, ◌⊎◌,
}
use mathlib.Core.List.{append_assoc, append-nil}
use stridejit.Runtime.View.{StringView, view, null_view, to_string}
use stridejit.Runtime.Search.Find.{OccursAt}
use stridejit.Runtime.Token.{
  next_delim, Tokens, no_tokens, store_token, tokenize, token_at, token_count,
}
use stridejit.Runtime.Token.Pieces.{pieces, piece_view, Round, Round-next_delim, pieces-ends_at}
use stridejit.Runtime.Token.Loops.{
  store_all, tokenize_loop-store_all, token_at_loop-get_or, token_count_loop-length, count-ends_at,
}
use stridejit.Runtime.Token.Join.{join, pieces-join, pieces_pos, pieces-IsFree, IsFree}

length-snoc {ℓ} :
    {A : Type ℓ} (xs : List A) (x : A) (m : ℕ) (ys : List A)
    → (xs ++ x ∷ []) ++ take m ys ≡ xs ++ take (suc m) (x ∷ ys)
length-snoc xs x m ys = append_assoc xs (x ∷ []) (take m ys)

-- Past the room for tokens only the count and the flag change.
store_all-full :
    (m : ℕ) (ts : List StringView) (out : Tokens)
    → m ≤ out.token_count
    → (out.out_overflow ≡ true) ⊎ (0 < length ts)
    → store_all (pos m) ts out ≡ record {
      token_count = out.token_count + length ts;
      out_tokens = out.out_tokens;
      out_overflow = true;
    }
unfolding store_all store_token
store_all-full m [] out h o = ground arith
store_all-full m (t ∷ ts) out h o = ground (
  arith,
  store_all-full m ts (record out { token_count = out.token_count + 1; out_overflow = true })
      (omega arith) (inl refl),
)

-- With room for `m` more tokens.
pub store_all-eq :
    (m e : ℕ) (ts : List StringView) (out : Tokens)
    → out.token_count + m ≡ e
    → store_all (pos e) ts out ≡ record {
      token_count = out.token_count + length ts;
      out_tokens = out.out_tokens ++ take m ts;
      out_overflow = if ltb m (length ts) then true else out.out_overflow;
    }
unfolding store_all store_token
store_all-eq zero e [] out h = rw append-nil (ground arith)
store_all-eq (suc m) e [] out h = rw append-nil (ground arith)
store_all-eq zero e (t ∷ ts) out h =
    store_all-full e (t ∷ ts) out (omega arith) (inr (omega arith)) ∙ (rw append-nil (ground arith))
store_all-eq (suc m) e (t ∷ ts) out h = ground (
  arith,
  length-snoc out.out_tokens t m ts,
  store_all-eq m e ts
      (record out { token_count = out.token_count + 1; out_tokens = out.out_tokens ++ t ∷ [] })
      (omega arith),
)

-- The tokens of a text of `n` bytes at `b`, split at each delimiter of `k` bytes at `d`.
module _ (b d : List ℕ) (n k : ℕ) (fits : n ≤ length b) (delim_fits : k ≤ length d)
    (some_text : 0 < n) (some_delim : 0 < k) where
  abbrev text : StringView
  text = view b n

  abbrev by : StringView
  by = view d k

  abbrev all_pieces : List (ℕ × ℕ)
  all_pieces = pieces (n + 2) text by 0

  abbrev pub all_tokens : List StringView
  all_tokens = map (piece_view text) all_pieces

  tokenize-eq :
      (m : ℕ)
      → tokenize text by (pos m)
        ≡ some (record {
          token_count = length all_tokens;
          out_tokens = take m all_tokens;
          out_overflow = ltb m (length all_tokens);
        })
  unfolding tokenize
  tokenize-eq m = ground (
    arith,
    tokenize_loop-store_all b d n k fits delim_fits some_delim (n + 2) 0 (pos m) no_tokens,
    store_all-eq m m all_tokens no_tokens,
  )

  token_at-eq : (i : ℕ) → token_at text by (pos i) ≡ some (get_or all_tokens i null_view)
  unfolding token_at
  token_at-eq i =
      ground (arith, token_at_loop-get_or b d n k fits delim_fits some_delim (n + 2) 0 0 i i)

  -- Tokenizing returns, whatever the room, the number of all pieces, the first of them as far as
  -- there is room, and the overflow flag exactly where there are more pieces than room; all the
  -- pieces, joined by the delimiter, are the text, and no delimiter starts inside a piece.
  pub tokenize-join :
      (m : ℕ)
      → (ps : List (ℕ × ℕ)) × (tokenize text by (pos m)
          ≡ some (record {
            token_count = length (map (piece_view text) ps);
            out_tokens = take m (map (piece_view text) ps);
            out_overflow = ltb m (length (map (piece_view text) ps));
          }))
        × (join (take k d) (map (λ p. to_string (piece_view text p)) ps) ≡ take n b)
        × All (IsFree (take n b) (take k d)) ps
  tokenize-join m = (
    all_pieces,
    tokenize-eq m,
    pieces-join b d n k fits delim_fits some_delim (n + 2) 0 (omega arith) (omega arith),
    pieces-IsFree b d n k fits delim_fits some_delim (n + 2) 0 (omega arith) (omega arith),
  )

  module _ (m : ℕ) (out : Tokens) (tokenized : tokenize text by (pos m) ≡ some out) where
    stored : out.out_tokens ≡ take m all_tokens
    stored = ground (arith, tokenize-eq m)

    counted : out.token_count ≡ length all_pieces
    counted = ground (arith, tokenize-eq m, length-map all_pieces (piece_view text))

    -- The token at an index is the one that tokenizing stores there, where there is room for it,
    -- and the null view past the last.
    pub token_at-tokenize :
        (i : ℕ) → i < m → token_at text by (pos i) ≡ some (get_or out.out_tokens i null_view)
    token_at-tokenize i h = rw (token_at-eq, stored, get_or-take m i all_tokens null_view h)

    not_found : ¬ OccursAt (take n b) (take k d) 0 → next_delim text by 0 ≢ pos 0
    not_found no_start z = elim (Round-next_delim b d n k fits delim_fits some_delim 0) [
      | Round.last e never ↦ cc
      | Round.ends_at zero e lo hi here before ↦ no_start here
      | Round.ends_at (suc f) e lo hi here before ↦ absurd (ground arith)
    ]

    -- Where no delimiter stands at the start of the text, the token count is that of `tokenize`.
    pub token_count-tokenize :
        ¬ OccursAt (take n b) (take k d) 0 → token_count text by ≡ some out.token_count
    unfolding token_count
    token_count-tokenize no_start = ground (
      arith,
      counted,
      token_count_loop-length b d n k fits delim_fits some_delim (n + 2) 0 0 (omega arith)
          (omega arith) (not_found no_start),
    )

    two_rounds : n + 2 ≡ suc (n + 1)
    two_rounds = omega arith

    -- Where a delimiter stands at the start of the text, the token count is 1, and `tokenize` has
    -- counted at least two tokens.
    pub token_count_at_start :
        OccursAt (take n b) (take k d) 0 → (token_count text by ≡ some 1) × (2 ≤ out.token_count)
    unfolding token_count
    token_count_at_start start = elim (Round-next_delim b d n k fits delim_fits some_delim 0) [
      | Round.last e never ↦ absurd (never 0 (omega arith) start)
      | Round.ends_at (suc f) e lo hi here before ↦
          absurd (before 0 (omega arith) (omega arith) start)
      | Round.ends_at zero e lo hi here before ↦ ground (
        arith,
        counted,
        two_rounds,
        count-ends_at b d n k fits delim_fits some_delim (n + 1) 0 0 0 lo hi e,
        pieces-ends_at b d n k fits delim_fits some_delim (n + 1) 0 0 (omega arith) e,
        pieces_pos b d n k fits delim_fits some_delim (n + 1) k (omega arith) (omega arith),
      )
    ]
