-- ===== src/Runtime/Token.antt =====
-- `__stride_string_tokenize`, `__stride_string_token_at` and `__stride_string_token_count`.
-- The three loops run on fuel; a text of n bytes is given n + 2 rounds.
pub mod Pieces
pub mod Loops
pub mod Join
pub mod Split
use stridejit.Prelude.{
  Bool, List, Option, [], drop, eqb_ℤ, false, if◌then◌else◌, leb_ℤ, length, ltb_ℤ, map, minus_one,
  negsuc, none, pos, pos_part, some, suc, true, zero, ℕ, ℤ, ◌++◌, ◌+◌, ◌-ℤ◌, ◌==◌, ◌||◌, ◌∷◌,
}
use mathlib.Core.Option as Opt
use stridejit.Runtime.View.{StringView, null_view, literal}
use stridejit.Runtime.Search.{find}

-- `delimPtr` and `delimLen`: a space where no delimiter is given.
unfoldable pub delim_view : StringView → StringView
delim_view delim = elim delim.bytes [
  | none ↦ literal (b' ' ∷ [])
  | some b ↦ if ltb_ℤ (pos 0) delim.length then delim else literal (b' ' ∷ [])
]

-- `found`: the next delimiter at or after `start`.
unfoldable pub next_delim : StringView → StringView → ℕ → ℤ
next_delim src delim start =
    if ltb_ℤ (pos start) src.length then find src delim (pos start) else minus_one

-- `StrideStringView{src.data + start, tokenLen}`
abbrev pub slice_at : StringView → ℕ → ℤ → StringView
slice_at src start len = record { bytes = Opt.map (drop start) src.bytes; length = len }

-- The outputs: the tokens that were stored, how many there are, and `*outOverflow`.
pub record Tokens : Type 0 where
  pub token_count : ℕ
  pub out_tokens : List StringView
  pub out_overflow : Bool

abbrev pub no_tokens : Tokens
no_tokens = record { token_count = 0; out_tokens = []; out_overflow = false }

-- `outTokens[tokenCount] = ...` while there is room, the overflow flag after that.
unfoldable pub store_token : ℤ → StringView → Tokens → Tokens
store_token max_tokens t out =
    if ltb_ℤ (pos out.token_count) max_tokens
    then record out { token_count = out.token_count + 1; out_tokens = out.out_tokens ++ t ∷ [] }
    else record out { token_count = out.token_count + 1; out_overflow = true }

pub tokenize_loop : ℕ → StringView → StringView → ℤ → ℕ → Tokens → Option Tokens
tokenize_loop zero src delim max_tokens start out = none
tokenize_loop (suc fuel) src delim max_tokens start out = elim (leb_ℤ (pos start) src.length) [
  | false ↦ some out
  | true ↦ elim (next_delim src delim start) [
    | negsuc _ ↦ some (store_token max_tokens (slice_at src start (src.length -ℤ pos start)) out)
    | pos found ↦
        tokenize_loop fuel src delim max_tokens (found + pos_part delim.length)
          (store_token max_tokens (slice_at src start (pos found -ℤ pos start)) out)
  ]
]

unfoldable pub tokenize : StringView → StringView → ℤ → Option Tokens
unfolding tokenize_loop delim_view
tokenize src delim max_tokens = elim src.bytes [
  | none ↦ some no_tokens
  | some _ ↦
      if eqb_ℤ src.length (pos 0)
      then some no_tokens
      else tokenize_loop (pos_part src.length + 2) src (delim_view delim) max_tokens 0 no_tokens
]

pub token_at_loop : ℕ → StringView → StringView → ℤ → ℕ → ℕ → Option StringView
token_at_loop zero src delim index cur_idx start = none
token_at_loop (suc fuel) src delim index cur_idx start = elim (leb_ℤ (pos start) src.length) [
  | false ↦ some null_view
  | true ↦ elim (next_delim src delim start) [
    | negsuc _ ↦
        if eqb_ℤ (pos cur_idx) index
        then some (slice_at src start (src.length -ℤ pos start))
        else some null_view
    | pos found ↦
        let rest =
          token_at_loop fuel src delim index (cur_idx + 1) (found + pos_part delim.length) in
        if eqb_ℤ (pos cur_idx) index
        then some (slice_at src start (pos found -ℤ pos start))
        else rest
  ]
]

unfoldable pub token_at : StringView → StringView → ℤ → Option StringView
unfolding token_at_loop delim_view
token_at src delim index = elim src.bytes [
  | none ↦ some null_view
  | some _ ↦
      if leb_ℤ src.length (pos 0) || ltb_ℤ index (pos 0)
      then some null_view
      else token_at_loop (pos_part src.length + 2) src (delim_view delim) index 0 0
]

-- `if (!found || found < 0) break;`: a delimiter at position 0 ends the loop too.
pub token_count_loop : ℕ → StringView → StringView → ℕ → ℕ → Option ℕ
token_count_loop zero src delim count start = none
token_count_loop (suc fuel) src delim count start = elim (leb_ℤ (pos start) src.length) [
  | false ↦ some count
  | true ↦ elim (next_delim src delim start) [
    | negsuc _ ↦ some (count + 1)
    | pos found ↦
        let rest = token_count_loop fuel src delim (count + 1) (found + pos_part delim.length) in
        if found == 0 then some (count + 1) else rest
  ]
]

unfoldable pub token_count : StringView → StringView → Option ℕ
unfolding token_count_loop delim_view
token_count src delim = elim src.bytes [
  | none ↦ some 0
  | some _ ↦
      if leb_ℤ src.length (pos 0)
      then some 0
      else token_count_loop (pos_part src.length + 2) src (delim_view delim) 0 0
]
