-- ===== src/Runtime/Examples.antt =====
-- Runs of the string runtime, and its theorems at concrete inputs.
use stridejit.Prelude.{
  All, List, [], ap, arith, false, inl, length, ltb, map, minus_one, negsuc, none, pos, refl, some,
  suc, take, true, zero, ℕ, ◌-◌, ◌∷◌, ◌≡◌, ◌≤◌,
}
use stridejit.Runtime.View.{StringView, view, literal, null_view, to_string}
use stridejit.Runtime.Slice.{trim}
use stridejit.Runtime.Search.{find, find_last}
use stridejit.Runtime.Token.{Tokens, tokenize, token_at, token_count, next_delim, store_token}
use stridejit.Runtime.Token.Pieces.{piece_view}
use stridejit.Runtime.Token.Join.{join, IsFree}
use stridejit.Runtime.Token.Split.{
  tokenize-join, token_at-tokenize, token_count-tokenize, token_count_at_start,
}
use stridejit.Runtime.Arena.{Arena, arena_size, concat_n}
use stridejit.Runtime.Arena.Memory.{IsArena}
use stridejit.Runtime.Arena.Concat.{total_length, concat_n-overflow}
use stridejit.Runtime.Format.{
  FormatArg, RealFormat, int_arg, string_arg, switch_arg, format, format_loop, format_claim,
  put_arg, parse_spec,
}
use stridejit.Runtime.Format.Print.{print_decimal}
use stridejit.Runtime.Format.Bounds.{format_total}
use stridejit.Runtime.Format.Overrun.{put_arg-wide}

-- "a,bc,"
abbrev csv : List ℕ
csv = b'a' ∷ b',' ∷ b'b' ∷ b'c' ∷ b',' ∷ []

abbrev comma : List ℕ
comma = b',' ∷ []

-- " ab "
abbrev padded : List ℕ
padded = 32 ∷ b'a' ∷ b'b' ∷ 32 ∷ []

find_runs :
    (find (literal csv) (literal comma) (pos 2) ≡ pos 4)
    × (find (literal csv) (literal comma) (pos 5) ≡ minus_one)
    × (find_last (literal csv) (literal comma) ≡ pos 4)
unfolding find find_last
find_runs = (refl, refl, refl)

trim_runs : to_string (trim (literal padded) null_view) ≡ b'a' ∷ b'b' ∷ []
unfolding trim
trim_runs = refl

-- Three tokens, the last of them empty, with room for two.
tokenize_runs :
    tokenize (literal csv) (literal comma) (pos 2)
    ≡ some (record {
      token_count = 3;
      out_tokens = view csv 1 ∷ view (b'b' ∷ b'c' ∷ b',' ∷ []) 2 ∷ [];
      out_overflow = true;
    })
unfolding tokenize next_delim store_token find
tokenize_runs = refl

-- ",a" has two tokens, and is counted as one.
abbrev leading : List ℕ
leading = b',' ∷ b'a' ∷ []

abbrev two_tokens : Tokens
two_tokens = record {
  token_count = 2;
  out_tokens = view leading 0 ∷ view (b'a' ∷ []) 1 ∷ [];
  out_overflow = false;
}

leading_tokenized : tokenize (literal leading) (literal comma) (pos 4) ≡ some two_tokens
unfolding tokenize next_delim store_token find
leading_tokenized = refl

tokenize-join_example :
    (ps : List (ℕ × ℕ)) × (tokenize (view csv 5) (view comma 1) (pos 2)
      ≡ some (record {
        token_count = length (map (piece_view (view csv 5)) ps);
        out_tokens = take 2 (map (piece_view (view csv 5)) ps);
        out_overflow = ltb 2 (length (map (piece_view (view csv 5)) ps));
      }))
    × (join comma (map (λ p. to_string (piece_view (view csv 5) p)) ps) ≡ csv)
    × All (IsFree csv comma) ps
tokenize-join_example =
    tokenize-join csv comma 5 1 (omega arith) (omega arith) (omega arith) (omega arith) 2

abbrev stored : Tokens
stored = record {
  token_count = 3;
  out_tokens = view csv 1 ∷ view (b'b' ∷ b'c' ∷ b',' ∷ []) 2 ∷ [];
  out_overflow = true;
}

token_at-tokenize_example :
    token_at (literal csv) (literal comma) (pos 1) ≡ some (view (b'b' ∷ b'c' ∷ b',' ∷ []) 2)
token_at-tokenize_example =
    token_at-tokenize csv comma 5 1 (omega arith) (omega arith) (omega arith) (omega arith) 2 stored
      tokenize_runs 1 (omega arith)

token_count-tokenize_example : token_count (literal csv) (literal comma) ≡ some 3
token_count-tokenize_example =
    token_count-tokenize csv comma 5 1 (omega arith) (omega arith) (omega arith) (omega arith) 2
      stored tokenize_runs (λ e. ground arith)

token_count_at_start_example :
    (token_count (literal leading) (literal comma) ≡ some 1) × (2 ≤ two_tokens.token_count)
token_count_at_start_example =
    token_count_at_start leading comma 2 1 (omega arith) (omega arith) (omega arith) (omega arith) 4
      two_tokens leading_tokenized refl

-- A buffer that is too long to write out.
unfoldable zeros : ℕ → List ℕ
zeros zero = []
zeros (suc n) = 0 ∷ zeros n

length-zeros : (n : ℕ) → length (zeros n) ≡ n
unfolding zeros
length-zeros zero = refl
length-zeros (suc n) = ap suc (length-zeros n)

abbrev fresh : Arena
fresh = record { mem = zeros 65536; offset = 65530 }

fresh-IsArena : IsArena fresh
fresh-IsArena = record { sized = length-zeros 65536; inside = omega arith }

-- One text of 65536 bytes.
concat_n-overflow_example : concat_n fresh (view (zeros 65536) 65536 ∷ []) ≡ none
unfolding total_length
concat_n-overflow_example =
    concat_n-overflow fresh (view (zeros 65536) 65536 ∷ []) fresh-IsArena (omega arith)

-- Reals are printed by a stand-in.
abbrev no_real : RealFormat → ℕ → List ℕ
no_real f x = []

-- "{} {:4}" and its arguments
abbrev two_slots : List ℕ
two_slots = b'{' ∷ b'}' ∷ b' ' ∷ b'{' ∷ b':' ∷ b'4' ∷ b'}' ∷ []

abbrev texts : List (FormatArg ℕ)
texts = switch_arg (pos 1) ∷ string_arg (literal comma) ∷ []

format_runs :
    format_loop no_real 7 100 two_slots (int_arg (negsuc 6) ∷ int_arg (pos 42) ∷ []) []
    ≡ some (b'-' ∷ b'7' ∷ b' ' ∷ b' ' ∷ b' ' ∷ b'4' ∷ b'2' ∷ [])
unfolding format_loop put_arg parse_spec
format_runs = refl

-- A width of 129 in an output with room for it.
put_arg-wide_example :
    put_arg no_real 200 (parse_spec (b':' ∷ b'1' ∷ b'2' ∷ b'9' ∷ [])) (int_arg (pos 7)) [] ≡ none
unfolding parse_spec print_decimal
put_arg-wide_example =
    put_arg-wide no_real 200 (parse_spec (b':' ∷ b'1' ∷ b'2' ∷ b'9' ∷ [])) (pos 7) [] (omega arith)
      (omega arith)

-- A formatting that returns.
abbrev Formatted : Type 0
Formatted =
    (v : StringView) × (a' : Arena) × (format no_real fresh (view two_slots 7) texts ≡ some (v, a'))
    × IsArena a'
    × (format_loop no_real 7 (arena_size - format_claim 65530 - 1) two_slots texts []
        ≡ some (to_string v))

formatted : Formatted
formatted =
    format_total no_real fresh two_slots 7 texts fresh-IsArena (omega arith) (omega arith)
      (tt, (inl (omega arith), tt))
