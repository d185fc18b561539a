-- ===== src/Runtime/Jit.antt =====
-- The `__stride_jit_string_*` wrappers: null pointers and empty views are handled here, and the
-- results are narrowed to 32 bits. A null pointer to a view is `none`. A wrapper with an `out`
-- pointer returns what it writes there; a null `out` drops it.
use stridejit.Prelude.{
  Bool, List, Option, [], eqb_ℤ, false, if◌then◌else◌, leb_ℤ, ltb_ℤ, minus_one, none, pos, some,
  true, ℕ, ℤ, ◌||◌, ◌∷◌,
}
use stridejit.Runtime.View.{StringView, null_view, literal}
use stridejit.Runtime.Slice
use stridejit.Runtime.Search
use stridejit.Runtime.Token
use stridejit.Runtime.Token.{Tokens, no_tokens}
use stridejit.Runtime.Arena
use stridejit.Runtime.Arena.{Arena}

-- `!src || !src->data || src->length <= 0`
abbrev pub is_blank : Option StringView → Bool
is_blank none = true
is_blank (some v) = elim v.bytes [ none ↦ true | some _ ↦ leb_ℤ v.length (pos 0) ]

-- `(p && p->data) ? *p : fallback`
abbrev pub data_or : StringView → Option StringView → StringView
data_or fallback none = fallback
data_or fallback (some v) = elim v.bytes [ none ↦ fallback | some _ ↦ v ]

-- `*p`, where `p` is not null.
abbrev pub deref : Option StringView → StringView
deref none = null_view
deref (some v) = v

unfoldable pub jit_substring : Option StringView → ℤ → ℤ → StringView
jit_substring src start len =
    if is_blank src then null_view else Slice.substring (deref src) start len

unfoldable pub jit_trim : Option StringView → Option StringView → StringView
jit_trim src chars =
    if is_blank src
    then null_view
    else Slice.trim (deref src) (data_or (literal Slice.white_space) chars)

unfoldable pub jit_trim_left : Option StringView → Option StringView → StringView
jit_trim_left src chars =
    if is_blank src
    then null_view
    else Slice.trim_left (deref src) (data_or (literal Slice.white_space) chars)

unfoldable pub jit_trim_right : Option StringView → Option StringView → StringView
jit_trim_right src chars =
    if is_blank src
    then null_view
    else Slice.trim_right (deref src) (data_or (literal Slice.white_space) chars)

unfoldable pub jit_find : Option StringView → Option StringView → ℤ → ℤ
jit_find (some h) (some nd) start = Search.find h nd start
jit_find _ _ start = minus_one

unfoldable pub jit_find_last : Option StringView → Option StringView → ℤ
jit_find_last (some h) (some nd) = Search.find_last h nd
jit_find_last _ _ = minus_one

unfoldable pub jit_contains : Option StringView → Option StringView → Bool
jit_contains (some h) (some nd) = Search.contains h nd
jit_contains _ _ = false

unfoldable pub jit_starts_with : Option StringView → Option StringView → Bool
jit_starts_with (some s) (some p) = Search.starts_with s p
jit_starts_with _ _ = false

unfoldable pub jit_ends_with : Option StringView → Option StringView → Bool
jit_ends_with (some s) (some x) = Search.ends_with s x
jit_ends_with _ _ = false

-- `return a == b`: two null pointers are equal.
unfoldable pub jit_equal : Option StringView → Option StringView → Bool
jit_equal (some a) (some b) = Search.equal a b
jit_equal none none = true
jit_equal _ _ = false

unfoldable pub jit_compare : Option StringView → Option StringView → ℤ
jit_compare none none = pos 0
jit_compare none (some b) = minus_one
jit_compare (some a) none = pos 1
jit_compare (some a) (some b) = Search.compare_views a b

unfoldable pub jit_length : Option StringView → ℤ
jit_length none = pos 0
jit_length (some v) = elim v.bytes [
  | none ↦ pos 0
  | some _ ↦ if ltb_ℤ v.length (pos 0) then pos 0 else v.length
]

unfoldable pub jit_is_empty : Option StringView → Bool
jit_is_empty none = true
jit_is_empty (some v) = elim v.bytes [ none ↦ true | some _ ↦ eqb_ℤ v.length (pos 0) ]

-- `src ? *src : StrideStringView{}`, and a space where there is no delimiter.
unfoldable pub jit_tokenize : Option StringView → Option StringView → ℤ → Option Tokens
jit_tokenize src delim max_tokens =
    let by = elim delim as (λ _. StringView) [ none ↦ literal (b' ' ∷ []) | some d ↦ d ] in
    Token.tokenize (deref src) by max_tokens

unfoldable pub jit_token_at : Option StringView → Option StringView → ℤ → Option StringView
jit_token_at src delim index =
    if is_blank src
    then some null_view
    else Token.token_at (deref src) (data_or (literal (b' ' ∷ [])) delim) index

unfoldable pub jit_token_count : Option StringView → Option StringView → Option ℕ
jit_token_count src delim =
    if is_blank src
    then some 0
    else Token.token_count (deref src) (data_or (literal (b' ' ∷ [])) delim)

-- `views` holds `count` views, or is null.
unfoldable pub jit_concat_n : Arena → Option (List StringView) → Option (StringView × Arena)
jit_concat_n a none = some (literal [], a)
jit_concat_n a (some []) = some (literal [], a)
jit_concat_n a (some (v ∷ vs)) = Arena.concat_n a (v ∷ vs)

unfoldable pub jit_repeat : Arena → Option StringView → ℤ → Option (StringView × Arena)
jit_repeat a str count =
    if is_blank str || leb_ℤ count (pos 0)
    then some (literal [], a)
    else Arena.repeat a (deref str) count
