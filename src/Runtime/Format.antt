-- ===== src/Runtime/Format.antt =====
-- `__stride_jit_string_format`: placeholders, their specifications, and the bounded output.
-- `none` is a read outside an object. Widths and precisions are unbounded numbers here.
use stridejit.Prelude.{
  Bool, List, Option, [], drop, eqb_ℤ, false, if◌then◌else◌, leb, leb_ℤ, length, ltb, none, not,
  pos, pos_part, some, suc, take, true, zero, ℕ, ℤ, ◌&&◌, ◌*◌, ◌++◌, ◌+◌, ◌-◌, ◌==◌, ◌||◌, ◌∷◌,
}
use stridejit.Runtime.View.{StringView, literal}
use stridejit.Runtime.Arena.{Arena, arena_size, splice, ◌>>=◌}
use stridejit.Runtime.Format.Print.{print_decimal, print_hex}
pub mod Print
pub mod Within
pub mod Bounds
pub mod Overrun
pub mod Escape

-- `StrideFormatArg`, by its `typeTag`; `other` is any tag that the switch does not name.
pub data FormatArg (R : Type 0) : Type 0 where
  int_arg : ℤ → FormatArg R
  real_arg : R → FormatArg R
  switch_arg : ℤ → FormatArg R
  string_arg : StringView → FormatArg R
  other_arg : FormatArg R

-- The conversions that `snprintf` is asked for at a real.
pub data RealFormat : Type 0 where
  fixed : Bool → ℕ → ℕ → RealFormat  -- "%0*.*f", "%*.*f": zero padding, width, precision
  plain : Bool → ℕ → RealFormat  -- "%0*f", "%*f"
  exponent : Bool → ℕ → RealFormat  -- "%*E", "%*e": upper case, width
  general : ℕ → RealFormat  -- "%*g"

pub record Spec : Type 0 where
  pub zero_pad : Bool
  pub width : ℕ
  pub precision : Option ℕ  -- none is -1
  pub type_char : ℕ

abbrev pub no_spec : Spec
no_spec = record { zero_pad = false; width = 0; precision = none; type_char = 0 }

-- `while (s < sEnd && *s >= '0' && *s <= '9')`
pub read_number : ℕ → List ℕ → ℕ × List ℕ
read_number n [] = (n, [])
read_number n (c ∷ s) =
    let rest = read_number (n * 10 + (c - b'0')) s in
    if leb b'0' c && leb c b'9' then rest else (n, c ∷ s)

abbrev first_or : ℕ → List ℕ → ℕ
first_or d [] = d
first_or d (c ∷ s) = c

-- `if (s < sEnd && *s == '.')`
pub read_precision : List ℕ → Option ℕ × List ℕ
read_precision [] = (none, [])
read_precision (c ∷ s) =
    if c == b'.' then (let (n, rest) = read_number 0 s in (some n, rest)) else (none, c ∷ s)

-- What follows the zero flag.
pub read_width : Bool → List ℕ → Spec
unfolding read_number read_precision
read_width zeros s =
    let (w, after_width) = read_number 0 s in
    let (p, after_precision) = read_precision after_width in
    record { zero_pad = zeros; width = w; precision = p; type_char = first_or 0 after_precision }

-- The text between the braces; without a colon it says nothing.
unfoldable pub parse_spec : List ℕ → Spec
unfolding read_width
parse_spec [] = no_spec
parse_spec (c ∷ s) =
    if c == b':'
    then elim s [
      | [] ↦ read_width false []
      | z ∷ rest ↦ if z == b'0' then read_width true rest else read_width false (z ∷ rest)
    ]
    else no_spec

-- `appendBytes(src, len)`: as many of the bytes as there is room for.
unfoldable pub append_bytes : ℕ → List ℕ → ℕ → List ℕ → Option (List ℕ)
append_bytes max_avail src len out =
    if len == 0 || leb max_avail (length out)
    then some out
    else let to_copy = if ltb max_avail (length out + len) then max_avail - length out else len in
      if leb to_copy (length src) then some (out ++ take to_copy src) else none

-- `char numBuf[128]` after an `snprintf` whose whole output is `t`.
abbrev pub num_buf : List ℕ → List ℕ
num_buf t = take 127 t ++ 0 ∷ []

-- `if (n > 0) appendBytes(numBuf, n)`, where `snprintf` returned the length of the whole output.
pub append_number : ℕ → List ℕ → List ℕ → Option (List ℕ)
unfolding append_bytes
append_number max_avail t out = append_bytes max_avail (num_buf t) (length t) out

-- `for (int i = 0; i < pad; ++i) appendBytes(" ", 1)`
pub append_pad : ℕ → ℕ → List ℕ → Option (List ℕ)
append_pad max_avail zero out = some out
append_pad max_avail (suc n) out = do
  out' ← append_bytes max_avail (b' ' ∷ []) 1 out
  append_pad max_avail n out'

abbrev pub is_hex : ℕ → Bool
is_hex c = c == b'x' || c == b'X'

-- The conversion of a real, from the specification.
abbrev pub real_format : Spec → RealFormat
real_format s = elim s.precision [
  | some p ↦ fixed s.zero_pad s.width p
  | none ↦
      if s.type_char == b'f'
      then plain s.zero_pad s.width
      else if s.type_char == b'e' || s.type_char == b'E'
      then exponent (s.type_char == b'E') s.width
      else general s.width
]

-- "1", "0", "true", "false", "on" and "off"
abbrev pub switch_text : ℕ → Bool → List ℕ
switch_text c b =
    if c == b'd'
    then (if b then b'1' ∷ [] else b'0' ∷ [])
    else if c == b'b'
    then (if b then b't' ∷ b'r' ∷ b'u' ∷ b'e' ∷ [] else b'f' ∷ b'a' ∷ b'l' ∷ b's' ∷ b'e' ∷ [])
    else (if b then b'o' ∷ b'n' ∷ [] else b'o' ∷ b'f' ∷ b'f' ∷ [])

-- The whole output of `snprintf` at an integer.
abbrev pub int_text : Spec → ℤ → List ℕ
int_text s n =
    if is_hex s.type_char
    then print_hex (s.type_char == b'X') s.zero_pad s.width n
    else print_decimal s.zero_pad s.width n

-- `while (closeBrace < end && *closeBrace != '}')`: the text up to the brace, and what follows it.
unfoldable pub find_close : List ℕ → Option (List ℕ × List ℕ)
find_close [] = none
find_close (c ∷ p) =
    let rest = find_close p in
    if c == b'}' then some ([], p) else elim rest [ none ↦ none | some (s, q) ↦ some (c ∷ s, q) ]

-- `p + 1 < end && *(p + 1) == c`, for what follows `*p`.
abbrev pub next_is : ℕ → List ℕ → Bool
next_is c [] = false
next_is c (d ∷ p) = d == c

-- `if (offset + 4096 > sizeof(buffer)) offset = 0;`
abbrev pub format_claim : ℕ → ℕ
format_claim offset = if ltb arena_size (offset + 4096) then 0 else offset

-- The arguments after a placeholder.
abbrev pub rest_args : {R : Type 0} → List (FormatArg R) → List (FormatArg R)
rest_args [] = []
rest_args (arg ∷ args) = args

-- `snprintf` at a real is a parameter: the whole output for a conversion and a value.
module _ {R : Type 0} (print_real : RealFormat → R → List ℕ) where
  -- The `switch` over the tag.
  unfoldable pub put_arg : ℕ → Spec → FormatArg R → List ℕ → Option (List ℕ)
  unfolding append_number append_pad append_bytes print_decimal print_hex
  put_arg max_avail s (int_arg n) out = append_number max_avail (int_text s n) out
  put_arg max_avail s (real_arg x) out = append_number max_avail (print_real (real_format s) x) out
  put_arg max_avail s (switch_arg n) out =
      let t = switch_text s.type_char (not (eqb_ℤ n (pos 0))) in
      append_bytes max_avail t (length t) out
  put_arg max_avail s (string_arg v) out = elim v.bytes [
    | none ↦ append_pad max_avail s.width out
    | some b ↦ do
      out' ← append_pad max_avail (s.width - pos_part v.length) out
      append_bytes max_avail b (pos_part v.length) out'
  ]
  put_arg max_avail s other_arg out = some out

  -- The placeholder between braces takes the next argument, where there is one.
  abbrev pub put_next : ℕ → List ℕ → List (FormatArg R) → List ℕ → Option (List ℕ)
  put_next max_avail spec [] out = some out
  put_next max_avail spec (arg ∷ args) out = put_arg max_avail (parse_spec spec) arg out

  -- `while (p < end)`. Each round takes a byte or more, so as many rounds as bytes are enough; a
  -- round too few is no result either.
  unfoldable pub format_loop : ℕ → ℕ → List ℕ → List (FormatArg R) → List ℕ → Option (List ℕ)
  unfolding find_close
  format_loop fuel max_avail [] args out = some out
  format_loop zero max_avail (c ∷ p) args out = none
  format_loop (suc fuel) max_avail (c ∷ p) args out =
      let brace = λ (o : List ℕ). format_loop fuel max_avail (drop 1 p) args o in
      let byte = λ (o : List ℕ). format_loop fuel max_avail p args o in
      let literal_byte = append_bytes max_avail (c ∷ []) 1 out >>= byte in
      if c == b'{'
      then (if next_is b'{' p
          then append_bytes max_avail (b'{' ∷ []) 1 out >>= brace
          else elim (find_close p) [
            | none ↦ literal_byte
            | some (spec, after) ↦ put_next max_avail spec args out >>= λ o.
                format_loop fuel max_avail after (rest_args args) o
          ])
      else if c == b'}' && next_is b'}' p
      then append_bytes max_avail (b'}' ∷ []) 1 out >>= brace
      else literal_byte

  -- The text is written at `dest`, and a terminator behind it.
  unfoldable pub format : Arena → StringView → List (FormatArg R) → Option (StringView × Arena)
  unfolding format_loop splice
  format a fmt args = elim fmt.bytes [
    | none ↦ some (literal [], a)
    | some f ↦
        if leb_ℤ fmt.length (pos 0)
        then some (literal [], a)
        else let dest = format_claim a.offset in
          let text = take (pos_part fmt.length) f in
          do
            written ← format_loop (length text) (arena_size - dest - 1) text args []
            let mem = splice dest (written ++ 0 ∷ []) a.mem
            some (
              record { bytes = some (drop dest mem); length = pos (length written) },
              record { mem = mem; offset = dest + length written + 1 },
            )
  ]
