-- ===== src/Runtime/Slice.antt =====
-- `__stride_string_substring` and the three trims: slices that copy nothing.
pub mod Strip
use stridejit.Prelude.{
  Bool, List, [], drop, eqb_ℤ, false, get_or, if◌then◌else◌, leb_ℤ, length, ltb_ℤ, negsuc, none,
  pos, pos_part, some, suc, take, true, zero, ℕ, ℤ, ◌-ℤ◌, ◌==◌, ◌||◌, ◌∷◌,
}
use stridejit.Runtime.View.{StringView, null_view}

unfoldable pub substring : StringView → ℤ → ℤ → StringView
substring src start len = elim src.bytes [
  | none ↦ null_view
  | some b ↦
      if ltb_ℤ start (pos 0) || leb_ℤ src.length start
      then null_view
      else let avail = src.length -ℤ start in
        let actual_len = if ltb_ℤ len (pos 0) || ltb_ℤ avail len then avail else len in
        record { bytes = some (drop (pos_part start) b); length = actual_len }
]

-- " \t\r\n"
abbrev pub white_space : List ℕ
white_space = b' ' ∷ 9 ∷ 13 ∷ 10 ∷ []

-- The set to trim: `chars` where it is not empty, and white space otherwise.
unfoldable pub trim_chars : StringView → List ℕ
trim_chars chars = elim chars.bytes [
  | none ↦ white_space
  | some b ↦ if ltb_ℤ (pos 0) chars.length then take (pos_part chars.length) b else white_space
]

-- The loop over `trimChars` that sets `match`.
pub char_in : List ℕ → ℕ → Bool
char_in [] c = false
char_in (d ∷ ds) c = if c == d then true else char_in ds c

-- `while (start < src.length)`: the steps taken from a position with `n` bytes left.
pub trim_left_steps : List ℕ → List ℕ → ℕ → ℕ
trim_left_steps set b zero = 0
trim_left_steps set [] (suc n) = 0
trim_left_steps set (c ∷ b) (suc n) = if char_in set c then suc (trim_left_steps set b n) else 0

unfoldable pub trim_left : StringView → StringView → StringView
unfolding trim_left_steps char_in trim_chars
trim_left src chars = elim src.bytes [
  | none ↦ null_view
  | some b ↦
      if eqb_ℤ src.length (pos 0)
      then null_view
      else let start = trim_left_steps (trim_chars chars) b (pos_part src.length) in
        record { bytes = some (drop start b); length = src.length -ℤ pos start }
]

-- `while (end > 0)`: where the loop stops.
pub trim_right_end : List ℕ → List ℕ → ℕ → ℕ
trim_right_end set b zero = 0
trim_right_end set b (suc e) =
    let rest = trim_right_end set b e in if char_in set (get_or b e 0) then rest else suc e

-- With a negative length the loop ends at once, and `end` is the length.
unfoldable pub trim_right : StringView → StringView → StringView
unfolding trim_right_end char_in trim_chars
trim_right src chars = elim src.bytes [
  | none ↦ null_view
  | some b ↦
      if eqb_ℤ src.length (pos 0)
      then null_view
      else let end : ℤ = elim src.length [
        | pos n ↦ pos (trim_right_end (trim_chars chars) b n)
        | negsuc n ↦ negsuc n
      ] in
        record { bytes = some b; length = end }
]

unfoldable pub trim : StringView → StringView → StringView
unfolding trim_left trim_right
trim src chars = let left = trim_left src chars in trim_right left chars
