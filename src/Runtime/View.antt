-- ===== src/Runtime/View.antt =====
-- `StrideStringView` of include/stride/stridejit/strideruntime_string.h.
use stridejit.Prelude.{List, Option, [], length, none, pos, pos_part, some, take, ℕ, ℤ, ◌≤◌}

-- `data` is what the pointer reaches: the bytes from there to the end of their object, `none` for
-- a null pointer. `length` is the `int32_t`.
pub record StringView : Type 0 where
  pub bytes : Option (List ℕ)
  pub length : ℤ

abbrev pub null_view : StringView
null_view = record { bytes = none; length = pos 0 }

-- A view of the first `n` bytes at a pointer.
abbrev pub view : List ℕ → ℕ → StringView
view b n = record { bytes = some b; length = pos n }

-- A view of all of a literal.
abbrev pub literal : List ℕ → StringView
literal b = view b (length b)

-- `toString`
abbrev pub to_string : StringView → List ℕ
to_string v = elim v.bytes [ none ↦ [] | some b ↦ take (pos_part v.length) b ]

-- The length is not negative, and the view lies inside its object.
abbrev pub IsView : StringView → Type 0
IsView v = elim v.bytes [ none ↦ Unit | some b ↦ pos_part v.length ≤ length b ]
