-- ===== src/Runtime/Format/Escape.antt =====
-- Escaped braces of `__stride_jit_string_format`.
use stridejit.Prelude.{
  List, [], arith, if◌then◌else◌, length, length-append, some, suc, zero, ℕ, ◌++◌, ◌+◌, ◌<◌, ◌==◌,
  ◌||◌, ◌∷◌, ◌≡◌, ◌≤◌,
}
use stridejit.Runtime.Format.{FormatArg, RealFormat, append_bytes, format_loop}
use mathlib.Core.List.{append_assoc, append-nil}

-- The text with each of its braces doubled.
unfoldable pub escape : List ℕ → List ℕ
escape [] = []
escape (c ∷ t) = if c == b'{' || c == b'}' then c ∷ c ∷ escape t else c ∷ escape t

append_one :
    (max_avail c : ℕ) (out : List ℕ)
    → length out < max_avail
    → append_bytes max_avail (c ∷ []) 1 out ≡ some (out ++ c ∷ [])
unfolding append_bytes
append_one max_avail c out h = ground arith

-- A text whose braces are doubled is formatted back to itself, whatever the arguments, where there
-- is room for it.
pub format_loop-escape :
    {R : Type 0} (print_real : RealFormat → R → List ℕ) (fuel max_avail : ℕ) (t : List ℕ)
    (args : List (FormatArg R)) (out : List ℕ)
    → length (escape t) ≤ fuel
    → length out + length t ≤ max_avail
    → format_loop print_real fuel max_avail (escape t) args out ≡ some (out ++ t)
unfolding format_loop escape
format_loop-escape print_real fuel max_avail [] args out h k = rw append-nil
format_loop-escape print_real zero max_avail (c ∷ t) args out h k = ground arith
format_loop-escape print_real (suc fuel) max_avail (c ∷ t) args out h k = ground (
  arith,
  append_one max_avail c out (omega arith),
  format_loop-escape print_real fuel max_avail t args (out ++ c ∷ []),
  append_assoc out (c ∷ []) t,
  length-append out (c ∷ []),
)
