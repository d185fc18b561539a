-- ===== src/Runtime/Format/Overrun.antt =====
-- Where `__stride_jit_string_format` reads outside `numBuf`.
use native.Mathlib.Nat.{le_trans, suc-le-suc_iff}
use stridejit.Prelude.{
  Bool-cases, List, [], arith, inl, inr, length, length-append, length-take, none, take, ℕ, ℤ, ◌+◌,
  ◌<◌, ◌==◌, ◌∷◌, ◌≡◌, ◌≤◌,
}
use stridejit.Runtime.Format.{
  RealFormat, Spec, int_arg, append_bytes, append_number, num_buf, int_text, is_hex, put_arg,
}
use stridejit.Runtime.Format.Print.{print_decimal-width, print_hex-width}

-- A copy of more bytes than the source has, where there is room for them all.
append_bytes_long :
    (max_avail : ℕ) (src : List ℕ) (len : ℕ) (out : List ℕ)
    → length src < len
    → length out + len ≤ max_avail
    → append_bytes max_avail src len out ≡ none
unfolding append_bytes
append_bytes_long max_avail src len out long room = ground arith

length-num_buf : (t : List ℕ) → length (num_buf t) ≤ 128
length-num_buf t = omega (arith, length-append (take 127 t) (0 ∷ []), length-take 127 t)

append_number_long :
    (max_avail : ℕ) (t out : List ℕ)
    → 128 < length t
    → length out + length t ≤ max_avail
    → append_number max_avail t out ≡ none
unfolding append_number
append_number_long max_avail t out long room =
    append_bytes_long max_avail (num_buf t) (length t) out
      (le_trans (suc-le-suc_iff.1 (length-num_buf t)) long) room

int_text-width : (s : Spec) (i : ℤ) → s.width ≤ length (int_text s i)
int_text-width s i = elim (Bool-cases (is_hex s.type_char)) [
  | inl hex ↦ rw hex (print_hex-width (s.type_char == b'X') s.zero_pad s.width i)
  | inr other ↦ rw other (print_decimal-width s.zero_pad s.width i)
]

-- An integer argument that is padded to more than the 128 bytes of `numBuf`, where the output has
-- room for them, is read outside `numBuf`, in decimal and in hexadecimal alike.
pub put_arg-wide :
    {R : Type 0} (print_real : RealFormat → R → List ℕ) (max_avail : ℕ) (s : Spec) (i : ℤ)
    (out : List ℕ)
    → 128 < s.width
    → length out + length (int_text s i) ≤ max_avail
    → put_arg print_real max_avail s (int_arg i) out ≡ none
unfolding put_arg
put_arg-wide print_real max_avail s i out wide room =
    append_number_long max_avail (int_text s i) out (omega (arith, int_text-width s i)) room
