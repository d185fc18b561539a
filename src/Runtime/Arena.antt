-- ===== src/Runtime/Arena.antt =====
-- The 64 KiB thread-local ring buffers behind `__stride_string_repeat` and
-- `__stride_jit_string_concat_n`. Each function has a buffer of its own. `none` is a read or a
-- write outside an object.
pub mod Memory
pub mod Repeat
pub mod Concat
use stridejit.Prelude.{
  List, Option, [], drop, if◌then◌else◌, leb, leb_ℤ, length, ltb, ltb_ℤ, none, pos, pos_part, some,
  suc, take, zero, ℕ, ℤ, ◌&&◌, ◌*◌, ◌+◌, ◌-◌, ◌/◌, ◌==◌, ◌^◌, ◌||◌, ◌∷◌,
}
use stridejit.Runtime.View.{StringView, literal}

-- `static thread_local char buffer[65536]; static thread_local size_t offset`
pub record Arena : Type 0 where
  pub mem : List ℕ
  pub offset : ℕ

abbrev pub arena_size : ℕ
arena_size = 65536

infixl 5 ◌>>=◌
abbrev pub ◌>>=◌ : {A B : Type 0} → Option A → (A → Option B) → Option B
none >>= f = none
some a >>= f = f a

-- The bytes `xs` over those of `m` from `p` on.
unfoldable pub splice : ℕ → List ℕ → List ℕ → List ℕ
splice p xs [] = []
splice (suc p) xs (y ∷ m) = y ∷ splice p xs m
splice zero [] (y ∷ m) = y ∷ m
splice zero (x ∷ xs) (y ∷ m) = x ∷ splice zero xs m

-- C's `memcpy(m + p, src, n)`.
unfoldable pub memcpy : List ℕ → ℕ → List ℕ → ℕ → Option (List ℕ)
unfolding splice
memcpy m p src n =
    if leb n (length src) && leb (p + n) (length m) then some (splice p (take n src) m) else none

-- `if (offset + total + 1 > sizeof(buffer)) offset = 0;`
abbrev pub claim : ℕ → ℕ → ℕ
claim offset total = if ltb arena_size (offset + total + 1) then 0 else offset

-- `for (i = 0; i < count; ++i) { memcpy(p, str.data, str.length); p += str.length; }`
pub repeat_loop : ℕ → List ℕ → ℕ → ℕ → List ℕ → Option (List ℕ × ℕ)
repeat_loop zero s n p m = some (m, p)
repeat_loop (suc count) s n p m = do m' ← memcpy m p s n; repeat_loop count s n (p + n) m'

-- `total` and `count` after the test `total > 65535`.
abbrev pub clipped_total : ℕ → ℕ → ℕ
clipped_total n count = if ltb 65535 (n * count) then 65535 else n * count

abbrev pub clipped_count : ℕ → ℕ → ℕ
clipped_count n count = if ltb 65535 (n * count) then 65535 / n else count

-- From `char *dest = buffer + offset` on.
pub repeat_at : List ℕ → List ℕ → ℕ → ℕ → ℕ → ℕ → Option (StringView × Arena)
unfolding repeat_loop memcpy
repeat_at mem s n count dest total = do
  (m, p) ← repeat_loop count s n dest mem
  m' ← memcpy m p (0 ∷ []) 1
  some (
    record { bytes = some (drop dest m'); length = pos (p - dest) },
    record { mem = m'; offset = dest + total + 1 },
  )

unfoldable pub repeat : Arena → StringView → ℤ → Option (StringView × Arena)
unfolding repeat_at
repeat a str count = elim str.bytes [
  | none ↦ some (literal [], a)
  | some s ↦
      if leb_ℤ str.length (pos 0) || leb_ℤ count (pos 0)
      then some (literal [], a)
      else let n = pos_part str.length in
        let total = clipped_total n (pos_part count) in
        repeat_at a.mem s n (clipped_count n (pos_part count)) (claim a.offset total) total
]

-- `views[i].data && views[i].length > 0`: the bytes to copy, and how many.
abbrev pub concat_length : StringView → ℕ
concat_length v = elim v.bytes [ none ↦ 0 | some _ ↦ pos_part v.length ]

-- The first loop, with `totalLen` so far, an int32_t: none is a sum that it does not hold.
unfoldable pub total_len : ℕ → List StringView → Option ℕ
total_len sum [] = some sum
total_len sum (v ∷ vs) =
    let rest = total_len (sum + concat_length v) vs in
    if ltb (sum + concat_length v) (2 ^ 31) then rest else none

-- The body of the second loop; `p` is `dest + cur`.
unfoldable pub concat_view : StringView → ℕ → List ℕ → Option (List ℕ × ℕ)
unfolding memcpy
concat_view v p m = elim v.bytes [
  | none ↦ some (m, p)
  | some s ↦
      if ltb_ℤ (pos 0) v.length
      then (do m' ← memcpy m p s (pos_part v.length); some (m', p + pos_part v.length))
      else some (m, p)
]

unfoldable pub concat_loop : List StringView → ℕ → List ℕ → Option (List ℕ)
concat_loop [] p m = some m
concat_loop (v ∷ vs) p m = do (m', p') ← concat_view v p m; concat_loop vs p' m'

-- From `char *dest = buffer + offset` on.
pub concat_at : List ℕ → List StringView → ℕ → ℕ → Option (StringView × Arena)
unfolding concat_loop concat_view memcpy
concat_at mem views dest total_len = do
  m ← concat_loop views dest mem
  m' ← memcpy m (dest + total_len) (0 ∷ []) 1
  some (
    record { bytes = some (drop dest m'); length = pos total_len },
    record { mem = m'; offset = dest + total_len + 1 },
  )

unfoldable pub concat_n : Arena → List StringView → Option (StringView × Arena)
unfolding concat_at total_len
concat_n a views = elim (total_len 0 views) [
  | none ↦ none
  | some total ↦
      if total == 0
      then some (literal [], a)
      else concat_at a.mem views (claim a.offset total) total
]
