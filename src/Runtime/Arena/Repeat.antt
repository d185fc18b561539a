-- ===== src/Runtime/Arena/Repeat.antt =====
-- `__stride_string_repeat`: what it returns, and that it stays inside its buffer.
use native.Mathlib.Nat.{div-mul-le_self}
use mathlib.Core.List.{append_assoc, append-nil}
use stridejit.Prelude.{
  Bool-cases, List, [], ap, arith, drop, drop-drop, if◌then◌else◌, inl, inr, leb_ℤ, length,
  length-append, length-drop, length-take, ltb, pos, some, suc, sym, take, take-append-drop, zero,
  ℕ, ◌*◌, ◌++◌, ◌+◌, ◌-◌, ◌/◌, ◌<◌, ◌||◌, ◌∙◌, ◌∷◌, ◌≡◌, ◌≤◌,
}
use stridejit.Runtime.View.{StringView, view, to_string}
use stridejit.Runtime.Arena.{
  Arena, arena_size, claim, repeat_loop, repeat_at, repeat, clipped_count, clipped_total,
}
use stridejit.Runtime.Arena.Memory.{IsArena, memcpy-after, claim_fits, written_text, length-written}

-- `count` copies of a text.
pub copies : ℕ → List ℕ → List ℕ
copies zero t = []
copies (suc count) t = t ++ copies count t

length-copies : (count : ℕ) (t : List ℕ) → length (copies count t) ≡ count * length t
unfolding copies
length-copies zero t = omega arith
length-copies (suc count) t = omega (arith, length-append t (copies count t), length-copies count t)

repeat_loop-copies :
    (count : ℕ) (s : List ℕ) (n p : ℕ) (pre m : List ℕ)
    → p ≡ length pre
    → n ≤ length s
    → count * n ≤ length m
    → repeat_loop count s n p (pre ++ m)
      ≡ some ((pre ++ copies count (take n s)) ++ drop (count * n) m, p + count * n)
unfolding repeat_loop copies
repeat_loop-copies zero s n p pre m e h k =
    let z : 0 * n ≡ 0 = omega arith in
    let same : p + 0 * n ≡ p = omega arith in rw (same, z, append-nil)
repeat_loop-copies (suc count) s n p pre m e h k =
    let t = take n s in
    let at_end : p + suc count * n ≡ p + n + count * n = omega arith in
    rw
      (
        memcpy-after pre m s n p e h (omega arith),
        at_end,
        ← append_assoc pre t (copies count t),
        ← drop-drop (count * n) n (suc count * n) m (omega arith),
      )
      (repeat_loop-copies count s n (p + n) (pre ++ t) (drop n m)
        (omega (arith, length-append pre t, length-take n s)) h (omega (arith, length-drop n m)))

clipped_fits : (n count : ℕ) → clipped_count n count * n ≤ clipped_total n count
clipped_fits n count = elim (Bool-cases (ltb 65535 (n * count))) [
  | inl long ↦ rw long (div-mul-le_self 65535 n)
  | inr short ↦ rw short (omega arith)
]

clipped-lt : (n count : ℕ) → clipped_total n count < arena_size
clipped-lt n count = ground arith

-- A buffer `mem`, a place `dest` in it, and room for `total` bytes and a terminator.
module _ (mem s : List ℕ) (n count dest total : ℕ) (fits : n ≤ length s)
    (size : length mem ≡ arena_size) (inside : count * n ≤ total)
    (room : dest + total + 1 ≤ arena_size) where
  abbrev text : List ℕ
  text = copies count (take n s)

  abbrev pre : List ℕ
  pre = take dest mem

  abbrev m : List ℕ
  m = drop dest mem

  at_dest : dest ≡ length pre
  at_dest = omega (arith, room, size, length-take dest mem)

  length-text : count * n ≡ length text
  length-text =
      let one : length (take n s) ≡ n = omega (arith, length-take n s) in
      sym (length-copies count (take n s) ∙ ap (λ (j : ℕ). count * j) one)

  loop :
      repeat_loop count s n dest mem
      ≡ some ((pre ++ text) ++ drop (length text) m, dest + count * n)
  loop =
      ap (repeat_loop count s n dest) (sym (take-append-drop dest mem))
      ∙ repeat_loop-copies count s n dest pre m at_dest fits (omega (arith, length-drop dest mem))
      ∙ ap (λ (j : ℕ). some ((pre ++ text) ++ drop j m, dest + count * n)) length-text

  abbrev mem_after : List ℕ
  mem_after = ((pre ++ text) ++ 0 ∷ []) ++ drop 1 (drop (length text) m)

  repeat_at-eq :
      repeat_at mem s n count dest total
      ≡ some (
        record { bytes = some (drop dest mem_after); length = pos (dest + count * n - dest) },
        record { mem = mem_after; offset = dest + total + 1 },
      )
  unfolding repeat_at
  repeat_at-eq = rw (
    loop,
    memcpy-after (pre ++ text) (drop (length text) m) (0 ∷ []) 1 (dest + count * n)
        (omega (arith, at_dest, length-text, length-append pre text)) (omega arith)
        (omega (arith, length-text, length-drop (length text) m, length-drop dest mem)),
  )

  repeat_at-copies :
      (v : StringView) × (a' : Arena) × (repeat_at mem s n count dest total ≡ some (v, a'))
      × IsArena a'
      × (to_string v ≡ text)
  repeat_at-copies = (
    _,
    _,
    repeat_at-eq,
    record {
      sized =
          length-written pre text m (omega (arith, length-text, length-drop dest mem))
          ∙ (omega (arith, at_dest, length-drop dest mem));
      inside = room;
    },
    written_text pre text _ dest (dest + count * n - dest) at_dest (omega (arith, length-text)),
  )

past_guard :
    {A : Type 0} (n count : ℕ) (x y : A)
    → 0 < n
    → 0 < count
    → (if leb_ℤ (pos n) (pos 0) || leb_ℤ (pos count) (pos 0) then x else y) ≡ y
past_guard n count x y h k = ground arith

-- For a view inside its object and a positive count, repeating never leaves the buffer, it leaves
-- the arena well formed, and its result is the text, `count` times, or as often as fits into 65535
-- bytes where `count` copies do not.
pub repeat-copies :
    (a : Arena) (s : List ℕ) (n count : ℕ)
    → IsArena a
    → n ≤ length s
    → 0 < n
    → 0 < count
    → (v : StringView) × (a' : Arena) × (repeat a (view s n) (pos count) ≡ some (v, a'))
      × IsArena a'
      × (to_string v ≡ copies (if ltb 65535 (n * count) then 65535 / n else count) (take n s))
unfolding repeat
repeat-copies a s n count ok fits some_text some_count =
    let total = clipped_total n count in
    rw (past_guard n count _ _ some_text some_count) (
      repeat_at-copies a.mem s n (clipped_count n count) (claim a.offset total) total fits ok.sized
        (clipped_fits n count) (claim_fits a.offset total ok.inside (clipped-lt n count)))
