-- ===== src/Runtime/Arena/Memory.antt =====
-- Writing into a buffer, with what stands before the write kept apart.
use mathlib.Core.List.{append_assoc}
use stridejit.Prelude.{
  List, [], ap, arith, drop, drop-append, length, length-append, length-drop, length-take, none,
  refl, some, suc, sym, take, take-append, zero, ℕ, ◌++◌, ◌+◌, ◌<◌, ◌∷◌, ◌≡◌, ◌≤◌,
}
use stridejit.Runtime.Arena.{Arena, arena_size, claim, splice, memcpy}

-- The buffer has its size, and the offset lies in it or at its end.
pub record IsArena (a : Arena) : Type 0 where
  pub sized : length a.mem ≡ arena_size
  pub inside : a.offset ≤ arena_size

pub length-splice : (p : ℕ) (xs m : List ℕ) → length (splice p xs m) ≡ length m
unfolding splice
length-splice p xs [] = refl
length-splice (suc p) xs (y ∷ m) = ap suc (length-splice p xs m)
length-splice zero [] (y ∷ m) = refl
length-splice zero (x ∷ xs) (y ∷ m) = ap suc (length-splice zero xs m)

splice-front : (xs m : List ℕ) → length xs ≤ length m → splice 0 xs m ≡ xs ++ drop (length xs) m
unfolding splice
splice-front [] [] h = refl
splice-front [] (y ∷ m) h = refl
splice-front (x ∷ xs) [] h = absurd (omega arith)
splice-front (x ∷ xs) (y ∷ m) h = ap (λ l. x ∷ l) (splice-front xs m (omega arith))

pub splice-after :
    (pre xs m : List ℕ)
    → length xs ≤ length m
    → splice (length pre) xs (pre ++ m) ≡ pre ++ (xs ++ drop (length xs) m)
unfolding splice
splice-after [] xs m h = splice-front xs m h
splice-after (y ∷ pre) xs m h = ap (λ l. y ∷ l) (splice-after pre xs m h)

splice-take :
    (pre m src : List ℕ) (n p : ℕ)
    → p ≡ length pre
    → n ≤ length src
    → n ≤ length m
    → splice p (take n src) (pre ++ m) ≡ (pre ++ take n src) ++ drop n m
splice-take pre m src n p e h k =
    let size : length (take n src) ≡ n = omega (arith, length-take n src) in
    rw (e, splice-after pre (take n src) m (omega arith), size)
      (sym (append_assoc pre (take n src) (drop n m)))

-- A copy that fits writes its bytes behind `pre`, and moves nothing else.
pub memcpy-after :
    (pre m src : List ℕ) (n p : ℕ)
    → p ≡ length pre
    → n ≤ length src
    → n ≤ length m
    → memcpy (pre ++ m) p src n ≡ some ((pre ++ take n src) ++ drop n m)
unfolding memcpy
memcpy-after pre m src n p e h k =
    ground (arith, length-append pre m, splice-take pre m src n p e h k)

pub length-memcpy :
    (m : List ℕ) (p : ℕ) (src : List ℕ) (n : ℕ) {m' : List ℕ}
    → memcpy m p src n ≡ some m'
    → length m' ≡ length m
unfolding memcpy
length-memcpy m p src n h = ground (arith, length-splice p (take n src) m)

-- A copy that would reach past the end of the buffer is refused.
pub memcpy_overflow :
    (m : List ℕ) (p : ℕ) (src : List ℕ) (n : ℕ) → length m < p + n → memcpy m p src n ≡ none
unfolding memcpy
memcpy_overflow m p src n h = ground arith

-- The place that is claimed for `total` bytes and a terminator lies in the buffer.
pub claim_fits :
    (offset total : ℕ)
    → offset ≤ arena_size
    → total < arena_size
    → claim offset total + total + 1 ≤ arena_size
claim_fits offset total h k = ground arith

-- The text at `dest`, once the terminator is written behind it.
pub written_text :
    (pre t r : List ℕ) (dest k : ℕ)
    → dest ≡ length pre
    → k ≡ length t
    → take k (drop dest (((pre ++ t) ++ 0 ∷ []) ++ r)) ≡ t
written_text pre t r dest k e f =
    rw
      (
        e,
        f,
        append_assoc (pre ++ t) (0 ∷ []) r,
        append_assoc pre t (0 ∷ r),
        drop-append pre (t ++ 0 ∷ r),
      )
      (take-append t (0 ∷ r))

-- The buffer after a text and its terminator are written over what stood behind `pre`.
pub length-written :
    (pre t m : List ℕ)
    → length t < length m
    → length (((pre ++ t) ++ 0 ∷ []) ++ drop 1 (drop (length t) m)) ≡ length pre + length m
length-written pre t m h = omega (
  arith,
  length-append ((pre ++ t) ++ 0 ∷ []) (drop 1 (drop (length t) m)),
  length-append (pre ++ t) (0 ∷ []),
  length-append pre t,
  length-drop 1 (drop (length t) m),
  length-drop (length t) m,
)

drop-splice :
    (p : ℕ) (xs m : List ℕ) → p ≤ length m → drop p (splice p xs m) ≡ splice 0 xs (drop p m)
unfolding splice
drop-splice zero xs m h = refl
drop-splice (suc p) xs [] h = absurd (omega arith)
drop-splice (suc p) xs (y ∷ m) h = drop-splice p xs m (omega arith)

-- The text at `dest`, once it is written there with a terminator.
pub spliced_text :
    (m t : List ℕ) (dest : ℕ)
    → dest + length t + 1 ≤ length m
    → take (length t) (drop dest (splice dest (t ++ 0 ∷ []) m)) ≡ t
spliced_text m t dest h =
    rw
      (
        drop-splice dest (t ++ 0 ∷ []) m (omega arith),
        splice-front (t ++ 0 ∷ []) (drop dest m)
            (omega (arith, length-append t (0 ∷ []), length-drop dest m)),
        append_assoc t (0 ∷ []) (drop (length (t ++ 0 ∷ [])) (drop dest m)),
      )
      (take-append t (0 ∷ drop (length (t ++ 0 ∷ [])) (drop dest m)))
