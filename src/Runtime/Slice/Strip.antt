-- ===== src/Runtime/Slice/Strip.antt =====
-- What `substring` and the trims return, as texts.
use stridejit.Prelude.{
  Bool-cases, List, [], ap, arith, drop, drop-of_le, drop-take, get_or, if◌then◌else◌, inl, inr,
  leb, leb→le, leb→lt, length, length-drop, length-take, ltb, ltb→le, ltb→lt, negsuc, pos, refl,
  suc, sym, take, take-drop-take, take-of_le, take-suc, zero, ℕ, ℤ, ◌++◌, ◌+◌, ◌-◌, ◌<◌, ◌∙◌, ◌∷◌,
  ◌≡◌, ◌≤◌,
}
use stridejit.Runtime.View.{StringView, view, to_string}
use stridejit.Runtime.Slice.{
  substring, trim_chars, char_in, trim_left_steps, trim_left, trim_right_end, trim_right, trim,
}

-- The slice of a text: from `s`, and of `l` bytes where `l` is not negative and fits.
abbrev pub slice : List ℕ → ℕ → ℤ → List ℕ
slice t s (pos l) = take l (drop s t)
slice t s (negsuc _) = drop s t

-- A window of `k` bytes at `s` in a text of `n` bytes at `b`.
window : (b : List ℕ) (n s k : ℕ) → s + k ≡ n → take k (drop s b) ≡ drop s (take n b)
window b n s k e = sym (drop-take s n k b (sym e))

-- With the number of bytes left from the start, `avail`.
slice-avail :
    (b : List ℕ) (n s l : ℕ)
    → n ≤ length b
    → s < n
    → take (if ltb (n - s) l then n - s else l) (drop s b) ≡ take l (drop s (take n b))
slice-avail b n s l h p = elim (Bool-cases (ltb (n - s) l)) [
  | inl long ↦ rw long (
      window b n s (n - s) (omega arith)
      ∙ sym (
          take-of_le l (drop s (take n b))
            (omega (arith, ltb→lt (n - s) l long, length-drop s (take n b), length-take n b))))
  | inr short ↦ rw short (sym (take-drop-take l s n b (omega (arith, ltb→le (n - s) l short))))
]

past_end : (b : List ℕ) (n s : ℕ) → n ≤ s → drop s (take n b) ≡ []
past_end b n s p = drop-of_le s (take n b) (omega (arith, length-take n b))

substring-eq :
    (b : List ℕ) (n s l : ℕ)
    → to_string (substring (view b n) (pos s) (pos l))
      ≡ (if leb n s then [] else take (if ltb (n - s) l then n - s else l) (drop s b))
unfolding substring
substring-eq b n s l = ground arith

substring_rest-eq :
    (b : List ℕ) (n s l : ℕ)
    → to_string (substring (view b n) (pos s) (negsuc l))
      ≡ (if leb n s then [] else take (n - s) (drop s b))
unfolding substring
substring_rest-eq b n s l = ground arith

-- For every start that is not negative and every length, in range or not, the substring of a view
-- inside its object is the slice of the view's text; a start past the end gives the empty text.
pub substring-slice :
    (b : List ℕ) (n s : ℕ) (l : ℤ)
    → n ≤ length b
    → to_string (substring (view b n) (pos s) l) ≡ slice (take n b) s l
substring-slice b n s (pos l) h = elim (Bool-cases (leb n s)) [
  | inl past ↦
      rw (substring-eq, past)
        (sym (ap (take l) (past_end b n s (leb→le n s past)) ∙ take-of_le l [] (omega arith)))
  | inr inside ↦ rw (substring-eq, inside) (slice-avail b n s l h (leb→lt n s inside))
]
substring-slice b n s (negsuc l) h = elim (Bool-cases (leb n s)) [
  | inl past ↦ rw (substring_rest-eq, past) (sym (past_end b n s (leb→le n s past)))
  | inr inside ↦
      let p : s < n = leb→lt n s inside in
      rw (substring_rest-eq, inside) (window b n s (n - s) (omega arith))
]

-- The bytes left after the first that are all in the set.
pub strip_left : List ℕ → List ℕ → List ℕ
strip_left set [] = []
strip_left set (c ∷ t) = if char_in set c then strip_left set t else c ∷ t

-- A byte before a stripped text: it goes where nothing is left behind it.
abbrev pub strip_cons : List ℕ → ℕ → List ℕ → List ℕ
strip_cons set c [] = if char_in set c then [] else c ∷ []
strip_cons set c (d ∷ t) = c ∷ d ∷ t

-- The text without the last bytes that are all in the set.
pub strip_right : List ℕ → List ℕ → List ℕ
strip_right set [] = []
strip_right set (c ∷ t) = strip_cons set c (strip_right set t)

trim_left_steps-le : (set b : List ℕ) (n : ℕ) → trim_left_steps set b n ≤ n
unfolding trim_left_steps
trim_left_steps-le set b zero = omega arith
trim_left_steps-le set [] (suc n) = omega arith
trim_left_steps-le set (c ∷ b) (suc n) = ground (arith, trim_left_steps-le set b n)

trim_left_steps-strip :
    (set b : List ℕ) (n : ℕ)
    → n ≤ length b
    → drop (trim_left_steps set b n) (take n b) ≡ strip_left set (take n b)
unfolding trim_left_steps strip_left
trim_left_steps-strip set b zero h = refl
trim_left_steps-strip set [] (suc n) h = absurd (omega arith)
trim_left_steps-strip set (c ∷ b) (suc n) h = elim (Bool-cases (char_in set c)) [
  | inl hit ↦ rw hit (trim_left_steps-strip set b n (omega arith))
  | inr miss ↦ rw miss
]

strip_cons-snoc : (set t : List ℕ) (d c : ℕ) → strip_cons set d (t ++ c ∷ []) ≡ d ∷ (t ++ c ∷ [])
strip_cons-snoc set [] d c = refl
strip_cons-snoc set (e ∷ t) d c = refl

-- A last byte is stripped, or kept with all before it.
strip_right-snoc :
    (set t : List ℕ) (c : ℕ)
    → strip_right set (t ++ c ∷ []) ≡ (if char_in set c then strip_right set t else t ++ c ∷ [])
unfolding strip_right
strip_right-snoc set [] c = refl
strip_right-snoc set (d ∷ t) c = elim (Bool-cases (char_in set c)) [
  | inl hit ↦ rw (strip_right-snoc set t c, hit)
  | inr miss ↦ rw (strip_right-snoc set t c, miss) (strip_cons-snoc set t d c)
]

trim_right_end-strip :
    (set b : List ℕ) (n : ℕ)
    → n ≤ length b
    → take (trim_right_end set b n) b ≡ strip_right set (take n b)
unfolding trim_right_end
trim_right_end-strip set b zero h = unfold strip_right in refl
trim_right_end-strip set b (suc e) h =
    rw (take-suc e b 0 h, strip_right-snoc)
      (elim (Bool-cases (char_in set (get_or b e 0))) [
        | inl hit ↦ rw hit (trim_right_end-strip set b e (omega arith))
        | inr miss ↦ rw miss (take-suc e b 0 h)
      ])

trim_left-eq :
    (b : List ℕ) (n : ℕ) (chars : StringView)
    → trim_left (view b (suc n)) chars
      ≡ view
          (drop (trim_left_steps (trim_chars chars) b (suc n)) b)
          (suc n - trim_left_steps (trim_chars chars) b (suc n))
unfolding trim_left
trim_left-eq b n chars = ground (arith, trim_left_steps-le (trim_chars chars) b (suc n))

trim_right-eq :
    (b : List ℕ) (n : ℕ) (chars : StringView)
    → to_string (trim_right (view b n) chars) ≡ take (trim_right_end (trim_chars chars) b n) b
unfolding trim_right
trim_right-eq b zero chars = refl
trim_right-eq b (suc n) chars = ground arith

-- Trimming on the right leaves the text without its last bytes that are all in the set.
pub trim_right-strip :
    (b : List ℕ) (n : ℕ) (chars : StringView)
    → n ≤ length b
    → to_string (trim_right (view b n) chars) ≡ strip_right (trim_chars chars) (take n b)
trim_right-strip b n chars h =
    trim_right-eq b n chars ∙ trim_right_end-strip (trim_chars chars) b n h

-- What is left of `n` bytes when `k` of them are dropped.
rest-eq : (b : List ℕ) (n k : ℕ) → k ≤ n → take (n - k) (drop k b) ≡ drop k (take n b)
rest-eq b n k h = window b n k (n - k) (omega arith)

-- Trimming on the left leaves the text without its first bytes that are all in the set.
pub trim_left-strip :
    (b : List ℕ) (n : ℕ) (chars : StringView)
    → n ≤ length b
    → to_string (trim_left (view b n) chars) ≡ strip_left (trim_chars chars) (take n b)
trim_left-strip b zero chars h = unfold trim_left strip_left in refl
trim_left-strip b (suc n) chars h =
    let set = trim_chars chars in
    rw trim_left-eq (
      rest-eq b (suc n) (trim_left_steps set b (suc n)) (trim_left_steps-le set b (suc n))
      ∙ trim_left_steps-strip set b (suc n) h)

-- Trimming strips both ends: what is left has lost exactly the bytes of the set at its two ends.
pub trim-strip :
    (b : List ℕ) (n : ℕ) (chars : StringView)
    → n ≤ length b
    → to_string (trim (view b n) chars)
      ≡ strip_right (trim_chars chars) (strip_left (trim_chars chars) (take n b))
unfolding trim
trim-strip b zero chars h = unfold trim_left trim_right strip_left strip_right in refl
trim-strip b (suc n) chars h =
    let k = trim_left_steps (trim_chars chars) b (suc n) in
    rw (
      trim_left-eq,
      trim_right-strip (drop k b) (suc n - k) chars (omega (arith, length-drop k b)),
      rest-eq b (suc n) k (trim_left_steps-le (trim_chars chars) b (suc n)),
      trim_left_steps-strip (trim_chars chars) b (suc n) h,
    )
