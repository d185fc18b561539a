-- ===== src/Runtime/Search/Affix.antt =====
-- What `starts_with`, `ends_with`, `equal` and `compare` decide.
use stridejit.Prelude.{
  Bool-cases, List, [], ap, arith, drop, drop-take, false, if◌then◌else◌, inl, inr, length,
  length-drop, length-take, ltb, ltb→le, ltb→lt, minus_one, not, pos, refl, suc, sym, take,
  take-take, true, zero, ℕ, ℤ, ◌-ℤ◌, ◌-◌, ◌==◌, ◌↔◌, ◌∙◌, ◌∷◌, ◌≡◌, ◌≤◌,
}
use Prim.Native.Nat.{compare, Ordering, min}
use stridejit.Runtime.View.{view}
use stridejit.Runtime.Search.{
  memcmp, same_bytes, starts_with, ends_with, equal, compare_views, compare_result,
}
use stridejit.Runtime.Search.Bytes.{same_bytes_sound, same_bytes_complete}

-- Two texts in C's order: by the first byte that differs, and a prefix before the longer text.
pub lex : List ℕ → List ℕ → ℤ
lex [] [] = pos 0
lex [] (y ∷ b) = minus_one
lex (x ∷ a) [] = pos 1
lex (x ∷ a) (y ∷ b) =
    let rest = lex a b in
    elim (compare x y) [ Ordering.lt ↦ minus_one | Ordering.eq ↦ rest | Ordering.gt ↦ pos 1 ]

module _ (a b : List ℕ) (m n : ℕ) (fits : m ≤ length a) (other_fits : n ≤ length b) where
  starts_with-eq : starts_with (view a m) (view b n) ≡ (if ltb m n then false else same_bytes a b n)
  unfolding starts_with
  starts_with-eq = refl

  -- `starts_with` holds exactly when the prefix's bytes are the first bytes of the text.
  pub starts_with_iff :
      (starts_with (view a m) (view b n) ≡ true) ↔ ((n ≤ m) × (take n (take m a) ≡ take n b))
  starts_with_iff = elim (Bool-cases (ltb m n)) [
    | inl longer ↦
        rw (starts_with-eq, longer)
          ((λ e. cc), (λ (p, e). absurd (omega (arith, ltb→lt m n longer))))
    | inr room ↦
        let p : n ≤ m = ltb→le m n room in
        rw (starts_with-eq, room)
          (
            (λ e. (p, take-take n m a p ∙ same_bytes_sound a b n (omega arith) other_fits e)),
            (λ (q, e). same_bytes_complete a b n (sym (take-take n m a p) ∙ e)),
          )
  ]

  ends_with-eq :
      ends_with (view a m) (view b n) ≡ (if ltb m n then false else same_bytes (drop (m - n) a) b n)
  unfolding ends_with
  ends_with-eq = ground arith

  -- `ends_with` holds exactly when the suffix's bytes are the last bytes of the text.
  pub ends_with_iff :
      (ends_with (view a m) (view b n) ≡ true) ↔ ((n ≤ m) × (drop (m - n) (take m a) ≡ take n b))
  ends_with_iff = elim (Bool-cases (ltb m n)) [
    | inl longer ↦
        rw (ends_with-eq, longer) ((λ e. cc), (λ (p, e). absurd (omega (arith, ltb→lt m n longer))))
    | inr room ↦
        let p : n ≤ m = ltb→le m n room in
        let window : drop (m - n) (take m a) ≡ take n (drop (m - n) a) =
          drop-take (m - n) m n a (omega arith) in
        rw (ends_with-eq, room)
          (
            (λ e. (
              p,
              window
                  ∙ same_bytes_sound (drop (m - n) a) b n (omega (arith, length-drop (m - n) a))
                      other_fits e,
            )),
            (λ (q, e). same_bytes_complete (drop (m - n) a) b n (sym window ∙ e)),
          )
  ]

-- The comparison, for views of at most `m` and `n` bytes that lie inside their objects.
memcmp-lex :
    (a b : List ℕ) (m n k : ℕ)
    → m ≤ length a
    → n ≤ length b
    → k ≡ min m n
    → compare_result (memcmp a b k) (pos m) (pos n) ≡ lex (take m a) (take n b)
unfolding memcmp lex
memcmp-lex a b zero zero zero p q e = refl
memcmp-lex a [] zero (suc n) zero p q e = absurd (omega arith)
memcmp-lex a (y ∷ b) zero (suc n) zero p q e = ground arith
memcmp-lex [] b (suc m) zero zero p q e = absurd (omega arith)
memcmp-lex (x ∷ a) b (suc m) zero zero p q e = ground arith
memcmp-lex a b (suc m) (suc n) zero p q e = absurd (omega arith)
memcmp-lex a b zero n (suc k) p q e = absurd (omega arith)
memcmp-lex a b (suc m) zero (suc k) p q e = absurd (omega arith)
memcmp-lex [] b (suc m) (suc n) (suc k) p q e = absurd (omega arith)
memcmp-lex (x ∷ a) [] (suc m) (suc n) (suc k) p q e = absurd (omega arith)
memcmp-lex (x ∷ a) (y ∷ b) (suc m) (suc n) (suc k) p q e =
    let ih : compare_result (memcmp a b k) (pos m) (pos n) ≡ lex (take m a) (take n b) =
      memcmp-lex a b m n k (omega arith) (omega arith) (omega arith) in
    ground arith

-- The comparison of two views is C's order on their texts.
pub compare_views-lex :
    (a b : List ℕ) (m n : ℕ)
    → m ≤ length a
    → n ≤ length b
    → compare_views (view a m) (view b n) ≡ lex (take m a) (take n b)
unfolding compare_views
compare_views-lex a b m n p q = memcmp-lex a b m n (min m n) p q refl

-- The order is total, antisymmetric in its sign, and zero only on equal texts.
pub lex-eq : (a b : List ℕ) → lex a b ≡ pos 0 → a ≡ b
unfolding lex
lex-eq [] [] h = refl
lex-eq [] (y ∷ b) h = cc
lex-eq (x ∷ a) [] h = cc
lex-eq (x ∷ a) (y ∷ b) h = ground (arith, lex-eq a b)

pub lex_refl : (a : List ℕ) → lex a a ≡ pos 0
unfolding lex
lex_refl [] = refl
lex_refl (x ∷ a) = ground (arith, lex_refl a)

pub lex-swap : (a b : List ℕ) → lex b a ≡ pos 0 -ℤ lex a b
unfolding lex
lex-swap [] [] = refl
lex-swap [] (y ∷ b) = refl
lex-swap (x ∷ a) [] = refl
lex-swap (x ∷ a) (y ∷ b) = ground (arith, lex-swap a b)

module _ (a b : List ℕ) (m n : ℕ) (fits : m ≤ length a) (other_fits : n ≤ length b) where
  equal-eq :
      equal (view a m) (view b n)
      ≡ (if not (m == n) then false else if m == 0 then true else same_bytes a b m)
  unfolding equal
  equal-eq = ground arith

  same_bytes-zero : same_bytes a b 0 ≡ true
  unfolding same_bytes
  same_bytes-zero = refl

  equal_sound : equal (view a m) (view b n) ≡ true → take m a ≡ take n b
  equal_sound e =
      let size : m ≡ n = ground (arith, equal-eq) in
      let hit : same_bytes a b m ≡ true = ground (arith, equal-eq, same_bytes-zero) in
      same_bytes_sound a b m fits (omega arith) hit ∙ ap (λ (k : ℕ). take k b) size

  equal_complete : take m a ≡ take n b → equal (view a m) (view b n) ≡ true
  equal_complete e =
      let size : m ≡ n = omega (arith, ap length e, length-take m a, length-take n b) in
      let hit : same_bytes a b m ≡ true =
        same_bytes_complete a b m (e ∙ ap (λ (k : ℕ). take k b) (sym size)) in
      ground (arith, equal-eq)

  -- Two views are equal exactly when their texts are.
  pub equal_iff : (equal (view a m) (view b n) ≡ true) ↔ (take m a ≡ take n b)
  equal_iff = (equal_sound, equal_complete)

  -- Two views compare as 0 exactly when `equal` holds of them, and swapping the arguments of the
  -- comparison negates its result.
  pub compare_views-equal :
      ((compare_views (view a m) (view b n) ≡ pos 0) ↔ (equal (view a m) (view b n) ≡ true))
      × (compare_views (view b n) (view a m) ≡ pos 0 -ℤ compare_views (view a m) (view b n))
  compare_views-equal =
      rw (compare_views-lex a b m n fits other_fits, compare_views-lex b a n m other_fits fits)
        (
          ((λ e. equal_iff.1 (lex-eq _ _ e)), (λ e. rw (equal_iff.0 e) (lex_refl (take n b)))),
          lex-swap (take m a) (take n b),
        )
