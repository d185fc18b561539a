-- ===== src/Prelude/Indices.antt =====
-- Lists that are read and written at an index, and windows of them.
use Prim.Native.Nat.{ℕ, zero, suc, ◌+◌, ◌<◌}
use mathlib.Core.Path.{◌≡◌, refl, ap, sym, ◌∙◌}
use mathlib.Core.Logic.{◌≢◌}
use mathlib.Core.List.{List, [], ◌∷◌, ◌++◌}
use mathlib.Core.Option.{none, some, some-injective}
use native.Mathlib.Omega.{arith}
use stridejit.Prelude.Lists.{length, get_elem?, take, drop}

module _ {ℓ} {A : Type ℓ} where
  abbrev pub set : List A → ℕ → A → List A
  set [] i v = []
  set (x ∷ xs) zero v = v ∷ xs
  set (x ∷ xs) (suc i) v = x ∷ set xs i v

  pub length-set : (xs : List A) (i : ℕ) (v : A) → length (set xs i v) ≡ length xs
  length-set [] i v = refl
  length-set (x ∷ xs) zero v = refl
  length-set (x ∷ xs) (suc i) v = ap suc (length-set xs i v)

  pub get_elem?-set_self :
      (xs : List A) (i : ℕ) (v : A) → i < length xs → get_elem? (set xs i v) i ≡ some v
  get_elem?-set_self [] i v h = absurd (omega arith)
  get_elem?-set_self (x ∷ xs) zero v h = refl
  get_elem?-set_self (x ∷ xs) (suc i) v h = get_elem?-set_self xs i v (omega arith)

  pub get_elem?-set_ne :
      (xs : List A) (i j : ℕ) (v : A) → j ≢ i → get_elem? (set xs i v) j ≡ get_elem? xs j
  get_elem?-set_ne [] i j v h = refl
  get_elem?-set_ne (x ∷ xs) zero zero v h = absurd (h refl)
  get_elem?-set_ne (x ∷ xs) zero (suc j) v h = refl
  get_elem?-set_ne (x ∷ xs) (suc i) zero v h = refl
  get_elem?-set_ne (x ∷ xs) (suc i) (suc j) v h = get_elem?-set_ne xs i j v (omega arith)

  pub get_elem?-append :
      (xs ys : List A) (i : ℕ) → i < length xs → get_elem? (xs ++ ys) i ≡ get_elem? xs i
  get_elem?-append [] ys i h = absurd (omega arith)
  get_elem?-append (x ∷ xs) ys zero h = refl
  get_elem?-append (x ∷ xs) ys (suc i) h = get_elem?-append xs ys i (omega arith)

  pub get_elem?-snoc : (xs : List A) (v : A) → get_elem? (xs ++ v ∷ []) (length xs) ≡ some v
  get_elem?-snoc [] v = refl
  get_elem?-snoc (x ∷ xs) v = get_elem?-snoc xs v

  pub get_elem?-drop : (s i : ℕ) (xs : List A) → get_elem? (drop s xs) i ≡ get_elem? xs (s + i)
  get_elem?-drop zero i xs = ap (get_elem? xs) (omega arith)
  get_elem?-drop (suc s) i [] = refl
  get_elem?-drop (suc s) i (x ∷ xs) =
      get_elem?-drop s i xs
      ∙ ap (get_elem? (x ∷ xs)) (let e : suc (s + i) ≡ suc s + i = omega arith in e)

  -- Two lists that agree on a prefix have it in common.
  pub take_ext :
      (n : ℕ) (xs ys : List A)
      → ((i : ℕ) → i < n → get_elem? xs i ≡ get_elem? ys i)
      → take n xs ≡ take n ys
  take_ext zero xs ys h = refl
  take_ext (suc n) [] [] h = refl
  take_ext (suc n) [] (y ∷ ys) h = let e : none ≡ some y = h 0 (omega arith) in cc
  take_ext (suc n) (x ∷ xs) [] h = let e : some x ≡ none = h 0 (omega arith) in cc
  take_ext (suc n) (x ∷ xs) (y ∷ ys) h =
      let e : some x ≡ some y = h 0 (omega arith) in
      let rest = take_ext n xs ys (λ i lt. h (suc i) (omega arith)) in
      ap (λ a. a ∷ take n xs) (some-injective x y e) ∙ ap (λ l. y ∷ l) rest

  -- A window of one list that holds what a window of another holds.
  pub window_ext :
      (n s m : ℕ) (xs ys : List A)
      → ((i : ℕ) → i < n → get_elem? xs (s + i) ≡ get_elem? ys (m + i))
      → take n (drop s xs) ≡ take n (drop m ys)
  window_ext n s m xs ys h =
      take_ext n (drop s xs) (drop m ys)
        λ i lt. get_elem?-drop s i xs ∙ h i lt ∙ sym (get_elem?-drop m i ys)
