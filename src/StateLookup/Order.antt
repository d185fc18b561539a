-- ===== src/StateLookup/Order.antt =====
-- The state of a name does not depend on the order of the map where no two entries have the name.
use mathlib.Core.List.Permᴰ
use mathlib.Core.List.{Permᴰ}
use mathlib.Core.Path.{subst}
use stridejit.StateAccess.{is_empty_text}
use stridejit.StateLookup.{
  StateEntry, is_exact, is_similar, first_exact, similar_loop, get_state_struct_info,
}
use stridejit.Prelude.{
  Bool, Bool-cases, List, Option, String, [], ap, false, if◌then◌else◌, inl, inr, none, refl, some,
  sym, true, ◌∙◌, ◌∷◌, ◌≡◌,
}

module _ {ℓ} {A : Type ℓ} where
  -- What stands with the entries that pass a test.
  abbrev pub infos : (StateEntry A → Bool) → List (StateEntry A) → List A
  infos test [] = []
  infos test (e ∷ es) = let rest = infos test es in if test e then e.info ∷ rest else rest

  abbrev pub head : List A → Option A
  head [] = none
  head (i ∷ is) = some i

  -- The item of a list of one.
  abbrev pub only : List A → Option A
  only [] = none
  only (i ∷ []) = some i
  only (i ∷ j ∷ is) = none

  empty-Permᴰ : {xs ys : List A} → Permᴰ xs ys → xs ≡ [] → ys ≡ []
  empty-Permᴰ Permᴰ.nil e = refl
  empty-Permᴰ (Permᴰ.cons p d) e = cc
  empty-Permᴰ (Permᴰ.swap p q) e = cc
  empty-Permᴰ (Permᴰ.trans d d') e = empty-Permᴰ d' (empty-Permᴰ d e)

  single-Permᴰ : {xs ys : List A} → Permᴰ xs ys → (i : A) → xs ≡ i ∷ [] → ys ≡ i ∷ []
  single-Permᴰ Permᴰ.nil i e = cc
  single-Permᴰ (Permᴰ.cons {l₁} {l₂} p d) i e =
      let none_left : l₁ ≡ [] = cc in let others = empty-Permᴰ d none_left in cc
  single-Permᴰ (Permᴰ.swap p q) i e = cc
  single-Permᴰ (Permᴰ.trans d d') i e = single-Permᴰ d' i (single-Permᴰ d i e)

  only-Permᴰ : (xs ys : List A) → Permᴰ xs ys → only xs ≡ only ys
  only-Permᴰ [] ys d = rw (empty-Permᴰ d refl) refl
  only-Permᴰ (i ∷ []) ys d = rw (single-Permᴰ d i refl) refl
  only-Permᴰ (i ∷ j ∷ is) [] d = let e = empty-Permᴰ (Permᴰ.symm d) refl in cc
  only-Permᴰ (i ∷ j ∷ is) (k ∷ []) d = let e = single-Permᴰ (Permᴰ.symm d) k refl in cc
  only-Permᴰ (i ∷ j ∷ is) (k ∷ l ∷ ks) d = refl

  head-Permᴰ : (xs ys : List A) → Permᴰ xs ys → only xs ≡ head xs → head xs ≡ head ys
  head-Permᴰ [] ys d e = rw (empty-Permᴰ d refl) refl
  head-Permᴰ (i ∷ []) ys d e = rw (single-Permᴰ d i refl) refl
  head-Permᴰ (i ∷ j ∷ is) ys d e = cc

  infos-Permᴰ :
      (test : StateEntry A → Bool) {xs ys : List (StateEntry A)}
      → Permᴰ xs ys
      → Permᴰ (infos test xs) (infos test ys)
  infos-Permᴰ test Permᴰ.nil = Permᴰ.nil
  infos-Permᴰ test (Permᴰ.cons {a} {b} {l₁} {l₂} e d) =
      subst (λ b. Permᴰ (infos test (a ∷ l₁)) (infos test (b ∷ l₂))) e
        (go (test a) (infos-Permᴰ test d))
    where
      go :
          (t : Bool) {is js : List A}
          → Permᴰ is js
          → Permᴰ (if t then a.info ∷ is else is) (if t then a.info ∷ js else js)
      go true d' = Permᴰ.cons refl d'
      go false d' = d'
  infos-Permᴰ test (Permᴰ.swap {a} {b} {a'} {b'} {l} e f) =
      subst (λ b'. Permᴰ (infos test (a ∷ b ∷ l)) (infos test (a' ∷ b' ∷ l))) e
        (subst (λ a'. Permᴰ (infos test (a ∷ b ∷ l)) (infos test (a' ∷ a ∷ l))) f
          (go (test a) (test b) (infos test l)))
    where
      go :
          (s t : Bool) (is : List A)
          → Permᴰ
              (if s
                then a.info ∷ (if t then b.info ∷ is else is)
                else (if t then b.info ∷ is else is))
              (if t
                then b.info ∷ (if s then a.info ∷ is else is)
                else (if s then a.info ∷ is else is))
      go true true is = Permᴰ.swap refl refl
      go true false is = Permᴰ.refl (a.info ∷ is)
      go false true is = Permᴰ.refl (b.info ∷ is)
      go false false is = Permᴰ.refl is
  infos-Permᴰ test (Permᴰ.trans d d') = Permᴰ.trans (infos-Permᴰ test d) (infos-Permᴰ test d')

  first_exact-head :
      (name : String) (es : List (StateEntry A))
      → first_exact name es ≡ head (infos (is_exact name) es)
  first_exact-head name [] = refl
  first_exact-head name (e ∷ es) = elim (Bool-cases (is_exact name e)) [
    | inl t ↦ rw (first_exact, infos, t) refl
    | inr f ↦ rw (first_exact, infos, f) (first_exact-head name es)
  ]

  -- The result of the second loop: what was found, where nothing else is.
  abbrev pub joined : Option A → List A → Option A
  joined none is = only is
  joined (some i) [] = some i
  joined (some i) (j ∷ is) = none

  joined_first : (i : A) (is : List A) → joined (some i) is ≡ only (i ∷ is)
  joined_first i [] = refl
  joined_first i (j ∷ is) = refl

  similar_loop-joined :
      (name : String) (es : List (StateEntry A)) (found : Option A)
      → similar_loop name es found ≡ joined found (infos (is_similar name) es)
  similar_loop-joined name [] none = refl
  similar_loop-joined name [] (some i) = refl
  similar_loop-joined name (e ∷ es) none = elim (Bool-cases (is_similar name e)) [
    | inl t ↦
        rw (similar_loop, infos, t)
          (similar_loop-joined name es (some e.info)
            ∙ joined_first e.info (infos (is_similar name) es))
    | inr f ↦ rw (similar_loop, infos, f) (similar_loop-joined name es none)
  ]
  similar_loop-joined name (e ∷ es) (some i) = elim (Bool-cases (is_similar name e)) [
    | inl t ↦ rw (similar_loop, infos, t) refl
    | inr f ↦ rw (similar_loop, infos, f) (similar_loop-joined name es (some i))
  ]

  -- With at most one entry of which the node or the struct has the name, and any number of those whose
  -- struct only has it in its name: the state of a name is the same in every order of the map.
  pub get_state_struct_info_order :
      (name : String) (es fs : List (StateEntry A))
      → Permᴰ es fs
      → only (infos (is_exact name) es) ≡ head (infos (is_exact name) es)
      → get_state_struct_info name es ≡ get_state_struct_info name fs
  unfolding get_state_struct_info
  get_state_struct_info_order name es fs d one =
      let exact : first_exact name es ≡ first_exact name fs =
        first_exact-head name es
        ∙ head-Permᴰ (infos (is_exact name) es) (infos (is_exact name) fs)
            (infos-Permᴰ (is_exact name) d) one
        ∙ sym (first_exact-head name fs) in
      let similar : similar_loop name es none ≡ similar_loop name fs none =
        similar_loop-joined name es none
        ∙ only-Permᴰ (infos (is_similar name) es) (infos (is_similar name) fs)
            (infos-Permᴰ (is_similar name) d)
        ∙ sym (similar_loop-joined name fs none) in
      let chosen : Option A → Option A → Option A = λ first second.
        if is_empty_text name then none else (elim first [ none ↦ second | some i ↦ some i ]) in
      ap (λ o. chosen o (similar_loop name es none)) exact
      ∙ ap (chosen (first_exact name fs)) similar
