-- ===== src/Invoker/Valid.antt =====
-- No call on a parameter list leaves its vectors.
use mathlib.Core.Path.{subst}
use mathlib.Core.Bool.{true≢false}
use mathlib.Core.Option.{some-injective}
use text.Mathlib.TextEquality.{eq_iff}
use stridejit.Prelude.{
  ==_iff, Bool, Bool-cases, List, Option, Option-cases, String, [], ap, arith, false, get_elem?,
  get_elem?-set_ne, get_elem?-set_self, inl, inr, leb, leb→lt, length, length-replicate, length-set,
  lt→ltb, refl, set, some, str_eq, suc, sym, true, zero, ℕ, ℤ, ◌+◌, ◌<◌, ◌==◌, ◌∙◌, ◌∷◌, ◌≡◌, ◌⊎◌,
}
use stridejit.Invoker.{
  FunctionArgInfo, Pointer, ParameterList, find_index, index_names, new_list, store_arg, is_sized,
  set_arg_at, set_arg, set_state, state_index, is_state, null,
}

-- The description at an index has a name.
abbrev pub IsNamed : List FunctionArgInfo → String → ℕ → Type 0
IsNamed infos n i = (info : FunctionArgInfo) × (get_elem? infos i ≡ some info) × (info.name ≡ n)

-- As many arguments as descriptions, and every name leads to a description of this name.
pub record IsList (l : ParameterList) : Type 0 where
  pub same_length : length l.args ≡ length l.arg_infos
  pub named : (n : String) (i : ℕ) → find_index l.name_to_index n ≡ some i → IsNamed l.arg_infos n i

pub get_elem?-lt {ℓ} :
    {A : Type ℓ} (xs : List A) (i : ℕ) (x : A) → get_elem? xs i ≡ some x → i < length xs
get_elem?-lt [] i x e = cc
get_elem?-lt (y ∷ xs) zero x e = omega arith
get_elem?-lt (y ∷ xs) (suc i) x e = omega (arith, get_elem?-lt xs i x e)

pub get_elem?-some {ℓ} :
    {A : Type ℓ} (xs : List A) (i : ℕ) → i < length xs → (x : A) × (get_elem? xs i ≡ some x)
get_elem?-some [] i h = absurd (omega arith)
get_elem?-some (x ∷ xs) zero h = (x, refl)
get_elem?-some (x ∷ xs) (suc i) h = get_elem?-some xs i (omega arith)

-- A lookup in the names of the descriptions from `i` on.
index_names-find :
    (infos : List FunctionArgInfo) (i : ℕ) (names : List (String × ℕ)) (n : String) (j : ℕ)
    → find_index (index_names infos i names) n ≡ some j
    → ((k : ℕ) × (j ≡ i + k) × IsNamed infos n k) ⊎ (find_index names n ≡ some j)
index_names-find [] i names n j e = inr e
index_names-find (info ∷ infos) i names n j e =
    elim (index_names-find infos (i + 1) ((info.name, i) ∷ names) n j e) [
      | inl (k, at_k, named) ↦ inl (suc k, omega (arith, at_k), named)
      | inr found ↦ here (Bool-cases (str_eq info.name n)) found
    ]
  where
    here :
        (str_eq info.name n ≡ true) ⊎ (str_eq info.name n ≡ false)
        → find_index ((info.name, i) ∷ names) n ≡ some j
        → ((k : ℕ) × (j ≡ i + k) × IsNamed (info ∷ infos) n k) ⊎ (find_index names n ≡ some j)
    here (inl same) found =
        let at_i : some i ≡ some j = rw (find_index, same) at found in
        inl (0, omega (arith, some-injective i j at_i), (info, refl, (eq_iff info.name n).0 same))
    here (inr other) found = inr (rw (find_index, other) at found)

pub new_list-IsList : (infos : List FunctionArgInfo) → IsList (new_list infos)
unfolding new_list
new_list-IsList infos = record {
  same_length = length-replicate (length infos) null;
  named = λ n i e. elim (index_names-find infos 0 [] n i e) [
    | inl (k, at_k, named) ↦
        subst (IsNamed infos n) (let s : k ≡ i = omega (arith, at_k) in s) named
    | inr found ↦ cc
  ];
}

-- A result that is no fault and leaves a good list.
abbrev pub Keeps : Option (Bool × ParameterList) → Type 0
Keeps o = (b : Bool) × (next : ParameterList) × (o ≡ some (b, next)) × IsList next

state_index-lt :
    (infos : List FunctionArgInfo) (i j : ℕ) → state_index infos i ≡ some j → j < i + length infos
state_index-lt [] i j e = cc
state_index-lt (info ∷ infos) i j e = elim (Bool-cases (is_state info.role)) [
  | inl here ↦
      let same : some i ≡ some j = rw (state_index, here) at e in
      omega (arith, some-injective i j same)
  | inr there ↦
      let later : state_index infos (i + 1) ≡ some j = rw (state_index, there) at e in
      omega (arith, state_index-lt infos (i + 1) j later)
]

module _ (l : ParameterList) (good : IsList l) where
  pub named-lt : (n : String) (i : ℕ) → find_index l.name_to_index n ≡ some i → i < length l.args
  named-lt n i e =
      let (info, found, same) = good.named n i e in
      omega (arith, get_elem?-lt l.arg_infos i info found, good.same_length)

-- The list after a store.
abbrev pub stored : ParameterList → ℕ → Pointer → ParameterList
stored l i p = record l { args = set l.args i p }

-- The list after the value of a property is noted.
abbrev pub with_value : ParameterList → ℕ → FunctionArgInfo → ℤ → ParameterList
with_value l i info value = record l {
  arg_infos = set l.arg_infos i (record info { property_value = value });
}

pub store_arg-some :
    (l : ParameterList) (i : ℕ) (p : Pointer)
    → i < length l.args
    → store_arg l i p ≡ some (stored l i p)
store_arg-some l i p h = rw (store_arg, lt→ltb i (length l.args) h) refl

pub stored-IsList : (l : ParameterList) (i : ℕ) (p : Pointer) → IsList l → IsList (stored l i p)
stored-IsList l i p good = record {
  same_length = length-set l.args i p ∙ good.same_length;
  named = good.named;
}

pub with_value-IsList :
    (l : ParameterList) (i : ℕ) (info : FunctionArgInfo) (value : ℤ)
    → IsList l
    → get_elem? l.arg_infos i ≡ some info
    → IsList (with_value l i info value)
with_value-IsList l i info value good at_i = record {
  same_length =
      good.same_length ∙ sym (length-set l.arg_infos i (record info { property_value = value }));
  named = λ n j e. elim (Bool-cases (j == i)) [
    | inl same ↦
        let here : j ≡ i = (==_iff j i).0 same in
        let (found, at_j, name_is) = good.named n j e in
        let equal : found ≡ info =
          some-injective found info (sym at_j ∙ ap (get_elem? l.arg_infos) here ∙ at_i) in
        (
          record info { property_value = value },
          ap (get_elem? (set l.arg_infos i (record info { property_value = value }))) here
              ∙ get_elem?-set_self l.arg_infos i (record info { property_value = value })
                  (get_elem?-lt l.arg_infos i info at_i),
          ap (λ (f : FunctionArgInfo). f.name) (sym equal) ∙ name_is,
        )
    | inr other ↦
        let (found, at_j, name_is) = good.named n j e in
        (
          found,
          get_elem?-set_ne l.arg_infos i j (record info { property_value = value })
                (λ same. absurd (true≢false (sym ((==_iff j i).1 same) ∙ other)))
              ∙ at_j,
          name_is,
        )
  ];
}

module _ (l : ParameterList) (good : IsList l) where
  pub set_arg_at-Keeps : (i : ℕ) (p : Pointer) → Keeps (set_arg_at l i p)
  unfolding set_arg_at
  set_arg_at-Keeps i p = elim (Bool-cases (leb (length l.args) i)) [
    | inl e ↦ (false, l, rw (set_arg_at, e) refl, good)
    | inr e ↦
        let inside = leb→lt (length l.args) i e in
        let (info, at_i) = get_elem?-some l.arg_infos i (omega (arith, good.same_length)) in
        elim (Bool-cases (is_sized l info)) [
          | inl sized ↦ (false, l, rw (set_arg_at, e, at_i, sized) refl, good)
          | inr plain ↦ (
            true,
            stored l i p,
            rw (set_arg_at, e, at_i, plain, store_arg-some l i p inside) refl,
            stored-IsList l i p good,
          )
        ]
  ]

  pub set_arg-Keeps : (n : String) (p : Pointer) → Keeps (set_arg l n p)
  unfolding set_arg
  set_arg-Keeps n p = elim (Option-cases (find_index l.name_to_index n)) [
    | inl e ↦ (false, l, rw (set_arg, e) refl, good)
    | inr (i, e) ↦
        let (b, next, result, kept) = set_arg_at-Keeps i p in
        (b, next, rw (set_arg, e) result, kept)
  ]

  pub set_state-Keeps : (p : Pointer) → Keeps (set_state l p)
  unfolding set_state
  set_state-Keeps p = elim (Option-cases (state_index l.arg_infos 0)) [
    | inl e ↦
        let (b, next, result, kept) = set_arg-Keeps "__state" p in
        (b, next, rw (set_state, e) result, kept)
    | inr (i, e) ↦
        let inside : i < length l.args =
          omega (arith, state_index-lt l.arg_infos 0 i e, good.same_length) in
        (
          true,
          stored l i p,
          rw (set_state, e, store_arg-some l i p inside) refl,
          stored-IsList l i p good,
        )
  ]
