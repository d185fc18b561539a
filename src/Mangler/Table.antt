-- ===== src/Mangler/Table.antt =====
-- The two maps of the name mangler agree.
use mathlib.Core.Path.{subst}
use stridejit.Prelude.{
  All, All-append, Bool-cases, List, Option-cases, [], arith, inl, inr, none, refl, some, sym, true,
  ℕ, ◌++◌, ◌==◌, ◌∷◌, ◌≡◌,
}
use stridejit.Mangler.{
  LlvmType, MangledSymbol, NameMangler, overload_key, encode, bytes_eq, find_key, push_name,
  new_symbol, mangle,
}

pub bytes_eq_refl : (k : List ℕ) → bytes_eq k k ≡ true
bytes_eq_refl [] = refl
bytes_eq_refl (b ∷ bs) = ground (arith, bytes_eq_refl bs)

bytes_eq→≡ : (k l : List ℕ) → bytes_eq k l ≡ true → k ≡ l
bytes_eq→≡ [] [] e = refl
bytes_eq→≡ [] (b ∷ bs) e = cc
bytes_eq→≡ (a ∷ xs) [] e = cc
bytes_eq→≡ (a ∷ xs) (b ∷ bs) e = elim (Bool-cases (a == b)) [
  | inl same ↦
      let rest = bytes_eq→≡ xs bs (ground arith) in
      let head : a ≡ b = ground arith in λ i. head i ∷ rest i
  | inr other ↦ ground arith
]

-- The map of symbols has the name, under which the symbol is mangled.
abbrev pub HasSymbol : List (List ℕ × MangledSymbol) → List ℕ → Type 0
HasSymbol symbols n = (s : MangledSymbol) × (find_key symbols n ≡ some s) × (s.mangled ≡ n)

-- Each recorded variant is a symbol.
abbrev pub IsTable : NameMangler → Type 0
IsTable nm = All (λ e. All (HasSymbol nm.symbols) e.1) nm.overload_names

All-map :
    {A : Type 0} (P Q : A → Type 0) (xs : List A) → ((x : A) → P x → Q x) → All P xs → All Q xs
All-map P Q [] f h = tt
All-map P Q (x ∷ xs) f h = (f x h.0, All-map P Q xs f h.1)

push_name-All :
    (P : List ℕ → Type 0) (table : List (List ℕ × List (List ℕ))) (key n : List ℕ)
    → All (λ e. All P e.1) table
    → P n
    → All (λ e. All P e.1) (push_name table key n)
unfolding push_name
push_name-All P [] key n h p = ((p, tt), tt)
push_name-All P ((k, names) ∷ rest) key n h p = elim (Bool-cases (bytes_eq k key)) [
  | inl hit ↦ rw (push_name, hit) (All-append P names (n ∷ []) h.0 (p, tt), h.1)
  | inr miss ↦ rw (push_name, miss) (h.0, push_name-All P rest key n h.1 p)
]

pub find_key-push_name :
    (table : List (List ℕ × List (List ℕ))) (key n : List ℕ)
    → find_key (push_name table key n) key
      ≡ some (elim (find_key table key) [ none ↦ n ∷ [] | some names ↦ names ++ n ∷ [] ])
unfolding push_name find_key
find_key-push_name [] key n = rw (bytes_eq_refl key) refl
find_key-push_name ((k, names) ∷ rest) key n = elim (Bool-cases (bytes_eq k key)) [
  | inl hit ↦ rw (push_name, hit) (rw hit refl)
  | inr miss ↦ rw (push_name, miss) (rw miss (find_key-push_name rest key n))
]

module _ (nm : NameMangler) (name : List ℕ) (scope : List (List ℕ)) (types : List LlvmType) where
  abbrev pub mangled : List ℕ
  mangled = encode name scope types

  abbrev pub symbol : MangledSymbol
  symbol = new_symbol name scope types mangled

  pub mangle_new :
      find_key nm.symbols mangled ≡ none
      → mangle nm name scope types ≡ (
        mangled,
        record {
          symbols = (mangled, symbol) ∷ nm.symbols;
          overload_names = push_name nm.overload_names (overload_key name scope) mangled;
        },
      )
  unfolding mangle
  mangle_new e = rw (mangle, e) refl

  pub mangle_again :
      (s : MangledSymbol)
      → find_key nm.symbols mangled ≡ some s
      → mangle nm name scope types ≡ (mangled, nm)
  unfolding mangle
  mangle_again s e = rw (mangle, e) refl

  HasSymbol-here : HasSymbol ((mangled, symbol) ∷ nm.symbols) mangled
  unfolding find_key
  HasSymbol-here = (symbol, rw (find_key, bytes_eq_refl mangled) refl, refl)

  HasSymbol-cons :
      (n : List ℕ) → HasSymbol nm.symbols n → HasSymbol ((mangled, symbol) ∷ nm.symbols) n
  unfolding find_key
  HasSymbol-cons n (s, found, e) = elim (Bool-cases (bytes_eq mangled n)) [
    | inl same ↦ (symbol, rw (find_key, same) refl, bytes_eq→≡ mangled n same)
    | inr other ↦ (s, rw (find_key, other) found, e)
  ]

  -- Mangling a symbol keeps the two maps of the mangler in agreement: each name that is recorded as
  -- a variant is the name of a symbol, which bears it.
  pub mangle-IsTable : IsTable nm → IsTable (mangle nm name scope types).1
  mangle-IsTable h = elim (Option-cases (find_key nm.symbols mangled)) [
    | inl e ↦
        subst (λ r. IsTable r.1) (sym (mangle_new e))
          (push_name-All (HasSymbol ((mangled, symbol) ∷ nm.symbols)) nm.overload_names
            (overload_key name scope) mangled
            (All-map _ _ nm.overload_names (λ e'. All-map _ _ e'.1 HasSymbol-cons) h)
            HasSymbol-here)
    | inr (s, e) ↦ subst (λ r. IsTable r.1) (sym (mangle_again s e)) h
  ]
