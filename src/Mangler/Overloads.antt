-- ===== src/Mangler/Overloads.antt =====
-- What the name mangler answers after symbols have been mangled.
use mathlib.Core.Path.{subst}
use stridejit.Prelude.{
  All, Bool-cases, List, Option, Option-cases, [], ap, false, inl, inr, none, refl, some, sym, ℕ,
  ◌++◌, ◌∙◌, ◌∷◌, ◌≡◌,
}
use stridejit.Mangler.{
  LlvmType, MangledSymbol, NameMangler, overload_key, encode, bytes_eq, find_key, push_name, mangle,
  lookup, resolve, symbols_at, overloads, only_one, resolve_unique,
}
use stridejit.Mangler.Table.{
  HasSymbol, IsTable, bytes_eq_refl, find_key-push_name, mangle_new, mangle_again, mangle-IsTable,
  symbol,
}

abbrev pub names_of : List MangledSymbol → List (List ℕ)
names_of [] = []
names_of (s ∷ ss) = s.mangled ∷ names_of ss

-- The names that are recorded under a key.
abbrev recorded : NameMangler → List ℕ → List (List ℕ)
recorded nm key = elim (find_key nm.overload_names key) [ none ↦ [] | some names ↦ names ]

symbols_at-names_of :
    (symbols : List (List ℕ × MangledSymbol)) (ns : List (List ℕ))
    → All (HasSymbol symbols) ns
    → (ss : List MangledSymbol) × (symbols_at symbols ns ≡ some ss) × (names_of ss ≡ ns)
unfolding symbols_at
symbols_at-names_of symbols [] h = ([], refl, refl)
symbols_at-names_of symbols (n ∷ ns) ((s, found, e), h) =
    let (ss, found', e') = symbols_at-names_of symbols ns h in
    (s ∷ ss, rw (symbols_at, found, found') refl, λ i. e i ∷ e' i)

found-All :
    (P : List ℕ → Type 0) (table : List (List ℕ × List (List ℕ))) (key : List ℕ)
    → All (λ e. All P e.1) table
    → All P (elim (find_key table key) [ none ↦ [] | some names ↦ names ])
unfolding find_key
found-All P [] key h = tt
found-All P ((k, names) ∷ rest) key h = elim (Bool-cases (bytes_eq k key)) [
  | inl hit ↦ rw hit h.0
  | inr miss ↦ rw miss (found-All P rest key h.1)
]

overloads-recorded :
    (nm : NameMangler) (name : List ℕ) (scope : List (List ℕ))
    → IsTable nm
    → (ss : List MangledSymbol) × (overloads nm name scope ≡ some ss)
      × (names_of ss ≡ recorded nm (overload_key name scope))
unfolding overloads
overloads-recorded nm name scope h =
    found (find_key nm.overload_names (overload_key name scope))
      (found-All (HasSymbol nm.symbols) nm.overload_names (overload_key name scope) h)
  where
    found :
        (o : Option (List (List ℕ)))
        → All (HasSymbol nm.symbols) (elim o [ none ↦ [] | some names ↦ names ])
        → (ss : List MangledSymbol) × (elim o [
          | none ↦ some []
          | some names ↦ symbols_at nm.symbols names
        ]
            ≡ some ss)
          × (names_of ss ≡ elim o [ none ↦ [] | some names ↦ names ])
    found none h' = ([], refl, refl)
    found (some names) h' = symbols_at-names_of nm.symbols names h'

module _ (nm : NameMangler) (name : List ℕ) (scope : List (List ℕ)) (types : List LlvmType) where
  recorded_new :
      find_key nm.symbols (encode name scope types) ≡ none
      → recorded (mangle nm name scope types).1 (overload_key name scope)
        ≡ recorded nm (overload_key name scope) ++ encode name scope types ∷ []
  recorded_new e =
      let key = overload_key name scope in
      let table = push_name nm.overload_names key (encode name scope types) in
      ap (λ r. recorded r.1 key) (mangle_new nm name scope types e)
      ∙ ap (λ o. elim o [ none ↦ [] | some names ↦ names ])
          (find_key-push_name nm.overload_names key (encode name scope types))
      ∙ pushed (find_key nm.overload_names key)
    where
      pushed :
          (o : Option (List (List ℕ)))
          → elim o [
            | none ↦ encode name scope types ∷ []
            | some names ↦ names ++ encode name scope types ∷ []
          ]
            ≡ elim o [ none ↦ [] | some names ↦ names ] ++ encode name scope types ∷ []
      pushed none = refl
      pushed (some names) = refl

  -- Where the maps agree and the symbol is not known yet, the variants of its name are found before
  -- and after it is mangled, no name among them missing, and its mangled name is the new last one.
  pub overloads-mangle :
      IsTable nm
      → find_key nm.symbols (encode name scope types) ≡ none
      → (before : List MangledSymbol) × (after : List MangledSymbol) × (overloads nm name scope
          ≡ some before)
        × (overloads (mangle nm name scope types).1 name scope ≡ some after)
        × (names_of after ≡ names_of before ++ encode name scope types ∷ [])
  overloads-mangle h e =
      let (before, found, same) = overloads-recorded nm name scope h in
      let (after, found', same') =
        overloads-recorded (mangle nm name scope types).1 name scope
          (mangle-IsTable nm name scope types h) in
      (
        before,
        after,
        found,
        found',
        same' ∙ recorded_new e ∙ ap (λ ns. ns ++ encode name scope types ∷ []) (sym same),
      )

  -- The result is the encoded name; it is looked up again, every other name resolves as it did
  -- before, and mangling the symbol once more changes nothing.
  abbrev pub Remembers : List ℕ × NameMangler → Type 0
  Remembers r =
      (r.0 ≡ encode name scope types)
      × (lookup r.1 name scope types ≡ some (encode name scope types))
      × ((n : List ℕ) → bytes_eq (encode name scope types) n ≡ false → resolve r.1 n ≡ resolve nm n)
      × (mangle r.1 name scope types ≡ r)

  known-lookup :
      (nm' : NameMangler) (s : MangledSymbol)
      → find_key nm'.symbols (encode name scope types) ≡ some s
      → lookup nm' name scope types ≡ some (encode name scope types)
  unfolding lookup
  known-lookup nm' s e = rw (lookup, e) refl

  -- Mangling a symbol returns its encoded name. The symbol is looked up again under that name, every
  -- other name resolves as it did before, and mangling the symbol once more changes nothing.
  pub mangle-Remembers : Remembers (mangle nm name scope types)
  unfolding resolve find_key
  mangle-Remembers = elim (Option-cases (find_key nm.symbols (encode name scope types))) [
    | inl e ↦
        let nm' : NameMangler = record {
          symbols = (encode name scope types, symbol nm name scope types) ∷ nm.symbols;
          overload_names =
              push_name nm.overload_names (overload_key name scope) (encode name scope types);
        } in
        let here : find_key nm'.symbols (encode name scope types)
            ≡ some (symbol nm name scope types) =
          rw (bytes_eq_refl (encode name scope types)) refl in
        subst Remembers (sym (mangle_new nm name scope types e)) (
          refl,
          known-lookup nm' (symbol nm name scope types) here,
          λ n other. rw other refl,
          mangle_again nm' name scope types (symbol nm name scope types) here,
        )
    | inr (s, e) ↦
        subst Remembers (sym (mangle_again nm name scope types s e))
          (refl, known-lookup nm s e, λ n other. refl, mangle_again nm name scope types s e)
  ]

only_name : List (List ℕ) → Option (List ℕ)
only_name (n ∷ []) = some n
only_name _ = none

only_one-names_of : (ss : List MangledSymbol) → only_one ss ≡ only_name (names_of ss)
unfolding only_name
only_one-names_of [] = refl
only_one-names_of (s ∷ []) = refl
only_one-names_of (s ∷ t ∷ ss) = refl

only_name-append :
    (ns : List MangledSymbol) (n : List ℕ)
    → only_name (names_of ns ++ n ∷ []) ≡ elim ns [ [] ↦ some n | _ ∷ _ ↦ none ]
unfolding only_name
only_name-append [] n = refl
only_name-append (m ∷ []) n = refl
only_name-append (m ∷ k ∷ ns) n = refl

-- Where the maps agree and the symbol is not known yet, mangling it makes its name resolve to it
-- where it is the first variant of the name, and to nothing where there is another one, also where
-- that is the plain name itself.
pub resolve_unique-mangle :
    (nm : NameMangler) (name : List ℕ) (scope : List (List ℕ)) (types : List LlvmType)
    → IsTable nm
    → find_key nm.symbols (encode name scope types) ≡ none
    → (before : List MangledSymbol) × (overloads nm name scope ≡ some before)
      × (resolve_unique (mangle nm name scope types).1 name scope
          ≡ some (elim before [ [] ↦ some (encode name scope types) | _ ∷ _ ↦ none ]))
unfolding resolve_unique
resolve_unique-mangle nm name scope types h e =
    let (before, after, found, found', names) = overloads-mangle nm name scope types h e in
    (
      before,
      found,
      rw (resolve_unique, found')
          (ap some (
            only_one-names_of after
            ∙ ap only_name names
            ∙ only_name-append before (encode name scope types))),
    )
