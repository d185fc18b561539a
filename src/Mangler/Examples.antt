-- ===== src/Mangler/Examples.antt =====
-- Names that are mangled: Abs for real numbers, then for integers.
use stridejit.Prelude.{All, List, [], none, refl, some, ℕ, ◌++◌, ◌∷◌, ◌≡◌}
use stridejit.Mangler.{
  LlvmType, double_type, integer_type, MangledSymbol, NameMangler, type_part, overload_key, encode,
  find_key, mangle, lookup, symbols_at, overloads, resolve_unique,
}
use stridejit.Mangler.Keys.{IsComponent, encode-injective}
use stridejit.Mangler.Table.{IsTable}
use stridejit.Mangler.Overloads.{names_of, overloads-mangle, resolve_unique-mangle}

abbrev abs_name : List ℕ
abs_name = b'A' ∷ b'b' ∷ b's' ∷ []

abbrev math : List (List ℕ)
math = (b'M' ∷ []) ∷ []

abbrev reals : List LlvmType
reals = double_type ∷ double_type ∷ []

abbrev integers : List LlvmType
integers = integer_type 32 ∷ integer_type 32 ∷ []

encoded_reals :
    encode abs_name [] reals
    ≡ b'_' ∷ b'S' ∷ b'3' ∷ b'A' ∷ b'b' ∷ b's' ∷ b'_' ∷ b'T' ∷ b'd' ∷ b'd' ∷ b'E' ∷ []
unfolding encode
encoded_reals = refl

abbrev one_variant : NameMangler
one_variant = record {
  symbols =
      (
        encode abs_name math reals,
        record {
          name = abs_name;
          scope = math;
          types = reals;
          mangled = encode abs_name math reals;
        },
      )
      ∷ [];
  overload_names = (overload_key abs_name math, encode abs_name math reals ∷ []) ∷ [];
}

one_variant-IsTable : IsTable one_variant
unfolding find_key encode
one_variant-IsTable = (((_, refl, refl), tt), tt)

integers_are_new : find_key one_variant.symbols (encode abs_name math integers) ≡ none
unfolding find_key encode
integers_are_new = refl

overloads-mangle_example :
    (before : List MangledSymbol) × (after : List MangledSymbol) × (overloads one_variant abs_name
        math
      ≡ some before)
    × (overloads (mangle one_variant abs_name math integers).1 abs_name math ≡ some after)
    × (names_of after ≡ names_of before ++ encode abs_name math integers ∷ [])
overloads-mangle_example =
    overloads-mangle one_variant abs_name math integers one_variant-IsTable integers_are_new

resolve_unique-mangle_example :
    (before : List MangledSymbol) × (overloads one_variant abs_name math ≡ some before)
    × (resolve_unique (mangle one_variant abs_name math integers).1 abs_name math
        ≡ some (elim before [ [] ↦ some (encode abs_name math integers) | _ ∷ _ ↦ none ]))
resolve_unique-mangle_example =
    resolve_unique-mangle one_variant abs_name math integers one_variant-IsTable integers_are_new

components : All IsComponent (abs_name ∷ math)
components = (refl, (refl, tt))

encode-injective_example :
    (abs_name ≡ abs_name) × (math ≡ math) × (type_part reals ≡ type_part reals)
encode-injective_example =
    encode-injective abs_name abs_name math math reals reals tt tt components components refl

-- A plain name that is registered, and then a variant with types: the plain name is looked up, and
-- resolves to nothing.
abbrev new_mangler : NameMangler
new_mangler = record { symbols = []; overload_names = [] }

abbrev plain_and_reals : NameMangler
plain_and_reals = (mangle (mangle new_mangler abs_name [] []).1 abs_name [] reals).1

plain_is_known : lookup plain_and_reals abs_name [] [] ≡ some abs_name
unfolding mangle lookup encode find_key
plain_is_known = refl

plain_is_ambiguous : resolve_unique plain_and_reals abs_name [] ≡ some none
unfolding mangle resolve_unique overloads encode find_key symbols_at
plain_is_ambiguous = refl
