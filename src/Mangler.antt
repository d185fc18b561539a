-- ===== src/Mangler.antt =====
-- The name mangler: src/namemangler.cpp and include/stride/stridejit/namemangler.hpp. A std::string
-- is the list of its bytes, a std::map a list of pairs.
pub mod Decimal
pub mod Keys
pub mod Table
pub mod Overloads
mod Examples
use stridejit.Prelude.{
  Bool, List, Option, [], false, if◌then◌else◌, length, ltb, none, some, suc, true, zero, ℕ, ◌%◌,
  ◌++◌, ◌+◌, ◌/◌, ◌==◌, ◌∷◌,
}

-- What typeCode asks of an `llvm::Type *`.
mutual
  pub data LlvmType : Type 0 where
    null_type void_type float_type double_type pointer_type other_type : LlvmType
    integer_type : ℕ → LlvmType
    array_type : ℕ → LlvmType → LlvmType
    named_struct : List ℕ → LlvmType
    struct_type : LlvmTypes → LlvmType

  pub data LlvmTypes : Type 0 where
    no_types : LlvmTypes
    element : LlvmType → LlvmTypes → LlvmTypes

pub record MangledSymbol : Type 0 where
  pub name : List ℕ
  pub scope : List (List ℕ)
  pub types : List LlvmType
  pub mangled : List ℕ

-- `std::to_string`: each round writes a digit before the rest.
pub decimal_before : ℕ → ℕ → List ℕ → List ℕ
decimal_before zero n rest = rest
decimal_before (suc rounds) n rest = elim (ltb n 10) [
  | true ↦ (b'0' + n) ∷ rest
  | false ↦ decimal_before rounds (n / 10) ((b'0' + n % 10) ∷ rest)
]

-- A number has fewer digits than its value and one.
unfoldable pub decimal : ℕ → List ℕ
unfolding decimal_before
decimal n = decimal_before (suc n) n []

unfoldable pub length_prefixed : List ℕ → List ℕ
unfolding decimal
length_prefixed component = decimal (length component) ++ component

abbrev pub prefixed_all : List (List ℕ) → List ℕ
prefixed_all [] = []
prefixed_all (s ∷ ss) = length_prefixed s ++ prefixed_all ss

unfoldable pub overload_key : List ℕ → List (List ℕ) → List ℕ
unfolding length_prefixed
overload_key name scope = prefixed_all scope ++ length_prefixed name

abbrev integer_code : ℕ → List ℕ
integer_code w =
    if w == 1
    then b'b' ∷ []
    else if w == 8
    then b'c' ∷ []
    else if w == 16
    then b's' ∷ []
    else if w == 32
    then b'i' ∷ []
    else if w == 64
    then b'l' ∷ []
    else b'I' ∷ decimal w ++ b'_' ∷ []

-- `typeCode`, and the codes of the elements of a struct.
unfoldable mutual
  unfolding length_prefixed

  pub type_code : LlvmType → List ℕ
  type_code null_type = b'u' ∷ []
  type_code void_type = b'v' ∷ []
  type_code float_type = b'f' ∷ []
  type_code double_type = b'd' ∷ []
  type_code pointer_type = b'p' ∷ []
  type_code other_type = b'u' ∷ []
  type_code (integer_type w) = integer_code w
  type_code (array_type n t) = b'A' ∷ decimal n ++ b'_' ∷ type_code t
  type_code (named_struct n) = b'S' ∷ length_prefixed n
  type_code (struct_type ts) = b'S' ∷ element_codes ts ++ b'E' ∷ []

  pub element_codes : LlvmTypes → List ℕ
  element_codes no_types = []
  element_codes (element t ts) = type_code t ++ element_codes ts

abbrev pub type_codes : List LlvmType → List ℕ
type_codes [] = []
type_codes (t ∷ ts) = type_code t ++ type_codes ts

-- The part of an encoded name that is about its types.
abbrev pub type_part : List LlvmType → List ℕ
type_part [] = []
type_part (t ∷ ts) = b'_' ∷ b'T' ∷ type_codes (t ∷ ts) ++ b'E' ∷ []

unfoldable pub encode : List ℕ → List (List ℕ) → List LlvmType → List ℕ
unfolding overload_key type_code
encode name [] [] = name
encode name scope types = b'_' ∷ b'S' ∷ overload_key name scope ++ type_part types

-- The comparison of two strings.
abbrev pub bytes_eq : List ℕ → List ℕ → Bool
bytes_eq [] [] = true
bytes_eq [] (b ∷ bs) = false
bytes_eq (a ∷ xs) [] = false
bytes_eq (a ∷ xs) (b ∷ bs) = if a == b then bytes_eq xs bs else false

-- `m_symbols` and `m_overloads`.
pub record NameMangler : Type 0 where
  pub symbols : List (List ℕ × MangledSymbol)
  pub overload_names : List (List ℕ × List (List ℕ))

-- `clear`
abbrev pub clear : NameMangler
clear = record { symbols = []; overload_names = [] }

-- `find` on a map.
pub find_key : {A : Type 0} → List (List ℕ × A) → List ℕ → Option A
find_key [] key = none
find_key ((k, a) ∷ rest) key =
    let later = find_key rest key in if bytes_eq k key then some a else later

-- `m_overloads[key].push_back(mangled)`
unfoldable pub push_name :
    List (List ℕ × List (List ℕ)) → List ℕ → List ℕ → List (List ℕ × List (List ℕ))
push_name [] key mangled = (key, mangled ∷ []) ∷ []
push_name ((k, names) ∷ rest) key mangled =
    let later = push_name rest key mangled in
    if bytes_eq k key then (k, names ++ mangled ∷ []) ∷ rest else (k, names) ∷ later

abbrev pub new_symbol : List ℕ → List (List ℕ) → List LlvmType → List ℕ → MangledSymbol
new_symbol name scope types mangled = record {
  name = name;
  scope = scope;
  types = types;
  mangled = mangled;
}

unfoldable pub mangle : NameMangler → List ℕ → List (List ℕ) → List LlvmType → List ℕ × NameMangler
unfolding encode find_key push_name
mangle nm name scope types =
    let mangled = encode name scope types in
    elim (find_key nm.symbols mangled) [
      | some _ ↦ (mangled, nm)
      | none ↦ (
        mangled,
        record {
          symbols = (mangled, new_symbol name scope types mangled) ∷ nm.symbols;
          overload_names = push_name nm.overload_names (overload_key name scope) mangled;
        },
      )
    ]

unfoldable pub lookup : NameMangler → List ℕ → List (List ℕ) → List LlvmType → Option (List ℕ)
unfolding encode find_key
lookup nm name scope types =
    let mangled = encode name scope types in
    elim (find_key nm.symbols mangled) [ none ↦ none | some _ ↦ some mangled ]

unfoldable pub resolve : NameMangler → List ℕ → Option MangledSymbol
unfolding find_key
resolve nm mangled = find_key nm.symbols mangled

-- `m_symbols.at(mangled)` throws on a name that is missing: no result.
unfoldable pub symbols_at :
    List (List ℕ × MangledSymbol) → List (List ℕ) → Option (List MangledSymbol)
unfolding find_key
symbols_at symbols [] = some []
symbols_at symbols (n ∷ ns) = elim (find_key symbols n) [
  | none ↦ none
  | some s ↦ elim (symbols_at symbols ns) [ none ↦ none | some ss ↦ some (s ∷ ss) ]
]

unfoldable pub overloads : NameMangler → List ℕ → List (List ℕ) → Option (List MangledSymbol)
unfolding symbols_at overload_key
overloads nm name scope = elim (find_key nm.overload_names (overload_key name scope)) [
  | none ↦ some []
  | some names ↦ symbols_at nm.symbols names
]

-- The name of a single variant.
abbrev pub only_one : List MangledSymbol → Option (List ℕ)
only_one (s ∷ []) = some s.mangled
only_one _ = none

unfoldable pub resolve_unique : NameMangler → List ℕ → List (List ℕ) → Option (Option (List ℕ))
unfolding overloads
resolve_unique nm name scope = elim (overloads nm name scope) [
  | none ↦ none
  | some variants ↦ some (only_one variants)
]
