-- ===== src/Runtime/Search.antt =====
-- Searching and comparing: `__stride_string_find` to `__stride_string_is_empty`.
pub mod Bytes
pub mod Find
pub mod Affix
use stridejit.Prelude.{
  Bool, List, [], drop, eqb_ℤ, false, if◌then◌else◌, leb_ℤ, length, ltb_ℤ, minus_one, none, not,
  pos, pos_part, some, suc, true, zero, ℕ, ℤ, ◌+ℤ◌, ◌+◌, ◌-ℤ◌, ◌||◌, ◌∷◌,
}
use Prim.Native.Nat.{compare, Ordering, min}
use stridejit.Runtime.View.{StringView}

-- C's `memcmp` of `n` bytes, by its sign. A byte that is not there is smaller than every byte.
unfoldable pub memcmp : List ℕ → List ℕ → ℕ → Ordering
memcmp a b zero = Ordering.eq
memcmp [] [] (suc n) = Ordering.eq
memcmp [] (y ∷ b) (suc n) = Ordering.lt
memcmp (x ∷ a) [] (suc n) = Ordering.gt
memcmp (x ∷ a) (y ∷ b) (suc n) =
    let rest = memcmp a b n in
    elim (compare x y) [
      | Ordering.lt ↦ Ordering.lt
      | Ordering.eq ↦ rest
      | Ordering.gt ↦ Ordering.gt
    ]

-- `memcmp(...) == 0`
unfoldable pub same_bytes : List ℕ → List ℕ → ℕ → Bool
unfolding memcmp
same_bytes a b n = elim (memcmp a b n) [ Ordering.eq ↦ true | _ ↦ false ]

-- `for (i = start; i <= haystack.length - needle.length; ++i)`, with `rounds` values of `i` left.
pub find_from : List ℕ → List ℕ → ℕ → ℕ → ℕ → ℤ
find_from h nd nlen i zero = minus_one
find_from h nd nlen i (suc rounds) =
    let rest = find_from h nd nlen (i + 1) rounds in
    if same_bytes (drop i h) nd nlen then pos i else rest

unfoldable pub find : StringView → StringView → ℤ → ℤ
unfolding find_from same_bytes
find haystack needle start = elim haystack.bytes [
  | none ↦ minus_one
  | some h ↦ elim needle.bytes [
    | none ↦ minus_one
    | some nd ↦
        if eqb_ℤ needle.length (pos 0)
        then minus_one
        else let from = if ltb_ℤ start (pos 0) then pos 0 else start in
          if ltb_ℤ haystack.length (from +ℤ needle.length)
          then minus_one
          else find_from h nd (pos_part needle.length) (pos_part from)
              (pos_part (haystack.length -ℤ needle.length -ℤ from +ℤ pos 1))
  ]
]

-- `for (i = haystack.length - needle.length; i >= 0; --i)`, with `rounds` = i + 1.
pub find_last_from : List ℕ → List ℕ → ℕ → ℕ → ℤ
find_last_from h nd nlen zero = minus_one
find_last_from h nd nlen (suc i) =
    let rest = find_last_from h nd nlen i in if same_bytes (drop i h) nd nlen then pos i else rest

unfoldable pub find_last : StringView → StringView → ℤ
unfolding find_last_from same_bytes
find_last haystack needle = elim haystack.bytes [
  | none ↦ minus_one
  | some h ↦ elim needle.bytes [
    | none ↦ minus_one
    | some nd ↦
        if eqb_ℤ needle.length (pos 0) || ltb_ℤ haystack.length needle.length
        then minus_one
        else find_last_from h nd (pos_part needle.length)
            (pos_part (haystack.length -ℤ needle.length +ℤ pos 1))
  ]
]

unfoldable pub contains : StringView → StringView → Bool
contains haystack needle = leb_ℤ (pos 0) (find haystack needle (pos 0))

unfoldable pub starts_with : StringView → StringView → Bool
unfolding same_bytes
starts_with str prefix = elim str.bytes [
  | none ↦ false
  | some s ↦ elim prefix.bytes [
    | none ↦ false
    | some p ↦
        if ltb_ℤ str.length prefix.length then false else same_bytes s p (pos_part prefix.length)
  ]
]

unfoldable pub ends_with : StringView → StringView → Bool
unfolding same_bytes
ends_with str suffix = elim str.bytes [
  | none ↦ false
  | some s ↦ elim suffix.bytes [
    | none ↦ false
    | some x ↦
        if ltb_ℤ str.length suffix.length
        then false
        else let offset = pos_part (str.length -ℤ suffix.length) in
          same_bytes (drop offset s) x (pos_part suffix.length)
  ]
]

unfoldable pub equal : StringView → StringView → Bool
unfolding same_bytes
equal a b =
    if not (eqb_ℤ a.length b.length)
    then false
    else if eqb_ℤ a.length (pos 0)
    then true
    else elim a.bytes [
      | none ↦ false
      | some x ↦ elim b.bytes [ none ↦ false | some y ↦ same_bytes x y (pos_part a.length) ]
    ]

-- The tests on the lengths that end `compare`.
abbrev pub compare_lengths : ℤ → ℤ → ℤ
compare_lengths m n = if ltb_ℤ m n then minus_one else if ltb_ℤ n m then pos 1 else pos 0

-- `cmp < 0 ? -1 : 1`, and the lengths where `cmp` is 0.
abbrev pub compare_result : Ordering → ℤ → ℤ → ℤ
compare_result Ordering.lt m n = minus_one
compare_result Ordering.gt m n = pos 1
compare_result Ordering.eq m n = compare_lengths m n

-- `std::min` of the two lengths, where neither is negative.
abbrev pub min_length : ℤ → ℤ → ℕ
min_length m n = min (pos_part m) (pos_part n)

unfoldable pub compare_views : StringView → StringView → ℤ
unfolding memcmp
compare_views a b = elim a.bytes [
  | none ↦ compare_lengths a.length b.length
  | some x ↦ elim b.bytes [
    | none ↦ compare_lengths a.length b.length
    | some y ↦ compare_result (memcmp x y (min_length a.length b.length)) a.length b.length
  ]
]

abbrev pub length_of : StringView → ℤ
length_of str = str.length

abbrev pub is_empty : StringView → Bool
is_empty str = eqb_ℤ str.length (pos 0)
