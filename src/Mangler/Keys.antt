-- ===== src/Mangler/Keys.antt =====
-- Length-prefixed names are read back in one way only.
use mathlib.Core.Bool.{true≢false}
use mathlib.Core.List.{append_assoc, append-nil, nil≢cons, head-eq_of_cons-eq, tail-eq_of_cons-eq}
use mathlib.Core.Path.{subst}
use stridejit.Prelude.{
  All, All-append, List, [], ap, arith, false, length, refl, sym, ℕ, ◌++◌, ◌∙◌, ◌∷◌, ◌≡◌,
}
use stridejit.Mangler.{
  LlvmType, length_prefixed, prefixed_all, overload_key, type_part, encode, decimal,
}
use stridejit.Mangler.Decimal.{
  is_digit, read_number, NoDigit, read-decimal, StartsWithDigit, decimal-StartsWithDigit,
}

-- A component of a name: it is not empty, and does not start with a digit.
abbrev pub IsComponent : List ℕ → Type 0
IsComponent [] = ⊥
IsComponent (c ∷ cs) = is_digit c ≡ false

component-NoDigit : (s rest : List ℕ) → IsComponent s → NoDigit (s ++ rest)
component-NoDigit [] rest h = absurd h
component-NoDigit (c ∷ cs) rest h = h

starts-not-NoDigit : (s : List ℕ) → StartsWithDigit s → NoDigit s → ⊥
starts-not-NoDigit [] h k = h
starts-not-NoDigit (c ∷ cs) h k = true≢false (sym h ∙ k)

-- Two texts with first parts of one length are equal part by part.
split_same :
    (xs ys us vs : List ℕ) → length xs ≡ length ys → xs ++ us ≡ ys ++ vs → (xs ≡ ys) × (us ≡ vs)
split_same [] [] us vs n e = (refl, e)
split_same [] (y ∷ ys) us vs n e = absurd (omega arith)
split_same (x ∷ xs) [] us vs n e = absurd (omega arith)
split_same (x ∷ xs) (y ∷ ys) us vs n e =
    let (front, back) = split_same xs ys us vs (omega arith) (tail-eq_of_cons-eq e) in
    (λ i. head-eq_of_cons-eq e i ∷ front i, back)

prefixed-injective :
    (s t us vs : List ℕ)
    → IsComponent s
    → IsComponent t
    → length_prefixed s ++ us ≡ length_prefixed t ++ vs
    → (s ≡ t) × (us ≡ vs)
unfolding length_prefixed
prefixed-injective s t us vs hs ht e =
    let e' : decimal (length s) ++ (s ++ us) ≡ decimal (length t) ++ (t ++ vs) =
      sym (append_assoc (decimal (length s)) s us) ∙ e ∙ append_assoc (decimal (length t)) t vs in
    let read =
      sym (read-decimal (length s) (s ++ us) (component-NoDigit s us hs))
      ∙ ap (read_number 0) e'
      ∙ read-decimal (length t) (t ++ vs) (component-NoDigit t vs ht) in
    split_same s t us vs (ap (λ r. r.0) read) (ap (λ r. r.1) read)

prefixed-StartsWithDigit : (s rest : List ℕ) → StartsWithDigit (length_prefixed s ++ rest)
unfolding length_prefixed
prefixed-StartsWithDigit s rest =
    rw (append_assoc (decimal (length s)) s rest) (decimal-StartsWithDigit (length s) (s ++ rest))

all-StartsWithDigit :
    (s : List ℕ) (ss : List (List ℕ)) (us : List ℕ) → StartsWithDigit (prefixed_all (s ∷ ss) ++ us)
all-StartsWithDigit s ss us =
    rw (append_assoc (length_prefixed s) (prefixed_all ss) us)
      (prefixed-StartsWithDigit s (prefixed_all ss ++ us))

prefixed_all-injective :
    (ss ts : List (List ℕ)) (us vs : List ℕ)
    → All IsComponent ss
    → All IsComponent ts
    → NoDigit us
    → NoDigit vs
    → prefixed_all ss ++ us ≡ prefixed_all ts ++ vs
    → (ss ≡ ts) × (us ≡ vs)
prefixed_all-injective [] [] us vs hs ht hu hv e = (refl, e)
prefixed_all-injective [] (t ∷ ts) us vs hs ht hu hv e =
    absurd (starts-not-NoDigit us (subst StartsWithDigit (sym e) (all-StartsWithDigit t ts vs)) hu)
prefixed_all-injective (s ∷ ss) [] us vs hs ht hu hv e =
    absurd (starts-not-NoDigit vs (subst StartsWithDigit e (all-StartsWithDigit s ss us)) hv)
prefixed_all-injective (s ∷ ss) (t ∷ ts) us vs hs ht hu hv e =
    let e' =
      sym (append_assoc (length_prefixed s) (prefixed_all ss) us)
      ∙ e
      ∙ append_assoc (length_prefixed t) (prefixed_all ts) vs in
    let (here, later) = prefixed-injective s t _ _ hs.0 ht.0 e' in
    let (rest, tail) = prefixed_all-injective ss ts us vs hs.1 ht.1 hu hv later in
    (λ i. here i ∷ rest i, tail)

prefixed_all-append :
    (ss : List (List ℕ)) (s : List ℕ)
    → prefixed_all ss ++ length_prefixed s ≡ prefixed_all (ss ++ s ∷ [])
prefixed_all-append [] s = sym (append-nil (length_prefixed s))
prefixed_all-append (t ∷ ts) s =
    append_assoc (length_prefixed t) (prefixed_all ts) (length_prefixed s)
    ∙ ap (λ k. length_prefixed t ++ k) (prefixed_all-append ts s)

-- The last item and those before it.
snoc-injective :
    (ss ts : List (List ℕ)) (s t : List ℕ) → ss ++ s ∷ [] ≡ ts ++ t ∷ [] → (ss ≡ ts) × (s ≡ t)
snoc-injective [] [] s t e = (refl, head-eq_of_cons-eq e)
snoc-injective [] (y ∷ []) s t e = absurd (nil≢cons (tail-eq_of_cons-eq e))
snoc-injective [] (y ∷ z ∷ ys) s t e = absurd (nil≢cons (tail-eq_of_cons-eq e))
snoc-injective (x ∷ []) [] s t e = absurd (nil≢cons (sym (tail-eq_of_cons-eq e)))
snoc-injective (x ∷ z ∷ xs) [] s t e = absurd (nil≢cons (sym (tail-eq_of_cons-eq e)))
snoc-injective (x ∷ xs) (y ∷ ys) s t e =
    let (front, last) = snoc-injective xs ys s t (tail-eq_of_cons-eq e) in
    (λ i. head-eq_of_cons-eq e i ∷ front i, last)

key-injective :
    (name name' : List ℕ) (scope scope' : List (List ℕ)) (us vs : List ℕ)
    → All IsComponent (name ∷ scope)
    → All IsComponent (name' ∷ scope')
    → NoDigit us
    → NoDigit vs
    → overload_key name scope ++ us ≡ overload_key name' scope' ++ vs
    → (name ≡ name') × (scope ≡ scope') × (us ≡ vs)
unfolding overload_key
key-injective name name' scope scope' us vs h h' hu hv e =
    let whole =
      sym (ap (λ k. k ++ us) (prefixed_all-append scope name))
      ∙ e
      ∙ ap (λ k. k ++ vs) (prefixed_all-append scope' name') in
    let (all, tail) =
      prefixed_all-injective (scope ++ name ∷ []) (scope' ++ name' ∷ []) us vs
        (All-append IsComponent scope (name ∷ []) h.1 (h.0, tt))
        (All-append IsComponent scope' (name' ∷ []) h'.1 (h'.0, tt)) hu hv whole in
    let (scopes, names) = snoc-injective scope scope' name name' all in (names, scopes, tail)

-- Two scoped names whose components are not empty and do not start with a digit have one key only if
-- they are one name in one scope.
pub overload_key-injective :
    (name name' : List ℕ) (scope scope' : List (List ℕ))
    → All IsComponent (name ∷ scope)
    → All IsComponent (name' ∷ scope')
    → overload_key name scope ≡ overload_key name' scope'
    → (name ≡ name') × (scope ≡ scope')
overload_key-injective name name' scope scope' h h' e =
    let (names, scopes, tail) =
      key-injective name name' scope scope' [] [] h h' tt tt
        (append-nil _ ∙ e ∙ sym (append-nil _)) in
    (names, scopes)

type_part-NoDigit : (ts : List LlvmType) → NoDigit (type_part ts)
type_part-NoDigit [] = tt
type_part-NoDigit (t ∷ ts) = refl

-- A symbol with a scope or types, which is mangled.
abbrev pub IsMangled : List (List ℕ) → List LlvmType → Type 0
IsMangled [] [] = ⊥
IsMangled _ _ = Unit

encode-mangled :
    (name : List ℕ) (scope : List (List ℕ)) (types : List LlvmType)
    → IsMangled scope types
    → encode name scope types ≡ b'_' ∷ b'S' ∷ overload_key name scope ++ type_part types
unfolding encode
encode-mangled name [] [] h = absurd h
encode-mangled name [] (t ∷ ts) h = refl
encode-mangled name (s ∷ ss) types h = refl

-- Two symbols that have a scope or types, with components that are not empty and do not start with a
-- digit, have one mangled name only if their names and their scopes are the same, and so are the
-- codes of their types.
pub encode-injective :
    (name name' : List ℕ) (scope scope' : List (List ℕ)) (types types' : List LlvmType)
    → IsMangled scope types
    → IsMangled scope' types'
    → All IsComponent (name ∷ scope)
    → All IsComponent (name' ∷ scope')
    → encode name scope types ≡ encode name' scope' types'
    → (name ≡ name') × (scope ≡ scope') × (type_part types ≡ type_part types')
encode-injective name name' scope scope' types types' m m' h h' e =
    let both =
      sym (encode-mangled name scope types m) ∙ e ∙ encode-mangled name' scope' types' m' in
    key-injective name name' scope scope' (type_part types) (type_part types') h h'
      (type_part-NoDigit types) (type_part-NoDigit types')
      (tail-eq_of_cons-eq (tail-eq_of_cons-eq both))
