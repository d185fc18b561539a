-- ===== src/StateAccess/Ids/Answers.antt =====
-- What the id of a state or a transition is, told by the entries of the machines.
use mathlib.Core.Path.{subst}
use text.Mathlib.TextEquality.{eq_iff}
use stridejit.StateAccess.{is_empty_text}
use stridejit.StateAccess.Ids.{
  StateMachineInfo, find_id, find_pair_id, is_asked, first_id, state_id_in, transition_id_in,
  get_state_id, get_transition_id, get_transition_id_for_state, IsPassed, first_id-IsFirstId,
  IsFirstId,
}
use stridejit.Prelude.{
  All, Bool-cases, List, Option, Option-cases, String, [], ap, false, inl, inr, none, refl, some,
  str_eq, true, ℤ, ◌++◌, ◌||◌, ◌∷◌, ◌≡◌, ◌≢◌, ◌⊎◌,
}

text_cases : (a b : String) → ((str_eq a b ≡ true) × (a ≡ b)) ⊎ ((str_eq a b ≡ false) × (a ≢ b))
text_cases a b = elim (Bool-cases (str_eq a b)) [
  | inl e ↦ inl (e, (eq_iff a b).0 e)
  | inr e ↦ inr (e, λ p. let same = (eq_iff a b).1 p in cc)
]

module _ {K : Type 0} (key : K) where
  abbrev pub NoEntry : List (K × ℤ) → Type 0
  NoEntry entries = All (λ e. e.0 ≢ key) entries

  -- The first entry of the key has the id.
  abbrev pub FirstEntry : ℤ → List (K × ℤ) → Type 0
  FirstEntry i entries =
      (before : List (K × ℤ)) × (behind : List (K × ℤ)) × (entries ≡ before ++ (key, i) ∷ behind)
      × NoEntry before

  -- Whether the table has the key, and with which id.
  abbrev pub IsEntry : List (K × ℤ) → Option ℤ → Type 0
  IsEntry entries none = NoEntry entries
  IsEntry entries (some i) = FirstEntry i entries

  IsEntry-cons :
      (e : K × ℤ) (entries : List (K × ℤ)) (o : Option ℤ)
      → e.0 ≢ key
      → IsEntry entries o
      → IsEntry (e ∷ entries) o
  IsEntry-cons e entries none other h = (other, h)
  IsEntry-cons e entries (some i) other (before, behind, same, none_before) =
      (e ∷ before, behind, ap (λ l. e ∷ l) same, (other, none_before))

find_id-IsEntry : (entries : List (String × ℤ)) (n : String) → IsEntry n entries (find_id entries n)
find_id-IsEntry [] n = tt
find_id-IsEntry ((m, i) ∷ rest) n = elim (text_cases m n) [
  | inl (e, same) ↦ rw (find_id, e) ([], rest, ap (λ k. (k, i) ∷ rest) same, tt)
  | inr (e, other) ↦
      rw (find_id, e) (IsEntry-cons n (m, i) rest (find_id rest n) other (find_id-IsEntry rest n))
]

find_pair_id-IsEntry :
    (entries : List ((String × String) × ℤ)) (s n : String)
    → IsEntry (s, n) entries (find_pair_id entries s n)
find_pair_id-IsEntry [] s n = tt
find_pair_id-IsEntry (((t, m), i) ∷ rest) s n =
    let later = find_pair_id-IsEntry rest s n in
    elim (text_cases t s) [
      | inl (e, same) ↦ elim (text_cases m n) [
        | inl (f, same') ↦
            rw (find_pair_id, e, f) ([], rest, λ j. ((same j, same' j), i) ∷ rest, tt)
        | inr (f, other) ↦
            rw (find_pair_id, e, f)
              (IsEntry-cons (s, n) ((t, m), i) rest (find_pair_id rest s n)
                (λ p. other (ap (λ q. q.1) p)) later)
      ]
      | inr (e, other) ↦
          rw (find_pair_id, e)
            (IsEntry-cons (s, n) ((t, m), i) rest (find_pair_id rest s n)
              (λ p. other (ap (λ q. q.0) p)) later)
    ]

-- The id of a state in a machine.
abbrev pub IsStateIdIn : String → StateMachineInfo → Option ℤ → Type 0
IsStateIdIn name info o = IsEntry name info.state_ids_by_name o

-- No state is named, or the machine has no transition of the state with the name.
abbrev pub NoneOfState : String → String → StateMachineInfo → Type 0
NoneOfState name state info =
    (state ≡ "") ⊎ NoEntry (state, name) info.transition_ids_by_state_and_name

-- The id of a transition in a machine: that of the named state's transition, and only where there is
-- none that of any transition with the name.
abbrev pub IsTransitionIdIn : String → String → StateMachineInfo → Option ℤ → Type 0
IsTransitionIdIn name state info none =
    NoneOfState name state info × NoEntry name info.transition_ids_by_name
IsTransitionIdIn name state info (some i) =
    ((state ≢ "") × FirstEntry (state, name) i info.transition_ids_by_state_and_name)
    ⊎ (NoneOfState name state info × FirstEntry name i info.transition_ids_by_name)

by_name-IsTransitionIdIn :
    (name state : String) (info : StateMachineInfo) (o : Option ℤ)
    → NoneOfState name state info
    → IsEntry name info.transition_ids_by_name o
    → IsTransitionIdIn name state info o
by_name-IsTransitionIdIn name state info none missing h = (missing, h)
by_name-IsTransitionIdIn name state info (some i) missing h = inr (missing, h)

transition_id_in-IsTransitionIdIn :
    (name state : String) (info : StateMachineInfo)
    → IsTransitionIdIn name state info (transition_id_in name state info)
transition_id_in-IsTransitionIdIn name state info =
    let own = find_pair_id-IsEntry info.transition_ids_by_state_and_name state name in
    let any = find_id info.transition_ids_by_name name in
    let named = find_id-IsEntry info.transition_ids_by_name name in
    elim (text_cases state "") [
      | inl (e, empty) ↦
          rw (transition_id_in, e) (by_name-IsTransitionIdIn name state info any (inl empty) named)
      | inr (e, given) ↦
          elim (Option-cases (find_pair_id info.transition_ids_by_state_and_name state name)) [
            | inl f ↦
                rw (transition_id_in, e, f)
                  (by_name-IsTransitionIdIn name state info any (inr (rw f at own)) named)
            | inr (i, f) ↦ rw (transition_id_in, e, f) (inl (given, rw f at own))
          ]
    ]

-- An empty name asks for every machine or domain.
abbrev pub AsksFor : String → String → Type 0
AsksFor asked name = (asked ≡ "") ⊎ (name ≡ asked)

abbrev pub IsAskedFor : String → String → StateMachineInfo → Type 0
IsAskedFor sm_name domain_name info =
    AsksFor domain_name info.domain_name × AsksFor sm_name info.sm_name

asks-AsksFor :
    (asked name : String)
    → (((is_empty_text asked || str_eq name asked) ≡ true) × AsksFor asked name)
      ⊎ (((is_empty_text asked || str_eq name asked) ≡ false) × ¬ AsksFor asked name)
asks-AsksFor asked name = elim (text_cases asked "") [
  | inl (e, empty) ↦ inl (rw e refl, inl empty)
  | inr (e, some_name) ↦ elim (text_cases name asked) [
    | inl (f, same) ↦ inl (rw (e, f) refl, inr same)
    | inr (f, other) ↦ inr (rw (e, f) refl, λ h. elim h [ inl p ↦ some_name p | inr p ↦ other p ])
  ]
]

is_asked-IsAskedFor :
    (sm_name domain_name : String) (info : StateMachineInfo)
    → ((is_asked sm_name domain_name info ≡ true) × IsAskedFor sm_name domain_name info)
      ⊎ ((is_asked sm_name domain_name info ≡ false) × ¬ IsAskedFor sm_name domain_name info)
is_asked-IsAskedFor sm_name domain_name info = elim (asks-AsksFor domain_name info.domain_name) [
  | inl (e, h) ↦ elim (asks-AsksFor sm_name info.sm_name) [
    | inl (f, k) ↦ inl (rw (e, f) refl, (h, k))
    | inr (f, k) ↦ inr (rw (e, f) refl, λ both. k both.1)
  ]
  | inr (e, h) ↦ inr (rw e refl, λ both. h both.0)
]

-- A machine that is not asked for, or does not know the name.
abbrev pub Skips :
    (StateMachineInfo → Option ℤ → Type 0) → String → String → StateMachineInfo → Type 0
Skips Knows sm_name domain_name info = (¬ IsAskedFor sm_name domain_name info) ⊎ Knows info none

-- The id is that of the first machine that is asked for and knows the name.
abbrev pub IsAnswer :
    (StateMachineInfo → Option ℤ → Type 0)
    → String
    → String
    → List StateMachineInfo
    → Option ℤ
    → Type 0
IsAnswer Knows sm_name domain_name infos none = All (Skips Knows sm_name domain_name) infos
IsAnswer Knows sm_name domain_name infos (some i) =
    (before : List StateMachineInfo) × (info : StateMachineInfo) × (behind : List StateMachineInfo)
    × (infos ≡ before ++ info ∷ behind)
    × All (Skips Knows sm_name domain_name) before
    × IsAskedFor sm_name domain_name info
    × Knows info (some i)

module _ (Knows : StateMachineInfo → Option ℤ → Type 0) (id_in : StateMachineInfo → Option ℤ)
    (sound : (info : StateMachineInfo) → Knows info (id_in info))
    (sm_name domain_name : String) where
  passed-Skips :
      (info : StateMachineInfo)
      → IsPassed id_in sm_name domain_name info
      → Skips Knows sm_name domain_name info
  passed-Skips info (inl e) = elim (is_asked-IsAskedFor sm_name domain_name info) [
    | inl (f, h) ↦ cc
    | inr (f, h) ↦ inl h
  ]
  passed-Skips info (inr e) = inr (subst (Knows info) e (sound info))

  All-Skips :
      (infos : List StateMachineInfo)
      → All (IsPassed id_in sm_name domain_name) infos
      → All (Skips Knows sm_name domain_name) infos
  All-Skips [] h = tt
  All-Skips (info ∷ infos) h = (passed-Skips info h.0, All-Skips infos h.1)

  first-IsAnswer :
      (infos : List StateMachineInfo) (o : Option ℤ)
      → IsFirstId id_in sm_name domain_name infos o
      → IsAnswer Knows sm_name domain_name infos o
  first-IsAnswer infos none h = All-Skips infos h
  first-IsAnswer infos (some i) (before, info, behind, same, passed, asked, e) = (
    before,
    info,
    behind,
    same,
    All-Skips before passed,
    elim (is_asked-IsAskedFor sm_name domain_name info) [ inl (f, h) ↦ h | inr (f, h) ↦ cc ],
    subst (Knows info) e (sound info),
  )

  first_id-IsAnswer :
      (infos : List StateMachineInfo)
      → IsAnswer Knows sm_name domain_name infos (first_id id_in sm_name domain_name infos)
  first_id-IsAnswer infos =
      first-IsAnswer infos (first_id id_in sm_name domain_name infos)
        (first_id-IsFirstId id_in sm_name domain_name infos)

-- The id of a state is the one that the first machine has under its name, of those whose name and
-- domain are asked for, where an empty name asks for all; and there is none only where none of these
-- has the name. For a transition of a state, that machine has it under the state and the name; or the
-- machine has none under both, or no state is named, and it has it under the name alone.
pub ids-IsAnswer :
    (infos : List StateMachineInfo) (name sm_name domain_name state_name : String)
    → IsAnswer
        (IsStateIdIn name)
        sm_name
        domain_name
        infos
        (get_state_id infos name sm_name domain_name)
      × IsAnswer
          (IsTransitionIdIn name state_name)
          sm_name
          domain_name
          infos
          (get_transition_id_for_state infos name state_name sm_name domain_name)
unfolding get_state_id get_transition_id
ids-IsAnswer infos name sm_name domain_name state_name = (
  first_id-IsAnswer (IsStateIdIn name) (state_id_in name)
      (λ info. find_id-IsEntry info.state_ids_by_name name) sm_name domain_name infos,
  first_id-IsAnswer (IsTransitionIdIn name state_name) (transition_id_in name state_name)
      (transition_id_in-IsTransitionIdIn name state_name) sm_name domain_name infos,
)
