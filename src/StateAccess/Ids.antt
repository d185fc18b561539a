-- ===== src/StateAccess/Ids.antt =====
-- The ids of states and transitions by their names: getStateId, getTransitionId and
-- getTransitionIdForState of src/strideenvironment.cpp.
pub mod Answers
use stridejit.Prelude.{
  All, Bool, Bool-cases, List, Option, Option-cases, String, [], ap, false, if◌then◌else◌, inl, inr,
  none, not, refl, some, str_eq, true, ℤ, ◌&&◌, ◌++◌, ◌||◌, ◌∷◌, ◌≡◌, ◌⊎◌,
}
use stridejit.StateAccess.{is_empty_text}

-- `StateMachineInfo`, the part with ids.
pub record StateMachineInfo : Type 0 where
  pub sm_name : String
  pub domain_name : String
  pub state_ids_by_name : List (String × ℤ)
  pub transition_ids_by_name : List (String × ℤ)
  pub transition_ids_by_state_and_name : List ((String × String) × ℤ)

abbrev pub find_id : List (String × ℤ) → String → Option ℤ
find_id [] n = none
find_id ((m, i) ∷ rest) n = let later = find_id rest n in if str_eq m n then some i else later

abbrev pub find_pair_id : List ((String × String) × ℤ) → String → String → Option ℤ
find_pair_id [] s n = none
find_pair_id (((t, m), i) ∷ rest) s n =
    let later = find_pair_id rest s n in if str_eq t s && str_eq m n then some i else later

-- An empty name of a domain or a machine admits every one.
abbrev pub is_asked : String → String → StateMachineInfo → Bool
is_asked sm_name domain_name info =
    (is_empty_text domain_name || str_eq info.domain_name domain_name)
    && (is_empty_text sm_name || str_eq info.sm_name sm_name)

-- The first machine that is asked for and has an id.
abbrev pub first_id :
    (StateMachineInfo → Option ℤ) → String → String → List StateMachineInfo → Option ℤ
first_id id_in sm_name domain_name [] = none
first_id id_in sm_name domain_name (info ∷ infos) =
    let later = first_id id_in sm_name domain_name infos in
    if is_asked sm_name domain_name info
    then elim (id_in info) [ none ↦ later | some i ↦ some i ]
    else later

abbrev pub state_id_in : String → StateMachineInfo → Option ℤ
state_id_in state_name info = find_id info.state_ids_by_name state_name

-- In the machine, the transition of the state is preferred to any of its name.
abbrev pub transition_id_in : String → String → StateMachineInfo → Option ℤ
transition_id_in transition_name state_name info =
    let any = find_id info.transition_ids_by_name transition_name in
    if not (is_empty_text state_name)
    then elim (find_pair_id info.transition_ids_by_state_and_name state_name transition_name) [
      | none ↦ any
      | some i ↦ some i
    ]
    else any

unfoldable pub get_state_id : List StateMachineInfo → String → String → String → Option ℤ
get_state_id infos state_name sm_name domain_name =
    first_id (state_id_in state_name) sm_name domain_name infos

unfoldable pub get_transition_id :
    List StateMachineInfo → String → String → String → String → Option ℤ
get_transition_id infos transition_name sm_name domain_name state_name =
    first_id (transition_id_in transition_name state_name) sm_name domain_name infos

-- `getTransitionIdForState`
abbrev pub get_transition_id_for_state :
    List StateMachineInfo → String → String → String → String → Option ℤ
get_transition_id_for_state infos transition_name state_name sm_name domain_name =
    get_transition_id infos transition_name sm_name domain_name state_name

module _ (id_in : StateMachineInfo → Option ℤ) (sm_name domain_name : String) where
  -- Not asked for, or without an id.
  abbrev pub IsPassed : StateMachineInfo → Type 0
  IsPassed info = (is_asked sm_name domain_name info ≡ false) ⊎ (id_in info ≡ none)

  abbrev pub IsFirstId : List StateMachineInfo → Option ℤ → Type 0
  IsFirstId infos none = All IsPassed infos
  IsFirstId infos (some i) =
      (before : List StateMachineInfo) × (info : StateMachineInfo) × (behind : List
        StateMachineInfo)
      × (infos ≡ before ++ info ∷ behind)
      × All IsPassed before
      × (is_asked sm_name domain_name info ≡ true)
      × (id_in info ≡ some i)

  IsFirstId-cons :
      (info : StateMachineInfo) (infos : List StateMachineInfo) (o : Option ℤ)
      → IsPassed info
      → IsFirstId infos o
      → IsFirstId (info ∷ infos) o
  IsFirstId-cons info infos none p h = (p, h)
  IsFirstId-cons info infos (some i) p (before, found, behind, e, passed, asked, has) =
      (info ∷ before, found, behind, ap (λ l. info ∷ l) e, (p, passed), asked, has)

  pub first_id-IsFirstId :
      (infos : List StateMachineInfo) → IsFirstId infos (first_id id_in sm_name domain_name infos)
  first_id-IsFirstId [] = tt
  first_id-IsFirstId (info ∷ infos) = elim (Bool-cases (is_asked sm_name domain_name info)) [
    | inl asked ↦ elim (Option-cases (id_in info)) [
      | inl e ↦
          rw (first_id, asked, e)
            (IsFirstId-cons info infos (first_id id_in sm_name domain_name infos) (inr e)
              (first_id-IsFirstId infos))
      | inr (i, e) ↦ rw (first_id, asked, e) ([], info, infos, refl, tt, asked, e)
    ]
    | inr other ↦
        rw (first_id, other)
          (IsFirstId-cons info infos (first_id id_in sm_name domain_name infos) (inl other)
            (first_id-IsFirstId infos))
  ]
