-- ===== src/Invoker/Tick.antt =====
-- The arguments of a tick, and when a list is complete.
use stridejit.Prelude.{
  Bool, Bool-cases, List, Option, [], ap, arith, false, get_elem?, if◌then◌else◌, inl, inr, length,
  none, not, refl, replicate, some, suc, true, zero, ℕ, ◌&&◌, ◌==◌, ◌↔◌, ◌∙◌, ◌∷◌, ◌≡◌, ◌≢◌,
}
use stridejit.Invoker.{
  FunctionArgInfo, Pointer, ParameterList, null, given, property_of, is_state, all_set, is_complete,
}
use stridejit.StateDefaults.{DataLayout, StateDefaults}
use stridejit.Invoker.Step.{
  Heap, user_arg, user_args_left, allocated_state, state_pointer, call_args,
}
use stridejit.Invoker.Valid.{IsList}

-- The places of a call that are for the state, and those that are not.
abbrev pub of_state : Bool → List FunctionArgInfo → List Pointer → List Pointer
of_state b [] ps = []
of_state b (info ∷ infos) [] = []
of_state true (info ∷ infos) (p ∷ ps) =
    let rest = of_state true infos ps in if is_state info.role then p ∷ rest else rest
of_state false (info ∷ infos) (p ∷ ps) =
    let rest = of_state false infos ps in if is_state info.role then rest else p ∷ rest

-- A list cut or filled up with null to a length.
abbrev pub filled : ℕ → List Pointer → List Pointer
filled zero ps = []
filled (suc n) [] = null ∷ filled n []
filled (suc n) (p ∷ ps) = p ∷ filled n ps

abbrev pub state_count : List FunctionArgInfo → ℕ
state_count [] = 0
state_count (info ∷ infos) =
    let rest = state_count infos in if is_state info.role then suc rest else rest

abbrev pub user_count : List FunctionArgInfo → ℕ
user_count [] = 0
user_count (info ∷ infos) =
    let rest = user_count infos in if is_state info.role then rest else suc rest

module _ {Ty : Type 0} (data_layout : Option (DataLayout Ty)) (has_module : Bool)
    (malloc : ℕ → Option ℕ) (state_info : Option (StateDefaults Ty)) where
  -- A state for each of a number of arguments, one after the other.
  abbrev pub new_states : ℕ → Heap → Option (List Pointer × Heap)
  new_states zero h = some ([], h)
  new_states (suc n) h = elim (allocated_state data_layout has_module malloc state_info h) [
    | none ↦ none
    | some (p, h') ↦ elim (new_states n h') [ none ↦ none | some (ps, h'') ↦ some (p ∷ ps, h'') ]
  ]

  -- The states of a call: the one that was given, or new ones where it is null.
  abbrev pub states_for : ℕ → Pointer → Heap → Option (List Pointer × Heap)
  states_for n null h = new_states n h
  states_for n (given a) h = some (replicate n (given a), h)
  states_for n (property_of i) h = some (replicate n (property_of i), h)

  -- The arguments of a call, by its states and the pointers that were given.
  abbrev pub IsSplit :
      List FunctionArgInfo
      → List Pointer
      → Option (List Pointer × Heap)
      → Option (List Pointer × Heap)
      → Type 0
  IsSplit infos ps none none = Unit
  IsSplit infos ps (some (states, h)) (some (args, h')) =
      (length args ≡ length infos)
      × (of_state true infos args ≡ states)
      × (of_state false infos args ≡ filled (user_count infos) ps)
      × (h' ≡ h)
  IsSplit infos ps states args = ⊥

  states_for-suc :
      (n : ℕ) (state_ptr : Pointer) (h : Heap)
      → states_for (suc n) state_ptr h
        ≡ elim (state_pointer data_layout has_module malloc state_info state_ptr h)
            as (λ x. Option (List Pointer × Heap)) [
              | none ↦ none
              | some (p, h') ↦
                  elim (states_for n state_ptr h') as (λ x. Option (List Pointer × Heap)) [
                    | none ↦ none
                    | some (ps, h'') ↦ some (p ∷ ps, h'')
                  ]
            ]
  states_for-suc n null h = refl
  states_for-suc n (given a) h = refl
  states_for-suc n (property_of i) h = refl

  state-IsSplit :
      (info : FunctionArgInfo) (infos : List FunctionArgInfo) (ps : List Pointer) (p : Pointer)
      → is_state info.role ≡ true
      → (o r : Option (List Pointer × Heap)) → IsSplit infos ps o r
      → IsSplit
          (info ∷ infos)
          ps
          (elim o as (λ x. Option (List Pointer × Heap)) [
            | none ↦ none
            | some (ss, k) ↦ some (p ∷ ss, k)
          ])
          (elim r as (λ x. Option (List Pointer × Heap)) [
            | none ↦ none
            | some (qs, k) ↦ some (p ∷ qs, k)
          ])
  state-IsSplit info infos ps p e none none h = tt
  state-IsSplit info infos ps p e (some s) none h = h
  state-IsSplit info infos ps p e none (some r) h = h
  state-IsSplit info infos ps p e (some (ss, k)) (some (qs, k')) (size, states, users, same) = (
    ap suc size,
    rw (of_state, e) (ap (λ l. p ∷ l) states),
    rw (of_state, user_count, e) users,
    same,
  )

  user-IsSplit :
      (info : FunctionArgInfo) (infos : List FunctionArgInfo) (ps : List Pointer)
      → is_state info.role ≡ false
      → (o r : Option (List Pointer × Heap)) → IsSplit infos (user_args_left ps) o r
      → IsSplit (info ∷ infos) ps o (elim r as (λ x. Option (List Pointer × Heap)) [
        | none ↦ none
        | some (qs, k) ↦ some (user_arg ps ∷ qs, k)
      ])
  user-IsSplit info infos ps e none none h = tt
  user-IsSplit info infos ps e (some s) none h = h
  user-IsSplit info infos ps e none (some r) h = h
  user-IsSplit info infos ps e (some (ss, k)) (some (qs, k')) (size, states, users, same) = (
    ap suc size,
    rw (of_state, e) states,
    rw (of_state, user_count, e) (ap (λ l. user_arg ps ∷ l) users ∙ first_of ps),
    same,
  )
    where
      first_of :
          (ps : List Pointer)
          → user_arg ps ∷ filled (user_count infos) (user_args_left ps)
            ≡ filled (suc (user_count infos)) ps
      first_of [] = refl
      first_of (p ∷ ps) = refl

  with_state :
      (state_ptr : Pointer) (info : FunctionArgInfo) (infos : List FunctionArgInfo)
      (ps : List Pointer)
      → is_state info.role ≡ true
      → (o : Option (Pointer × Heap))
      → ((next : Heap)
          → IsSplit infos ps
              (states_for (state_count infos) state_ptr next)
              (call_args data_layout has_module malloc state_info state_ptr infos ps next))
      → IsSplit
          (info ∷ infos)
          ps
          (elim o as (λ x. Option (List Pointer × Heap)) [
            | none ↦ none
            | some (p, h') ↦
                elim (states_for (state_count infos) state_ptr h')
                  as (λ x. Option (List Pointer × Heap)) [
                    | none ↦ none
                    | some (ps, h'') ↦ some (p ∷ ps, h'')
                  ]
          ])
          (elim o as (λ x. Option (List Pointer × Heap)) [
            | none ↦ none
            | some (p, h') ↦
                elim (call_args data_layout has_module malloc state_info state_ptr infos ps h')
                  as (λ x. Option (List Pointer × Heap)) [
                    | none ↦ none
                    | some (ps, h'') ↦ some (p ∷ ps, h'')
                  ]
          ])
  with_state state_ptr info infos ps e none later = tt
  with_state state_ptr info infos ps e (some (p, next)) later =
      state-IsSplit info infos ps p e (states_for (state_count infos) state_ptr next)
        (call_args data_layout has_module malloc state_info state_ptr infos ps next) (later next)

  -- The call of a tick fails to be made exactly where allocating the states for it does. It has one
  -- pointer for each argument. Those of the state are the state pointer, or, where that is null, one
  -- newly allocated state for each of them, and no other state is allocated; the others are, in their
  -- order, the pointers that were given, cut to their number, and null for those that are left.
  pub call_args-IsSplit :
      (state_ptr : Pointer) (infos : List FunctionArgInfo) (ps : List Pointer) (h : Heap)
      → IsSplit infos ps
          (states_for (state_count infos) state_ptr h)
          (call_args data_layout has_module malloc state_info state_ptr infos ps h)
  unfolding call_args
  call_args-IsSplit null [] ps h = (refl, refl, refl, refl)
  call_args-IsSplit (given a) [] ps h = (refl, refl, refl, refl)
  call_args-IsSplit (property_of i) [] ps h = (refl, refl, refl, refl)
  call_args-IsSplit state_ptr (info ∷ infos) ps h = elim (Bool-cases (is_state info.role)) [
    | inl e ↦
        let given_state = state_pointer data_layout has_module malloc state_info state_ptr h in
        rw (call_args, state_count, e, states_for-suc (state_count infos) state_ptr h)
          (with_state state_ptr info infos ps e given_state
            (λ next. call_args-IsSplit state_ptr infos ps next))
    | inr e ↦
        rw (call_args, state_count, e)
          (user-IsSplit info infos ps e (states_for (state_count infos) state_ptr h)
            (call_args data_layout has_module malloc state_info state_ptr infos (user_args_left ps)
              h)
            (call_args-IsSplit state_ptr infos (user_args_left ps) h))
  ]

all_set-each : (ps : List Pointer) → (all_set ps ≡ true) ↔ ((i : ℕ) → get_elem? ps i ≢ some null)
all_set-each ps = (forward ps, backward ps)
  where
    forward : (ps : List Pointer) → all_set ps ≡ true → (i : ℕ) → get_elem? ps i ≢ some null
    forward [] e i h = cc
    forward (null ∷ ps) e i h = cc
    forward (given a ∷ ps) e zero h = cc
    forward (property_of a ∷ ps) e zero h = cc
    forward (given a ∷ ps) e (suc i) h = forward ps e i h
    forward (property_of a ∷ ps) e (suc i) h = forward ps e i h

    backward : (ps : List Pointer) → ((i : ℕ) → get_elem? ps i ≢ some null) → all_set ps ≡ true
    backward [] h = refl
    backward (null ∷ ps) h = absurd (h 0 refl)
    backward (given a ∷ ps) h = backward ps (λ i. h (suc i))
    backward (property_of a ∷ ps) h = backward ps (λ i. h (suc i))

-- A list with as many arguments as descriptions is complete exactly when no argument is null.
pub is_complete_iff :
    (l : ParameterList)
    → IsList l
    → (is_complete l ≡ true) ↔ ((i : ℕ) → get_elem? l.args i ≢ some null)
unfolding is_complete
is_complete_iff l good =
    let none_missing : length l.args == 0 && not (length l.arg_infos == 0) ≡ false =
      ground (arith, good.same_length) in
    rw none_missing (all_set-each l.args)
