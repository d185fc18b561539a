-- ===== src/Invoker/Calls.antt =====
-- Any run of calls on a parameter list.
use stridejit.Prelude.{
  Bool-cases, List, Option-cases, String, [], false, get_elem?, inl, inr, not, pos, refl, some,
  str_eq, true, wrap_i32, ℕ, ℤ, ◌∷◌, ◌≡◌,
}
use stridejit.Invoker.{
  FunctionArgInfo, Pointer, ParameterList, find_index, new_list, set_property, set_array_arg,
  property_of, Call, sets_at, sets, sets_state, sets_property, sets_array, on_call, on_calls,
}
use stridejit.Invoker.Valid.{
  IsList, Keeps, stored, with_value, store_arg-some, stored-IsList, with_value-IsList, named-lt,
  set_arg_at-Keeps, set_arg-Keeps, set_state-Keeps, new_list-IsList,
}

module _ (l : ParameterList) (good : IsList l) where
  -- What setProperty does for a name that is there.
  pub set_property-found :
      (n : String) (value : ℤ) (i : ℕ) (info : FunctionArgInfo)
      → find_index l.name_to_index n ≡ some i
      → get_elem? l.arg_infos i ≡ some info
      → set_property l n value ≡ some (true, stored (with_value l i info value) i (property_of i))
  unfolding set_property
  set_property-found n value i info e at_i =
      let inside = named-lt l good n i e in
      rw
        (set_property, e, at_i, store_arg-some (with_value l i info value) i (property_of i) inside)
        refl

  set_property-Keeps : (n : String) (value : ℤ) → Keeps (set_property l n value)
  unfolding set_property
  set_property-Keeps n value = elim (Option-cases (find_index l.name_to_index n)) [
    | inl e ↦ (false, l, rw (set_property, e) refl, good)
    | inr (i, e) ↦
        let (info, at_i, name_is) = good.named n i e in
        (
          true,
          stored (with_value l i info value) i (property_of i),
          set_property-found n value i info e at_i,
          stored-IsList (with_value l i info value) i (property_of i)
              (with_value-IsList l i info value good at_i),
        )
  ]

module _ (l : ParameterList) (good : IsList l) where
  set_array_arg-Keeps : (n : String) (p : Pointer) (size : ℕ) → Keeps (set_array_arg l n p size)
  unfolding set_array_arg
  set_array_arg-Keeps n p size = elim (Option-cases (find_index l.name_to_index n)) [
    | inl e ↦ (false, l, rw (set_array_arg, e) refl, good)
    | inr (i, e) ↦
        let (info, at_i, name_is) = good.named n i e in
        let inside = store_arg-some l i p (named-lt l good n i e) in
        let kept = stored-IsList l i p good in
        elim (Bool-cases (not (str_eq info.size_property ""))) [
          | inl sized ↦
              let (b, next, result, kept') =
                set_property-Keeps (stored l i p) kept info.size_property (wrap_i32 (pos size)) in
              (b, next, rw (set_array_arg, e, inside, at_i, sized) result, kept')
          | inr plain ↦ (true, stored l i p, rw (set_array_arg, e, inside, at_i, plain) refl, kept)
        ]
  ]

  pub on_call-Keeps : (c : Call) → Keeps (on_call l c)
  on_call-Keeps (sets_at i p) = set_arg_at-Keeps l good i p
  on_call-Keeps (sets n p) = set_arg-Keeps l good n p
  on_call-Keeps (sets_state p) = set_state-Keeps l good p
  on_call-Keeps (sets_property n v) = set_property-Keeps l good n v
  on_call-Keeps (sets_array n p size) = set_array_arg-Keeps n p size

on_calls-Keeps :
    (cs : List Call) (l : ParameterList)
    → IsList l
    → (next : ParameterList) × (on_calls cs l ≡ some next) × IsList next
unfolding on_calls
on_calls-Keeps [] l good = (l, refl, good)
on_calls-Keeps (c ∷ cs) l good =
    let (b, next, result, kept) = on_call-Keeps l good c in
    let (last, results, kept') = on_calls-Keeps cs next kept in
    (last, rw (on_calls, result) results, kept')

-- From the list of any descriptions on, no calls of setArg, setState, setProperty and setArrayArg, with
-- any names and indices, reach outside a vector; and after them there are as many arguments as
-- descriptions, and every name that is found leads to a description of this name.
pub on_calls-IsList :
    (infos : List FunctionArgInfo) (cs : List Call)
    → (next : ParameterList) × (on_calls cs (new_list infos) ≡ some next) × IsList next
on_calls-IsList infos cs = on_calls-Keeps cs (new_list infos) (new_list-IsList infos)
