-- ===== src/Invoker/Arrays.antt =====
-- An array argument and the argument that holds its size.
use stridejit.Prelude.{
  String, arith, false, get_elem?, get_elem?-set_ne, get_elem?-set_self, leb, length, length-set,
  not, pos, refl, some, str_eq, sym, true, wrap_i32, ℕ, ◌<◌, ◌∙◌, ◌≡◌, ◌≢◌,
}
use stridejit.Invoker.{
  FunctionArgInfo, Pointer, ParameterList, find_index, set_arg, set_arg_at, set_array_arg, get_arg,
  property_of, is_sized,
}
use stridejit.Invoker.Valid.{
  IsList, stored, with_value, store_arg-some, stored-IsList, named-lt, get_elem?-lt,
}
use stridejit.Invoker.Calls.{set_property-found}

module _ (l : ParameterList) (good : IsList l) (n : String) (i : ℕ) (info : FunctionArgInfo)
    (e : find_index l.name_to_index n ≡ some i) (at_i : get_elem? l.arg_infos i ≡ some info)
    (sized : not (str_eq info.size_property "") ≡ true) (j : ℕ)
    (e' : find_index l.name_to_index info.size_property ≡ some j) where
  -- setArg refuses an array whose size is in another argument.
  set_arg-refuses : (p : Pointer) → set_arg l n p ≡ some (false, l)
  unfolding set_arg set_arg_at
  set_arg-refuses p =
      let inside : leb (length l.args) i ≡ false = ground (arith, named-lt l good n i e) in
      rw (set_arg, e, set_arg_at, inside, at_i, is_sized, sized, e') refl

  -- An argument whose size is in another one: setArg by its name is refused and changes nothing.
  -- setArrayArg succeeds; then both arguments are set, the array's to the pointer and the other to the
  -- address of the property value of its description, which holds the size cut to 32 bits.
  pub set_array_arg-sets :
      (p : Pointer) (size : ℕ)
      → j ≢ i
      → (set_arg l n p ≡ some (false, l))
        × (next : ParameterList) × (set_array_arg l n p size ≡ some (true, next))
        × (get_arg next n ≡ some p)
        × (get_arg next info.size_property ≡ some (property_of j))
        × (size_info : FunctionArgInfo) × (get_elem? next.arg_infos j ≡ some size_info)
        × (size_info.name ≡ info.size_property)
        × (size_info.property_value ≡ wrap_i32 (pos size))
  unfolding set_array_arg get_arg
  set_array_arg-sets p size ne =
      let first = stored l i p in
      let kept = stored-IsList l i p good in
      let value = wrap_i32 (pos size) in
      let (found, at_j, name_is) = good.named info.size_property j e' in
      let lt_i = named-lt l good n i e in
      let lt_j = named-lt l good info.size_property j e' in
      let lt_j' : j < length first.args = omega (arith, lt_j, length-set l.args i p) in
      (
        set_arg-refuses p,
        stored (with_value first j found value) j (property_of j),
        rw (set_array_arg, e, store_arg-some l i p lt_i, at_i, sized)
            (set_property-found first kept info.size_property value j found e' at_j),
        rw (get_arg, e)
            (get_elem?-set_ne first.args j i (property_of j) (λ same. ne (sym same))
              ∙ get_elem?-set_self l.args i p lt_i),
        rw (get_arg, e') (get_elem?-set_self first.args j (property_of j) lt_j'),
        record found { property_value = value },
        get_elem?-set_self l.arg_infos j (record found { property_value = value })
            (get_elem?-lt l.arg_infos j found at_j),
        name_is,
        refl,
      )
