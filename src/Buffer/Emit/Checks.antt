-- ===== src/Buffer/Emit/Checks.antt =====
-- What holds where a push or a copy is emitted.
use mathlib.Core.Path.{subst}
use mathlib.Core.Sum.{inr-injective}
use text.Mathlib.TextEquality.{eq_iff}
use stridejit.Prelude.{
  Bool, List, Option, Option-cases, String, [], and-cases, ap, false, if-some, if◌then◌else◌, inl,
  inr, none, or-cases, refl, some, str_eq, sym, true, ℕ, ◌&&◌, ◌||◌, ◌∷◌, ◌≡◌, ◌⊎◌,
}
use stridejit.Buffer.{BufferSpec, BufferError}
use stridejit.Buffer.Ring.{has_trigger_entity}
use stridejit.Buffer.Emit.{
  ValueType, Compiler, Cast, Refusal, find_buffer_state, is_found, array_of, push_storage,
  trigger_found, push_writes_to, emit_push, buffer_errors, cast_to, loaded_type, unknown_trigger,
  index_name, count_name, since_name, flush_name, ready_name, missing_storage, no_value,
}

module _ (c : Compiler) where
  -- A name that is another's is found where it is.
  found_same : (v n : String) → is_found c n ≡ true → str_eq v n ≡ true → is_found c v ≡ true
  found_same v n found e = subst (λ m. is_found c m ≡ true) (sym ((eq_iff v n).0 e)) found

  array-found :
      (n : String) (a : ValueType × ℕ)
      → array_of (find_buffer_state c n) ≡ some a
      → is_found c n ≡ true
  array-found n a = at_state (find_buffer_state c n)
    where
      at_state :
          (o : Option (Option ValueType))
          → array_of o ≡ some a
          → elim o as (λ x. Bool) [ none ↦ false | some t ↦ true ] ≡ true
      at_state none e = cc
      at_state (some t) e = refl

  module _ (spec : BufferSpec) where
    -- The private state that a push works on.
    abbrev HasState : Type 0
    HasState =
        (is_found c spec.name ≡ true)
        × (is_found c (index_name spec) ≡ true)
        × (is_found c (count_name spec) ≡ true)
        × (is_found c (since_name spec) ≡ true)
        × (is_found c (ready_name spec) ≡ true)

    push_storage-HasState : (t : ValueType) → push_storage c spec ≡ some t → HasState
    push_storage-HasState t e = elim (Option-cases (array_of (find_buffer_state c spec.name))) [
      | inl none_is ↦ let off : none ≡ some t = rw (push_storage, none_is) at e in cc
      | inr ((u, n), some_is) ↦
          let all = (if-some _ u t (rw (push_storage, some_is) at e)).0 in
          let (first, ready_is) =
            and-cases
              (is_found c (index_name spec)
                && is_found c (count_name spec)
                && is_found c (since_name spec))
              (is_found c (ready_name spec)) all in
          let (second, since_is) =
            and-cases (is_found c (index_name spec) && is_found c (count_name spec))
              (is_found c (since_name spec)) first in
          let (index_is, count_is) =
            and-cases (is_found c (index_name spec)) (is_found c (count_name spec)) second in
          (array-found spec.name (u, n) some_is, index_is, count_is, since_is, ready_is)
    ]

    flush-found :
        trigger_found c spec ≡ true
        → has_trigger_entity spec ≡ true
        → (is_found c (flush_name spec) ≡ true) × (is_found c spec.trigger_entity ≡ true)
    flush-found e h =
        and-cases (is_found c (flush_name spec)) (is_found c spec.trigger_entity)
          (rw (trigger_found, h) at e)

    writes-found :
        HasState
        → trigger_found c spec ≡ true
        → (v : String) → push_writes_to spec v ≡ true
        → is_found c v ≡ true
    writes-found (name_is, index_is, count_is, since_is, ready_is) trigger_is v e =
        split (str_eq v spec.name) _ e (found_same v spec.name name_is) λ e1.
          split (str_eq v (ready_name spec)) _ e1 (found_same v (ready_name spec) ready_is) λ e2.
            split (str_eq v (index_name spec)) _ e2 (found_same v (index_name spec) index_is) λ e3.
              split (str_eq v (count_name spec)) _ e3 (found_same v (count_name spec) count_is)
                λ e4.
                  split (str_eq v (since_name spec)) _ e4 (found_same v (since_name spec) since_is)
                    λ e5.
                      let (has, same) =
                        and-cases (has_trigger_entity spec) (str_eq v (flush_name spec)) e5 in
                      found_same v (flush_name spec) (flush-found trigger_is has).0 same
      where
        split :
            (a b : Bool)
            → a || b ≡ true
            → (a ≡ true → is_found c v ≡ true)
            → (b ≡ true → is_found c v ≡ true)
            → is_found c v ≡ true
        split a b h f g = elim (or-cases a b h) [ inl e ↦ f e | inr e ↦ g e ]

    -- Where a push is emitted, the buffer was declared without errors, and every variable that
    -- `writesTo` names has storage, and so does the trigger entity where there is one; the element
    -- type is that of the storage.
    pub emit_push-found :
        (value : Option (ValueType × Option ValueType)) (t : ValueType) (cast : Option Cast)
        → emit_push c spec value ≡ inr (t, cast)
        → (spec.errors ≡ [])
          × (push_storage c spec ≡ some t)
          × ((v : String) → push_writes_to spec v ≡ true → is_found c v ≡ true)
          × (has_trigger_entity spec ≡ true → is_found c spec.trigger_entity ≡ true)
    unfolding emit_push
    emit_push-found value t cast e =
        let (valid, (stored, trigger_is)) =
          passed spec.errors value (push_storage c spec) (trigger_found c spec) e in
        (
          valid,
          stored,
          writes-found (push_storage-HasState t stored) trigger_is,
          λ has. (flush-found trigger_is has).1,
        )
      where
        passed :
            (es : List BufferError) (value : Option (ValueType × Option ValueType))
            (o : Option ValueType) (b : Bool)
            → elim es as (λ x. Refusal ⊎ (ValueType × Option Cast)) [
              | e ∷ es ↦ inl (buffer_errors (e ∷ es))
              | [] ↦ elim value [
                | none ↦ inl no_value
                | some (u, noted) ↦ elim o [
                  | none ↦ inl missing_storage
                  | some elem_type ↦
                      if b
                      then inr (elem_type, cast_to elem_type (loaded_type u noted elem_type))
                      else inl unknown_trigger
                ]
              ]
            ]
              ≡ inr (t, cast)
            → (es ≡ []) × ((o ≡ some t) × (b ≡ true))
        passed (e ∷ es) value o b h = cc
        passed [] none o b h = cc
        passed [] (some v) none b h = cc
        passed [] (some v) (some u) false h = cc
        passed [] (some v) (some u) true h =
            (refl, (ap some (ap (λ p. p.0) (inr-injective _ _ h)), refl))
