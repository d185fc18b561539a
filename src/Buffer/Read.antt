-- ===== src/Buffer/Read.antt =====
-- `BufferSpec::fromDeclaration`, and what the schema says of a property.
use stridejit.Prelude.{
  Bool, List, Option, String, [], eqb_ℤ, false, if◌then◌else◌, none, not, pos, some, str_eq, suc,
  true, wrap_i32, ℕ, ℤ, ◌&&◌, ◌++◌, ◌||◌, ◌∷◌,
}
use stridejit.Buffer.{
  Parser, Mode, sliding, Trigger, full, periodic, BufferError, no_declaration, capacity_required,
  capacity_not_positive, removed_mode, unknown_mode, not_implemented, unknown_trigger, bad_sizes,
  trigger_not_entity, trigger_not_switch, not_constant, read_only, hop_mismatch, BufferSpec,
  new_spec, position, in_buffer, mode_at, trigger_at, is_sliding, is_periodic, hop_of, only_if,
  capacity_errors, sizes_fit, is_mirrored,
}

module _ (P : Parser) where
  open P use {
    Decl, Node, get_name, get_property_value, is_none, entity, node_name, string_value,
    switch_value, evaluate_constant_integer, find_entity_type, schema_properties,
  }

  -- `resolveBufferConstant`, where -1 is no result.
  abbrev pub resolve_buffer_constant : Node → List String → Option ℕ
  resolve_buffer_constant node names = elim (entity node) [
    | none ↦ none
    | some e ↦ if in_buffer e.0 then position e.1 names 0 else none
  ]

  -- A property that is set.
  abbrev pub property : Decl → String → Option Node
  property d key = elim (get_property_value d key) [
    | none ↦ none
    | some n ↦ if is_none n then none else some n
  ]

  -- `evalInt`: whether there is a value, the value or what stood before, and the errors.
  abbrev pub eval_int : Decl → String → ℤ → Bool × ℤ × List BufferError
  eval_int d key before = elim (property d key) [
    | none ↦ (false, before, [])
    | some node ↦ elim (evaluate_constant_integer node) [
      | none ↦ (false, before, not_constant key ∷ [])
      | some i ↦ (true, wrap_i32 i, [])
    ]
  ]

  abbrev schema_property_name : Decl → String
  schema_property_name port = elim (get_property_value port "name") [
    | none ↦ ""
    | some n ↦ elim (string_value n) [ none ↦ "" | some s ↦ s ]
  ]

  abbrev schema_switch : Decl → String → Bool
  schema_switch port flag = elim (get_property_value port flag) [
    | none ↦ true
    | some n ↦ elim (switch_value n) [ none ↦ true | some b ↦ b ]
  ]

  abbrev pub is_set : Option Node → Bool
  is_set none = false
  is_set (some n) = true

  abbrev pub read_only_errors : Decl → List Decl → List BufferError
  read_only_errors d [] = []
  read_only_errors d (port ∷ ports) =
      let n = schema_property_name port in
      only_if (not (str_eq n "") && not (schema_switch port "writeable") && is_set (property d n))
        (read_only n)
      ++ read_only_errors d ports

  -- `triggerEntity` and its errors.
  abbrev pub trigger_entity_of : Decl → String × List BufferError
  trigger_entity_of d = elim (property d "trigger") [
    | none ↦ ("", [])
    | some n ↦ elim (entity n) [
      | none ↦ ("", trigger_not_entity ∷ [])
      | some e ↦ (
        node_name n,
        elim (find_entity_type (node_name n)) [
          | none ↦ trigger_not_switch ∷ []
          | some t ↦ only_if (not (str_eq t "switch" || str_eq t "trigger")) trigger_not_switch
        ],
      )
    ]
  ]

  -- From `frameSize` on.
  unfoldable pub with_trigger :
      Decl → ℕ → Mode → Trigger → Bool → ℤ → List BufferError → Option BufferSpec
  with_trigger d capacity mode trigger has_hop hop_property errors =
      let (set, frame_size, frame_errors) = eval_int d "frameSize" (pos capacity) in
      let hop = hop_of trigger has_hop hop_property capacity frame_size in
      let mismatch =
        only_if (has_hop && not (is_periodic trigger) && not (eqb_ℤ hop_property hop))
          (hop_mismatch hop_property hop) in
      let sizes = only_if (not (sizes_fit capacity frame_size hop)) bad_sizes in
      let (entity_name, entity_errors) = trigger_entity_of d in
      elim (is_mirrored mode capacity frame_size hop) [
        | none ↦ none
        | some mirrored ↦ some (record {
          name = get_name d;
          capacity = pos capacity;
          frame_size = frame_size;
          hop = hop;
          mode = mode;
          trigger = trigger;
          trigger_entity = entity_name;
          mirrored = mirrored;
          errors =
              errors
              ++ frame_errors
              ++ capacity_errors trigger capacity
              ++ mismatch
              ++ sizes
              ++ entity_errors;
        })
      ]

  -- From `hop` on. An unknown trigger mode ends the reading.
  unfoldable pub with_hop : Decl → ℕ → Mode → List BufferError → Option BufferSpec
  unfolding with_trigger
  with_hop d capacity mode errors =
      let (has_hop, hop_property, hop_errors) = eval_int d "hop" (pos 0) in
      elim (property d "triggerMode") [
        | none ↦
            with_trigger d capacity mode (if has_hop then periodic else full) has_hop hop_property
              (errors ++ hop_errors)
        | some node ↦
            elim (resolve_buffer_constant node
              ("TriggerFull" ∷ "TriggerHalf" ∷ "TriggerQuarter" ∷ "TriggerPeriodic" ∷ [])) [
                | none ↦ some (
                    new_spec (get_name d) (pos capacity) mode
                      ((errors ++ hop_errors) ++ unknown_trigger ∷ []))
                | some i ↦
                    with_trigger d capacity mode (trigger_at i) has_hop hop_property
                      (errors ++ hop_errors)
              ]
      ]

  -- From `mode` on. A mode that is unknown or not implemented ends the reading.
  unfoldable pub with_mode : Decl → ℕ → List BufferError → Option BufferSpec
  unfolding with_hop
  with_mode d capacity errors = elim (property d "mode") [
    | none ↦ with_hop d capacity sliding errors
    | some node ↦
        elim (resolve_buffer_constant node ("ModeSliding" ∷ "ModeFifo" ∷ "ModeOverlapAdd" ∷ [])) [
          | none ↦ some (
              new_spec (get_name d) (pos capacity) sliding (
                errors
                ++ (if str_eq (node_name node) "ModePingPong" then removed_mode else unknown_mode)
                  ∷ []))
          | some i ↦
              if is_sliding (mode_at i)
              then with_hop d capacity (mode_at i) errors
              else some (
                  new_spec (get_name d) (pos capacity) (mode_at i) (errors ++ not_implemented ∷ []))
        ]
  ]

  -- `if (spec.capacity <= 0)`
  abbrev pub with_capacity : Decl → ℤ → List BufferError → Option BufferSpec
  with_capacity d (pos (suc c)) errors = with_mode d (suc c) errors
  with_capacity d capacity errors =
      some (new_spec (get_name d) capacity sliding (errors ++ capacity_not_positive ∷ []))

  -- `BufferSpec::fromDeclaration`
  unfoldable pub from_declaration : Option Decl → Option BufferSpec
  unfolding with_mode
  from_declaration none = some (new_spec "" (pos 0) sliding (no_declaration ∷ []))
  from_declaration (some d) =
      let read_only = read_only_errors d schema_properties in
      let (set, capacity, errors) = eval_int d "capacity" (pos 0) in
      if set
      then with_capacity d capacity (read_only ++ errors)
      else some (
          new_spec (get_name d) (pos 0) sliding (
            read_only
            ++ errors
            ++ (if is_set (property d "capacity") then [] else capacity_required ∷ [])))

  abbrev pub public_properties_of : List Decl → List String
  public_properties_of [] = []
  public_properties_of (port ∷ ports) =
      let rest = public_properties_of ports in
      let n = schema_property_name port in
      if not (str_eq n "") && schema_switch port "public" then n ∷ rest else rest

  -- `publicProperties`
  abbrev pub public_properties : List String
  public_properties = public_properties_of schema_properties

  -- `propertyAccess`: whether the property is declared, public and writeable.
  abbrev pub property_access_of : List Decl → String → Bool × Bool × Bool
  property_access_of [] key = (false, true, true)
  property_access_of (port ∷ ports) key =
      let later = property_access_of ports key in
      if str_eq (schema_property_name port) key
      then (true, schema_switch port "public", schema_switch port "writeable")
      else later
