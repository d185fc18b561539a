-- ===== src/Buffer/Valid.antt =====
-- Reading a buffer declaration without errors gives a layout.
use stridejit.Prelude.{
  Bool, List, Option, [], ap, arith, false, if◌then◌else◌, ltb, ltb_ℤ, ltb→lt, negsuc, none, pos,
  set, some, str_eq, suc, sym, true, wrap_i32, zero, ℕ, ℤ, ◌++◌, ◌+ℤ◌, ◌+◌, ◌<◌, ◌^◌, ◌∙◌, ◌∷◌, ◌≡◌,
}
use stridejit.Buffer.{
  Parser, Mode, sliding, BufferError, BufferSpec, new_spec, is_sliding, fifo, overlap_add,
  not_implemented, unknown_trigger, trigger_at, full, periodic, removed_mode, unknown_mode,
  capacity_not_positive, no_declaration, mode_at, not_constant, capacity_required, storage_size,
}
use stridejit.Buffer.Read.{
  property, resolve_buffer_constant, is_set, read_only_errors, eval_int, with_trigger, with_hop,
  with_mode, with_capacity, from_declaration,
}
use stridejit.Buffer.Frames.{append-nil_left, snoc-ne}
use stridejit.Buffer.Layout.{
  HasFrames, IsLayout, IsSmall, IsGood, rejected-IsGood, with_trigger-IsGood,
}

module _ (P : Parser) where
  open P use {Decl, Node, get_name}

  with_hop-IsGood :
      (d : Decl) (capacity : ℕ) (errors : List BufferError)
      → 0 < capacity
      → IsGood (with_hop P d capacity sliding errors)
  unfolding with_hop
  with_hop-IsGood d capacity errors p =
      let (has_hop, hop_property, hop_errors) = eval_int P d "hop" (pos 0) in
      triggered has_hop hop_property (errors ++ hop_errors) (property P d "triggerMode")
    where
      known :
          (has_hop : Bool) (hop_property : ℤ) (es : List BufferError) (o : Option ℕ)
          → IsGood (elim o [
            | none ↦
                some (new_spec (get_name d) (pos capacity) sliding (es ++ unknown_trigger ∷ []))
            | some i ↦ with_trigger P d capacity sliding (trigger_at i) has_hop hop_property es
          ])
      known has_hop hop_property es none =
          rejected-IsGood (get_name d) (pos capacity) sliding es unknown_trigger
      known has_hop hop_property es (some i) =
          with_trigger-IsGood P d capacity (trigger_at i) has_hop hop_property es p

      triggered :
          (has_hop : Bool) (hop_property : ℤ) (es : List BufferError) (o : Option Node)
          → IsGood (elim o [
            | none ↦
                with_trigger P d capacity sliding
                  (if has_hop then periodic else full)
                  has_hop
                  hop_property
                  es
            | some node ↦
                elim (resolve_buffer_constant P node
                  ("TriggerFull" ∷ "TriggerHalf" ∷ "TriggerQuarter" ∷ "TriggerPeriodic" ∷ [])) [
                    | none ↦
                        some (
                          new_spec (get_name d) (pos capacity) sliding (es ++ unknown_trigger ∷ []))
                    | some i ↦
                        with_trigger P d capacity sliding (trigger_at i) has_hop hop_property es
                  ]
          ])
      triggered has_hop hop_property es none =
          with_trigger-IsGood P d capacity _ has_hop hop_property es p
      triggered has_hop hop_property es (some node) = known has_hop hop_property es (
          resolve_buffer_constant P node
            ("TriggerFull" ∷ "TriggerHalf" ∷ "TriggerQuarter" ∷ "TriggerPeriodic" ∷ []))

  -- The mode that a constant's position stands for.
  moded-IsGood :
      (d : Decl) (capacity : ℕ) (errors : List BufferError) (mode : Mode)
      → 0 < capacity
      → IsGood (
          if is_sliding mode
          then with_hop P d capacity mode errors
          else some (new_spec (get_name d) (pos capacity) mode (errors ++ not_implemented ∷ [])))
  moded-IsGood d capacity errors sliding p = with_hop-IsGood d capacity errors p
  moded-IsGood d capacity errors fifo p =
      rejected-IsGood (get_name d) (pos capacity) fifo errors not_implemented
  moded-IsGood d capacity errors overlap_add p =
      rejected-IsGood (get_name d) (pos capacity) overlap_add errors not_implemented

  with_mode-IsGood :
      (d : Decl) (capacity : ℕ) (errors : List BufferError)
      → 0 < capacity
      → IsGood (with_mode P d capacity errors)
  unfolding with_mode
  with_mode-IsGood d capacity errors p = moded (property P d "mode")
    where
      known :
          (e : BufferError) (o : Option ℕ)
          → IsGood (elim o [
            | none ↦ some (new_spec (get_name d) (pos capacity) sliding (errors ++ e ∷ []))
            | some i ↦
                if is_sliding (mode_at i)
                then with_hop P d capacity (mode_at i) errors
                else some (
                    new_spec
                      (get_name d)
                      (pos capacity)
                      (mode_at i)
                      (errors ++ not_implemented ∷ []))
          ])
      known e none = rejected-IsGood (get_name d) (pos capacity) sliding errors e
      known e (some i) = moded-IsGood d capacity errors (mode_at i) p

      moded :
          (o : Option Node)
          → IsGood (elim o [
            | none ↦ with_hop P d capacity sliding errors
            | some node ↦
                elim (resolve_buffer_constant P node
                  ("ModeSliding" ∷ "ModeFifo" ∷ "ModeOverlapAdd" ∷ [])) [
                    | none ↦ some (
                        new_spec (get_name d) (pos capacity) sliding (
                          errors
                          ++ (if str_eq (P.node_name node) "ModePingPong"
                              then removed_mode
                              else unknown_mode)
                            ∷ []))
                    | some i ↦
                        if is_sliding (mode_at i)
                        then with_hop P d capacity (mode_at i) errors
                        else some (
                            new_spec
                              (get_name d)
                              (pos capacity)
                              (mode_at i)
                              (errors ++ not_implemented ∷ []))
                  ]
          ])
      moded none = with_hop-IsGood d capacity errors p
      moded (some node) =
          known (if str_eq (P.node_name node) "ModePingPong" then removed_mode else unknown_mode)
            (resolve_buffer_constant P node ("ModeSliding" ∷ "ModeFifo" ∷ "ModeOverlapAdd" ∷ []))

  with_capacity-IsGood :
      (d : Decl) (capacity : ℤ) (errors : List BufferError)
      → IsGood (with_capacity P d capacity errors)
  with_capacity-IsGood d (pos zero) errors =
      rejected-IsGood (get_name d) (pos 0) sliding errors capacity_not_positive
  with_capacity-IsGood d (pos (suc c)) errors = with_mode-IsGood d (suc c) errors (omega arith)
  with_capacity-IsGood d (negsuc c) errors =
      rejected-IsGood (get_name d) (negsuc c) sliding errors capacity_not_positive

  from_declaration-IsGood : (o : Option Decl) → IsGood (from_declaration P o)
  unfolding from_declaration
  from_declaration-IsGood none = rejected-IsGood "" (pos 0) sliding [] no_declaration
  from_declaration-IsGood (some d) = read (property P d "capacity")
    where
      found : List BufferError
      found = read_only_errors P d (P.schema_properties)

      opened : Bool → Bool × ℤ × List BufferError → Option BufferSpec
      opened set r =
          if r.0
          then with_capacity P d r.1 (read_only_errors P d (P.schema_properties) ++ r.2)
          else some (
              new_spec (get_name d) (pos 0) sliding (
                read_only_errors P d (P.schema_properties)
                ++ r.2
                ++ (if set then [] else capacity_required ∷ [])))

      constant :
          (o : Option ℤ)
          → IsGood (
              opened true (elim o [
                | none ↦ (false, pos 0, not_constant "capacity" ∷ [])
                | some i ↦ (true, wrap_i32 i, [])
              ]))
      constant none = λ h. absurd (
          snoc-ne found (not_constant "capacity")
            (append-nil_left (found ++ not_constant "capacity" ∷ []) [] h).0)
      constant (some i) = with_capacity-IsGood d (wrap_i32 i) (found ++ [])

      read :
          (o : Option Node)
          → IsGood (
              opened (is_set P o) (elim o [
                | none ↦ (false, pos 0, [])
                | some node ↦ elim (P.evaluate_constant_integer node) [
                  | none ↦ (false, pos 0, not_constant "capacity" ∷ [])
                  | some i ↦ (true, wrap_i32 i, [])
                ]
              ]))
      read none = rejected-IsGood (get_name d) (pos 0) sliding (found ++ []) capacity_required
      read (some node) = constant (P.evaluate_constant_integer node)

  small-stored :
      (spec : BufferSpec) (c : ℕ)
      → spec.capacity ≡ pos c
      → IsSmall spec
      → storage_size spec
        ≡ (if spec.mirrored then spec.capacity +ℤ spec.capacity else spec.capacity)
  small-stored spec c e small =
      let doubled : ltb (c + c) (2 ^ 31) ≡ true =
        sym (ap (λ i. ltb_ℤ (i +ℤ i) (pos (2 ^ 31))) e) ∙ small in
      let below = ltb→lt (c + c) (2 ^ 31) doubled in
      let kept : wrap_i32 (pos (c + c)) ≡ pos (c + c) = ground arith in
      ap (λ i. if spec.mirrored then i else spec.capacity) (rw e kept)

  -- A declaration that is read without errors, with twice its capacity below 2 ^ 31, has
  -- capacity >= frameSize >= hop > 0, and the storage is as large as the capacity, or twice as large
  -- where it is mirrored. Every frame that starts at a multiple of the hop, taken round the ring, lies
  -- inside the storage without a break; where it is not mirrored, a frame is as long as the hop, which
  -- divides the capacity.
  pub from_declaration-IsLayout :
      (d : Option Decl) (spec : BufferSpec)
      → from_declaration P d ≡ some spec
      → spec.errors ≡ []
      → IsSmall spec
      → IsLayout spec
  from_declaration-IsLayout d spec e valid small =
      let frames : HasFrames spec = (rw e at (from_declaration-IsGood d)) valid in
      let (c, f, h, c_is, f_is, h_is, le, le', low, fits, plain) = frames in
      (frames, small-stored spec c c_is small)
