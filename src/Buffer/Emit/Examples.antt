-- ===== src/Buffer/Emit/Examples.antt =====
-- A push of an integer into a buffer of 32-bit reals.
use stridejit.Prelude.{String, [], inr, none, refl, some, true, ◌∷◌, ◌≡◌}
use stridejit.Buffer.Ring.{has_trigger_entity}
use stridejit.Buffer.Examples.{overlapping_spec}
use stridejit.Buffer.Emit.{
  Compiler, integer, floating, array, emit_push, emit_copy, emit_view, si_to_fp, push_storage,
  push_writes_to, is_found,
}
use stridejit.Buffer.Emit.Checks.{emit_push-found}

abbrev with_buffer : Compiler
with_buffer = record {
  named_values = ("Buf", some (array (floating 32) 2048)) ∷ ("Buf_index", none) ∷ [];
  globals =
      ("Buf_count", none)
      ∷ ("Buf_since", none)
      ∷ ("Buf_ready", none)
      ∷ ("Frame", some (array (floating 32) 512))
      ∷ [];
}

-- A frame of 512 is copied to an array of 512.
frame-copied : emit_copy with_buffer overlapping_spec "Frame" ≡ inr 512
unfolding emit_copy emit_view
frame-copied = refl

emit_push-found_example :
    (overlapping_spec.errors ≡ [])
    × (push_storage with_buffer overlapping_spec ≡ some (floating 32))
    × ((v : String) → push_writes_to overlapping_spec v ≡ true → is_found with_buffer v ≡ true)
    × (has_trigger_entity overlapping_spec ≡ true
        → is_found with_buffer overlapping_spec.trigger_entity ≡ true)
unfolding emit_push
emit_push-found_example =
    emit_push-found with_buffer overlapping_spec (some (integer 32, none)) (floating 32)
      (some si_to_fp) refl
