-- ===== src/Buffer/Division.antt =====
-- The remainder that decides whether the storage is doubled, for a hop of 0.
use stridejit.Prelude.{List, none, pos, refl, some, suc, true, ℕ, ◌≡◌}
use stridejit.Buffer.{Parser, BufferError}
use stridejit.Buffer.Read.{property, eval_int, from_declaration, with_mode, with_hop, with_trigger}

module _ (P : Parser) where
  open P use {Decl}

  -- A buffer that is declared with a positive capacity, without a mode or a trigger mode, and with
  -- a hop of 0 and a frame size of 0, has no result: the capacity is divided by the hop, although
  -- the sizes have been found not to fit.
  pub from_declaration_stuck :
      (d : Decl) (capacity : ℕ) (errors hop_errors frame_errors : List BufferError)
      → eval_int P d "capacity" (pos 0) ≡ (true, pos (suc capacity), errors)
      → property P d "mode" ≡ none
      → property P d "triggerMode" ≡ none
      → eval_int P d "hop" (pos 0) ≡ (true, pos 0, hop_errors)
      → eval_int P d "frameSize" (pos (suc capacity)) ≡ (true, pos 0, frame_errors)
      → from_declaration P (some d) ≡ none
  unfolding from_declaration
  from_declaration_stuck d capacity errors hop_errors frame_errors c m t h f =
      rw (from_declaration, c) (rw (with_mode, m) (rw (with_hop, t, h) (rw (with_trigger, f) refl)))
