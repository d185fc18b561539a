-- ===== src/Buffer/Ring/Latest.antt =====
-- The frame that is copied when one is due, and the one after a trigger.
use mathlib.Core.Path.{subst}
use mathlib.Core.Option.{some-injective}
use native.Mathlib.Nat.{mod-eq-sub-mod}
use Prim.Native.Nat.{min}
use stridejit.Prelude.{
  Bool, List, Option, [], ap, arith, drop, false, length, length-drop, refl, some, sym, take,
  take-of_le, take-take, true, ℕ, ◌%◌, ◌+◌, ◌-◌, ◌<◌, ◌∙◌, ◌≡◌, ◌≤◌,
}
use stridejit.Buffer.{Parser, BufferSpec}
use stridejit.Buffer.Read.{from_declaration}
use stridejit.Buffer.Ring.{
  Ring, Event, run_events, initial, frame_copy, frame_copy_sized, view_sized, bits_of,
  has_trigger_entity,
}
use stridejit.Buffer.Ring.Represents.{Stream, IsSized, Represents}
use stridejit.Buffer.Ring.Pushes.{due}
use stridejit.Buffer.Ring.Frame.{copy-some, mirrored_view, plain_view, partial_view}
use stridejit.Buffer.Layout.{IsSmall}
use stridejit.Buffer.Ring.Runs.{run_stream, empty, IsRing, declared-HasSizes, run-refines}

module _ {ℓ} {A : Type ℓ} (capacity frame_size hop : ℕ) where
  copied :
      (mirrored : Bool) (ring : Ring A) (start : ℕ)
      → view_sized capacity frame_size hop mirrored ring ≡ some (drop start ring.storage)
      → start + frame_size ≤ length ring.storage
      → frame_copy_sized capacity frame_size hop mirrored ring
        ≡ some (take frame_size (drop start ring.storage))
  copied mirrored ring start e room =
      rw (frame_copy_sized, e)
        (copy-some frame_size (drop start ring.storage)
          (omega (arith, length-drop start ring.storage)))

  module _ (has_trigger : Bool) (ring : Ring A) (s : Stream A) where
    latest_sized :
        (mirrored : Bool)
        → IsSized capacity frame_size hop mirrored
        → Represents capacity frame_size hop mirrored has_trigger ring s
        → due frame_size hop (length s.samples) ≡ true
        → frame_copy_sized capacity frame_size hop mirrored ring
          ≡ some (drop (length s.samples - frame_size) s.samples)
    latest_sized true sized rep e =
        let enough : frame_size ≤ length s.samples = ground arith in
        let whole : min (length s.samples) frame_size ≡ frame_size = omega arith in
        let (start, viewed, room, window) =
          mirrored_view capacity frame_size hop has_trigger ring s sized rep in
        copied true ring start viewed room
        ∙ ap some (
            ap (λ m. take m (drop start ring.storage)) (sym whole)
            ∙ window
            ∙ ap (λ m. drop (length s.samples - m) s.samples) whole)
    latest_sized false sized rep e =
        let n = length s.samples in
        let enough : frame_size ≤ n = ground arith in
        let (same, divides) = sized.4 refl in
        let multiple : (n - frame_size) % hop ≡ 0 = ground arith in
        let aligned : n % hop ≡ 0 =
          mod-eq-sub-mod (let le : hop ≤ n = omega arith in le)
          ∙ ap (λ m. (n - m) % hop) (sym same)
          ∙ multiple in
        let (start, viewed, room, window) =
          plain_view capacity frame_size hop has_trigger ring s sized rep enough
            (omega (arith, aligned)) in
        let from : n - n % hop - hop ≡ n - frame_size = omega (arith, aligned, same) in
        copied false ring start viewed room
        ∙ ap some (
            window
            ∙ ap (λ m. take frame_size (drop m s.samples)) from
            ∙ take-of_le frame_size (drop (n - frame_size) s.samples)
                (omega (arith, length-drop (n - frame_size) s.samples)))

    partial_sized :
        (mirrored : Bool)
        → IsSized capacity frame_size hop mirrored
        → Represents capacity frame_size hop mirrored has_trigger ring s
        → length s.samples < frame_size
        → (frame : List A) × (frame_copy_sized capacity frame_size hop mirrored ring ≡ some frame)
          × (take (length s.samples) frame ≡ s.samples)
    partial_sized true sized rep lt =
        let (start, viewed, room, window) =
          mirrored_view capacity frame_size hop has_trigger ring s sized rep in
        let n = length s.samples in
        let few : min n frame_size ≡ n = omega arith in
        let none_left : n - n ≡ 0 = omega arith in
        (
          take frame_size (drop start ring.storage),
          copied true ring start viewed room,
          take-take n frame_size (drop start ring.storage) (omega arith)
              ∙ ap (λ m. take m (drop start ring.storage)) (sym few)
              ∙ window
              ∙ ap (λ m. drop (n - m) s.samples) few
              ∙ ap (λ m. drop m s.samples) none_left,
        )
    partial_sized false sized rep lt =
        let (viewed, room, window) =
          partial_view capacity frame_size hop has_trigger ring s sized rep lt in
        (
          take frame_size ring.storage,
          copied false ring 0 viewed (omega (arith, room)),
          take-take (length s.samples) frame_size ring.storage (omega arith) ∙ window,
        )

module _ {ℓ} {A : Type ℓ} (P : Parser) (d : Option (P.Decl)) (spec : BufferSpec)
    (read : from_declaration P d ≡ some spec) (valid : spec.errors ≡ []) (small : IsSmall spec)
    (zero_value : A) (es : List (Event A)) (ring : Ring A)
    (ran : run_events spec es (initial spec zero_value) ≡ some ring) where
  -- The samples since the last flush.
  abbrev pushed : List A
  pushed = (run_stream spec es empty).samples

  pub reached : IsRing spec ring (run_stream spec es empty)
  reached =
      let (last, e, rep) = run-refines P d spec read valid small zero_value es in
      subst (λ r. IsRing spec r (run_stream spec es empty)) (some-injective last ring (sym e ∙ ran))
        rep

  -- For a buffer that is declared without errors, with twice its capacity below 2 ^ 31, after any run
  -- of samples, ends of ticks and restarts: when a frame is due, that is when there is at least a
  -- frame of samples since the last flush and a whole number of hops after the first frame, then the
  -- copy of the frame gives exactly the last frame of these samples, in their order, in both layouts
  -- of the storage.
  pub run-latest :
      due (bits_of spec.frame_size) (bits_of spec.hop) (length pushed) ≡ true
      → frame_copy spec ring ≡ some (drop (length pushed - bits_of spec.frame_size) pushed)
  run-latest =
      latest_sized (bits_of spec.capacity) (bits_of spec.frame_size) (bits_of spec.hop)
        (has_trigger_entity spec) ring (run_stream spec es empty) spec.mirrored
        (declared-HasSizes P d spec read valid small) reached

  -- For a buffer that is declared without errors, with twice its capacity below 2 ^ 31, after any run
  -- with fewer samples since the last flush than a frame has: the copy of the frame stays inside the
  -- storage, and starts with exactly these samples.
  pub run-partial :
      length pushed < bits_of spec.frame_size
      → (frame : List A) × (frame_copy spec ring ≡ some frame)
        × (take (length pushed) frame ≡ pushed)
  run-partial =
      partial_sized (bits_of spec.capacity) (bits_of spec.frame_size) (bits_of spec.hop)
        (has_trigger_entity spec) ring (run_stream spec es empty) spec.mirrored
        (declared-HasSizes P d spec read valid small) reached
