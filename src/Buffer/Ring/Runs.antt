-- ===== src/Buffer/Ring/Runs.antt =====
-- Any run of a buffer, from its declaration on.
use native.Mathlib.Nat.{zero-mod}
use stridejit.Prelude.{
  Bool, List, Option, [], abs_ℤ, ap, arith, false, if◌then◌else◌, length-replicate, ltb, ltb_ℤ,
  ltb→lt, pos, refl, some, sym, true, ℕ, ◌+ℤ◌, ◌+◌, ◌^◌, ◌∙◌, ◌∷◌, ◌≡◌,
}
use stridejit.Buffer.{Parser, BufferSpec, storage_size}
use stridejit.Buffer.Read.{from_declaration}
use stridejit.Buffer.Layout.{IsLayout, IsSmall}
use stridejit.Buffer.Valid.{from_declaration-IsLayout}
use stridejit.Buffer.Ring.{
  Ring, Event, sample, tick_ends, restarts, on_event, run_events, initial, init, end_tick, bits_of,
  has_trigger_entity,
}
use stridejit.Buffer.Ring.Slots.{bits_of-small}
use stridejit.Buffer.Ring.Represents.{Stream, push_stream, IsSized, Holds-nil, Represents, Band-nil}
use stridejit.Buffer.Ring.Pushes.{push_sized-Represents}

module _ {ℓ} {A : Type ℓ} (spec : BufferSpec) where
  -- The same events, on the samples since the last flush.
  abbrev pub step_stream : Stream A → Event A → Stream A
  step_stream s (sample v trigger) = push_stream (has_trigger_entity spec) s v trigger
  step_stream s tick_ends = s
  step_stream s restarts = record {
    samples = [];
    restart = if has_trigger_entity spec then false else s.restart;
  }

  unfoldable pub run_stream : List (Event A) → Stream A → Stream A
  run_stream [] s = s
  run_stream (e ∷ es) s = run_stream es (step_stream s e)

  -- The ring of this buffer stands for a stream.
  abbrev pub IsRing : Ring A → Stream A → Type ℓ
  IsRing =
      Represents (bits_of spec.capacity) (bits_of spec.frame_size) (bits_of spec.hop) spec.mirrored
        (has_trigger_entity spec)

-- The sizes of this buffer, as the generated code has them.
abbrev pub HasSizes : BufferSpec → Type 0
HasSizes spec =
    IsSized (bits_of spec.capacity) (bits_of spec.frame_size) (bits_of spec.hop) spec.mirrored

abbrev pub empty {ℓ} : {A : Type ℓ} → Stream A
empty = record { samples = []; restart = false }

doubled_size :
    (mirrored : Bool) (c : ℕ)
    → abs_ℤ (if mirrored then pos c +ℤ pos c else pos c) ≡ (if mirrored then c + c else c)
doubled_size true c = refl
doubled_size false c = refl

module _ (spec : BufferSpec) where
  -- What a layout says, of the bits in the generated code.
  layout-bits :
      IsLayout spec
      → IsSmall spec
      → HasSizes spec
        × (abs_ℤ (storage_size spec) ≡ (
            if spec.mirrored
            then bits_of spec.capacity + bits_of spec.capacity
            else bits_of spec.capacity))
  layout-bits ((c, f, h, c_is, f_is, h_is, le, le', p, fits, plain), stored) small =
      let doubled : ltb (c + c) (2 ^ 31) ≡ true =
        sym (ap (λ i. ltb_ℤ (i +ℤ i) (pos (2 ^ 31))) c_is) ∙ small in
      let below = ltb→lt (c + c) (2 ^ 31) doubled in
      let bc : bits_of spec.capacity ≡ c = ap bits_of c_is ∙ bits_of-small c (omega arith) in
      let bf : bits_of spec.frame_size ≡ f = ap bits_of f_is ∙ bits_of-small f (omega arith) in
      let bh : bits_of spec.hop ≡ h = ap bits_of h_is ∙ bits_of-small h (omega arith) in
      (
        rw (bc, bf, bh) (p, le', le, below, plain),
        rw bc (ap abs_ℤ stored ∙ rw c_is (doubled_size spec.mirrored c)),
      )

  module _ {ℓ} {A : Type ℓ} where
    step-IsRing :
        HasSizes spec
        → (ring : Ring A) (s : Stream A) (e : Event A) → IsRing spec ring s
        → (next : Ring A) × (on_event spec ring e ≡ some next)
          × IsRing spec next (step_stream spec s e)
    step-IsRing sized ring s (sample v trigger) rep =
        let (next, e, rep', ready_is) =
          push_sized-Represents (bits_of spec.capacity) (bits_of spec.frame_size) (bits_of spec.hop)
            spec.mirrored sized (has_trigger_entity spec) ring s rep v trigger in
        (next, e, rep')
    step-IsRing sized ring s tick_ends rep = (
      end_tick ring,
      refl,
      record {
        holds = rep.holds;
        index_is = rep.index_is;
        count_is = rep.count_is;
        since_is = rep.since_is;
        flush_is = rep.flush_is;
      },
    )
    step-IsRing sized ring s restarts rep = (
      init spec ring,
      refl,
      record {
        holds = Holds-nil (bits_of spec.capacity) spec.mirrored ring.storage s.samples rep.holds;
        index_is = sym (zero-mod (bits_of spec.capacity));
        count_is = omega arith;
        since_is = λ e. ground arith;
        flush_is = ap (λ b. if has_trigger_entity spec then false else b) rep.flush_is;
      },
    )

    -- From a ring that stands for a stream, no run leaves the storage, and it ends in a ring that
    -- stands for the stream after the same events.
    pub run-IsRing :
        HasSizes spec
        → (es : List (Event A)) (ring : Ring A) (s : Stream A) → IsRing spec ring s
        → (last : Ring A) × (run_events spec es ring ≡ some last)
          × IsRing spec last (run_stream spec es s)
    unfolding run_events run_stream
    run-IsRing sized [] ring s rep = (ring, refl, rep)
    run-IsRing sized (e ∷ es) ring s rep =
        let (next, stepped, rep') = step-IsRing sized ring s e rep in
        let (last, ran, rep'') = run-IsRing sized es next (step_stream spec s e) rep' in
        (last, rw (run_events, stepped) ran, rep'')

    initial-IsRing :
        HasSizes spec
        → abs_ℤ (storage_size spec) ≡ (
            if spec.mirrored
            then bits_of spec.capacity + bits_of spec.capacity
            else bits_of spec.capacity)
        → (zero_value : A) → IsRing spec (initial spec zero_value) empty
    initial-IsRing sized size zero_value = record {
      holds = record {
        length_is = length-replicate (abs_ℤ (storage_size spec)) zero_value ∙ size;
        slots = Band-nil (bits_of spec.capacity) 0 (initial spec zero_value).storage;
        mirror = λ e.
            Band-nil (bits_of spec.capacity) (bits_of spec.capacity)
              (initial spec zero_value).storage;
      };
      index_is = sym (zero-mod (bits_of spec.capacity));
      count_is = omega arith;
      since_is = λ e. ground arith;
      flush_is = refl;
    }

module _ (P : Parser) (d : Option (P.Decl)) (spec : BufferSpec)
    (read : from_declaration P d ≡ some spec) (valid : spec.errors ≡ [])
    (small : IsSmall spec) where
  pub declared-HasSizes : HasSizes spec
  declared-HasSizes =
      (layout-bits spec (from_declaration-IsLayout P d spec read valid small) small).0

  -- For a buffer that is declared without errors, with twice its capacity below 2 ^ 31: no run of
  -- samples, ends of ticks and restarts stores outside the storage, and after it the ring stands for
  -- the samples since the last flush: they are in their slots (in both copies where it is mirrored),
  -- the index and the count follow from how many they are, and so does the number of samples since
  -- the last frame where no flush of a trigger entity is pending; and the flush is pending exactly when
  -- the next sample starts anew.
  pub run-refines {ℓ} :
      {A : Type ℓ} (zero_value : A) (es : List (Event A))
      → (last : Ring A) × (run_events spec es (initial spec zero_value) ≡ some last)
        × IsRing spec last (run_stream spec es empty)
  run-refines zero_value es =
      let (sized, size) =
        layout-bits spec (from_declaration-IsLayout P d spec read valid small) small in
      run-IsRing spec sized es (initial spec zero_value) empty
        (initial-IsRing spec sized size zero_value)
