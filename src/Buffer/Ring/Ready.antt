-- ===== src/Buffer/Ring/Ready.antt =====
-- When the trigger `ready` is set.
use native.Mathlib.Nat.{mod_self, mod-add-mod, mod-lt, zero-mod}
use stridejit.Prelude.{
  Bool, Bool-cases, List, Option, [], ap, arith, false, inl, inr, length, length-append, ltb,
  ltb→le, ltb→lt, map, refl, some, suc, sym, true, zero, ℕ, ◌%◌, ◌++◌, ◌+◌, ◌-◌, ◌<◌, ◌||◌, ◌∙◌,
  ◌∷◌, ◌≡◌, ◌≤◌,
}
use stridejit.Buffer.{Parser, BufferSpec}
use stridejit.Buffer.Read.{from_declaration}
use stridejit.Buffer.Ring.{
  Ring, Event, sample, run_events, push, initial, bits_of, has_trigger_entity,
}
use stridejit.Buffer.Ring.Represents.{Stream, kept, push_stream}
use stridejit.Buffer.Ring.Pushes.{due, fires, push_sized-Represents}
use stridejit.Buffer.Layout.{IsSmall}
use stridejit.Buffer.Ring.Runs.{run_stream, step_stream, empty, IsRing, HasSizes, declared-HasSizes}
use stridejit.Buffer.Ring.Latest.{reached}

-- A frame is due after at most a frame of further samples.
due_within :
    (frame_size hop n : ℕ)
    → 0 < hop
    → hop ≤ frame_size
    → (k : ℕ) × (k < frame_size) × (due frame_size hop (suc k + n) ≡ true)
due_within frame_size hop n p le = elim (Bool-cases (ltb n frame_size)) [
  | inl e ↦
      let below = ltb→lt n frame_size e in
      let none_over : suc (frame_size - n - 1) + n - frame_size ≡ 0 = omega arith in
      let start = ap (λ m. m % hop) none_over ∙ zero-mod hop in
      (frame_size - n - 1, omega arith, ground (arith, start, below))
  | inr e ↦
      let above = ltb→le n frame_size e in
      let m = n - frame_size in
      let low = mod-lt m p in
      let over : suc (hop - m % hop - 1) + n - frame_size ≡ m + (hop - m % hop) =
        omega (arith, low) in
      let full : m % hop + (hop - m % hop) ≡ hop = omega (arith, low) in
      let multiple =
        ap (λ j. j % hop) over
        ∙ sym (mod-add-mod m hop (hop - m % hop))
        ∙ ap (λ j. j % hop) full
        ∙ mod_self hop in
      (hop - m % hop - 1, omega (arith, low), ground (arith, multiple, above, low))
]

or-fires : (b has_trigger : Bool) → b || fires has_trigger true false ≡ true
or-fires true has_trigger = refl
or-fires false true = refl
or-fires false false = refl

module _ {ℓ} {A : Type ℓ} where
  -- A sample while the trigger is off.
  abbrev pub quiet : A → Event A
  quiet v = sample v false

  kept-quiet :
      (has_trigger : Bool) (s : Stream A) (v : A)
      → length (kept has_trigger (push_stream has_trigger s v false))
        ≡ suc (length (kept has_trigger s))
  kept-quiet true s v = omega (arith, length-append (kept true s) (v ∷ []))
  kept-quiet false s v = omega (arith, length-append s.samples (v ∷ []))

  run_stream-snoc :
      (spec : BufferSpec) (e : Event A) (es : List (Event A)) (s : Stream A)
      → run_stream spec (es ++ e ∷ []) s ≡ step_stream spec (run_stream spec es s) e
  unfolding run_stream
  run_stream-snoc spec e [] s = refl
  run_stream-snoc spec e (f ∷ es) s = run_stream-snoc spec e es (step_stream spec s f)

  module _ (spec : BufferSpec) (sized : HasSizes spec) where
    pushed-ready :
        (ring : Ring A) (s : Stream A) (v : A) (trigger : Bool)
        → IsRing spec ring s
        → (next : Ring A) × (push spec ring v trigger ≡ some next)
          × IsRing spec next (push_stream (has_trigger_entity spec) s v trigger)
          × (next.ready
              ≡ ring.ready
                || fires
                    (has_trigger_entity spec)
                    (due
                      (bits_of spec.frame_size)
                      (bits_of spec.hop)
                      (length (push_stream (has_trigger_entity spec) s v trigger).samples))
                    trigger)
    pushed-ready ring s v trigger rep =
        push_sized-Represents (bits_of spec.capacity) (bits_of spec.frame_size) (bits_of spec.hop)
          spec.mirrored sized (has_trigger_entity spec) ring s rep v trigger

    waits :
        (k : ℕ) (vs : List A) (ring : Ring A) (s : Stream A)
        → IsRing spec ring s
        → k < length vs
        → due
            (bits_of spec.frame_size)
            (bits_of spec.hop)
            (suc k + length (kept (has_trigger_entity spec) s))
          ≡ true
        → (before : List A) × (after : List A) × (last : Ring A) × (before ++ after ≡ vs)
          × (run_events spec (map quiet before) ring ≡ some last)
          × (last.ready ≡ true)
    unfolding run_events
    waits k [] ring s rep lt e = absurd (omega arith)
    waits zero (v ∷ vs) ring s rep lt e =
        let t = has_trigger_entity spec in
        let (next, stepped, rep', ready_is) = pushed-ready ring s v false rep in
        let now : suc 0 + length (kept t s) ≡ length (push_stream t s v false).samples =
          omega (arith, length-append (kept t s) (v ∷ [])) in
        let is_due = ap (due (bits_of spec.frame_size) (bits_of spec.hop)) (sym now) ∙ e in
        (
          v ∷ [],
          vs,
          next,
          refl,
          rw (run_events, stepped) refl,
          ready_is ∙ ap (λ b. ring.ready || fires t b false) is_due ∙ or-fires ring.ready t,
        )
    waits (suc k) (v ∷ vs) ring s rep lt e =
        let t = has_trigger_entity spec in
        let (next, stepped, rep', ready_is) = pushed-ready ring s v false rep in
        let later : suc k + length (kept t (push_stream t s v false))
            ≡ suc (suc k) + length (kept t s) =
          omega (arith, kept-quiet t s v) in
        let (before, after, last, split, ran, set_ready) =
          waits k vs next (push_stream t s v false) rep' (omega arith)
            (ap (due (bits_of spec.frame_size) (bits_of spec.hop)) later ∙ e) in
        (v ∷ before, after, last, ap (λ l. v ∷ l) split, rw (run_events, stepped) ran, set_ready)

module _ {ℓ} {A : Type ℓ} (P : Parser) (d : Option (P.Decl)) (spec : BufferSpec)
    (read : from_declaration P d ≡ some spec) (valid : spec.errors ≡ []) (small : IsSmall spec)
    (zero_value : A) (es : List (Event A)) (ring : Ring A)
    (ran : run_events spec es (initial spec zero_value) ≡ some ring) where
  -- For a buffer that is declared without errors, with twice its capacity below 2 ^ 31, after any
  -- run: the push of one more sample succeeds, and `ready` is on after it exactly when it was on
  -- before, or a frame is due with the samples since the last flush and this one, or the buffer has a
  -- trigger entity and it is on.
  pub run-ready :
      (v : A) (trigger : Bool)
      → (next : Ring A) × (push spec ring v trigger ≡ some next)
        × (next.ready
            ≡ ring.ready
              || fires
                  (has_trigger_entity spec)
                  (due
                    (bits_of spec.frame_size)
                    (bits_of spec.hop)
                    (length (run_stream spec (es ++ sample v trigger ∷ []) empty).samples))
                  trigger)
  run-ready v trigger =
      let t = has_trigger_entity spec in
      let s = run_stream spec es empty in
      let (next, stepped, rep, ready_is) =
        pushed-ready spec (declared-HasSizes P d spec read valid small) ring s v trigger
          (reached P d spec read valid small zero_value es ring ran) in
      let same = sym (run_stream-snoc spec (sample v trigger) es empty) in
      (
        next,
        stepped,
        ready_is
            ∙ ap
                (λ (r : Stream A).
                  ring.ready
                  || fires t (due (bits_of spec.frame_size) (bits_of spec.hop) (length r.samples))
                      trigger)
                same,
      )

  -- For a buffer that is declared without errors, with twice its capacity below 2 ^ 31, after any
  -- run: of any further samples, as many as a frame has, with the trigger off, some first ones run
  -- without a fault to a ring that is ready.
  pub run-becomes_ready :
      (vs : List A)
      → bits_of spec.frame_size ≤ length vs
      → (before : List A) × (after : List A) × (last : Ring A) × (before ++ after ≡ vs)
        × (run_events spec (map quiet before) ring ≡ some last)
        × (last.ready ≡ true)
  run-becomes_ready vs enough =
      let sized = declared-HasSizes P d spec read valid small in
      let s = run_stream spec es empty in
      let (k, low, is_due) =
        due_within (bits_of spec.frame_size) (bits_of spec.hop)
          (length (kept (has_trigger_entity spec) s)) sized.0 sized.1 in
      waits spec sized k vs ring s (reached P d spec read valid small zero_value es ring ran)
        (omega arith) is_due
