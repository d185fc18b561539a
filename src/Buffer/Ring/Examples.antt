-- ===== src/Buffer/Ring/Examples.antt =====
-- Small buffers: one with overlapping frames, one whose frame fills it.
use stridejit.Prelude.{
  List, String, [], arith, false, map, pos, refl, some, take, true, ℕ, ℤ, ◌++◌, ◌∷◌, ◌≡◌,
}
use stridejit.Buffer.{BufferSpec, sliding, periodic, full}
use stridejit.Buffer.Read.{from_declaration}
use stridejit.Buffer.Examples.{numbers}
use stridejit.Buffer.Ring.{
  Ring, Event, sample, tick_ends, restarts, run_events, push, push_sized, advance, initial,
  frame_copy, frame_copy_sized,
}
use stridejit.Buffer.Ring.Runs.{run_stream, empty, IsRing, run-refines}
use stridejit.Buffer.Ring.Latest.{reached, run-latest, run-partial}
use stridejit.Buffer.Ring.Ready.{run-ready, run-becomes_ready, quiet}
use stridejit.Buffer.Ring.Overwritten.{overwritten-frame}

abbrev four : List (String × ℤ)
four = ("capacity", pos 4) ∷ ("frameSize", pos 3) ∷ ("hop", pos 2) ∷ []

abbrev four_spec : BufferSpec
four_spec = record {
  name = "Buf";
  capacity = pos 4;
  frame_size = pos 3;
  hop = pos 2;
  mode = sliding;
  trigger = periodic;
  trigger_entity = "";
  mirrored = true;
  errors = [];
}

four-read : from_declaration numbers (some four) ≡ some four_spec
unfolding from_declaration
four-read = refl

-- Five samples, with the end of a tick and a restart before them.
abbrev events : List (Event ℕ)
events =
    sample 9 false
    ∷ restarts
    ∷ sample 1 false
    ∷ sample 2 false
    ∷ tick_ends
    ∷ sample 3 false
    ∷ sample 4 false
    ∷ sample 5 false
    ∷ []

abbrev after_events : Ring ℕ
after_events = record {
  storage = 5 ∷ 2 ∷ 3 ∷ 4 ∷ 5 ∷ 2 ∷ 3 ∷ 4 ∷ [];
  index = 1;
  count = 4;
  since = 0;
  ready = true;
  flush = false;
}

events-run : run_events four_spec events (initial four_spec 0) ≡ some after_events
unfolding run_events push_sized advance
events-run = refl

run-refines_example :
    (last : Ring ℕ) × (run_events four_spec events (initial four_spec 0) ≡ some last)
    × IsRing four_spec last (run_stream four_spec events empty)
run-refines_example = run-refines numbers (some four) four_spec four-read refl refl 0 events

run-latest_example : frame_copy four_spec after_events ≡ some (3 ∷ 4 ∷ 5 ∷ [])
unfolding run_stream
run-latest_example =
    run-latest numbers (some four) four_spec four-read refl refl 0 events after_events events-run
      refl

abbrev two_events : List (Event ℕ)
two_events = sample 1 false ∷ sample 2 false ∷ []

abbrev after_two : Ring ℕ
after_two = record {
  storage = 1 ∷ 2 ∷ 0 ∷ 0 ∷ 1 ∷ 2 ∷ 0 ∷ 0 ∷ [];
  index = 2;
  count = 2;
  since = 2;
  ready = false;
  flush = false;
}

two-run : run_events four_spec two_events (initial four_spec 0) ≡ some after_two
unfolding run_events push_sized advance
two-run = refl

run-partial_example :
    (frame : List ℕ) × (frame_copy four_spec after_two ≡ some frame) × (take 2 frame ≡ 1 ∷ 2 ∷ [])
unfolding run_stream
run-partial_example =
    run-partial numbers (some four) four_spec four-read refl refl 0 two_events after_two two-run
      (omega arith)

run-ready_example :
    (next : Ring ℕ) × (push four_spec after_two 3 false ≡ some next) × (next.ready ≡ true)
unfolding run_stream
run-ready_example =
    run-ready numbers (some four) four_spec four-read refl refl 0 two_events after_two two-run 3
      false

run-becomes_ready_example :
    (before : List ℕ) × (after : List ℕ) × (last : Ring ℕ) × (before ++ after ≡ 3 ∷ 4 ∷ 5 ∷ [])
    × (run_events four_spec (map quiet before) after_two ≡ some last)
    × (last.ready ≡ true)
run-becomes_ready_example =
    run-becomes_ready numbers (some four) four_spec four-read refl refl 0 two_events after_two
      two-run (3 ∷ 4 ∷ 5 ∷ []) (omega arith)

-- A buffer of 3 samples and a frame of 3.
abbrev three : List (String × ℤ)
three = ("capacity", pos 3) ∷ []

abbrev three_spec : BufferSpec
three_spec = record {
  name = "Buf";
  capacity = pos 3;
  frame_size = pos 3;
  hop = pos 3;
  mode = sliding;
  trigger = full;
  trigger_entity = "";
  mirrored = false;
  errors = [];
}

three-read : from_declaration numbers (some three) ≡ some three_spec
unfolding from_declaration
three-read = refl

abbrev four_events : List (Event ℕ)
four_events = sample 1 false ∷ sample 2 false ∷ sample 3 false ∷ sample 4 false ∷ []

abbrev after_four : Ring ℕ
after_four = record {
  storage = 4 ∷ 2 ∷ 3 ∷ [];
  index = 1;
  count = 3;
  since = 1;
  ready = true;
  flush = false;
}

four-run : run_events three_spec four_events (initial three_spec 0) ≡ some after_four
unfolding run_events push_sized advance
four-run = refl

overwritten-frame_example : frame_copy_sized 3 3 3 false after_four ≡ some (4 ∷ 2 ∷ 3 ∷ [])
unfolding run_stream
overwritten-frame_example =
    overwritten-frame 3 false after_four (run_stream three_spec four_events empty)
      (omega arith, omega arith, omega arith, omega arith, λ e. (refl, refl))
      (reached numbers (some three) three_spec three-read refl refl 0 four_events after_four
        four-run)
      (omega arith)
