-- ===== src/Rate/Tick.antt =====
-- What the generated code of DownsampleExprAST and UpsampleExprAST does in a tick of its domain: how
-- often the chain's body runs, and the next phase. An i32 or i64 value is a signed number.
use stridejit.Prelude.{
  Bool, Option, eqb_ℤ, if◌then◌else◌, leb_ℤ, ltb_ℤ, none, not, pos, some, suc, wrap_i32, wrap_i64,
  zero, ℕ, ℤ, ◌&&◌, ◌+ℤ◌, ◌+◌, ◌-ℤ◌,
}
use stridejit.Rate.{Reals, RateScheduleSpec}

-- DownsampleExprAST, with a counter.
abbrev pub count_tick : ℤ → ℤ → Bool × ℤ
count_tick int_factor counter =
    let inc = wrap_i32 (counter +ℤ pos 1) in
    let limit = wrap_i32 int_factor in
    (eqb_ℤ counter (pos 0), if leb_ℤ limit inc then pos 0 else inc)

-- DownsampleExprAST, with an exact phase.
abbrev pub phase_tick : ℤ → ℤ → ℤ → Bool × ℤ
phase_tick step_d step_c phase =
    let should_run = leb_ℤ phase (pos 0) in
    let merged = if should_run then wrap_i64 (phase +ℤ step_d) else phase in
    (should_run, wrap_i64 (merged -ℤ step_c))

-- UpsampleExprAST, with a counter: how often the body runs. Running out of fuel is no result.
unfoldable pub count_subticks : ℕ → ℤ → ℤ → Option ℕ
count_subticks zero count idx = none
count_subticks (suc fuel) count idx =
    let rest = count_subticks fuel count (wrap_i32 (idx +ℤ pos 1)) in
    if ltb_ℤ idx count then elim rest [ none ↦ none | some n ↦ some (suc n) ] else some 0

-- UpsampleExprAST, with an exact phase: how often the body runs, and the phase behind the loop.
unfoldable pub phase_subticks : ℕ → ℤ → ℤ → ℤ → Option (ℕ × ℤ)
phase_subticks zero step_d step_c phase = none
phase_subticks (suc fuel) step_d step_c phase =
    let rest = phase_subticks fuel step_d step_c (wrap_i64 (phase +ℤ step_d)) in
    if ltb_ℤ phase step_c
    then elim rest [ none ↦ none | some (n, last) ↦ some (suc n, last) ]
    else some (0, phase)

abbrev pub phase_uptick : ℕ → ℤ → ℤ → ℤ → Option (ℕ × ℤ)
phase_uptick fuel step_d step_c phase = elim (phase_subticks fuel step_d step_c phase) [
  | none ↦ none
  | some (n, last) ↦ some (n, wrap_i64 (last -ℤ step_c))
]

-- The field of the phase, by its type.
pub data Phase (R : Reals) : Type 0 where
  counter int64_phase : ℤ → Phase R
  real_phase : R.Real → Phase R

module _ (R : Reals) where
  open R use {Real, of_int, add, sub, lt, le, rate_epsilon}

  -- DownsampleExprAST, with doubles.
  abbrev pub real_tick : Real → Real → Real → Bool × Real
  real_tick domain_rate chain_rate phase =
      let should_run = le phase rate_epsilon in
      let merged = if should_run then add phase domain_rate else phase in
      (should_run, sub merged chain_rate)

  -- UpsampleExprAST, with doubles.
  abbrev pub real_subticks : ℕ → Real → Real → Real → Option (ℕ × Real)
  real_subticks zero domain_rate chain_rate phase = none
  real_subticks (suc fuel) domain_rate chain_rate phase =
      let rest = real_subticks fuel domain_rate chain_rate (add phase domain_rate) in
      if lt phase (sub chain_rate rate_epsilon)
      then elim rest [ none ↦ none | some (n, last) ↦ some (suc n, last) ]
      else some (0, phase)

  -- `DownsampleExprAST::codegen`: none where the field has another type than the schedule gives it.
  abbrev pub downsample_tick : RateScheduleSpec R → Phase R → Option (Bool × Phase R)
  downsample_tick s (counter c) =
      if s.is_exact_integer
      then (let (run, next) = count_tick s.int_factor c in some (run, counter next))
      else none
  downsample_tick s (int64_phase p) =
      if not s.is_exact_integer && s.use_int64_phase
      then (let (run, next) = phase_tick s.step_d s.step_c p in some (run, int64_phase next))
      else none
  downsample_tick s (real_phase p) =
      if not s.is_exact_integer && not s.use_int64_phase
      then (let (run, next) = real_tick s.domain_rate s.chain_rate p in some (run, real_phase next))
      else none

  -- `UpsampleExprAST::codegen`. With a counter there is no field.
  abbrev pub upsample_tick : ℕ → RateScheduleSpec R → Phase R → Option (ℕ × Phase R)
  upsample_tick fuel s (counter c) =
      if s.is_exact_integer
      then elim (count_subticks fuel (wrap_i32 s.int_factor) (pos 0)) [
        | none ↦ none
        | some n ↦ some (n, counter c)
      ]
      else none
  upsample_tick fuel s (int64_phase p) =
      if not s.is_exact_integer && s.use_int64_phase
      then elim (phase_uptick fuel s.step_d s.step_c p) [
        | none ↦ none
        | some (n, next) ↦ some (n, int64_phase next)
      ]
      else none
  upsample_tick fuel s (real_phase p) =
      if not s.is_exact_integer && not s.use_int64_phase
      then elim (real_subticks fuel s.domain_rate s.chain_rate p) [
        | none ↦ none
        | some (n, last) ↦ some (n, real_phase (sub last s.chain_rate))
      ]
      else none

-- Any number of ticks: how often the body has run, and the phase.
abbrev pub downsampled {ℓ} : {A : Type ℓ} → (A → Bool × A) → ℕ → A → ℕ × A
downsampled tick zero phase = (0, phase)
downsampled tick (suc n) phase =
    let (runs, now) = downsampled tick n phase in
    let (run, next) = tick now in (if run then suc runs else runs, next)

abbrev pub upsampled {ℓ} : {A : Type ℓ} → (A → Option (ℕ × A)) → ℕ → A → Option (ℕ × A)
upsampled tick zero phase = some (0, phase)
upsampled tick (suc n) phase = elim (upsampled tick n phase) [
  | none ↦ none
  | some (runs, now) ↦ elim (tick now) [ none ↦ none | some (k, next) ↦ some (runs + k, next) ]
]
