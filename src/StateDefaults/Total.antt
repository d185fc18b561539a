-- ===== src/StateDefaults/Total.antt =====
-- Constants that fit their places are written.
use stridejit.Prelude.{
  All, Bool-cases, List, Option, Option-cases, [], arith, inl, inr, leb, length, length-replicate,
  length-take, none, not, refl, replicate, some, suc, take, true, ℕ, ◌*◌, ◌+◌, ◌==◌, ◌||◌, ◌∙◌, ◌∷◌,
  ◌≡◌, ◌≤◌, ◌⊎◌,
}
use stridejit.StateAccess.{store, le_bytes}
use stridejit.StateAccess.Bytes.{store-fits, length-stored, length-le_bytes}
use stridejit.StateDefaults.{
  DataLayout, Constant, Constants, zero_constant, int_constant, float_constant, struct_constant,
  array_constant, data_array, pointer_constant, other_constant, no_operands, operand, copy_bytes,
  write_constant, write_operands, StateDefaults, snapshot_with, snapshot_all,
  snapshot_state_defaults,
}

-- The buffer after a write, of the size that it had.
abbrev pub Written : List ℕ → Option (List ℕ) → Type 0
Written mem none = ⊥
Written mem (some next) = length next ≡ length mem

then-Written :
    (mem : List ℕ) (o : Option (List ℕ)) (f : List ℕ → Option (List ℕ))
    → Written mem o
    → ((next : List ℕ) → length next ≡ length mem → Written next (f next))
    → Written mem (elim o as (λ x. Option (List ℕ)) [ none ↦ none | some next ↦ f next ])
then-Written mem none f done later = done
then-Written mem (some next) f size later = go (f next) (later next size)
  where
    go : (o : Option (List ℕ)) → Written next o → Written mem o
    go none stuck = stuck
    go (some last) h = h ∙ size

store-Written :
    (mem : List ℕ) (offset : ℕ) (bytes : List ℕ)
    → offset + length bytes ≤ length mem
    → Written mem (store mem offset bytes)
store-Written mem offset bytes h =
    rw (store-fits mem offset bytes h) (length-stored mem offset bytes h)

copy_bytes-Written :
    (mem : List ℕ) (offset : ℕ) (source : List ℕ) (size : ℕ)
    → size ≤ length source
    → offset + size ≤ length mem
    → Written mem (copy_bytes mem offset source size)
copy_bytes-Written mem offset source size inside fits =
    let all : leb size (length source) ≡ true = ground arith in
    rw all (store-Written mem offset (take size source) (omega (arith, length-take size source)))

module _ {Ty : Type 0} (dl : DataLayout Ty) where
  -- A constant whose bytes, and those of its operands at their places, are at most a number.
  unfoldable mutual
    pub Fits : Constant Ty → ℕ → Type 0
    Fits (zero_constant t) n = dl.alloc_size_of t ≤ n
    Fits (int_constant t value) n = (dl.alloc_size_of t ≤ 8) × (dl.alloc_size_of t ≤ n)
    Fits (float_constant t raw) n = (dl.alloc_size_of t ≤ length raw) × (dl.alloc_size_of t ≤ n)
    Fits (struct_constant t cs) n = OperandsFit cs (dl.element_offset t) 0 n
    Fits (array_constant t cs) n = OperandsFit cs (λ i. i * dl.alloc_size_of t) 0 n
    Fits (data_array raw) n = length raw ≤ n
    Fits (pointer_constant t none) n = Unit
    Fits (pointer_constant t (some text)) n =
        (dl.alloc_size_of t ≤ length (dl.pointer_bytes text)) × (dl.alloc_size_of t ≤ n)
    Fits other_constant n = Unit

    pub OperandsFit : Constants Ty → (ℕ → ℕ) → (i : ℕ) → ℕ → Type 0
    OperandsFit no_operands place i n = Unit
    OperandsFit (operand c cs) place i n =
        ((m : ℕ) × (place i + m ≤ n) × Fits c m) × OperandsFit cs place (suc i) n

  mutual
    unfolding write_constant write_operands Fits OperandsFit

    pub write_constant-Written :
        (c : Constant Ty) (n : ℕ) (mem : List ℕ) (offset : ℕ)
        → Fits c n
        → offset + n ≤ length mem
        → Written mem (write_constant dl c mem offset)
    write_constant-Written (zero_constant t) n mem offset f h =
        store-Written mem offset (replicate (dl.alloc_size_of t) 0)
          (let zero_byte : ℕ = 0 in omega (arith, length-replicate (dl.alloc_size_of t) zero_byte))
    write_constant-Written (int_constant t value) n mem offset (f, g) h =
        copy_bytes-Written mem offset (le_bytes 8 value) (dl.alloc_size_of t)
          (omega (arith, length-le_bytes 8 value)) (omega arith)
    write_constant-Written (float_constant t raw) n mem offset (f, g) h =
        copy_bytes-Written mem offset raw (dl.alloc_size_of t) f (omega arith)
    write_constant-Written (struct_constant t cs) n mem offset f h =
        write_operands-Written cs (dl.element_offset t) 0 n mem offset f h
    write_constant-Written (array_constant t cs) n mem offset f h =
        write_operands-Written cs (λ i. i * dl.alloc_size_of t) 0 n mem offset f h
    write_constant-Written (data_array raw) n mem offset f h =
        store-Written mem offset raw (omega arith)
    write_constant-Written (pointer_constant t none) n mem offset f h = refl
    write_constant-Written (pointer_constant t (some text)) n mem offset (f, g) h =
        copy_bytes-Written mem offset (dl.pointer_bytes text) (dl.alloc_size_of t) f (omega arith)
    write_constant-Written other_constant n mem offset f h = refl

    write_operands-Written :
        (cs : Constants Ty) (place : ℕ → ℕ) (i n : ℕ) (mem : List ℕ) (offset : ℕ)
        → OperandsFit cs place i n
        → offset + n ≤ length mem
        → Written mem (write_operands dl cs place i mem offset)
    write_operands-Written no_operands place i n mem offset f h = refl
    write_operands-Written (operand c cs) place i n mem offset ((m, inside, first), rest) h =
        then-Written mem (write_constant dl c mem (offset + place i))
          (λ next. write_operands dl cs place (suc i) next offset)
          (write_constant-Written c m mem (offset + place i) first (omega arith))
          (λ next size.
            write_operands-Written cs place (suc i) n next offset rest (omega (arith, size)))

  -- A state without a default, or with one that fits its size.
  abbrev pub DefaultFits : StateDefaults Ty → Type 0
  DefaultFits info = (c : Constant Ty) → info.default_constant ≡ some c → Fits c info.alloc_size

  -- The state with its bytes is as large as it was declared, and the rest of it is as it was.
  abbrev pub IsSnapshotOf : StateDefaults Ty → StateDefaults Ty → Type 0
  IsSnapshotOf next info =
      (next ≡ info)
      ⊎ ((bytes : List ℕ) × (next ≡ record info { default_bytes = bytes })
          × (length bytes ≡ info.alloc_size))

  snapshot_with_total :
      (info : StateDefaults Ty)
      → DefaultFits info
      → (next : StateDefaults Ty) × (snapshot_with dl info ≡ some next) × IsSnapshotOf next info
  unfolding snapshot_with
  snapshot_with_total info fits =
      elim (Bool-cases (not (length info.default_bytes == 0) || info.alloc_size == 0)) [
        | inl skipped ↦ (info, rw (snapshot_with, skipped) refl, inl refl)
        | inr taken ↦ elim (Option-cases info.default_constant) [
          | inl e ↦ (info, simp (snapshot_with, taken, e), inl refl)
          | inr (c, e) ↦
              let zeros = replicate info.alloc_size 0 in
              let size : length zeros ≡ info.alloc_size = length-replicate info.alloc_size 0 in
              let done =
                write_constant-Written c info.alloc_size zeros 0 (fits c e) (omega (arith, size)) in
              elim (Option-cases (write_constant dl c zeros 0)) [
                | inl stuck ↦ absurd (rw stuck at done)
                | inr (bytes, w) ↦
                    let same : length bytes ≡ length zeros = rw w at done in
                    (
                      record info { default_bytes = bytes },
                      simp (snapshot_with, taken, e, w),
                      inr (bytes, refl, same ∙ size),
                    )
              ]
        ]
      ]

  -- Item by item.
  abbrev pub AreSnapshotsOf : List (StateDefaults Ty) → List (StateDefaults Ty) → Type 0
  AreSnapshotsOf [] [] = Unit
  AreSnapshotsOf (next ∷ nexts) (info ∷ infos) = IsSnapshotOf next info × AreSnapshotsOf nexts infos
  AreSnapshotsOf nexts infos = ⊥

  snapshot_all_total :
      (infos : List (StateDefaults Ty))
      → All DefaultFits infos
      → (nexts : List (StateDefaults Ty)) × (snapshot_all dl infos ≡ some nexts)
        × AreSnapshotsOf nexts infos
  snapshot_all_total [] fits = ([], refl, tt)
  snapshot_all_total (info ∷ infos) (fits, rest) =
      let (next, e, first) = snapshot_with_total info fits in
      let (nexts, f, others) = snapshot_all_total infos rest in
      (next ∷ nexts, rw (snapshot_all, e, f) refl, (first, others))

  -- Where the default of each state fits the size of the state, the snapshot writes inside its buffers:
  -- every state stays as it is or gets bytes, as many as its size.
  pub snapshot_state_defaults_total :
      (infos : List (StateDefaults Ty))
      → All DefaultFits infos
      → (nexts : List (StateDefaults Ty)) × (snapshot_state_defaults (some dl) infos ≡ some nexts)
        × AreSnapshotsOf nexts infos
  unfolding snapshot_state_defaults
  snapshot_state_defaults_total infos fits = snapshot_all_total infos fits
