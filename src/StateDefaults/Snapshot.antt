-- ===== src/StateDefaults/Snapshot.antt =====
-- A state that is allocated after the snapshot starts like one that is allocated before.
use stridejit.Prelude.{
  Bool, Bool-cases, List, Option, Option-cases, [], ap, arith, drop, drop-of_le, false, if-some,
  inl, inr, leb, length, length-replicate, ltb, none, not, refl, replicate, some, suc, sym, take,
  take-of_le, true, ℕ, ◌*◌, ◌++◌, ◌+◌, ◌==◌, ◌∙◌, ◌∷◌, ◌≡◌,
}
use stridejit.StateAccess.Bytes.{length-stored, store-fits}
use stridejit.StateAccess.{store, le_bytes}
use mathlib.Core.List.{append-nil}
use mathlib.Core.Path.{subst}
use mathlib.Core.Option.{some-injective}
use stridejit.StateDefaults.{
  DataLayout, Constant, Constants, zero_constant, int_constant, float_constant, struct_constant,
  array_constant, data_array, pointer_constant, other_constant, no_operands, operand, copy_bytes,
  write_constant, write_operands, StateDefaults, snapshot_with, snapshot_all,
  snapshot_state_defaults, fill_state, allocate_state,
}

store-length :
    (mem next : List ℕ) (offset : ℕ) (bytes : List ℕ)
    → store mem offset bytes ≡ some next
    → length next ≡ length mem
unfolding store
store-length mem next offset bytes e =
    let (inside, same) =
      if-some (leb (offset + length bytes) (length mem))
        (take offset mem ++ (bytes ++ drop (offset + length bytes) mem)) next e in
    ap length (sym same) ∙ length-stored mem offset bytes (ground arith)

copy_bytes-length :
    (mem next : List ℕ) (offset : ℕ) (source : List ℕ) (size : ℕ)
    → copy_bytes mem offset source size ≡ some next
    → length next ≡ length mem
copy_bytes-length mem next offset source size e = elim (Bool-cases (leb size (length source))) [
  | inl inside ↦ store-length mem next offset (take size source) (rw inside at e)
  | inr outside ↦ let stuck : none ≡ some next = rw outside at e in cc
]

-- A step that may fail, and what follows.
pub then-some {ℓ κ} :
    {A : Type ℓ} {B : Type κ} (o : Option A) (f : A → Option B) (y : B)
    → elim o as (λ x. Option B) [ none ↦ none | some x ↦ f x ] ≡ some y
    → (x : A) × (o ≡ some x) × (f x ≡ some y)
then-some none f y e = cc
then-some (some x) f y e = (x, refl, e)

module _ {Ty : Type 0} (dl : DataLayout Ty) where
  -- What is written keeps the size of the buffer.
  mutual
    unfolding write_constant write_operands

    pub write_constant-length :
        (c : Constant Ty) (mem next : List ℕ) (offset : ℕ)
        → write_constant dl c mem offset ≡ some next
        → length next ≡ length mem
    write_constant-length (zero_constant t) mem next offset e =
        store-length mem next offset (replicate (dl.alloc_size_of t) 0) e
    write_constant-length (int_constant t value) mem next offset e =
        copy_bytes-length mem next offset (le_bytes 8 value) (dl.alloc_size_of t) e
    write_constant-length (float_constant t raw) mem next offset e =
        copy_bytes-length mem next offset raw (dl.alloc_size_of t) e
    write_constant-length (struct_constant t cs) mem next offset e =
        write_operands-length cs (dl.element_offset t) 0 mem next offset e
    write_constant-length (array_constant t cs) mem next offset e =
        write_operands-length cs (λ i. i * dl.alloc_size_of t) 0 mem next offset e
    write_constant-length (data_array raw) mem next offset e = store-length mem next offset raw e
    write_constant-length (pointer_constant t none) mem next offset e =
        ap length (sym (some-injective mem next e))
    write_constant-length (pointer_constant t (some text)) mem next offset e =
        copy_bytes-length mem next offset (dl.pointer_bytes text) (dl.alloc_size_of t) e
    write_constant-length other_constant mem next offset e =
        ap length (sym (some-injective mem next e))

    write_operands-length :
        (cs : Constants Ty) (place : ℕ → ℕ) (i : ℕ) (mem next : List ℕ) (offset : ℕ)
        → write_operands dl cs place i mem offset ≡ some next
        → length next ≡ length mem
    write_operands-length no_operands place i mem next offset e =
        ap length (sym (some-injective mem next e))
    write_operands-length (operand c cs) place i mem next offset e =
        let (middle, first, second) =
          then-some (write_constant dl c mem (offset + place i))
            (λ m. write_operands dl cs place (suc i) m offset) next e in
        write_operands-length cs place (suc i) middle next offset second
        ∙ write_constant-length c mem middle (offset + place i) first

-- A copy of all bytes over a buffer of their number.
copy-over :
    (mem bytes : List ℕ)
    → length bytes ≡ length mem
    → copy_bytes mem 0 bytes (length bytes) ≡ some bytes
copy-over mem bytes e =
    let whole = take-of_le (length bytes) bytes (omega arith) in
    let self : leb (length bytes) (length bytes) ≡ true = ground arith in
    let rest : drop (0 + length bytes) mem ≡ [] = drop-of_le (0 + length bytes) mem (omega arith) in
    rw (self, whole) (store-fits mem 0 bytes (omega arith) ∙ rw rest (ap some (append-nil bytes)))

module _ {Ty : Type 0} (data_layout : Option (DataLayout Ty)) (malloc : ℕ → Bool) where
  -- A state that starts with the same bytes, with a module or without it, as the other one with it.
  abbrev pub StartsLike : StateDefaults Ty → StateDefaults Ty → Type 0
  StartsLike next info =
      (has_module : Bool)
      → allocate_state data_layout malloc has_module (some next)
        ≡ allocate_state data_layout malloc true (some info)

  allocate-fill :
      (has_module : Bool) (info : StateDefaults Ty) (bytes : List ℕ)
      → (let next : StateDefaults Ty = record info { default_bytes = bytes } in
          fill_state data_layout has_module next (replicate info.alloc_size 0)
          ≡ fill_state data_layout true info (replicate info.alloc_size 0))
      → allocate_state data_layout malloc has_module (some (record info { default_bytes = bytes }))
        ≡ allocate_state data_layout malloc true (some info)
  unfolding allocate_state
  allocate-fill has_module info bytes e = rw (allocate_state, e) refl

  -- A state with bytes, without a size or without a default starts the same way with a module or not.
  starts-bytes :
      (info : StateDefaults Ty) → not (length info.default_bytes == 0) ≡ true → StartsLike info info
  unfolding allocate_state fill_state
  starts-bytes info e has_module = rw (allocate_state, fill_state, e) refl

  starts-empty : (info : StateDefaults Ty) → info.alloc_size == 0 ≡ true → StartsLike info info
  unfolding allocate_state
  starts-empty info e has_module = elim (Bool-cases info.has_struct_type) [
    | inl t ↦ rw (allocate_state, t, e) refl
    | inr f ↦ rw (allocate_state, f) refl
  ]

  starts-plain : (info : StateDefaults Ty) → info.default_constant ≡ none → StartsLike info info
  unfolding allocate_state fill_state
  starts-plain info e has_module = rw (allocate_state, fill_state, e) refl

module _ {Ty : Type 0} (dl : DataLayout Ty) (malloc : ℕ → Bool) where
  -- The bytes of the constant are written into zeros, and then copied over zeros.
  starts-written :
      (info : StateDefaults Ty) (c : Constant Ty) (bytes : List ℕ)
      → not (length info.default_bytes == 0) ≡ false
      → info.alloc_size == 0 ≡ false
      → info.default_constant ≡ some c
      → write_constant dl c (replicate info.alloc_size 0) 0 ≡ some bytes
      → StartsLike (some dl) malloc (record info { default_bytes = bytes }) info
  unfolding fill_state
  starts-written info c bytes no_bytes sized constant written has_module =
      let zeros = replicate info.alloc_size 0 in
      let size : length bytes ≡ length zeros = write_constant-length dl c zeros bytes 0 written in
      let zeros_size : length zeros ≡ info.alloc_size = length-replicate info.alloc_size 0 in
      let some_bytes : not (length bytes == 0) ≡ true = ground (arith, size, zeros_size) in
      let not_less : ltb (length bytes) info.alloc_size ≡ false =
        ground (arith, size, zeros_size) in
      let copied : copy_bytes zeros 0 bytes info.alloc_size ≡ some bytes =
        ap (copy_bytes zeros 0 bytes) (sym (size ∙ zeros_size)) ∙ copy-over zeros bytes size in
      allocate-fill (some dl) malloc has_module info bytes
        (rw (fill_state, some_bytes, not_less, no_bytes, constant, written) copied)

  snapshot_with-StartsLike :
      (info next : StateDefaults Ty)
      → snapshot_with dl info ≡ some next
      → StartsLike (some dl) malloc next info
  unfolding snapshot_with
  snapshot_with-StartsLike info next e has_module =
      let like : StateDefaults Ty → Type 0 = λ n.
        allocate_state (some dl) malloc has_module (some n)
        ≡ allocate_state (some dl) malloc true (some info) in
      let unchanged : some info ≡ some next → like info → like next =
        λ same h. subst like (some-injective info next same) h in
      elim (Bool-cases (not (length info.default_bytes == 0))) [
        | inl bytes ↦
            unchanged (rw bytes at e) (starts-bytes (some dl) malloc info bytes has_module)
        | inr no_bytes ↦ elim (Bool-cases (info.alloc_size == 0)) [
          | inl empty ↦
              unchanged (rw (no_bytes, empty) at e)
                (starts-empty (some dl) malloc info empty has_module)
          | inr sized ↦ elim (Option-cases info.default_constant) [
            | inl plain ↦
                unchanged (rw (no_bytes, sized, plain) at e)
                  (starts-plain (some dl) malloc info plain has_module)
            | inr (c, constant) ↦
                let (bytes, written, same) =
                  then-some (write_constant dl c (replicate info.alloc_size 0) 0)
                    (λ bs. some (record info { default_bytes = bs })) next
                    (rw (no_bytes, sized, constant) at e) in
                subst like (some-injective (record info { default_bytes = bytes }) next same)
                  (starts-written info c bytes no_bytes sized constant written has_module)
          ]
        ]
      ]

module _ {Ty : Type 0} (malloc : ℕ → Bool) where
  -- Item by item.
  abbrev pub AllStartLike :
      Option (DataLayout Ty) → List (StateDefaults Ty) → List (StateDefaults Ty) → Type 0
  AllStartLike data_layout [] [] = Unit
  AllStartLike data_layout (next ∷ nexts) (info ∷ infos) =
      StartsLike data_layout malloc next info × AllStartLike data_layout nexts infos
  AllStartLike data_layout nexts infos = ⊥

  starts_no_layout :
      (info : StateDefaults Ty) (c : Constant Ty)
      → info.default_constant ≡ some c
      → StartsLike none malloc info info
  unfolding allocate_state fill_state
  starts_no_layout info c e true = refl
  starts_no_layout info c e false = rw (allocate_state, fill_state, e) refl

  no_layout : (infos : List (StateDefaults Ty)) → AllStartLike none infos infos
  no_layout [] = tt
  no_layout (info ∷ infos) = elim (Option-cases info.default_constant) [
    | inl e ↦ (starts-plain none malloc info e, no_layout infos)
    | inr (c, e) ↦ (starts_no_layout info c e, no_layout infos)
  ]

  snapshot_all-AllStartLike :
      (dl : DataLayout Ty) (infos nexts : List (StateDefaults Ty))
      → snapshot_all dl infos ≡ some nexts
      → AllStartLike (some dl) nexts infos
  snapshot_all-AllStartLike dl [] nexts e =
      subst (λ n. AllStartLike (some dl) n []) (some-injective [] nexts e) tt
  snapshot_all-AllStartLike dl (info ∷ infos) nexts e =
      let (next, first, later) =
        then-some (snapshot_with dl info)
          (λ n. elim (snapshot_all dl infos) as (λ x. Option (List (StateDefaults Ty))) [
            | none ↦ none
            | some rest ↦ some (n ∷ rest)
          ])
          nexts e in
      let (rest, others, same) =
        then-some (snapshot_all dl infos) (λ r. some (next ∷ r)) nexts later in
      subst (λ n. AllStartLike (some dl) n (info ∷ infos)) (some-injective (next ∷ rest) nexts same)
        (
          snapshot_with-StartsLike dl malloc info next first,
          snapshot_all-AllStartLike dl infos rest others,
        )

  -- The states of a map of which a snapshot is taken: each is then allocated, with a module or without
  -- it, as it would have been with the module before the snapshot: with the same bytes, and as a null
  -- pointer in the same cases.
  pub snapshot_state_defaults-AllStartLike :
      (data_layout : Option (DataLayout Ty)) (infos nexts : List (StateDefaults Ty))
      → snapshot_state_defaults data_layout infos ≡ some nexts
      → AllStartLike data_layout nexts infos
  unfolding snapshot_state_defaults
  snapshot_state_defaults-AllStartLike none infos nexts e =
      subst (λ n. AllStartLike none n infos) (some-injective infos nexts e) (no_layout infos)
  snapshot_state_defaults-AllStartLike (some dl) infos nexts e =
      snapshot_all-AllStartLike dl infos nexts e
