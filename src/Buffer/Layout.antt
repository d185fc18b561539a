-- ===== src/Buffer/Layout.antt =====
-- The layout of a buffer that is declared without errors.
use stridejit.Prelude.{
  Bool, List, Option, String, [], ap, false, if◌then◌else◌, ltb_ℤ, none, not, pos, refl, set, some,
  true, ℕ, ℤ, ◌%◌, ◌*◌, ◌++◌, ◌+ℤ◌, ◌+◌, ◌<◌, ◌^◌, ◌∙◌, ◌∷◌, ◌≡◌, ◌≤◌,
}
use stridejit.Buffer.{
  Parser, Mode, sliding, Trigger, BufferError, BufferSpec, new_spec, storage_size, hop_of,
  sizes_fit, is_mirrored, capacity_errors, only_if, bad_sizes,
}
use stridejit.Buffer.Read.{eval_int, with_trigger}
use stridejit.Buffer.Frames.{fifth-nil, snoc-ne, sizes_fit_lem, frames_fit, not_mirrored}

-- Sizes that fit, and every frame that starts at a multiple of the hop in the ring lies inside the
-- storage without a break. Where the storage is not mirrored, frames do not overlap and fill it.
abbrev pub HasFrames : BufferSpec → Type 0
HasFrames spec =
    (capacity : ℕ) × (frame_size : ℕ) × (hop : ℕ) × (spec.capacity ≡ pos capacity)
    × (spec.frame_size ≡ pos frame_size)
    × (spec.hop ≡ pos hop)
    × (frame_size ≤ capacity)
    × (hop ≤ frame_size)
    × (0 < hop)
    × ((k : ℕ)
        → k * hop % capacity + frame_size
          ≤ (if spec.mirrored then capacity + capacity else capacity))
    × (spec.mirrored ≡ false → (frame_size ≡ hop) × (capacity % hop ≡ 0))

-- Twice the capacity is an i32.
abbrev pub IsSmall : BufferSpec → Type 0
IsSmall spec = ltb_ℤ (spec.capacity +ℤ spec.capacity) (pos (2 ^ 31)) ≡ true

-- Sizes that fit, and a storage that is as large as the slots of the ring.
abbrev pub IsLayout : BufferSpec → Type 0
IsLayout spec =
    HasFrames spec
    × (storage_size spec
        ≡ (if spec.mirrored then spec.capacity +ℤ spec.capacity else spec.capacity))

-- What is read without errors has sizes that fit.
abbrev pub IsGood : Option BufferSpec → Type 0
IsGood none = Unit
IsGood (some spec) = spec.errors ≡ [] → HasFrames spec

pub rejected-IsGood :
    (name : String) (capacity : ℤ) (mode : Mode) (es : List BufferError) (e : BufferError)
    → IsGood (some (new_spec name capacity mode (es ++ e ∷ [])))
rejected-IsGood name capacity mode es e h = absurd (snoc-ne es e h)

only_if_off : (b : Bool) (e : BufferError) → only_if (not b) e ≡ [] → b ≡ true
only_if_off true e h = refl
only_if_off false e h = cc

module _ (P : Parser) where
  open P use {Decl, Node, get_name}

  pub with_trigger-IsGood :
      (d : Decl) (capacity : ℕ) (trigger : Trigger) (has_hop : Bool) (hop_property : ℤ)
      (errors : List BufferError)
      → 0 < capacity
      → IsGood (with_trigger P d capacity sliding trigger has_hop hop_property errors)
  unfolding with_trigger
  with_trigger-IsGood d capacity trigger has_hop hop_property errors p =
      let (set, frame_size, frame_errors) = eval_int P d "frameSize" (pos capacity) in
      laid_out frame_size frame_errors (hop_of trigger has_hop hop_property capacity frame_size) _ _
        _
        (is_mirrored sliding capacity frame_size
          (hop_of trigger has_hop hop_property capacity frame_size))
        refl
    where
      laid_out :
          (frame_size : ℤ) (frame_errors : List BufferError) (hop : ℤ) (mismatch : List BufferError)
          (entity_name : String) (entity_errors : List BufferError) (o : Option Bool)
          → is_mirrored sliding capacity frame_size hop ≡ o
          → IsGood (elim o [
            | none ↦ none
            | some mirrored ↦ some (record {
              name = get_name d;
              capacity = pos capacity;
              frame_size = frame_size;
              hop = hop;
              mode = sliding;
              trigger = trigger;
              trigger_entity = entity_name;
              mirrored = mirrored;
              errors =
                  errors
                  ++ frame_errors
                  ++ capacity_errors trigger capacity
                  ++ mismatch
                  ++ only_if (not (sizes_fit capacity frame_size hop)) bad_sizes
                  ++ entity_errors;
            })
          ])
      laid_out frame_size frame_errors hop mismatch entity_name entity_errors none e = tt
      laid_out frame_size frame_errors hop mismatch entity_name entity_errors (some mirrored) e =
          λ h.
            let h5 =
              fifth-nil errors frame_errors (capacity_errors trigger capacity) mismatch
                (only_if (not (sizes_fit capacity frame_size hop)) bad_sizes) entity_errors h in
            let (n, k, frame_is, hop_is, le, le', low) =
              sizes_fit_lem capacity frame_size hop
                (only_if_off (sizes_fit capacity frame_size hop) bad_sizes h5) in
            let decided : is_mirrored sliding capacity (pos n) (pos k) ≡ some mirrored =
              rw (frame_is, hop_is) at e in
            (
              capacity,
              n,
              k,
              refl,
              frame_is,
              hop_is,
              le,
              le',
              low,
              frames_fit capacity n k mirrored decided le p,
              λ plain. not_mirrored capacity n k (decided ∙ ap some plain),
            )
