-- ===== src/Buffer/Ring/Represents.antt =====
-- What a ring stands for: the samples since the last flush, oldest first.
use mathlib.Core.Path.{subst}
use native.Mathlib.Nat.{mod-lt}
use Prim.Native.Nat.{min}
use stridejit.Prelude.{
  ==_iff, Bool, Bool-cases, List, [], ap, arith, false, get_elem?, get_elem?-append,
  get_elem?-set_ne, get_elem?-set_self, get_elem?-snoc, if◌then◌else◌, inl, inr, length,
  length-append, length-set, ltb, refl, set, some, sym, true, ℕ, ◌%◌, ◌&&◌, ◌++◌, ◌+◌, ◌-◌, ◌<◌,
  ◌==◌, ◌^◌, ◌∙◌, ◌∷◌, ◌≡◌, ◌≢◌, ◌≤◌,
}
use stridejit.Buffer.Ring.{Ring, store_sample, add_i32}
use stridejit.Buffer.Ring.Slots.{store_at-small, add_small, slot_ne}

-- The samples since the last flush, and whether the next sample starts anew.
pub record Stream {ℓ} (A : Type ℓ) : Type ℓ where
  pub samples : List A
  pub restart : Bool

-- The samples that the next one is appended to.
abbrev pub kept {ℓ} : {A : Type ℓ} → Bool → Stream A → List A
kept has_trigger s = if has_trigger && s.restart then [] else s.samples

abbrev pub push_stream {ℓ} : {A : Type ℓ} → Bool → Stream A → A → Bool → Stream A
push_stream has_trigger s v trigger = record {
  samples = kept has_trigger s ++ v ∷ [];
  restart = if has_trigger then trigger else s.restart;
}

-- The samples since the last frame, after `n` samples without a trigger.
abbrev pub since_of : ℕ → ℕ → ℕ → ℕ
since_of frame_size hop n = if ltb n frame_size then n else (n - frame_size) % hop

-- Sizes of a layout, with a storage of 31 bits.
abbrev pub IsSized : ℕ → ℕ → ℕ → Bool → Type 0
IsSized capacity frame_size hop mirrored =
    (0 < hop)
    × (hop ≤ frame_size)
    × (frame_size ≤ capacity)
    × (capacity + capacity < 2 ^ 31)
    × (mirrored ≡ false → (frame_size ≡ hop) × (capacity % hop ≡ 0))

module _ {ℓ} {A : Type ℓ} (capacity : ℕ) where
  -- The newest samples stand in the storage from `o` on, each at its number modulo the capacity.
  abbrev pub Band : ℕ → List A → List A → Type ℓ
  Band o storage xs =
      (k : ℕ)
      → k < length xs
      → length xs ≤ k + capacity
      → get_elem? storage (o + k % capacity) ≡ get_elem? xs k

  pub Band-nil : (o : ℕ) (storage : List A) → Band o storage []
  Band-nil o storage k h = absurd (omega arith)

  Band-same :
      (o j : ℕ) (storage xs : List A) (v : A)
      → 0 < capacity
      → j < length storage
      → j ≡ o + length xs % capacity
      → Band o storage xs
      → Band o (set storage j v) (xs ++ v ∷ [])
  Band-same o j storage xs v p room at_slot h k lt le = elim (Bool-cases (k == length xs)) [
    | inl e ↦
        let here : k ≡ length xs = (==_iff k (length xs)).0 e in
        subst (λ i. get_elem? (set storage j v) (o + i % capacity) ≡ get_elem? (xs ++ v ∷ []) i)
          (sym here)
          (ap (get_elem? (set storage j v)) (sym at_slot)
            ∙ get_elem?-set_self storage j v room
            ∙ sym (get_elem?-snoc xs v))
    | inr e ↦
        let before : k < length xs = ground (arith, length-append xs (v ∷ [])) in
        let near : length xs < k + capacity = omega (arith, length-append xs (v ∷ [])) in
        let other =
          slot_ne (length xs) capacity k (length xs - k) (omega arith) (omega arith)
            (omega arith) in
        get_elem?-set_ne storage j (o + k % capacity) v
          (λ same. other (omega (arith, same, at_slot)))
        ∙ h k before (omega arith)
        ∙ sym (get_elem?-append xs (v ∷ []) k before)
  ]

  Band-other :
      (o j : ℕ) (storage xs : List A) (v : A)
      → ((k : ℕ) → o + k % capacity ≢ j)
      → Band o storage xs
      → Band o (set storage j v) xs
  Band-other o j storage xs v ne h k lt le =
      get_elem?-set_ne storage j (o + k % capacity) v (ne k) ∙ h k lt le

  -- The storage holds the newest samples, twice where it is mirrored.
  pub record Holds (mirrored : Bool) (storage xs : List A) : Type ℓ where
    pub length_is : length storage ≡ (if mirrored then capacity + capacity else capacity)
    pub slots : Band 0 storage xs
    pub mirror : mirrored ≡ true → Band capacity storage xs

  pub Holds-nil :
      (mirrored : Bool) (storage xs : List A)
      → Holds mirrored storage xs
      → Holds mirrored storage []
  Holds-nil mirrored storage xs h = record {
    length_is = h.length_is;
    slots = Band-nil 0 storage;
    mirror = λ e. Band-nil capacity storage;
  }

  pub store_sample-Holds :
      (mirrored : Bool) (storage xs : List A) (v : A)
      → 0 < capacity
      → capacity + capacity < 2 ^ 31
      → Holds mirrored storage xs
      → (stored : List A) × (store_sample mirrored capacity storage (length xs % capacity) v
          ≡ some stored)
        × Holds mirrored stored (xs ++ v ∷ [])
  store_sample-Holds false storage xs v p small h =
      let slot = length xs % capacity in
      let low = mod-lt (length xs) p in
      let room : slot < length storage = omega (arith, low, h.length_is) in
      let once = store_at-small storage slot v room (omega (arith, low)) in
      let holds : Holds false (set storage slot v) (xs ++ v ∷ []) = record {
        length_is = length-set storage slot v ∙ h.length_is;
        slots = Band-same 0 slot storage xs v p room (omega arith) h.slots;
        mirror = λ e. cc;
      } in
      (set storage slot v, rw (store_sample, once) refl, holds)
  store_sample-Holds true storage xs v p small h =
      let slot = length xs % capacity in
      let low = mod-lt (length xs) p in
      let first = set storage slot v in
      let second = set first (capacity + slot) v in
      let room : slot < length storage = omega (arith, low, h.length_is) in
      let room' : capacity + slot < length first =
        omega (arith, low, h.length_is, length-set storage slot v) in
      let once = store_at-small storage slot v room (omega (arith, low)) in
      let there : add_i32 slot capacity ≡ capacity + slot =
        add_small slot capacity (omega (arith, low)) ∙ omega arith in
      let twice = store_at-small first (capacity + slot) v room' (omega (arith, low)) in
      let holds : Holds true second (xs ++ v ∷ []) = record {
        length_is = length-set first (capacity + slot) v ∙ length-set storage slot v ∙ h.length_is;
        slots =
            Band-other 0 (capacity + slot) first (xs ++ v ∷ []) v (λ k. omega (arith, mod-lt k p))
              (Band-same 0 slot storage xs v p room (omega arith) h.slots);
        mirror = λ e.
            Band-same capacity (capacity + slot) first xs v p room' refl
              (Band-other capacity slot storage xs v (λ k. omega (arith, low)) (h.mirror e));
      } in
      (second, rw (store_sample, once, there, twice) refl, holds)

-- The state after a number of samples. Where the next sample starts anew, the samples since the last
-- frame do not count.
pub record Represents {ℓ} {A : Type ℓ} (capacity frame_size hop : ℕ) (mirrored has_trigger : Bool)
    (ring : Ring A) (s : Stream A) : Type ℓ where
  pub holds : Holds capacity mirrored ring.storage s.samples
  pub index_is : ring.index ≡ length s.samples % capacity
  pub count_is : ring.count ≡ min (length s.samples) capacity
  pub since_is :
      has_trigger && s.restart ≡ false → ring.since ≡ since_of frame_size hop (length s.samples)
  pub flush_is : ring.flush ≡ s.restart
