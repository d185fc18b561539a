-- ===== src/Buffer/Ring/Pushes.antt =====
-- A push of BufferPushExprAST, against the stream that the ring stands for.
use native.Mathlib.Nat.{mod-lt, zero-mod}
use Prim.Native.Nat.{min}
use stridejit.Prelude.{
  ==_iff, Bool, Bool-cases, List, [], ap, arith, false, if◌then◌else◌, inl, inr, leb, length,
  length-append, ltb, ltb→le, ltb→lt, refl, some, suc, sym, true, ℕ, ◌%◌, ◌&&◌, ◌++◌, ◌-◌, ◌<◌,
  ◌==◌, ◌||◌, ◌∙◌, ◌∷◌, ◌≡◌, ◌≤◌,
}
use stridejit.Buffer.Ring.{Ring, add_i32, push_sized, advance, store_sample}
use stridejit.Buffer.Ring.Slots.{add_small, next_slot}
use stridejit.Buffer.Ring.Represents.{
  Stream, kept, push_stream, since_of, IsSized, Holds, Holds-nil, store_sample-Holds, Represents,
}

-- A frame is due after `n` samples without a trigger.
abbrev pub due : ℕ → ℕ → ℕ → Bool
due frame_size hop n = leb frame_size n && ((n - frame_size) % hop == 0)

module _ (capacity frame_size hop n : ℕ) (p : 0 < hop) (le : hop ≤ frame_size) where
  pub since_of-lt : since_of frame_size hop n < frame_size
  since_of-lt = elim (Bool-cases (ltb n frame_size)) [
    | inl e ↦ rw e (ltb→lt n frame_size e)
    | inr e ↦ rw e (omega (arith, mod-lt (n - frame_size) p))
  ]

  -- The count of samples since the last frame after one more sample.
  since_of-suc :
      (since_of frame_size hop (suc n)
        ≡ (if due frame_size hop (suc n) then 0 else suc (since_of frame_size hop n)))
      × (due frame_size hop (suc n)
          ≡ leb frame_size (suc n) && leb hop (suc (since_of frame_size hop n)))
  since_of-suc = elim (Bool-cases (ltb n frame_size)) [
    | inl e ↦
        let below : n < frame_size = ltb→lt n frame_size e in
        elim (Bool-cases (suc n == frame_size)) [
          | inl last ↦
              let first : suc n ≡ frame_size = (==_iff (suc n) frame_size).0 last in
              let same : suc n - frame_size ≡ 0 = omega arith in
              let start : (suc n - frame_size) % hop ≡ 0 = ap (λ m. m % hop) same ∙ zero-mod hop in
              ground (arith, start, below, first)
          | inr more ↦
              let short : suc n < frame_size = ground (arith, below) in ground (arith, below, short)
        ]
    | inr e ↦
        let above : frame_size ≤ n = ltb→le n frame_size e in
        let same : suc n - frame_size ≡ suc (n - frame_size) = omega arith in
        let next = ap (λ m. m % hop) same ∙ next_slot (n - frame_size) hop p in
        ground (arith, above, next, mod-lt (n - frame_size) p)
  ]

-- What makes a push set the trigger `ready`.
abbrev pub fires : Bool → Bool → Bool → Bool
fires has_trigger frame_ready trigger = if has_trigger then frame_ready || trigger else frame_ready

-- Without a trigger, a push fires when a frame is due.
fires-due :
    (has_trigger frame_due trigger restart : Bool)
    → has_trigger && (if has_trigger then trigger else restart) ≡ false
    → fires has_trigger frame_due trigger ≡ frame_due
fires-due true true trigger restart e = refl
fires-due true false trigger restart e = e
fires-due false frame_due trigger restart e = refl

length-snoc {ℓ} : {A : Type ℓ} (xs : List A) (v : A) → suc (length xs) ≡ length (xs ++ v ∷ [])
length-snoc xs v = omega (arith, length-append xs (v ∷ []))

module _ (capacity frame_size hop : ℕ) (mirrored : Bool)
    (sized : IsSized capacity frame_size hop mirrored) where
  next_index :
      (n : ℕ)
      → (if add_i32 (n % capacity) 1 == capacity then 0 else add_i32 (n % capacity) 1)
        ≡ suc n % capacity
  next_index n =
      let p : 0 < capacity = omega arith in
      let low = mod-lt n p in
      let one : add_i32 (n % capacity) 1 ≡ suc (n % capacity) =
        add_small (n % capacity) 1 (omega (arith, low)) ∙ omega arith in
      rw one (sym (next_slot n capacity p))

  inc_count : (n : ℕ) → add_i32 (min n capacity) 1 ≡ suc (min n capacity)
  inc_count n = add_small (min n capacity) 1 (omega arith) ∙ omega arith

  next_count :
      (n : ℕ)
      → (if ltb capacity (add_i32 (min n capacity) 1) then capacity else add_i32 (min n capacity) 1)
        ≡ min (suc n) capacity
  next_count n = rw (inc_count n) (ground arith)

  inc_since : (n : ℕ) → add_i32 (since_of frame_size hop n) 1 ≡ suc (since_of frame_size hop n)
  inc_since n =
      let low = since_of-lt capacity frame_size hop n sized.0 sized.1 in
      add_small (since_of frame_size hop n) 1 (omega (arith, low)) ∙ omega arith

  -- The test that the code makes, on the count and on the samples since the last frame.
  frame_ready :
      (n : ℕ)
      → leb frame_size (min (suc n) capacity) && leb hop (suc (since_of frame_size hop n))
        ≡ due frame_size hop (suc n)
  frame_ready n =
      let tested = (since_of-suc capacity frame_size hop n sized.0 sized.1).1 in
      let capped : leb frame_size (min (suc n) capacity) ≡ leb frame_size (suc n) = ground arith in
      ap (λ b. b && leb hop (suc (since_of frame_size hop n))) capped ∙ sym tested

  -- The state after the stores of a sample that follows `n` others.
  after {ℓ} : {A : Type ℓ} → (has_trigger trigger : Bool) → Ring A → ℕ → List A → Ring A
  after has_trigger trigger ring n storage =
      let fired = fires has_trigger (due frame_size hop (suc n)) trigger in
      record ring {
        storage = storage;
        index = suc n % capacity;
        count = min (suc n) capacity;
        since = if fired then 0 else suc (since_of frame_size hop n);
        ready = ring.ready || fired;
        flush = if has_trigger then trigger else ring.flush;
      }

  advance-after {ℓ} :
      {A : Type ℓ} (has_trigger trigger : Bool) (ring : Ring A) (n : ℕ) (storage : List A)
      → advance capacity frame_size hop has_trigger trigger ring
          (n % capacity)
          (min n capacity)
          (since_of frame_size hop n)
          storage
        ≡ after has_trigger trigger ring n storage
  unfolding advance after
  advance-after has_trigger trigger ring n storage =
      rw (next_count n, next_index n, inc_since n, frame_ready n) refl

  module _ {ℓ} {A : Type ℓ} (has_trigger : Bool) (ring : Ring A) (s : Stream A)
      (rep : Represents capacity frame_size hop mirrored has_trigger ring s) where
    -- A pending flush leaves no samples behind.
    settled :
        Holds capacity mirrored ring.storage (kept has_trigger s)
        × ((if has_trigger && ring.flush then 0 else ring.index)
            ≡ length (kept has_trigger s) % capacity)
        × ((if has_trigger && ring.flush then 0 else ring.count)
            ≡ min (length (kept has_trigger s)) capacity)
        × ((if has_trigger && ring.flush then 0 else ring.since)
            ≡ since_of frame_size hop (length (kept has_trigger s)))
    settled =
        let flushed : has_trigger && ring.flush ≡ has_trigger && s.restart =
          ap (λ b. has_trigger && b) rep.flush_is in
        elim (Bool-cases (has_trigger && s.restart)) [
          | inl e ↦
              rw (flushed, e)
                (
                  Holds-nil capacity mirrored ring.storage s.samples rep.holds,
                  sym (zero-mod capacity),
                  omega arith,
                  ground arith,
                )
          | inr e ↦ rw (flushed, e) (rep.holds, rep.index_is, rep.count_is, rep.since_is e)
        ]

    push_sized-after :
        (v : A) (trigger : Bool) (stored : List A)
        → store_sample mirrored capacity ring.storage (length (kept has_trigger s) % capacity) v
          ≡ some stored
        → push_sized capacity frame_size hop mirrored has_trigger ring v trigger
          ≡ some (after has_trigger trigger ring (length (kept has_trigger s)) stored)
    unfolding push_sized
    push_sized-after v trigger stored e =
        let (holds, index_is, count_is, since_is) = settled in
        rw
          (
            index_is,
            count_is,
            since_is,
            e,
            advance-after has_trigger trigger ring (length (kept has_trigger s)) stored,
          )
          refl

    after-Represents :
        (v : A) (trigger : Bool) (stored : List A)
        → Holds capacity mirrored stored (kept has_trigger s ++ v ∷ [])
        → Represents capacity frame_size hop mirrored has_trigger
            (after has_trigger trigger ring (length (kept has_trigger s)) stored)
            (push_stream has_trigger s v trigger)
    unfolding after
    after-Represents v trigger stored holds =
        let n = length (kept has_trigger s) in
        let longer = length-snoc (kept has_trigger s) v in
        let counted = (since_of-suc capacity frame_size hop n sized.0 sized.1).0 in
        record {
          holds = holds;
          index_is = ap (λ m. m % capacity) longer;
          count_is = ap (λ m. min m capacity) longer;
          since_is = λ e.
              rw (fires-due has_trigger (due frame_size hop (suc n)) trigger s.restart e)
                (sym counted ∙ ap (since_of frame_size hop) longer);
          flush_is = ap (λ b. if has_trigger then trigger else b) rep.flush_is;
        }

    after-ready :
        (v : A) (trigger : Bool) (stored : List A)
        → (after has_trigger trigger ring (length (kept has_trigger s)) stored).ready
          ≡ ring.ready
            || fires has_trigger
                (due frame_size hop (length (kept has_trigger s ++ v ∷ [])))
                trigger
    unfolding after
    after-ready v trigger stored =
        ap (λ n. ring.ready || fires has_trigger (due frame_size hop n) trigger)
          (length-snoc (kept has_trigger s) v)

    -- A push stays inside the storage, stands for the stream with the sample at its end, and sets
    -- `ready` when a frame is due or the trigger is on.
    pub push_sized-Represents :
        (v : A) (trigger : Bool)
        → (next : Ring A) × (push_sized capacity frame_size hop mirrored has_trigger ring v trigger
            ≡ some next)
          × Represents capacity frame_size hop mirrored has_trigger next
              (push_stream has_trigger s v trigger)
          × (next.ready
              ≡ ring.ready
                || fires has_trigger
                    (due frame_size hop (length (push_stream has_trigger s v trigger).samples))
                    trigger)
    push_sized-Represents v trigger =
        let xs = kept has_trigger s in
        let (stored, stores, holds) =
          store_sample-Holds capacity mirrored ring.storage xs v (omega arith) (omega arith)
            settled.0 in
        (
          after has_trigger trigger ring (length xs) stored,
          push_sized-after v trigger stored stores,
          after-Represents v trigger stored holds,
          after-ready v trigger stored,
        )
