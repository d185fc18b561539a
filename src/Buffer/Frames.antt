-- ===== src/Buffer/Frames.antt =====
-- The arithmetic of sizes and frames, and lists of errors.
use native.Mathlib.Nat.{
  mod-lt, mod-add-div, div-add-mod, mul_assoc, add-mul-mod_self_left, mul-mod_left, mul-le-mul_left,
  lt_of_mul-lt-mul_left, mul-suc,
}
use stridejit.Prelude.{
  Bool, List, [], ap, arith, false, if◌then◌else◌, negsuc, pos, refl, some, sym, true, ℕ, ℤ, ◌%◌,
  ◌*◌, ◌++◌, ◌+ℤ◌, ◌+◌, ◌/◌, ◌<◌, ◌∙◌, ◌∷◌, ◌≡◌, ◌≤◌,
}
use stridejit.Buffer.{sliding, sizes_fit, divides, is_mirrored}

pub append-nil_left : {A : Type 0} (xs ys : List A) → xs ++ ys ≡ [] → (xs ≡ []) × (ys ≡ [])
append-nil_left [] ys e = (refl, e)
append-nil_left (x ∷ xs) ys e = cc

pub fifth-nil :
    {A : Type 0} (xs bs cs ds es fs : List A) → xs ++ bs ++ cs ++ ds ++ es ++ fs ≡ [] → es ≡ []
fifth-nil xs bs cs ds es fs h =
    let five = (append-nil_left (xs ++ bs ++ cs ++ ds ++ es) fs h).0 in
    (append-nil_left (xs ++ bs ++ cs ++ ds) es five).1

pub snoc-ne : {A : Type 0} (xs : List A) (x : A) → ¬ (xs ++ x ∷ [] ≡ [])
snoc-ne [] x e = cc
snoc-ne (y ∷ xs) x e = cc

-- A multiple of the hop, taken modulo a multiple of it, leaves room for a hop.
pub multiple_fits :
    (k hop capacity : ℕ) → capacity % hop ≡ 0 → 0 < capacity → k * hop % capacity + hop ≤ capacity
multiple_fits k hop capacity d q =
    let r = k * hop % capacity in
    let m = capacity / hop in
    let t = k * hop / capacity in
    let whole : hop * m ≡ capacity = omega (arith, div-add-mod capacity hop) in
    let split : r + capacity * t ≡ k * hop = mod-add-div (k * hop) capacity in
    let moved : capacity * t ≡ hop * (m * t) = ap (λ c. c * t) (sym whole) ∙ mul_assoc hop m t in
    let same : r + hop * (m * t) ≡ k * hop = ap (λ c. r + c) (sym moved) ∙ split in
    let even : r % hop ≡ 0 =
      sym (add-mul-mod_self_left r hop (m * t)) ∙ ap (λ c. c % hop) same ∙ mul-mod_left k hop in
    let whole_r : hop * (r / hop) ≡ r = omega (arith, div-add-mod r hop) in
    let below : hop * (r / hop) < hop * m = omega (arith, mod-lt (k * hop) q) in
    let room = mul-le-mul_left hop (lt_of_mul-lt-mul_left hop below) in
    omega (arith, room, mul-suc hop (r / hop))

pub sizes_fit_lem :
    (capacity : ℕ) (frame_size hop : ℤ)
    → sizes_fit capacity frame_size hop ≡ true
    → (n : ℕ) × (h : ℕ) × (frame_size ≡ pos n) × (hop ≡ pos h) × (n ≤ capacity) × (h ≤ n) × (0 < h)
sizes_fit_lem capacity (pos n) (pos h) e =
    (n, h, refl, refl, ground arith, ground arith, ground arith)
sizes_fit_lem capacity (pos n) (negsuc h) e = absurd (ground arith)
sizes_fit_lem capacity (negsuc n) (pos h) e = absurd (ground arith)
sizes_fit_lem capacity (negsuc n) (negsuc h) e = absurd (ground arith)

-- Where the storage is not doubled, the frames do not overlap and the hop divides the capacity.
pub not_mirrored :
    (capacity n h : ℕ)
    → is_mirrored sliding capacity (pos n) (pos h) ≡ some false
    → (n ≡ h) × (capacity % h ≡ 0)
not_mirrored capacity n h e = ground arith

pub frames_fit :
    (capacity n h : ℕ) (mirrored : Bool)
    → is_mirrored sliding capacity (pos n) (pos h) ≡ some mirrored
    → n ≤ capacity
    → 0 < capacity
    → (k : ℕ) → k * h % capacity + n ≤ (if mirrored then capacity + capacity else capacity)
frames_fit capacity n h true e p q k = omega (arith, mod-lt (k * h) q)
frames_fit capacity n h false e p q k =
    let (same, divides) = not_mirrored capacity n h e in
    omega (arith, multiple_fits k h capacity divides q)

pub stored :
    (c : ℕ) (b : Bool) → (if b then pos c +ℤ pos c else pos c) ≡ pos (if b then c + c else c)
stored c true = refl
stored c false = refl
