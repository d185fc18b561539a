-- ===== src/Buffer/Ring/Slots.antt =====
-- The slots of a ring of a given capacity, and sizes that fit in 31 bits.
use native.Mathlib.Nat.{
  mod-lt, mod-add-div, mod-eq_of_lt, add-mul-mod_self_left, mul-suc, suc-mod, mod_self,
}
use stridejit.Prelude.{
  ==_iff, Bool-cases, List, ap, arith, drop, if◌then◌else◌, inl, inr, leb, leb→le, leb→lt, length,
  lt→ltb, of_bits, pos, refl, set, some, suc, zero, ℕ, ◌%◌, ◌*◌, ◌+◌, ◌-◌, ◌/◌, ◌<◌, ◌==◌, ◌^◌, ◌∙◌,
  ◌≡◌, ◌≢◌, ◌≤◌,
}
use stridejit.Buffer.Ring.{bits_of, add_i32, sub_i32, store_at, view_at}

pub bits_of-small : (n : ℕ) → n < 2 ^ 31 → bits_of (pos n) ≡ n
bits_of-small n h = omega arith

pub of_bits-small : (n : ℕ) → n < 2 ^ 31 → of_bits n ≡ pos n
of_bits-small n h = rw (lt→ltb n (2 ^ 31) h) refl

pub add_small : (a b : ℕ) → a + b < 2 ^ 32 → add_i32 a b ≡ a + b
add_small a b h = mod-eq_of_lt h

pub sub_small : (a b : ℕ) → b ≤ a → a < 2 ^ 32 → sub_i32 a b ≡ a - b
sub_small a b h k = omega arith

module _ {ℓ} {A : Type ℓ} where
  pub store_at-small :
      (storage : List A) (slot : ℕ) (v : A)
      → slot < length storage
      → slot < 2 ^ 31
      → store_at storage slot v ≡ some (set storage slot v)
  store_at-small storage slot v h k = ground arith

  pub view_at-small :
      (storage : List A) (slot : ℕ)
      → slot < length storage
      → slot < 2 ^ 31
      → view_at storage slot ≡ some (drop slot storage)
  view_at-small storage slot h k = ground arith

-- The slot after a slot.
pub next_slot : (n c : ℕ) → 0 < c → suc n % c ≡ (if suc (n % c) == c then 0 else suc (n % c))
next_slot n c h = elim (Bool-cases (suc (n % c) == c)) [
  | inl e ↦
      let last = (==_iff (suc (n % c)) c).0 e in
      rw e (suc-mod n c ∙ ap (λ m. m % c) last ∙ mod_self c)
  | inr e ↦
      let below : suc (n % c) < c = ground (arith, mod-lt n h) in
      rw e (suc-mod n c ∙ mod-eq_of_lt below)
]

module _ (n c k d : ℕ) (back : k + d ≡ n) where
  -- The slot of a sample `d` steps back, on this side of the ring's start and on the other.
  pub slot_back : d ≤ n % c → n % c < c → k % c ≡ n % c - d
  slot_back h lt =
      let same : k ≡ n % c - d + c * (n / c) = omega (arith, mod-add-div n c) in
      let below : n % c - d < c = omega arith in
      ap (λ m. m % c) same ∙ add-mul-mod_self_left (n % c - d) c (n / c) ∙ mod-eq_of_lt below

  pub slot_round : n % c < d → d ≤ c → k % c ≡ n % c + c - d
  slot_round lt le = round (n / c) (mod-add-div n c)
    where
      round : (q : ℕ) → n % c + c * q ≡ n → k % c ≡ n % c + c - d
      round zero e = absurd (omega arith)
      round (suc q) e =
          let same : k ≡ n % c + c - d + c * q = omega (arith, mul-suc c q) in
          let below : n % c + c - d < c = omega arith in
          ap (λ m. m % c) same ∙ add-mul-mod_self_left (n % c + c - d) c q ∙ mod-eq_of_lt below

  -- Fewer samples back than the ring holds, the slot is another one.
  pub slot_ne : 0 < d → d < c → k % c ≢ n % c
  slot_ne h lt e = elim (Bool-cases (leb d (n % c))) [
    | inl le ↦
        omega (arith, leb→le d (n % c) le, slot_back (leb→le d (n % c) le) (mod-lt n (omega arith)))
    | inr gt ↦ omega (arith, slot_round (leb→lt d (n % c) gt) (omega arith))
  ]
