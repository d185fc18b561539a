-- ===== src/Rate/Steps.antt =====
-- Differences of two numbers, as a phase keeps them.
use stridejit.Prelude.{
  arith, leb, leb_ℤ, ltb, ltb_ℤ, pos, sub_ℕ, wrap_i64, ℕ, ◌+ℤ◌, ◌+◌, ◌-ℤ◌, ◌<◌, ◌^◌, ◌≡◌, ◌≤◌,
}

module _ (a b : ℕ) where
  -- A step on the left, and one on the right.
  pub sub_ℕ-add : (d : ℕ) → sub_ℕ a b +ℤ pos d ≡ sub_ℕ (a + d) b
  sub_ℕ-add d = ground arith

  pub sub_ℕ-sub : (c : ℕ) → sub_ℕ a b -ℤ pos c ≡ sub_ℕ a (b + c)
  sub_ℕ-sub c = ground arith

  pub sub_ℕ-wrap : a < b + 2 ^ 63 → b ≤ a + 2 ^ 63 → wrap_i64 (sub_ℕ a b) ≡ sub_ℕ a b
  sub_ℕ-wrap h k = ground arith

  pub sub_ℕ-not_pos : leb_ℤ (sub_ℕ a b) (pos 0) ≡ leb a b
  sub_ℕ-not_pos = ground arith

  pub sub_ℕ-lt : (c : ℕ) → ltb_ℤ (sub_ℕ a b) (pos c) ≡ ltb a (b + c)
  sub_ℕ-lt c = ground arith
