-- ===== src/Buffer/Ring/Overwritten.antt =====
-- The frame of a trigger that comes inside a block, where the buffer holds one frame.
use native.Mathlib.Nat.{mod-lt, mod-le, mod-eq-sub-mod}
use stridejit.Prelude.{
  Bool, List, [], ap, arith, drop, false, length, length-drop, refl, some, suc, sym, take,
  take-of_le, zero, ℕ, ◌%◌, ◌++◌, ◌+◌, ◌-◌, ◌<◌, ◌∙◌, ◌∷◌, ◌≡◌, ◌≤◌,
}
use stridejit.Buffer.Ring.{Ring, view_start, frame_copy_sized}
use stridejit.Buffer.Ring.Slots.{slot_back}
use stridejit.Buffer.Ring.Represents.{Stream, IsSized, Represents}
use stridejit.Buffer.Ring.View.{plain_window, block_start, whole_block}
use stridejit.Buffer.Ring.Frame.{view_sized-some, copy-some}

module _ {ℓ} {A : Type ℓ} where
  take-split : (r n k : ℕ) (xs : List A) → r + k ≡ n → take n xs ≡ take r xs ++ take k (drop r xs)
  take-split zero n k xs e = let same : n ≡ k = omega arith in ap (λ m. take m xs) same
  take-split (suc r) zero k xs e = absurd (omega arith)
  take-split (suc r) (suc n) zero [] e = refl
  take-split (suc r) (suc n) (suc k) [] e = refl
  take-split (suc r) (suc n) k (x ∷ xs) e = ap (λ l. x ∷ l) (take-split r n k xs (omega arith))

  -- In a buffer that holds one frame, without overlap, after a whole frame and then `r` samples, with
  -- `r` below the frame size: the copy of the frame is the `r` newest samples, and behind them those
  -- that came before them, so it is not in the order of the samples.
  pub overwritten-frame :
      (frame_size : ℕ) (has_trigger : Bool) (ring : Ring A) (s : Stream A)
      → IsSized frame_size frame_size frame_size false
      → Represents frame_size frame_size frame_size false has_trigger ring s
      → frame_size ≤ length s.samples
      → frame_copy_sized frame_size frame_size frame_size false ring
        ≡ some (
            drop (length s.samples - length s.samples % frame_size) s.samples
            ++ take
                (frame_size - length s.samples % frame_size)
                (drop (length s.samples - frame_size) s.samples))
  overwritten-frame c t ring s sized rep le =
      let n = length s.samples in
      let r = n % c in
      let p : 0 < c = sized.0 in
      let low = mod-lt n p in
      let less = mod-le n c in
      let (enough, q, multiple) = whole_block c c c n p le in
      let at_start : (n - r) % c ≡ 0 =
        omega (arith, slot_back n c (n - r) r (omega (arith, less)) (omega arith) low) in
      let block : (n - r - c) % c ≡ 0 = sym (mod-eq-sub-mod enough) ∙ at_start in
      let older : (n - c) % c ≡ r = sym (mod-eq-sub-mod le) in
      let size = rep.holds.length_is in
      let start : view_start c c c false ring.index ring.count ≡ 0 =
        rw (rep.index_is, rep.count_is) (block_start c c c n sized le ∙ block) in
      let viewed =
        view_sized-some c c c false ring 0 p (omega (arith, size)) (omega (arith, size)) start in
      let newest =
        plain_window c c c n ring.storage s.samples refl (n - r) r (omega (arith, at_start, low))
          (omega (arith, less)) (omega (arith, low)) p rep.holds in
      let oldest =
        plain_window c c c n ring.storage s.samples refl (n - c) (c - r) (omega (arith, older, low))
          (omega (arith, less)) (omega arith) p rep.holds in
      rw (frame_copy_sized, viewed)
        (copy-some c ring.storage (omega (arith, size))
          ∙ ap some (
              take-split r c (c - r) ring.storage (omega (arith, low))
              ∙ ap (λ l. l ++ take (c - r) (drop r ring.storage))
                  (ap (λ m. take r (drop m ring.storage)) (sym at_start)
                    ∙ newest
                    ∙ take-of_le r (drop (n - r) s.samples)
                        (omega (arith, length-drop (n - r) s.samples, less)))
              ∙ ap (λ l. drop (n - r) s.samples ++ l)
                  (ap (λ m. take (c - r) (drop m ring.storage)) (sym older) ∙ oldest)))
