-- ===== src/Runtime/Search/Bytes.antt =====
-- `memcmp` of src/strideruntime_string.cpp's callers, as an equation between prefixes.
use stridejit.Prelude.{List, [], arith, length, refl, suc, take, true, zero, ℕ, ◌∷◌, ◌≡◌, ◌≤◌}
use stridejit.Runtime.Search.{same_bytes}

pub same_bytes_sound :
    (a b : List ℕ) (n : ℕ)
    → n ≤ length a
    → n ≤ length b
    → same_bytes a b n ≡ true
    → take n a ≡ take n b
unfolding same_bytes
same_bytes_sound a b zero p q h = refl
same_bytes_sound [] b (suc n) p q h = absurd (omega arith)
same_bytes_sound (x ∷ a) [] (suc n) p q h = absurd (omega arith)
same_bytes_sound (x ∷ a) (y ∷ b) (suc n) p q h =
    ground (arith, same_bytes_sound a b n (omega arith) (omega arith))

pub same_bytes_complete : (a b : List ℕ) (n : ℕ) → take n a ≡ take n b → same_bytes a b n ≡ true
unfolding same_bytes
same_bytes_complete a b zero h = refl
same_bytes_complete [] [] (suc n) h = refl
same_bytes_complete [] (y ∷ b) (suc n) h = cc
same_bytes_complete (x ∷ a) [] (suc n) h = cc
same_bytes_complete (x ∷ a) (y ∷ b) (suc n) h = ground (arith, same_bytes_complete a b n)
