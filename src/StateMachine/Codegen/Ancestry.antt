-- ===== src/StateMachine/Codegen/Ancestry.antt =====
-- The walk over the parents: it ends, and leads from a state to the outermost one around it.
use mathlib.Core.Option.{some-injective, none-ne-some}
use mathlib.Core.Path.{subst}
use native.Mathlib.Decide.{ℕ_discrete}
use stridejit.Prelude.{
  All, Bool-cases, List, Option, Option-cases, [], ap, arith, inl, inr, length, minus_one, negsuc,
  none, pos, refl, some, suc, zero, ℕ, ℤ, ◌+◌, ◌<◌, ◌==◌, ◌∷◌, ◌≡◌, ◌≤◌,
}
use stridejit.StateMachine.{FlattenedState, state_with_id}
use stridejit.StateMachine.Flatten.{◌>>=◌}
use stridejit.StateMachine.Flatten.Numbered.{Numbered, IsParent}
use stridejit.StateMachine.Process.Leaf.{HasId}
use stridejit.StateMachine.Codegen.{ancestry, ancestors}

IsParent-le : (i k : ℕ) (j : ℤ) → i ≤ k → IsParent i j → IsParent k j
IsParent-le i k (pos p) le h = (h.0, omega (arith, h.1))
IsParent-le i k (negsuc m) le h = h

module _ {D C : Type 0} where
  -- Each state is the parent of the one before it, from the one with the id `i` to one without a
  -- parent.
  abbrev pub LeadsOut : ℤ → List (FlattenedState D C) → Type 0
  LeadsOut i [] = i ≡ minus_one
  LeadsOut i (s ∷ ss) = (pos s.id ≡ i) × LeadsOut s.parent_id ss

  -- In a numbered list the state with an id is found, its parent precedes it.
  pub state_with_id-Numbered :
      (k : ℕ) (states : List (FlattenedState D C)) (i : ℕ)
      → Numbered k states
      → k ≤ i
      → i < k + length states
      → (fs : FlattenedState D C) × (state_with_id states i ≡ some fs)
        × (fs.id ≡ i)
        × IsParent i fs.parent_id
  unfolding state_with_id
  state_with_id-Numbered k [] i h p q = absurd (omega arith)
  state_with_id-Numbered k (s ∷ ss) i h p q = elim (ℕ_discrete s.id i) [
    | yes e ↦ (s, ground arith, e, rw e at h.1)
    | no n ↦
        let (fs, e, same, parent) =
          state_with_id-Numbered (k + 1) ss i h.2 (omega (arith, h.0)) (omega arith) in
        (fs, ground arith, same, parent)
  ]

  pub HasId-bounds :
      (k : ℕ) (states : List (FlattenedState D C)) (i : ℕ)
      → Numbered k states
      → HasId i states
      → (k ≤ i) × (i < k + length states)
  HasId-bounds k [] i h p = absurd p
  HasId-bounds k (s ∷ ss) i h (inl e) = (omega (arith, h.0), omega (arith, h.0))
  HasId-bounds k (s ∷ ss) i h (inr p) =
      let (low, high) = HasId-bounds (k + 1) ss i h.2 p in (omega arith, omega arith)

  ancestry-LeadsOut :
      (fuel : ℕ) (states : List (FlattenedState D C)) (j : ℤ)
      → Numbered 1 states
      → IsParent (suc fuel) j
      → IsParent (1 + length states) j
      → (walk : List (FlattenedState D C)) × (ancestry (suc fuel) states j ≡ some walk)
        × LeadsOut j walk
  unfolding ancestry
  ancestry-LeadsOut fuel states (negsuc m) h p q = ([], refl, ap negsuc p)
  ancestry-LeadsOut zero states (pos i) h p q = absurd (omega (arith, p.0, p.1))
  ancestry-LeadsOut (suc fuel) states (pos i) h p q =
      let (fs, found, same, parent) = state_with_id-Numbered 1 states i h q.0 q.1 in
      let (rest, e, out) =
        ancestry-LeadsOut fuel states fs.parent_id h
          (IsParent-le i (suc fuel) fs.parent_id (omega (arith, p.1)) parent)
          (IsParent-le i (1 + length states) fs.parent_id (omega (arith, q.1)) parent) in
      (fs ∷ rest, rw (ancestry, found, e) refl, (ap pos same, out))

  -- The walk from a state of a numbered list ends; it goes from the state to its parent, to the
  -- parent of that, and so on to a state that has none.
  pub ancestors-LeadsOut :
      (states : List (FlattenedState D C)) (i : ℕ)
      → Numbered 1 states
      → HasId i states
      → (walk : List (FlattenedState D C)) × (ancestors states i ≡ some walk)
        × LeadsOut (pos i) walk
  ancestors-LeadsOut states i h p =
      let (low, high) = HasId-bounds 1 states i h p in
      let (walk, e, out) =
        ancestry-LeadsOut (length states) states (pos i) h (low, omega arith) (low, high) in
      (walk, e, out)

  state_with_id-All :
      (Q : FlattenedState D C → Type 0) (states : List (FlattenedState D C)) (i : ℕ)
      (fs : FlattenedState D C)
      → All Q states
      → state_with_id states i ≡ some fs
      → Q fs
  unfolding state_with_id
  state_with_id-All Q [] i fs h e = cc
  state_with_id-All Q (s ∷ ss) i fs h e = elim (Bool-cases (s.id == i)) [
    | inl hit ↦ let here : s ≡ fs = ground arith in rw here at h.0
    | inr miss ↦ state_with_id-All Q ss i fs h.1 (ground arith)
  ]

  -- What holds of all the states holds of those of a walk.
  module _ (Q : FlattenedState D C → Type 0) (states : List (FlattenedState D C))
      (every : All Q states) where
    step-All :
        (fuel : ℕ) (o : Option (FlattenedState D C)) (walk : List (FlattenedState D C))
        → ((fs : FlattenedState D C) → o ≡ some fs → Q fs)
        → ((j : ℤ) (rest : List (FlattenedState D C))
            → ancestry fuel states j ≡ some rest
            → All Q rest)
        → elim o [
          | none ↦ some []
          | some fs ↦ ancestry fuel states fs.parent_id >>= λ rest. some (fs ∷ rest)
        ]
          ≡ some walk
        → All Q walk
    step-All fuel none walk q next e =
        let none_left : [] ≡ walk = some-injective _ _ e in subst (All Q) none_left tt
    step-All fuel (some fs) walk q next e =
        elim (Option-cases (ancestry fuel states fs.parent_id)) [
          | inl e' ↦ absurd (none-ne-some walk (rw e' at e))
          | inr (rest, e') ↦
              let both : fs ∷ rest ≡ walk = some-injective _ _ (rw e' at e) in
              subst (All Q) both (q fs refl, next fs.parent_id rest e')
        ]

    pub ancestry-All :
        (fuel : ℕ) (j : ℤ) (walk : List (FlattenedState D C))
        → ancestry fuel states j ≡ some walk
        → All Q walk
    unfolding ancestry
    ancestry-All zero j walk e = cc
    ancestry-All (suc fuel) (negsuc m) walk e =
        let none_left : [] ≡ walk = some-injective _ _ e in subst (All Q) none_left tt
    ancestry-All (suc fuel) (pos i) walk e =
        step-All fuel (state_with_id states i) walk (λ fs. state_with_id-All Q states i fs every)
          (λ j rest. ancestry-All fuel j rest) e
