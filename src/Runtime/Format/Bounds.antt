-- ===== src/Runtime/Format/Bounds.antt =====
-- `__stride_jit_string_format` and its buffer.
use native.Mathlib.Nat.{le_refl}
use mathlib.Core.Path.{subst}
use stridejit.Prelude.{
  All, List, Option, [], ap, arith, drop, inl, inr, length, none, pos, refl, some, sym, take, ℕ,
  ◌++◌, ◌+◌, ◌-◌, ◌<◌, ◌∙◌, ◌∷◌, ◌≡◌, ◌≤◌, ◌⊎◌,
}
use stridejit.Runtime.View.{StringView, view, to_string}
use stridejit.Runtime.Arena.{Arena, arena_size, splice}
use stridejit.Runtime.Arena.Memory.{IsArena, length-splice, spliced_text}
use stridejit.Runtime.Format.{
  FormatArg, RealFormat, int_arg, real_arg, switch_arg, string_arg, other_arg, format_loop,
  format_claim, format,
}
use stridejit.Runtime.Format.Within.{Within, Harmless, format_loop-Within}

-- Where nothing is asked of them, all arguments will do.
All-Harmless : {R : Type 0} (args : List (FormatArg R)) → All (Harmless Unit) args
All-Harmless [] = tt
All-Harmless (int_arg n ∷ args) = (tt, All-Harmless args)
All-Harmless (real_arg x ∷ args) = (tt, All-Harmless args)
All-Harmless (switch_arg n ∷ args) = (tt, All-Harmless args)
All-Harmless (string_arg v ∷ args) = (inr tt, All-Harmless args)
All-Harmless (other_arg ∷ args) = (tt, All-Harmless args)

-- A buffer after a text and its terminator are written at `dest`.
splice-IsArena :
    (mem xs : List ℕ) (dest size : ℕ)
    → length mem ≡ arena_size
    → dest + size + 1 ≤ arena_size
    → IsArena (record { mem = splice dest xs mem; offset = dest + size + 1 })
splice-IsArena mem xs dest size e h = record { sized = length-splice dest xs mem ∙ e; inside = h }

module _ {R : Type 0} (print_real : RealFormat → R → List ℕ) (a : Arena) (f : List ℕ) (n : ℕ)
    (args : List (FormatArg R)) (ok : IsArena a) (fits : n ≤ length f) where
  abbrev dest : ℕ
  dest = format_claim a.offset

  abbrev text : List ℕ
  text = take n f

  abbrev written : Option (List ℕ)
  written = format_loop print_real (length text) (arena_size - dest - 1) text args []

  dest_fits : dest + 1 ≤ arena_size
  dest_fits = let h : a.offset ≤ arena_size = ok.inside in ground arith

  written-Within : (N : Type 0) → All (Harmless N) args → Within N (arena_size - dest - 1) written
  written-Within N h =
      format_loop-Within print_real N (arena_size - dest - 1) (length text) text args []
        (le_refl (length text)) h (omega arith)

  format-none : 0 < n → written ≡ none → format print_real a (view f n) args ≡ none
  unfolding format
  format-none p e = ground arith

  format-some :
      (o : List ℕ)
      → 0 < n
      → written ≡ some o
      → format print_real a (view f n) args
        ≡ some (
          record {
            bytes = some (drop dest (splice dest (o ++ 0 ∷ []) a.mem));
            length = pos (length o);
          },
          record { mem = splice dest (o ++ 0 ∷ []) a.mem; offset = dest + length o + 1 },
        )
  unfolding format
  format-some o p e = ground arith

  -- What is known of a text that was written.
  pub outcome :
      (o : List ℕ)
      → 0 < n
      → written ≡ some o
      → length o ≤ arena_size - dest - 1
      → (v : StringView) × (a' : Arena) × (format print_real a (view f n) args ≡ some (v, a'))
        × IsArena a'
        × (to_string v ≡ o)
  outcome o p e within = (
    _,
    _,
    format-some o p e,
    splice-IsArena a.mem (o ++ 0 ∷ []) dest (length o) ok.sized (omega (arith, dest_fits)),
    spliced_text a.mem o dest (omega (arith, dest_fits, ok.sized)),
  )

  format-cases :
      (N : Type 0)
      → 0 < n
      → All (Harmless N) args
      → (format print_real a (view f n) args ≡ none) × N
        ⊎ ((o : List ℕ) × (written ≡ some o) × (length o ≤ arena_size - dest - 1))
  format-cases N p h = cases written refl (written-Within N h)
    where
      cases :
          (r : Option (List ℕ))
          → written ≡ r
          → Within N (arena_size - dest - 1) r
          → (format print_real a (view f n) args ≡ none) × N
            ⊎ ((o : List ℕ) × (written ≡ some o) × (length o ≤ arena_size - dest - 1))
      cases none e w = inl (format-none p e, w)
      cases (some o) e w = inr (o, e, w)

  -- Formatting without a number among the arguments, and with views inside their objects, never
  -- leaves an object: the loop over the format ends within as many rounds as the format has bytes,
  -- what it has written is the result, and the arena stays well formed.
  pub format_total :
      0 < n
      → All (Harmless ⊥) args
      → (v : StringView) × (a' : Arena) × (format print_real a (view f n) args ≡ some (v, a'))
        × IsArena a'
        × (format_loop print_real (length text) (arena_size - dest - 1) text args []
            ≡ some (to_string v))
  format_total p h = elim (format-cases ⊥ p h) [
    | inl (e, impossible) ↦ absurd impossible
    | inr (o, e, w) ↦
        let (v, a', done, ok', t) = outcome o p e w in (v, a', done, ok', e ∙ ap some (sym t))
  ]

  -- Whatever the arguments are, a formatting that returns leaves the arena well formed.
  pub format-IsArena :
      (v : StringView) (a' : Arena)
      → 0 < n
      → format print_real a (view f n) args ≡ some (v, a')
      → IsArena a'
  format-IsArena v a' p e = elim (format-cases Unit p (All-Harmless args)) [
    | inl (fault, _) ↦ absurd (ground arith)
    | inr (o, e', w) ↦
        let (v', a'', done, ok', t) = outcome o p e' w in
        let same : a'' ≡ a' = cc (done, e) in subst IsArena same ok'
  ]
