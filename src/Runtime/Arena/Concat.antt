-- ===== src/Runtime/Arena/Concat.antt =====
-- `__stride_jit_string_concat_n`: what it returns where the texts fit into the buffer, and that it
-- writes outside the buffer where they do not.
use native.Mathlib.Nat.{add-zero}
use mathlib.Core.List.{append_assoc, append-nil}
use stridejit.Prelude.{
  ==_iff, All, Bool-cases, List, Option, Option-cases, [], ap, arith, drop, drop-drop,
  if◌then◌else◌, inl, inr, length, length-append, length-drop, length-take, ltb, negsuc, none, pos,
  pos_part, refl, some, suc, sym, take, take-append-drop, take-of_le, true, zero, ℕ, ℤ, ◌++◌, ◌+◌,
  ◌<◌, ◌==◌, ◌^◌, ◌∙◌, ◌∷◌, ◌≡◌, ◌≤◌,
}
use stridejit.Runtime.View.{StringView, to_string, IsView}
use stridejit.Runtime.Arena.{
  Arena, arena_size, claim, memcpy, concat_view, concat_length, total_len, concat_loop, concat_at,
  concat_n,
}
use stridejit.Runtime.Arena.Memory.{
  IsArena, memcpy-after, length-memcpy, memcpy_overflow, claim_fits, written_text, length-written,
}

-- The texts of the views, one after the other.
pub concat_texts : List StringView → List ℕ
concat_texts [] = []
concat_texts (v ∷ vs) = to_string v ++ concat_texts vs

-- How many bytes they are.
unfoldable pub total_length : List StringView → ℕ
total_length [] = 0
total_length (v ∷ vs) = concat_length v + total_length vs

total_len-small :
    (sum : ℕ) (vs : List StringView)
    → sum + total_length vs < 2 ^ 31
    → total_len sum vs ≡ some (sum + total_length vs)
unfolding total_len total_length
total_len-small sum [] h = ap some (omega arith)
total_len-small sum (v ∷ vs) h =
    let inside : ltb (sum + concat_length v) (2 ^ 31) ≡ true = ground arith in
    let same : sum + concat_length v + total_length vs ≡ sum + (concat_length v + total_length vs) =
      omega arith in
    rw inside (total_len-small (sum + concat_length v) vs (omega arith) ∙ ap some same)

total_len-sum :
    (sum : ℕ) (vs : List StringView) (total : ℕ)
    → total_len sum vs ≡ some total
    → total ≡ sum + total_length vs
unfolding total_len total_length
total_len-sum sum [] total e = ground arith
total_len-sum sum (v ∷ vs) total e = elim (Bool-cases (ltb (sum + concat_length v) (2 ^ 31))) [
  | inl inside ↦
      let later = total_len-sum (sum + concat_length v) vs total (rw inside at e) in omega arith
  | inr outside ↦ let stuck : none ≡ some total = rw outside at e in cc
]

length-text :
    (o : Option (List ℕ)) (l : ℤ)
    → IsView (record { bytes = o; length = l })
    → length (to_string (record { bytes = o; length = l }))
      ≡ concat_length (record { bytes = o; length = l })
length-text none l h = refl
length-text (some b) l h = omega (arith, length-take (pos_part l) b)

length-to_string : (v : StringView) → IsView v → length (to_string v) ≡ concat_length v
length-to_string v h = length-text v.bytes v.length h

length-concat_texts :
    (vs : List StringView) → All IsView vs → length (concat_texts vs) ≡ total_length vs
unfolding concat_texts total_length
length-concat_texts [] h = refl
length-concat_texts (v ∷ vs) h = omega (
  arith,
  length-append (to_string v) (concat_texts vs),
  length-to_string v h.0,
  length-concat_texts vs h.1,
)

-- Nothing to copy.
no_bytes :
    (p : ℕ) (pre m : List ℕ)
    → ◌≡◌ {A = Option (List ℕ × ℕ)} (some (pre ++ m, p)) (some ((pre ++ []) ++ m, p + 0))
no_bytes p pre m = rw (append-nil, add-zero)

concat_view-text :
    (o : Option (List ℕ)) (l : ℤ) (p : ℕ) (pre m : List ℕ)
    → let v : StringView = record { bytes = o; length = l } in
      IsView v
      → p ≡ length pre
      → concat_length v ≤ length m
      → concat_view v p (pre ++ m)
        ≡ some ((pre ++ to_string v) ++ drop (concat_length v) m, p + concat_length v)
unfolding concat_view
concat_view-text none l p pre m h e k = no_bytes p pre m
concat_view-text (some s) (pos zero) p pre m h e k = no_bytes p pre m
concat_view-text (some s) (negsuc n) p pre m h e k = no_bytes p pre m
concat_view-text (some s) (pos (suc n)) p pre m h e k =
    ground (arith, memcpy-after pre m s (suc n) p e h k)

concat_loop-texts :
    (vs : List StringView) (p : ℕ) (pre m : List ℕ)
    → All IsView vs
    → p ≡ length pre
    → total_length vs ≤ length m
    → concat_loop vs p (pre ++ m) ≡ some ((pre ++ concat_texts vs) ++ drop (total_length vs) m)
unfolding concat_texts total_length concat_loop
concat_loop-texts [] p pre m h e k = rw append-nil
concat_loop-texts (v ∷ vs) p pre m h e k =
    rw
      (
        concat_view-text v.bytes v.length p pre m h.0 e (omega arith),
        ← append_assoc pre (to_string v) (concat_texts vs),
        ← drop-drop (total_length vs) (concat_length v) (concat_length v + total_length vs) m
            (omega arith),
      )
      (concat_loop-texts vs (p + concat_length v) (pre ++ to_string v) (drop (concat_length v) m)
        h.1 (omega (arith, length-append pre (to_string v), length-to_string v h.0))
        (omega (arith, length-drop (concat_length v) m)))

-- A loop that returns has not changed the size of the buffer.
length-concat_view :
    (v : StringView) (p : ℕ) (m : List ℕ) {r : List ℕ × ℕ}
    → concat_view v p m ≡ some r
    → length r.0 ≡ length m
unfolding concat_view
length-concat_view v p m h = elim (Option-cases v.bytes) [
  | inl e ↦ ground arith
  | inr (s, e) ↦ elim (Option-cases (memcpy m p s (pos_part v.length))) [
    | inl out ↦ ground arith
    | inr (m', done) ↦ ground (arith, length-memcpy m p s (pos_part v.length) done)
  ]
]

length-concat_loop :
    (vs : List StringView) (p : ℕ) (m : List ℕ) {m' : List ℕ}
    → concat_loop vs p m ≡ some m'
    → length m' ≡ length m
unfolding concat_loop
length-concat_loop [] p m h = ground arith
length-concat_loop (v ∷ vs) p m h = elim (Option-cases (concat_view v p m)) [
  | inl out ↦ ground arith
  | inr (r, done) ↦ length-concat_loop vs r.1 r.0 (ground arith) ∙ length-concat_view v p m done
]

-- A buffer `mem`, and a place `dest` in it with room for the texts and a terminator.
module _ (mem : List ℕ) (vs : List StringView) (dest : ℕ) (views : All IsView vs)
    (size : length mem ≡ arena_size) (room : dest + total_length vs + 1 ≤ arena_size) where
  abbrev text : List ℕ
  text = concat_texts vs

  abbrev pre : List ℕ
  pre = take dest mem

  abbrev m : List ℕ
  m = drop dest mem

  at_dest : dest ≡ length pre
  at_dest = omega (arith, room, size, length-take dest mem)

  loop : concat_loop vs dest mem ≡ some ((pre ++ text) ++ drop (length text) m)
  loop =
      ap (concat_loop vs dest) (sym (take-append-drop dest mem))
      ∙ concat_loop-texts vs dest pre m views at_dest (omega (arith, length-drop dest mem))
      ∙ ap (λ (j : ℕ). some ((pre ++ text) ++ drop j m)) (sym (length-concat_texts vs views))

  abbrev mem_after : List ℕ
  mem_after = ((pre ++ text) ++ 0 ∷ []) ++ drop 1 (drop (length text) m)

  concat_at-eq :
      concat_at mem vs dest (total_length vs)
      ≡ some (
        record { bytes = some (drop dest mem_after); length = pos (total_length vs) },
        record { mem = mem_after; offset = dest + total_length vs + 1 },
      )
  unfolding concat_at
  concat_at-eq =
      let size_text : length text ≡ total_length vs = length-concat_texts vs views in
      rw (
        loop,
        memcpy-after (pre ++ text) (drop (length text) m) (0 ∷ []) 1 (dest + total_length vs)
            (omega (arith, at_dest, length-append pre text)) (omega arith)
            (omega (arith, length-drop (length text) m, length-drop dest mem)),
      )

  concat_at-texts :
      (v : StringView) × (a' : Arena) × (concat_at mem vs dest (total_length vs) ≡ some (v, a'))
      × IsArena a'
      × (to_string v ≡ text)
  concat_at-texts =
      let size_text : length text ≡ total_length vs = length-concat_texts vs views in
      (
        _,
        _,
        concat_at-eq,
        record {
          sized =
              length-written pre text m (omega (arith, length-drop dest mem))
              ∙ (omega (arith, at_dest, length-drop dest mem));
          inside = room;
        },
        written_text pre text _ dest (total_length vs) at_dest (sym size_text),
      )

module _ (a : Arena) (vs : List StringView) (ok : IsArena a) where
  concat_n-eq :
      total_length vs < 2 ^ 31
      → concat_n a vs ≡ (
          if total_length vs == 0
          then some (record { bytes = some []; length = pos 0 }, a)
          else concat_at a.mem vs (claim a.offset (total_length vs)) (total_length vs))
  unfolding concat_n
  concat_n-eq small =
      let zero_sum : 0 + total_length vs ≡ total_length vs = omega arith in
      let summed : total_len 0 vs ≡ some (total_length vs) =
        total_len-small 0 vs (omega arith) ∙ ap some zero_sum in
      rw (concat_n, summed) refl

  -- For views inside their objects whose texts fit into 65535 bytes together, the concatenation
  -- stays in the buffer, leaves the arena well formed, and returns the texts one after the other.
  pub concat_n-texts :
      All IsView vs
      → total_length vs < arena_size
      → (v : StringView) × (a' : Arena) × (concat_n a vs ≡ some (v, a'))
        × IsArena a'
        × (to_string v ≡ concat_texts vs)
  concat_n-texts views fits = elim (Bool-cases (total_length vs == 0)) [
    | inl none_left ↦
        rw (concat_n-eq (omega (arith, fits)), none_left)
          (
            _,
            _,
            refl,
            ok,
            take-of_le 0 (concat_texts vs) (
                omega
                  (arith, length-concat_texts vs views, (==_iff (total_length vs) 0).0 none_left)),
          )
    | inr more ↦
        rw (concat_n-eq (omega (arith, fits)), more)
          (concat_at-texts a.mem vs (claim a.offset (total_length vs)) views ok.sized
            (claim_fits a.offset (total_length vs) ok.inside fits))
  ]

  overflows :
      (total : ℕ)
      → arena_size ≤ total_length vs
      → total ≡ 0 + total_length vs
      → (if total == 0
          then some (record { bytes = some []; length = pos 0 }, a)
          else concat_at a.mem vs (claim a.offset total) total)
        ≡ none
  unfolding concat_at
  overflows total long e =
      let dest = claim a.offset total in
      elim (Option-cases (concat_loop vs dest a.mem)) [
        | inl out ↦ ground (arith)
        | inr (m, done) ↦ ground (
          arith,
          memcpy_overflow m (dest + total) (0 ∷ []) 1
              (omega (arith, length-concat_loop vs dest a.mem done, ok.sized)),
        )
      ]

  -- Where the texts need more than 65535 bytes, the concatenation writes outside the buffer, or has
  -- already summed up more than an int32_t holds.
  pub concat_n-overflow : arena_size ≤ total_length vs → concat_n a vs ≡ none
  unfolding concat_n
  concat_n-overflow long = elim (Option-cases (total_len 0 vs)) [
    | inl undefined ↦ rw (concat_n, undefined) refl
    | inr (total, e) ↦ rw (concat_n, e) (overflows total long (total_len-sum 0 vs total e))
  ]
