-- ===== src/Runtime/Token/Join.antt =====
-- The pieces, joined by the delimiter, are the text; no delimiter starts inside a piece.
use stridejit.Prelude.{
  All, List, [], ap, arith, drop, drop-drop, drop-take, length, length-take, map, refl, suc, sym,
  take, take-append-drop, take-drop-take, zero, ℕ, ◌++◌, ◌+◌, ◌-◌, ◌<◌, ◌∙◌, ◌∷◌, ◌≡◌, ◌≤◌,
}
use stridejit.Runtime.View.{StringView, view, to_string}
use stridejit.Runtime.Search.Find.{OccursAt}
use stridejit.Runtime.Token.Pieces.{
  pieces, piece_view, Round, Round-next_delim, pieces-last, pieces-ends_at,
}

-- `d` between the texts of a list.
pub join : List ℕ → List (List ℕ) → List ℕ
join d [] = []
join d (t ∷ []) = t
join d (t ∷ u ∷ ts) = t ++ (d ++ join d (u ∷ ts))

abbrev IsCons {ℓ} : {A : Type ℓ} → List A → Type 0
IsCons [] = ⊥
IsCons (x ∷ xs) = Unit

join-cons :
    (d t : List ℕ) (ts : List (List ℕ)) → IsCons ts → join d (t ∷ ts) ≡ t ++ (d ++ join d ts)
unfolding join
join-cons d t [] h = absurd h
join-cons d t (u ∷ ts) h = refl

-- A text from `s` on, cut at `f` and `f + k`.
cut_lem :
    (t : List ℕ) (s f k : ℕ)
    → s ≤ f
    → take (f - s) (drop s t) ++ (take k (drop f t) ++ drop (f + k) t) ≡ drop s t
cut_lem t s f k h =
    rw
      (
        ← drop-drop k f (f + k) t (omega arith),
        take-append-drop k (drop f t),
        ← drop-drop (f - s) s f t (omega arith),
      )
      (take-append-drop (f - s) (drop s t))

IsCons-pos {ℓ} : {A : Type ℓ} (xs : List A) → IsCons xs → 0 < length xs
IsCons-pos [] h = absurd h
IsCons-pos (x ∷ xs) h = omega arith

IsCons-map {ℓ κ} :
    {A : Type ℓ} {B : Type κ} (g : A → B) (xs : List A) → IsCons xs → IsCons (map g xs)
IsCons-map g [] h = h
IsCons-map g (x ∷ xs) h = tt

-- No delimiter `d` starts in the text `t` at a position of the piece.
abbrev pub IsFree : List ℕ → List ℕ → ℕ × ℕ → Type 0
IsFree t d (s, l) = (j : ℕ) → s ≤ j → j < s + l → ¬ OccursAt t d j

module _ (b d : List ℕ) (n k : ℕ) (fits : n ≤ length b) (delim_fits : k ≤ length d)
    (some_delim : 0 < k) where
  abbrev src : StringView
  src = view b n

  abbrev delim : StringView
  delim = view d k

  abbrev piece_text : ℕ × ℕ → List ℕ
  piece_text p = to_string (piece_view src p)

  pieces-IsCons :
      (fuel start : ℕ) → start ≤ n → n + 1 < fuel + start → IsCons (pieces fuel src delim start)
  pieces-IsCons zero start h enough = absurd (omega arith)
  pieces-IsCons (suc fuel) start h enough =
      elim (Round-next_delim b d n k fits delim_fits some_delim start) [
        | Round.last e never ↦ rw (pieces-last b d n k fits delim_fits some_delim fuel start h e) tt
        | Round.ends_at f e lo hi here before ↦
            rw (pieces-ends_at b d n k fits delim_fits some_delim fuel start f h e) tt
      ]

  -- There is a piece.
  pub pieces_pos :
      (fuel start : ℕ) → start ≤ n → n + 1 < fuel + start → 0 < length (pieces fuel src delim start)
  pieces_pos fuel start h enough = IsCons-pos _ (pieces-IsCons fuel start h enough)

  delim_here : (f : ℕ) → OccursAt (take n b) (take k d) f → take k (drop f (take n b)) ≡ take k d
  delim_here f here =
      let size : length (take k d) ≡ k = omega (arith, length-take k d) in
      ap (λ (j : ℕ). take j (drop f (take n b))) (sym size) ∙ here

  pub pieces-join :
      (fuel start : ℕ)
      → start ≤ n
      → n + 1 < fuel + start
      → join (take k d) (map piece_text (pieces fuel src delim start)) ≡ drop start (take n b)
  pieces-join zero start h enough = absurd (omega arith)
  pieces-join (suc fuel) start h enough =
      elim (Round-next_delim b d n k fits delim_fits some_delim start) [
        | Round.last e never ↦
            rw (pieces-last b d n k fits delim_fits some_delim fuel start h e)
              (unfold join in sym (drop-take start n (n - start) b (omega arith)))
        | Round.ends_at f e lo hi here before ↦
            rw
              (
                pieces-ends_at b d n k fits delim_fits some_delim fuel start f h e,
                join-cons (take k d) (piece_text (start, f - start))
                    (map piece_text (pieces fuel src delim (f + k)))
                    (IsCons-map piece_text _ (pieces-IsCons fuel (f + k) hi (omega arith))),
                pieces-join fuel (f + k) hi (omega arith),
                ← take-drop-take (f - start) start n b (omega arith),
              )
              (rw (← delim_here f here) (cut_lem (take n b) start f k lo))
      ]

  pub pieces-IsFree :
      (fuel start : ℕ)
      → start ≤ n
      → n + 1 < fuel + start
      → All (IsFree (take n b) (take k d)) (pieces fuel src delim start)
  pieces-IsFree zero start h enough = absurd (omega arith)
  pieces-IsFree (suc fuel) start h enough =
      elim (Round-next_delim b d n k fits delim_fits some_delim start) [
        | Round.last e never ↦
            rw (pieces-last b d n k fits delim_fits some_delim fuel start h e)
              ((λ j p q. never j p), tt)
        | Round.ends_at f e lo hi here before ↦
            rw (pieces-ends_at b d n k fits delim_fits some_delim fuel start f h e)
              ((λ j p q. before j p (omega arith)), pieces-IsFree fuel (f + k) hi (omega arith))
      ]
