-- ===== src/Runtime/Format/Within.antt =====
-- `appendBytes` and the loop of `__stride_jit_string_format` keep within the room that is left.
use native.Mathlib.Nat.{le_refl}
use stridejit.Prelude.{
  All, Bool, Bool-cases, List, Option, Option-cases, [], arith, drop, eqb_ℤ, false, if◌then◌else◌,
  inl, inr, leb, leb→lt, length, length-append, length-drop, length-take, ltb, none, not, pos,
  pos_part, refl, some, suc, take, true, zero, ℕ, ℤ, ◌&&◌, ◌++◌, ◌+◌, ◌-◌, ◌<◌, ◌==◌, ◌||◌, ◌∷◌,
  ◌≡◌, ◌≤◌, ◌⊎◌,
}
use stridejit.Runtime.View.{IsView}
use stridejit.Runtime.Arena.{◌>>=◌}
use stridejit.Runtime.Format.{
  FormatArg, RealFormat, Spec, parse_spec, int_arg, real_arg, switch_arg, string_arg, other_arg,
  append_bytes, append_pad, num_buf, int_text, real_format, switch_text, find_close, put_arg,
  put_next, rest_args, next_is, format_loop,
}

-- A result that keeps within `max_avail` bytes; `N` is what no result shows.
abbrev pub Within : Type 0 → ℕ → Option (List ℕ) → Type 0
Within N max_avail none = N
Within N max_avail (some out) = length out ≤ max_avail

-- The arguments that cannot make the formatting fail, or any where `N` holds.
abbrev pub Harmless : {R : Type 0} → Type 0 → FormatArg R → Type 0
Harmless N (int_arg n) = N
Harmless N (real_arg x) = N
Harmless N (switch_arg n) = Unit
Harmless N (string_arg v) = IsView v ⊎ N
Harmless N other_arg = Unit

module _ (N : Type 0) (max_avail : ℕ) where
  Within-bind :
      (r : Option (List ℕ)) (f : List ℕ → Option (List ℕ))
      → Within N max_avail r
      → ((o : List ℕ) → length o ≤ max_avail → Within N max_avail (f o))
      → Within N max_avail (r >>= f)
  Within-bind none f h k = h
  Within-bind (some o) f h k = k o h

  Within-if :
      (b : Bool) (x y : Option (List ℕ))
      → Within N max_avail x
      → Within N max_avail y
      → Within N max_avail (if b then x else y)
  Within-if true x y h k = h
  Within-if false x y h k = k

  -- The bytes that `appendBytes` copies.
  abbrev room_for : ℕ → List ℕ → ℕ
  room_for len out = if ltb max_avail (length out + len) then max_avail - length out else len

  room_for-le : (len : ℕ) (out : List ℕ) → room_for len out ≤ len
  room_for-le len out = ground arith

  copied :
      (src : List ℕ) (len : ℕ) (out : List ℕ)
      → length out ≤ max_avail
      → length (out ++ take (room_for len out) src) ≤ max_avail
  copied src len out h =
      let fits : length out + room_for len out ≤ max_avail = ground arith in
      omega
        (arith, length-append out (take (room_for len out) src), length-take (room_for len out) src)

  append_bytes-Within :
      (src : List ℕ) (len : ℕ) (out : List ℕ)
      → (len ≤ length src) ⊎ N
      → length out ≤ max_avail
      → Within N max_avail (append_bytes max_avail src len out)
  unfolding append_bytes
  append_bytes-Within src len out h k = elim (Bool-cases (len == 0 || leb max_avail (length out))) [
    | inl full ↦ rw full k
    | inr more ↦ elim (Bool-cases (leb (room_for len out) (length src))) [
      | inl inside ↦ rw (more, inside) (copied src len out k)
      | inr past ↦
          rw (more, past)
            (elim h [
              | inl fits ↦
                  absurd (
                    omega (arith, room_for-le len out, leb→lt (room_for len out) (length src) past))
              | inr n ↦ n
            ])
    ]
  ]

  append_pad-Within :
      (n : ℕ) (out : List ℕ)
      → length out ≤ max_avail
      → Within N max_avail (append_pad max_avail n out)
  unfolding append_pad
  append_pad-Within zero out h = h
  append_pad-Within (suc n) out h =
      Within-bind (append_bytes max_avail (b' ' ∷ []) 1 out) (append_pad max_avail n)
        (append_bytes-Within (b' ' ∷ []) 1 out (inl (omega arith)) h) (append_pad-Within n)

-- What the loop over the format does to the output, for arguments that cannot make it fail.
module _ {R : Type 0} (print_real : RealFormat → R → List ℕ) (N : Type 0) (max_avail : ℕ) where
  string-Within :
      (o : Option (List ℕ)) (l : ℤ) (s : Spec) (out : List ℕ)
      → IsView (record { bytes = o; length = l }) ⊎ N
      → length out ≤ max_avail
      → Within N max_avail
          (put_arg print_real max_avail s (string_arg (record { bytes = o; length = l })) out)
  unfolding put_arg
  string-Within none l s out h k = append_pad-Within N max_avail s.width out k
  string-Within (some b) l s out h k =
      Within-bind N max_avail (append_pad max_avail (s.width - pos_part l) out)
        (append_bytes max_avail b (pos_part l))
        (append_pad-Within N max_avail (s.width - pos_part l) out k)
        (λ o p. append_bytes-Within N max_avail b (pos_part l) o h p)

  pub put_arg-Within :
      (s : Spec) (arg : FormatArg R) (out : List ℕ)
      → Harmless N arg
      → length out ≤ max_avail
      → Within N max_avail (put_arg print_real max_avail s arg out)
  put_arg-Within s (int_arg n) out h k =
      unfold put_arg in
      append_bytes-Within N max_avail (num_buf (int_text s n)) (length (int_text s n)) out (inr h) k
  put_arg-Within s (real_arg x) out h k =
      let t = print_real (real_format s) x in
      unfold put_arg in append_bytes-Within N max_avail (num_buf t) (length t) out (inr h) k
  put_arg-Within s (switch_arg n) out h k =
      let t = switch_text s.type_char (not (eqb_ℤ n (pos 0))) in
      unfold put_arg in
      append_bytes-Within N max_avail t (length t) out (inl (le_refl (length t))) k
  put_arg-Within s (string_arg v) out h k = string-Within v.bytes v.length s out h k
  put_arg-Within s other_arg out h k = unfold put_arg in k

  put_next-Within :
      (spec : List ℕ) (args : List (FormatArg R)) (out : List ℕ)
      → All (Harmless N) args
      → length out ≤ max_avail
      → Within N max_avail (put_next print_real max_avail spec args out)
  put_next-Within spec [] out h k = k
  put_next-Within spec (arg ∷ args) out h k = put_arg-Within (parse_spec spec) arg out h.0 k

rest_args-All :
    {R : Type 0} (N : Type 0) (args : List (FormatArg R))
    → All (Harmless N) args
    → All (Harmless N) (rest_args args)
rest_args-All N [] h = h
rest_args-All N (arg ∷ args) h = h.1

length-find_close :
    (p : List ℕ) (r : List ℕ × List ℕ) → find_close p ≡ some r → length r.1 < length p
unfolding find_close
length-find_close [] r h = cc
length-find_close (c ∷ p) r h = elim (Option-cases (find_close p)) [
  | inl e ↦ ground arith
  | inr (q, e) ↦ ground (arith, length-find_close p q e)
]

module _ {R : Type 0} (print_real : RealFormat → R → List ℕ) (N : Type 0) (max_avail : ℕ) where
  byte-Within :
      (c : ℕ) (out : List ℕ) (next : List ℕ → Option (List ℕ))
      → length out ≤ max_avail
      → ((o : List ℕ) → length o ≤ max_avail → Within N max_avail (next o))
      → Within N max_avail (append_bytes max_avail (c ∷ []) 1 out >>= next)
  byte-Within c out next k step =
      Within-bind N max_avail (append_bytes max_avail (c ∷ []) 1 out) next
        (append_bytes-Within N max_avail (c ∷ []) 1 out (inl (omega arith)) k) step

  closed-Within :
      (o : Option (List ℕ × List ℕ)) (x : Option (List ℕ)) (f : List ℕ × List ℕ → Option (List ℕ))
      → Within N max_avail x
      → ((r : List ℕ × List ℕ) → o ≡ some r → Within N max_avail (f r))
      → Within N max_avail (elim o [ none ↦ x | some r ↦ f r ])
  closed-Within none x f h k = h
  closed-Within (some r) x f h k = k r refl

  -- With as many rounds as bytes the loop ends, and keeps within the room.
  pub format_loop-Within :
      (fuel : ℕ) (p : List ℕ) (args : List (FormatArg R)) (out : List ℕ)
      → length p ≤ fuel
      → All (Harmless N) args
      → length out ≤ max_avail
      → Within N max_avail (format_loop print_real fuel max_avail p args out)
  unfolding format_loop
  format_loop-Within fuel [] args out e h k = k
  format_loop-Within zero (c ∷ p) args out e h k = absurd (omega arith)
  format_loop-Within (suc fuel) (c ∷ p) args out e h k =
      let again = λ (o : List ℕ) (q : length o ≤ max_avail).
        format_loop-Within fuel p args o (omega arith) h q in
      let past = λ (o : List ℕ) (q : length o ≤ max_avail).
        format_loop-Within fuel (drop 1 p) args o (omega (arith, length-drop 1 p)) h q in
      Within-if N max_avail (c == b'{') _ _
        (Within-if N max_avail (next_is b'{' p) _ _ (byte-Within b'{' out _ k past) (
          closed-Within (find_close p) _ _ (byte-Within c out _ k again) (λ r closed.
            Within-bind N max_avail (put_next print_real max_avail r.0 args out) _
              (put_next-Within print_real N max_avail r.0 args out h k)
              (λ o q.
                format_loop-Within fuel r.1 (rest_args args) o
                  (omega (arith, length-find_close p r closed)) (rest_args-All N args h) q))))
        (Within-if N max_avail (c == b'}' && next_is b'}' p) _ _ (byte-Within b'}' out _ k past)
          (byte-Within c out _ k again))
