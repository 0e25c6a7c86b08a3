-- ===== src/Sender/SplitLaws.antt =====
-- The chunks of `split_telegram_message`.
use dos_amigos_ops.Base.{
  All, Bool-cases, List, Option-cases, Text, [], ap, append-nil, arith, drop, false, if◌then◌else◌,
  inl, inr, is_empty, leb, leb→le, length, length-drop, length-take, ltb, ltb→lt, refl, some, suc,
  sym, take, take-append-drop, true, zero, ℕ, ◌++◌, ◌+◌, ◌<◌, ◌∙◌, ◌∷◌, ◌≡◌, ◌≤◌,
}
use dos_amigos_ops.Base.Action.{ok}
use dos_amigos_ops.Redaction.{is_space}
use dos_amigos_ops.Sender.Split.{
  cut_position, lstrip, newline, next_chunk, rfind, rstrip, split_loop, split_telegram_message,
  starts_with,
}

-- The characters that are no white space.
pub ink : Text → Text
ink [] = []
ink (c ∷ s) = let rest = ink s in if is_space c then rest else c ∷ rest

pub concat : List Text → Text
concat [] = []
concat (s ∷ ss) = s ++ concat ss

ink-append : (s t : Text) → ink (s ++ t) ≡ ink s ++ ink t
unfolding ink
ink-append [] t = refl
ink-append (c ∷ s) t = elim (Bool-cases (is_space c)) [
  | inl white ↦ rw white (ink-append s t)
  | inr black ↦ rw black (ap (λ (l : Text). c ∷ l) (ink-append s t))
]

ink-lstrip : (s : Text) → ink (lstrip s) ≡ ink s
unfolding ink lstrip
ink-lstrip [] = refl
ink-lstrip (c ∷ s) = ground (arith, ink-lstrip s)

ink-rstrip : (s : Text) → ink (rstrip s) ≡ ink s
unfolding ink rstrip
ink-rstrip [] = refl
ink-rstrip (c ∷ s) = ground (arith, ink-rstrip s)

length-lstrip : (s : Text) → length (lstrip s) ≤ length s
unfolding lstrip
length-lstrip [] = omega arith
length-lstrip (c ∷ s) = ground (arith, length-lstrip s)

length-rstrip : (s : Text) → length (rstrip s) ≤ length s
unfolding rstrip
length-rstrip [] = omega arith
length-rstrip (c ∷ s) = ground (arith, length-rstrip s)

length-starts_with : (p s : Text) → starts_with p s ≡ true → length p ≤ length s
unfolding starts_with
length-starts_with [] s h = omega arith
length-starts_with (x ∷ p) [] h = cc
length-starts_with (x ∷ p) (c ∷ s) h = ground (arith, length-starts_with p s)

-- The pattern stands within the text from the position that is found.
rfind-fits : (p s : Text) (i : ℕ) → rfind p s ≡ some i → i + length p ≤ length s
unfolding rfind
rfind-fits p [] i h = cc
rfind-fits p (c ∷ s) i h = elim (Option-cases (rfind p s)) [
  | inl e ↦ ground (arith, length-starts_with p (c ∷ s))
  | inr (k, e) ↦ ground (arith, rfind-fits p s k e)
]

-- A cut is behind the first character and at most at the limit.
cut_position_bounds :
    (limit : ℕ) (s : Text) → 1 ≤ limit → (1 ≤ cut_position limit s) × (cut_position limit s ≤ limit)
unfolding cut_position
cut_position_bounds limit s h =
    let window : Text = take (limit + 1) s in
    elim (Option-cases (rfind (newline ++ newline) window)) [
      | inl e ↦ elim (Option-cases (rfind newline window)) [
        | inl e' ↦ ground arith
        | inr (k, e') ↦ ground (arith, rfind-fits newline window k e', length-take (limit + 1) s)
      ]
      | inr (j, e) ↦ elim (Option-cases (rfind newline window)) [
        | inl e' ↦
            ground (arith, rfind-fits (newline ++ newline) window j e, length-take (limit + 1) s)
        | inr (k, e') ↦ ground (
          arith,
          rfind-fits (newline ++ newline) window j e,
          rfind-fits newline window k e',
          length-take (limit + 1) s,
        )
      ]
    ]

ink-cut : (n : ℕ) (s : Text) → ink (take n s) ++ ink (drop n s) ≡ ink s
ink-cut n s = sym (ink-append (take n s) (drop n s)) ∙ ap ink (take-append-drop n s)

length_pos : (s : Text) → is_empty s ≡ false → 1 ≤ length s
length_pos [] h = cc
length_pos (c ∷ s) h = omega arith

next_chunk-blank :
    (limit : ℕ) (s : Text)
    → is_empty (rstrip (take (cut_position limit s) s)) ≡ true
    → next_chunk limit s ≡ (take limit s, limit)
unfolding next_chunk
next_chunk-blank limit s h = rw h

next_chunk-full :
    (limit : ℕ) (s : Text)
    → is_empty (rstrip (take (cut_position limit s) s)) ≡ false
    → next_chunk limit s ≡ (rstrip (take (cut_position limit s) s), cut_position limit s)
unfolding next_chunk
next_chunk-full limit s h = rw h

-- One round: a chunk that is not empty and fits, with the visible characters before the position.
next_chunk_lem :
    (limit : ℕ) (s : Text)
    → 1 ≤ limit
    → limit < length s
    → let (chunk, split_at) = next_chunk limit s in
      (1 ≤ split_at)
      × (1 ≤ length chunk)
      × (length chunk ≤ limit)
      × (ink chunk ++ ink (drop split_at s) ≡ ink s)
next_chunk_lem limit s h k =
    let cut : ℕ = cut_position limit s in
    let window : Text = take cut s in
    let bounds = cut_position_bounds limit s h in
    elim (Bool-cases (is_empty (rstrip window))) [
      | inl blank ↦ rw (next_chunk-blank limit s blank) (
        h,
        omega (arith, length-take limit s),
        omega (arith, length-take limit s),
        ink-cut limit s,
      )
      | inr full ↦ rw (next_chunk-full limit s full) (
        bounds.0,
        length_pos (rstrip window) full,
        omega (arith, length-rstrip window, length-take cut s, bounds.1),
        rw (ink-rstrip window) (ink-cut cut s),
      )
    ]

-- What a list of chunks must be for a text.
pub record Splits (limit : ℕ) (text : Text) (chunks : List Text) : Type 0 where
  pub fits : All (λ chunk. (1 ≤ length chunk) × (length chunk ≤ limit)) chunks
  pub keeps_ink : ink (concat chunks) ≡ ink text

not_ltb : (a b : ℕ) → ltb a b ≡ false → b ≤ a
not_ltb a b h = ground arith

last_chunk :
    (limit : ℕ) (s : Text) → length s ≤ limit → Splits limit s (if is_empty s then [] else s ∷ [])
last_chunk limit [] h = unfold concat in record { fits = tt; keeps_ink = refl }
last_chunk limit (c ∷ s) h =
    unfold concat in
    record { fits = ((omega arith, h), tt); keeps_ink = ap ink (append-nil (c ∷ s)) }

split_loop-end :
    (fuel limit : ℕ) (s : Text)
    → ltb limit (length s) ≡ false
    → split_loop (suc fuel) limit s ≡ some (if is_empty s then [] else s ∷ [])
unfolding split_loop
split_loop-end fuel limit s short = ground arith

split_loop-step :
    (fuel limit : ℕ) (s : Text) (chunks : List Text)
    → ltb limit (length s) ≡ true
    → split_loop fuel limit (lstrip (drop (next_chunk limit s).1 s)) ≡ some chunks
    → split_loop (suc fuel) limit s ≡ some ((next_chunk limit s).0 ∷ chunks)
unfolding split_loop
split_loop-step fuel limit s chunks long e = ground arith

-- A round's chunk in front of the chunks of what is left.
Splits-step :
    (limit : ℕ) (s : Text) (chunks : List Text)
    → 1 ≤ limit
    → limit < length s
    → Splits limit (lstrip (drop (next_chunk limit s).1 s)) chunks
    → Splits limit s ((next_chunk limit s).0 ∷ chunks)
unfolding concat
Splits-step limit s chunks h long rest =
    let (forward, nonempty, fits, same) = next_chunk_lem limit s h long in
    record {
      fits = ((nonempty, fits), rest.fits);
      keeps_ink =
          ink-append (next_chunk limit s).0 (concat chunks)
          ∙ ap (λ (l : Text). ink (next_chunk limit s).0 ++ l)
              (rest.keeps_ink ∙ ink-lstrip (drop (next_chunk limit s).1 s))
          ∙ same;
    }

-- Every round shortens the text.
shorter :
    (limit : ℕ) (s : Text)
    → 1 ≤ limit
    → limit < length s
    → length (lstrip (drop (next_chunk limit s).1 s)) < length s
shorter limit s h long =
    let bounds = next_chunk_lem limit s h long in
    omega (
      arith,
      length-lstrip (drop (next_chunk limit s).1 s),
      length-drop (next_chunk limit s).1 s,
      bounds.0,
    )

-- Fuel above the length is enough.
split_loop_lem :
    (fuel limit : ℕ) (s : Text)
    → 1 ≤ limit
    → length s < fuel
    → (chunks : List Text) × (split_loop fuel limit s ≡ some chunks) × Splits limit s chunks
split_loop_lem zero limit s h k = elim k [ ]
split_loop_lem (suc fuel) limit s h k = elim (Bool-cases (ltb limit (length s))) [
  | inr short ↦ (
    if is_empty s then [] else s ∷ [],
    split_loop-end fuel limit s short,
    last_chunk limit s (not_ltb limit (length s) short),
  )
  | inl test ↦
      let long : limit < length s = ltb→lt limit (length s) test in
      let (chunks, e, rest) =
        split_loop_lem fuel limit (lstrip (drop (next_chunk limit s).1 s)) h
          (omega (arith, shorter limit s h long)) in
      (
        (next_chunk limit s).0 ∷ chunks,
        split_loop-step fuel limit s chunks test e,
        Splits-step limit s chunks h long rest,
      )
]

-- At a positive limit a text that is not empty is split: no chunk is empty or longer than the
-- limit, and together the chunks have the visible characters of the text, in their order.
pub split_telegram_message-Splits :
    (limit : ℕ) (text : Text)
    → 1 ≤ limit
    → 1 ≤ length text
    → (chunks : List Text) × (split_telegram_message limit text ≡ ok chunks)
      × Splits limit text chunks
split_telegram_message-Splits zero text h k = elim h [ ]
split_telegram_message-Splits (suc n) text h k = elim (Bool-cases (leb (length text) (suc n))) [
  | inl short ↦ (
    text ∷ [],
    unfold split_telegram_message in rw short,
    record {
      fits = ((k, leb→le (length text) (suc n) short), tt);
      keeps_ink = unfold concat in ap ink (append-nil text);
    },
  )
  | inr long ↦
      let (chunks, e, splits) = split_loop_lem (length text + 1) (suc n) text h (omega arith) in
      (chunks, unfold split_telegram_message in rw (long, e), splits)
]
