-- ===== src/Sender/Split.antt =====
-- `split_telegram_message` of ops/telegram/report_sender.py.
use mathlib.Core.Option
use dos_amigos_ops.Base.{
  Bool, List, Option, Text, [], codes, drop, false, if◌then◌else◌, is_empty, leb, length, ltb, none,
  some, suc, take, true, zero, ℕ, ◌&&◌, ◌++◌, ◌+◌, ◌==◌, ◌∷◌,
}
use dos_amigos_ops.Base.Action.{Exn, Result, err, exception, ok}
use dos_amigos_ops.Redaction.{is_space}

-- `str.startswith`
unfoldable pub starts_with : Text → Text → Bool
starts_with [] s = true
starts_with (p ∷ ps) [] = false
starts_with (p ∷ ps) (c ∷ s) = p == c && starts_with ps s

-- `str.rfind`: the last position of a non-empty pattern.
unfoldable pub rfind : Text → Text → Option ℕ
unfolding starts_with
rfind pattern_text [] = none
rfind pattern_text (c ∷ s) = elim (rfind pattern_text s) [
  | some i ↦ some (suc i)
  | none ↦ if starts_with pattern_text (c ∷ s) then some 0 else none
]

-- `str.lstrip`
unfoldable pub lstrip : Text → Text
unfolding is_space
lstrip [] = []
lstrip (c ∷ s) = let rest = lstrip s in if is_space c then rest else c ∷ s

-- `str.rstrip`
unfoldable pub rstrip : Text → Text
unfolding is_space
rstrip [] = []
rstrip (c ∷ s) = let rest = rstrip s in if is_empty rest && is_space c then [] else c ∷ rest

abbrev pub newline : Text
newline = 10 ∷ []

-- `split_at` where it is positive, else what comes next
abbrev pub positive_or : Option ℕ → ℕ → ℕ
positive_or none next = next
positive_or (some zero) next = next
positive_or (some (suc i)) next = suc i

-- The position at which the remaining text is cut.
unfoldable pub cut_position : ℕ → Text → ℕ
unfolding rfind
cut_position limit remaining =
    let window = take (limit + 1) remaining in
    positive_or (rfind (newline ++ newline) window) (positive_or (rfind newline window) limit)

-- The chunk that one round appends, and the position behind it.
unfoldable pub next_chunk : ℕ → Text → Text × ℕ
unfolding cut_position rstrip
next_chunk limit remaining =
    let split_at = cut_position limit remaining in
    let chunk = rstrip (take split_at remaining) in
    if is_empty chunk then (take limit remaining, limit) else (chunk, split_at)

-- The chunks from here on. Every round cuts off a character, so fuel above the length of the text
-- is enough; `none` is a lack of fuel.
unfoldable pub split_loop : ℕ → ℕ → Text → Option (List Text)
split_loop zero limit remaining = none
split_loop (suc fuel) limit remaining = elim (ltb limit (length remaining)) [
  | true ↦
      let (chunk, split_at) = next_chunk limit remaining in
      Option.map (λ chunks. chunk ∷ chunks)
        (split_loop fuel limit (lstrip (drop split_at remaining)))
  | false ↦ some (if is_empty remaining then [] else remaining ∷ [])
]

abbrev pub limit_error : Exn
limit_error = exception (codes "ValueError") (codes "limit must be positive")

abbrev pub out_of_fuel : Exn
out_of_fuel = exception (codes "out of fuel") []

abbrev pub or_out_of_fuel : Option (List Text) → Result (List Text)
or_out_of_fuel none = err out_of_fuel
or_out_of_fuel (some chunks) = ok chunks

unfoldable pub split_telegram_message : ℕ → Text → Result (List Text)
split_telegram_message zero text = err limit_error
split_telegram_message (suc n) text =
    if leb (length text) (suc n)
    then ok (text ∷ [])
    else or_out_of_fuel (split_loop (length text + 1) (suc n) text)
