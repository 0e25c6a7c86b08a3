-- ===== src/Redaction/Chars.antt =====
-- The character classes of Python's `re` and `str`.
use dos_amigos_ops.Base.{
  Bool, Option, Text, [], false, if◌then◌else◌, leb, none, some, suc, true, zero, ℕ, ◌&&◌, ◌++◌,
  ◌+◌, ◌-◌, ◌==◌, ◌||◌, ◌∷◌,
}

-- The Unicode tables: `\w` and `\d`.
pub record Unicode : Type 0 where
  pub is_word : ℕ → Bool
  pub is_decimal : ℕ → Bool

abbrev pub in_range : ℕ → ℕ → ℕ → Bool
in_range lo hi c = leb lo c && leb c hi

-- `str.isspace`, which is `\s` too
unfoldable pub is_space : ℕ → Bool
is_space c =
    in_range 9 13 c
    || in_range 28 32 c
    || c == 0x85
    || c == 0xa0
    || c == 0x1680
    || in_range 0x2000 0x200a c
    || c == 0x2028
    || c == 0x2029
    || c == 0x202f
    || c == 0x205f
    || c == 0x3000

-- The letter that `re.IGNORECASE` compares for a character: a small ASCII letter where one of its
-- case variants is one.
unfoldable pub fold_case : ℕ → ℕ
fold_case c =
    if in_range b'A' b'Z' c
    then c + 32
    else if c == 0x212a
    then b'k'
    else if c == 0x17f
    then b's'
    else if c == 0x130 || c == 0x131
    then b'i'
    else c

-- `[A-Za-z0-9._~+/=-]` under `re.IGNORECASE`
unfoldable pub is_credential : ℕ → Bool
unfolding fold_case
is_credential c =
    in_range b'a' b'z' (fold_case c)
    || in_range b'0' b'9' c
    || c == b'.'
    || c == b'_'
    || c == b'~'
    || c == b'+'
    || c == b'/'
    || c == b'='
    || c == b'-'

-- The length of the longest prefix of characters in a class.
unfoldable pub span : (ℕ → Bool) → Text → ℕ
span p [] = 0
span p (c ∷ s) = if p c then suc (span p s) else 0

-- Whether the text begins with a word, given in small letters, in either case.
unfoldable pub has_prefix : Text → Text → Bool
unfolding fold_case
has_prefix [] s = true
has_prefix (w ∷ ws) [] = false
has_prefix (w ∷ ws) (c ∷ s) = fold_case c == w && has_prefix ws s

-- `re.sub`: `skip` characters of the last match are still to be passed over.
module _ (matches : Option ℕ → Text → Option ℕ) (replacement : Text) where
  unfoldable pub sub_from : ℕ → Option ℕ → Text → Text
  sub_from skip prev [] = []
  sub_from (suc skip) prev (c ∷ s) = sub_from skip (some c) s
  sub_from zero prev (c ∷ s) = elim (matches prev (c ∷ s)) [
    | none ↦ c ∷ sub_from zero (some c) s
    | some n ↦ replacement ++ sub_from (n - 1) (some c) s
  ]

  unfoldable pub sub : Text → Text
  unfolding sub_from
  sub s = sub_from zero none s
