-- ===== src/Redaction/Safe.antt =====
-- What `redact` leaves of a nested value.
use mathlib.Core.Option
use dos_amigos_ops.Base.{
  Bool, Bool-cases, List, Option, Text, [], any, ap, codes, false, if◌then◌else◌, inl, inr, map,
  none, refl, some, suc, sym, text_eq, text_eq→eq, true, zero, ℕ, ◌++◌, ◌==◌, ◌↔◌, ◌∙◌, ◌∷◌, ◌≡◌,
}
use dos_amigos_ops.Redaction.Fragments.{
  any_complete, any_sound, contains_complete, contains_sound, dashes_to_underscores-map,
}
use dos_amigos_ops.Redaction.Sensitive.{
  Entries, Items, Value, contains, dashes_to_underscores, entry, is_sensitive_key, item, leaf,
  mapping, no_entries, no_items, redact_entries, redact_items, redact_value, redacted_marker,
  sensitive_fragments, sequence,
}

-- A step into a value: by a key or by a position.
pub data Step : Type 0 where
  by_key : Text → Step
  at_index : ℕ → Step

abbrev pub entry_at : Text → Entries → Option Value
entry_at key no_entries = none
entry_at key (entry k value entries) = if text_eq k key then some value else entry_at key entries

abbrev pub item_at : ℕ → Items → Option Value
item_at n no_items = none
item_at zero (item value items) = some value
item_at (suc n) (item value items) = item_at n items

abbrev pub step_into : Step → Value → Option Value
step_into (by_key key) (mapping entries) = entry_at key entries
step_into (at_index n) (sequence items) = item_at n items
step_into _ _ = none

-- What a path leads to.
unfoldable pub reach : List Step → Value → Option Value
reach [] value = some value
reach (step ∷ path) value = elim (step_into step value) [
  | none ↦ none
  | some inner ↦ reach path inner
]

module _ (lower : Text → Text) where
  abbrev pub is_secret : Step → Bool
  is_secret (by_key key) = is_sensitive_key lower key
  is_secret (at_index n) = false

  -- What is left of the value behind a step.
  abbrev pub left_behind : Bool → Value → Value
  left_behind secret value = if secret then redacted_marker else redact_value lower value

  entry_at-redact :
      (key : Text) (entries : Entries)
      → entry_at key (redact_entries lower entries)
        ≡ Option.map (left_behind (is_sensitive_key lower key)) (entry_at key entries)
  unfolding redact_entries
  entry_at-redact key no_entries = refl
  entry_at-redact key (entry k value entries) = elim (Bool-cases (text_eq k key)) [
    | inl hit ↦ rw hit (
        ap (λ (t : Text). some (left_behind (is_sensitive_key lower t) value))
          (text_eq→eq k key hit))
    | inr miss ↦ rw miss (entry_at-redact key entries)
  ]

  item_at-redact :
      (n : ℕ) (items : Items)
      → item_at n (redact_items lower items) ≡ Option.map (redact_value lower) (item_at n items)
  unfolding redact_items
  item_at-redact n no_items = refl
  item_at-redact zero (item value items) = refl
  item_at-redact (suc n) (item value items) = item_at-redact n items

  step_into-redact :
      (step : Step) (value : Value)
      → step_into step (redact_value lower value)
        ≡ Option.map (left_behind (is_secret step)) (step_into step value)
  unfolding redact_value
  step_into-redact (by_key key) (mapping entries) = entry_at-redact key entries
  step_into-redact (by_key key) (sequence items) = refl
  step_into-redact (by_key key) (leaf t) = refl
  step_into-redact (at_index n) (mapping inner) = refl
  step_into-redact (at_index n) (sequence items) = item_at-redact n items
  step_into-redact (at_index n) (leaf t) = refl

  -- What may be read of a value at the end of a path: its text, unless it is a container.
  abbrev pub text_of : Option Value → Option Text
  text_of none = none
  text_of (some (mapping inner)) = none
  text_of (some (sequence items)) = none
  text_of (some (leaf t)) = some t

  abbrev pub marker_at : List Step → Option Text
  marker_at [] = some (codes "***REDACTED***")
  marker_at (step ∷ path) = none

  -- What is to be read at the end of a path into a redacted value: the marker where the path ends
  -- at the first key on it that names a secret, nothing behind such a key, and else the text that
  -- stands there in the value.
  unfoldable pub expected : List Step → Value → Option Text
  expected [] value = text_of (some value)
  expected (step ∷ path) value = elim (step_into step value) [
    | none ↦ none
    | some inner ↦ if is_secret step then marker_at path else expected path inner
  ]

  -- Nothing is behind the marker.
  read_marker : (path : List Step) → text_of (reach path redacted_marker) ≡ marker_at path
  unfolding reach
  read_marker [] = refl
  read_marker (by_key key ∷ path) = refl
  read_marker (at_index n ∷ path) = refl

  read_marked :
      (secret : Bool) (path : List Step) (o : Option Value)
      → ((value : Value) → text_of (reach path (redact_value lower value)) ≡ expected path value)
      → text_of
          (elim (Option.map (left_behind secret) o) [ none ↦ none | some inner ↦ reach path inner ])
        ≡ elim o [
          | none ↦ none
          | some inner ↦ if secret then marker_at path else expected path inner
        ]
  read_marked secret path none h = refl
  read_marked true path (some value) h = read_marker path
  read_marked false path (some value) h = h value

  read_leaf : (value : Value) → text_of (some (redact_value lower value)) ≡ text_of (some value)
  unfolding redact_value
  read_leaf (mapping inner) = refl
  read_leaf (sequence items) = refl
  read_leaf (leaf t) = refl

  read_redacted :
      (path : List Step) (value : Value)
      → text_of (reach path (redact_value lower value)) ≡ expected path value
  unfolding reach expected
  read_redacted [] value = read_leaf value
  read_redacted (step ∷ path) value =
      ap (λ (o : Option Value). text_of (elim o [ none ↦ none | some inner ↦ reach path inner ]))
        (step_into-redact step value)
      ∙ read_marked (is_secret step) path (step_into step value) (read_redacted path)

  -- A key names a secret: one of the fragments stands in its lowercase text, with underscores for
  -- dashes.
  abbrev pub NamesSecret : Text → Type 0
  NamesSecret key =
      (fragment : Text) × (before : Text) × (after : Text) × (any (text_eq fragment)
          sensitive_fragments
        ≡ true)
      × (map (λ c. if c == 45 then 95 else c) (lower key) ≡ before ++ fragment ++ after)

  is_sensitive_key-NamesSecret :
      (key : Text) → (is_sensitive_key lower key ≡ true) ↔ NamesSecret key
  unfolding is_sensitive_key
  is_sensitive_key-NamesSecret key =
      let spelled = dashes_to_underscores (lower key) in
      let test = λ (fragment : Text). contains fragment spelled in
      (
        λ h.
            let (fragment, listed, found) = any_sound test sensitive_fragments h in
            let (before, after, e) = contains_sound fragment spelled found in
            (fragment, before, after, listed, sym (dashes_to_underscores-map (lower key)) ∙ e),
        λ named.
            let (fragment, before, after, listed, e) = named in
            any_complete test fragment sensitive_fragments listed (
              rw (dashes_to_underscores-map (lower key) ∙ e)
                (contains_complete before fragment after)),
      )

  -- What can be read of a redacted value, along every path of keys and positions. Behind a key that
  -- names a secret there is only the marker: it is read where the path ends at the first such key,
  -- and nothing deeper. Every other text of the value is read as it is, where it stood, and nothing
  -- else. A key counts as naming a secret exactly if one of the fragments stands in its lowercase
  -- text, with underscores for its dashes.
  pub redact_value_lem :
      (path : List Step) (value : Value)
      → (text_of (reach path (redact_value lower value)) ≡ expected path value)
        × ((key : Text) → (is_sensitive_key lower key ≡ true) ↔ NamesSecret key)
  redact_value_lem path value = (read_redacted path value, is_sensitive_key-NamesSecret)
