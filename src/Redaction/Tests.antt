-- ===== src/Redaction/Tests.antt =====
-- The theorems on redaction at a concrete value.
use dos_amigos_ops.Base.{
  List, Text, [], any, codes, if◌then◌else◌, leb, map, refl, some, text_eq, true, ◌&&◌, ◌+◌, ◌↔◌,
  ◌∷◌, ◌≡◌,
}
use dos_amigos_ops.Redaction.Safe.{
  NamesSecret, Step, by_key, expected, reach, redact_value_lem, text_of,
}
use dos_amigos_ops.Redaction.Sensitive.{
  Value, entry, is_sensitive_key, leaf, mapping, no_entries, redact_value,
}

-- `str.lower` on ASCII.
abbrev lowercase : Text → Text
lowercase t = map (λ c. if leb 65 c && leb c 90 then c + 32 else c) t

abbrev nested : Value
nested = mapping (
    entry (codes "auth")
      (mapping (
        entry (codes "user") (leaf (codes "ann"))
          (entry (codes "Api-Login") (leaf (codes "x")) no_entries)))
      no_entries)

abbrev to_login : List Step
to_login = by_key (codes "auth") ∷ by_key (codes "Api-Login") ∷ []

-- The path leads to the marker.
read_login : expected lowercase to_login nested ≡ some (codes "***REDACTED***")
unfolding expected is_sensitive_key text_eq any
read_login = refl

redact_value_lem_example :
    (text_of lowercase (reach to_login (redact_value lowercase nested))
      ≡ expected lowercase to_login nested)
    × ((key : Text) → (is_sensitive_key lowercase key ≡ true) ↔ NamesSecret lowercase key)
redact_value_lem_example = redact_value_lem lowercase to_login nested
