-- ===== src/Redaction/Sensitive.antt =====
-- `redact` of integrations/iiko/redaction.py: a nested value without what stands under a key that
-- names a secret.
use dos_amigos_ops.Base.{
  Bool, List, Text, [], any, codes, if◌then◌else◌, starts_with, ◌==◌, ◌||◌, ◌∷◌,
}

-- A dictionary, by its keys' texts; a list or a tuple; or another value, by its text.
mutual
  pub data Value : Type 0 where
    mapping : Entries → Value
    sequence : Items → Value
    leaf : Text → Value

  pub data Entries : Type 0 where
    no_entries : Entries
    entry : Text → Value → Entries → Entries

  pub data Items : Type 0 where
    no_items : Items
    item : Value → Items → Items

-- `fragment in text`
unfoldable pub contains : Text → Text → Bool
unfolding starts_with
contains fragment [] = starts_with fragment []
contains fragment (c ∷ s) = starts_with fragment (c ∷ s) || contains fragment s

-- `text.replace("-", "_")`
unfoldable pub dashes_to_underscores : Text → Text
dashes_to_underscores [] = []
dashes_to_underscores (c ∷ s) = (if c == 45 then 95 else c) ∷ dashes_to_underscores s

-- `SENSITIVE_FRAGMENTS`
abbrev pub sensitive_fragments : List Text
sensitive_fragments =
    codes "api_login"
    ∷ codes "apilogin"
    ∷ codes "authorization"
    ∷ codes "cookie"
    ∷ codes "credential"
    ∷ codes "license_key"
    ∷ codes "licensekey"
    ∷ codes "password"
    ∷ codes "secret"
    ∷ codes "token"
    ∷ []

abbrev pub redacted_marker : Value
redacted_marker = leaf (codes "***REDACTED***")

-- `str.lower` is a parameter.
module _ (lower : Text → Text) where
  unfoldable pub is_sensitive_key : Text → Bool
  unfolding contains dashes_to_underscores
  is_sensitive_key key =
      any (λ (fragment : Text). contains fragment (dashes_to_underscores (lower key)))
        sensitive_fragments

  unfoldable mutual
    unfolding is_sensitive_key

    pub redact_value : Value → Value
    redact_value (mapping entries) = mapping (redact_entries entries)
    redact_value (sequence items) = sequence (redact_items items)
    redact_value (leaf t) = leaf t

    pub redact_entries : Entries → Entries
    redact_entries no_entries = no_entries
    redact_entries (entry key value entries) =
        let kept = redact_value value in
        entry key (if is_sensitive_key key then redacted_marker else kept) (redact_entries entries)

    pub redact_items : Items → Items
    redact_items no_items = no_items
    redact_items (item value items) = item (redact_value value) (redact_items items)
