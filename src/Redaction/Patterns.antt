-- ===== src/Redaction/Patterns.antt =====
-- The regular expressions, and the three functions that use them.
use dos_amigos_ops.Base.{
  Bool, Option, Text, [], codes, drop, if◌then◌else◌, is_empty, leb, length, ltb, none, not, some,
  take, true, ℕ, ◌&&◌, ◌++◌, ◌+◌, ◌==◌, ◌||◌, ◌∷◌,
}
use dos_amigos_ops.Base.Action.{Exn, exn_message, type_name}
use dos_amigos_ops.Redaction.Chars.{Unicode, has_prefix, is_credential, is_space, span, sub}

module _ (u : Unicode) where
  -- No word character stands before this position: `\b` before a word character.
  unfoldable pub starts_word : Option ℕ → Bool
  starts_word none = true
  starts_word (some c) = not (u.is_word c)

  -- No word character stands here: `\b` behind a word character.
  unfoldable pub ends_word : Text → Bool
  ends_word [] = true
  ends_word (c ∷ _) = not (u.is_word c)

  -- `\bBearer\s+[A-Za-z0-9._~+/=-]+`
  unfoldable pub auth_re : Option ℕ → Text → Option ℕ
  unfolding starts_word has_prefix span is_space is_credential
  auth_re prev s =
      let spaces : ℕ = span is_space (drop 6 s) in
      let credential : ℕ = span is_credential (drop (6 + spaces) s) in
      if starts_word prev && has_prefix (codes "bearer") s && ltb 0 spaces && ltb 0 credential
      then some (6 + spaces + credential)
      else none

  -- `word=\S+`, the length of the match
  unfoldable pub assignment : Text → Text → Option ℕ
  unfolding has_prefix span is_space
  assignment word s =
      let value : ℕ = span (λ c. not (is_space c)) (drop (length word + 1) s) in
      if has_prefix (word ++ codes "=") s && ltb 0 value
      then some (length word + 1 + value)
      else none

  -- `\b(token|bot_token|authorization)=\S+`
  unfoldable pub token_assignment_re : Option ℕ → Text → Option ℕ
  unfolding starts_word assignment
  token_assignment_re prev s =
      if starts_word prev
      then elim (assignment (codes "token") s) [
        | some n ↦ some n
        | none ↦ elim (assignment (codes "bot_token") s) [
          | some n ↦ some n
          | none ↦ assignment (codes "authorization") s
        ]
      ]
      else none

  -- `\b\d{least,}\b`
  unfoldable pub numeric_id_re : ℕ → Option ℕ → Text → Option ℕ
  unfolding starts_word ends_word span
  numeric_id_re least prev s =
      let digits : ℕ = span u.is_decimal s in
      if starts_word prev && leb least digits && ends_word (drop digits s)
      then some digits
      else none

  abbrev pub safe_error_limit : ℕ
  safe_error_limit = 500

  unfoldable pub redact : Text → Text
  unfolding auth_re token_assignment_re numeric_id_re sub
  redact message = sub (numeric_id_re 1) (codes "[redacted_id]") (
      sub token_assignment_re (codes "[redacted_secret]")
        (sub auth_re (codes "[redacted_auth]") message))

  -- `_safe_error_message` of report_outbox.py
  unfoldable pub safe_error_message : Option Text → Option Text
  unfolding redact
  safe_error_message none = none
  safe_error_message (some []) = none
  safe_error_message (some (c ∷ s)) = some (take safe_error_limit (redact (c ∷ s)))

  -- `safe_error_message` of report_sender.py, at the message of the exception and its type's name
  unfoldable pub safe_exception_message : Exn → Text
  unfolding redact
  safe_exception_message e =
      take safe_error_limit
        (redact (if is_empty (exn_message e) then type_name e else exn_message e))

  -- `://([^:/\s]+):([^@\s]+)@`
  unfoldable pub url_password_re : Option ℕ → Text → Option ℕ
  unfolding has_prefix span is_space
  url_password_re prev s =
      let user : ℕ = span (λ c. not (c == b':' || c == b'/' || is_space c)) (drop 3 s) in
      let password : ℕ = span (λ c. not (c == b'@' || is_space c)) (drop (4 + user) s) in
      if has_prefix (codes "://") s
        && ltb 0 user
        && has_prefix (codes ":") (drop (3 + user) s)
        && ltb 0 password
        && has_prefix (codes "@") (drop (4 + user + password) s)
      then some (5 + user + password)
      else none

  -- `_safe_error_message` of daily_coo_report.py
  unfoldable pub safe_report_message : Exn → Text
  unfolding auth_re token_assignment_re url_password_re numeric_id_re sub
  safe_report_message e =
      let message = if is_empty (exn_message e) then type_name e else exn_message e in
      take safe_error_limit (
        sub (numeric_id_re 6) (codes "[redacted_id]") (
          sub url_password_re (codes "://[redacted_credentials]@") (
            sub token_assignment_re (codes "[redacted_secret]")
              (sub auth_re (codes "[redacted_auth]") message))))
