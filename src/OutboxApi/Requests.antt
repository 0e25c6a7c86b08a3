-- ===== src/OutboxApi/Requests.antt =====
-- The request and response models, their validation, the token and the look-ups that answer 404.
use dos_amigos_ops.Base.{
  Bool, List, Option, Text, [], all, any, codes, find, if◌then◌else◌, keys, leb, length, ltb, none,
  not, some, text_eq, true, ℕ, ◌&&◌, ◌++◌, ◌==◌, ◌||◌, ◌∷◌,
}
use dos_amigos_ops.Base.Action.{
  Exn, Result, err, exception, http_exception, ok, or_raise, raise, raise_if, ◌>>=◌,
}
use dos_amigos_ops.Models.{
  DbAction, DeliveryStatus, HermesReportOutbox, HermesReportRecipientDelivery,
}

pub record PendingReportResponse : Type 0 where
  pub id : Text
  pub business_date : ℕ
  pub payload_markdown : Text
  pub delivery_attempts : ℕ

pub record ReportStatusResponse : Type 0 where
  pub id : Text
  pub delivery_status : DeliveryStatus
  pub delivery_attempts : ℕ

pub record FailedReportRequest : Type 0 where
  pub error_code : Option Text
  pub error_message : Option Text

abbrev fits : ℕ → Option Text → Bool
fits limit none = true
fits limit (some s) = leb (length s) limit

-- `Field(max_length=...)` on both fields
unfoldable pub failed_request_valid : FailedReportRequest → Bool
failed_request_valid r = fits 120 r.error_code && fits 2000 r.error_message

-- `request.error_code or "telegram_delivery_failed"`: an empty code counts as none.
abbrev pub error_code_or_default : Option Text → Text
error_code_or_default none = codes "telegram_delivery_failed"
error_code_or_default (some []) = codes "telegram_delivery_failed"
error_code_or_default (some (c ∷ code)) = c ∷ code

abbrev pub is_hex : ℕ → Bool
is_hex c = (leb b'0' c && leb c b'9') || (leb b'a' c && leb c b'f')

-- `^[0-9a-f]{64}$`
unfoldable pub is_recipient_key : Text → Bool
is_recipient_key key = length key == 64 && all is_hex key

-- The loop of `validate_recipient_keys`; `seen` and `deduped` hold the same keys.
unfoldable pub dedupe_keys : List Text → List Text → Option (List Text)
unfolding is_recipient_key
dedupe_keys deduped [] = some deduped
dedupe_keys deduped (key ∷ keys) =
    if is_recipient_key key
    then dedupe_keys (if any (text_eq key) deduped then deduped else deduped ++ key ∷ []) keys
    else none

-- `RegisterRecipientsRequest`: the length of the list, then the validator
unfoldable pub validate_recipient_keys : List Text → Option (List Text)
unfolding dedupe_keys
validate_recipient_keys keys =
    if leb 1 (length keys) && leb (length keys) 100 then dedupe_keys [] keys else none

abbrev pub validation_error : Exn
validation_error = http_exception 422 (codes "validation error")

abbrev pub is_ascii : ℕ → Bool
is_ascii c = ltb c 128

abbrev pub not_ascii : Exn
not_ascii =
    exception (codes "TypeError")
      (codes "comparing strings with non-ASCII characters is not supported")

-- `secrets.compare_digest` on two texts
unfoldable pub compare_digest : Text → Text → Result Bool
compare_digest a b = if all is_ascii a && all is_ascii b then ok (text_eq a b) else err not_ascii

-- `require_internal_token`, at the configured token
unfoldable pub require_internal_token : Text → Option Text → DbAction (Unit {0})
unfolding compare_digest
require_internal_token [] authorization =
    raise (http_exception 503 (codes "internal API not configured"))
require_internal_token (c ∷ token) none =
    raise (http_exception 401 (codes "invalid internal token"))
require_internal_token (c ∷ token) (some authorization) = do
  same ← λ s. (compare_digest authorization (codes "Bearer " ++ c ∷ token), s)
  raise_if (not same) (http_exception 401 (codes "invalid internal token"))

abbrev pub has_id : Text → HermesReportOutbox → Bool
has_id report_id row = text_eq row.id report_id

abbrev pub is_for : Text → Text → HermesReportRecipientDelivery → Bool
is_for report_id key row = text_eq row.report_id report_id && text_eq row.recipient_key key

-- `_get_outbox_or_404`
unfoldable pub get_outbox_or_404 : Text → DbAction HermesReportOutbox
get_outbox_or_404 report_id s =
    or_raise (find (has_id report_id) s.working.outbox)
      (http_exception 404 (codes "report not found")) s

-- `_get_recipient_or_404`
unfoldable pub get_recipient_or_404 : Text → Text → DbAction HermesReportRecipientDelivery
get_recipient_or_404 report_id key s =
    or_raise (find (is_for report_id key) s.working.recipients)
      (http_exception 404 (codes "recipient delivery not found")) s

-- `_status_response`
unfoldable pub status_response : HermesReportOutbox → ReportStatusResponse
status_response row = record {
  id = row.id;
  delivery_status = row.delivery_status;
  delivery_attempts = row.delivery_attempts;
}
