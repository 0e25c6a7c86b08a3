-- ===== src/OutboxApi/Tests.antt =====
-- The theorems on the outbox API at concrete rows and calls.
use mathlib.Core.List.{Perm}
use dos_amigos_ops.Base.{
  All, List, Option, Text, [], all, any, arith, codes, false, find, is_some, leb, map, none, refl,
  some, take, text_eq, true, where_rows, ◌&&◌, ◌++◌, ◌||◌, ◌∷◌, ◌≡◌, ◌≢◌,
}
use dos_amigos_ops.Base.Action.{err, http_exception, ok}
use dos_amigos_ops.Models.{DeliveryStatus, HermesReportOutbox}
use dos_amigos_ops.Models.Samples.{sample_env, sample_report, sample_session, sample_tables}
use dos_amigos_ops.OutboxApi.Access.{guarded_access}
use dos_amigos_ops.OutboxApi.Delivered.{RecipientsEvolve, serve-RecipientsEvolve}
use dos_amigos_ops.OutboxApi.Final.{ReportsEvolve, serve-evolves}
use dos_amigos_ops.OutboxApi.Lookup.{report}
use dos_amigos_ops.OutboxApi.Pending.{IsSorted, pending_reports_lem}
use dos_amigos_ops.OutboxApi.Recipients.{Statuses, guarded, register_report_recipients}
use dos_amigos_ops.OutboxApi.Registration.{
  Answers, register_report_recipients-Answers, register_report_recipients_twice,
}
use dos_amigos_ops.OutboxApi.Reports.{is_selected, pending_reports, pending_response}
use dos_amigos_ops.OutboxApi.Requests.{
  FailedReportRequest, is_ascii, is_recipient_key, not_ascii, validate_recipient_keys,
}
use dos_amigos_ops.OutboxApi.Serve.{Call, serve}
use dos_amigos_ops.OutboxApi.Unique.{IsUnique, serve-Unique}
use dos_amigos_ops.OutboxApi.Validation.{
  Distinct, validate_recipient_keys-accepts, validate_recipient_keys-keeps,
}
use dos_amigos_ops.Redaction.{Unicode}

abbrev ascii : Unicode
ascii = record {
  is_word = λ c. (leb 97 c && leb c 122) || (leb 48 c && leb c 57);
  is_decimal = λ c. leb 48 c && leb c 57;
}

abbrev key_a : Text
key_a = codes "aaaaaaaaaaaaaaaaaaaaaaaaaaaaaaaaaaaaaaaaaaaaaaaaaaaaaaaaaaaaaaaa"

abbrev key_b : Text
key_b = codes "bbbbbbbbbbbbbbbbbbbbbbbbbbbbbbbbbbbbbbbbbbbbbbbbbbbbbbbbbbbbbbbb"

abbrev failed_request : FailedReportRequest
failed_request = record { error_code = none; error_message = some (codes "token=abc") }

abbrev some_calls : List Call
some_calls =
    Call.recipients (codes "r1") (key_a ∷ key_b ∷ key_a ∷ [])
    ∷ Call.recipient_delivered (codes "r1") key_a
    ∷ Call.failed (codes "r2") failed_request
    ∷ Call.delivered (codes "r1")
    ∷ []

serve-evolves_example :
    ReportsEvolve sample_session (serve sample_env ascii some_calls sample_session)
serve-evolves_example = serve-evolves sample_env ascii some_calls sample_session

serve-RecipientsEvolve_example :
    RecipientsEvolve sample_session.working.recipients
      (serve sample_env ascii some_calls sample_session).working.recipients
serve-RecipientsEvolve_example = serve-RecipientsEvolve sample_env ascii some_calls sample_session

serve-Unique_example : IsUnique (serve sample_env ascii some_calls sample_session)
serve-Unique_example = serve-Unique sample_env ascii some_calls sample_session tt

two_keys_valid : validate_recipient_keys (key_a ∷ key_b ∷ key_a ∷ []) ≡ some (key_a ∷ key_b ∷ [])
unfolding validate_recipient_keys all any text_eq
two_keys_valid = refl

sample_stored : report (codes "r1") sample_tables ≡ some sample_report
unfolding find text_eq
sample_stored = refl

register_report_recipients-Answers_example :
    (statuses : Statuses) × ((register_report_recipients sample_env
        (codes "r1")
        (key_a ∷ key_b ∷ key_a ∷ [])
        sample_session).0
      ≡ ok statuses)
    × (map (λ (a : Text × DeliveryStatus). a.0) statuses ≡ key_a ∷ key_b ∷ [])
    × All
        (Answers
          (codes "r1")
          (register_report_recipients sample_env
            (codes "r1")
            (key_a ∷ key_b ∷ key_a ∷ [])
            sample_session).1)
        statuses
register_report_recipients-Answers_example =
    register_report_recipients-Answers sample_env (codes "r1") (key_a ∷ key_b ∷ key_a ∷ [])
      sample_session (key_a ∷ key_b ∷ []) sample_report two_keys_valid sample_stored

register_report_recipients_twice_example :
    let (r, t) =
      register_report_recipients sample_env
        (codes "r1")
        (key_a ∷ key_b ∷ key_a ∷ [])
        sample_session in
    let (r', t') =
      register_report_recipients sample_env (codes "r1") (key_a ∷ key_b ∷ key_a ∷ []) t in
    (r' ≡ r) × (t'.working ≡ t.working)
register_report_recipients_twice_example =
    register_report_recipients_twice sample_env (codes "r1") (key_a ∷ key_b ∷ key_a ∷ [])
      sample_session (key_a ∷ key_b ∷ []) sample_report two_keys_valid sample_stored

abbrev token : Text
token = codes "t"

guarded_access_example :
    let expected = codes "Bearer " ++ token in
    let route = pending_reports 5 none false in
    let s = sample_session in
    (token ≡ []
      → (authorization : Option Text)
      → guarded token authorization route s
        ≡ (err (http_exception 503 (codes "internal API not configured")), s))
    × (token ≢ []
        → guarded token none route s
          ≡ (err (http_exception 401 (codes "invalid internal token")), s))
    × (token ≢ []
        → codes "Bearer t" ≡ expected
        → all is_ascii expected ≡ true
        → guarded token (some (codes "Bearer t")) route s ≡ route s)
    × (token ≢ []
        → codes "Bearer t" ≢ expected
        → all is_ascii (codes "Bearer t") ≡ true
        → all is_ascii expected ≡ true
        → guarded token (some (codes "Bearer t")) route s
          ≡ (err (http_exception 401 (codes "invalid internal token")), s))
    × (token ≢ []
        → (all is_ascii (codes "Bearer t") && all is_ascii expected) ≡ false
        → guarded token (some (codes "Bearer t")) route s ≡ (err not_ascii, s))
guarded_access_example =
    guarded_access token (codes "Bearer t") (pending_reports 5 none false) sample_session

validate_recipient_keys-accepts_example :
    is_some (validate_recipient_keys (key_a ∷ key_b ∷ key_a ∷ []))
    ≡ (leb 1 3 && leb 3 100 && all is_recipient_key (key_a ∷ key_b ∷ key_a ∷ []))
validate_recipient_keys-accepts_example =
    validate_recipient_keys-accepts (key_a ∷ key_b ∷ key_a ∷ [])

validate_recipient_keys-keeps_example :
    Distinct (key_a ∷ key_b ∷ [])
    × ((key : Text)
        → any (text_eq key) (key_a ∷ key_b ∷ []) ≡ any (text_eq key) (key_a ∷ key_b ∷ key_a ∷ []))
validate_recipient_keys-keeps_example =
    validate_recipient_keys-keeps (key_a ∷ key_b ∷ key_a ∷ []) (key_a ∷ key_b ∷ []) two_keys_valid

pending_reports_lem_example :
    (sorted : List HermesReportOutbox) × Perm sorted
      (where_rows (is_selected true none) sample_session.working.outbox)
    × IsSorted sorted
    × (pending_reports 5 none true sample_session
        ≡ (ok (map pending_response (take 5 sorted)), sample_session))
pending_reports_lem_example =
    pending_reports_lem 5 none true sample_session (omega arith) (omega arith)
