-- ===== src/Sales/Sync.antt =====
-- `IikoSalesSyncService`. The answer of `fetch_orders_or_sales` is a parameter, and so is what
-- `normalize_iiko_sales_payload` makes of the payload.
use dos_amigos_ops.Base.{
  Bool, List, Option, Text, [], any, codes, false, if◌then◌else◌, leb, ltb, none, not, some, suc,
  text_eq, true, zero, ℕ, ◌&&◌, ◌+◌, ◌-◌, ◌∷◌,
}
use dos_amigos_ops.Base.Action.{Exn, Result, exception, pure, raise, try_except, ◌>>=◌, ◌>>◌}
use dos_amigos_ops.Models.{
  DbAction, Env, IikoSalesDailyPayment, IikoSalesDailyProduct, ResultStatus, commit, datetime_now,
  is_proven, rollback,
}
use dos_amigos_ops.Sales.Report.{NormalizedSalesReport}
use dos_amigos_ops.Sales.Repository.{payment_of, persist_report, product_of, record_failed_run}

pub record RawResult (P : Type 0) : Type 0 where
  pub status : ResultStatus
  pub payload : P
  pub records_count : ℕ
  pub error_code : Option Text
  pub error_message_sanitized : Option Text

-- What the normalisation does: a report, a `SalesNormalizationError` with its code and message, or
-- another exception.
pub data Normalization : Type 0 where
  normalized : NormalizedSalesReport → Normalization
  rejected : (error_code message : Text) → Normalization
  raised : Exn → Normalization

pub record IikoSalesSyncResult : Type 0 where
  pub status : ResultStatus
  pub organization_id : Text
  pub date_from : ℕ
  pub date_to : ℕ
  pub days_processed : ℕ
  pub source_rows : ℕ
  pub records_persisted : ℕ
  pub unchanged : Bool
  pub dry_run : Bool
  pub error_code : Option Text
  pub source_checksum : Option Text

-- `text or default`
abbrev pub text_or : Option Text → Text → Text
text_or none default = default
text_or (some []) default = default
text_or (some (c ∷ s)) default = c ∷ s

-- `a or b` on optional texts
abbrev pub optional_or : Option Text → Option Text → Option Text
optional_or none b = b
optional_or (some []) b = b
optional_or (some (c ∷ s)) b = some (c ∷ s)

-- The rows of a table that share a key with another one.
unfoldable pub has_payment : IikoSalesDailyPayment → List IikoSalesDailyPayment → Bool
has_payment p rows =
    any
      (λ r.
        payment_of p.organization_id p.business_date r
        && text_eq r.payment_type_key p.payment_type_key)
      rows

unfoldable pub has_product : IikoSalesDailyProduct → List IikoSalesDailyProduct → Bool
has_product p rows =
    any
      (λ r.
        product_of p.organization_id p.business_date r
        && text_eq r.product_id p.product_id
        && text_eq r.product_size_key p.product_size_key)
      rows

-- uq_iiko_sales_daily_payment_key
unfoldable pub unique_payments : List IikoSalesDailyPayment → Bool
unique_payments [] = true
unique_payments (p ∷ rows) = not (has_payment p rows) && unique_payments rows

-- uq_iiko_sales_daily_product_key
unfoldable pub unique_products : List IikoSalesDailyProduct → Bool
unique_products [] = true
unique_products (p ∷ rows) = not (has_product p rows) && unique_products rows

abbrev pub commit_accepted : Bool → DbAction (Unit {0})
commit_accepted true = commit
commit_accepted false = raise (exception (codes "IntegrityError") (codes "unique constraint"))

-- The commit of a report, which the two constraints may refuse.
unfoldable pub commit_report : DbAction (Unit {0})
commit_report s =
    commit_accepted (unique_payments s.working.payments && unique_products s.working.products) s

abbrev pub range_error : Text → Exn
range_error message = exception (codes "ValueError") message

-- `validate_date_range`, with the date of today
unfoldable pub validate_date_range : (today date_from date_to : ℕ) → Bool → Option Exn
validate_date_range today date_from date_to allow_open_day =
    if ltb date_to date_from
    then some (range_error (codes "date_to must be greater than or equal to date_from"))
    else if ltb 30 (date_to - date_from)
    then some (range_error (codes "date range must not exceed 31 days"))
    else if not allow_open_day && leb today date_to
    then some (range_error (codes "open business day requires --allow-open-day"))
    else none

-- The variables of the loop of `sync_range`.
pub record RangeTotals : Type 0 where
  pub status : ResultStatus
  pub days_processed : ℕ
  pub source_rows : ℕ
  pub persisted : ℕ
  pub unchanged : Bool
  pub error_code : Option Text
  pub checksum : Option Text

-- The status so far, and that of the next day.
unfoldable pub merge_status : ResultStatus → ResultStatus → ResultStatus
merge_status final ResultStatus.unknown = ResultStatus.unknown
merge_status ResultStatus.unknown ResultStatus.blocked = ResultStatus.unknown
merge_status ResultStatus.proven ResultStatus.blocked = ResultStatus.blocked
merge_status ResultStatus.partial ResultStatus.blocked = ResultStatus.blocked
merge_status ResultStatus.blocked ResultStatus.blocked = ResultStatus.blocked
merge_status ResultStatus.proven ResultStatus.partial = ResultStatus.partial
merge_status ResultStatus.partial ResultStatus.partial = ResultStatus.partial
merge_status ResultStatus.blocked ResultStatus.partial = ResultStatus.blocked
merge_status ResultStatus.unknown ResultStatus.partial = ResultStatus.unknown
merge_status final ResultStatus.proven = final

unfoldable pub merge_day : RangeTotals → IikoSalesSyncResult → RangeTotals
unfolding merge_status
merge_day t result = record {
  status = merge_status t.status result.status;
  days_processed = t.days_processed + 1;
  source_rows = t.source_rows + result.source_rows;
  persisted = t.persisted + result.records_persisted;
  unchanged = t.unchanged && result.unchanged;
  error_code = optional_or result.error_code t.error_code;
  checksum = optional_or result.source_checksum t.checksum;
}

abbrev pub no_days : RangeTotals
no_days = record {
  status = ResultStatus.proven;
  days_processed = 0;
  source_rows = 0;
  persisted = 0;
  unchanged = true;
  error_code = none;
  checksum = none;
}

-- `_result_from_normalized`
abbrev pub result_from_normalized : NormalizedSalesReport → Bool → ℕ → Bool → IikoSalesSyncResult
result_from_normalized report dry_run persisted_rows unchanged = record {
  status = report.daily.result_status;
  organization_id = report.daily.organization_id;
  date_from = report.daily.business_date;
  date_to = report.daily.business_date;
  days_processed = 1;
  source_rows = report.daily.source_rows_count;
  records_persisted = persisted_rows;
  unchanged = unchanged;
  dry_run = dry_run;
  error_code = report.daily.reconciliation_error_code;
  source_checksum = some report.daily.source_checksum;
}

-- The answer for a day that was not fetched or not normalised.
abbrev pub failed_day : Text → ℕ → Bool → ResultStatus → ℕ → Option Text → IikoSalesSyncResult
failed_day org day dry_run status fetched_rows code = record {
  status = status;
  organization_id = org;
  date_from = day;
  date_to = day;
  days_processed = 1;
  source_rows = fetched_rows;
  records_persisted = 0;
  unchanged = false;
  dry_run = dry_run;
  error_code = code;
  source_checksum = none;
}

-- The client's answer may depend on how often the clock was read before; the normalisation reads
-- the payload, the organization and the date.
module _ (env : Env) (lower : Text → Text) {P : Type 0}
    (fetch : ℕ → Text → ℕ → Result (RawResult P)) (normalize : P → Text → ℕ → Normalization)
    (org : Text) where
  -- `if not dry_run: record_failed_run(...); commit()`
  unfoldable pub record_failure :
      Bool
      → ℕ
      → ResultStatus
      → (started_at finished_at fetched_rows : ℕ) (code message : Text) → DbAction (Unit {0})
  unfolding record_failed_run
  record_failure true day status started_at finished_at fetched_rows code message = pure tt
  record_failure false day status started_at finished_at fetched_rows code message = do
    record_failed_run env lower org day status started_at finished_at fetched_rows code message
    commit

  -- A proven answer of the fetch, normalised.
  unfoldable pub sync_normalized :
      Normalization → (day started_at fetched_rows : ℕ) → Bool → DbAction IikoSalesSyncResult
  sync_normalized (raised e) day started_at fetched_rows dry_run = raise e
  sync_normalized (rejected code message) day started_at fetched_rows dry_run = do
    finished_at ← datetime_now env
    record_failure dry_run day ResultStatus.unknown started_at finished_at fetched_rows code message
    pure (failed_day org day dry_run ResultStatus.unknown fetched_rows (some code))
  sync_normalized (normalized report) day started_at fetched_rows true =
      pure (result_from_normalized report true 0 false)
  sync_normalized (normalized report) day started_at fetched_rows false = do
    finished_at ← datetime_now env
    persistence ←
        try_except
          (do
            persistence ← persist_report env lower report started_at finished_at
            commit_report
            pure persistence)
          (λ e. rollback >> raise e)
    pure (result_from_normalized report false persistence.persisted_rows persistence.unchanged)

  unfoldable pub sync_raw : RawResult P → (day started_at : ℕ) → Bool → DbAction IikoSalesSyncResult
  sync_raw raw day started_at dry_run =
      if is_proven raw.status
      then sync_normalized (normalize raw.payload org day) day started_at raw.records_count dry_run
      else (do
        finished_at ← datetime_now env
        record_failure dry_run day raw.status started_at finished_at raw.records_count
            (text_or raw.error_code (codes "iiko_sales_fetch_failed"))
            (text_or raw.error_message_sanitized (codes "iiko sales fetch failed"))
        pure (failed_day org day dry_run raw.status raw.records_count raw.error_code))

  unfoldable pub sync_day : ℕ → Bool → DbAction IikoSalesSyncResult
  sync_day day dry_run = do
    started_at ← datetime_now env
    raw ← λ s. (fetch s.ticks org day, s)
    sync_raw raw day started_at dry_run

  -- The loop from `current` over this many days.
  unfoldable pub sync_days : ℕ → ℕ → Bool → RangeTotals → DbAction RangeTotals
  sync_days zero current dry_run totals = pure totals
  sync_days (suc days) current dry_run totals = do
    result ← sync_day current dry_run
    sync_days days (current + 1) dry_run (merge_day totals result)

  abbrev pub range_result : ℕ → ℕ → Bool → RangeTotals → IikoSalesSyncResult
  range_result date_from date_to dry_run totals = record {
    status = totals.status;
    organization_id = org;
    date_from = date_from;
    date_to = date_to;
    days_processed = totals.days_processed;
    source_rows = totals.source_rows;
    records_persisted = totals.persisted;
    unchanged = totals.unchanged;
    dry_run = dry_run;
    error_code = totals.error_code;
    source_checksum = totals.checksum;
  }

  -- `sync_range`, with the date of today
  unfoldable pub sync_range :
      (today date_from date_to : ℕ) (dry_run allow_open_day : Bool) → DbAction IikoSalesSyncResult
  sync_range today date_from date_to dry_run allow_open_day = do
    elim (validate_date_range today date_from date_to allow_open_day) [
      | none ↦ pure tt
      | some e ↦ raise e
    ]
    totals ← sync_days (date_to + 1 - date_from) date_from dry_run no_days
    pure (range_result date_from date_to dry_run totals)
