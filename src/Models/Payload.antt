-- ===== src/Models/Payload.antt =====
-- The value of `HermesReportOutbox.payload_json`. Each kind of report writes a dictionary with a
-- fixed set of keys, so it is a record; amounts are the decimal texts that the code renders.
use native.Mathlib.Decide.{ℕ_discrete}
use dos_amigos_ops.Base.{List, Option, Text, ℕ}
use dos_amigos_ops.Models.Status.{Mode, ResultStatus}

pub record PaymentEntry : Type 0 where
  pub category : Text
  pub payment_type_id : Option Text
  pub payment_type_name : Text
  pub amount : Text

pub record ProductEntry : Type 0 where
  pub product_id : Text
  pub name : Text
  pub quantity : Text
  pub net_sales : Text

pub record SalesPayload : Type 0 where
  pub status : ResultStatus
  pub organization_id : Text
  pub business_date : ℕ
  pub gross_sales : Text
  pub reported_discounts : Text
  pub reported_increases : Text
  pub net_sales : Text
  pub unexplained_adjustment : Text
  pub refunds : Text
  pub checks_count : ℕ
  pub average_check : Text
  pub payments : List PaymentEntry
  pub top_products : List ProductEntry
  pub source_checksum : Text
  pub warnings : List Text
  pub comparison_previous_day : Text
  pub comparison_same_weekday_previous_week : Text

-- One entry of a correction's `changes`.
pub record Change : Type 0 where
  pub label : Text
  pub old : Text
  pub new : Text

pub data PayloadJson : Type 0 where
  sales : SalesPayload → PayloadJson
  correction : (business_date : ℕ) (original_outbox_id : Text) (changes : List Change) → PayloadJson
  alert : (mode : Mode) (business_date : ℕ) (error_code : Text) → PayloadJson

pub PayloadJson-discrete : Discrete PayloadJson
PayloadJson-discrete = hlevel ℕ_discrete
