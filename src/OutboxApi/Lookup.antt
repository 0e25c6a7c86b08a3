-- ===== src/OutboxApi/Lookup.antt =====
-- What the look-up of a report or of a recipient returns after a row was written.
use dos_amigos_ops.Base.{
  Bool-cases, List, Option, Text, false, find, find-update_ne, find-update_self, find_sound,
  if◌then◌else◌, inl, inr, some, text_eq, text_eq_refl, text_eq→eq, true, update_where, ◌≡◌,
}
use dos_amigos_ops.Models.{HermesReportOutbox, HermesReportRecipientDelivery, Tables}
use dos_amigos_ops.OutboxApi.Requests.{has_id, is_for}

abbrev pub report : Text → Tables → Option HermesReportOutbox
report id db = find (has_id id) db.outbox

abbrev pub recipient : Text → Text → Tables → Option HermesReportRecipientDelivery
recipient id key db = find (is_for id key) db.recipients

pub id-of-report :
    (id : Text) (rows : List HermesReportOutbox) {row : HermesReportOutbox}
    → find (has_id id) rows ≡ some row
    → row.id ≡ id
id-of-report id rows {row} h = text_eq→eq row.id id (find_sound (has_id id) rows h)

text_eq_ne : (a b c : Text) → text_eq b c ≡ false → text_eq a b ≡ true → text_eq a c ≡ false
text_eq_ne a b c h k = rw (text_eq→eq a b k) h

-- A row that replaces the one with its id is what its id leads to; other ids lead where they did.
pub report-save :
    (k : Text) (row x : HermesReportOutbox) (rows : List HermesReportOutbox)
    → find (has_id row.id) rows ≡ some x
    → find (has_id k) (update_where (has_id row.id) (λ _. row) rows)
      ≡ (if text_eq row.id k then some row else find (has_id k) rows)
report-save k row x rows h = elim (Bool-cases (text_eq row.id k)) [
  | inl same ↦ rw same (
      rw (← text_eq→eq row.id k same)
        (find-update_self (has_id row.id) row rows (text_eq_refl row.id) h))
  | inr other ↦ rw other (
      find-update_ne (has_id row.id) (has_id k) row rows (λ y e. text_eq_ne y.id row.id k other e)
        other)
]
