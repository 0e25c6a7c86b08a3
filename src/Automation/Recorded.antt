-- ===== src/Automation/Recorded.antt =====
-- The rows of runs during an import, between `start_run` and `finish_run`.
use dos_amigos_ops.Automation.Outbox.{
  HermesPayload, create_outbox, ensure_enabled, ensure_outbox, has_key, is_outdated, outbox_result,
  place_outbox, refresh_outbox,
}
use dos_amigos_ops.Automation.Runs.{AutomationStatus, SalesAutomationConfig}
use dos_amigos_ops.Automation.Service.{
  Site, existing_result, failed_import, import_day, imported_result,
}
use dos_amigos_ops.Base.{
  Bool, Bool-cases, List, Option, Text, ap, find, inl, inr, is_some, none, not, refl, some, ℕ, ◌&&◌,
  ◌||◌, ◌∙◌, ◌≡◌,
}
use dos_amigos_ops.Base.Action.{Result, gets}
use dos_amigos_ops.Base.Keeps.{Keeps, Keeps-bind, Keeps-if, Keeps-pure}
use dos_amigos_ops.Models.{
  Env, HermesReportOutbox, IikoSalesAutomationRun, Session, Tables, TriggerType, is_usable,
}
use dos_amigos_ops.OutboxApi.{save_outbox}
use dos_amigos_ops.Sales.{Normalization, RawResult, get_daily, sync_day}
use dos_amigos_ops.Sales.Atomic.{Clean}
use dos_amigos_ops.Sales.Untouched.{Apart, sync_day-apart}

abbrev pub stored_runs : Session → List IikoSalesAutomationRun
stored_runs s = s.working.automation_runs

abbrev pub KeepsRuns : Session → Session → Type 0
KeepsRuns s t = Clean s → Clean t × (stored_runs t ≡ stored_runs s)

KeepsRuns-refl : (s : Session) → KeepsRuns s s
KeepsRuns-refl s h = (h, refl)

KeepsRuns-trans : (s t v : Session) → KeepsRuns s t → KeepsRuns t v → KeepsRuns s v
KeepsRuns-trans s t v h k c = let (c', e) = h c in let (c'', e') = k c' in (c'', e' ∙ e)

module _ (env : Env) (lower : Text → Text) {P : Type 0}
    (fetch : ℕ → Text → ℕ → Result (RawResult P)) (normalize : P → Text → ℕ → Normalization)
    (org : Text) where
  pub sync_day-runs :
      (day : ℕ) (dry_run : Bool)
      → Keeps KeepsRuns (sync_day env lower fetch normalize org day dry_run)
  sync_day-runs day dry_run = record {
    at = λ s clean.
        let (clean', same) =
          (sync_day-apart env lower fetch normalize org day dry_run).at s clean in
        (clean', ap (λ (a : Apart). a.automation_runs) same);
  }

module _ (env : Env) (build_payload : Tables → Text → ℕ → Result HermesPayload)
    (config : SalesAutomationConfig) where
  place_outbox-runs :
      (payload : HermesPayload) (day : ℕ) (existing : Option HermesReportOutbox)
      → Keeps KeepsRuns (place_outbox env build_payload config payload day existing)
  unfolding place_outbox create_outbox refresh_outbox save_outbox
  place_outbox-runs payload day none = record { at = λ s h. (refl, refl) }
  place_outbox-runs payload day (some row) = elim (Bool-cases (is_outdated payload row)) [
    | inl outdated ↦ rw outdated (record { at = λ s h. (refl, refl) })
    | inr current ↦ rw current (record { at = λ s h. (h, refl) })
  ]

  ensure_outbox-runs :
      (day : ℕ) (dry_run : Bool)
      → Keeps KeepsRuns (ensure_outbox env build_payload config day dry_run)
  unfolding ensure_outbox ensure_enabled
  ensure_outbox-runs day dry_run =
      Keeps-if KeepsRuns KeepsRuns-refl KeepsRuns-trans (dry_run || not config.outbox_enabled) _ _
        (Keeps-pure KeepsRuns KeepsRuns-refl KeepsRuns-trans
          (outbox_result env build_payload config AutomationStatus.skipped day dry_run))
        (Keeps-bind KeepsRuns KeepsRuns-refl KeepsRuns-trans
          (λ (v : Session). (build_payload v.working config.organization_id day, v)) _
          (record { at = λ s h. (h, refl) })
          (λ p.
            Keeps-bind KeepsRuns KeepsRuns-refl KeepsRuns-trans
              (gets (λ (v : Session). find (has_key p.idempotency_key) v.working.outbox)) _
              (record { at = λ s h. (h, refl) }) (λ existing. place_outbox-runs p day existing)))

  module _ (lower : Text → Text) {P : Type 0} (fetch : ℕ → Text → ℕ → Result (RawResult P))
      (normalize : P → Text → ℕ → Normalization) (site : Site) where
    pub import_day-runs :
        (trigger : TriggerType) (day : ℕ) (dry_run force no_publish : Bool)
        → Keeps KeepsRuns (
            import_day env lower fetch normalize build_payload site config trigger day dry_run force
              no_publish)
    unfolding import_day
    import_day-runs trigger day dry_run force no_publish =
        Keeps-bind KeepsRuns KeepsRuns-refl KeepsRuns-trans
          (gets (λ (v : Session). get_daily config.organization_id day v.working)) _
          (record { at = λ s h. (h, refl) })
          (λ existing.
            Keeps-if KeepsRuns KeepsRuns-refl KeepsRuns-trans (is_some existing && not force) _ _
              (Keeps-bind KeepsRuns KeepsRuns-refl KeepsRuns-trans _ _
                (ensure_outbox-runs day (dry_run || no_publish))
                (λ outbox. Keeps-pure KeepsRuns KeepsRuns-refl KeepsRuns-trans (
                  existing_result env lower fetch normalize build_payload site config trigger day
                    dry_run outbox)))
              (Keeps-bind KeepsRuns KeepsRuns-refl KeepsRuns-trans _ _
                (sync_day-runs env lower fetch normalize config.organization_id day dry_run)
                (λ sync.
                  Keeps-if KeepsRuns KeepsRuns-refl KeepsRuns-trans (is_usable sync.status) _ _
                    (Keeps-bind KeepsRuns KeepsRuns-refl KeepsRuns-trans _ _
                      (ensure_outbox-runs day (dry_run || no_publish))
                      (λ outbox. Keeps-pure KeepsRuns KeepsRuns-refl KeepsRuns-trans (
                        imported_result env lower fetch normalize build_payload site config trigger
                          day dry_run sync outbox)))
                    (Keeps-pure KeepsRuns KeepsRuns-refl KeepsRuns-trans (
                      failed_import env lower fetch normalize build_payload site config trigger day
                        dry_run sync)))))
