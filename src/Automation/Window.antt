-- ===== src/Automation/Window.antt =====
-- The days that a back-fill imports.
use dos_amigos_ops.Automation.Outbox.{HermesPayload}
use dos_amigos_ops.Automation.Runs.{SalesAutomationConfig}
use dos_amigos_ops.Automation.Service.{Site, days_from, find_backfill_days, is_due}
use dos_amigos_ops.Base.{
  ==_iff, ==_refl, Bool, Bool-cases, List, Text, [], any, arith, inl, inr, leb, ltb, min, refl, suc,
  where_rows, zero, ℕ, ◌&&◌, ◌+◌, ◌-◌, ◌==◌, ◌∙◌, ◌∷◌, ◌≡◌, ◌≤◌,
}
use dos_amigos_ops.Base.Action.{Result}
use dos_amigos_ops.Models.{Env, Tables}
use dos_amigos_ops.Sales.{Normalization, RawResult}

any-where_rows :
    (p : ℕ → Bool) (d : ℕ) (xs : List ℕ)
    → any (λ x. x == d) (where_rows p xs) ≡ (any (λ x. x == d) xs && p d)
unfolding any where_rows
any-where_rows p d [] = refl
any-where_rows p d (x ∷ xs) = elim (Bool-cases (x == d)) [
  | inl same ↦
      let e : x ≡ d = (==_iff x d).0 same in rw e (ground (arith, any-where_rows p d xs, ==_refl d))
  | inr other ↦ ground (arith, any-where_rows p d xs)
]

any-days_from : (n day d : ℕ) → any (λ x. x == d) (days_from n day) ≡ (leb day d && ltb d (day + n))
unfolding any days_from
any-days_from zero day d = ground arith
any-days_from (suc n) day d = ground (arith, any-days_from n (day + 1) d)

module _ (env : Env) (lower : Text → Text) {P : Type 0}
    (fetch : ℕ → Text → ℕ → Result (RawResult P)) (normalize : P → Text → ℕ → Normalization)
    (build_payload : Tables → Text → ℕ → Result HermesPayload) (site : Site)
    (config : SalesAutomationConfig) where
  -- A back-fill takes exactly the due days of a window that ends with its target day and has as
  -- many days as were asked for, the configured maximum at most.
  pub find_backfill_days_lem :
      (target_date backfill_days d : ℕ) (retry_partial : Bool) (db : Tables)
      → min backfill_days config.backfill_max_days ≤ target_date
      → any
          (λ x. x == d)
          (find_backfill_days env lower fetch normalize build_payload site config target_date
            backfill_days retry_partial db)
        ≡ ((leb (target_date + 1 - min backfill_days config.backfill_max_days) d
              && leb d target_date)
            && is_due env lower fetch normalize build_payload site config retry_partial db d)
  unfolding find_backfill_days
  find_backfill_days_lem target_date backfill_days d retry_partial db h =
      let limit = min backfill_days config.backfill_max_days in
      any-where_rows (is_due env lower fetch normalize build_payload site config retry_partial db) d
        (days_from limit (target_date + 1 - limit))
      ∙ rw (any-days_from limit (target_date + 1 - limit) d) (ground arith)
