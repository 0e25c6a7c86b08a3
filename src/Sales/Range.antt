-- ===== src/Sales/Range.antt =====
-- The days of a range, and what `sync_range` adds up.
use dos_amigos_ops.Base.{
  Bool, List, Option-cases, Text, [], arith, false, inl, inr, length, max, none, refl, subst, suc,
  sym, true, zero, ℕ, ◌+◌, ◌-◌, ◌<◌, ◌↔◌, ◌∷◌, ◌≡◌, ◌≤◌, ◌⊎◌,
}
use dos_amigos_ops.Base.Action.{Result, bind_answer, err, ok, pure, ◌>>=◌}
use dos_amigos_ops.Models.{Env, ResultStatus, Session}
use dos_amigos_ops.Sales.Sync.{
  IikoSalesSyncResult, Normalization, RangeTotals, RawResult, merge_day, merge_status, no_days,
  range_result, sync_day, sync_days, sync_range, validate_date_range,
}

abbrev pub severity : ResultStatus → ℕ
severity ResultStatus.proven = 0
severity ResultStatus.partial = 1
severity ResultStatus.blocked = 2
severity ResultStatus.unknown = 3

severity-merge_status :
    (a b : ResultStatus) → severity (merge_status a b) ≡ max (severity a) (severity b)
unfolding merge_status
severity-merge_status a b = ground arith

abbrev pub worst : List IikoSalesSyncResult → ℕ
worst [] = 0
worst (r ∷ rs) = max (severity r.status) (worst rs)

abbrev pub total_rows : List IikoSalesSyncResult → ℕ
total_rows [] = 0
total_rows (r ∷ rs) = r.source_rows + total_rows rs

abbrev pub total_persisted : List IikoSalesSyncResult → ℕ
total_persisted [] = 0
total_persisted (r ∷ rs) = r.records_persisted + total_persisted rs

-- A range is accepted exactly if its end is not before its start, it has at most 31 days, and its
-- end is before today unless an open day is allowed.
pub validate_date_range_lem :
    (today date_from date_to : ℕ) (allow_open_day : Bool)
    → (validate_date_range today date_from date_to allow_open_day ≡ none) ↔ (
        (date_from ≤ date_to)
        × (date_to ≤ date_from + 30)
        × ((allow_open_day ≡ true) ⊎ (date_to < today)))
unfolding validate_date_range
validate_date_range_lem today date_from date_to true = ground arith
validate_date_range_lem today date_from date_to false = ground arith

module _ (env : Env) (lower : Text → Text) {P : Type 0}
    (fetch : ℕ → Text → ℕ → Result (RawResult P)) (normalize : P → Text → ℕ → Normalization)
    (org : Text) (dry_run : Bool) where
  -- The days from `current` on, each synchronised once on the session that the one before left,
  -- from `s` to `t`, and their results.
  abbrev pub DayAnswers : ℕ → List IikoSalesSyncResult → Session → Session → Type 0
  DayAnswers current [] s t = t ≡ s
  DayAnswers current (r ∷ rs) s t =
      let (answer, next) = sync_day env lower fetch normalize org current dry_run s in
      (answer ≡ ok r) × DayAnswers (current + 1) rs next t

  -- What the loop adds to its variables.
  record Added (current days : ℕ) (a b : RangeTotals) (s t : Session) : Type 0 where
    results : List IikoSalesSyncResult
    answers : DayAnswers current results s t
    count : length results ≡ days
    processed : b.days_processed ≡ a.days_processed + days
    status : severity b.status ≡ max (severity a.status) (worst results)
    source_rows : b.source_rows ≡ a.source_rows + total_rows results
    persisted : b.persisted ≡ a.persisted + total_persisted results

  sync_days-Added :
      (days current : ℕ) (a b : RangeTotals) (s : Session)
      → (sync_days env lower fetch normalize org days current dry_run a s).0 ≡ ok b
      → Added current days a b s
          (sync_days env lower fetch normalize org days current dry_run a s).1
  unfolding sync_days merge_day
  sync_days-Added zero current a b s h =
      let same : a ≡ b = cc h in
      rw (sym same) (record {
        results = [];
        answers = refl;
        count = refl;
        processed = omega arith;
        status = omega arith;
        source_rows = omega arith;
        persisted = omega arith;
      })
  sync_days-Added (suc days) current a b s h =
      let (r, answered, rest, last) =
        bind_answer (sync_day env lower fetch normalize org current dry_run)
          (λ result.
            sync_days env lower fetch normalize org days (current + 1) dry_run (merge_day a result))
          s b h in
      let more =
        sync_days-Added days (current + 1) (merge_day a r) b
          (sync_day env lower fetch normalize org current dry_run s).1 rest in
      record {
        results = r ∷ more.results;
        answers = (
          answered,
          subst
              (DayAnswers (current + 1) more.results
                (sync_day env lower fetch normalize org current dry_run s).1)
              (sym last) more.answers,
        );
        count = omega (arith, more.count);
        processed = omega (arith, more.processed);
        status = omega (arith, more.status, severity-merge_status a.status r.status);
        source_rows = omega (arith, more.source_rows);
        persisted = omega (arith, more.persisted);
      }

  -- What is promised of a range that is answered.
  abbrev Ranged : ℕ → ℕ → Session → IikoSalesSyncResult → Session → Type 0
  Ranged date_from date_to s result t =
      (results : List IikoSalesSyncResult) × DayAnswers date_from results s t
      × (length results ≡ date_to + 1 - date_from)
      × (result.days_processed ≡ length results)
      × (severity result.status ≡ worst results)
      × (result.source_rows ≡ total_rows results)
      × (result.records_persisted ≡ total_persisted results)

  accepted_range :
      (date_from date_to : ℕ) (s : Session) (result : IikoSalesSyncResult)
      → let whole =
          ◌>>=◌
            (sync_days env lower fetch normalize org
              (date_to + 1 - date_from)
              date_from
              dry_run
              no_days)
            (λ totals.
              pure (range_result env lower fetch normalize org date_from date_to dry_run totals))
            s in
        whole.0 ≡ ok result → Ranged date_from date_to s result whole.1
  accepted_range date_from date_to s result h =
      let (totals, summed, last, final) =
        bind_answer
          (sync_days env lower fetch normalize org (date_to + 1 - date_from) date_from dry_run
            no_days)
          (λ totals.
            pure (range_result env lower fetch normalize org date_from date_to dry_run totals))
          s result h in
      let more = sync_days-Added (date_to + 1 - date_from) date_from no_days totals s summed in
      let same : range_result env lower fetch normalize org date_from date_to dry_run totals
          ≡ result =
        cc last in
      (
        more.results,
        subst (DayAnswers date_from more.results s) (sym final) more.answers,
        more.count,
        rw (sym same) (omega (arith, more.processed, more.count)),
        rw (sym same) (omega (arith, more.status)),
        rw (sym same) (omega (arith, more.source_rows)),
        rw (sym same) (omega (arith, more.persisted)),
      )

  -- If a range is answered, it was a valid one; each of its days was synchronised once, in their
  -- order, the first on the session at the start and each next one on what the one before left,
  -- and nothing else changed the session. The answer counts them: its status is the worst one of
  -- the days (unknown before blocked, partial and proven), its rows and persisted rows are the sums.
  pub sync_range_lem :
      (today date_from date_to : ℕ) (allow_open_day : Bool) (s : Session)
      (result : IikoSalesSyncResult)
      → let (answer, t) =
          sync_range env lower fetch normalize org today date_from date_to dry_run allow_open_day
            s in
        answer ≡ ok result
        → (validate_date_range today date_from date_to allow_open_day ≡ none)
          × (results : List IikoSalesSyncResult) × DayAnswers date_from results s t
          × (length results ≡ date_to + 1 - date_from)
          × (result.days_processed ≡ length results)
          × (severity result.status ≡ worst results)
          × (result.source_rows ≡ total_rows results)
          × (result.records_persisted ≡ total_persisted results)
  unfolding sync_range
  sync_range_lem today date_from date_to allow_open_day s result h =
      elim (Option-cases (validate_date_range today date_from date_to allow_open_day)) [
        | inr (e, invalid) ↦ let raised : err e ≡ ok result = rw invalid at h in cc raised
        | inl fine ↦
            let (results, answers, count, days, status, rows, persisted) =
              accepted_range date_from date_to s result (rw fine at h) in
            rw fine (refl, results, answers, count, days, status, rows, persisted)
      ]
