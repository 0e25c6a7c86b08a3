-- ===== src/Automation/Placed.antt =====
-- The daily report that `ensure_outbox` leaves in the outbox.
use dos_amigos_ops.Automation.Outbox.{
  HermesPayload, create_outbox, ensure_enabled, ensure_outbox, has_key, is_outdated, is_superseded,
  is_yes, json_eq, new_report, outbox_result, place_outbox, refresh_outbox, refreshed_row,
}
use dos_amigos_ops.Automation.Runs.{AutomationStatus, SalesAutomationConfig, SalesAutomationResult}
use dos_amigos_ops.Base.{
  Bool, Bool-cases, List, Option, Text, [], ap, arith, false, find, find-append_none, find_sound,
  if◌then◌else◌, inl, inr, none, not, refl, some, subst, sym, text_eq_refl, text_eq→eq, true,
  update_where, ℕ, ◌+◌, ◌||◌, ◌∙◌, ◌∷◌, ◌≡◌, ◌≢◌,
}
use dos_amigos_ops.Base.Action.{Result, bind_ok, gets, ok, pure, ◌>>=◌}
use dos_amigos_ops.Models.{
  DbAction, DeliveryStatus, Env, HermesReportOutbox, PayloadJson, PayloadJson-discrete, Session,
  Tables, is_delivered,
}
use dos_amigos_ops.OutboxApi.{has_id, save_outbox}

yes_of : {A : Type 0} (d : Dec A) → A → is_yes d ≡ true
yes_of (yes _) a = refl
yes_of (no n) a = absurd (n a)

of_yes : {A : Type 0} (d : Dec A) → is_yes d ≡ true → A
of_yes (yes a) h = a
of_yes (no _) h = cc

json_eq_refl : (a : PayloadJson) → json_eq a a ≡ true
unfolding json_eq
json_eq_refl a = yes_of (PayloadJson-discrete a a) refl

json_eq→eq : (a b : PayloadJson) → json_eq a b ≡ true → a ≡ b
unfolding json_eq
json_eq→eq a b h = of_yes (PayloadJson-discrete a b) h

unless_not : {A : Type 0} (b : Bool) (x y : A) → b ≡ true → (if false || not b then x else y) ≡ y
unless_not true x y h = refl
unless_not false x y h = cc

-- A row is written over by one that the query selects too.
find_written :
    {A : Type 0} (p q : A → Bool) (r : A) (xs : List A) {y : A}
    → find p xs ≡ some y
    → q y ≡ true
    → p r ≡ true
    → find p (update_where q (λ _. r) xs) ≡ some r
unfolding find update_where
find_written p q r [] h k l = cc
find_written p q r (x ∷ xs) {y} h k l = ground (arith, find_written p q r xs {y = y})

find-update_none :
    {A : Type 0} (p q : A → Bool) (f : A → A) (xs : List A)
    → ((x : A) → p (f x) ≡ p x)
    → find p xs ≡ none
    → find p (update_where q f xs) ≡ none
unfolding find update_where
find-update_none p q f [] h k = refl
find-update_none p q f (x ∷ xs) h k = ground (arith, find-update_none p q f xs h, h x)

-- A row that is not outdated says what the payload says, unless it is delivered.
pub record Current (payload : HermesPayload) (row : HermesReportOutbox) : Type 0 where
  pub idempotency_key : row.idempotency_key ≡ payload.idempotency_key
  pub payload_json :
      row.delivery_status ≢ DeliveryStatus.delivered → row.payload_json ≡ payload.payload_json
  pub payload_markdown :
      row.delivery_status ≢ DeliveryStatus.delivered
      → row.payload_markdown ≡ payload.payload_markdown

not_delivered : (d : DeliveryStatus) → d ≢ DeliveryStatus.delivered → is_delivered d ≡ false
not_delivered DeliveryStatus.pending h = refl
not_delivered DeliveryStatus.delivering h = refl
not_delivered DeliveryStatus.delivered h = absurd (h refl)
not_delivered DeliveryStatus.failed h = refl
not_delivered DeliveryStatus.superseded h = refl

not_outdated-Current :
    (payload : HermesPayload) (row : HermesReportOutbox)
    → row.idempotency_key ≡ payload.idempotency_key
    → is_outdated payload row ≡ false
    → Current payload row
unfolding is_outdated
not_outdated-Current payload row e h = record {
  idempotency_key = e;
  payload_json = λ n.
      json_eq→eq row.payload_json payload.payload_json
        (ground (arith, not_delivered row.delivery_status n));
  payload_markdown = λ n.
      text_eq→eq row.payload_markdown payload.payload_markdown
        (ground (arith, not_delivered row.delivery_status n));
}

is_outdated-new_report :
    (id org : Text) (day now : ℕ) (payload : HermesPayload)
    → is_outdated payload (new_report id org day payload now) ≡ false
unfolding is_outdated
is_outdated-new_report id org day now payload =
    rw (json_eq_refl payload.payload_json, text_eq_refl payload.payload_markdown) refl

is_outdated-refreshed_row :
    (payload : HermesPayload) (now : ℕ) (row : HermesReportOutbox)
    → is_outdated payload (refreshed_row payload now row) ≡ false
unfolding is_outdated
is_outdated-refreshed_row payload now row =
    ground (arith, json_eq_refl payload.payload_json, text_eq_refl payload.payload_markdown)

module _ (env : Env) (build_payload : Tables → Text → ℕ → Result HermesPayload)
    (config : SalesAutomationConfig) (payload : HermesPayload) (day : ℕ) where
  -- The row of the payload's key, which is not outdated.
  abbrev Placed : Session → Type 0
  Placed t =
      (row : HermesReportOutbox) × (find (has_key payload.idempotency_key) t.working.outbox
        ≡ some row)
      × (is_outdated payload row ≡ false)

  place_outbox-Placed :
      (existing : Option HermesReportOutbox) (s : Session)
      → find (has_key payload.idempotency_key) s.working.outbox ≡ existing
      → Placed (place_outbox env build_payload config payload day existing s).1
  unfolding place_outbox create_outbox refresh_outbox save_outbox
  place_outbox-Placed none s h =
      let new =
        new_report (env.uuid s.draws) config.organization_id day payload (env.now (s.ticks + 1)) in
      (
        new,
        find-append_none (has_key payload.idempotency_key) _ (new ∷ []) (
              find-update_none (has_key payload.idempotency_key)
                (is_superseded config.organization_id day) _ s.working.outbox (λ x. refl) h)
            ∙ unfold find in rw (text_eq_refl payload.idempotency_key) refl,
        is_outdated-new_report (env.uuid s.draws) config.organization_id day (env.now (s.ticks + 1))
            payload,
      )
  place_outbox-Placed (some row) s h = elim (Bool-cases (is_outdated payload row)) [
    | inl outdated ↦ rw outdated (
      refreshed_row payload (env.now s.ticks) row,
      find_written (has_key payload.idempotency_key) (has_id row.id)
          (refreshed_row payload (env.now s.ticks) row) s.working.outbox h (text_eq_refl row.id)
          (find_sound (has_key payload.idempotency_key) s.working.outbox h),
      is_outdated-refreshed_row payload (env.now s.ticks) row,
    )
    | inr current ↦ rw current (row, h, current)
  ]

  pub enabled_call :
      (s : Session)
      → config.outbox_enabled ≡ true
      → ensure_outbox env build_payload config day false s
        ≡ ensure_enabled env build_payload config day s
  unfolding ensure_outbox
  enabled_call s enabled =
      ap (λ (m : DbAction SalesAutomationResult). m s)
        (unless_not config.outbox_enabled
          (pure (outbox_result env build_payload config AutomationStatus.skipped day false))
          (ensure_enabled env build_payload config day) enabled)

  pub built_call :
      (s : Session)
      → build_payload s.working config.organization_id day ≡ ok payload
      → ensure_enabled env build_payload config day s
        ≡ place_outbox env build_payload config payload day
            (find (has_key payload.idempotency_key) s.working.outbox)
            s
  unfolding ensure_enabled
  built_call s built =
      bind_ok (λ (v : Session). (build_payload v.working config.organization_id day, v))
        (λ p.
          gets (λ (v : Session). find (has_key p.idempotency_key) v.working.outbox) >>= λ existing.
          place_outbox env build_payload config p day existing)
        s s payload (ap (λ (r : Result HermesPayload). (r, s)) built)

  again :
      (t : Session) (row : HermesReportOutbox)
      → find (has_key payload.idempotency_key) t.working.outbox ≡ some row
      → is_outdated payload row ≡ false
      → place_outbox env build_payload config payload day
          (find (has_key payload.idempotency_key) t.working.outbox)
          t
        ≡ (
          ok (record (outbox_result env build_payload config AutomationStatus.unchanged day false) {
            outbox_ids = row.id ∷ [];
          }),
          t,
        )
  unfolding place_outbox refresh_outbox
  again t row found fresh = rw (found, fresh) refl

  -- Where the outbox is enabled and a payload is built, a call leaves a row under the payload's
  -- key which, unless it is delivered, has the payload and the text just built. A second call that
  -- is given the same payload changes nothing and answers `unchanged` with the id of that row. The
  -- recipients are not looked at: the payload is written over also where rows of recipients exist,
  -- where docs/s1-6-2-daily-coo-report.md (Stage B) calls it immutable.
  pub ensure_outbox-Current :
      (s : Session)
      → config.outbox_enabled ≡ true
      → build_payload s.working config.organization_id day ≡ ok payload
      → let t = (ensure_outbox env build_payload config day false s).1 in
        build_payload t.working config.organization_id day ≡ ok payload
        → (row : HermesReportOutbox) × (find (has_key payload.idempotency_key) t.working.outbox
            ≡ some row)
          × Current payload row
          × (ensure_outbox env build_payload config day false t ≡ (
            ok
                (record (outbox_result env build_payload config AutomationStatus.unchanged day
                  false) { outbox_ids = row.id ∷ [] }),
            t,
          ))
  ensure_outbox-Current s enabled built built_again =
      let existing = find (has_key payload.idempotency_key) s.working.outbox in
      let t = (ensure_outbox env build_payload config day false s).1 in
      let (row, found, fresh) =
        subst (λ (r : Result SalesAutomationResult × Session). Placed r.1)
          (sym (enabled_call s enabled ∙ built_call s built))
          (place_outbox-Placed existing s refl) in
      (
        row,
        found,
        not_outdated-Current payload row
            (text_eq→eq row.idempotency_key payload.idempotency_key
              (find_sound (has_key payload.idempotency_key) t.working.outbox found))
            fresh,
        enabled_call t enabled ∙ built_call t built_again ∙ again t row found fresh,
      )
