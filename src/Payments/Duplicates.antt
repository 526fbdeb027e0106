-- ===== src/Payments/Duplicates.antt =====
-- A webhook that arrives again (modules/payments/service.ts, lines 527-545).
use smart_light.Prelude.{
  ℕ, ℤ, String, str_eq, Bool, true, false, Option, none, some, ◌≡◌, refl, sym, ◌∙◌, inl, inr, arith,
  Bool-cases, Option-cases, ◌≢◌, Outcome, Outcome-cases, ok, if◌then◌else◌,
}
use text.Mathlib.TextEquality.{eq_iff}
use smart_light.Table.{find_first, IsUnique}
use smart_light.Table.Keys.{find_at}
use smart_light.Payments.Errors.{PaymentProvider, same_provider, PaymentError}
use smart_light.Payments.Tables.{
  Payment, EventId, event, unknown_at, WebhookStatus, LogNote, no_note, already_success,
  PaymentWebhookLog, PaymentTables,
}
use smart_light.Payments.Service.{
  find_by_id, find_by_order_id, find_by_provider_txn_id, find_webhook,
}
use smart_light.Payments.Service.Callback.{CallbackResult, event_or, apply_callback}
use smart_light.Payments.Service.Webhook.{
  locate_payment, by_reference, or_else, log_and_throw, seen, mark_duplicate, process_callback,
  handle_verified, handle_webhook, WebhookAnswer, applied_answer, duplicate_answer,
}
use smart_light.Payments.Service.Create.{has_gateway}
use smart_light.Payments.Callbacks.{called, logged, create_webhook_log-cases, apply_callback-cases}
use smart_light.Payments.Callbacks.Kept.{
  handle_verified_first, handle_verified-seen, handle_webhook_verified, handle_webhook_skipped,
  processed_made, processed_thrown, lost, mismatched, unequal,
}

-- A payment that was located is the one that its id finds.
found_by_id :
    (q : Payment → Bool) (db : PaymentTables) {p : Payment}
    → IsUnique (λ x. x.id) db.payment
    → find_first q db.payment ≡ some p
    → find_by_id p.id db ≡ some p
unfolding find_by_id
found_by_id q db u found = find_at (λ x. x.id) q db.payment u found

pub some_eq : {x y : Payment} → some x ≡ some y → x ≡ y
some_eq k = cc

pub ok_state :
    {A : Type 0} {a b : A} {s t : PaymentTables}
    → Path (Outcome PaymentTables PaymentError A) (ok a s) (ok b t)
    → s ≡ t
ok_state h = cc

by_reference-found :
    (provider : PaymentProvider) (ref : Option ℕ) (db : PaymentTables) {p : Payment}
    → IsUnique (λ x. x.id) db.payment
    → by_reference provider ref db ≡ some p
    → find_by_id p.id db ≡ some p
unfolding find_by_order_id
by_reference-found provider none db u found = absurd (cc found)
by_reference-found provider (some order) db {p} u found =
    elim (Option-cases (find_by_order_id order db)) [
      | inl missing ↦ absurd (ground (arith, missing, found))
      | inr (x, known) ↦ elim (Bool-cases (same_provider x.provider provider)) [
        | inr other ↦ absurd (ground (arith, known, found, other))
        | inl same ↦
            let eq : x ≡ p = some_eq (ground (arith, known, found, same)) in
            found_by_id _ db u (known ∙ rw eq refl)
      ]
    ]

or_else-found :
    (a b : Option Payment) (db : PaymentTables) {p : Payment}
    → ((x : Payment) → a ≡ some x → find_by_id x.id db ≡ some x)
    → ((x : Payment) → b ≡ some x → find_by_id x.id db ≡ some x)
    → or_else a b ≡ some p
    → find_by_id p.id db ≡ some p
or_else-found none b db fa fb h = fb _ h
or_else-found (some x) b db fa fb h = fa _ h

locate_payment-found :
    (provider : PaymentProvider) (c : CallbackResult) (db : PaymentTables) {p : Payment}
    → IsUnique (λ x. x.id) db.payment
    → locate_payment provider c db ≡ some p
    → find_by_id p.id db ≡ some p
unfolding locate_payment find_by_provider_txn_id
locate_payment-found provider c db u located =
    or_else-found _ _ db (λ x. by_txn)
      (λ x.
        or_else-found _ _ db (λ y. by_reference-found provider c.raw_order_id db u)
          (λ y.
            or_else-found _ _ db (λ z. by_reference-found provider c.raw_txn_ref db u)
              (λ z. by_reference-found provider c.raw_custom_id db u)))
      located
  where
    by_txn :
        {x : Payment}
        → (if str_eq c.provider_txn_id ""
            then none
            else find_by_provider_txn_id provider c.provider_txn_id db)
          ≡ some x
        → find_by_id x.id db ≡ some x
    by_txn h = elim (Bool-cases (str_eq c.provider_txn_id "")) [
      | inl blank ↦ absurd (cc (rw blank at h))
      | inr given ↦ found_by_id _ db u (rw given at h)
    ]

-- The tables know an event of a provider.
abbrev pub Knows : PaymentProvider → String → PaymentTables → Type 0
Knows provider e db = (w : PaymentWebhookLog) × (find_webhook provider (event e) db ≡ some w)

logged-Knows :
    (payment : Option ℕ) (provider other : PaymentProvider) (e : String) (status : WebhookStatus)
    (note : LogNote) (db : PaymentTables) (id : EventId)
    → id ≡ event e
    → same_provider other provider ≡ true
    → Knows provider e (logged payment other id status note db)
unfolding find_webhook find_first
logged-Knows payment provider other e status note db id text same = (
  record {
    id = db.next_id;
    payment_id = payment;
    provider = other;
    event_id = id;
    status = status;
    error_message = note;
  },
  ground (arith, same, text, (eq_iff e e).1 refl),
)

module _ (id_text : ℕ → String) (now : ℕ) (provider : PaymentProvider) (c : CallbackResult)
    (e : String) (db : PaymentTables) (given : c.event_id ≡ some e) where
  applied-Knows :
      {p : Payment}
      → IsUnique (λ x. x.id) db.payment
      → locate_payment provider c db ≡ some p
      → same_provider p.provider provider ≡ true
      → (s : PaymentTables) → apply_callback id_text now p.id c db ≡ ok tt s
      → Knows provider e s
  applied-Knows {p} u located same s made = elim (apply_callback-cases id_text now p.id c db) [
    | inl (x, thrown) ↦ absurd (cc (thrown, made))
    | inr done ↦ elim done [
      | inl r ↦ rw (sym (ok_state (sym r.result ∙ made))) (
          logged-Knows (some p.id) provider r.payment.provider e WebhookStatus.duplicate
            already_success db _ (rw given refl) (rw (same_payment r.found) same))
      | inr a ↦ rw (sym (ok_state (sym a.result ∙ made))) (
          logged-Knows (some p.id) provider a.payment.provider e WebhookStatus.processed no_note
            (called id_text c a.payment now p.id db) _ (rw given refl)
            (rw (same_payment a.found) same))
    ]
  ]
    where
      same_payment : {x : Payment} → find_by_id p.id db ≡ some x → x ≡ p
      same_payment found = some_eq (sym found ∙ locate_payment-found provider c db u located)

module _ (id_text : ℕ → String) (differ : ℤ → ℤ → Bool) (now : ℕ) (provider : PaymentProvider)
    (c : CallbackResult) (e : String) (db db' : PaymentTables) (given : c.event_id ≡ some e)
    (u : IsUnique (λ x. x.id) db.payment) where
  log_and_throw-throws :
      (note : LogNote) (x : PaymentError) (s : PaymentTables) (reason : WebhookAnswer)
      → log_and_throw now provider c note x db ≢ ok reason s
  log_and_throw-throws note x s reason h =
      elim (create_webhook_log-cases none provider (event_or c.event_id (unknown_at now))
        WebhookStatus.failed note db) [
          | inl known ↦ ground (arith, known, h)
          | inr free ↦ ground (arith, free, h)
        ]

  equal-Knows :
      {p : Payment}
      → locate_payment provider c db ≡ some p
      → same_provider p.provider provider ≡ true
      → differ p.amount c.amount ≡ false
      → process_callback id_text differ now provider c db ≡ ok applied_answer db'
      → Knows provider e db'
  equal-Knows {p} located same equal made =
      elim (Outcome-cases (apply_callback id_text now p.id c db)) [
        | inr (x, s, thrown) ↦
            absurd (
              cc
                (processed_thrown id_text differ now provider c db located same equal thrown, made))
        | inl (_, s, applied) ↦
            rw
              (ok_state (
                sym made
                ∙ processed_made id_text differ now provider c db located same equal applied))
              (applied-Knows id_text now provider c e db given u located same s applied)
      ]

  process_callback-Knows :
      process_callback id_text differ now provider c db ≡ ok applied_answer db'
      → Knows provider e db'
  process_callback-Knows made = elim (Option-cases (locate_payment provider c db)) [
    | inl missing ↦ absurd (
        log_and_throw-throws _ _ db' applied_answer
          (sym (lost id_text differ now provider c db missing) ∙ made))
    | inr (p, located) ↦ elim (Bool-cases (same_provider p.provider provider)) [
      | inr other ↦ absurd (
          log_and_throw-throws _ _ db' applied_answer
            (sym (mismatched id_text differ now provider c db located other) ∙ made))
      | inl same ↦ elim (Bool-cases (differ p.amount c.amount)) [
        | inl unlike ↦ absurd (
            log_and_throw-throws _ _ db' applied_answer
              (sym (unequal id_text differ now provider c db located same unlike) ∙ made))
        | inr equal ↦ equal-Knows located same equal made
      ]
    ]
  ]

  handle_verified-Knows :
      handle_verified id_text differ now provider c db ≡ ok applied_answer db'
      → Knows provider e db'
  handle_verified-Knows made = elim (Option-cases (seen provider c db)) [
    | inl first ↦
        process_callback-Knows
          (sym (handle_verified_first id_text differ now provider c db first) ∙ made)
    | inr (w, known) ↦ absurd (elim (handle_verified-seen id_text differ now provider c db known) [
      | inl done ↦ cc (done, made)
      | inr other ↦ cc (other, made)
    ])
  ]

  handle_webhook-Knows :
      has_gateway provider ≡ true
      → handle_webhook id_text differ now provider c db ≡ ok applied_answer db'
      → Knows provider e db'
  handle_webhook-Knows served made =
      handle_verified-Knows
        (sym (handle_webhook_verified id_text differ now provider c db served) ∙ made)

  -- What was processed has come from a provider with a gateway.
  handle_webhook_made :
      handle_webhook id_text differ now provider c db ≡ ok applied_answer db'
      → has_gateway provider ≡ true
  handle_webhook_made made = elim (Bool-cases (has_gateway provider)) [
    | inl served ↦ served
    | inr unserved ↦
        absurd (cc (handle_webhook_skipped id_text differ now provider c db unserved, made))
  ]

-- Where a webhook of an event, whose text is not empty, was processed: any later webhook of the provider
-- with the same event, whatever else it says, is answered as a duplicate, and no payment, transaction
-- or order changes. Payments have ids of their own.
pub handle_webhook-handle_webhook :
    (id_text : ℕ → String) (differ : ℤ → ℤ → Bool) (now later : ℕ) (provider : PaymentProvider)
    (c again : CallbackResult) (e : String) (db db' : PaymentTables)
    → IsUnique (λ p. p.id) db.payment
    → c.event_id ≡ some e
    → again.event_id ≡ some e
    → str_eq e "" ≡ false
    → handle_webhook id_text differ now provider c db ≡ ok applied_answer db'
    → (s : PaymentTables) × (handle_webhook id_text differ later provider again db'
        ≡ ok duplicate_answer s)
      × (s.payment ≡ db'.payment)
      × (s.payment_transaction ≡ db'.payment_transaction)
      × (s.orders ≡ db'.orders)
handle_webhook-handle_webhook id_text differ now later provider c again e db db' u given same full
      made =
    let served = handle_webhook_made id_text differ now provider c e db db' given u made in
    let known = handle_webhook-Knows id_text differ now provider c e db db' given u served made in
    let verified = handle_webhook_verified id_text differ later provider again db' served in
    elim (handle_verified-seen id_text differ later provider again db' {w = known.0}
      (ground (arith, same, full, known.1))) [
        | inl done ↦ (db', verified ∙ done, refl, refl, refl)
        | inr other ↦ (mark_duplicate known.0 db', verified ∙ other, refl, refl, refl)
      ]
