-- ===== src/Payments/Callbacks/Kept.antt =====
-- `handleWebhook` call by call (modules/payments/service.ts, lines 496-608): a payment that has succeeded
-- is not touched by any webhook.
use smart_light.Prelude.{
  ℕ, ℤ, Bool, String, true, false, List, [], ◌∷◌, Option, none, some, ◌≡◌, ◌⊎◌, refl, sym, ◌∙◌, inl,
  inr, arith, ◌==◌, ==_iff, Bool-cases, Option-cases, ok, err, final,
}
use smart_light.Table.Rows.{find_first-holds}
use smart_light.Table.Keys.{find_first-update}
use smart_light.Payments.Errors.{
  is_success, PaymentProvider, same_provider, PaymentError, provider_mismatch, amount_mismatch,
  invalid_webhook_payload,
}
use smart_light.Payments.Tables.{
  Payment, WebhookStatus, LogNote, unknown_at, PaymentWebhookLog, PaymentTables,
}
use smart_light.Payments.Service.{find_by_id}
use smart_light.Payments.Service.Callback.{CallbackResult, called_back, event_or, apply_callback}
use smart_light.Payments.Service.Webhook.{
  locate_payment, log_and_throw, seen, is_processed, mark_duplicate, process_callback,
  handle_verified, handle_webhook, applied_answer, duplicate_answer, skipped_answer, refuse_webhook,
}
use smart_light.Payments.Service.Create.{has_gateway}
use smart_light.Payments.Callbacks.{
  create_webhook_log-cases, Applied, applied, apply_callback-cases,
}

-- A payment that has succeeded, as it is found by its id.
pub record Succeeded (id : ℕ) (p : Payment) (db : PaymentTables) : Type 0 where
  pub found : find_by_id id db ≡ some p
  pub succeeded : is_success p.status ≡ true

-- The payments are as before, or one callback was applied.
abbrev pub Called : (ℕ → String) → ℕ → CallbackResult → PaymentTables → PaymentTables → Type 0
Called id_text now c db s =
    (s.payment ≡ db.payment)
    ⊎ ((id : ℕ) × (a : Applied id_text now id c db) × (s ≡ applied id_text now id c db a.payment))

log_and_throw-payment :
    (now : ℕ) (provider : PaymentProvider) (c : CallbackResult) (note : LogNote) (e : PaymentError)
    (db : PaymentTables)
    → (final (log_and_throw now provider c note e db)).payment ≡ db.payment
log_and_throw-payment now provider c note e db =
    elim (create_webhook_log-cases none provider (event_or c.event_id (unknown_at now))
      WebhookStatus.failed note db) [
        | inl known ↦ ground (arith, known)
        | inr free ↦ ground (arith, free)
      ]

module _ (id_text : ℕ → String) (differ : ℤ → ℤ → Bool) (now : ℕ) (provider : PaymentProvider)
    (c : CallbackResult) (db : PaymentTables) where
  pub mismatched :
      {p : Payment}
      → locate_payment provider c db ≡ some p
      → same_provider p.provider provider ≡ false
      → process_callback id_text differ now provider c db
        ≡ log_and_throw now provider c
            (LogNote.provider_mismatch p.provider provider)
            (provider_mismatch p.id p.provider provider)
            db
  unfolding process_callback
  mismatched located other = ground (arith, located, other)

  pub unequal :
      {p : Payment}
      → locate_payment provider c db ≡ some p
      → same_provider p.provider provider ≡ true
      → differ p.amount c.amount ≡ true
      → process_callback id_text differ now provider c db
        ≡ log_and_throw now provider c
            (LogNote.amount_mismatch p.amount c.amount)
            (amount_mismatch p.id p.amount c.amount)
            db
  unfolding process_callback
  unequal located same differ = ground (arith, located, same, differ)

  pub lost :
      locate_payment provider c db ≡ none
      → process_callback id_text differ now provider c db
        ≡ log_and_throw now provider c LogNote.payment_not_found invalid_webhook_payload db
  unfolding process_callback
  lost missing = ground (arith, missing)

  module _ {p : Payment} (located : locate_payment provider c db ≡ some p)
      (same : same_provider p.provider provider ≡ true)
      (equal : differ p.amount c.amount ≡ false) where
    pub processed_thrown :
        {e : PaymentError} {s : PaymentTables}
        → apply_callback id_text now p.id c db ≡ err e s
        → process_callback id_text differ now provider c db ≡ err e s
    unfolding process_callback
    processed_thrown thrown = ground (arith, located, same, equal, thrown)

    pub processed_made :
        {s : PaymentTables}
        → apply_callback id_text now p.id c db ≡ ok tt s
        → process_callback id_text differ now provider c db ≡ ok applied_answer s
    unfolding process_callback
    processed_made made = ground (arith, located, same, equal, made)

    equal-Called :
        Called id_text now c db (final (process_callback id_text differ now provider c db))
    equal-Called = elim (apply_callback-cases id_text now p.id c db) [
      | inl (e, thrown) ↦ inl (rw (processed_thrown thrown) refl)
      | inr made ↦ elim made [
        | inl r ↦ inl (rw (processed_made r.result) refl)
        | inr a ↦ inr (p.id, a, rw (processed_made a.result) refl)
      ]
    ]

  process_callback-Called :
      Called id_text now c db (final (process_callback id_text differ now provider c db))
  process_callback-Called = elim (Option-cases (locate_payment provider c db)) [
    | inl missing ↦ inl (rw (lost missing) (log_and_throw-payment now provider c _ _ db))
    | inr (p, located) ↦ elim (Bool-cases (same_provider p.provider provider)) [
      | inr other ↦
          inl (rw (mismatched located other) (log_and_throw-payment now provider c _ _ db))
      | inl same ↦ elim (Bool-cases (differ p.amount c.amount)) [
        | inl unlike ↦
            inl (rw (unequal located same unlike) (log_and_throw-payment now provider c _ _ db))
        | inr equal ↦ equal-Called located same equal
      ]
    ]
  ]

  pub handle_verified-seen :
      {w : PaymentWebhookLog}
      → seen provider c db ≡ some w
      → (handle_verified id_text differ now provider c db ≡ ok duplicate_answer db)
        ⊎ (handle_verified id_text differ now provider c db
            ≡ ok duplicate_answer (mark_duplicate w db))
  unfolding handle_verified
  handle_verified-seen {w} known = elim (Bool-cases (is_processed w.status)) [
    | inl done ↦ inl (ground (arith, known, done))
    | inr other ↦ inr (ground (arith, known, other))
  ]

  pub handle_verified_first :
      seen provider c db ≡ none
      → handle_verified id_text differ now provider c db
        ≡ process_callback id_text differ now provider c db
  unfolding handle_verified
  handle_verified_first first = ground (arith, first)

  handle_verified-Called :
      Called id_text now c db (final (handle_verified id_text differ now provider c db))
  handle_verified-Called = elim (Option-cases (seen provider c db)) [
    | inl first ↦ rw (handle_verified_first first) process_callback-Called
    | inr (w, known) ↦ elim (handle_verified-seen known) [
      | inl done ↦ inl (rw done refl)
      | inr other ↦ inl (rw other refl)
    ]
  ]

  pub handle_webhook_verified :
      has_gateway provider ≡ true
      → handle_webhook id_text differ now provider c db
        ≡ handle_verified id_text differ now provider c db
  unfolding handle_webhook
  handle_webhook_verified served = ground (arith, served)

  pub handle_webhook_skipped :
      has_gateway provider ≡ false
      → handle_webhook id_text differ now provider c db ≡ ok (skipped_answer provider) db
  unfolding handle_webhook
  handle_webhook_skipped unserved = ground (arith, unserved)

  pub handle_webhook-Called :
      Called id_text now c db (final (handle_webhook id_text differ now provider c db))
  handle_webhook-Called = elim (Bool-cases (has_gateway provider)) [
    | inl served ↦ rw (handle_webhook_verified served) handle_verified-Called
    | inr unserved ↦ inl (rw (handle_webhook_skipped unserved) refl)
  ]

pub called_back-id : (now : ℕ) (c : CallbackResult) (p : Payment) → (called_back now c p).id ≡ p.id
called_back-id now c p = ground arith

-- The payment that a callback sets is another one.
other_payment :
    (k id : ℕ) (db : PaymentTables) {p q : Payment}
    → find_by_id id db ≡ some p
    → is_success p.status ≡ true
    → find_by_id k db ≡ some q
    → is_success q.status ≡ false
    → (p.id == k) ≡ false
unfolding find_by_id
other_payment k id db {p} {q} found over other live = elim (Bool-cases (p.id == k)) [
  | inr e ↦ e
  | inl e ↦
      let same : id ≡ k =
        sym ((==_iff p.id id).0 (find_first-holds _ db.payment found)) ∙ (==_iff p.id k).0 e in
      absurd (cc (same, found, over, other, live))
]

module _ (id_text : ℕ → String) (now : ℕ) (c : CallbackResult) (db s : PaymentTables) where
  pub Called-Succeeded :
      Called id_text now c db s → (id : ℕ) (p : Payment) → Succeeded id p db → Succeeded id p s
  unfolding find_by_id
  Called-Succeeded (inl same) id p v = record { found = rw same v.found; succeeded = v.succeeded }
  Called-Succeeded (inr (k, a, made)) id p v = record {
    found = rw made (
        find_first-update (λ x. x.id == id) (λ x. x.id == k) (called_back now c) db.payment
          (λ x. rw (called_back-id now c x) refl) v.found
        ∙ rw (other_payment k id db v.found v.succeeded a.found a.live) refl);
    succeeded = v.succeeded;
  }

-- A webhook, with its time: a verified callback of a provider, or a payload that is refused.
pub data Webhook : Type 0 where
  verified : ℕ → PaymentProvider → CallbackResult → Webhook
  refused : ℕ → PaymentProvider → Option String → String → Webhook

module _ (id_text : ℕ → String) (differ : ℤ → ℤ → Bool) where
  unfoldable pub receive : Webhook → PaymentTables → PaymentTables
  receive (verified now provider c) db = final (handle_webhook id_text differ now provider c db)
  receive (refused now provider e message) db = final (refuse_webhook now provider e message db)

  unfoldable pub receive_all : List Webhook → PaymentTables → PaymentTables
  receive_all [] db = db
  receive_all (w ∷ t) db = receive_all t (receive w db)

  receive-Succeeded :
      (w : Webhook) (id : ℕ) (p : Payment) (db : PaymentTables)
      → Succeeded id p db
      → Succeeded id p (receive w db)
  unfolding receive refuse_webhook find_by_id
  receive-Succeeded (verified now provider c) id p db v =
      Called-Succeeded id_text now c db _ (handle_webhook-Called id_text differ now provider c db)
        id p v
  receive-Succeeded (refused now provider e message) id p db v =
      elim (Bool-cases (has_gateway provider)) [
        | inr unserved ↦ record {
          found = ground (arith, unserved, v.found);
          succeeded = v.succeeded;
        }
        | inl served ↦
            elim (create_webhook_log-cases none provider (event_or e (unknown_at now))
              WebhookStatus.failed (LogNote.gateway_message message) db) [
                | inl known ↦ record {
                  found = ground (arith, served, known, v.found);
                  succeeded = v.succeeded;
                }
                | inr free ↦ record {
                  found = ground (arith, served, free, v.found);
                  succeeded = v.succeeded;
                }
              ]
      ]

  -- Whatever webhooks arrive, in whatever order and from whatever provider, refused or not: a payment
  -- that has succeeded keeps its row, with its status, its amount and its provider's id.
  pub receive_all-Succeeded :
      (webhooks : List Webhook) (id : ℕ) (p : Payment) (db : PaymentTables)
      → Succeeded id p db
      → Succeeded id p (receive_all webhooks db)
  unfolding receive_all
  receive_all-Succeeded [] id p db v = v
  receive_all-Succeeded (w ∷ t) id p db v =
      receive_all-Succeeded t id p (receive w db) (receive-Succeeded w id p db v)
