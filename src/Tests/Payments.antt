-- ===== src/Tests/Payments.antt =====
-- Tests of the payments, the corrections of the staff and the invoices.
use wusuq_web.Base.{
  ℕ, ◌+◌, ◌≡◌, refl, true, false, [], ◌∷◌, arith, Result, ok, ◌>>=◌, ◌>>◌, or_throw, throw_if,
  ensure,
}
use wusuq_web.Shared.Flows.{usd}
use wusuq_web.Shared.Fx.{jazz_cash}
use wusuq_web.Shared.Money.{round2}
use wusuq_web.Store.{Ticket, unpaid, delivered, Payment, initiated, Db, IsWellFormed}
use wusuq_web.Store.Billing.{Invoice}
use wusuq_web.Wallet.Money.{held}
use wusuq_web.Payments.{
  CallbackStatus, succeeded, has_failed, VerifyCallbackResult, PaymentProvider, apply_success,
  handle_webhook, settle_payment, settle_callback, initiate,
}
use wusuq_web.Payments.Webhook.{handle_webhook-held, handle_webhook_once}
use wusuq_web.Payments.Live.{OneLive, PaymentStep, PaymentSteps, PaymentSteps-OneLive}
use wusuq_web.Finance.{reconcile_payment}
use wusuq_web.Finance.Reconcile.{Reconciled, reconcile_payment-Reconciled}
use wusuq_web.Invoices.{
  generate, check_tickets, issue, create_items, create_item, tickets_in, build_invoice_lines,
  build_line, clamped_discount, summarise_invoice, invoice_of,
}
use wusuq_web.Invoices.Single.{generate-single}
use wusuq_web.Invoices.Items.{Issued, generate_once}
use wusuq_web.Tickets.Assign.{total_of}
use wusuq_web.Tests.{db, db-IsWellFormed, ticket}

-- A gateway whose callbacks are read as they are.
abbrev provider : PaymentProvider VerifyCallbackResult
provider = record { name = 1; next_txn_id = λ id due. 100 + id; verify_callback = λ body. body }

abbrev open_payment : Payment
open_payment = record { provider_txn_id = 77; ticket_id = 10; status = initiated; amount = 50_00 }

abbrev paying : Db
paying = record db { payments = open_payment ∷ [] }

paying-IsWellFormed : IsWellFormed paying
paying-IsWellFormed = record { users = db-IsWellFormed.users; tickets = db-IsWellFormed.tickets }

abbrev body : CallbackStatus → VerifyCallbackResult
body status = record {
  provider_txn_id = 77;
  status = status;
  amount = 50_00;
  signature_valid = true;
}

abbrev paid_db : Db
paid_db = (apply_success open_payment 50_00 paying).1

callback : handle_webhook provider 1 (body succeeded) paying ≡ ok (false, paid_db)
unfolding handle_webhook settle_payment settle_callback apply_success ◌>>=◌ ◌>>◌ or_throw ensure
callback = refl

handle_webhook-held_example : (held paid_db ≡ held paying + 50_00) × IsWellFormed paid_db
handle_webhook-held_example =
    handle_webhook-held provider 1 (body succeeded) open_payment (ticket 10 unpaid 50_00 0) paying
      false paid_db paying-IsWellFormed refl refl callback

handle_webhook_once_example :
    handle_webhook provider 1 (body has_failed) paid_db ≡ ok (true, paid_db)
handle_webhook_once_example =
    handle_webhook_once provider 1 (body succeeded) (body has_failed) paying false paid_db callback
      refl refl

abbrev initiated_db : Db
initiated_db = (initiate provider 10 1 paying).0

paying-OneLive : OneLive paying
paying-OneLive id = ground arith

PaymentSteps-OneLive_example : OneLive initiated_db
PaymentSteps-OneLive_example =
    PaymentSteps-OneLive provider paying initiated_db
      (PaymentSteps.next paying initiated_db PaymentSteps.done (PaymentStep.initiates 10 1))
      paying-OneLive

abbrev pair_of : Result (ℕ × Db) → ℕ × Db
pair_of (ok s) = s
pair_of _ = (0, db)

abbrev reconciled_pair : ℕ × Db
reconciled_pair =
    pair_of (reconcile_payment 11 (record { amount = 20_00; payment_mode = jazz_cash }) db)

reconcile :
    reconcile_payment 11 (record { amount = 20_00; payment_mode = jazz_cash }) db
    ≡ ok reconciled_pair
unfolding reconcile_payment ◌>>=◌ ◌>>◌ or_throw throw_if
reconcile = refl

reconcile_payment-Reconciled_example : Reconciled 11 20_00 db reconciled_pair
reconcile_payment-Reconciled_example =
    reconcile_payment-Reconciled 11 (record { amount = 20_00; payment_mode = jazz_cash }) db
      reconciled_pair db-IsWellFormed reconcile

-- A delivered ticket with a discount and a tax of 16 %.
abbrev final_ticket : Ticket
final_ticket = record (ticket 30 delivered 80_00 80_00) {
  remainder_finalized = true;
  discount_price = 30_00;
  tax_rate = 160_000;
}

abbrev billing : Db
billing = record db { tickets = final_ticket ∷ ticket 31 delivered 20_00 20_00 ∷ [] }

abbrev invoice_in : Result (Invoice × Db) → Invoice × Db
invoice_in (ok s) = s
invoice_in _ = (
  record {
    id = 0;
    consumer_id = 0;
    currency = usd;
    subtotal = 0;
    discount = 0;
    tax_rate = 0;
    tax_amount = 0;
    grand_total = 0;
  },
  db,
)

abbrev invoiced : Invoice × Db
invoiced = invoice_in (generate (30 ∷ []) billing)

invoice : generate (30 ∷ []) billing ≡ ok invoiced
unfolding generate check_tickets issue create_items create_item invoice_of build_invoice_lines
    build_line clamped_discount summarise_invoice round2 ◌>>=◌ ◌>>◌ ensure throw_if
invoice = refl

generate-single_example : invoiced.0.grand_total ≡ (total_of final_ticket).total_amount
generate-single_example =
    generate-single 30 final_ticket billing invoiced refl refl (λ h. absurd (ground (arith, h)))
      invoice

generate_once_example : Issued (tickets_in (30 ∷ []) billing) billing invoiced
generate_once_example = generate_once (30 ∷ []) billing invoiced tt invoice
