-- ===== src/Invoices.antt =====
-- apps/api/src/invoices/invoice-lines.ts and invoices.service.ts: the numbers of an invoice, and its
-- issue. What a line says in words, the sequence number and the audit row are not kept. A tax rate
-- is a whole number of millionths, which `roundRate` leaves as it is.
pub mod Single
pub mod Items
use wusuq_web.Base.{
  ℕ, suc, ◌+◌, ◌-◌, ◌*◌, Bool, true, false, not, Option, none, some, List, [], ◌∷◌, ◌++◌, any, min,
  filterb, length, sum, ◌==◌, ◌||◌, if◌then◌else◌, Result, ok, err, ◌>>=◌, ◌>>◌, throw_if, ensure,
  or_throw, bad_request, not_found, conflict,
}
use wusuq_web.Base.Table
use wusuq_web.Shared.Flows.{Currency, is_usd, same_currency}
use wusuq_web.Shared.Money.{million, round2}
use wusuq_web.Store.{UserRole, Ticket, waiting_approval, Db, ◌is◌}
use wusuq_web.Store.Billing.{Invoice, InvoiceItem, item_key}
use wusuq_web.Tickets.{Actor, is_staff_role}

-- `InvoiceLine`.
pub record InvoiceLine : Type 0 where
  pub position : ℕ
  pub ticket_id : ℕ
  pub service_cost : ℕ
  pub printing : ℕ
  pub attested : ℕ
  pub non_attested : ℕ
  pub delivery : ℕ
  pub additional : ℕ
  pub line_total : ℕ

-- A charge of the second phase counts once the remainder is finalized.
abbrev pub phase2 : Ticket → ℕ → ℕ
phase2 t charge = if t.remainder_finalized then charge else 0

-- `buildLine`, of the columns that `generate` passes to it.
unfoldable pub build_line : Ticket → ℕ → InvoiceLine
unfolding round2
build_line t position =
    let service_cost = round2 (t.charges.service_cost + t.charges.additional_service_cost) 1 in
    let printing = round2 (phase2 t t.charges.printing_charges) 1 in
    let attested = round2 (phase2 t t.charges.attested_charges) 1 in
    let non_attested = round2 (phase2 t t.charges.non_attested_charges) 1 in
    let delivery = round2 (phase2 t t.charges.delivery_charges) 1 in
    let additional = round2 (phase2 t t.charges.additional_charges) 1 in
    record {
      position = position;
      ticket_id = t.id;
      service_cost = service_cost;
      printing = printing;
      attested = attested;
      non_attested = non_attested;
      delivery = delivery;
      additional = additional;
      line_total =
          round2 (service_cost + printing + attested + non_attested + delivery + additional) 1;
    }

-- `buildInvoiceLines`, from a first position.
unfoldable pub build_invoice_lines : ℕ → List Ticket → List InvoiceLine
unfolding build_line
build_invoice_lines position [] = []
build_invoice_lines position (t ∷ tickets) =
    build_line t position ∷ build_invoice_lines (suc position) tickets

pub record InvoiceTotals : Type 0 where
  pub subtotal : ℕ
  pub taxable_base : ℕ
  pub tax_amount : ℕ
  pub grand_total : ℕ
  pub discount : ℕ

-- `summariseInvoice`.
unfoldable pub summarise_invoice : List InvoiceLine → ℕ → ℕ → InvoiceTotals
unfolding round2
summarise_invoice lines tax_rate discount_total =
    let subtotal = round2 (sum (λ (l : InvoiceLine). l.line_total) lines) 1 in
    let service_base = round2 (sum (λ (l : InvoiceLine). l.service_cost) lines) 1 in
    let discount = round2 discount_total 1 in
    let taxable_base = round2 (service_base - discount) 1 in
    let tax_amount = round2 (taxable_base * tax_rate) million in
    record {
      subtotal = subtotal;
      taxable_base = taxable_base;
      tax_amount = tax_amount;
      grand_total = round2 (subtotal - discount + tax_amount) 1;
      discount = discount;
    }

-- The discount of a ticket, cut to its own line.
unfoldable pub clamped_discount : Ticket → ℕ
unfolding build_line
clamped_discount t = min (t.discount_price + t.promo_discount) (build_line t 0).line_total

-- `new Set(…).size > 1`: does some item differ from the first?
abbrev pub mixed {ℓ} : {A : Type ℓ} → (A → A → Bool) → List A → Bool
mixed same [] = false
mixed same (x ∷ xs) = any (λ y. not (same x y)) xs

abbrev pub same_consumer : Ticket → Ticket → Bool
same_consumer s t = s.consumer_id == t.consumer_id

abbrev pub same_money : Ticket → Ticket → Bool
same_money s t = same_currency s.currency t.currency

abbrev pub same_rate : Ticket → Ticket → Bool
same_rate s t = s.tax_rate == t.tax_rate

abbrev pub find_item : ℕ → Db → Option InvoiceItem
find_item ticket_id db = Table.find_by item_key ticket_id db.invoice_items

abbrev pub has_item : Db → Ticket → Bool
has_item db t = elim (find_item t.id db) [ none ↦ false | some _ ↦ true ]

-- `findMany({ where: { id: { in: ids } } })`.
abbrev pub tickets_in : List ℕ → Db → List Ticket
tickets_in ids db = filterb (λ (t : Ticket). any (λ id. t.id == id) ids) db.tickets

-- A row of an invoice; the ticket of an item is unique.
unfoldable pub create_item : ℕ → InvoiceLine → List InvoiceItem → Result (List InvoiceItem)
create_item invoice_id l items = elim (Table.find_by item_key l.ticket_id items) [
  | some _ ↦ err conflict
  | none ↦ ok (
      items
      ++ (record {
        invoice_id = invoice_id;
        ticket_id = l.ticket_id;
        position = l.position;
        service_cost = l.service_cost;
        printing = l.printing;
        attested = l.attested;
        non_attested = l.non_attested;
        delivery = l.delivery;
        additional = l.additional;
        line_total = l.line_total;
      }
          ∷ []))
]

unfoldable pub create_items : ℕ → List InvoiceLine → List InvoiceItem → Result (List InvoiceItem)
unfolding create_item
create_items invoice_id [] items = ok items
create_items invoice_id (l ∷ lines) items =
    create_item invoice_id l items >>= create_items invoice_id lines

-- What is checked of the tickets of an invoice, in the order of the source; and the rate of the tax.
unfoldable pub check_tickets : List ℕ → List Ticket → Db → Result (Unit {0})
check_tickets ids tickets db = do
  ensure (length tickets == length ids) not_found
  throw_if (any (λ (t : Ticket). t.archived) tickets) bad_request
  throw_if (mixed same_consumer tickets) bad_request
  throw_if (mixed same_money tickets) bad_request
  throw_if (any (λ (t : Ticket). t.status is waiting_approval) tickets) bad_request
  throw_if (any (has_item db) tickets) conflict
  ok tt

abbrev pub rate_for : Ticket → List Ticket → Result ℕ
rate_for first tickets =
    if is_usd first.currency
    then ok 0
    else if mixed same_rate tickets
    then err bad_request
    else ok first.tax_rate

unfoldable pub invoice_of : ℕ → Ticket → List Ticket → ℕ → Invoice
unfolding build_invoice_lines clamped_discount summarise_invoice
invoice_of id first tickets tax_rate =
    let totals =
      summarise_invoice (build_invoice_lines 1 tickets) tax_rate
        (round2 (sum clamped_discount tickets) 1) in
    record {
      id = id;
      consumer_id = first.consumer_id;
      currency = first.currency;
      subtotal = totals.subtotal;
      discount = totals.discount;
      tax_rate = tax_rate;
      tax_amount = totals.tax_amount;
      grand_total = totals.grand_total;
    }

-- The part of `generate` after the checks.
unfoldable pub issue : List Ticket → Db → Result (Invoice × Db)
unfolding invoice_of create_items
issue [] db = err bad_request
issue (first ∷ others) db = do
  tax_rate ← rate_for first (first ∷ others)
  let invoice = invoice_of db.next_id first (first ∷ others) tax_rate
  items ← create_items db.next_id (build_invoice_lines 1 (first ∷ others)) db.invoice_items
  ok (
    invoice,
    record db {
      invoices = db.invoices ++ (invoice ∷ []);
      invoice_items = items;
      next_id = suc db.next_id;
    },
  )

abbrev pub is_empty {ℓ} : {A : Type ℓ} → List A → Bool
is_empty [] = true
is_empty (_ ∷ _) = false

-- `generate`. The checks have a ticket for every key, so that `issue` gets at least one.
unfoldable pub generate : List ℕ → Db → Result (Invoice × Db)
unfolding check_tickets issue
generate ids db = do
  throw_if (is_empty ids) bad_request
  check_tickets ids (tickets_in ids db) db
  issue (tickets_in ids db) db

abbrev invoice_key : Invoice → ℕ
invoice_key i = i.id

-- `findOne`: an invoice of another consumer is not found, except by staff.
unfoldable pub find_one : ℕ → Actor → Db → Result Invoice
unfolding is_staff_role
find_one id actor db = do
  invoice ← or_throw (Table.find_by invoice_key id db.invoices) not_found
  ensure
      (is_staff_role actor.role
        || (elim actor.user_id [ none ↦ false | some own ↦ invoice.consumer_id == own ]))
      not_found
  ok invoice
