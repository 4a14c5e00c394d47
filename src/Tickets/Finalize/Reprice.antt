-- ===== src/Tickets/Finalize/Reprice.antt =====
-- apps/api/src/tickets/tickets.service.ts: `buildRepriceResult` and `repriceTicket`. The answer of
-- the price resolver and the tax rate of the settings are arguments.
use wusuq_web.Base.{
  ℕ, ◌-◌, Bool, Option, ltb, if◌then◌else◌, ◌⁇◌, Result, ok, ◌>>=◌, ◌>>◌, throw_if, ensure,
  or_throw, bad_request, not_found,
}
use wusuq_web.Shared.Flows.{Currency, pkr, usd, is_usd, is_split, payment_model_for}
use wusuq_web.Shared.Money.{TicketChargeComponents, TicketMoneyResult, compute_ticket_total}
use wusuq_web.Store.{Ticket, delivered, Db, find_ticket, update_ticket, ◌is◌}
use wusuq_web.Tickets.Finalize.{credit_surplus}

-- What the resolver answers.
pub record Resolved : Type 0 where
  pub matched : Bool
  pub service_cost : ℕ
  pub delivery_charge : ℕ

-- `RepriceTicketDto`: the overrides of the charges, and the discount.
pub record RepriceTicketDto : Type 0 where
  pub delivery_charges : Option ℕ
  pub printing_charges : Option ℕ
  pub attested_charges : Option ℕ
  pub non_attested_charges : Option ℕ
  pub additional_charges : Option ℕ
  pub additional_service_cost : Option ℕ
  pub discount_price : Option ℕ

abbrev flat : ℕ → TicketChargeComponents
flat service_cost = record {
  service_cost = service_cost;
  delivery_charges = 0;
  printing_charges = 0;
  attested_charges = 0;
  non_attested_charges = 0;
  additional_charges = 0;
  additional_service_cost = 0;
}

-- The charges: flat in USD, and else the overrides over the columns.
unfoldable pub reprice_charges :
    Ticket → Resolved → RepriceTicketDto → Currency → TicketChargeComponents
reprice_charges ticket resolved dto usd =
    flat (if resolved.matched then resolved.service_cost else 0)
reprice_charges ticket resolved dto pkr =
    let c = ticket.charges in
    record {
      service_cost = if resolved.matched then resolved.service_cost else 0;
      delivery_charges =
          dto.delivery_charges
          ⁇ (if is_split (payment_model_for ticket.intake_flow pkr)
              then c.delivery_charges
              else resolved.delivery_charge);
      printing_charges = dto.printing_charges ⁇ c.printing_charges;
      attested_charges = dto.attested_charges ⁇ c.attested_charges;
      non_attested_charges = dto.non_attested_charges ⁇ c.non_attested_charges;
      additional_charges = dto.additional_charges ⁇ c.additional_charges;
      additional_service_cost = dto.additional_service_cost ⁇ c.additional_service_cost;
    }

-- USD tickets are not taxed.
abbrev reprice_tax_rate : ℕ → Currency → ℕ
reprice_tax_rate rate currency = if is_usd currency then 0 else rate

-- `buildRepriceResult`.
unfoldable pub reprice_money :
    Ticket → Resolved → ℕ → RepriceTicketDto → Currency → TicketMoneyResult
unfolding reprice_charges
reprice_money ticket resolved tax_rate dto currency = compute_ticket_total (record {
  charges = reprice_charges ticket resolved dto currency;
  discount_price = dto.discount_price ⁇ ticket.discount_price;
  promo_discount = ticket.promo_discount;
  tax_rate = tax_rate;
})

-- The columns that `repriceTicket` writes.
unfoldable pub repriced : Ticket → Resolved → ℕ → RepriceTicketDto → Ticket → Ticket
unfolding reprice_charges reprice_money
repriced ticket resolved rate dto t =
    let tax_rate = reprice_tax_rate rate ticket.currency in
    let money = reprice_money ticket resolved tax_rate dto ticket.currency in
    record t {
      charges = reprice_charges ticket resolved dto ticket.currency;
      discount_price = dto.discount_price ⁇ ticket.discount_price;
      tax_rate = tax_rate;
      tax_amount = money.tax_amount;
      total_amount = money.total_amount;
      amount_paid =
          if ltb 0 (ticket.amount_paid - money.total_amount)
          then money.total_amount
          else t.amount_paid;
    }

-- `repriceTicket`, on one state of the tables for the read and for the transaction.
unfoldable pub reprice_ticket : ℕ → Resolved → ℕ → RepriceTicketDto → Db → Result Db
unfolding repriced
reprice_ticket id resolved rate dto db = do
  existing ← or_throw (find_ticket id db) not_found
  throw_if (existing.status is delivered) bad_request
  ensure resolved.matched bad_request
  let tax_rate = reprice_tax_rate rate existing.currency
  let money = reprice_money existing resolved tax_rate dto existing.currency
  ok (
      update_ticket id (repriced existing resolved rate dto)
        (credit_surplus existing (existing.amount_paid - money.total_amount) db))
