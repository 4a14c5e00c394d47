-- ===== src/Store/Billing.antt =====
-- apps/api/prisma/schema.prisma: the tables of promo codes and of invoices. A moment is a number of
-- milliseconds.
use wusuq_web.Base.{ℕ, Bool, Option, List}
use wusuq_web.Base.Text.{Text}
use wusuq_web.Shared.Flows.{Flow, Currency}

pub data PromoType : Type 0 where
  percent fixed : PromoType

-- `value` is in hundredths, of a percent or of a unit of currency.
pub record PromoCode : Type 0 where
  pub id : ℕ
  pub code : Text
  pub type : PromoType
  pub value : ℕ
  pub max_discount : Option ℕ
  pub starts_at : Option ℕ
  pub ends_at : Option ℕ
  pub total_usage_limit : Option ℕ
  pub per_user_limit : Option ℕ
  pub service_scope : List Flow
  pub active : Bool

pub record PromoRedemption : Type 0 where
  pub promo_code_id : ℕ
  pub user_id : ℕ
  pub ticket_id : ℕ
  pub amount : ℕ

-- The numbers of an invoice.
pub record Invoice : Type 0 where
  pub id : ℕ
  pub consumer_id : ℕ
  pub currency : Currency
  pub subtotal : ℕ
  pub discount : ℕ
  pub tax_rate : ℕ
  pub tax_amount : ℕ
  pub grand_total : ℕ

pub record InvoiceItem : Type 0 where
  pub invoice_id : ℕ
  pub ticket_id : ℕ
  pub position : ℕ
  pub service_cost : ℕ
  pub printing : ℕ
  pub attested : ℕ
  pub non_attested : ℕ
  pub delivery : ℕ
  pub additional : ℕ
  pub line_total : ℕ

abbrev pub promo_key : PromoCode → ℕ
promo_key p = p.id

-- `InvoiceItem.ticketId` is unique.
abbrev pub item_key : InvoiceItem → ℕ
item_key i = i.ticket_id
