-- ===== src/Tickets/Regenerate/Clone.antt =====
-- What the clone of a regenerated ticket is.
use wusuq_web.Base.{
  ℕ, ◌+◌, ◌≡◌, refl, ap, true, false, Option, none, some, [], ◌∷◌, ◌++◌, arith, sum-append,
  Option-cases, Bool-cases, inl, inr, Post, Post-bind, Post-then, Post-or_throw, Post-return,
  Post-result, not_found, ok,
}
use wusuq_web.Shared.Flows.{Flow, Currency, is_split, payment_model_for}
use wusuq_web.Shared.Money.{TicketChargeComponents, TicketMoneyInput, compute_ticket_total, round2}
use wusuq_web.Shared.Money.Total.{service_base, untaxed, total_amount_lem, tax_amount_lem}
use wusuq_web.Store.{Ticket, unpaid, Db, find_ticket}
use wusuq_web.Wallet.Money.{held}
use wusuq_web.Pricing.{ResolvePricingDto}
use wusuq_web.Tickets.Assign.{total_of}
use wusuq_web.Tickets.Intake.{IntakeEnv, CreateTicketIntakeDto, quote_of, insert_ticket, Quote}
use wusuq_web.Tickets.Intake.Created.{Sound, quote_of-Sound}
use wusuq_web.Tickets.Regenerate.{
  PricingData, copied, priced_again, answer_again, pricing_data, clone, regenerate,
}

abbrev undiscounted : TicketChargeComponents → TicketMoneyInput
undiscounted c = record { charges = c; discount_price = 0; promo_discount = 0; tax_rate = 0 }

-- Without discounts and tax a total is the sum of the charges.
undiscounted-total :
    (c : TicketChargeComponents)
    → (compute_ticket_total (undiscounted c)).total_amount ≡ service_base c + untaxed c
unfolding round2
undiscounted-total c =
    omega (arith, total_amount_lem (undiscounted c), tax_amount_lem (undiscounted c))

-- The total of the clone is the one of its columns, when it is priced again.
priced_again-total :
    (env : IntakeEnv) (original : Ticket) (flow : Flow) (currency : Currency) (q : Quote) (id : ℕ)
    → Sound flow currency q
    → let t = clone env original (priced_again flow currency q) id in
      t.total_amount ≡ (total_of t).total_amount
unfolding priced_again total_of
priced_again-total env original flow currency q id s =
    let t : Ticket = clone env original (priced_again flow currency q) id in
    let summed = undiscounted-total t.charges in
    elim (Bool-cases q.matched) [
      | inl m ↦ elim (Bool-cases (is_split (payment_model_for (some flow) currency))) [
        | inl x ↦ ground (arith, summed, m, x)
        | inr x ↦ ground (arith, summed, m, x, s.parts)
      ]
      | inr n ↦ ground (arith, summed, n)
    ]

-- The money of a clone whose original is known.
record Priced (env : IntakeEnv) (order : Option ResolvePricingDto) (original : Ticket)
    (prices : PricingData) : Type 0 where
  again :
      (r : ResolvePricingDto) (flow : Flow)
      → order ≡ some r
      → original.intake_flow ≡ some flow
      → (id : ℕ)
      → let t = clone env original prices id in t.total_amount ≡ (total_of t).total_amount
  legacy : order ≡ none → prices ≡ copied original

-- An order with nothing but its flow and its request for a price.
abbrev as_intake : Flow → ResolvePricingDto → CreateTicketIntakeDto
as_intake flow order = record {
  flow = flow;
  request_id = none;
  use_wallet_balance = false;
  consumer_id = 0;
  service_id = 0;
  service_city = none;
  promo_code = none;
  payload_valid = true;
  want_pdf = false;
  order = order;
}

pricing_data-Priced :
    (env : IntakeEnv) (order : Option ResolvePricingDto) (original : Ticket)
    → Post (Priced env order original) (pricing_data env order original)
unfolding pricing_data total_of
pricing_data-Priced env none original =
    Post-return (record { again = λ r flow e. absurd (ground (arith, e)); legacy = λ _. refl })
pricing_data-Priced env (some order) original = elim (Option-cases original.intake_flow) [
  | inl n ↦
      rw (pricing_data, n)
        (Post-return (record {
          again = λ r flow _ e. absurd (ground (arith, e, n));
          legacy = λ e. absurd (ground (arith, e));
        }))
  | inr (flow, y) ↦
      rw (pricing_data, y)
        (Post-then λ c. Post-return (record {
          again = λ r f _ _ id.
              priced_again-total env original flow original.currency
                (quote_of (answer_again env flow original.currency order)) id
                (quote_of-Sound env (as_intake flow order) original.currency);
          legacy = λ e. absurd (ground (arith, e));
        }))
]

-- The clone `t` of a ticket.
pub record Cloned (order : Option ResolvePricingDto) (original t : Ticket) : Type 0 where
  pub owner : t.consumer_id ≡ original.consumer_id
  pub flow : t.intake_flow ≡ original.intake_flow
  pub status : t.status ≡ unpaid
  pub nothing_paid : t.amount_paid ≡ 0
  pub total :
      (r : ResolvePricingDto) (flow : Flow)
      → order ≡ some r
      → original.intake_flow ≡ some flow
      → t.total_amount ≡ (total_of t).total_amount
  pub legacy : order ≡ none → t.total_amount ≡ original.total_amount

-- What a regeneration does to the tables.
pub record Regenerated (id : ℕ) (order : Option ResolvePricingDto) (db db' : Db) : Type 0 where
  pub original : Ticket
  pub found : find_ticket id db ≡ some original
  pub ticket : Ticket
  pub rows : db'.tickets ≡ db.tickets ++ (ticket ∷ [])
  pub cloned : Cloned order original ticket
  pub held_same : held db' ≡ held db

insert_ticket-held :
    (t : Ticket) (db : Db) → t.amount_paid ≡ 0 → held (insert_ticket t db) ≡ held db
insert_ticket-held t db e =
    omega (arith, sum-append (λ (t : Ticket). t.amount_paid) db.tickets (t ∷ []), e)

regenerate-Post :
    (id : ℕ) (env : IntakeEnv) (order : Option ResolvePricingDto) (db : Db)
    → Post (Regenerated id order db) (regenerate id env order db)
unfolding regenerate
regenerate-Post id env order db = Post-or_throw not_found λ (original : Ticket) e.
    Post-bind λ (prices : PricingData) p.
      let q = Post-result (pricing_data-Priced env order original) p in
      let t : Ticket = clone env original prices db.next_id in
      Post-return (record {
        original = original;
        found = e;
        ticket = t;
        rows = refl;
        cloned = record {
          owner = refl;
          flow = refl;
          status = refl;
          nothing_paid = refl;
          total = λ r flow o f. q.again r flow o f db.next_id;
          legacy = λ o. ap (λ (d : PricingData). d.total_amount) (q.legacy o);
        };
        held_same = insert_ticket-held t db refl;
      })

pub regenerate-Regenerated :
    (id : ℕ) (env : IntakeEnv) (order : Option ResolvePricingDto) (db db' : Db)
    → regenerate id env order db ≡ ok db'
    → Regenerated id order db db'
regenerate-Regenerated id env order db db' h = Post-result (regenerate-Post id env order db) h
