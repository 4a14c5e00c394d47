-- ===== src/Invoices/Single.antt =====
-- apps/api/src/invoices: the invoice of one ticket, and the total of the ticket.
use wusuq_web.Base.{
  ℕ, ◌+◌, ◌-◌, ◌*◌, ◌≡◌, refl, sym, ap, ◌∙◌, subst, true, some, some-injective, List, [], ◌∷◌,
  arith, any, min, filterb, length, sum, ◌==◌, Bool-cases, inl, inr, ok, Post, Post-result,
  Post-bind, Post-then, Post-throw_if, Post-return, bad_request, not_found, ensure-ok,
}
use wusuq_web.Base.Table
use wusuq_web.Shared.Flows.{Currency, usd, pkr}
use wusuq_web.Shared.Money.{TicketMoneyInput, million, round2, round2_one, compute_ticket_total}
use wusuq_web.Shared.Money.Total.{
  service_base, untaxed, discounts, tax_amount_lem, total_amount_lem,
}
use wusuq_web.Store.{Ticket, Db, ticket_key, find_ticket}
use wusuq_web.Store.Billing.{Invoice, InvoiceItem}
use wusuq_web.Tickets.Assign.{total_of}
use wusuq_web.Invoices.{
  InvoiceLine, build_line, build_invoice_lines, summarise_invoice, clamped_discount, tickets_in,
  check_tickets, rate_for, invoice_of, issue, generate,
}

-- A line of a finalized ticket has its charges.
build_line-total :
    (t : Ticket) (n : ℕ)
    → t.remainder_finalized ≡ true
    → (build_line t n).line_total ≡ service_base t.charges + untaxed t.charges
unfolding build_line
build_line-total t n f = rw (build_line, f) (simp round2_one (omega arith))

build_line-service : (t : Ticket) (n : ℕ) → (build_line t n).service_cost ≡ service_base t.charges
unfolding build_line
build_line-service t n = simp round2_one refl

-- The totals, with every rounding of a sum of whole hundredths gone.
summarise_tax :
    (lines : List InvoiceLine) (rate d : ℕ)
    → (summarise_invoice lines rate d).tax_amount
      ≡ round2 ((sum (λ (l : InvoiceLine). l.service_cost) lines - d) * rate) million
unfolding summarise_invoice
summarise_tax lines rate d = simp round2_one refl

summarise_grand :
    (lines : List InvoiceLine) (rate d : ℕ)
    → (summarise_invoice lines rate d).grand_total
      ≡ sum (λ (l : InvoiceLine). l.line_total) lines
        - d
        + (summarise_invoice lines rate d).tax_amount
unfolding summarise_invoice
summarise_grand lines rate d = simp round2_one (omega arith)

-- The invoice of one finalized ticket, at the ticket's own rate.
invoice_of-one :
    (id : ℕ) (t : Ticket)
    → t.remainder_finalized ≡ true
    → (invoice_of id t (t ∷ []) t.tax_rate).grand_total ≡ (total_of t).total_amount
unfolding invoice_of build_invoice_lines clamped_discount total_of
invoice_of-one id t f =
    let i : TicketMoneyInput = record {
      charges = t.charges;
      discount_price = t.discount_price;
      promo_discount = t.promo_discount;
      tax_rate = t.tax_rate;
    } in
    let lines = build_line t 1 ∷ [] in
    let d = round2 (clamped_discount t + 0) 1 in
    let base = build_line-service t 1 in
    let line = build_line-total t 1 f in
    let cut : d ≡ min (discounts i) (service_base t.charges + untaxed t.charges) =
      round2_one (clamped_discount t + 0) ∙ omega (arith, build_line-total t 0 f) in
    let same_base : sum (λ (l : InvoiceLine). l.service_cost) lines - d
        ≡ service_base t.charges - discounts i =
      omega (arith, base, cut) in
    let tax : (summarise_invoice lines t.tax_rate d).tax_amount
        ≡ (compute_ticket_total i).tax_amount =
      summarise_tax lines t.tax_rate d
      ∙ ap (λ (n : ℕ). round2 (n * t.tax_rate) million) same_base
      ∙ sym (tax_amount_lem i) in
    omega (arith, summarise_grand lines t.tax_rate d, total_amount_lem i, tax, line, cut)

-- A USD invoice has the rate 0, and one of a single ticket has its rate.
rate_for-one :
    (t : Ticket) (rate : ℕ)
    → (t.currency ≡ usd → t.tax_rate ≡ 0)
    → rate_for t (t ∷ []) ≡ ok rate
    → t.tax_rate ≡ rate
rate_for-one t rate no_tax h = go t.currency refl h
  where
    go :
        (c : Currency)
        → t.currency ≡ c
        → rate_for (record t { currency = c }) (t ∷ []) ≡ ok rate
        → t.tax_rate ≡ rate
    go usd e h = ground (arith, no_tax e, h)
    go pkr e h = ground (arith, h)

-- Of the rows with one key, the first is the one that is found.
tickets_in-first :
    (id : ℕ) (t : Ticket) (ts : List Ticket)
    → Table.find_by ticket_key id ts ≡ some t
    → (others : List Ticket) × (filterb (λ (t : Ticket). any (λ i. t.id == i) (id ∷ [])) ts
        ≡ t ∷ others)
tickets_in-first id t [] h = absurd (ground (arith, h))
tickets_in-first id t (x ∷ ts) h = elim (Bool-cases (x.id == id)) [
  | inl y ↦ rw y (
    filterb (λ (t : Ticket). any (λ i. t.id == i) (id ∷ [])) ts,
    ap (λ (z : Ticket). z ∷ filterb (λ (t : Ticket). any (λ i. t.id == i) (id ∷ [])) ts)
        (some-injective _ _ (rw y at h)),
  )
  | inr n ↦ rw n (tickets_in-first id t ts (rw n at h))
]

tickets_in-one :
    (id : ℕ) (t : Ticket) (db : Db)
    → find_ticket id db ≡ some t
    → check_tickets (id ∷ []) (tickets_in (id ∷ []) db) db ≡ ok tt
    → tickets_in (id ∷ []) db ≡ t ∷ []
unfolding check_tickets
tickets_in-one id t db e c =
    let (others, rows) = tickets_in-first id t db.tickets e in
    let (n, _) = ensure-ok (length (tickets_in (id ∷ []) db) == 1) not_found _ tt c in
    go others rows (subst (λ (ts : List Ticket). (length ts == 1) ≡ true) rows n)
  where
    go :
        (others : List Ticket)
        → tickets_in (id ∷ []) db ≡ t ∷ others
        → (length (t ∷ others) == 1) ≡ true
        → tickets_in (id ∷ []) db ≡ t ∷ []
    go [] rows n = rows
    go (x ∷ others) rows n = absurd (ground (arith, n))

issue-one :
    (t : Ticket) (db : Db)
    → t.remainder_finalized ≡ true
    → (t.currency ≡ usd → t.tax_rate ≡ 0)
    → Post (λ (s : Invoice × Db). s.0.grand_total ≡ (total_of t).total_amount) (issue (t ∷ []) db)
unfolding issue
issue-one t db f no_tax = Post-bind λ (rate : ℕ) r. Post-bind λ (items : List InvoiceItem) _.
    Post-return (
      subst
        (λ (n : ℕ). (invoice_of db.next_id t (t ∷ []) n).grand_total ≡ (total_of t).total_amount)
        (rate_for-one t rate no_tax r) (invoice_of-one db.next_id t f))

-- The invoice of a single ticket whose remainder is finalized, and that is not taxed if it is in USD,
-- asks for exactly the total that the ticket's own columns give, however large its discounts are.
pub generate-single :
    (id : ℕ) (t : Ticket) (db : Db) (s : Invoice × Db)
    → find_ticket id db ≡ some t
    → t.remainder_finalized ≡ true
    → (t.currency ≡ usd → t.tax_rate ≡ 0)
    → generate (id ∷ []) db ≡ ok s
    → s.0.grand_total ≡ (total_of t).total_amount
unfolding generate
generate-single id t db s e f no_tax h =
    Post-result {P = λ (s : Invoice × Db). s.0.grand_total ≡ (total_of t).total_amount}
      (Post-throw_if bad_request λ _. Post-then λ c.
        subst
          (λ (ts : List Ticket).
            Post (λ (s : Invoice × Db). s.0.grand_total ≡ (total_of t).total_amount) (issue ts db))
          (sym (tickets_in-one id t db e c)) (issue-one t db f no_tax))
      h
