-- ===== src/Tickets/Work/Snapshot.antt =====
-- What a submission of costs leaves on the ticket.
use wusuq_web.Base.{
  ℕ, ◌≡◌, Bool, true, false, refl, ap, ◌∙◌, Option, none, some, arith, ◌⁇◌, or_else, Bool-cases,
  ◌⊎◌, inl, inr, ok, Post-or_throw, Post-then, Post-ensure, Post-throw_if, Post-bind, Post-return,
  Post-result, not_found, bad_request, conflict,
}
use wusuq_web.Base.Table
use wusuq_web.Shared.Flows.{Flow, Currency, pkr, usd, is_flow_key}
use wusuq_web.Shared.Gate.{Capability, attestation, printing, delivery, resolve_gated_charge}
use wusuq_web.Store.{Ticket, waiting_approval, Db, ticket_key, find_ticket}
use wusuq_web.Tickets.{Actor, compute_page_charges}
use wusuq_web.Tickets.Flip.{flip-Flipped}
use wusuq_web.Tickets.Work.{
  ClerkCosts, gated_charges, write_charges, write_snapshot, clerk_costs, submit_clerk_costs,
}

-- The gate decides when the ticket is in USD, or its flow is a recognised one.
abbrev pub is_decided : Option Flow → Currency → Bool
is_decided flow usd = true
is_decided none pkr = false
is_decided (some flow) pkr = is_flow_key flow

-- With a fallback, a gate that decides writes an amount.
gate_writes :
    (flow : Option Flow) (currency : Currency) (c : Capability) (dto pages : Option ℕ) (n old : ℕ)
    (was : Option ℕ)
    → is_decided flow currency ≡ true
    → let g = resolve_gated_charge flow currency c dto (or_else pages (some n)) in
      or_else g was ≡ some (g ⁇ old)
unfolding resolve_gated_charge
gate_writes flow usd c dto pages n old was h = refl
gate_writes none pkr c dto pages n old was h = ground arith
gate_writes (some f) pkr c (some d) pages n old was h = ground arith
gate_writes (some f) pkr c none none n old was h = ground arith
gate_writes (some f) pkr c none (some k) n old was h = ground arith

-- The row before a submission, and the row after it.
pub record CostsSubmitted (id : ℕ) (db db' : Db) : Type 0 where
  pub before : Ticket
  pub after : Ticket
  pub found : find_ticket id db ≡ some before
  pub written : find_ticket id db' ≡ some after
  pub was_open : before.remainder_finalized ≡ false
  pub status : after.status ≡ waiting_approval
  pub total : after.total_amount ≡ before.total_amount
  pub paid : after.amount_paid ≡ before.amount_paid
  pub snapshot :
      (is_decided before.intake_flow before.currency ≡ false)
      ⊎ (after.clerk ≡ record {
        attested = some after.charges.attested_charges;
        non_attested = some after.charges.non_attested_charges;
        printing = some after.charges.printing_charges;
        delivery = some after.charges.delivery_charges;
      })

snapshot_taken :
    (dto : ClerkCosts) (t : Ticket)
    → is_decided t.intake_flow t.currency ≡ true
    → (clerk_costs dto t t).clerk ≡ (
        let c = (clerk_costs dto t t).charges in
        record {
          attested = some c.attested_charges;
          non_attested = some c.non_attested_charges;
          printing = some c.printing_charges;
          delivery = some c.delivery_charges;
        })
unfolding clerk_costs gated_charges write_charges write_snapshot
snapshot_taken dto t h =
    let p = dto.pages in
    let column = λ (c : Capability) (value pages : Option ℕ) (n : ℕ) (was : Option ℕ).
      gate_writes t.intake_flow t.currency c value pages n n was h in
    λ i. record {
      attested =
          column attestation dto.attested_charges
            (compute_page_charges p.attested_pages p.attested_cost_per_page)
            t.charges.attested_charges t.clerk.attested i;
      non_attested =
          column attestation dto.non_attested_charges
            (compute_page_charges p.non_attested_pages p.non_attested_cost_per_page)
            t.charges.non_attested_charges t.clerk.non_attested i;
      printing =
          column printing dto.printing_charges (compute_page_charges p.no_of_pages p.cost_per_page)
            t.charges.printing_charges t.clerk.printing i;
      delivery =
          column delivery dto.delivery_charges none t.charges.delivery_charges t.clerk.delivery i;
    }

snapshot_or :
    (dto : ClerkCosts) (t : Ticket)
    → (is_decided t.intake_flow t.currency ≡ false)
      ⊎ ((clerk_costs dto t t).clerk ≡ (
          let c = (clerk_costs dto t t).charges in
          record {
            attested = some c.attested_charges;
            non_attested = some c.non_attested_charges;
            printing = some c.printing_charges;
            delivery = some c.delivery_charges;
          }))
snapshot_or dto t = elim (Bool-cases (is_decided t.intake_flow t.currency)) [
  | inl x ↦ inr (snapshot_taken dto t x)
  | inr x ↦ inl x
]

-- A submission of costs happens before the charges are finalized. It puts the ticket in review,
-- leaves what the consumer owes and has paid, and takes the snapshot that the representative is
-- paid by: the four charges that it wrote, unless the ticket is in PKR and its flow is unknown.
submit_clerk_costs-CostsSubmitted :
    (id : ℕ) (dto : ClerkCosts) (actor : Actor) (db db' : Db)
    → submit_clerk_costs id dto actor db ≡ ok db'
    → CostsSubmitted id db db'
unfolding submit_clerk_costs clerk_costs
submit_clerk_costs-CostsSubmitted id dto actor db db' h =
    Post-result {P = CostsSubmitted id db}
      (Post-or_throw not_found λ (t : Ticket) e. Post-then λ a. Post-ensure bad_request λ s.
        Post-throw_if conflict λ x. Post-bind λ (written : Db) f.
          let p = flip-Flipped id t.status (clerk_costs dto t) db written f in
          let now =
            ap (find_ticket id) p.written
            ∙ Table.find_by-update_by_self ticket_key (clerk_costs dto t) (λ _. refl) id db.tickets
                t e in
          Post-return (record {
            before = t;
            after = clerk_costs dto t t;
            found = e;
            written = now;
            was_open = x;
            status = refl;
            total = refl;
            paid = refl;
            snapshot = snapshot_or dto t;
          }))
      h
