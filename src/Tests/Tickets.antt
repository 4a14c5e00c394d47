-- ===== src/Tests/Tickets.antt =====
-- Tests of the lifecycle of a ticket.
use wusuq_web.Base.{
  ℕ, ◌≡◌, refl, true, false, none, some, List, [], ◌∷◌, All, arith, Result, ok, err, ◌==◌, countb,
  ◌>>=◌, ◌>>◌, or_throw, throw_if, ensure,
}
use wusuq_web.Shared.Flows.{judicial_case_information, charge_capabilities_for}
use wusuq_web.Shared.Money.{compute_ticket_total, is_fully_paid, round2}
use wusuq_web.Store.{
  Db, User, Ticket, completed, delivered, find_ticket, find_user, IsWellFormed, representative,
  paid,
}
use wusuq_web.Wallet.Money.{held}
use wusuq_web.Tickets.{Actor, flip, transition, is_allowed}
use wusuq_web.Tickets.Flip.{moved}
use wusuq_web.Tickets.Status.{is_physical, ensure_deliverable, check_status_update, update_status}
use wusuq_web.Tickets.Assign.{
  AssignTicketDto, city_matches, ensure_active_representative_exists, assign, total_of,
}
use wusuq_web.Tickets.Assign.Active.{by_assign, OneActive, AssignmentStep-OneActive}
use wusuq_web.Tickets.Work.{ClerkCosts}
use wusuq_web.Tickets.Finalize.{
  FinalizeRemainderDto, can_finalize, finalize_remainder_core, finalize_remainder, has_caps,
}
use wusuq_web.Tickets.Finalize.Held.{IsSound, finalize_remainder-held}
use wusuq_web.Tickets.Finalize.Settled.{Final, finalize_remainder_core-Final}
use wusuq_web.Tickets.Frozen.Steps.{by_update_status, done, step, TicketSteps-delivered}
use wusuq_web.Tickets.Delivery.{CanWork, WayToDelivery, WayToDelivery-paid}
use wusuq_web.Tickets.Bulk.{assign_one, for_each, assign_bulk}
use wusuq_web.Tickets.Bulk.Held.{HeldBy, reports, assign_bulk-HeldBy}
use wusuq_web.Tests.{db, db-IsWellFormed, ticket, user, customer, pages}

abbrev after : Result Db → Db
after (ok d) = d
after (err _) = db

deliver : update_status 16 delivered db ≡ ok (moved 16 completed delivered db)
unfolding update_status check_status_update ensure_deliverable is_physical charge_capabilities_for
    is_allowed transition flip ◌>>=◌ ◌>>◌ or_throw ensure throw_if
deliver = refl

TicketSteps-delivered_example :
    find_ticket 13 (moved 16 completed delivered db) ≡ some (ticket 13 delivered 20_00 20_00)
TicketSteps-delivered_example =
    TicketSteps-delivered db (moved 16 completed delivered db) 13 (ticket 13 delivered 20_00 20_00)
      (step (by_update_status 16 delivered deliver) done) refl refl

-- Ticket 12, which representative 2 holds, goes to representative 3.
abbrev to_three : AssignTicketDto
to_three = record { representative_id = 3; clerk_cost = some 5_00; force_assign = false }

abbrev assigned_db : Db
assigned_db = after (assign 12 to_three db)

assigns : assign 12 to_three db ≡ ok assigned_db
unfolding assign ensure_active_representative_exists city_matches is_allowed flip ◌>>=◌ ◌>>◌
    or_throw ensure throw_if
assigns = refl

one_holder : OneActive db
one_holder ticket_id = ground arith

AssignmentStep-OneActive_example : OneActive assigned_db
AssignmentStep-OneActive_example =
    AssignmentStep-OneActive db assigned_db (by_assign 12 to_three assigns) one_holder

-- The representative asks for 4.00 of delivery; nothing else is sent.
abbrev costs : ClerkCosts
costs = record {
  delivery_charges = some 4_00;
  printing_charges = none;
  attested_charges = none;
  non_attested_charges = none;
  additional_charges = none;
  pages = pages;
  dispatch_proof_url = none;
  tracking_no = none;
}

-- The final charges of ticket 15 stay below what was paid.
abbrev last : FinalizeRemainderDto
last = record { costs = costs; additional_service_cost = none }

abbrev final_db : Db
final_db = after (finalize_remainder_core 15 last db)

finalizes : finalize_remainder_core 15 last db ≡ ok final_db
unfolding finalize_remainder_core can_finalize ◌>>=◌ ◌>>◌ or_throw ensure throw_if
finalizes = refl

finalize_remainder_core-Final_example : Final 15 db final_db
finalize_remainder_core-Final_example = finalize_remainder_core-Final 15 last db final_db finalizes

db-IsSound : IsSound db
db-IsSound = record {
  well_formed = db-IsWellFormed;
  consumers =
      let c : (u : User) × (find_user 1 db ≡ some u) = (customer, refl) in
      (c, (c, (c, (c, (c, (c, (c, tt)))))));
}

abbrev settled_db : Db
settled_db = after (finalize_remainder 15 last db)

settles : finalize_remainder 15 last db ≡ ok settled_db
unfolding finalize_remainder finalize_remainder_core can_finalize ◌>>=◌ ◌>>◌ or_throw ensure
    throw_if
settles = refl

finalize_remainder-held_example : (held settled_db ≡ held db) × IsWellFormed settled_db
finalize_remainder-held_example = finalize_remainder-held 15 last db settled_db db-IsSound settles

-- Ticket 12, of a flow that has no second-phase charges.
abbrev plain : Ticket
plain = record (ticket 12 paid 20_00 20_00) { intake_flow = some judicial_case_information }

abbrev plain_db : Db
plain_db = record db { tickets = plain ∷ [] }

abbrev forced : AssignTicketDto
forced = record { representative_id = 3; clerk_cost = none; force_assign = true }

abbrev clerk : Actor
clerk = record { user_id = some 3; role = some representative }

can_work : CanWork 3 plain_db
can_work = record { user = user 3 representative 0; found = refl; role = refl; active = refl }

fully_paid : is_fully_paid 20_00 (total_of plain).total_amount ≡ true
unfolding total_of compute_ticket_total round2
fully_paid = refl

is_digital : is_physical plain ≡ false
unfolding is_physical charge_capabilities_for
is_digital = refl

is_capless : has_caps plain ≡ false
unfolding has_caps charge_capabilities_for
is_capless = refl

WayToDelivery-paid_example : WayToDelivery 12 77 forced clerk last plain_db
WayToDelivery-paid_example =
    WayToDelivery-paid 12 77 forced clerk last plain_db plain can_work refl refl is_digital
      is_capless fully_paid refl refl

-- Ticket 12 goes to representative 3, the unknown 99 and the delivered 13 are skipped.
abbrev batch : List ℕ
batch = 12 ∷ 99 ∷ 13 ∷ []

assign_bulk-HeldBy_example :
    ((id : ℕ) → reports id (assign_bulk batch 3 true db) ≡ countb (λ i. i == id) batch)
    × All (HeldBy 3 (assign_bulk batch 3 true db).db) (assign_bulk batch 3 true db).succeeded
    × (OneActive db → OneActive (assign_bulk batch 3 true db).db)
assign_bulk-HeldBy_example = assign_bulk-HeldBy batch 3 true db

batch_assigned : (assign_bulk batch 3 true db).succeeded ≡ 12 ∷ []
unfolding assign_bulk assign_one for_each assign ensure_active_representative_exists city_matches
    is_allowed flip ◌>>=◌ ◌>>◌ or_throw ensure throw_if
batch_assigned = refl
