-- ===== src/Tickets/Frozen/Steps.antt =====
-- apps/api/src/tickets/tickets.service.ts: delivered tickets, over sequences of the calls of
-- `TicketStep`. `overrideStatus` and `saveClerkCharges` are not among them: they rewrite delivered
-- tickets too.
use wusuq_web.Base.{
  ℕ, ◌≡◌, if◌then◌else◌, Bool, true, false, refl, ap, Option, some, arith, Bool-cases, Option-cases,
  inl, inr, not, ◌&&◌, ok, Post, Post-of, Post-bind, Post-then, Post-or_throw, Post-ensure,
  Post-throw_if, Post-return, Post-result, not_found, bad_request, conflict,
}
use wusuq_web.Store.{
  Ticket, TicketStatus, Db, delivered, in_progress, waiting_approval, completed, find_ticket,
  update_ticket, ◌is◌,
}
use wusuq_web.Shared.Money.{is_fully_paid}
use wusuq_web.Tickets.{Actor, transition, add_history}
use wusuq_web.Tickets.Status.{is_physical, update_status}
use wusuq_web.Tickets.Assign.{AssignTicketDto, assign, accept_assignment, reject_assignment}
use wusuq_web.Tickets.Work.{
  ClerkCosts, submit_clerk_receipt, submit_clerk_costs, clerk_costs, send_back_to_clerk,
  dispatch_delivery,
}
use wusuq_web.Tickets.Finalize.{
  FinalizeRemainderDto, finalize_remainder_core, finalize_remainder, review_and_complete, finalized,
  can_finalize, credit_surplus, complete, auto_deliver, review, should_finalize,
}
use wusuq_web.Tickets.Finalize.Settled.{credit_surplus-tickets}
use wusuq_web.Tickets.Finalize.Reprice.{Resolved, RepriceTicketDto, reprice_ticket, repriced}
use wusuq_web.Tickets.Frozen.{
  Frozen, update-Frozen, flip-Frozen, update_status-Frozen, assign-Frozen, accept_assignment-Frozen,
  reject_assignment-Frozen,
}
use wusuq_web.Wallet.{settle_tickets_for_user}
use wusuq_web.Tickets.Frozen.Settle.{and_then, settle_tickets_for_user-Frozen}

submit_clerk_receipt-Frozen :
    (id url : ℕ) (actor : Actor) (db : Db) → Post (Frozen db) (submit_clerk_receipt id url actor db)
unfolding submit_clerk_receipt
submit_clerk_receipt-Frozen id url actor db = Post-or_throw not_found λ (t : Ticket) e.
    Post-then λ c. elim (Bool-cases (t.status is in_progress)) [
      | inl x ↦ rw x (
          Post-bind λ (advanced : Db) f.
            Post-return (flip-Frozen id in_progress _ db advanced (λ _. refl) refl f))
      | inr x ↦
          rw x (Post-of _ λ db' f. flip-Frozen id waiting_approval _ db db' (λ _. refl) refl f)
    ]

submit_clerk_costs-Frozen :
    (id : ℕ) (dto : ClerkCosts) (actor : Actor) (db : Db)
    → Post (Frozen db) (submit_clerk_costs id dto actor db)
unfolding submit_clerk_costs clerk_costs
submit_clerk_costs-Frozen id dto actor db = Post-or_throw not_found λ (t : Ticket) e. Post-then λ a.
    Post-ensure bad_request λ s. Post-throw_if conflict λ x. Post-bind λ (written : Db) f.
      Post-return
        (flip-Frozen id t.status (clerk_costs dto t) db written (λ _. refl) (ground arith) f)

send_back_to_clerk-Frozen : (id : ℕ) (db : Db) → Post (Frozen db) (send_back_to_clerk id db)
unfolding send_back_to_clerk
send_back_to_clerk-Frozen id db = Post-or_throw not_found λ (t : Ticket) e.
    Post-ensure bad_request λ s. Post-bind λ (written : Db) f.
      Post-return (flip-Frozen id waiting_approval _ db written (λ _. refl) refl f)

dispatch_delivery-Frozen :
    (id : ℕ) (proof tracking : Option ℕ) (actor : Actor) (db : Db)
    → Post (Frozen db) (dispatch_delivery id proof tracking actor db)
unfolding dispatch_delivery
dispatch_delivery-Frozen id proof tracking actor db = Post-or_throw not_found λ (t : Ticket) e.
    Post-then λ a. Post-ensure bad_request λ p. Post-ensure bad_request λ s.
      Post-throw_if conflict
        λ x. Post-of _ λ db' f. flip-Frozen id completed _ db db' (λ _. refl) refl f

-- A ticket's surplus goes out, and its row changes.
surplus-Frozen :
    (id n : ℕ) (change : Ticket → Ticket) (t : Ticket) (db : Db)
    → ((x : Ticket) → (change x).id ≡ x.id)
    → find_ticket id db ≡ some t
    → (t.status is delivered) ≡ false
    → Frozen db (update_ticket id change (credit_surplus t n db))
surplus-Frozen id n change t db keeps e s =
    update-Frozen id change t db (update_ticket id change (credit_surplus t n db)) keeps e s (
      ap (λ ts. (update_ticket id change (record db { tickets = ts })).tickets)
        (credit_surplus-tickets t n db))

finalize_remainder_core-Frozen :
    (id : ℕ) (dto : FinalizeRemainderDto) (db : Db)
    → Post (Frozen db) (finalize_remainder_core id dto db)
unfolding finalize_remainder_core finalized can_finalize
finalize_remainder_core-Frozen id dto db = Post-or_throw not_found λ (t : Ticket) e.
    Post-throw_if conflict λ x.
      Post-ensure bad_request
        λ c. Post-return (surplus-Frozen id _ (finalized dto t) t db (λ _. refl) e (ground arith))

reprice_ticket-Frozen :
    (id : ℕ) (resolved : Resolved) (rate : ℕ) (dto : RepriceTicketDto) (db : Db)
    → Post (Frozen db) (reprice_ticket id resolved rate dto db)
unfolding reprice_ticket repriced
reprice_ticket-Frozen id resolved rate dto db = Post-or_throw not_found λ (t : Ticket) e.
    Post-throw_if bad_request λ x.
      Post-ensure bad_request
        λ c. Post-return (surplus-Frozen id _ (repriced t resolved rate dto) t db (λ _. refl) e x)

auto_deliver-Frozen : (id : ℕ) (db : Db) → Post (Frozen db) (auto_deliver id db)
unfolding auto_deliver transition
auto_deliver-Frozen id db = elim (Option-cases (find_ticket id db)) [
  | inl e ↦ rw (e, auto_deliver) (Post-return λ j t f s. f)
  | inr (t, e) ↦
      elim (Bool-cases (not (is_physical t) && is_fully_paid t.amount_paid t.total_amount)) [
        | inl r ↦
            rw (e, auto_deliver, r)
              (Post-bind
                λ (d : Db) f. Post-return (flip-Frozen id completed _ db d (λ _. refl) refl f))
        | inr r ↦ rw (e, auto_deliver, r) (Post-return λ j t f s. f)
      ]
]

charged-Frozen :
    (id : ℕ) (dto : FinalizeRemainderDto) (b : Bool) (db db' : Db)
    → (elim b [ true ↦ finalize_remainder_core id dto db | false ↦ ok db ]) ≡ ok db'
    → Frozen db db'
charged-Frozen id dto true db db' h = Post-result (finalize_remainder_core-Frozen id dto db) h
charged-Frozen id dto false db db' h = Post-result {P = Frozen db} (Post-return λ j t f s. f) h

review-Frozen :
    (id : ℕ) (dto : FinalizeRemainderDto) (ticket : Ticket) (db : Db)
    → Post (Frozen db) (review id dto ticket db)
unfolding review complete
review-Frozen id dto ticket db = Post-bind λ (charged : Db) g. Post-bind λ (done : Db) f.
    Post-of _ λ db' h.
      let one = charged-Frozen id dto (should_finalize ticket) db charged g in
      let two = flip-Frozen id waiting_approval (complete ticket) charged done (λ _. refl) refl f in
      let three =
        Post-result (auto_deliver-Frozen id (add_history id waiting_approval completed done)) h in
      and_then db done db' (and_then db charged done one two) three

finalize_remainder-Frozen :
    (id : ℕ) (dto : FinalizeRemainderDto) (db : Db)
    → Post (Frozen db) (finalize_remainder id dto db)
unfolding finalize_remainder
finalize_remainder-Frozen id dto db = Post-or_throw not_found λ (t : Ticket) e.
    Post-bind λ (written : Db) f. Post-return (
      and_then db written (settle_tickets_for_user t.consumer_id written)
        (Post-result (finalize_remainder_core-Frozen id dto db) f)
        (settle_tickets_for_user-Frozen t.consumer_id written))

settled_if-Frozen :
    (b : Bool) (user_id : ℕ) (db : Db)
    → Frozen db (if b then settle_tickets_for_user user_id db else db)
settled_if-Frozen true user_id db = settle_tickets_for_user-Frozen user_id db
settled_if-Frozen false user_id db = λ j t f s. f

review_and_complete-Frozen :
    (id : ℕ) (dto : FinalizeRemainderDto) (db : Db)
    → Post (Frozen db) (review_and_complete id dto db)
unfolding review_and_complete
review_and_complete-Frozen id dto db = Post-or_throw not_found λ (t : Ticket) e.
    Post-ensure bad_request λ w. Post-bind λ (reviewed : Db) f. Post-return (
      and_then db reviewed
        (if should_finalize t then settle_tickets_for_user t.consumer_id reviewed else reviewed)
        (Post-result (review-Frozen id dto t db) f)
        (settled_if-Frozen (should_finalize t) t.consumer_id reviewed))

-- A call that succeeds on the tables.
pub data TicketStep (db db' : Db) : Type 0 where
  by_update_status :
      (id : ℕ) (to : TicketStatus) → update_status id to db ≡ ok db' → TicketStep db db'
  by_assign : (id : ℕ) (dto : AssignTicketDto) → assign id dto db ≡ ok db' → TicketStep db db'
  by_accept : (id : ℕ) (actor : Actor) → accept_assignment id actor db ≡ ok db' → TicketStep db db'
  by_reject :
      (id n : ℕ) (actor : Actor) → reject_assignment id n actor db ≡ ok db' → TicketStep db db'
  by_receipt :
      (id url : ℕ) (actor : Actor)
      → submit_clerk_receipt id url actor db ≡ ok db'
      → TicketStep db db'
  by_costs :
      (id : ℕ) (dto : ClerkCosts) (actor : Actor)
      → submit_clerk_costs id dto actor db ≡ ok db'
      → TicketStep db db'
  by_send_back : (id : ℕ) → send_back_to_clerk id db ≡ ok db' → TicketStep db db'
  by_dispatch :
      (id : ℕ) (proof tracking : Option ℕ) (actor : Actor)
      → dispatch_delivery id proof tracking actor db ≡ ok db'
      → TicketStep db db'
  by_finalize :
      (id : ℕ) (dto : FinalizeRemainderDto)
      → finalize_remainder id dto db ≡ ok db'
      → TicketStep db db'
  by_review :
      (id : ℕ) (dto : FinalizeRemainderDto)
      → review_and_complete id dto db ≡ ok db'
      → TicketStep db db'
  by_reprice :
      (id : ℕ) (resolved : Resolved) (rate : ℕ) (dto : RepriceTicketDto)
      → reprice_ticket id resolved rate dto db ≡ ok db'
      → TicketStep db db'

-- Any number of them, one after the other.
pub data TicketSteps : Db → Db → Type 0 where
  done : {db : Db} → TicketSteps db db
  step : {db db' db'' : Db} → TicketStep db db' → TicketSteps db' db'' → TicketSteps db db''

TicketStep-Frozen : (db db' : Db) → TicketStep db db' → Frozen db db'
TicketStep-Frozen db db' (by_update_status id to e) = update_status-Frozen id to db db' e
TicketStep-Frozen db db' (by_assign id dto e) = Post-result (assign-Frozen id dto db) e
TicketStep-Frozen db db' (by_accept id actor e) =
    Post-result (accept_assignment-Frozen id actor db) e
TicketStep-Frozen db db' (by_reject id n actor e) =
    Post-result (reject_assignment-Frozen id n actor db) e
TicketStep-Frozen db db' (by_receipt id url actor e) =
    Post-result (submit_clerk_receipt-Frozen id url actor db) e
TicketStep-Frozen db db' (by_costs id dto actor e) =
    Post-result (submit_clerk_costs-Frozen id dto actor db) e
TicketStep-Frozen db db' (by_send_back id e) = Post-result (send_back_to_clerk-Frozen id db) e
TicketStep-Frozen db db' (by_dispatch id proof tracking actor e) =
    Post-result (dispatch_delivery-Frozen id proof tracking actor db) e
TicketStep-Frozen db db' (by_finalize id dto e) =
    Post-result (finalize_remainder-Frozen id dto db) e
TicketStep-Frozen db db' (by_review id dto e) = Post-result (review_and_complete-Frozen id dto db) e
TicketStep-Frozen db db' (by_reprice id resolved rate dto e) =
    Post-result (reprice_ticket-Frozen id resolved rate dto db) e

-- Once a ticket is delivered, its row stays as it is, whatever sequence of the calls of TicketStep
-- succeeds: updateStatus, assign, the acceptance and the rejection of an assignment, the clerk's
-- receipt and costs and their sending back, dispatchDelivery, finalizeRemainder and
-- reviewAndComplete with the settlement from the wallet that follows, and repriceTicket. Overrides of
-- a status and saveClerkCharges are not among them.
pub TicketSteps-delivered :
    (db db' : Db) (id : ℕ) (t : Ticket)
    → TicketSteps db db'
    → find_ticket id db ≡ some t
    → t.status ≡ delivered
    → find_ticket id db' ≡ some t
TicketSteps-delivered db db' id t done f s = f
TicketSteps-delivered db db' id t (step {db' = next} one rest) f s =
    TicketSteps-delivered next db' id t rest (TicketStep-Frozen db next one id t f s) s
