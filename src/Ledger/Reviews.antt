-- ===== src/Ledger/Reviews.antt =====
-- The changes of a status and the review of apps/api/src/tickets/tickets.service.ts: they keep the
-- keys, the foreign keys and the money.
use wusuq_web.Base.{
  ℕ, ◌≡◌, refl, ◌∙◌, Bool, true, false, not, ◌&&◌, arith, Bool-cases, Option-cases, inl, inr, ok,
  Post, Post-bind, Post-then, Post-or_throw, Post-ensure, Post-return, Post-result, Post-of,
  not_found, bad_request, conflict,
}
use wusuq_web.Shared.Money.{is_fully_paid}
use wusuq_web.Store.{Ticket, TicketStatus, completed, delivered, waiting_approval, Db, find_ticket}
use wusuq_web.Wallet.Money.{held, paid_total-update_ticket}
use wusuq_web.Wallet.Settle.{settle_tickets_for_user-held}
use wusuq_web.Tickets.{Actor, flip, transition, add_history}
use wusuq_web.Tickets.Status.{is_physical, update_status, override_status}
use wusuq_web.Tickets.Finalize.{
  FinalizeRemainderDto, finalize_remainder_core, complete, auto_deliver, should_finalize, review,
  review_and_complete,
}
use wusuq_web.Tickets.Finalize.Held.{finalize_remainder_core-Kept}
use wusuq_web.Ledger.{IsLedger, write_ticket}
use wusuq_web.Ledger.Calls.{settle_tickets_for_user-IsLedger, finalize_remainder_core-IsLedger}

abbrev pub Steady : Db → Db → Type 0
Steady db d = IsLedger d × (held d ≡ held db)

flip-Steady :
    (id : ℕ) (status : TicketStatus) (change : Ticket → Ticket) (db d : Db)
    → ((t : Ticket) → (change t).id ≡ t.id)
    → ((t : Ticket) → (change t).consumer_id ≡ t.consumer_id)
    → ((t : Ticket) → (change t).amount_paid ≡ t.amount_paid)
    → Steady db d
    → Post (Steady db) (flip id status change d)
unfolding flip
flip-Steady id status change db d keeps owner paid (l, e) = Post-or_throw conflict λ (t : Ticket) f.
    Post-ensure conflict λ _. Post-return (
      write_ticket id change d keeps owner l,
      omega (arith, e, paid t, paid_total-update_ticket id change d t l.sound.well_formed f),
    )

history-Steady :
    (id : ℕ) (from to : TicketStatus) (db d : Db)
    → Steady db d
    → Steady db (add_history id from to d)
history-Steady id from to db d (l, e) = (
  record {
    sound = record {
      well_formed = record {
        users = l.sound.well_formed.users;
        tickets = l.sound.well_formed.tickets;
      };
      consumers = l.sound.consumers;
    };
    below = l.below;
    pending = l.pending;
    payments = l.payments;
  },
  e,
)

transition-Steady :
    (id : ℕ) (from to : TicketStatus) (db d : Db)
    → Steady db d
    → Post (Steady db) (transition id from to d)
unfolding transition
transition-Steady id from to db d k = Post-bind λ (moved : Db) f. Post-return (
    history-Steady id from to db moved
      (Post-result (flip-Steady id from _ db d (λ _. refl) (λ _. refl) (λ _. refl) k) f))

pub update_status-Steady :
    (id : ℕ) (status : TicketStatus) (db : Db)
    → IsLedger db
    → Post (Steady db) (update_status id status db)
unfolding update_status
update_status-Steady id status db l =
    Post-or_throw not_found
      λ (t : Ticket) _. Post-then λ _. transition-Steady id t.status status db db (l, refl)

pub override_status-Steady :
    (id : ℕ) (status : TicketStatus) (actor : Actor) (db : Db)
    → IsLedger db
    → Post (Steady db) (override_status id status actor db)
unfolding override_status
override_status-Steady id status actor db l =
    Post-or_throw not_found
      λ (t : Ticket) _. Post-then λ _. transition-Steady id t.status status db db (l, refl)

auto_deliver-Steady : (id : ℕ) (db d : Db) → Steady db d → Post (Steady db) (auto_deliver id d)
unfolding auto_deliver
auto_deliver-Steady id db d k = elim (Option-cases (find_ticket id d)) [
  | inl e ↦ rw (e, auto_deliver) (Post-return k)
  | inr (t, e) ↦
      elim (Bool-cases (not (is_physical t) && is_fully_paid t.amount_paid t.total_amount)) [
        | inl r ↦ rw (e, auto_deliver, r) (transition-Steady id completed delivered db d k)
        | inr r ↦ rw (e, auto_deliver, r) (Post-return k)
      ]
]

core-Steady :
    (id : ℕ) (dto : FinalizeRemainderDto) (db : Db)
    → IsLedger db
    → Post (Steady db) (finalize_remainder_core id dto db)
core-Steady id dto db l = Post-of (finalize_remainder_core id dto db) λ d h. (
  Post-result (finalize_remainder_core-IsLedger id dto db l) h,
  (Post-result (finalize_remainder_core-Kept id dto db l.sound) h).0,
)

charged-Steady :
    (b : Bool) (id : ℕ) (dto : FinalizeRemainderDto) (db : Db)
    → IsLedger db
    → Post (Steady db) (elim b [ true ↦ finalize_remainder_core id dto db | false ↦ ok db ])
charged-Steady true id dto db l = core-Steady id dto db l
charged-Steady false id dto db l = Post-return (l, refl)

review-Steady :
    (id : ℕ) (dto : FinalizeRemainderDto) (ticket : Ticket) (db : Db)
    → IsLedger db
    → Post (Steady db) (review id dto ticket db)
unfolding review complete
review-Steady id dto ticket db l = Post-bind λ (charged : Db) g. Post-bind λ (done : Db) f.
    auto_deliver-Steady id db _ (
      history-Steady id waiting_approval completed db done (
        Post-result
          (flip-Steady id waiting_approval (complete ticket) db charged (λ _. refl) (λ _. refl)
            (λ _. refl) (Post-result (charged-Steady (should_finalize ticket) id dto db l) g))
          f))

pub review_and_complete-Steady :
    (id : ℕ) (dto : FinalizeRemainderDto) (db : Db)
    → IsLedger db
    → Post (Steady db) (review_and_complete id dto db)
unfolding review_and_complete
review_and_complete-Steady id dto db l = Post-or_throw not_found λ (t : Ticket) _.
    Post-ensure bad_request λ _. Post-bind λ (reviewed : Db) f.
      let (k, e) = Post-result (review-Steady id dto t db l) f in
      Post-return (elim (Bool-cases (should_finalize t)) [
        | inl y ↦ rw y (
          settle_tickets_for_user-IsLedger t.consumer_id reviewed k,
          (settle_tickets_for_user-held t.consumer_id reviewed k.sound.well_formed).0 ∙ e,
        )
        | inr n ↦ rw n (k, e)
      ])
