-- ===== src/Tickets/Frozen/Settle.antt =====
-- apps/api/src/wallet/wallet.service.ts, `clearPendingTickets`: delivered tickets in a settlement.
use wusuq_web.Base.{
  ℕ, ◌-◌, refl, List, [], ◌∷◌, Bool-cases, Option-cases, inl, inr, leb, min, ◌≡◌, some,
}
use wusuq_web.Base.Table
use wusuq_web.Shared.Fx.{PaymentMode, bank_transfer}
use wusuq_web.Store.{Ticket, Db, ticket_key, find_user, find_ticket, ◌is◌, delivered}
use wusuq_web.Wallet.{
  credit_ticket, apply_payment_to_ticket, settle_fresh, settle_ticket, settle_tickets,
  candidate_ids, clear_pending_tickets, settle_tickets_for_user,
}
use wusuq_web.Tickets.Frozen.{Frozen, update-Frozen}

pub and_then : (db db' db'' : Db) → Frozen db db' → Frozen db' db'' → Frozen db db''
and_then db db' db'' f g j t e s = g j t (f j t e s) s

settle_fresh-Frozen :
    (user_id id : ℕ) (mode : PaymentMode) (t : Ticket) (s : ℕ × Db)
    → find_ticket id s.1 ≡ some t
    → Frozen s.1 (settle_fresh user_id mode t s).1
unfolding settle_fresh apply_payment_to_ticket
settle_fresh-Frozen user_id id mode t (r, db) e = elim (Bool-cases (t.status is delivered)) [
  | inl x ↦ rw x (λ j t f s. f)
  | inr x ↦ elim (Bool-cases (leb t.total_amount 0)) [
    | inl y ↦ rw (x, y) (λ j t f s. f)
    | inr y ↦ elim (Bool-cases (leb t.total_amount t.amount_paid)) [
      | inl z ↦ rw (x, y, z) (λ j t f s. f)
      | inr z ↦
          let n = min r (t.total_amount - t.amount_paid) in
          rw (x, y, z)
            (update-Frozen t.id (credit_ticket t n) t db
              (apply_payment_to_ticket t n mode user_id db) (λ _. refl)
              (Table.find_by_own ticket_key id db.tickets t e) x refl)
    ]
  ]
]

settle_ticket-Frozen :
    (user_id : ℕ) (mode : PaymentMode) (id : ℕ) (s : ℕ × Db)
    → Frozen s.1 (settle_ticket user_id mode id s).1
unfolding settle_ticket
settle_ticket-Frozen user_id mode id s = elim (Option-cases (find_ticket id s.1)) [
  | inl e ↦ rw (e, settle_ticket) (λ j t f s. f)
  | inr (t, e) ↦ rw (e, settle_ticket) (settle_fresh-Frozen user_id id mode t s e)
]

settle_tickets-Frozen :
    (user_id : ℕ) (mode : PaymentMode) (ids : List ℕ) (s : ℕ × Db)
    → Frozen s.1 (settle_tickets user_id mode ids s).1
unfolding settle_tickets
settle_tickets-Frozen user_id mode [] s = λ j t f s. f
settle_tickets-Frozen user_id mode (id ∷ ids) s =
    let now = settle_ticket user_id mode id s in
    let rest =
      and_then s.1 now.1 (settle_tickets user_id mode ids now).1
        (settle_ticket-Frozen user_id mode id s) (settle_tickets-Frozen user_id mode ids now) in
    elim (Bool-cases (leb s.0 0)) [ inl x ↦ rw x (λ j t f s. f) | inr x ↦ rw x rest ]

pub settle_tickets_for_user-Frozen :
    (user_id : ℕ) (db : Db) → Frozen db (settle_tickets_for_user user_id db)
unfolding settle_tickets_for_user clear_pending_tickets
settle_tickets_for_user-Frozen user_id db = elim (Option-cases (find_user user_id db)) [
  | inl e ↦ rw (e, settle_tickets_for_user) (λ j t f s. f)
  | inr (u, e) ↦
      rw (e, settle_tickets_for_user)
        (settle_tickets-Frozen user_id bank_transfer (candidate_ids user_id db)
          (u.wallet_balance, db))
]
