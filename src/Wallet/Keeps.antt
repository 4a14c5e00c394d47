-- ===== src/Wallet/Keeps.antt =====
-- What every payment to a ticket and every write of a user's row keep, a settlement keeps.
use wusuq_web.Base.{ℕ, ◌-◌, List, [], ◌∷◌, Bool-cases, Option-cases, inl, inr, leb, min}
use wusuq_web.Shared.Fx.{PaymentMode, bank_transfer}
use wusuq_web.Store.{Ticket, Db, find_user, find_ticket, update_user, ◌is◌, delivered}
use wusuq_web.Wallet.{
  apply_payment_to_ticket, settle_fresh, settle_ticket, settle_tickets, candidate_ids,
  clear_pending_tickets, settle_tickets_for_user,
}

module _ {κ} (P : Db → Type κ)
    (pay : (t : Ticket) (n : ℕ) (mode : PaymentMode) (user_id : ℕ) (db : Db)
      → P db
      → P (apply_payment_to_ticket t n mode user_id db))
    (write : (id n : ℕ) (db : Db)
      → P db
      → P (update_user id (λ u. record u { wallet_balance = n }) db)) where
  settle_fresh-keeps :
      (user_id : ℕ) (mode : PaymentMode) (t : Ticket) (s : ℕ × Db)
      → P s.1
      → P (settle_fresh user_id mode t s).1
  unfolding settle_fresh
  settle_fresh-keeps user_id mode t (r, db) p =
      let paid = pay t (min r (t.total_amount - t.amount_paid)) mode user_id db p in
      elim (Bool-cases (t.status is delivered)) [
        | inl x ↦ rw x p
        | inr x ↦ elim (Bool-cases (leb t.total_amount 0)) [
          | inl y ↦ rw (x, y) p
          | inr y ↦ elim (Bool-cases (leb t.total_amount t.amount_paid)) [
            | inl z ↦ rw (x, y, z) p
            | inr z ↦ rw (x, y, z) paid
          ]
        ]
      ]

  settle_ticket-keeps :
      (user_id : ℕ) (mode : PaymentMode) (id : ℕ) (s : ℕ × Db)
      → P s.1
      → P (settle_ticket user_id mode id s).1
  unfolding settle_ticket
  settle_ticket-keeps user_id mode id s p = elim (Option-cases (find_ticket id s.1)) [
    | inl e ↦ rw (e, settle_ticket) p
    | inr (t, e) ↦ rw (e, settle_ticket) (settle_fresh-keeps user_id mode t s p)
  ]

  settle_tickets-keeps :
      (user_id : ℕ) (mode : PaymentMode) (ids : List ℕ) (s : ℕ × Db)
      → P s.1
      → P (settle_tickets user_id mode ids s).1
  unfolding settle_tickets
  settle_tickets-keeps user_id mode [] s p = p
  settle_tickets-keeps user_id mode (id ∷ ids) s p =
      let rest =
        settle_tickets-keeps user_id mode ids (settle_ticket user_id mode id s)
          (settle_ticket-keeps user_id mode id s p) in
      elim (Bool-cases (leb s.0 0)) [ inl x ↦ rw x p | inr x ↦ rw x rest ]

  pub clear_pending_tickets-keeps :
      (user_id n : ℕ) (mode : PaymentMode) (db : Db)
      → P db
      → P (clear_pending_tickets user_id n mode db)
  unfolding clear_pending_tickets
  clear_pending_tickets-keeps user_id n mode db p =
      write user_id _ _ (settle_tickets-keeps user_id mode (candidate_ids user_id db) (n, db) p)

  pub settle_tickets_for_user-keeps :
      (user_id : ℕ) (db : Db) → P db → P (settle_tickets_for_user user_id db)
  unfolding settle_tickets_for_user
  settle_tickets_for_user-keeps user_id db p = elim (Option-cases (find_user user_id db)) [
    | inl e ↦ rw (e, settle_tickets_for_user) p
    | inr (u, e) ↦
        rw (e, settle_tickets_for_user)
          (clear_pending_tickets-keeps user_id u.wallet_balance bank_transfer db p)
  ]
