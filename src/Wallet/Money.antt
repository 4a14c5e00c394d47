-- ===== src/Wallet/Money.antt =====
-- The money that the tables hold: credit on the wallets, and payments on the tickets.
use wusuq_web.Base.{ℕ, ◌+◌, ◌≡◌, refl, some, arith, sum}
use wusuq_web.Base.Table
use wusuq_web.Store.{
  User, Ticket, Db, user_key, ticket_key, find_user, find_ticket, update_user, update_ticket,
  IsWellFormed,
}
use wusuq_web.Shared.Fx.{PaymentMode}
use wusuq_web.Wallet.{credit_ticket, apply_payment_to_ticket}

abbrev pub credit_total : Db → ℕ
credit_total db = sum (λ (u : User). u.wallet_balance) db.users

abbrev pub paid_total : Db → ℕ
paid_total db = sum (λ (t : Ticket). t.amount_paid) db.tickets

-- All the money that the system holds for its consumers.
abbrev pub held : Db → ℕ
held db = credit_total db + paid_total db

-- An update of one user's balance.
pub credit_total-update_user :
    (id : ℕ) (f : User → User) (db : Db) (u : User)
    → IsWellFormed db
    → find_user id db ≡ some u
    → credit_total (update_user id f db) + u.wallet_balance ≡ credit_total db + (f u).wallet_balance
credit_total-update_user id f db u w e =
    Table.sum-update_by user_key id f (λ (u : User). u.wallet_balance) db.users u w.users e

pub paid_total-update_ticket :
    (id : ℕ) (f : Ticket → Ticket) (db : Db) (t : Ticket)
    → IsWellFormed db
    → find_ticket id db ≡ some t
    → paid_total (update_ticket id f db) + t.amount_paid ≡ paid_total db + (f t).amount_paid
paid_total-update_ticket id f db t w e =
    Table.sum-update_by ticket_key id f (λ (t : Ticket). t.amount_paid) db.tickets t w.tickets e

pub update_user-IsWellFormed :
    (id : ℕ) (f : User → User) (db : Db)
    → ((u : User) → (f u).id ≡ u.id)
    → IsWellFormed db
    → IsWellFormed (update_user id f db)
update_user-IsWellFormed id f db keeps w = record {
  users = Table.update_by-Distinct user_key f keeps id db.users w.users;
  tickets = w.tickets;
}

pub update_ticket-IsWellFormed :
    (id : ℕ) (f : Ticket → Ticket) (db : Db)
    → ((t : Ticket) → (f t).id ≡ t.id)
    → IsWellFormed db
    → IsWellFormed (update_ticket id f db)
update_ticket-IsWellFormed id f db keeps w = record {
  users = w.users;
  tickets = Table.update_by-Distinct ticket_key f keeps id db.tickets w.tickets;
}

-- A payment puts what it deducts onto its ticket, and touches no wallet.
pub record Applied (n : ℕ) (db db' : Db) : Type 0 where
  pub users : db'.users ≡ db.users
  pub paid : paid_total db' ≡ paid_total db + n
  pub well_formed : IsWellFormed db'

pub apply_payment_to_ticket-Applied :
    (t : Ticket) (n : ℕ) (mode : PaymentMode) (user_id : ℕ) (db : Db)
    → IsWellFormed db
    → find_ticket t.id db ≡ some t
    → Applied n db (apply_payment_to_ticket t n mode user_id db)
unfolding apply_payment_to_ticket
apply_payment_to_ticket-Applied t n mode user_id db w e = record {
  users = refl;
  paid = omega (arith, paid_total-update_ticket t.id (credit_ticket t n) db t w e);
  well_formed = record {
    users = w.users;
    tickets = (update_ticket-IsWellFormed t.id (credit_ticket t n) db (λ _. refl) w).tickets;
  };
}
