-- ===== src/Wallet/Settle.antt =====
-- The settlement of a consumer's tickets from the credit, oldest first.
use wusuq_web.Base.{
  ℕ, ◌+◌, ◌-◌, ◌≡◌, refl, ap, ◌∙◌, some, List, [], ◌∷◌, arith, sum, Bool-cases, Option-cases, inl,
  inr, leb, min,
}
use wusuq_web.Base.Table
use wusuq_web.Store.{
  User, Ticket, Db, ticket_key, find_user, find_ticket, IsWellFormed, ◌is◌, delivered,
}
use wusuq_web.Shared.Fx.{PaymentMode, bank_transfer}
use wusuq_web.Wallet.{
  apply_payment_to_ticket, settle_fresh, settle_ticket, settle_tickets, candidate_ids,
  clear_pending_tickets, settle_tickets_for_user,
}
use wusuq_web.Wallet.Money.{
  paid_total, held, credit_total-update_user, update_user-IsWellFormed,
  apply_payment_to_ticket-Applied,
}

-- What left the credit went onto tickets.
pub record Moved (s s' : ℕ × Db) : Type 0 where
  pub users : s'.1.users ≡ s.1.users
  pub kept : s'.0 + paid_total s'.1 ≡ s.0 + paid_total s.1
  pub well_formed : IsWellFormed s'.1

same-Moved : (s : ℕ × Db) → IsWellFormed s.1 → Moved s s
same-Moved s w = record { users = refl; kept = refl; well_formed = w }

settle_fresh-Moved :
    (user_id : ℕ) (mode : PaymentMode) (t : Ticket) (s : ℕ × Db)
    → IsWellFormed s.1
    → find_ticket t.id s.1 ≡ some t
    → Moved s (settle_fresh user_id mode t s)
unfolding settle_fresh
settle_fresh-Moved user_id mode t (r, db) w e =
    let n = min r (t.total_amount - t.amount_paid) in
    let a = apply_payment_to_ticket-Applied t n mode user_id db w e in
    let paid : Moved (r, db) (r - n, apply_payment_to_ticket t n mode user_id db) = record {
      users = a.users;
      kept = omega arith;
      well_formed = a.well_formed;
    } in
    let same = same-Moved (r, db) w in
    elim (Bool-cases (t.status is delivered)) [
      | inl x ↦ rw x same
      | inr x ↦ elim (Bool-cases (leb t.total_amount 0)) [
        | inl y ↦ rw (x, y) same
        | inr y ↦ elim (Bool-cases (leb t.total_amount t.amount_paid)) [
          | inl z ↦ rw (x, y, z) same
          | inr z ↦ rw (x, y, z) paid
        ]
      ]
    ]

settle_ticket-Moved :
    (user_id : ℕ) (mode : PaymentMode) (id : ℕ) (s : ℕ × Db)
    → IsWellFormed s.1
    → Moved s (settle_ticket user_id mode id s)
unfolding settle_ticket
settle_ticket-Moved user_id mode id s w = elim (Option-cases (find_ticket id s.1)) [
  | inl e ↦ rw (e, settle_ticket) (same-Moved s w)
  | inr (t, e) ↦
      rw (e, settle_ticket)
        (settle_fresh-Moved user_id mode t s w (Table.find_by_own ticket_key id s.1.tickets t e))
]

pub settle_tickets-Moved :
    (user_id : ℕ) (mode : PaymentMode) (ids : List ℕ) (s : ℕ × Db)
    → IsWellFormed s.1
    → Moved s (settle_tickets user_id mode ids s)
unfolding settle_tickets
settle_tickets-Moved user_id mode [] s w = same-Moved s w
settle_tickets-Moved user_id mode (id ∷ ids) s w =
    let one = settle_ticket-Moved user_id mode id s w in
    let next = settle_ticket user_id mode id s in
    let rest = settle_tickets-Moved user_id mode ids next one.well_formed in
    let all : Moved s (settle_tickets user_id mode ids next) = record {
      users = rest.users ∙ one.users;
      kept = rest.kept ∙ one.kept;
      well_formed = rest.well_formed;
    } in
    elim (Bool-cases (leb s.0 0)) [ inl x ↦ rw x (same-Moved s w) | inr x ↦ rw x all ]

pub clear_pending_tickets-held :
    (user_id : ℕ) (mode : PaymentMode) (db : Db) (u : User)
    → IsWellFormed db
    → find_user user_id db ≡ some u
    → (held (clear_pending_tickets user_id u.wallet_balance mode db) ≡ held db)
      × IsWellFormed (clear_pending_tickets user_id u.wallet_balance mode db)
unfolding clear_pending_tickets
clear_pending_tickets-held user_id mode db u w e =
    let s : ℕ × Db = (u.wallet_balance, db) in
    let ids = candidate_ids user_id db in
    let m = settle_tickets-Moved user_id mode ids s w in
    let (left, db') = settle_tickets user_id mode ids s in
    let there : find_user user_id db' ≡ some u = rw m.users e in
    let spend : User → User = λ u. record u { wallet_balance = left } in
    (
      omega (
        arith,
        credit_total-update_user user_id spend db' u m.well_formed there,
        m.kept,
        ap (λ us. sum (λ (u : User). u.wallet_balance) us) m.users,
      ),
      update_user-IsWellFormed user_id spend db' (λ _. refl) m.well_formed,
    )

-- In well-formed tables, settling a consumer's tickets from the whole credit leaves all the money
-- that is held as it was, and the tables well-formed.
pub settle_tickets_for_user-held :
    (user_id : ℕ) (db : Db)
    → IsWellFormed db
    → (held (settle_tickets_for_user user_id db) ≡ held db)
      × IsWellFormed (settle_tickets_for_user user_id db)
unfolding settle_tickets_for_user
settle_tickets_for_user-held user_id db w = elim (Option-cases (find_user user_id db)) [
  | inl e ↦ rw (e, settle_tickets_for_user) (refl, w)
  | inr (u, e) ↦
      rw (e, settle_tickets_for_user) (clear_pending_tickets-held user_id bank_transfer db u w e)
]
