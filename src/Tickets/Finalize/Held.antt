-- ===== src/Tickets/Finalize/Held.antt =====
-- The money that is held, over a finalization and a repricing.
use wusuq_web.Base.{
  ℕ, ◌+◌, ◌-◌, ◌≡◌, refl, ◌∙◌, some, arith, All, ltb, Bool-cases, inl, inr, ok, Post, Post-or_throw,
  Post-throw_if, Post-ensure, Post-bind, Post-return, Post-result, not_found, conflict, bad_request,
}
use wusuq_web.Base.Table
use wusuq_web.Store.{
  User, Ticket, Db, ticket_key, find_user, find_ticket, update_ticket, IsWellFormed,
}
use wusuq_web.Wallet.Money.{
  held, credit_total-update_user, paid_total-update_ticket, update_user-IsWellFormed,
  update_ticket-IsWellFormed,
}
use wusuq_web.Wallet.Settle.{settle_tickets_for_user-held}
use wusuq_web.Tickets.Finalize.{
  FinalizeRemainderDto, credit_surplus, finalized, assemble_finalize_money, final_charges,
  finalize_remainder_core, finalize_remainder,
}
use wusuq_web.Tickets.Finalize.Reprice.{Resolved, RepriceTicketDto, repriced, reprice_ticket}

-- The tables are well-formed, and every ticket's consumer is there.
pub record IsSound (db : Db) : Type 0 where
  pub well_formed : IsWellFormed db
  pub consumers :
      All (λ (t : Ticket). (u : User) × (find_user t.consumer_id db ≡ some u)) db.tickets

pub consumer_of :
    (id : ℕ) (db : Db) (t : Ticket)
    → IsSound db
    → find_ticket id db ≡ some t
    → (u : User) × (find_user t.consumer_id db ≡ some u)
consumer_of id db t s e =
    Table.All-find_by ticket_key
      (λ (t : Ticket). (u : User) × (find_user t.consumer_id db ≡ some u)) id db.tickets t
      s.consumers e

abbrev pub Kept : Db → Db → Type 0
Kept db db' = (held db' ≡ held db) × IsWellFormed db'

-- A surplus that leaves a ticket for its consumer's wallet.
surplus-Kept :
    (id n : ℕ) (change : Ticket → Ticket) (t : Ticket) (u : User) (db : Db)
    → IsWellFormed db
    → find_ticket id db ≡ some t
    → find_user t.consumer_id db ≡ some u
    → ((x : Ticket) → (change x).id ≡ x.id)
    → (change t).amount_paid + n ≡ t.amount_paid
    → Kept db (update_ticket id change (credit_surplus t n db))
unfolding credit_surplus
surplus-Kept id n change t u db w e f keeps p =
    let add : User → User = λ u. record u { wallet_balance = u.wallet_balance + n } in
    let paid = paid_total-update_ticket id change db t w e in
    let credited = credit_total-update_user t.consumer_id add db u w f in
    let users = update_user-IsWellFormed t.consumer_id add db (λ _. refl) w in
    let tickets = update_ticket-IsWellFormed id change db keeps w in
    elim (Bool-cases (ltb 0 n)) [
      | inl x ↦ rw x (omega arith, record { users = users.users; tickets = tickets.tickets })
      | inr x ↦ let none_left : n ≡ 0 = ground arith in rw x (omega arith, tickets)
    ]

pub finalize_remainder_core-Kept :
    (id : ℕ) (dto : FinalizeRemainderDto) (db : Db)
    → IsSound db
    → Post (Kept db) (finalize_remainder_core id dto db)
unfolding finalize_remainder_core finalized
finalize_remainder_core-Kept id dto db s = Post-or_throw not_found λ (t : Ticket) e.
    Post-throw_if conflict λ x. Post-ensure bad_request λ c.
      let total = (assemble_finalize_money (final_charges dto t) t).total_amount in
      let (u, f) = consumer_of id db t s e in
      Post-return (
        surplus-Kept id (t.amount_paid - total) (finalized dto t) t u db s.well_formed e f
          (λ _. refl) (ground arith))

-- In well-formed tables where every ticket's consumer exists, finalizing a ticket's charges leaves
-- all the money that is held as it was: what was paid above the final total goes to the consumer's
-- wallet, and the settlement that follows moves no more than is there.
pub finalize_remainder-held :
    (id : ℕ) (dto : FinalizeRemainderDto) (db db' : Db)
    → IsSound db
    → finalize_remainder id dto db ≡ ok db'
    → (held db' ≡ held db) × IsWellFormed db'
unfolding finalize_remainder
finalize_remainder-held id dto db db' s h =
    Post-result {P = Kept db}
      (Post-or_throw not_found λ (t : Ticket) e. Post-bind λ (written : Db) f.
        let k = Post-result (finalize_remainder_core-Kept id dto db s) f in
        let m = settle_tickets_for_user-held t.consumer_id written k.1 in
        Post-return (m.0 ∙ k.0, m.1))
      h

-- In well-formed tables where every ticket's consumer exists, repricing a ticket leaves all the
-- money that is held as it was.
pub reprice_ticket-held :
    (id : ℕ) (resolved : Resolved) (rate : ℕ) (dto : RepriceTicketDto) (db db' : Db)
    → IsSound db
    → reprice_ticket id resolved rate dto db ≡ ok db'
    → (held db' ≡ held db) × IsWellFormed db'
unfolding reprice_ticket repriced
reprice_ticket-held id resolved rate dto db db' s h =
    Post-result {P = Kept db}
      (Post-or_throw not_found λ (t : Ticket) e. Post-throw_if bad_request λ x.
        Post-ensure bad_request λ c.
          let (u, f) = consumer_of id db t s e in
          Post-return (
            surplus-Kept id _ (repriced t resolved rate dto) t u db s.well_formed e f (λ _. refl)
              (ground arith)))
      h
