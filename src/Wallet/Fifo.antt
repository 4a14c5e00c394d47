-- ===== src/Wallet/Fifo.antt =====
-- Settlement against its specification: the dues are paid in the order of the tickets, each in full
-- before the next.
use wusuq_web.Base.{
  ℕ, ◌+◌, ◌-◌, ◌≡◌, ◌≢◌, refl, ap, ◌∙◌, none, some, List, [], ◌∷◌, arith, sum, map, ap₂, Bool-cases,
  inl, inr, All, filterb, Bool,
}
use wusuq_web.Base.Table
use wusuq_web.Store.{User, Ticket, Db, ticket_key, user_key, find_user, find_ticket, IsWellFormed}
use wusuq_web.Shared.Fx.{PaymentMode, bank_transfer}
use wusuq_web.Wallet.Settle.{settle_tickets-Moved}
use wusuq_web.Wallet.{
  settle_tickets, candidate_ids, clear_pending_tickets, settle_tickets_for_user, remaining_due,
  outstanding_dues_for_user, is_open_for, balance_of,
}
use wusuq_web.Wallet.Dues.{leftover, due_of, due_found, due_at, Once, settle_tickets-leftover}

-- The dues of the listed tickets, when each listed row is the one in the table.
candidate_dues :
    (user_id : ℕ) (db : Db) (ts : List Ticket)
    → All (λ (t : Ticket). find_ticket t.id db ≡ some t) ts
    → sum (due_at db) (map (λ (t : Ticket). t.id) (filterb (is_open_for user_id) ts))
      ≡ sum remaining_due (filterb (is_open_for user_id) ts)
candidate_dues user_id db [] h = refl
candidate_dues user_id db (t ∷ ts) (e, h) = elim (Bool-cases (is_open_for user_id t)) [
  | inl x ↦
      let open_due : due_of t ≡ remaining_due t = ground arith in
      rw x (ap₂ ◌+◌ (ap due_found e ∙ open_due) (candidate_dues user_id db ts h))
  | inr x ↦ rw x (candidate_dues user_id db ts h)
]

none_filtered :
    (p : Ticket → Bool) (id : ℕ) (ts : List Ticket)
    → Table.find_by ticket_key id ts ≡ none
    → All (λ j. j ≢ id) (map (λ (t : Ticket). t.id) (filterb p ts))
none_filtered p id [] n = tt
none_filtered p id (t ∷ ts) n = elim (Bool-cases (p t)) [
  | inl x ↦ rw x (ground (arith, n), none_filtered p id ts (ground (arith, n)))
  | inr x ↦ rw x (none_filtered p id ts (ground (arith, n)))
]

filtered-Once :
    (p : Ticket → Bool) (ts : List Ticket)
    → Table.Distinct ticket_key ts
    → Once (map (λ (t : Ticket). t.id) (filterb p ts))
filtered-Once p [] d = tt
filtered-Once p (t ∷ ts) (n, d) = elim (Bool-cases (p t)) [
  | inl x ↦ rw x (none_filtered p t.id ts n, filtered-Once p ts d)
  | inr x ↦ rw x (filtered-Once p ts d)
]

clear_pending_tickets-fifo :
    (user_id : ℕ) (mode : PaymentMode) (db : Db) (u : User)
    → IsWellFormed db
    → find_user user_id db ≡ some u
    → let ids = candidate_ids user_id db in
      let db' = clear_pending_tickets user_id u.wallet_balance mode db in
      (map (due_at db') ids ≡ leftover u.wallet_balance (map (due_at db) ids))
      × (balance_of user_id db' ≡ u.wallet_balance - outstanding_dues_for_user user_id db)
unfolding clear_pending_tickets outstanding_dues_for_user
clear_pending_tickets-fifo user_id mode db u w e =
    let s : ℕ × Db = (u.wallet_balance, db) in
    let ids = candidate_ids user_id db in
    let m = settle_tickets-Moved user_id mode ids s w in
    let l =
      settle_tickets-leftover user_id mode ids s
        (filtered-Once (is_open_for user_id) db.tickets w.tickets) in
    let (left, db') = settle_tickets user_id mode ids s in
    let there : find_user user_id db' ≡ some u = rw m.users e in
    let spend : User → User = λ u. record u { wallet_balance = left } in
    let dues =
      candidate_dues user_id db db.tickets (Table.Distinct-found ticket_key db.tickets w.tickets) in
    let found = Table.find_by-update_by_self user_key spend (λ _. refl) user_id db'.users u there in
    (l.0, rw (balance_of, found) (l.1 ∙ ap (λ n. u.wallet_balance - n) dues))

-- In well-formed tables, settling an existing consumer's tickets pays their dues in the order of
-- the tickets: what is left of each due is what the credit, less the dues before it, does not
-- cover, and the balance that is left is the balance less all the dues.
pub settle_tickets_for_user-fifo :
    (user_id : ℕ) (db : Db) (u : User)
    → IsWellFormed db
    → find_user user_id db ≡ some u
    → let ids = candidate_ids user_id db in
      let db' = settle_tickets_for_user user_id db in
      (map (due_at db') ids ≡ leftover u.wallet_balance (map (due_at db) ids))
      × (balance_of user_id db' ≡ u.wallet_balance - outstanding_dues_for_user user_id db)
unfolding settle_tickets_for_user
settle_tickets_for_user-fifo user_id db u w e =
    rw (e, settle_tickets_for_user) (clear_pending_tickets-fifo user_id bank_transfer db u w e)
