-- ===== src/Ledger.antt =====
-- The tables as the keys and the foreign keys of apps/api/prisma/schema.prisma have them, and what
-- the single writes of the services do to that.
pub mod Calls
pub mod Gateway
pub mod Orders
pub mod Reviews
pub mod Balance
pub mod Steps
use wusuq_web.Base.{
  ℕ, suc, ◌+◌, ◌<◌, ◌≡◌, ◌≢◌, refl, sym, ap, ◌∙◌, subst, Bool, true, false, Option, none, some,
  List, [], ◌∷◌, ◌++◌, map, All, All-append, All-mono, arith, if◌then◌else◌, ◌==◌, eq_of_eqb,
  Bool-cases, inl, inr,
}
use wusuq_web.Base.Int.{ℤ, neg_part}
use wusuq_web.Base.Table
use wusuq_web.Shared.Flows.{Currency}
use wusuq_web.Shared.Fx.{PaymentMode}
use wusuq_web.Store.{
  User, Ticket, WalletTransaction, TransactionStatus, TransactionType, Payment, Db, user_key,
  ticket_key, transaction_key, find_user, find_ticket, update_user, update_ticket,
  update_transaction, is_pending, IsWellFormed,
}
use wusuq_web.Wallet.{create_transaction}
use wusuq_web.Wallet.Money.{update_user-IsWellFormed, update_ticket-IsWellFormed}
use wusuq_web.Tickets.Finalize.Held.{IsSound}
use wusuq_web.Tickets.Intake.{insert_ticket}
use wusuq_web.Tickets.Intake.Ordered.{TicketsBelow}

abbrev pub HasUser : ℕ → Db → Type 0
HasUser id db = (u : User) × (find_user id db ≡ some u)

abbrev pub HasTicket : ℕ → Db → Type 0
HasTicket id db = (t : Ticket) × (find_ticket id db ≡ some t)

-- A transaction that waits for its review has a user, and an amount that is not negative.
abbrev pub IsReviewable : Db → WalletTransaction → Type 0
IsReviewable db r = is_pending r.status ≡ true → (neg_part r.amount ≡ 0) × HasUser r.user_id db

-- Keys are unique and below the next one; consumers, and the tickets of payments, exist.
pub record IsLedger (db : Db) : Type 0 where
  pub sound : IsSound db
  pub below : TicketsBelow db
  pub pending : All (IsReviewable db) db.transactions
  pub payments : All (λ (p : Payment). HasTicket p.ticket_id db) db.payments

module _ {ℓ} {R : Type ℓ} (key : R → ℕ) (f : R → R) (keeps : (r : R) → key (f r) ≡ key r) where
  -- A key that is found is found after an update.
  stays_found :
      (j k : ℕ) (rs : List R) (r : R)
      → Table.find_by key j rs ≡ some r
      → (s : R) × (Table.find_by key j (Table.update_by key k f rs) ≡ some s)
  stays_found j k rs r e = elim (Bool-cases (j == k)) [
    | inl y ↦
        let same = eq_of_eqb j k y in
        (
          f r,
          subst (λ i. Table.find_by key j (Table.update_by key i f rs) ≡ some (f r)) same
              (Table.find_by-update_by_self key f keeps j rs r e),
        )
    | inr n ↦
        (r, Table.find_by-update_by_ne key f keeps j k rs (λ q. absurd (ground (arith, n, q))) ∙ e)
  ]

pub write_user :
    (id : ℕ) (f : User → User) (db : Db)
    → ((u : User) → (f u).id ≡ u.id)
    → IsLedger db
    → IsLedger (update_user id f db)
write_user id f db keeps l =
    let db' = update_user id f db in
    let there : (i : ℕ) → HasUser i db → HasUser i db' =
      λ i h. stays_found user_key f keeps i id db.users h.0 h.1 in
    record {
      sound = record {
        well_formed = update_user-IsWellFormed id f db keeps l.sound.well_formed;
        consumers =
            All-mono (λ (t : Ticket). HasUser t.consumer_id db)
              (λ (t : Ticket). HasUser t.consumer_id db') db.tickets (λ t h. there t.consumer_id h)
              l.sound.consumers;
      };
      below = l.below;
      pending =
          All-mono (IsReviewable db) (IsReviewable db') db.transactions
            (λ r h p. let (n, u) = h p in (n, there r.user_id u)) l.pending;
      payments = l.payments;
    }

pub write_ticket :
    (id : ℕ) (f : Ticket → Ticket) (db : Db)
    → ((t : Ticket) → (f t).id ≡ t.id)
    → ((t : Ticket) → (f t).consumer_id ≡ t.consumer_id)
    → IsLedger db
    → IsLedger (update_ticket id f db)
write_ticket id f db keeps owner l =
    let db' = update_ticket id f db in
    record {
      sound = record {
        well_formed = update_ticket-IsWellFormed id f db keeps l.sound.well_formed;
        consumers =
            Table.All-update_by ticket_key (λ (t : Ticket). HasUser t.consumer_id db) id f
              db.tickets (λ t h. subst (λ i. HasUser i db) (sym (owner t)) h) l.sound.consumers;
      };
      below =
          Table.All-update_by ticket_key (λ (t : Ticket). t.id < db.next_id) id f db.tickets
            (λ t h. subst (λ i. i < db.next_id) (sym (keeps t)) h) l.below;
      pending = l.pending;
      payments =
          All-mono (λ (p : Payment). HasTicket p.ticket_id db)
            (λ (p : Payment). HasTicket p.ticket_id db') db.payments
            (λ p h. stays_found ticket_key f keeps p.ticket_id id db.tickets h.0 h.1) l.payments;
    }

-- One more transaction, under the next key.
pub add_transaction :
    (r : WalletTransaction) (db : Db)
    → IsReviewable db r
    → IsLedger db
    → IsLedger (record db { transactions = db.transactions ++ (r ∷ []); next_id = suc db.next_id })
add_transaction r db h l = record {
  sound = record {
    well_formed = record {
      users = l.sound.well_formed.users;
      tickets = l.sound.well_formed.tickets;
    };
    consumers = l.sound.consumers;
  };
  below =
      All-mono (λ (t : Ticket). t.id < db.next_id) (λ (t : Ticket). t.id < suc db.next_id)
        db.tickets (λ t k. omega (arith, k)) l.below;
  pending = All-append (IsReviewable db) db.transactions (r ∷ []) l.pending (h, tt);
  payments = l.payments;
}

-- A row that is not pending needs no user.
pub create_transaction-IsLedger :
    (ticket_id : Option ℕ) (user_id : ℕ) (amount : ℤ) (mode : PaymentMode) (currency : Currency)
    (status : TransactionStatus) (type : TransactionType) (db : Db)
    → is_pending status ≡ false
    → IsLedger db
    → IsLedger (create_transaction ticket_id user_id amount mode currency status type db)
unfolding create_transaction
create_transaction-IsLedger ticket_id user_id amount mode currency status type db closed l =
    add_transaction _ db (λ p. absurd (ground (arith, p, closed))) l

-- A row that is marked as reviewed.
pub mark_transaction :
    (id : ℕ) (f : WalletTransaction → WalletTransaction) (db : Db)
    → ((r : WalletTransaction) → is_pending (f r).status ≡ false)
    → IsLedger db
    → IsLedger (update_transaction id f db)
mark_transaction id f db closed l = record {
  sound = record {
    well_formed = record {
      users = l.sound.well_formed.users;
      tickets = l.sound.well_formed.tickets;
    };
    consumers = l.sound.consumers;
  };
  below = l.below;
  pending =
      Table.All-update_by transaction_key (IsReviewable db) id f db.transactions
        (λ r h p. absurd (ground (arith, p, closed r))) l.pending;
  payments = l.payments;
}

-- Payments whose tickets exist.
pub write_payments :
    (ps : List Payment) (db : Db)
    → All (λ (p : Payment). HasTicket p.ticket_id db) ps
    → IsLedger db
    → IsLedger (record db { payments = ps })
write_payments ps db h l = record {
  sound = record {
    well_formed = record {
      users = l.sound.well_formed.users;
      tickets = l.sound.well_formed.tickets;
    };
    consumers = l.sound.consumers;
  };
  below = l.below;
  pending = l.pending;
  payments = h;
}

-- One more ticket of a consumer who exists.
pub insert_ticket-IsLedger :
    (t : Ticket) (db : Db)
    → t.id ≡ db.next_id
    → HasUser t.consumer_id db
    → IsLedger db
    → IsLedger (insert_ticket t db)
insert_ticket-IsLedger t db same owner l =
    let fresh : find_ticket t.id db ≡ none =
      subst (λ i. find_ticket i db ≡ none) (sym same)
        (Table.find_by-fresh ticket_key db.next_id db.tickets l.below) in
    record {
      sound = record {
        well_formed = record {
          users = l.sound.well_formed.users;
          tickets = Table.Distinct-append ticket_key t db.tickets fresh l.sound.well_formed.tickets;
        };
        consumers =
            All-append (λ (t : Ticket). HasUser t.consumer_id db) db.tickets (t ∷ [])
              l.sound.consumers (owner, tt);
      };
      below =
          All-append (λ (t : Ticket). t.id < suc db.next_id) db.tickets (t ∷ [])
            (All-mono (λ (t : Ticket). t.id < db.next_id) (λ (t : Ticket). t.id < suc db.next_id)
              db.tickets (λ t k. omega (arith, k)) l.below)
            (omega (arith, same), tt);
      pending = l.pending;
      payments =
          All-mono (λ (p : Payment). HasTicket p.ticket_id db)
            (λ (p : Payment). HasTicket p.ticket_id (insert_ticket t db)) db.payments
            (λ p h. (h.0, Table.find_by-append ticket_key p.ticket_id db.tickets _ h.0 h.1))
            l.payments;
    }
