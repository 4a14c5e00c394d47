-- ===== src/Tickets/Intake/Ordered.antt =====
-- apps/api/src/tickets/tickets.service.ts, `createIntakeTicket`: what an order does to the tables.
use wusuq_web.Base.{
  ℕ, ◌+◌, ◌<◌, ◌≡◌, refl, sym, ap, ◌∙◌, subst, Bool, true, false, ◌⊎◌, Option, none, some, List, [],
  ◌∷◌, arith, if◌then◌else◌, All, sum, sum-append, Option-cases, inl, inr, ok, Post, Post-result,
  Post-bind, Post-then, Post-ensure, Post-or_throw, Post-throw_if, Post-return, bad_request,
  not_found, internal, eq_of_eqb,
}
use wusuq_web.Base.Table
use wusuq_web.Store.{User, Ticket, Db, ticket_key, find_ticket, IsWellFormed}
use wusuq_web.Promos.{redeem}
use wusuq_web.Tickets.{Actor}
use wusuq_web.Wallet.{settle_tickets_for_user}
use wusuq_web.Wallet.Money.{held, credit_total, paid_total}
use wusuq_web.Wallet.Settle.{settle_tickets_for_user-held}
use wusuq_web.Tickets.Intake.{
  IntakeEnv, CreateTicketIntakeDto, quote_of, PromoUse, new_ticket, answer_for, find_request,
  insert_ticket, redeem_promo, Opened, open_intake, settle_opened, bind_consumer,
  create_intake_ticket,
}
use wusuq_web.Tickets.Intake.Created.{
  Billed, Covered, quote_of-Sound, promo_for-Covered, new_ticket-Billed,
}

-- The same users and the same tickets.
pub record SameRows (db db' : Db) : Type 0 where
  pub users : db'.users ≡ db.users
  pub tickets : db'.tickets ≡ db.tickets

redeem-SameRows :
    (id user_id ticket_id amount : ℕ) (db : Db)
    → Post (SameRows db) (redeem id user_id ticket_id amount db)
unfolding redeem
redeem-SameRows id user_id ticket_id amount db =
    Post-then λ _. Post-return (record { users = refl; tickets = refl })

pub redeem_promo-SameRows :
    (promo : PromoUse) (consumer_id ticket_id : ℕ) (db : Db)
    → Post (SameRows db) (redeem_promo promo consumer_id ticket_id db)
unfolding redeem_promo
redeem_promo-SameRows promo consumer_id ticket_id db = go promo.promo_code_id
  where
    go :
        (o : Option ℕ)
        → Post
            (SameRows db)
            (redeem_promo (record promo { promo_code_id = o }) consumer_id ticket_id db)
    go none = Post-return (record { users = refl; tickets = refl })
    go (some id) = redeem-SameRows id consumer_id ticket_id promo.promo_discount db

-- The key that the next row gets is above those of all tickets.
abbrev pub TicketsBelow : Db → Type 0
TicketsBelow db = All (λ (t : Ticket). t.id < db.next_id) db.tickets

-- The tables with one more ticket.
pub record Added (t : Ticket) (db db' : Db) : Type 0 where
  pub row : find_ticket t.id db' ≡ some t
  pub money : held db' ≡ held db + t.amount_paid
  pub well_formed : IsWellFormed db'

insert_ticket-Added :
    (t : Ticket) (db db' : Db)
    → IsWellFormed db
    → find_ticket t.id db ≡ none
    → SameRows (insert_ticket t db) db'
    → Added t db db'
insert_ticket-Added t db db' w fresh same =
    let rows = same.tickets in
    let paid : paid_total db' ≡ paid_total db + t.amount_paid = omega (
      arith,
      sum-append (λ (t : Ticket). t.amount_paid) db.tickets (t ∷ []),
      ap (λ (ts : List Ticket). sum (λ (t : Ticket). t.amount_paid) ts) rows,
    ) in
    let credit : credit_total db' ≡ credit_total db =
      ap (λ (us : List User). sum (λ (u : User). u.wallet_balance) us) same.users in
    record {
      row =
          ap (Table.find_by ticket_key t.id) rows
          ∙ Table.find_by-append_self ticket_key t db.tickets fresh;
      money = omega (arith, paid, credit);
      well_formed = record {
        users = rw same.users w.users;
        tickets = rw rows (Table.Distinct-append ticket_key t db.tickets fresh w.tickets);
      };
    }

-- The request was answered before, by a ticket of the same consumer, and nothing changes.
pub record Replayed (request_id : Option ℕ) (consumer_id id : ℕ) (db db' : Db) : Type 0 where
  pub ticket : Ticket
  pub found : find_request request_id db ≡ some ticket
  pub own : ticket.consumer_id ≡ consumer_id
  pub same_id : id ≡ ticket.id
  pub same : db' ≡ db

-- A new ticket, the tables that have it, and those after the settlement that was asked for.
pub record Ordered (dto : CreateTicketIntakeDto) (consumer_id id : ℕ) (db db' : Db) : Type 0 where
  pub ticket : Ticket
  pub tables : Db
  pub same_id : ticket.id ≡ id
  pub row : find_ticket id tables ≡ some ticket
  pub new : find_request dto.request_id db ≡ none
  pub own : ticket.consumer_id ≡ consumer_id
  pub billed : Billed ticket
  pub rows : SameRows (insert_ticket ticket db) tables
  pub request : ticket.intake_request_id ≡ dto.request_id
  pub settled :
      db' ≡ (if dto.use_wallet_balance then settle_tickets_for_user consumer_id tables else tables)
  pub money : held db' ≡ held db
  pub well_formed : IsWellFormed db'

abbrev pub Outcome : CreateTicketIntakeDto → ℕ → Db → ℕ × Db → Type 0
Outcome dto consumer_id db (id, db') =
    Replayed dto.request_id consumer_id id db db' ⊎ Ordered dto consumer_id id db db'

settled-held :
    (use_wallet : Bool) (consumer_id : ℕ) (db : Db)
    → IsWellFormed db
    → (held (if use_wallet then settle_tickets_for_user consumer_id db else db) ≡ held db)
      × IsWellFormed (if use_wallet then settle_tickets_for_user consumer_id db else db)
settled-held true consumer_id db w = settle_tickets_for_user-held consumer_id db w
settled-held false consumer_id db w = (refl, w)

settle_new :
    (use_wallet : Bool) (consumer_id id : ℕ) (tables : Db)
    → settle_opened use_wallet consumer_id
        (record { replayed = false; ticket_id = id; tables = tables })
      ≡ (id, if use_wallet then settle_tickets_for_user consumer_id tables else tables)
unfolding settle_opened
settle_new true consumer_id id tables = refl
settle_new false consumer_id id tables = refl

pub settle_replayed :
    (use_wallet : Bool) (consumer_id id : ℕ) (tables : Db)
    → settle_opened use_wallet consumer_id
        (record { replayed = true; ticket_id = id; tables = tables })
      ≡ (id, tables)
unfolding settle_opened
settle_replayed true consumer_id id tables = refl
settle_replayed false consumer_id id tables = refl

-- The transaction, on a ticket whose key is new.
open_intake-Outcome :
    (dto : CreateTicketIntakeDto) (t : Ticket) (promo : PromoUse) (db : Db)
    → IsWellFormed db
    → find_ticket t.id db ≡ none
    → t.intake_request_id ≡ dto.request_id
    → Billed t
    → Post
        (λ (o : Opened).
          Outcome dto t.consumer_id db (settle_opened dto.use_wallet_balance t.consumer_id o))
        (open_intake t promo db)
unfolding open_intake
open_intake-Outcome dto t promo db w fresh request b =
    elim (Option-cases (find_request t.intake_request_id db)) [
      | inr (old, e) ↦
          rw (e, open_intake)
            (Post-ensure internal λ own. Post-return (
              subst (Outcome dto t.consumer_id db)
                (sym (settle_replayed dto.use_wallet_balance t.consumer_id old.id db))
                (inl (record {
                  ticket = old;
                  found = ap (λ r. find_request r db) (sym request) ∙ e;
                  own = eq_of_eqb old.consumer_id t.consumer_id own;
                  same_id = refl;
                  same = refl;
                }))))
      | inl e ↦
          rw (e, open_intake)
            (Post-bind λ (tables : Db) r.
              let same =
                Post-result {P = SameRows (insert_ticket t db)}
                  (redeem_promo-SameRows promo t.consumer_id t.id (insert_ticket t db)) r in
              let a = insert_ticket-Added t db tables w fresh same in
              let after = settled-held dto.use_wallet_balance t.consumer_id tables a.well_formed in
              Post-return (
                subst (Outcome dto t.consumer_id db)
                  (sym (settle_new dto.use_wallet_balance t.consumer_id t.id tables))
                  (inr (record {
                    ticket = t;
                    tables = tables;
                    same_id = refl;
                    row = a.row;
                    new = ap (λ r. find_request r db) (sym request) ∙ e;
                    own = refl;
                    billed = b;
                    rows = same;
                    request = request;
                    settled = refl;
                    money = omega (arith, after.0, a.money, b.unpaid_yet);
                    well_formed = after.1;
                  }))))
    ]

-- The consumer of an order is the one that it names.
pub bind_consumer-own :
    (actor : Actor) (consumer_id c : ℕ) → bind_consumer actor consumer_id ≡ ok c → c ≡ consumer_id
unfolding bind_consumer
bind_consumer-own actor consumer_id c h = go actor.user_id h
  where
    go :
        (u : Option ℕ)
        → bind_consumer (record actor { user_id = u }) consumer_id ≡ ok c
        → c ≡ consumer_id
    go none h = ground (arith, h)
    go (some u) h = ground (arith, h)

-- In well-formed tables whose next key is above those of the tickets, an accepted order is either a
-- repeated request of the same consumer, which changes nothing, or it creates one ticket of the
-- consumer: unpaid, with the total that its columns give, without delivery, and with a discount that
-- the base covers. If asked for, the credit then settles the consumer's tickets. The money that is
-- held is as before.
pub create_intake_ticket-Outcome :
    (env : IntakeEnv) (dto : CreateTicketIntakeDto) (actor : Actor) (db : Db) (s : ℕ × Db)
    → IsWellFormed db
    → TicketsBelow db
    → create_intake_ticket env dto actor db ≡ ok s
    → Outcome dto dto.consumer_id db s
unfolding create_intake_ticket new_ticket
create_intake_ticket-Outcome env dto actor db s w below h =
    Post-result {P = Outcome dto dto.consumer_id db}
      (Post-bind λ (consumer_id : ℕ) c. Post-ensure bad_request λ _. Post-ensure bad_request λ _.
        Post-ensure not_found λ _. Post-or_throw not_found λ (user : User) u.
          let quote = quote_of (answer_for env dto user.currency) in
          let sound = quote_of-Sound env dto user.currency in
          Post-then λ _. Post-throw_if bad_request λ _. Post-bind λ (promo : PromoUse) p.
            let covered =
              Post-result {P = Covered quote}
                (promo_for-Covered env dto consumer_id user.currency quote db sound) p in
            let t = new_ticket env dto consumer_id user.currency quote promo db.next_id in
            Post-bind λ (opened : Opened) o. Post-return (
              subst
                (λ (c : ℕ).
                  Outcome dto c db (settle_opened dto.use_wallet_balance consumer_id opened))
                (bind_consumer-own actor dto.consumer_id consumer_id c)
                (Post-result
                  {P = λ (o : Opened).
                    Outcome dto consumer_id db (settle_opened dto.use_wallet_balance consumer_id o)}
                  (open_intake-Outcome dto t promo db w
                    (Table.find_by-fresh ticket_key db.next_id db.tickets below) refl
                    (new_ticket-Billed env dto consumer_id user.currency quote promo db.next_id
                      sound covered))
                  o)))
      h
