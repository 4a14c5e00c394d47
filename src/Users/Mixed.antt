-- ===== src/Users/Mixed.antt =====
-- Two ways in which an account gets tickets in two currencies: a next hearing of a ticket in USD, and
-- a ticket that is restored after the currency of its consumer changed.
use wusuq_web.Base.{
  ℕ, ◌≡◌, ◌≢◌, refl, sym, ap, ◌∙◌, Bool, true, false, none, some, some-injective, List, [], ◌∷◌,
  map, any, countb, arith, ◌||◌, Bool-cases, inl, inr, eqb_refl, is_some, or_else, ◌==◌,
  if◌then◌else◌, ok, ◌>>=◌, ◌>>◌, or_throw, ensure,
}
use wusuq_web.Base.Table
use wusuq_web.Shared.Flows.{pkr, usd}
use wusuq_web.Shared.Region.{derive_currency}
use wusuq_web.Store.{User, Ticket, Db, user_key, ticket_key, find_user, find_ticket, update_user}
use wusuq_web.Tickets.Bulk.{restore, bulk_action, set_archived}
use wusuq_web.Tickets.Intake.{insert_ticket}
use wusuq_web.Tickets.NextHearing.{next_hearing, generate_next_hearing}
use wusuq_web.Users.{
  ProfileCompleteDto, is_live_of, is_locked, profiled, complete_profile, currency_after,
}

-- The account of a user has a ticket in use that is in another currency than the account.
pub record HasForeign (user_id id : ℕ) (db : Db) : Type 0 where
  pub user : User
  pub ticket : Ticket
  pub found_user : find_user user_id db ≡ some user
  pub found_ticket : find_ticket id db ≡ some ticket
  pub own : ticket.consumer_id ≡ user_id
  pub live : ticket.archived ≡ false
  pub other : ticket.currency ≢ user.currency

-- The next hearing of a ticket in USD, whose consumer pays in USD, can be generated, and the ticket
-- that is created is in PKR, with the number of the dollars of the parent's service as its total: it
-- is in another currency than its consumer's account and than the parent, which stays in USD.
pub next_hearing-HasForeign :
    (id date : ℕ) (db : Db) (t : Ticket) (u : User)
    → find_ticket db.next_id db ≡ none
    → find_ticket id db ≡ some t
    → t.scheduled_date ≡ some date
    → t.currency ≡ usd
    → find_user t.consumer_id db ≡ some u
    → u.currency ≡ usd
    → (d : Db) × (n : Ticket) × (generate_next_hearing id db ≡ ok d)
      × (find_ticket db.next_id d ≡ some n)
      × (n.currency ≡ pkr)
      × (n.total_amount ≡ t.charges.service_cost)
      × (find_ticket id d ≡ some t)
      × HasForeign t.consumer_id db.next_id d
unfolding generate_next_hearing ◌>>=◌ ◌>>◌ or_throw ensure
next_hearing-HasForeign id date db t u fresh e s c f k =
    let dated : is_some t.scheduled_date ≡ true = rw s refl in
    let n = next_hearing t db.next_id in
    let row : find_ticket db.next_id (insert_ticket n db) ≡ some n =
      Table.find_by-append_self ticket_key n db.tickets fresh in
    (
      insert_ticket n db,
      n,
      rw (e, generate_next_hearing, dated) refl,
      row,
      refl,
      refl,
      Table.find_by-append ticket_key id db.tickets (n ∷ []) t e,
      record {
        user = u;
        ticket = n;
        found_user = f;
        found_ticket = row;
        own = refl;
        live = refl;
        other = λ q. absurd (ground (arith, q, k));
      },
    )

found_map :
    (archived : Bool) (ids : List ℕ) (id : ℕ) (rows : List Ticket) (t : Ticket)
    → Table.find_by ticket_key id rows ≡ some t
    → Table.find_by ticket_key id (map (set_archived archived ids) rows)
      ≡ some (set_archived archived ids t)
found_map archived ids id [] t e = absurd (ground (arith, e))
found_map archived ids id (r ∷ rows) t e =
    let key : (set_archived archived ids r).id ≡ r.id = same_key (any (λ id. r.id == id) ids) in
    elim (Bool-cases (r.id == id)) [
      | inl y ↦
          rw (key, y)
            (ap (λ r. some (set_archived archived ids r)) (some-injective _ _ (rw y at e)))
      | inr n ↦ rw (key, n) (found_map archived ids id rows t (rw n at e))
    ]
  where
    same_key : (b : Bool) → (if b then record r { archived = archived } else r).id ≡ r.id
    same_key true = refl
    same_key false = refl

unlocked :
    (u : User) (db : Db)
    → countb (is_live_of u.id) db.tickets ≡ 0
    → u.wallet_balance ≡ 0
    → is_locked u db ≡ false
unlocked u db z b = ground (arith, z, b)

brought_back :
    (id : ℕ) (t : Ticket)
    → (t.id == id) ≡ true
    → set_archived false (id ∷ []) t ≡ record t { archived = false }
brought_back id t h = go (t.id == id) h
  where
    go :
        (b : Bool)
        → b ≡ true
        → (if (if b then true else false) then record t { archived = false } else t)
          ≡ record t { archived = false }
    go true h = refl
    go false h = absurd (ground (arith, h))

region_currency :
    (dto : ProfileCompleteDto) (u : User)
    → (is_some dto.country || is_some dto.phone) ≡ true
    → currency_after dto u false
      ≡ derive_currency (or_else dto.phone u.phone) (or_else dto.country u.country)
region_currency dto u h = ground (arith, h)

-- A consumer without credit whose tickets are all archived, one of them in his currency, can give a
-- phone or a country of another currency; when that ticket is restored then, his account has a
-- ticket in use that is in another currency than the account.
pub restore-HasForeign :
    (user_id id : ℕ) (dto : ProfileCompleteDto) (db : Db) (u : User) (t : Ticket)
    → find_user user_id db ≡ some u
    → countb (is_live_of u.id) db.tickets ≡ 0
    → u.wallet_balance ≡ 0
    → find_ticket id db ≡ some t
    → t.consumer_id ≡ user_id
    → t.currency ≡ u.currency
    → (is_some dto.country || is_some dto.phone) ≡ true
    → derive_currency (or_else dto.phone u.phone) (or_else dto.country u.country) ≢ u.currency
    → (d : Db) × (complete_profile user_id dto db ≡ ok d)
      × HasForeign user_id id (bulk_action restore (id ∷ []) d).db
unfolding complete_profile bulk_action ◌>>=◌ or_throw
restore-HasForeign user_id id dto db u t e z b f own same sent other =
    let change : User → User = profiled dto u false in
    let d : Db = update_user user_id change db in
    let hit : (t.id == id) ≡ true =
      rw (Table.key_of_find_by ticket_key id db.tickets t f) (eqb_refl id) in
    let back : Ticket = record t { archived = false } in
    (
      d,
      rw (e, complete_profile, unlocked u db z b) refl,
      record {
        user = change u;
        ticket = back;
        found_user = Table.find_by-update_by_self user_key change (λ _. refl) user_id db.users u e;
        found_ticket =
            found_map false (id ∷ []) id db.tickets t f ∙ ap some (brought_back id t hit);
        own = own;
        live = refl;
        other = λ q. other (sym (region_currency dto u sent) ∙ sym q ∙ same);
      },
    )
