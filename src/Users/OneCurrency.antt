-- ===== src/Users/OneCurrency.antt =====
-- The currency of an account and of its tickets: apps/api/src/auth/auth.service.ts,
-- `completeProfile`, with the calls of apps/api/src/tickets/tickets.service.ts that create a ticket.
use wusuq_web.Base.{
  ℕ, ◌≡◌, refl, sym, ap, subst, ◌∙◌, Bool, true, false, not, ◌&&◌, Option, some, some-injective,
  List, [], ◌∷◌, map, any, countb, All, All-append, All-mono, arith, if◌then◌else◌, ◌==◌,
  Bool-cases, Option-cases, inl, inr, eq_of_eqb, ok, Post, Post-result, Post-of, Post-bind,
  Post-then, Post-ensure, Post-or_throw, Post-throw_if, Post-return, not_found, bad_request,
  internal,
}
use wusuq_web.Base.Table
use wusuq_web.Shared.Flows.{Currency}
use wusuq_web.Shared.Fx.{PaymentMode}
use wusuq_web.Store.{
  User, Ticket, Db, user_key, ticket_key, find_user, find_ticket, update_user, update_ticket,
}
use wusuq_web.Wallet.{apply_payment_to_ticket, credit_ticket, settle_tickets_for_user}
use wusuq_web.Wallet.Keeps.{settle_tickets_for_user-keeps}
use wusuq_web.Pricing.{ResolvePricingDto}
use wusuq_web.Tickets.{Actor}
use wusuq_web.Tickets.Intake.{
  IntakeEnv, CreateTicketIntakeDto, PromoUse, new_ticket, find_request, insert_ticket, redeem_promo,
  Opened, open_intake, settle_opened, create_intake_ticket,
}
use wusuq_web.Tickets.Intake.Ordered.{redeem_promo-SameRows}
use wusuq_web.Tickets.Regenerate.{PricingData, regenerate}
use wusuq_web.Tickets.Bulk.{delete, bulk_action, set_archived}
use wusuq_web.Users.{
  ProfileCompleteDto, is_live_of, is_locked, currency_after, profiled, complete_profile,
}

-- The user, if there is one, has the currency.
abbrev pub HasCurrency : Db → ℕ → Currency → Type 0
HasCurrency db id currency = (u : User) → find_user id db ≡ some u → u.currency ≡ currency

-- The ticket is in the currency of its consumer, unless it is archived.
abbrev pub Agrees : Db → Ticket → Type 0
Agrees db t = t.archived ≡ false → HasCurrency db t.consumer_id t.currency

-- No account has tickets in two currencies.
abbrev pub OneCurrency : Db → Type 0
OneCurrency db = All (Agrees db) db.tickets

-- A write to a user that leaves the currency alone.
write-OneCurrency :
    (id : ℕ) (f : User → User) (db : Db)
    → ((u : User) → (f u).id ≡ u.id)
    → ((u : User) → (f u).currency ≡ u.currency)
    → OneCurrency db
    → OneCurrency (update_user id f db)
write-OneCurrency id f db keeps same k =
    All-mono (Agrees db) (Agrees (update_user id f db)) db.tickets
      (λ t a live u e.
        let (q, found, c) = Table.found-update_by user_key f keeps t.consumer_id id db.users u e in
        elim c [
          | inl x ↦ ap (λ (u : User). u.currency) x ∙ a live q found
          | inr x ↦ ap (λ (u : User). u.currency) x ∙ same q ∙ a live q found
        ])
      k

-- A write to a ticket that leaves its owner and its currency alone, and does not restore it.
update-OneCurrency :
    (id : ℕ) (f : Ticket → Ticket) (db : Db)
    → ((t : Ticket) → Agrees db t → Agrees db (f t))
    → OneCurrency db
    → OneCurrency (update_ticket id f db)
update-OneCurrency id f db keeps k =
    Table.All-update_by ticket_key (Agrees db) id f db.tickets keeps k

pay-OneCurrency :
    (t : Ticket) (n : ℕ) (mode : PaymentMode) (user_id : ℕ) (db : Db)
    → OneCurrency db
    → OneCurrency (apply_payment_to_ticket t n mode user_id db)
unfolding apply_payment_to_ticket
pay-OneCurrency t n mode user_id db k = update-OneCurrency t.id (credit_ticket t n) db (λ t a. a) k

settle-OneCurrency :
    (user_id : ℕ) (db : Db) → OneCurrency db → OneCurrency (settle_tickets_for_user user_id db)
settle-OneCurrency user_id db k =
    settle_tickets_for_user-keeps OneCurrency pay-OneCurrency
      (λ id n db k. write-OneCurrency id _ db (λ _. refl) (λ _. refl) k) user_id db k

-- The user has no ticket but archived ones, so any currency agrees with them.
free_rows :
    (user_id : ℕ) (f : User → User) (db : Db) (rows : List Ticket)
    → ((u : User) → (f u).id ≡ u.id)
    → countb (is_live_of user_id) rows ≡ 0
    → All (Agrees db) rows
    → All (Agrees (update_user user_id f db)) rows
free_rows user_id f db [] keeps z k = tt
free_rows user_id f db (t ∷ rows) keeps z (a, k) =
    let agrees : Agrees (update_user user_id f db) t = λ live u e.
      elim (Bool-cases (t.consumer_id == user_id)) [
        | inl y ↦ absurd (ground (arith, y, live, z))
        | inr n ↦ a live u (
            sym (
              Table.find_by-update_by_ne user_key f keeps t.consumer_id user_id db.users
                (λ q. absurd (ground (arith, n, q))))
            ∙ e)
      ] in
    (agrees, free_rows user_id f db rows keeps (ground (arith, z)) k)

-- A write to a user that is there, which leaves his currency alone.
found-OneCurrency :
    (id : ℕ) (f : User → User) (db : Db) (u : User)
    → ((u : User) → (f u).id ≡ u.id)
    → find_user id db ≡ some u
    → (f u).currency ≡ u.currency
    → OneCurrency db
    → OneCurrency (update_user id f db)
found-OneCurrency id f db u keeps e same k =
    All-mono (Agrees db) (Agrees (update_user id f db)) db.tickets
      (λ t a live v found. elim (Bool-cases (t.consumer_id == id)) [
        | inl y ↦
            let own = eq_of_eqb t.consumer_id id y in
            let written = Table.find_by-update_by_self user_key f keeps id db.users u e in
            let is_f : f u ≡ v =
              some-injective _ _
                (sym written ∙ subst (λ i. find_user i (update_user id f db) ≡ some v) own found) in
            ap (λ (u : User). u.currency) (sym is_f)
            ∙ same
            ∙ a live u (subst (λ i. find_user i db ≡ some u) (sym own) e)
        | inr n ↦ a live v (
            sym (
              Table.find_by-update_by_ne user_key f keeps t.consumer_id id db.users
                (λ q. absurd (ground (arith, n, q))))
            ∙ found)
      ])
      k

locked-currency : (dto : ProfileCompleteDto) (u : User) → currency_after dto u true ≡ u.currency
locked-currency dto u = ground arith

unlocked : (u : User) (db : Db) → is_locked u db ≡ false → countb (is_live_of u.id) db.tickets ≡ 0
unlocked u db h = ground (arith, h)

complete_profile-OneCurrency :
    (user_id : ℕ) (dto : ProfileCompleteDto) (db : Db)
    → OneCurrency db
    → Post OneCurrency (complete_profile user_id dto db)
unfolding complete_profile
complete_profile-OneCurrency user_id dto db k = Post-or_throw not_found λ (existing : User) e.
    let own : existing.id ≡ user_id = Table.key_of_find_by user_key user_id db.users existing e in
    Post-return (elim (Bool-cases (is_locked existing db)) [
      | inl y ↦
          found-OneCurrency user_id (profiled dto existing (is_locked existing db)) db existing
            (λ _. refl) e (rw y (locked-currency dto existing)) k
      | inr n ↦
          free_rows user_id _ db db.tickets (λ _. refl)
            (subst (λ i. countb (is_live_of i) db.tickets ≡ 0) own (unlocked existing db n)) k
    ])

-- One more ticket.
insert-OneCurrency :
    (t : Ticket) (db : Db) → Agrees db t → OneCurrency db → OneCurrency (insert_ticket t db)
insert-OneCurrency t db a k = All-append (Agrees db) db.tickets (t ∷ []) k (a, tt)

redeem_promo-OneCurrency :
    (promo : PromoUse) (consumer_id ticket_id : ℕ) (db : Db)
    → OneCurrency db
    → Post OneCurrency (redeem_promo promo consumer_id ticket_id db)
redeem_promo-OneCurrency promo consumer_id ticket_id db k =
    Post-of (redeem_promo promo consumer_id ticket_id db) λ db' h.
      let same = Post-result (redeem_promo-SameRows promo consumer_id ticket_id db) h in
      let users : (id : ℕ) (u : User) → find_user id db' ≡ some u → find_user id db ≡ some u =
        λ id u e. rw same.users at e in
      rw same.tickets
        (All-mono (Agrees db) (Agrees db') db.tickets (λ t a live u e. a live u (users _ u e)) k)

open_intake-OneCurrency :
    (t : Ticket) (promo : PromoUse) (db : Db)
    → Agrees db t
    → OneCurrency db
    → Post (λ (o : Opened). OneCurrency o.tables) (open_intake t promo db)
unfolding open_intake
open_intake-OneCurrency t promo db a k = elim (Option-cases (find_request t.intake_request_id db)) [
  | inr (old, e) ↦ rw (e, open_intake) (Post-ensure internal λ _. Post-return k)
  | inl e ↦
      rw (e, open_intake)
        (Post-bind λ (tables : Db) r. Post-return (
          Post-result {P = OneCurrency}
            (redeem_promo-OneCurrency promo t.consumer_id t.id (insert_ticket t db)
              (insert-OneCurrency t db a k))
            r))
]

settle_opened-OneCurrency :
    (b : Bool) (consumer_id : ℕ) (o : Opened)
    → OneCurrency o.tables
    → OneCurrency (settle_opened b consumer_id o).1
unfolding settle_opened
settle_opened-OneCurrency b consumer_id o k = go (b && not o.replayed)
  where
    go :
        (b : Bool)
        → OneCurrency (if b then settle_tickets_for_user consumer_id o.tables else o.tables)
    go false = k
    go true = settle-OneCurrency consumer_id o.tables k

-- The ticket of an order is in the currency of its consumer.
create_intake_ticket-OneCurrency :
    (env : IntakeEnv) (dto : CreateTicketIntakeDto) (actor : Actor) (db : Db)
    → OneCurrency db
    → Post (λ (s : ℕ × Db). OneCurrency s.1) (create_intake_ticket env dto actor db)
unfolding create_intake_ticket new_ticket
create_intake_ticket-OneCurrency env dto actor db k = Post-bind λ (consumer_id : ℕ) c.
    Post-ensure bad_request λ _. Post-ensure bad_request λ _. Post-ensure not_found λ _.
      Post-or_throw not_found λ (user : User) u. Post-then λ _. Post-throw_if bad_request λ _.
        Post-bind λ (promo : PromoUse) p. Post-bind λ (opened : Opened) o. Post-return (
          settle_opened-OneCurrency dto.use_wallet_balance consumer_id opened (
            Post-result {P = λ (o : Opened). OneCurrency o.tables}
              (open_intake-OneCurrency _ promo db
                (λ live v e. ap (λ (u : User). u.currency) (some-injective _ _ (sym e ∙ u))) k)
              o))

-- So is the clone of a ticket that is not archived.
regenerate-OneCurrency :
    (id : ℕ) (env : IntakeEnv) (order : Option ResolvePricingDto) (db : Db) (t : Ticket)
    → find_ticket id db ≡ some t
    → t.archived ≡ false
    → OneCurrency db
    → Post OneCurrency (regenerate id env order db)
unfolding regenerate
regenerate-OneCurrency id env order db t f live k = Post-or_throw not_found λ (original : Ticket) e.
    Post-bind λ (prices : PricingData) p.
      let same : t ≡ original = some-injective _ _ (sym f ∙ e) in
      let a : Agrees db original =
        Table.All-find_by ticket_key (Agrees db) id db.tickets original k e in
      Post-return (
        insert-OneCurrency _ db
          (λ _ u found. a (ap (λ (t : Ticket). t.archived) (sym same) ∙ live) u found) k)

-- Archived tickets need not agree.
archive-OneCurrency :
    (ids : List ℕ) (db : Db) → OneCurrency db → OneCurrency (bulk_action delete ids db).db
unfolding bulk_action
archive-OneCurrency ids db k = go db.tickets k
  where
    one : (t : Ticket) → Agrees db t → Agrees db (set_archived true ids t)
    one t a = elim (Bool-cases (any (λ id. t.id == id) ids)) [
      | inl y ↦ λ live. absurd (ground (arith, rw y at live))
      | inr n ↦ rw n a
    ]

    go :
        (rows : List Ticket)
        → All (Agrees db) rows
        → All (Agrees db) (map (set_archived true ids) rows)
    go [] k = tt
    go (t ∷ rows) (a, k) = (one t a, go rows k)

-- A call that concerns the currency of an account or creates a ticket; a ticket is regenerated
-- while it is not archived.
pub data CurrencyStep (db db' : Db) : Type 0 where
  completes_profile :
      (user_id : ℕ) (dto : ProfileCompleteDto)
      → complete_profile user_id dto db ≡ ok db'
      → CurrencyStep db db'
  orders :
      (env : IntakeEnv) (dto : CreateTicketIntakeDto) (actor : Actor) (id : ℕ)
      → create_intake_ticket env dto actor db ≡ ok (id, db')
      → CurrencyStep db db'
  regenerates :
      (id : ℕ) (env : IntakeEnv) (order : Option ResolvePricingDto) (t : Ticket)
      → find_ticket id db ≡ some t
      → t.archived ≡ false
      → regenerate id env order db ≡ ok db'
      → CurrencyStep db db'
  archives : (ids : List ℕ) → (bulk_action delete ids db).db ≡ db' → CurrencyStep db db'
  settles : (user_id : ℕ) → settle_tickets_for_user user_id db ≡ db' → CurrencyStep db db'

CurrencyStep-OneCurrency : (db db' : Db) → CurrencyStep db db' → OneCurrency db → OneCurrency db'
CurrencyStep-OneCurrency db db' (completes_profile user_id dto h) k =
    Post-result (complete_profile-OneCurrency user_id dto db k) h
CurrencyStep-OneCurrency db db' (orders env dto actor id h) k =
    Post-result {P = λ (s : ℕ × Db). OneCurrency s.1}
      (create_intake_ticket-OneCurrency env dto actor db k) h
CurrencyStep-OneCurrency db db' (regenerates id env order t f live h) k =
    Post-result (regenerate-OneCurrency id env order db t f live k) h
CurrencyStep-OneCurrency db db' (archives ids e) k =
    subst OneCurrency e (archive-OneCurrency ids db k)
CurrencyStep-OneCurrency db db' (settles user_id e) k =
    subst OneCurrency e (settle-OneCurrency user_id db k)

pub data CurrencySteps (db : Db) : Db → Type 0 where
  done : CurrencySteps db db
  next : {d e : Db} → CurrencySteps db d → CurrencyStep d e → CurrencySteps db e

-- When every ticket that is not archived is in the currency of its consumer, this stays so over any
-- number of profile changes, orders with their settlement, regenerations of tickets that are not
-- archived, archivings and settlements.
pub CurrencySteps-OneCurrency :
    (db db' : Db) → CurrencySteps db db' → OneCurrency db → OneCurrency db'
CurrencySteps-OneCurrency db db' done k = k
CurrencySteps-OneCurrency db db' (next {d} steps step) k =
    CurrencyStep-OneCurrency d db' step (CurrencySteps-OneCurrency db d steps k)
