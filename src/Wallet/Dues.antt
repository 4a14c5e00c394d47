-- ===== src/Wallet/Dues.antt =====
-- Settlement ticket by ticket: what the loop leaves of each due and of the credit.
use wusuq_web.Base.{
  ℕ, ◌+◌, ◌-◌, ◌≤◌, ◌≡◌, ◌≢◌, refl, sym, ap, ◌∙◌, Option, none, some, List, [], ◌∷◌, arith, sum,
  map, false, subst, ap₂, Bool-cases, Option-cases, true, inl, inr, leb, if◌then◌else◌, min, All,
}
use wusuq_web.Base.Table
use wusuq_web.Store.{Ticket, Db, ticket_key, find_ticket, ◌is◌, delivered}
use wusuq_web.Shared.Fx.{PaymentMode}
use wusuq_web.Wallet.{
  credit_ticket, apply_payment_to_ticket, settle_fresh, settle_ticket, settle_tickets,
  remaining_due,
}

-- The specification: what is left of each due, and of the credit.
abbrev pub leftover : ℕ → List ℕ → List ℕ
leftover credit [] = []
leftover credit (d ∷ ds) = (d - credit) ∷ leftover (credit - d) ds

abbrev pub due_of : Ticket → ℕ
due_of t = if t.status is delivered then 0 else remaining_due t

abbrev pub due_found : Option Ticket → ℕ
due_found none = 0
due_found (some t) = due_of t

abbrev pub due_at : Db → ℕ → ℕ
due_at db id = due_found (find_ticket id db)

record Settled (id : ℕ) (s s' : ℕ × Db) : Type 0 where
  left : s'.0 ≡ s.0 - due_at s.1 id
  here : due_at s'.1 id ≡ due_at s.1 id - s.0
  others : (j : ℕ) → j ≢ id → find_ticket j s'.1 ≡ find_ticket j s.1

-- A ticket that is owed nothing is passed over.
nothing_due : (id : ℕ) (s : ℕ × Db) → due_at s.1 id ≡ 0 → Settled id s s
nothing_due id s e = record { left = omega arith; here = omega arith; others = λ _ _. refl }

due_of-credit_ticket :
    (t : Ticket) (n : ℕ)
    → n ≤ t.total_amount - t.amount_paid
    → (t.status is delivered) ≡ false
    → due_of (credit_ticket t n t) ≡ due_of t - n
due_of-credit_ticket t n h e = ground arith

settle_due :
    (user_id : ℕ) (mode : PaymentMode) (t : Ticket) (r : ℕ) (db : Db)
    → find_ticket t.id db ≡ some t
    → (t.status is delivered) ≡ false
    → leb t.total_amount 0 ≡ false
    → let n = min r (t.total_amount - t.amount_paid) in
      Settled t.id (r, db) (r - n, apply_payment_to_ticket t n mode user_id db)
unfolding apply_payment_to_ticket
settle_due user_id mode t r db e x y =
    let n = min r (t.total_amount - t.amount_paid) in
    let f = credit_ticket t n in
    let before = ap due_found e in
    let after =
      ap due_found (Table.find_by-update_by_self ticket_key f (λ _. refl) t.id db.tickets t e) in
    let due : due_of t ≡ t.total_amount - t.amount_paid = rw (x, y) in
    record {
      left = omega arith;
      here = omega (arith, due_of-credit_ticket t n (omega arith) x);
      others = λ j ne. Table.find_by-update_by_ne ticket_key f (λ _. refl) j t.id db.tickets ne;
    }

settle_fresh-Settled :
    (user_id : ℕ) (mode : PaymentMode) (t : Ticket) (s : ℕ × Db)
    → find_ticket t.id s.1 ≡ some t
    → Settled t.id s (settle_fresh user_id mode t s)
unfolding settle_fresh
settle_fresh-Settled user_id mode t (r, db) e =
    let none_due : due_of t ≡ 0 → Settled t.id (r, db) (r, db) =
      λ z. nothing_due t.id (r, db) (ap due_found e ∙ z) in
    elim (Bool-cases (t.status is delivered)) [
      | inl x ↦ rw x (none_due (rw x))
      | inr x ↦ elim (Bool-cases (leb t.total_amount 0)) [
        | inl y ↦ rw (x, y) (none_due (rw (x, y)))
        | inr y ↦ elim (Bool-cases (leb t.total_amount t.amount_paid)) [
          | inl z ↦ rw (x, y, z) (none_due (ground arith))
          | inr z ↦ rw (x, y, z) (settle_due user_id mode t r db e x y)
        ]
      ]
    ]

settle_ticket-Settled :
    (user_id : ℕ) (mode : PaymentMode) (id : ℕ) (s : ℕ × Db)
    → Settled id s (settle_ticket user_id mode id s)
unfolding settle_ticket
settle_ticket-Settled user_id mode id s = elim (Option-cases (find_ticket id s.1)) [
  | inl e ↦ rw (e, settle_ticket) (nothing_due id s (ap due_found e))
  | inr (t, e) ↦
      let own = Table.find_by_own ticket_key id s.1.tickets t e in
      let key = Table.key_of_find_by ticket_key id s.1.tickets t e in
      rw (e, settle_ticket)
        (subst (λ i. Settled i s (settle_fresh user_id mode t s)) key
          (settle_fresh-Settled user_id mode t s own))
]

-- No ticket is listed twice.
abbrev pub Once : List ℕ → Type 0
Once [] = Unit
Once (id ∷ ids) = All (λ j. j ≢ id) ids × Once ids

-- Tickets that a step leaves alone owe what they owed.
dues-others :
    (id : ℕ) (s s' : ℕ × Db) (ids : List ℕ)
    → Settled id s s'
    → All (λ j. j ≢ id) ids
    → map (due_at s'.1) ids ≡ map (due_at s.1) ids
dues-others id s s' [] st h = refl
dues-others id s s' (j ∷ ids) st (ne, h) =
    ap₂ ◌∷◌ (ap due_found (st.others j ne)) (dues-others id s s' ids st h)

zero_sub : (d : ℕ) → 0 - d ≡ 0
zero_sub d = omega arith

sum_dues :
    (id : ℕ) (s s' : ℕ × Db) (ids : List ℕ)
    → Settled id s s'
    → All (λ j. j ≢ id) ids
    → sum (due_at s'.1) ids ≡ sum (due_at s.1) ids
sum_dues id s s' [] st h = refl
sum_dues id s s' (j ∷ ids) st (ne, h) =
    ap₂ ◌+◌ (ap due_found (st.others j ne)) (sum_dues id s s' ids st h)

leftover_zero : (ds : List ℕ) → leftover 0 ds ≡ ds
leftover_zero [] = refl
leftover_zero (d ∷ ds) = ap₂ ◌∷◌ (omega arith) (rw (zero_sub d) (leftover_zero ds))

settle_tickets-others :
    (user_id : ℕ) (mode : PaymentMode) (ids : List ℕ) (s : ℕ × Db) (j : ℕ)
    → All (λ i. i ≢ j) ids
    → find_ticket j (settle_tickets user_id mode ids s).1 ≡ find_ticket j s.1
unfolding settle_tickets
settle_tickets-others user_id mode [] s j h = refl
settle_tickets-others user_id mode (id ∷ ids) s j (ne, h) =
    let next = settle_ticket user_id mode id s in
    let st = settle_ticket-Settled user_id mode id s in
    elim (Bool-cases (leb s.0 0)) [
      | inl x ↦ rw x
      | inr x ↦
          rw x (settle_tickets-others user_id mode ids next j h ∙ st.others j (λ e. ne (sym e)))
    ]

-- What is left of each due, and of the credit.
abbrev pub Leaves : List ℕ → ℕ × Db → ℕ × Db → Type 0
Leaves ids s s' =
    (map (due_at s'.1) ids ≡ leftover s.0 (map (due_at s.1) ids))
    × (s'.0 ≡ s.0 - sum (due_at s.1) ids)

settle_tickets_nil :
    (user_id : ℕ) (mode : PaymentMode) (s : ℕ × Db) → settle_tickets user_id mode [] s ≡ s
unfolding settle_tickets
settle_tickets_nil user_id mode s = refl

settle_tickets-stop :
    (user_id : ℕ) (mode : PaymentMode) (id : ℕ) (ids : List ℕ) (s : ℕ × Db)
    → leb s.0 0 ≡ true
    → settle_tickets user_id mode (id ∷ ids) s ≡ s
unfolding settle_tickets
settle_tickets-stop user_id mode id ids s x = rw x refl

settle_tickets-go :
    (user_id : ℕ) (mode : PaymentMode) (id : ℕ) (ids : List ℕ) (s : ℕ × Db)
    → leb s.0 0 ≡ false
    → settle_tickets user_id mode (id ∷ ids) s
      ≡ settle_tickets user_id mode ids (settle_ticket user_id mode id s)
unfolding settle_tickets
settle_tickets-go user_id mode id ids s x = rw x refl

no_credit : (ids : List ℕ) (s : ℕ × Db) → s.0 ≡ 0 → Leaves ids s s
no_credit ids s e =
    (sym (ap (λ c. leftover c (map (due_at s.1) ids)) e ∙ leftover_zero _), omega arith)

-- The loop leaves of each due, and of the credit, what the specification does.
pub settle_tickets-leftover :
    (user_id : ℕ) (mode : PaymentMode) (ids : List ℕ) (s : ℕ × Db)
    → Once ids
    → Leaves ids s (settle_tickets user_id mode ids s)
settle_tickets-leftover user_id mode [] s once =
    subst (λ z. Leaves [] s z) (sym (settle_tickets_nil user_id mode s)) (refl, omega arith)
settle_tickets-leftover user_id mode (id ∷ ids) s (ne, once) =
    let next = settle_ticket user_id mode id s in
    let st = settle_ticket-Settled user_id mode id s in
    let rest = settle_tickets-leftover user_id mode ids next once in
    let ahead = ap due_found (settle_tickets-others user_id mode ids next id ne) in
    let kept = dues-others id s next ids st ne in
    elim (Bool-cases (leb s.0 0)) [
      | inl x ↦
          subst (λ z. Leaves (id ∷ ids) s z) (sym (settle_tickets-stop user_id mode id ids s x))
            (no_credit (id ∷ ids) s (ground arith))
      | inr x ↦
          subst (λ z. Leaves (id ∷ ids) s z) (sym (settle_tickets-go user_id mode id ids s x))
            (
              ap₂ ◌∷◌ (ahead ∙ st.here) (rest.0 ∙ ap₂ leftover st.left kept),
              omega (arith, rest.1, st.left, sum_dues id s next ids st ne),
            )
    ]
