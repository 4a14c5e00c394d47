-- ===== src/Cases/Written.antt =====
-- apps/api/src/tickets/tickets.service.ts, `applyTicketCompletionToCase`: the write-back from a
-- completed ticket to its case.
use mathlib.Core.List.{append_assoc, append-nil}
use wusuq_web.Base.{
  ℕ, suc, ◌≡◌, ◌≢◌, refl, sym, ap, ◌∙◌, Bool, true, false, Option, none, some, List, [], ◌∷◌, ◌++◌,
  filterb, arith, Bool-cases, Option-cases, inl, inr,
}
use wusuq_web.Base.Table
use wusuq_web.Cases.Context.{
  CaseColumn, ◌same_column◌, Payload, CaseValue, reported, CaseContext, is_empty, same_value, Drift,
  Told, silent, fills, agrees, conflicts, trimmed, told, filled_column, drift_of, drifts,
}
use wusuq_web.Cases.Context.Drifts.{about, drifts-about}
use wusuq_web.Cases.{
  Case, CaseEvent, context_drift_detected, CaseDb, case_key, update_case_row, add_event,
  drift_of_event, add_drifts, written, apply_ticket_completion,
}

-- The events that tell of these drifts, with keys from `n` on.
abbrev drift_events : ℕ → ℕ → ℕ → List Drift → List CaseEvent
drift_events case_id ticket_id n [] = []
drift_events case_id ticket_id n (d ∷ ds) =
    record {
      id = n;
      case_id = case_id;
      ticket_id = some ticket_id;
      type = context_drift_detected d;
    }
    ∷ drift_events case_id ticket_id (suc n) ds

add_drifts-events :
    (case_id ticket_id : ℕ) (ds : List Drift) (db : CaseDb)
    → (add_drifts case_id ticket_id ds db).events
      ≡ db.events ++ drift_events case_id ticket_id db.next_id ds
add_drifts-events case_id ticket_id [] db = sym (append-nil db.events)
add_drifts-events case_id ticket_id (d ∷ ds) db =
    add_drifts-events case_id ticket_id ds
      (add_event case_id (some ticket_id) (context_drift_detected d) db)
    ∙ append_assoc db.events
        (record {
          id = db.next_id;
          case_id = case_id;
          ticket_id = some ticket_id;
          type = context_drift_detected d;
        }
          ∷ [])
        (drift_events case_id ticket_id (suc db.next_id) ds)

add_drifts-cases :
    (case_id ticket_id : ℕ) (ds : List Drift) (db : CaseDb)
    → (add_drifts case_id ticket_id ds db).cases ≡ db.cases
add_drifts-cases case_id ticket_id [] db = refl
add_drifts-cases case_id ticket_id (d ∷ ds) db =
    add_drifts-cases case_id ticket_id ds
      (add_event case_id (some ticket_id) (context_drift_detected d) db)

-- Does the event tell of a drift of the column?
abbrev pub tells_of : CaseColumn → CaseEvent → Bool
tells_of column e = elim (drift_of_event e) [ none ↦ false | some d ↦ d.field same_column column ]

drift_events_none :
    (case_id ticket_id n : ℕ) (column : CaseColumn) (ds : List Drift)
    → filterb (about column) ds ≡ []
    → filterb (tells_of column) (drift_events case_id ticket_id n ds) ≡ []
drift_events_none case_id ticket_id n column [] h = refl
drift_events_none case_id ticket_id n column (d ∷ ds) h = elim (Bool-cases (about column d)) [
  | inl y ↦ absurd (ground (arith, rw y at h))
  | inr m ↦ rw m (drift_events_none case_id ticket_id (suc n) column ds (rw m at h))
]

-- One event, of this case and this ticket, that tells of this drift.
pub record IsTold (case_id ticket_id : ℕ) (column : CaseColumn) (d : Drift)
    (events : List CaseEvent) : Type 0 where
  pub event : CaseEvent
  pub only : filterb (tells_of column) events ≡ event ∷ []
  pub of_case : event.case_id ≡ case_id
  pub of_ticket : event.ticket_id ≡ some ticket_id
  pub says : event.type ≡ context_drift_detected d

first : Drift → List Drift → Drift
first d [] = d
first d (x ∷ _) = x

rest : List Drift → List Drift
rest [] = []
rest (_ ∷ xs) = xs

drift_events-IsTold :
    (case_id ticket_id n : ℕ) (column : CaseColumn) (d : Drift) (ds : List Drift)
    → filterb (about column) ds ≡ d ∷ []
    → IsTold case_id ticket_id column d (drift_events case_id ticket_id n ds)
unfolding first rest
drift_events-IsTold case_id ticket_id n column d [] h = absurd (ground (arith, h))
drift_events-IsTold case_id ticket_id n column d (x ∷ ds) h = elim (Bool-cases (about column x)) [
  | inl y ↦
      let k : x ∷ filterb (about column) ds ≡ d ∷ [] = rw y at h in
      record {
        event = record {
          id = n;
          case_id = case_id;
          ticket_id = some ticket_id;
          type = context_drift_detected x;
        };
        only = rw (y, drift_events_none case_id ticket_id (suc n) column ds (ap rest k)) refl;
        of_case = refl;
        of_ticket = refl;
        says = ap context_drift_detected (ap (first d) k);
      }
  | inr m ↦
      let r = drift_events-IsTold case_id ticket_id (suc n) column d ds (rw m at h) in
      record {
        event = r.event;
        only = rw m r.only;
        of_case = r.of_case;
        of_ticket = r.of_ticket;
        says = r.says;
      }
]

-- What the write-back makes of one column: `reports` is the value that the ticket tells, `old` and
-- `new` are the column before and after, and `events` are the new events.
pub data ColumnAfter (case_id ticket_id : ℕ) (column : CaseColumn) (reports : Option CaseValue)
    (old new : Option CaseValue) (events : List CaseEvent) : Type 0 where
  untold :
      reports ≡ none
      → new ≡ old
      → filterb (tells_of column) events ≡ []
      → ColumnAfter case_id ticket_id column reports old new events
  was_empty :
      (v : CaseValue)
      → reports ≡ some v
      → is_empty old ≡ true
      → new ≡ some v
      → filterb (tells_of column) events ≡ []
      → ColumnAfter case_id ticket_id column reports old new events
  agreed :
      (v x : CaseValue)
      → reports ≡ some v
      → old ≡ some x
      → is_empty old ≡ false
      → same_value x v ≡ true
      → new ≡ old
      → filterb (tells_of column) events ≡ []
      → ColumnAfter case_id ticket_id column reports old new events
  in_conflict :
      (v x : CaseValue)
      → reports ≡ some v
      → old ≡ some x
      → is_empty old ≡ false
      → same_value x v ≡ false
      → new ≡ old
      → IsTold case_id ticket_id column
          (record { field = column; case_value = trimmed x; ticket_value = trimmed v })
          events
      → ColumnAfter case_id ticket_id column reports old new events

written-ColumnAfter :
    (case_id ticket_id n : ℕ) (context : CaseContext) (payload : Payload) (column : CaseColumn)
    → ColumnAfter case_id ticket_id column
        (reported payload column)
        (context column)
        (written context context payload column)
        (drift_events case_id ticket_id n (drifts context payload))
unfolding told
written-ColumnAfter case_id ticket_id n context payload column =
    elim (Option-cases (reported payload column)) [
      | inl e ↦
          let t : told context payload column ≡ silent = rw (e, told) refl in
          untold e (ap new t) (no_event silent t refl)
      | inr (v, e) ↦ go v e (context column) refl
    ]
  where
    new : Told → Option CaseValue
    new t = filled_column t (context column)

    no_event :
        (t : Told)
        → told context payload column ≡ t
        → drift_of t ≡ []
        → filterb (tells_of column) (drift_events case_id ticket_id n (drifts context payload)) ≡ []
    no_event t e f =
        drift_events_none case_id ticket_id n column (drifts context payload) (
          drifts-about context payload column
          ∙ ap (λ u. drift_of u ++ []) e
          ∙ ap (λ ds. ds ++ []) f)

    go :
        (v : CaseValue)
        → reported payload column ≡ some v
        → (old : Option CaseValue) → context column ≡ old
        → ColumnAfter case_id ticket_id column
            (reported payload column)
            (context column)
            (written context context payload column)
            (drift_events case_id ticket_id n (drifts context payload))
    go v e none c =
        let t : told context payload column ≡ fills v = rw (e, told, c) refl in
        was_empty v e (ap is_empty c) (ap new t) (no_event (fills v) t refl)
    go v e (some x) c = elim (Bool-cases (is_empty (some x))) [
      | inl y ↦
          let t : told context payload column ≡ fills v = rw (e, told, c, y) refl in
          was_empty v e (ap is_empty c ∙ y) (ap new t) (no_event (fills v) t refl)
      | inr m ↦ elim (Bool-cases (same_value x v)) [
        | inl y ↦
            let t : told context payload column ≡ agrees = rw (e, told, c, m, y) refl in
            agreed v x e c (ap is_empty c ∙ m) y (ap new t) (no_event agrees t refl)
        | inr z ↦
            let d : Drift = record {
              field = column;
              case_value = trimmed x;
              ticket_value = trimmed v;
            } in
            let t : told context payload column ≡ conflicts d = rw (e, told, c, m, z) refl in
            in_conflict v x e c (ap is_empty c ∙ m) z (ap new t) (
              drift_events-IsTold case_id ticket_id n column d (drifts context payload)
                (drifts-about context payload column ∙ ap (λ u. drift_of u ++ []) t))
      ]
    ]

-- The case after the write-back, with the events that it adds.
pub record Written (case_id ticket_id : ℕ) (payload : Payload) (row : Case) (db db' : CaseDb)
    : Type 0 where
  pub after : Case
  pub found : Table.find_by case_key case_id db'.cases ≡ some after
  pub same_but_columns : after ≡ record row { context = after.context }
  pub other_cases :
      (id : ℕ)
      → id ≢ case_id
      → Table.find_by case_key id db'.cases ≡ Table.find_by case_key id db.cases
  pub news : List CaseEvent
  pub events_grow : db'.events ≡ db.events ++ news
  pub columns :
      (column : CaseColumn)
      → ColumnAfter case_id ticket_id column
          (reported payload column)
          (row.context column)
          (after.context column)
          news

-- The write-back of a ticket's payload to a case that is there. A column of which the ticket tells
-- nothing stays; an empty one gets the value that is told; one that has a value keeps it. Of the new
-- events exactly one, of this case and this ticket and with both values trimmed, tells of a column
-- whose value differs (but for case and spaces) from the one that is told, and none tells of another
-- column. The rest of the case, the other cases and the earlier events stay.
pub apply_ticket_completion-Written :
    (case_id ticket_id : ℕ) (payload : Payload) (db : CaseDb) (row : Case)
    → Table.find_by case_key case_id db.cases ≡ some row
    → Written case_id ticket_id payload row db
        (apply_ticket_completion case_id ticket_id payload db)
unfolding apply_ticket_completion
apply_ticket_completion-Written case_id ticket_id payload db row e =
    let change : Case → Case = λ c. record c { context = written row.context c.context payload } in
    let ds = drifts row.context payload in
    let between = update_case_row case_id change db in
    let is_cases = add_drifts-cases case_id ticket_id ds between in
    rw (e, apply_ticket_completion)
      (record {
        after = change row;
        found =
            ap (Table.find_by case_key case_id) is_cases
            ∙ Table.find_by-update_by_self case_key change (λ _. refl) case_id db.cases row e;
        same_but_columns = refl;
        other_cases = λ id other.
            ap (Table.find_by case_key id) is_cases
            ∙ Table.find_by-update_by_ne case_key change (λ _. refl) id case_id db.cases other;
        news = drift_events case_id ticket_id db.next_id ds;
        events_grow = add_drifts-events case_id ticket_id ds between;
        columns =
            λ column. written-ColumnAfter case_id ticket_id db.next_id row.context payload column;
      })
