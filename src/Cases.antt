-- ===== src/Cases.antt =====
-- apps/api/src/cases/cases.service.ts: the life of a case, the drifts that its tickets report and
-- their resolution. The moment of a call is an argument; the title and the parties of a case, its
-- documents but those that a completed ticket adds (Cases/Completion), the lists and the audit rows
-- are not kept.
pub mod Context
pub mod Visible
pub mod Closed
pub mod Open
pub mod Resolved
pub mod Recommended
pub mod Completion
pub mod Written
use wusuq_web.Base.{
  ℕ, suc, Bool, true, false, not, ◌&&◌, ◌||◌, Option, none, some, List, [], ◌∷◌, ◌++◌, find,
  filterb, or_else, ◌==◌, if◌then◌else◌, Result, ok, err, ◌>>=◌, ◌>>◌, or_throw, throw_if,
  not_found, bad_request,
}
use wusuq_web.Base.Table
use wusuq_web.Base.Text.{Text}
use wusuq_web.Shared.Flows.{Flow, is_flow_key}
use wusuq_web.Tickets.{Actor}
use wusuq_web.Tickets.Intake.{is_consumer_role}
use wusuq_web.Cases.Context.{
  CaseColumn, ◌same_column◌, Payload, CaseValue, Drift, CaseContext, told, filled_column, drifts,
}

pub data CaseStatus : Type 0 where
  open_case closed archived : CaseStatus

-- `deleted_at` says whether the date column is set.
pub record Case : Type 0 where
  pub id : ℕ
  pub consumer_id : ℕ
  pub status : CaseStatus
  pub notes : Option Text
  pub closed_at : Option ℕ
  pub deleted : Bool
  pub context : CaseContext

-- The type of an event, with what its metadata say.
pub data CaseEventType : Type 0 where
  case_created case_updated case_closed case_reopened ticket_completed : CaseEventType
  context_drift_detected : Drift → CaseEventType
  context_resolved : CaseColumn → CaseValue → CaseEventType
  recommendation_triggered : Flow → CaseEventType

pub record CaseEvent : Type 0 where
  pub id : ℕ
  pub case_id : ℕ
  pub ticket_id : Option ℕ
  pub type : CaseEventType

-- Events stand in the order of their creation.
pub record CaseDb : Type 0 where
  pub cases : List Case
  pub events : List CaseEvent
  pub next_id : ℕ

abbrev pub case_key : Case → ℕ
case_key c = c.id

abbrev pub unless_deleted : Option Case → Option Case
unless_deleted none = none
unless_deleted (some c) = if c.deleted then none else some c

-- `findFirst({ where: { id, deletedAt: null } })`.
abbrev pub find_case : ℕ → CaseDb → Option Case
find_case id db = unless_deleted (Table.find_by case_key id db.cases)

abbrev pub update_case_row : ℕ → (Case → Case) → CaseDb → CaseDb
update_case_row id f db = record db { cases = Table.update_by case_key id f db.cases }

-- `caseEvent.create`.
abbrev pub add_event : ℕ → Option ℕ → CaseEventType → CaseDb → CaseDb
add_event case_id ticket_id type db = record db {
  events =
      db.events
      ++ (record { id = db.next_id; case_id = case_id; ticket_id = ticket_id; type = type } ∷ []);
  next_id = suc db.next_id;
}

-- Does a consumer ask for another's case?
abbrev pub is_foreign : Actor → Case → Bool
is_foreign caller c = elim caller.user_id [
  | none ↦ false
  | some user_id ↦ is_consumer_role caller.role && not (c.consumer_id == user_id)
]

-- `ensureCaseVisible`.
unfoldable pub ensure_case_visible : Case → Actor → Result (Unit {0})
unfolding is_consumer_role
ensure_case_visible c caller = throw_if (is_foreign caller c) not_found

-- `findOne`, and the start of the other calls.
unfoldable pub find_one : ℕ → Actor → CaseDb → Result Case
unfolding ensure_case_visible
find_one id caller db = do
  c ← or_throw (find_case id db) not_found
  ensure_case_visible c caller
  ok c

-- `createCase`, for a consumer that exists. The columns are those that were sent.
unfoldable pub create_case : (ℕ → Bool) → ℕ → Option Text → CaseContext → CaseDb → Result CaseDb
create_case consumer_exists consumer_id notes context db = do
  throw_if (not (consumer_exists consumer_id)) not_found
  let row : Case = record {
    id = db.next_id;
    consumer_id = consumer_id;
    status = open_case;
    notes = notes;
    closed_at = none;
    deleted = false;
    context = context;
  }
  ok (
      add_event db.next_id none case_created
        (record db { cases = db.cases ++ (row ∷ []); next_id = suc db.next_id }))

-- `updateCase`: what was sent replaces what stands there.
unfoldable pub update_case : ℕ → Option Text → CaseContext → Actor → CaseDb → Result CaseDb
unfolding find_one
update_case id notes sent caller db = do
  _ ← find_one id caller db
  ok (
      add_event id none case_updated (
        update_case_row id
          (λ c. record c {
            notes = or_else notes c.notes;
            context = λ column. or_else (sent column) (c.context column);
          })
          db))

abbrev pub same_status : CaseStatus → CaseStatus → Bool
same_status open_case open_case = true
same_status closed closed = true
same_status archived archived = true
same_status _ _ = false

abbrev pub is_ended : CaseStatus → Bool
is_ended open_case = false
is_ended _ = true

-- The event of a change of status, from the one before to the one after.
abbrev pub status_event : CaseStatus → CaseStatus → CaseEventType
status_event from closed = case_closed
status_event from archived = case_closed
status_event from open_case = if is_ended from then case_reopened else case_updated

abbrev pub closed_at_after : CaseStatus → ℕ → Option ℕ → Option ℕ
closed_at_after closed now old = some now
closed_at_after open_case now old = none
closed_at_after archived now old = old

-- `updateStatus`.
unfoldable pub update_status : ℕ → CaseStatus → Option Text → ℕ → Actor → CaseDb → Result CaseDb
unfolding find_one
update_status id status notes now caller db = do
  row ← find_one id caller db
  ok (
      if same_status row.status status
      then db
      else add_event id none (status_event row.status status) (
          update_case_row id
            (λ c. record c {
              status = status;
              notes = or_else notes row.notes;
              closed_at = closed_at_after status now row.closed_at;
            })
            db))

-- `deleteCase`.
unfoldable pub delete_case : ℕ → Actor → CaseDb → Result CaseDb
unfolding find_one
delete_case id caller db = do
  _ ← find_one id caller db
  ok (update_case_row id (λ c. record c { deleted = true }) db)

abbrev pub add_drifts : ℕ → ℕ → List Drift → CaseDb → CaseDb
add_drifts case_id ticket_id [] db = db
add_drifts case_id ticket_id (d ∷ ds) db =
    add_drifts case_id ticket_id ds
      (add_event case_id (some ticket_id) (context_drift_detected d) db)

-- `case.update({ data: updateData })`: the columns that the comparison fills, over those that stand
-- in the row.
abbrev pub written : CaseContext → CaseContext → Payload → CaseContext
written read row payload column = filled_column (told read payload column) (row column)

-- `applyTicketCompletionToCase`, of the ticket's service. It finds deleted cases too.
unfoldable pub apply_ticket_completion : ℕ → ℕ → Payload → CaseDb → CaseDb
unfolding told
apply_ticket_completion case_id ticket_id payload db =
    elim (Table.find_by case_key case_id db.cases) [
      | none ↦ db
      | some row ↦ add_drifts case_id ticket_id (drifts row.context payload) (
          update_case_row case_id
            (λ c. record c { context = written row.context c.context payload }) db)
    ]

-- `trackRecommendationClick`.
unfoldable pub track_recommendation_click : ℕ → Flow → Actor → CaseDb → Result CaseDb
unfolding find_one
track_recommendation_click id flow caller db = do
  _ ← find_one id caller db
  throw_if (not (is_flow_key flow)) bad_request
  ok (add_event id none (recommendation_triggered flow) db)

-- A drift that waits for its resolution.
pub record PendingDrift : Type 0 where
  pub event_id : ℕ
  pub drift : Drift

-- The map without a field.
abbrev pub without : CaseColumn → List PendingDrift → List PendingDrift
without field ps = filterb (λ (p : PendingDrift). not (p.drift.field same_column field)) ps

-- One round of the loop over the events. The pending drifts stand in the order of their detection,
-- as the sort at the end has them.
abbrev pub read_event : CaseEvent → List PendingDrift → List PendingDrift
read_event e ps = elim e.type [
  | context_drift_detected d ↦ without d.field ps ++ (record { event_id = e.id; drift = d } ∷ [])
  | context_resolved field _ ↦ without field ps
  | _ ↦ ps
]

abbrev pub read_events : ℕ → List CaseEvent → List PendingDrift → List PendingDrift
read_events case_id [] ps = ps
read_events case_id (e ∷ es) ps =
    read_events case_id es (if e.case_id == case_id then read_event e ps else ps)

-- `getUnresolvedDrifts`.
unfoldable pub get_unresolved_drifts : ℕ → Actor → CaseDb → Result (List PendingDrift)
unfolding find_one
get_unresolved_drifts case_id caller db = do
  _ ← find_one case_id caller db
  ok (read_events case_id db.events [])

pub data DriftSource : Type 0 where
  case_source ticket_source : DriftSource

abbrev pub drift_of_event : CaseEvent → Option Drift
drift_of_event e = elim e.type [ context_drift_detected d ↦ some d | _ ↦ none ]

abbrev pub is_drift_event : ℕ → ℕ → CaseEvent → Bool
is_drift_event event_id case_id e =
    e.id == event_id
    && e.case_id == case_id
    && elim (drift_of_event e) [ none ↦ false | some _ ↦ true ]

abbrev pub chosen_value : DriftSource → Drift → CaseValue
chosen_value case_source d = d.case_value
chosen_value ticket_source d = d.ticket_value

abbrev pub set_column : CaseColumn → CaseValue → Case → Case
set_column field v c = record c {
  context = λ column. if column same_column field then some v else c.context column;
}

abbrev pub resolved_row : DriftSource → Drift → Case → Case
resolved_row case_source d c = c
resolved_row ticket_source d c = set_column d.field d.ticket_value c

-- `resolveDrift`.
unfoldable pub resolve_drift : ℕ → ℕ → DriftSource → Actor → CaseDb → Result CaseDb
unfolding find_one
resolve_drift case_id event_id source caller db = do
  _ ← find_one case_id caller db
  event ← or_throw (find (is_drift_event event_id case_id) db.events) not_found
  d ← or_throw (drift_of_event event) not_found
  ok (
      add_event case_id event.ticket_id (context_resolved d.field (chosen_value source d))
        (update_case_row case_id (resolved_row source d) db))
