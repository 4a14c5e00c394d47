-- ===== src/Tests/Cases.antt =====
-- Tests of cases.
use wusuq_web.Base.{
  ℕ, ◌≡◌, refl, Bool, true, false, ensure, none, some, List, [], ◌∷◌, find, Option, is_some, any,
  if◌then◌else◌, Result, ok, err, ◌>>=◌, ◌>>◌, or_throw, throw_if, not_found,
}
use wusuq_web.Base.Text.{Text}
use wusuq_web.Shared.Flows.{
  Flow, judicial_case_search, judicial_case_information, judicial_case_files, is_flow_key,
}
use wusuq_web.Shared.Recommendations.{
  RecommendationRule, recommendations_by_flow, suggests, recommendations_for_case,
}
use wusuq_web.Shared.Recommendations.Sorted.{InOrder}
use wusuq_web.Store.{TicketStatus, consumer, Ticket, find_ticket, unpaid, completed}
use wusuq_web.Tickets.{Actor}
use wusuq_web.Tickets.Intake.{is_consumer_role}
use wusuq_web.Cases.Context.{
  CaseColumn, Payload, case_no_key, offence_key, CaseContext, text, reported, told, read_aliased,
  aliases_for, parsed,
}
use wusuq_web.Cases.Written.{Written, apply_ticket_completion-Written}
use wusuq_web.Cases.Completion.{
  TicketDocument, TicketLink, Tables, update_ticket_status, CaseTold, update_ticket_status-gated,
}
use wusuq_web.Tickets.{is_allowed, transition, flip}
use wusuq_web.Tickets.Flip.{moved}
use wusuq_web.Tickets.Status
use wusuq_web.Tickets.Status.{ensure_deliverable, check_status_update}
use wusuq_web.Tickets.Status.Gates.{IsDeliverableIf}
use wusuq_web.Tests
use wusuq_web.Cases.{
  Case, CaseStatus, open_case, CaseDb, find_one, ensure_case_visible, update_case, update_status,
  delete_case, track_recommendation_click, apply_ticket_completion, PendingDrift,
  get_unresolved_drifts, DriftSource, ticket_source, resolve_drift,
}
use wusuq_web.Cases.Open.{pends, open_drift, get_unresolved_drifts-open_drift}
use wusuq_web.Cases.Resolved.{Resolved, resolve_drift-Resolved}
use wusuq_web.Cases.Visible.{Hidden, find_one-Hidden}
use wusuq_web.Cases.Recommended.{
  CaseTicket, flow_of, get_recommendations, orders, leads_to, get_recommendations-InOrder,
}
use wusuq_web.Cases.Closed.{AllDated, CaseStep, CaseSteps, CaseSteps-AllDated}

-- 'B', of a case with the number 'A'.
abbrev payload : Payload
payload case_no_key = some (66 ∷ [])
payload offence_key = some (79 ∷ [])
payload _ = none

abbrev columns : CaseContext
columns CaseColumn.case_no = some (text (65 ∷ []))
columns _ = none

abbrev owner : Actor
owner = record { user_id = some 1; role = some consumer }

abbrev stranger : Actor
stranger = record { user_id = some 2; role = some consumer }

abbrev the_case : Case
the_case = record {
  id = 5;
  consumer_id = 1;
  status = open_case;
  notes = none;
  closed_at = none;
  deleted = false;
  context = columns;
}

abbrev document : Bool → TicketDocument
document visible = record { name = []; type = []; file_url = []; visible_to_consumer = visible }

abbrev db : CaseDb
db = record { cases = the_case ∷ []; events = []; next_id = 6 }

abbrev reported_db : CaseDb
reported_db = apply_ticket_completion 5 30 payload db

-- The number 'B' that the ticket tells stays out, and the offence is filled in.
apply_ticket_completion-Written_example : Written 5 30 payload the_case db reported_db
apply_ticket_completion-Written_example =
    apply_ticket_completion-Written 5 30 payload db the_case refl

-- Ticket 15 is of the case, and the consumer sees one of its two documents.
abbrev link : TicketLink
link = record {
  case_id = some 5;
  form_payload = payload;
  documents = document true ∷ document false ∷ [];
}

abbrev before : Tables
before = record { db = Tests.db; cases = db; case_documents = [] }

abbrev tables_after : Result Tables → Tables
tables_after (ok x) = x
tables_after (err _) = before

abbrev after_completion : Tables
after_completion = tables_after (update_ticket_status 15 completed link before)

completes : update_ticket_status 15 completed link before ≡ ok after_completion
unfolding update_ticket_status Status.update_status check_status_update ensure_deliverable
    is_allowed transition flip ◌>>=◌ ◌>>◌ or_throw ensure throw_if
completes = refl

update_ticket_status-gated_example :
    (t : Ticket) × (find_ticket 15 Tests.db ≡ some t)
    × (is_allowed t.status completed ≡ true)
    × IsDeliverableIf false t
    × (after_completion.db ≡ moved 15 t.status completed Tests.db)
    × CaseTold (some 5) 15 link before after_completion
update_ticket_status-gated_example =
    update_ticket_status-gated 15 completed link before after_completion completes

abbrev pending : Result (List PendingDrift) → List PendingDrift
pending (ok ps) = ps
pending (err _) = []

abbrev drifted : List PendingDrift
drifted = pending (get_unresolved_drifts 5 owner reported_db)

lists_drift : get_unresolved_drifts 5 owner reported_db ≡ ok drifted
unfolding get_unresolved_drifts find_one ensure_case_visible apply_ticket_completion ◌>>=◌ ◌>>◌
    or_throw throw_if is_consumer_role
lists_drift = refl

get_unresolved_drifts-open_drift_example :
    find (pends CaseColumn.case_no) drifted ≡ open_drift 5 CaseColumn.case_no reported_db.events
get_unresolved_drifts-open_drift_example =
    get_unresolved_drifts-open_drift 5 owner reported_db drifted lists_drift CaseColumn.case_no

abbrev tables : Result CaseDb → CaseDb
tables (ok d) = d
tables (err _) = db

abbrev resolved : CaseDb
resolved = tables (resolve_drift 5 6 ticket_source owner reported_db)

resolves : resolve_drift 5 6 ticket_source owner reported_db ≡ ok resolved
unfolding resolve_drift find_one ensure_case_visible apply_ticket_completion told reported
    read_aliased aliases_for parsed ◌>>=◌ ◌>>◌ or_throw throw_if is_consumer_role
resolves = refl

resolve_drift-Resolved_example : Resolved 5 6 ticket_source reported_db resolved
resolve_drift-Resolved_example =
    resolve_drift-Resolved 5 6 ticket_source owner reported_db resolved resolves

find_one-Hidden_example :
    (find_one 5 stranger db ≡ err not_found)
    × ((notes : Option Text) (sent : CaseContext)
        → update_case 5 notes sent stranger db ≡ err not_found)
    × ((status : CaseStatus) (notes : Option Text) (now : ℕ)
        → update_status 5 status notes now stranger db ≡ err not_found)
    × (delete_case 5 stranger db ≡ err not_found)
    × (get_unresolved_drifts 5 stranger db ≡ err not_found)
    × ((event_id : ℕ) (source : DriftSource)
        → resolve_drift 5 event_id source stranger db ≡ err not_found)
    × ((flow : Flow) → track_recommendation_click 5 flow stranger db ≡ err not_found)
    × ((tickets : List CaseTicket) → get_recommendations 5 stranger tickets db ≡ err not_found)
unfolding is_consumer_role
find_one-Hidden_example = find_one-Hidden 5 stranger db (Hidden.foreign _ refl refl)

CaseSteps-AllDated_example : AllDated resolved
unfolding apply_ticket_completion
CaseSteps-AllDated_example =
    CaseSteps-AllDated db resolved
      (CaseSteps.next (CaseSteps.next CaseSteps.done (CaseStep.completes 5 30 payload refl))
        (CaseStep.resolves 5 6 ticket_source owner resolves))
      (refl, tt)

abbrev case_ticket : Flow → TicketStatus → CaseTicket
case_ticket flow status = record {
  case_id = some 5;
  archived = false;
  flow_key = some flow;
  intake_flow = none;
  status = status;
}

-- A search that is done, and the files that are on order.
abbrev tickets : List CaseTicket
tickets = case_ticket judicial_case_search completed ∷ case_ticket judicial_case_files unpaid ∷ []

abbrev information : List RecommendationRule
information = record { next = judicial_case_information; priority = 1 } ∷ []

recommends_information : get_recommendations 5 owner tickets db ≡ ok information
unfolding get_recommendations find_one ensure_case_visible flow_of recommendations_for_case
    recommendations_by_flow is_flow_key ◌>>=◌ ◌>>◌ or_throw throw_if is_consumer_role
recommends_information = refl

get_recommendations-InOrder_example :
    InOrder information
    × ((flow : Flow)
        → is_some (find (suggests flow) information)
          ≡ (if any (orders 5 flow) tickets then false else any (leads_to 5 flow) tickets))
get_recommendations-InOrder_example =
    get_recommendations-InOrder 5 owner tickets db information recommends_information
