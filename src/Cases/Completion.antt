-- ===== src/Cases/Completion.antt =====
-- apps/api/src/tickets/tickets.service.ts: `updateStatus` as a whole. On COMPLETED it writes to the
-- case of the ticket: an event, the visible documents, and the write-back of the payload. The columns
-- of the ticket that only this part reads are an argument.
use wusuq_web.Base.{
  ℕ, Bool, true, false, ◌≡◌, refl, sym, ap, ◌∙◌, Option, none, some, List, [], ◌∷◌, ◌++◌, map,
  filterb, if◌then◌else◌, Result, ok, ◌>>=◌, bind-ok, ok-injective, Bool-cases, inl, inr, subst,
}
use mathlib.Core.List.{append_assoc, append-nil}
use wusuq_web.Base.Text.{Text}
use wusuq_web.Store.{Ticket, TicketStatus, completed, delivered, Db, find_ticket, ◌is◌}
use wusuq_web.Tickets.{is_allowed}
use wusuq_web.Tickets.Flip.{moved}
use wusuq_web.Tickets.Status.{update_status}
use wusuq_web.Tickets.Status.Gates.{IsDeliverableIf, update_status-gated}
use wusuq_web.Cases.Context.{Payload}
use wusuq_web.Cases.{CaseDb, ticket_completed, add_event, apply_ticket_completion}

pub record TicketDocument : Type 0 where
  pub name : Text
  pub type : Text
  pub file_url : Text
  pub visible_to_consumer : Bool

pub record CaseDocument : Type 0 where
  pub case_id : ℕ
  pub ticket_id : Option ℕ
  pub name : Text
  pub type : Text
  pub file_url : Text

-- The case of a ticket, its payload and its documents.
pub record TicketLink : Type 0 where
  pub case_id : Option ℕ
  pub form_payload : Payload
  pub documents : List TicketDocument

pub record Tables : Type 0 where
  pub db : Db
  pub cases : CaseDb
  pub case_documents : List CaseDocument

abbrev pub case_document : ℕ → ℕ → TicketDocument → CaseDocument
case_document case_id ticket_id doc = record {
  case_id = case_id;
  ticket_id = some ticket_id;
  name = doc.name;
  type = doc.type;
  file_url = doc.file_url;
}

-- The loop over the documents, one `caseDocument.create` after the other.
abbrev pub copy_documents : ℕ → ℕ → List TicketDocument → List CaseDocument → List CaseDocument
copy_documents case_id ticket_id [] rows = rows
copy_documents case_id ticket_id (doc ∷ docs) rows =
    copy_documents case_id ticket_id docs
      (if doc.visible_to_consumer then rows ++ (case_document case_id ticket_id doc ∷ []) else rows)

-- What a completed ticket writes to its case.
abbrev pub complete_in_case : ℕ → TicketLink → Option ℕ → Tables → Tables
complete_in_case id link none tables = tables
complete_in_case id link (some case_id) tables = record tables {
  cases =
      apply_ticket_completion case_id id link.form_payload
        (add_event case_id (some id) ticket_completed tables.cases);
  case_documents = copy_documents case_id id link.documents tables.case_documents;
}

-- What follows a change of the status: is it COMPLETED?
abbrev pub tell_case : Bool → ℕ → TicketLink → Tables → Tables
tell_case true id link tables = complete_in_case id link link.case_id tables
tell_case false id link tables = tables

unfoldable pub update_ticket_status : ℕ → TicketStatus → TicketLink → Tables → Result Tables
update_ticket_status id status link tables = do
  db ← update_status id status tables.db
  ok (tell_case (status is completed) id link (record tables { db = db }))

copy_documents-append :
    (case_id id : ℕ) (docs : List TicketDocument) (rows : List CaseDocument)
    → copy_documents case_id id docs rows
      ≡ rows ++ map (case_document case_id id) (filterb (λ d. d.visible_to_consumer) docs)
copy_documents-append case_id id [] rows = sym (append-nil rows)
copy_documents-append case_id id (d ∷ ds) rows = elim (Bool-cases d.visible_to_consumer) [
  | inl y ↦
      let row = case_document case_id id d in
      rw y (
        copy_documents-append case_id id ds (rows ++ (row ∷ []))
        ∙ append_assoc rows (row ∷ [])
            (map (case_document case_id id) (filterb (λ d. d.visible_to_consumer) ds)))
  | inr n ↦ rw n (copy_documents-append case_id id ds rows)
]

-- The case that the call writes to.
abbrev pub told_case : Bool → TicketLink → Option ℕ
told_case true link = link.case_id
told_case false link = none

-- What the tables of cases are after the call.
abbrev pub CaseTold : Option ℕ → ℕ → TicketLink → Tables → Tables → Type 0
CaseTold none id link tables tables' =
    (tables'.cases ≡ tables.cases) × (tables'.case_documents ≡ tables.case_documents)
CaseTold (some case_id) id link tables tables' =
    (tables'.cases
      ≡ apply_ticket_completion case_id id link.form_payload
          (add_event case_id (some id) ticket_completed tables.cases))
    × (tables'.case_documents
        ≡ tables.case_documents
          ++ map (case_document case_id id) (filterb (λ d. d.visible_to_consumer) link.documents))

completed_in_case :
    (case_id : Option ℕ) (id : ℕ) (link : TicketLink) (tables : Tables) (db : Db)
    → (complete_in_case id link case_id (record tables { db = db })).db ≡ db
completed_in_case none id link tables db = refl
completed_in_case (some c) id link tables db = refl

case_told :
    (case_id : Option ℕ) (id : ℕ) (link : TicketLink) (tables : Tables) (db : Db)
    → CaseTold case_id id link tables (complete_in_case id link case_id (record tables { db = db }))
case_told none id link tables db = (refl, refl)
case_told (some c) id link tables db =
    (refl, copy_documents-append c id link.documents tables.case_documents)

tells :
    (b : Bool) (id : ℕ) (link : TicketLink) (tables : Tables) (db : Db)
    → ((tell_case b id link (record tables { db = db })).db ≡ db)
      × CaseTold (told_case b link) id link tables (tell_case b id link (record tables { db = db }))
tells true id link tables db =
    (completed_in_case link.case_id id link tables db, case_told link.case_id id link tables db)
tells false id link tables db = (refl, (refl, refl))

-- A status changes only along an edge of the transition map, from what the ticket's status is, and
-- to DELIVERED only when the ticket is fully paid and its parcel, if it has one, has left. In the
-- tables of tickets the call writes the status and one row of history, and nothing else. The
-- tables of cases stay as they are, unless the status is COMPLETED and the ticket has a case: then
-- that case gets the event of the completion and the write-back of the payload, and of the ticket's
-- documents just the visible ones, in their order.
pub update_ticket_status-gated :
    (id : ℕ) (to : TicketStatus) (link : TicketLink) (tables tables' : Tables)
    → update_ticket_status id to link tables ≡ ok tables'
    → (t : Ticket) × (find_ticket id tables.db ≡ some t)
      × (is_allowed t.status to ≡ true)
      × IsDeliverableIf (to is delivered) t
      × (tables'.db ≡ moved id t.status to tables.db)
      × CaseTold (told_case (to is completed) link) id link tables tables'
unfolding update_ticket_status
update_ticket_status-gated id to link tables tables' h =
    let (db, f, g) =
      bind-ok (update_status id to tables.db)
        (λ db. ok (tell_case (to is completed) id link (record tables { db = db }))) tables' h in
    let (t, e, a, d, w) = update_status-gated id to tables.db db f in
    let (same_db, told) = tells (to is completed) id link tables db in
    let is_after = ok-injective _ _ g in
    (
      t,
      e,
      a,
      d,
      ap (λ (x : Tables). x.db) (sym is_after) ∙ same_db ∙ w,
      subst (CaseTold (told_case (to is completed) link) id link tables) is_after told,
    )
