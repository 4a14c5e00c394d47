-- ===== src/Invoices/Items.antt =====
-- apps/api/src/invoices/invoices.service.ts: the items of the invoices over time, and who sees an
-- invoice.
use wusuq_web.Base.{
  ℕ, suc, ◌≡◌, refl, some, List, [], ◌∷◌, All, Option-cases, inl, inr, ok, Post, Post-result,
  Post-bind, Post-then, Post-throw_if, Post-return, Post-of, bad_request,
}
use wusuq_web.Base.Table
use wusuq_web.Store.{Ticket, Db}
use wusuq_web.Store.Billing.{Invoice, InvoiceItem, item_key}
use wusuq_web.Invoices.{
  InvoiceLine, build_invoice_lines, create_item, create_items, build_line, invoice_of, issue,
  tickets_in, generate, find_item,
}

-- The item of a ticket on an invoice.
abbrev pub Billed : ℕ → ℕ → List InvoiceItem → Type 0
Billed invoice_id ticket_id items =
    (i : InvoiceItem) × (Table.find_by item_key ticket_id items ≡ some i)
    × (i.invoice_id ≡ invoice_id)

-- No ticket has two items, none of the items before is gone or changed, and the lines have theirs.
record Inserted (id : ℕ) (lines : List InvoiceLine) (items items' : List InvoiceItem) : Type 0 where
  pub one : Table.Distinct item_key items'
  pub kept :
      (k : ℕ) (i : InvoiceItem)
      → Table.find_by item_key k items ≡ some i
      → Table.find_by item_key k items' ≡ some i
  pub billed : All (λ (l : InvoiceLine). Billed id l.ticket_id items') lines

create_item-Inserted :
    (id : ℕ) (l : InvoiceLine) (items : List InvoiceItem)
    → Table.Distinct item_key items
    → Post (Inserted id (l ∷ []) items) (create_item id l items)
unfolding create_item
create_item-Inserted id l items d = elim (Option-cases (Table.find_by item_key l.ticket_id items)) [
  | inr (i, e) ↦ rw (e, create_item) Post.throws
  | inl e ↦
      rw (e, create_item)
        (Post-return (record {
          one = Table.Distinct-append item_key _ items e d;
          kept = λ k i f. Table.find_by-append item_key k items _ i f;
          billed = ((_, Table.find_by-append_self item_key _ items e, refl), tt);
        }))
]

create_items-Inserted :
    (id : ℕ) (lines : List InvoiceLine) (items : List InvoiceItem)
    → Table.Distinct item_key items
    → Post (Inserted id lines items) (create_items id lines items)
unfolding create_items
create_items-Inserted id [] items d =
    Post-return (record { one = d; kept = λ _ _ f. f; billed = tt })
create_items-Inserted id (l ∷ lines) items d = Post-bind λ (next : List InvoiceItem) h.
    let first =
      Post-result {P = Inserted id (l ∷ []) items} (create_item-Inserted id l items d) h in
    let ((i, f, own), _) = first.billed in
    Post-of (create_items id lines next) λ items' g.
      let rest =
        Post-result {P = Inserted id lines next} (create_items-Inserted id lines next first.one)
          g in
      record {
        one = rest.one;
        kept = λ k i f. rest.kept k i (first.kept k i f);
        billed = ((i, rest.kept l.ticket_id i f, own), rest.billed);
      }

-- The lines of an invoice are of its tickets.
build_invoice_lines-All :
    (P : ℕ → Type 0) (n : ℕ) (tickets : List Ticket)
    → All (λ (l : InvoiceLine). P l.ticket_id) (build_invoice_lines n tickets)
    → All (λ (t : Ticket). P t.id) tickets
unfolding build_invoice_lines build_line
build_invoice_lines-All P n [] h = tt
build_invoice_lines-All P n (t ∷ tickets) (p, ps) =
    (p, build_invoice_lines-All P (suc n) tickets ps)

-- What an issue has done for the tickets of the invoice.
pub record Issued (tickets : List Ticket) (db : Db) (s : Invoice × Db) : Type 0 where
  pub one : Table.Distinct item_key s.1.invoice_items
  pub kept : (k : ℕ) (i : InvoiceItem) → find_item k db ≡ some i → find_item k s.1 ≡ some i
  pub billed : All (λ (t : Ticket). Billed s.0.id t.id s.1.invoice_items) tickets

issue-Issued :
    (tickets : List Ticket) (db : Db)
    → Table.Distinct item_key db.invoice_items
    → Post (Issued tickets db) (issue tickets db)
unfolding issue invoice_of
issue-Issued [] db d = Post.throws
issue-Issued (first ∷ others) db d =
    let lines = build_invoice_lines 1 (first ∷ others) in
    Post-bind λ (rate : ℕ) r. Post-bind λ (items : List InvoiceItem) h.
      let n =
        Post-result {P = Inserted db.next_id lines db.invoice_items}
          (create_items-Inserted db.next_id lines db.invoice_items d) h in
      Post-return (record {
        one = n.one;
        kept = n.kept;
        billed =
            build_invoice_lines-All (λ k. Billed db.next_id k items) 1 (first ∷ others) n.billed;
      })

generate-Issued :
    (ids : List ℕ) (db : Db)
    → Table.Distinct item_key db.invoice_items
    → Post (Issued (tickets_in ids db) db) (generate ids db)
unfolding generate
generate-Issued ids db d =
    Post-throw_if bad_request λ _. Post-then λ _. issue-Issued (tickets_in ids db) db d

-- When no ticket is on two invoices, none is after an invoice was issued either; every ticket of the
-- invoice has its item on it, and the items of the invoices before are as they were.
pub generate_once :
    (ids : List ℕ) (db : Db) (s : Invoice × Db)
    → Table.Distinct item_key db.invoice_items
    → generate ids db ≡ ok s
    → Issued (tickets_in ids db) db s
generate_once ids db s d h =
    Post-result {P = Issued (tickets_in ids db) db} (generate-Issued ids db d) h
