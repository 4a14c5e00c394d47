-- ===== src/Lib.antt =====
-- Verification of the money and lifecycle rules of the Wusuq services: a shallow embedding of the
-- TypeScript code, executable, with the theorems that make it correct.
--
-- The program. Consumers order legal services; an order is a ticket. `packages/shared/src/index.ts`
-- has the rules that the API and the web share (totals, currencies, charge capabilities, the clerk's
-- pay). `apps/api/src/wallet/wallet.service.ts` keeps prepaid credit and settles tickets from it.
-- `apps/api/src/tickets/tickets.service.ts` moves a ticket from UNPAID to DELIVERED: assignment to a
-- representative (the clerk), the clerk's costs, the admin's review with the final charges, dispatch,
-- delivery; a finalization calls the wallet, to credit a surplus and to settle what is left.
--
-- The files.
--   Base: tests on numbers, lists, texts, results with Nest's exceptions, keyed tables, integers.
--   Shared/Flows, Gate, Money, Fx, Clerk, Region, Recommendations: packages/shared/src/index.ts, and
--     apps/web/lib/pay-amount.ts in Fx. A function has its name in snake case (`computeTicketTotal` is `compute_ticket_total`);
--     the children Money/Total, Fx/Sums, Fx/RoundTrip, Clerk/Payout, Recommendations/Sorted and
--     Recommendations/Ranked hold proofs. Region also has common/utils/phone.util.ts of the API.
--   Store: the tables of apps/api/prisma/schema.prisma; Store/Billing those of promos and invoices.
--   Wallet: wallet.service.ts; proofs in Wallet/Money, Settle, Keeps, Dues, Fifo, Topup and Pay.
--   Tickets: tickets.service.ts. Tickets.antt has what operations share; Tickets/Status, Assign,
--     Work and Finalize have the operations (Finalize/Reprice the repricing). Proofs stand in
--     Tickets/Flip, Status/Gates, Assign/Active, Work/Snapshot, Finalize/Held, Finalize/Settled,
--     Finalize/Review, Frozen, Frozen/Settle, Frozen/Steps and Delivery.
--     Tickets/Bulk has the bulk calls, with proofs in Bulk/Held, and
--     Tickets/Regenerate the regeneration, with its proofs in Regenerate/Clone.
--     Tickets/Intake has the order of a new ticket, with proofs in Intake/Created, Ordered, Replay,
--     Resent and Limits. Tickets/NextHearing has the next hearings.
--   Promos, Pricing: promos.service.ts and pricing.service.ts, which the intake calls; proofs in
--     Promos/Discount and Limits, Pricing/Best and Total. Shared/Cases has what prices take from a case.
--   Payments: payments.service.ts, with the gateway as a parameter; proofs in Payments/Webhook and Live.
--   Finance: finance.service.ts; proofs in Finance/Reconcile and Charge.
--   Invoices: invoices.service.ts and invoice-lines.ts; proofs in Invoices/Single and Items.
--   Auth/Otp: auth/otp.service.ts; proofs in Otp/Live, Guarded, Once and Phone. Auth/Sessions:
--     auth/auth.service.ts, with the libraries that hash and sign as the parameter `Crypto`; proofs in
--     Sessions/LoggedOut and Refresh.
--   Users: `completeProfile` of auth.service.ts; proofs in Users/OneCurrency and Mixed.
--   Cases: cases.service.ts, and in Cases/Context what a completed ticket tells its case (the
--     function `applyTicketCompletionToCase` of tickets.service.ts); Cases/Recommended has
--     `getRecommendations`. Cases/Completion has
--     `updateStatus` of a ticket with what it writes to the case; `update_status` of Tickets/Status is
--     its half on the tables of tickets. Proofs in Context/Drifts, Written, Completion, Open, Resolved,
--     Visible, Closed and Recommended.
--   Ledger: the calls of wallet, tickets, payments and finance that concern money, together: the keys
--     and foreign keys that they keep (Ledger/Calls, Gateway, Orders and Reviews), and the money
--     (Ledger/Balance and Steps).
--   Tests: data and runs at concrete inputs, one example for each theorem below.
--
-- How the code is modelled.
--   A table is a list of rows in the order of creation; a key is a number drawn from `next_id`, and
--   `orderBy: createdAt` is the order of the list. An operation takes the tables and returns new
--   ones or one of the exceptions; a throw leaves the tables alone, since it comes before the first
--   write or rolls back the transaction it is in. Row locks make a transaction one step. Where a
--   handler reads a ticket first and writes on the condition that the status is still the same,
--   the write is a function of its own (`flip`), so a stale read can be followed by a write.
--   An amount is a whole number of hundredths, and a rate (tax, exchange) of millionths; `round2`
--   rounds the exact quotient half up, without the error of binary floats. `Math.max(0, a - b)` is
--   subtraction on the natural numbers. A stored amount is never negative; a signed adjustment is
--   an integer. A `null` or `undefined` is an absent option. A text is a list of character
--   codes, and its case that of the letters A to Z. A moment is a number of milliseconds.
--   All loops are structural recursions over lists, so nothing needs fuel.
--
-- What is not modelled: audit rows, the sending of notifications, notes, the upload of documents and
--   the report on available files beside the operations; the automatic invoice after a review; the
--   write-back of a default clerk fee; the price resolver and the settings, whose answers are
--   arguments of the repricing; queries and lists; the checks of an intake's payload and its
--   translation into a request for a price, whose outcome the order carries; the look-up of a
--   province; availability lists; the words and the number of an invoice; the payload of a next
--   hearing; the title and parties of a case, its documents but those that a completed ticket adds,
--   and createCaseTicket; the recommendations that a change of status answers with; a failure to
--   clear the notifications of archived tickets, which is logged only; amounts with more than two
--   decimals, which some requests let through; roles, dashboards, reports and the web pages.
pub mod Base
pub mod Shared
pub mod Store
pub mod Wallet
pub mod Tickets
pub mod Payments
pub mod Finance
pub mod Promos
pub mod Pricing
pub mod Invoices
pub mod Auth
pub mod Users
pub mod Cases
pub mod Ledger
pub mod Tests
