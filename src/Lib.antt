-- ===== src/Lib.antt =====
-- nitroso-tin buys train tickets on KTMB for the bookings of zinc, the booking service. A reserver
-- (and a prober) holds a seat and queues it; the buyer (lib/buyer) takes a held seat, buys it for the
-- next booking of its slot, and completes that booking, reverts it, or parks it on the recover queue
-- when the purchase ended in a conflict or without a ticket; the recoverer (lib/recoverer) settles
-- the parked bookings, repairs lost ticket files and answers account checks; the terminator
-- (lib/terminator) refunds tickets. The withdrawer (lib/withdrawer) approves and reconciles payouts,
-- and the backfill (lib/ktmbcost) reports to zinc what KTMB charged and refunded.
--
-- How the code is modelled. A step that talks to zinc, KTMB, the session or a queue is a program on
-- the history of the requests of the run, the latest first; an `Env` answers each request by an
-- arbitrary function of the history before it and of the request, so answers may change during a run.
-- Go's `(value, error)` is `Result`, with one constructor for each kind of error that the callers tell
-- apart. The generated client of zinc and the HTTP client of KTMB are not modelled: `Zinc.Reply` and
-- `Result KtmbError` are what they give.
--
--   Base, Base/*        shared names: tests, lists, texts as lists of codes, results and programs
--   Ktmb, Zinc          the data that KTMB and zinc answer (lib/ktmb/res.go, lib/ktmb/http.go, lib/dto.go)
--   Currency, Dates     currencyOrDefault, normalizeCurrency; the date conversions of lib/util.go
--   Recoverer/Scan      findTicketIn and its helpers (lib/recoverer/scan.go); below it, the rows and
--                       pages that a scan reads, the order of the list, and what its answers mean
--   Recoverer/World     the requests and the answers of the recoverer
--   Recoverer/Process   ProcessItem and its helpers (lib/recoverer/process.go)
--   Recoverer/Check     CheckBooking (lib/recoverer/check.go) and ReconstructDto; Answer, answerCheck and
--                       reportCheck
--   Recoverer/Queue     Drain, Sweep and requeue (lib/recoverer/client.go)
--   Recoverer/Repair    the missing-ticket sweep (lib/recoverer/repair.go)
--   Buyer               data, errors and requests (lib/buyer/errors.go, lib/buyer/passenger.go)
--   Buyer/Purchase      Buy and Release (lib/buyer/buyer.go)
--   Buyer/Retry         retryBackoff (lib/buyer/client.go)
--   Buyer/Client        buy, park, revert and completeWithZinc (lib/buyer/client.go)
--   Prober              acceptHold, compensateHold, drainReleases (lib/prober/runner.go) and Matches
--                       (lib/prober/model.go)
--   Withdrawer          the nightly approvals and the reconciling sweep (lib/withdrawer/client.go)
--   Backfill            the backfill of costs and refunds (lib/ktmbcost/client.go): World, its data and
--                       requests; Raw, the refund in a raw answer; Listing; Item, one booking; Run
--   Prober/Slot         probeSlot, SumTallies (lib/prober/runner.go, lib/prober/model.go)
--   Prober/Fleet        TargetsFromCount, ShardTargets, Spawn (lib/prober/model.go, lib/prober/spawner.go)
--   Counts              the count snapshot and its windows (lib/count/client.go)
--   Reserver            rearm, diff and the messages of the differ (lib/reserver/differ.go), and how many
--                       reservations a change leads to (lib/reserver/reserver.go)
--   Session             Login by several modules over one redis, with the expiry of its lock, and
--                       Invalidate (lib/session/client.go)
--   Terminator          find, refundTicket, refundAmount, Terminate (lib/terminator/terminator.go)
--
-- Bounds and fuel. The bisection of a scan runs on fuel of one more than the page count, the walks on
-- the number of pages to their side. From 2 ^ 62 pages on, where the source's sum of two page numbers
-- may pass the int64, the bisection has no fuel and the model gives no answer. The terminator's paging calls itself without a bound, so it runs
-- on fuel that is an argument. Retries count down from the setting, and there is at least one attempt.
-- The withdrawer reads at most 50 pages; the backfill's listing runs on the configured maximum, since
-- each page read counts an item at least.
--
-- Parameters: time.ParseInLocation (an instant as a number, or a failure), the calendar of package
-- time, uuid.Parse, the clock, the cancellation of a context, encryption, the multipart form, and the
-- test of an amount against 0 (amounts are 32-bit floats that the code only passes on and compares
-- with 0). Texts are compared as they are; lower and upper case and blanks are those of ASCII.
--
-- Not modelled: logging, the texts of errors and bodies, the waits between requests, the loops that pop
-- queues and run cron ticks, goroutines and timeouts, the reserver's reservation race, the
-- poller, the enricher, redis, configuration and telemetry.
pub mod Base
pub mod Ktmb
pub mod Zinc
pub mod Currency
pub mod Dates
pub mod Buyer
pub mod Recoverer
pub mod Terminator
pub mod Prober
pub mod Withdrawer
pub mod Session
pub mod Counts
pub mod Reserver
pub mod Backfill
