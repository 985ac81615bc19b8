-- ===== src/Lib.antt =====
-- SSEmaphore: a model of its admission scheduler, of its contract for requests, responses and event
-- streams, and of the validation of its HTTP interface and server, with the theorems that make them
-- correct.
--
-- The scheduler (internal/admission) decides which requests wait, run or are refused. Callers send
-- commands through a mailbox to one goroutine, the owner, which holds all the state:
--
-- - Prelude: Boolean tests on numbers, chains of `Option`, results with errors, list lemmas.
-- - Admission.Types (types.go): the callers' data. Admission.Config (config.go):
--   `validateConfig` is `validate_config`, `validateAdmission` is `validate_admission`.
-- - Admission.Counters, Entries, State (owner.go): the counters and limit tests; the entries with
--   the map from IDs; `ownerState` is `OwnerState`. Admission.Expiry (expiry.go): the heap of
--   deadlines, as the ordered list that it shows.
-- - Admission.Owner, Commands, Pump, Run (owner.go): `admit`, `removeQueued` and `expireReady`;
--   the other commands and `handle`; the weighted deficit round robin `pump`; the loop `run`.
--   A function keeps its name in snake case, takes the state and returns the next one; `none` is
--   a panic of the code or fuel that ran out.
-- - The other modules of Admission hold proofs: Invariant states what holds of the owner's state;
--   Totals and Accounts carry the accounting; Removal, Dispatch, Moves, Release, Arrival and
--   Expiring the transitions on one entry; Measure, Pumping, Turns, Rounds and Termination the
--   pump; Draining, Canceling, Finishing, Forcing, Admitting and Handling the commands; Rounding
--   the runs; Validation, Validated, Starting and Accepting the configuration; Guarantees states
--   each command's effect case by case; Examples and Scenes hold the witnesses.
-- - Admission.Acquire (scheduler.go): the caller's side of `Acquire`, before the mailbox (`prepare`)
--   and after it (`await`, where the way its selects go is an argument); Acquiring holds the
--   proofs. Senders: the other callers (`BeginDrain` is `begin_drain_call`, and so on) and Closing
--   (`Close`), with their proofs. What happens while a caller waits, the end of its context included,
--   is a sequence that its select reads.
-- - Contract.Decoding, Json (internal/contract/jsonscan.go): `contextDecoder` over a token decoder that
--   is a parameter, and the strict scan, `validateJSONDocument` as `validate_json_document`. Course is
--   the monad of both; Ending, Documents, Scanning and Verdict hold the proofs. Hex and Escapes:
--   `decodeHexQuad` and `validUnicodeEscapes`. Reason (request.go): why a request is refused.
-- - Contract.Sse.Wire, Chunk, Decoder (internal/contract/sse.go): the lines of a stream over a buffered
--   reader that is a parameter, limited by `NewSSEDecoder` (`readSSELine` as `read_sse_line`), the JSON
--   of an event, and `Next` and `VerifyEOF` as `next` and `verify_eof`. Lines, Checks, Events, Transcripts, Delivery and Completions
--   hold the proofs, Streams the sequences of calls, Scenes and Examples the witnesses.
-- - Contract.Objects (sse.go, response.go): the check of the field `object`, which both run; Escaping,
--   Members, Getting and Completing hold the proofs. Contract.Response (response.go): `Parse` as `parse_response`;
--   Validated holds the proofs.
-- - Contract.Request (request.go, decode.go): Types, the data; Reading, `decodeRequest` and what it
--   calls; Parsing, `NewParser`, `Parse` and `reservationUnits`. Messages, Fields, Accepted and
--   Reserving hold the proofs.
-- - Contract.Readers (request.go, response.go, sse.go): the readers of a body, with their proofs.
-- - HttpApi.Limits, Config (internal/httpapi/config.go and the limits of internal/contract): the HTTP
--   policy, `validateHandlerConfig` as `validate_handler`; Envelopes holds the proofs.
--   PreDispatch (handler.go): the slots of `acquirePreDispatch` and `release`, with their proofs.
-- - Server.Config (internal/server/config.go): the server's bounds, `validateConfig` as
--   `validate_server`; Server.Bounds holds the proofs, Server.Examples the witnesses.
--
-- Numbers of Go's uint64 are natural numbers with the wrap-around written out. An instant is a
-- number of nanoseconds. A pointer to an entry is its ID, and the entry is what the map holds. The
-- clock and the clients' contexts are the record `Env`, which is asked anew at each read and may
-- answer anything. Ghost fields of the state record what the result channels and the permits'
-- contexts were sent, the IDs received and the number of reads. In Contract a context is a function
-- from the number of times that it was asked to whether it gives an error, and texts are lists of
-- bytes.
--
-- Fuel: the loops over one queue run on its length, those over the heap on its size; the pump's
-- outer loop on the queued entries and the credit still missing up to the cap, since each of its
-- rounds takes an entry off a queue, funds a tenant by a unit at least or closes a visit. The scan of
-- JSON runs on twice the body's bytes, since a token takes a byte at least and two calls at most come
-- between two tokens; the loop over a line on the limit of an event, since each full buffer counts a
-- byte at least towards it; the loops over a request's fields and messages on the body's bytes.
--
-- Not modelled: the channels themselves and the timer, which are the environment's; the array layout
-- of the heap, which its users do not see; the rest of the HTTP handler, the server's lifecycle and
-- the policy file, which use the parts above; the texts of the errors; the tools, which are no part
-- of the program.

-- SSEmaphore: a model of its admission scheduler.
mod Prelude
pub mod Admission
pub mod Server
pub mod HttpApi
pub mod Contract
