-- ===== src/Lib.antt =====
-- The settlement service of WoloChain: a model of the code that pays out of the payout and the
-- escrow account of a chain, and its theorems. The service is the command of
-- cmd/wolochaind/cmd/settlement.go, with the escrow transfers and the challenge settlements of
-- cmd/wolochaind/cmd/settlement_challenge.go. Names of functions below are those files'.
--
-- The parts, and the files that model them:
--   * Prelude, Text, Decimal, Fallible: the helpers that the parts share. A Go string is its list of
--     bytes; Text has the functions of Go's `strings` package, Decimal the parsers and formats of
--     `strconv` with the ranges of `uint64` and `int64`, Fallible results that may be an error.
--   * Config (`settlementConfig`), Codes (the literals of statuses, outcomes and failure codes),
--     Responses (the answers), Run (the types of grouped runs), Node (what lies outside).
--   * Request: `normalizeSettlementRequest`, `normalizeAmountUWolo`. Request/Valid and
--     Request/Amount are about accepted requests and amounts.
--   * Capacity: `checkPayoutCapacity`, `checkReserveHealth` and their escrow twins; Capacity/Exact.
--   * Probe and Health: the questions to the chain and the key ring, and `buildHealthReport`.
--   * Urls, Transfers, Lookup: `lookupSettlementTx` and `waitForTxConfirmation`; Lookup/Wait and
--     Lookup/Matched.
--   * Json: what `json.MarshalIndent` and `json.Unmarshal` make of the state files, text by text
--     (Json/Requests, Json/Runs, Json/Challenges); Json/Plain.
--   * Table, World, Lock: the state directory, and `withRequestLock` and `withRunLock` around an
--     action; Lock/Exclusive and Lock/Runs.
--   * Broadcast: `broadcastPayout` and `broadcastEscrowTransfer`; Broadcast/Outcome and
--     Broadcast/Unanswered.
--   * Execute: `executeSettlement` and `executeEscrowTransfer`, one definition with the signer as its
--     parameter; Execute/Preflight, Execute/Replay (with Execute/Replay/Ascii), Execute/Sends and
--     Execute/Answered.
--   * Run/Head, Run/Duplicates and Run/Prepare (`prepareSettlementRunRequest`), Run/Blank (its zero
--     values), Run/Tally and Run/Finalize (`finalizeSettlementRunResponse`),
--     Run/Plan (`buildSettlementRunPlan`, `validateSettlementRun`), Run/TopUp
--     (`topUpPayoutSignerForSettlementRun`) and Run/Execute (`executeSettlementRun`), each with
--     child modules for its theorems.
--   * Query: `url.ParseQuery`, for the memo of a deposit.
--   * Challenge (the types of challenges), Challenge/Memo (`parseChallengeFundingResult`),
--     Challenge/Deposit (`verifyChallengeFundingDeposit`), Challenge/Transfers
--     (`normalizeSettlementChallengeTransfer` and the participants), Challenge/Head, Challenge/Lines
--     and Challenge/Plan (`buildSettlementChallengePlan`), Challenge/Finalize
--     (`finalizeSettlementChallengeResponse`), Challenge/TopUp (`buildChallengeTopUpPlan`,
--     `executeChallengeTopUp`) and Challenge/Execute (`executeSettlementChallenge`), each with child
--     modules for its theorems.
--   * Challenge/Audit (the types of audits), with Deposits, Allocation, RunState, Payments, TopUp and
--     Report (`auditSettlementChallenge` of cmd/wolochaind/cmd/settlement_challenge_audit.go).
--   * Http: the routes of `newSettlementHTTPHandler` for health, payouts and runs, with `checkAuth` and
--     `validateServeSafety`; Http/Auth.
--   * Tests: a concrete outside on which every statement is tried.
--
-- How they interact. A request is normalized and then executed under the lock of its id: the state
-- file of the id decides between a replay, a conflict and an attempt; an attempt is a preflight (the
-- health report for the payout signer, a shorter list of questions for escrow, both closed by a
-- capacity check), then the broadcast, then the state file. A run is prepared, planned against the
-- balance of its signer, and executed under its own lock as one request after the other. A challenge
-- looks up its deposits, allocates its transfers to their buckets, plans a run of them and a top-up of
-- the payout signer, and executes both under its own lock. An audit reads the state files of a
-- challenge, its run and its requests, asks the chain again, and lists what does not agree.
--
-- The state is a `World`: the state files of requests, of runs and of challenges, the lock files, a log of the
-- commands that have sent a transaction, and the outside, of any type `C`. An operation of the
-- outside is a field of `Node C` that may change `C` and answer anything: nothing is assumed of the
-- chain, the disk and the clock but where a theorem names a hypothesis. A Go function that returns
-- an error is an `Action` whose first component is a `Fallible`.
--
-- Bounds. Amounts and balances are natural numbers below 2^64, as the parser yields them; sums of the
-- code that may wrap around are written with `% 2 ^ 64`, its `int64` product with the two's
-- complement. A decimal is printed with fuel for 20 digits, which every `uint64` fits. The polling
-- has one round for each nanosecond of the confirmation timeout and two more; Lookup/Wait is
-- about them.
--
-- A state file is kept as it is read back: a byte that is not part of a UTF-8 sequence has become
-- U+FFFD in every text of the record; the digest of a record is hex digits and stays. Reading a file
-- that is no JSON is the case of a file that cannot be read.
--
-- What is not modelled: the timeouts of contexts other than as answers of the outside; white space
-- and letter case outside ASCII; a removal of a lock file that fails, and the race of two processes
-- for one file, other than that a file may turn out not to be creatable; the times in records; the
-- logging; the quoting of `%q` for texts with quotes or control characters; Go's order of map
-- iteration, for which the order of the lines stands. Of the repository, the views of recent records,
-- the other HTTP routes and the chain application in app and x/wolochain are left out: those routes
-- are views of records, and the application is the wiring of Cosmos SDK modules.
pub mod Prelude
pub mod Text
pub mod Decimal
pub mod Fallible
pub mod Challenge
pub mod Codes
pub mod Config
pub mod Request
pub mod Capacity
pub mod Responses
pub mod Node
pub mod Urls
pub mod Probe
pub mod Health
pub mod Transfers
pub mod Lookup
pub mod Query
pub mod Table
pub mod Run
pub mod World
pub mod Json
pub mod Lock
pub mod Broadcast
pub mod Execute
pub mod Http
pub mod Tests
