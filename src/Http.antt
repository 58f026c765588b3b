-- ===== src/Http.antt =====
-- The routes of `newSettlementHTTPHandler` of cmd/wolochaind/cmd/settlement.go that move money or
-- answer for it, with `checkAuth` and `validateServeSafety`. The JSON of a body is decoded outside:
-- a request carries what the decoder makes of it.
pub mod Auth
use wolochain.Prelude.{
  ℕ, Bool, true, false, not, [], ◌∷◌, ◌++◌, Option, none, some, if◌then◌else◌, is_empty,
}
use wolochain.Text.{Text, text, text_eq, trim_space}
use wolochain.Fallible.{Fallible, ok, fail, require}
use wolochain.Codes.{Status, FailureCode, is_invalid_run, is_invalid_request}
use wolochain.Config.{Config, payout_role}
use wolochain.Request.{ExecuteRequest}
use wolochain.Responses.{ExecuteResponse, HealthResponse, blank_response}
use wolochain.Node.{Node}
use wolochain.Probe.{listen_addr_is_loopback}
use wolochain.Health.{build_health_report}
use wolochain.World.{World, set_env}
use wolochain.Execute.{execute_settlement}
use wolochain.Run.{RunRequest, RunResponse}
use wolochain.Run.Plan.{validate_run}
use wolochain.Run.Execute.{execute_run}
use wolochain.Run.Blank.{blank_run}

-- A request with a body of some type; `none` where the body is no JSON of that type.
pub record HttpRequest (Body : Type 0) : Type 0 where
  pub method : Text
  pub authorization : Text
  pub body : Option Body

-- The bodies of the answers: a message, or one of the service's responses.
pub data HttpBody : Type 0 where
  message : Text → HttpBody
  health : HealthResponse → HttpBody
  executed : ExecuteResponse → HttpBody
  run : RunResponse → HttpBody

pub record HttpResponse : Type 0 where
  pub code : ℕ
  pub body : HttpBody

abbrev pub answer : ℕ → HttpBody → HttpResponse
answer code body = record { code = code; body = body }

unfoldable pub check_auth : Config → Text → Fallible (Unit {0})
check_auth cfg authorization =
    if is_empty cfg.auth_token
    then ok tt
    else if not (text_eq (trim_space authorization) (text "Bearer " ++ cfg.auth_token))
    then fail (text "missing or invalid bearer token")
    else ok tt

abbrev conflict_code : Bool → Bool → ℕ
conflict_code succeeded invalid = if succeeded then 200 else if invalid then 400 else 409

-- What is written for a response, and for an error of the code.
unfoldable pub payout_answer : Fallible ExecuteResponse → HttpResponse
payout_answer (fail e) = answer 500 (message e)
payout_answer (ok r) =
    answer (conflict_code r.succeeded (is_invalid_request r.failure_code)) (executed r)

unfoldable pub run_answer : Fallible RunResponse → HttpResponse
run_answer (fail e) = answer 500 (message e)
run_answer (ok r) = answer (conflict_code r.succeeded (is_invalid_run r.failure_code)) (run r)

unfoldable pub invalid_run_body : Bool → RunResponse
invalid_run_body dry_run = record blank_run {
  dry_run = dry_run;
  status = Status.failed;
  failure_code = FailureCode.invalid_run;
  detail = text "request body must be valid JSON";
}

module _ {C : Type 0} (node : Node C) (cfg : Config) where
  unfoldable pub validate_serve_safety : Fallible (Unit {0})
  validate_serve_safety =
      if not (is_empty cfg.auth_token)
      then ok tt
      else if listen_addr_is_loopback node cfg
      then ok tt
      else fail (
          text
            "WOLO_SETTLEMENT_AUTH_TOKEN is required when binding settlement serve beyond localhost")

  -- The guards that the routes with a body share: the method, then the token.
  unfoldable pub guarded :
      {Body : Type 0}
      → HttpRequest Body
      → (World C → HttpResponse × World C)
      → World C
      → HttpResponse × World C
  guarded request serve w =
      let served = serve w in
      if not (text_eq request.method (text "POST"))
      then (answer 405 (message (text "method not allowed")), w)
      else elim (check_auth cfg request.authorization) [
        | fail e ↦ (answer 401 (message e), w)
        | ok _ ↦ served
      ]

  unfoldable pub serve_health : HttpRequest (Unit {0}) → World C → HttpResponse × World C
  serve_health request w =
      let (report, c) = build_health_report node cfg w.env in
      if not (text_eq request.method (text "GET"))
      then (answer 405 (message (text "method not allowed")), w)
      else (answer (if report.healthy then 200 else 503) (health report), set_env w c)

  unfoldable pub serve_payout : HttpRequest ExecuteRequest → World C → HttpResponse × World C
  serve_payout request = guarded request (λ w. elim request.body [
    | none ↦ (
      answer 400 (
          executed (record blank_response {
            status = Status.failed;
            failure_code = FailureCode.invalid_request;
            detail = text "request body must be valid JSON";
            chain_id = cfg.chain_id;
            signer_role = payout_role;
          })),
      w,
    )
    | some body ↦ (let (r, w') = execute_settlement node cfg body w in (payout_answer r, w'))
  ])

  unfoldable pub serve_validate_run : HttpRequest RunRequest → World C → HttpResponse × World C
  serve_validate_run request = guarded request (λ w. elim request.body [
    | none ↦ (answer 400 (run (invalid_run_body true)), w)
    | some body ↦
        (let (r, c) = validate_run node cfg body w.env in (run_answer (ok r), set_env w c))
  ])

  unfoldable pub serve_run : HttpRequest RunRequest → World C → HttpResponse × World C
  serve_run request = guarded request (λ w. elim request.body [
    | none ↦ (answer 400 (run (invalid_run_body false)), w)
    | some body ↦ (let (r, w') = execute_run node cfg body w in (run_answer r, w'))
  ])
