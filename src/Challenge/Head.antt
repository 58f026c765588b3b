-- ===== src/Challenge/Head.antt =====
-- The head of a challenge: the first part of `buildSettlementChallengePlan` of
-- cmd/wolochaind/cmd/settlement_challenge.go.
use wolochain.Prelude.{
  Bool, true, false, not, ◌&&◌, List, [], ◌∷◌, ◌++◌, none, ◌==◌, if◌then◌else◌, is_empty, length,
  take,
}
use wolochain.Text.{Text, text, trim_space}
use wolochain.Fallible.{Fallible, ok, fail}
use wolochain.Codes.{Status, FailureCode}
use wolochain.Config.{Config}
use wolochain.Request.{is_wolo_address, matches_request_id, matches_source_event}
use wolochain.Run.{RunRequest}
use wolochain.Run.Head.{error_list, fallible_error, ok_or, normalize_metadata_id, validate_run_id}
use wolochain.Challenge.{ChallengeRequest, NormalizedChallenge, ChallengeResponse}

-- `settlementChallengeResponse{}`
abbrev pub blank_challenge : ChallengeResponse
blank_challenge = record {
  succeeded = false;
  dry_run = false;
  status = Status.no_status;
  failure_code = FailureCode.no_failure;
  retryable = false;
  idempotent_replay = false;
  settlement_run_id = [];
  source_app = [];
  challenge_id = [];
  source_event_id = [];
  treasury_address = [];
  note = [];
  memo = [];
  participant_count = 0;
  funding_count = 0;
  funding_verified_count = 0;
  requested_transfer_count = 0;
  executed_transfer_count = 0;
  confirmed_transfer_count = 0;
  accepted_transfer_count = 0;
  refused_transfer_count = 0;
  rejected_transfer_count = 0;
  replay_transfer_count = 0;
  funding_total_uwolo = [];
  funding_total_wolo = [];
  requested_total_uwolo = [];
  requested_total_wolo = [];
  executed_total_uwolo = [];
  executed_total_wolo = [];
  confirmed_total_uwolo = [];
  confirmed_total_wolo = [];
  accepted_total_uwolo = [];
  accepted_total_wolo = [];
  refused_total_uwolo = [];
  refused_total_wolo = [];
  rejected_total_uwolo = [];
  rejected_total_wolo = [];
  bucket_totals = [];
  top_up = none;
  detail = [];
  funding = [];
  transfers = [];
  run = none;
}

-- `settlementRunRequest{}`
abbrev pub blank_run_request : RunRequest
blank_run_request = record {
  settlement_run_id = [];
  source_app = [];
  source_event_id = [];
  note = [];
  memo = [];
  signer_role = [];
  payouts = [];
}

pub record ChallengeHead : Type 0 where
  pub settlement_id : Text
  pub source_app : Text
  pub challenge_id : Text
  pub source_event_id : Text
  pub treasury_address : Text
  pub note : Text
  pub memo : Text
  pub errors : List Text

abbrev error_if : Bool → Text → List Text
error_if test message = if test then message ∷ [] else []

abbrev source_app_error : Fallible Text → List Text
source_app_error (fail e) = e ∷ []
source_app_error (ok app) = error_if (is_empty app) (text "source_app is required")

unfoldable pub read_challenge_head : Config → ChallengeRequest → ChallengeHead
read_challenge_head cfg request =
    let id = trim_space request.settlement_run_id in
    let source_app = trim_space request.source_app in
    let challenge_id = trim_space request.challenge_id in
    let source_event_id = trim_space request.source_event_id in
    let given_treasury = trim_space request.treasury_address in
    let treasury =
      if is_empty given_treasury then trim_space cfg.treasury_address else given_treasury in
    let app = normalize_metadata_id (text "source_app") source_app 64 matches_request_id in
    let challenge =
      normalize_metadata_id (text "challenge_id") challenge_id 128 matches_source_event in
    let event =
      normalize_metadata_id (text "source_event_id") source_event_id 128 matches_source_event in
    let challenge_read = ok_or challenge_id challenge in
    let event_read = ok_or source_event_id event in
    record {
      settlement_id = id;
      source_app = ok_or source_app app;
      challenge_id = challenge_read;
      source_event_id = event_read;
      treasury_address = treasury;
      note = take 280 (trim_space request.note);
      memo = take 180 (trim_space request.memo);
      errors =
          error_list (validate_run_id id)
          ++ (source_app_error app
              ++ (fallible_error challenge
                  ++ (fallible_error event
                      ++ (error_if (is_empty challenge_read && is_empty event_read)
                            (text "challenge_id or source_event_id is required")
                          ++ (error_if
                                (not (is_empty treasury)
                                  && not (is_wolo_address treasury cfg.address_prefix))
                                (text "treasury_address must be a valid WOLO address")
                              ++ (error_if (length request.funding == 0) (
                                    text
                                      "funding must contain at least one verified escrow deposit")
                                  ++ error_if (length request.transfers == 0) (
                                      text
                                        "transfers must contain at least one bucket movement")))))));
    }

unfoldable pub challenge_base : ChallengeRequest → ChallengeHead → ChallengeResponse
challenge_base request head = record blank_challenge {
  dry_run = true;
  status = Status.failed;
  settlement_run_id = head.settlement_id;
  source_app = head.source_app;
  challenge_id = head.challenge_id;
  source_event_id = head.source_event_id;
  treasury_address = head.treasury_address;
  note = head.note;
  memo = head.memo;
  funding_count = length request.funding;
}

unfoldable pub normalized_base : ChallengeHead → NormalizedChallenge
normalized_base head = record {
  settlement_run_id = head.settlement_id;
  source_app = head.source_app;
  challenge_id = head.challenge_id;
  source_event_id = head.source_event_id;
  treasury_address = head.treasury_address;
  note = head.note;
  memo = head.memo;
  funding = [];
  transfers = [];
}
