-- ===== src/Run/Head.antt =====
-- The head of a run request: the first part of `prepareSettlementRunRequest` of
-- cmd/wolochaind/cmd/settlement.go, with the checks that it calls.
use wolochain.Prelude.{
  ℕ, Bool, true, not, ◌||◌, List, [], ◌∷◌, ◌++◌, Option, none, some, ltb, ◌==◌, if◌then◌else◌,
  is_empty, length, take,
}
use wolochain.Text.{Text, text, text_eq, trim_space, to_lower}
use wolochain.Decimal.{format_uint}
use wolochain.Fallible.{Fallible, ok, fail}
use wolochain.Codes.{Status}
use wolochain.Config.{payout_role, escrow_role, max_run_payouts}
use wolochain.Request.{matches_request_id, matches_source_event}
use wolochain.Run.{RunRequest, RunResponse}
use wolochain.Run.Blank.{blank_run}

-- The role, and the error of a role that there is not.
unfoldable pub normalize_signer_role : Text → Text × Option Text
normalize_signer_role r =
    let normalized = trim_space (to_lower r) in
    if is_empty normalized
    then (payout_role, none)
    else if text_eq normalized payout_role || text_eq normalized escrow_role
    then (normalized, none)
    else (normalized, some (text "signer_role must be \"payout\" or \"escrow\""))

unfoldable pub validate_run_id : Text → Option Text
validate_run_id id =
    if not (matches_request_id id)
    then some (
        text
          "settlement_run_id must be 3-128 chars using letters, numbers, dot, underscore, colon, or dash")
    else if ltb 96 (length id)
    then some (
        text
          "settlement_run_id must be 96 chars or fewer so derived payout request ids remain stable")
    else none

unfoldable pub normalize_metadata_id : Text → Text → ℕ → (Text → Bool) → Fallible Text
normalize_metadata_id field value max_len matches =
    let trimmed = trim_space value in
    if is_empty trimmed
    then ok []
    else if ltb max_len (length trimmed)
    then fail (field ++ (text " must be " ++ (format_uint max_len ++ text " chars or fewer")))
    else if not (matches trimmed)
    then fail (field ++ text " uses unsupported characters")
    else ok trimmed

abbrev pub error_list : Option Text → List Text
error_list none = []
error_list (some e) = e ∷ []

abbrev pub fallible_error : Fallible Text → List Text
fallible_error (ok s) = []
fallible_error (fail e) = e ∷ []

abbrev pub ok_or : Text → Fallible Text → Text
ok_or s (ok t) = t
ok_or s (fail e) = s

abbrev pub join : List Text → Text
join [] = []
join (s ∷ []) = s
join (s ∷ t ∷ ts) = s ++ (text "; " ++ join (t ∷ ts))

-- What the head of a request comes to: its trimmed fields and its errors.
pub record Head : Type 0 where
  pub run_id : Text
  pub source_app : Text
  pub source_event_id : Text
  pub note : Text
  pub memo : Text
  pub signer_role : Text
  pub errors : List Text

unfoldable pub read_head : RunRequest → Head
read_head request =
    let run_id = trim_space request.settlement_run_id in
    let source_app = trim_space request.source_app in
    let source_event_id = trim_space request.source_event_id in
    let (signer_role, role_error) = normalize_signer_role request.signer_role in
    let app = normalize_metadata_id (text "source_app") source_app 64 matches_request_id in
    let event =
      normalize_metadata_id (text "source_event_id") source_event_id 128 matches_source_event in
    record {
      run_id = run_id;
      source_app = ok_or source_app app;
      source_event_id = ok_or source_event_id event;
      note = take 280 (trim_space request.note);
      memo = take 180 (trim_space request.memo);
      signer_role = signer_role;
      errors =
          error_list role_error
          ++ (error_list (validate_run_id run_id)
              ++ (fallible_error app
                  ++ (fallible_error event
                      ++ ((if length request.payouts == 0
                            then text "payouts must contain at least one payout" ∷ []
                            else [])
                          ++ (if ltb max_run_payouts (length request.payouts)
                              then text "payouts may contain at most 250 line items" ∷ []
                              else [])))));
    }

unfoldable pub head_response : Head → RunResponse
head_response head = record blank_run {
  dry_run = true;
  status = Status.failed;
  settlement_run_id = head.run_id;
  source_app = head.source_app;
  source_event_id = head.source_event_id;
  note = head.note;
  memo = head.memo;
  signer_role = head.signer_role;
}
