-- ===== src/Challenge/TopUp.antt =====
-- The top-up of the payout signer in front of a challenge: `buildChallengeTopUpPlan`,
-- `executeChallengeTopUp` and `deriveSettlementChallengeTopUpRequestID` of
-- cmd/wolochaind/cmd/settlement_challenge.go.
use wolochain.Prelude.{
  ℕ, ◌+◌, ◌-◌, ◌%◌, true, false, not, ◌&&◌, ◌||◌, [], ◌++◌, Option, none, some, ltb, leb, ◌==◌,
  if◌then◌else◌, is_empty, take,
}
use wolochain.Text.{Text, text, trim_space}
use wolochain.Decimal.{ℤ, u64_mod, format_uint, format_display_amount, parse_optional_uwolo}
use wolochain.Fallible.{Fallible, ok, fail}
use wolochain.Codes.{Status, FailureCode, is_accepted}
use wolochain.Config.{Config, escrow_role}
use wolochain.Responses.{ExecuteResponse}
use wolochain.Node.{Node}
use wolochain.Probe.{resolve_escrow_address, fetch_account_balance_uwolo}
use wolochain.World.{Action, set_env}
use wolochain.Execute.{execute_escrow_transfer}
use wolochain.Run.{RunResponse}
use wolochain.Run.Tally.{add_u64}
use wolochain.Challenge.{TopUpResult}
use wolochain.Challenge.Transfers.{amount_of}

unfoldable pub derive_top_up_request_id : Text → Text
derive_top_up_request_id id = id ++ text ":topup"

-- `%s uwolo (%s wolo)`
abbrev show_amounts : Text → Text → Text
show_amounts uwolo wolo = uwolo ++ (text " uwolo (" ++ (wolo ++ text " wolo)"))

-- A difference in an `uint64`, which wraps around.
abbrev pub sub_u64 : ℕ → ℕ → ℕ
sub_u64 a b = (a + u64_mod - b) % u64_mod

-- One of the two tests that raise the required balance to a floor.
abbrev raise_to : ℕ → ℕ → ℕ → ℕ
raise_to floor requested required =
    if ltb (sub_u64 required requested) floor then add_u64 requested floor else required

module _ (cfg : Config) where
  -- The payout balance that a run needs, in an `uint64`.
  unfoldable pub required_payout_balance : ℕ → Text → ℕ
  required_payout_balance requested fees =
      let raised =
        raise_to cfg.fee_headroom_uwolo requested
          (raise_to cfg.min_payout_balance_uwolo requested requested) in
      elim (parse_optional_uwolo fees) [ none ↦ raised | some fee ↦ add_u64 raised fee ]

  unfoldable pub raw_top_up : Text → RunResponse → ℕ → ℕ → TopUpResult
  raw_top_up id run required shortfall = record {
    required = ltb 0 shortfall;
    enabled = cfg.escrow_auto_top_up;
    possible = shortfall == 0;
    failure_code = FailureCode.no_failure;
    detail = [];
    request_id = derive_top_up_request_id id;
    signer_role = escrow_role;
    from_address = [];
    to_address = trim_space cfg.payout_address;
    amount_uwolo = format_uint shortfall;
    amount_wolo = format_display_amount (format_uint shortfall);
    payout_balance_before_uwolo = run.payout_balance_before_uwolo;
    payout_balance_before_wolo = run.payout_balance_before_wolo;
    required_payout_balance_uwolo = format_uint required;
    required_payout_balance_wolo = format_display_amount (format_uint required);
    escrow_balance_uwolo = [];
    escrow_balance_wolo = [];
    response = none;
  }

  -- The plan once the balance of the escrow address is known.
  unfoldable pub top_up_on_balance : ℕ → TopUpResult → Fallible ℕ → TopUpResult
  top_up_on_balance shortfall p (fail e) = record p {
    failure_code = FailureCode.escrow_balance_lookup_failed;
    detail = e;
  }
  top_up_on_balance shortfall p (ok balance) =
      let shown : TopUpResult = record p {
        escrow_balance_uwolo = format_uint balance;
        escrow_balance_wolo = format_display_amount (format_uint balance);
      } in
      if ltb balance shortfall
      then record shown {
        failure_code = FailureCode.escrow_balance_too_low;
        detail =
            text "escrow balance "
            ++ (show_amounts shown.escrow_balance_uwolo shown.escrow_balance_wolo
                ++ (text " is below the required payout top-up "
                    ++ show_amounts p.amount_uwolo p.amount_wolo));
      }
      else record shown {
        possible = true;
        detail =
            if cfg.escrow_auto_top_up
            then text "escrow top-up of "
              ++ (show_amounts p.amount_uwolo p.amount_wolo
                  ++ (text " will raise the payout signer to "
                      ++ (show_amounts p.required_payout_balance_uwolo
                            p.required_payout_balance_wolo
                          ++ text " before challenge execution")))
            else text "escrow holds enough WOLO to top up the payout signer by "
              ++ (show_amounts p.amount_uwolo p.amount_wolo
                  ++ text ", but WOLO_SETTLEMENT_ESCROW_AUTO_TOP_UP_ENABLED is off");
      }

module _ {C : Type 0} (node : Node C) (cfg : Config) where
  unfoldable pub top_up_on_escrow : ℕ → TopUpResult → Fallible Text → C → TopUpResult × C
  top_up_on_escrow shortfall p (fail e) c =
      (record p { failure_code = FailureCode.escrow_top_up_unconfigured; detail = e }, c)
  top_up_on_escrow shortfall p (ok address) c =
      let (balance, c') = fetch_account_balance_uwolo node cfg address c in
      (top_up_on_balance cfg shortfall (record p { from_address = address }) balance, c')

  -- The plan of a shortfall.
  unfoldable pub plan_shortfall : ℕ → TopUpResult → C → TopUpResult × C
  plan_shortfall shortfall p c =
      let (address, c') = resolve_escrow_address node cfg c in
      let planned = top_up_on_escrow shortfall p address c' in
      if not p.required
      then (p, c)
      else if is_empty (trim_space cfg.payout_address)
      then (
        record p {
          failure_code = FailureCode.payout_signer_unavailable;
          detail = text "payout signer address is unavailable for challenge top-up planning";
        },
        c,
      )
      else if is_empty (trim_space cfg.escrow_key_name) || is_empty (trim_space cfg.escrow_address)
      then (
        record p {
          failure_code = FailureCode.escrow_top_up_unconfigured;
          detail =
              text
                "WOLO_SETTLEMENT_ESCROW_KEY_NAME and WOLO_SETTLEMENT_ESCROW_ADDRESS are required for escrow auto top-up";
        },
        c,
      )
      else planned

  unfoldable pub plan_top_up : Text → RunResponse → Option ℕ → Option ℕ → C → Option TopUpResult × C
  plan_top_up id run none requested c = (none, c)
  plan_top_up id run (some balance) none c = (none, c)
  plan_top_up id run (some balance) (some requested) c =
      let required = required_payout_balance cfg requested run.estimated_fee_total_uwolo in
      let shortfall = if ltb balance required then required - balance else 0 in
      let (p, c') = plan_shortfall shortfall (raw_top_up cfg id run required shortfall) c in
      (some p, c')

  -- `buildChallengeTopUpPlan`; its error is always nil.
  unfoldable pub build_top_up_plan : Text → RunResponse → C → Option TopUpResult × C
  build_top_up_plan id run c =
      let planned =
        plan_top_up id run (parse_optional_uwolo run.payout_balance_before_uwolo)
          (parse_optional_uwolo run.requested_total_uwolo) c in
      if is_empty run.payout_balance_before_uwolo then (none, c) else planned

  -- The top-up with the answer of its transfer.
  unfoldable pub answered_top_up : ExecuteResponse → TopUpResult → TopUpResult
  answered_top_up answer p = record p {
    response = some answer;
    failure_code = answer.failure_code;
    detail = answer.detail;
    signer_role = answer.signer_role;
    from_address = answer.signer_address;
    to_address = answer.to_address;
  }

  unfoldable pub pending_top_up : ExecuteResponse → TopUpResult → TopUpResult
  pending_top_up answer p =
      let message =
        text
          "escrow top-up broadcast was accepted but the payout balance has not reached the required level yet" in
      record p {
        response = some (record answer {
          succeeded = false;
          status = Status.failed;
          failure_code = FailureCode.escrow_top_up_pending_confirmation;
          retryable = true;
          detail = message;
        });
        failure_code = FailureCode.escrow_top_up_pending_confirmation;
        detail = message;
      }

  -- A top-up that is only accepted counts once the balance is there.
  unfoldable pub settle_top_up : ExecuteResponse → TopUpResult → Fallible ℕ → TopUpResult
  settle_top_up answer p (fail e) = pending_top_up answer p
  settle_top_up answer p (ok balance) =
      if leb (amount_of p.required_payout_balance_uwolo) balance then p else pending_top_up answer p

  unfoldable pub after_top_up : TopUpResult → ExecuteResponse → Action C TopUpResult
  after_top_up p answer w =
      let answered = answered_top_up answer p in
      let (balance, c) = fetch_account_balance_uwolo node cfg answered.to_address w.env in
      if answer.succeeded && is_accepted answer.status
      then (ok (settle_top_up answer answered balance), set_env w c)
      else (ok answered, w)

  unfoldable pub execute_challenge_top_up : Text → TopUpResult → Action C TopUpResult
  execute_challenge_top_up id p w =
      let (answer, w') =
        execute_escrow_transfer node cfg
          (record {
            request_id = p.request_id;
            to_address = p.to_address;
            amount_uwolo = p.amount_uwolo;
            amount_wolo = ℤ.pos 0;
            memo = take 180 (text "challenge top-up " ++ id);
          })
          w in
      if not p.required
      then (ok p, w)
      else elim answer [ fail e ↦ (fail e, w') | ok answer ↦ after_top_up p answer w' ]
