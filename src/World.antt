-- ===== src/World.antt =====
-- The state of a settlement process: its state directory, and the outside. Writes go to a
-- temporary file that is renamed (`writeSettlementStoredResult` of
-- cmd/wolochaind/cmd/settlement.go), so a state file is written whole or not at all;
-- what it holds is what JSON makes of what was written.
use wolochain.Prelude.{ℕ, List, ◌++◌, none, some}
use wolochain.Text.{Text, text}
use wolochain.Fallible.{Fallible, ok, fail}
use wolochain.Config.{Config}
use wolochain.Request.{NormalizedRequest}
use wolochain.Responses.{ExecuteResponse, StoredResult}
use wolochain.Run.{RunStoredResult}
use wolochain.Challenge.{ChallengeStoredResult}
use wolochain.Json.Requests.{json_stored_result}
use wolochain.Json.Runs.{json_run_stored_result}
use wolochain.Json.Challenges.{json_challenge_stored_result}
use wolochain.Table.{request_key, run_key, challenge_key, Table, put}
use wolochain.Node.{Node}

-- A state file: one that cannot be read, with the error, or its content as it is read back.
pub data File (A : Type 0) : Type 0 where
  unreadable : Text → File A
  content : A → File A

pub record World (C : Type 0) : Type 0 where
  pub env : C
  pub requests : Table (File StoredResult)
  pub runs : Table (File RunStoredResult)
  pub challenges : Table (File ChallengeStoredResult)
  -- the lock files, with the times at which they were written
  pub locks : Table ℕ
  -- the arguments of every command that has sent a transaction, the latest first
  pub sent : List (List Text)

abbrev pub Action : Type 0 → Type 0 → Type 0
Action C A = World C → Fallible A × World C

abbrev pub set_env : {C : Type 0} → World C → C → World C
set_env w c = record w { env = c }

module _ {C : Type 0} (node : Node C) (cfg : Config) where
  unfoldable pub request_record_path : Text → Text
  request_record_path id = cfg.state_dir ++ (text "/requests/" ++ (id ++ text ".json"))

  unfoldable pub request_lock_path : Text → Text
  request_lock_path id = cfg.state_dir ++ (text "/locks/" ++ (id ++ text ".lock"))

  unfoldable pub run_record_path : Text → Text
  run_record_path id = cfg.state_dir ++ (text "/runs/" ++ (id ++ text ".json"))

  unfoldable pub run_lock_path : Text → Text
  run_lock_path id = cfg.state_dir ++ (text "/run-locks/" ++ (id ++ text ".lock"))

  unfoldable pub challenge_record_path : Text → Text
  challenge_record_path id =
      cfg.state_dir ++ (text "/challenge-settlements/" ++ (id ++ text ".json"))

  unfoldable pub challenge_lock_path : Text → Text
  challenge_lock_path id = cfg.state_dir ++ (text "/challenge-locks/" ++ (id ++ text ".lock"))

  -- `writeSettlementStoredResult`, on the disk that may refuse
  unfoldable pub write_stored_result : Text → StoredResult → Action C (Unit {0})
  write_stored_result id result w =
      let (error, c) = node.write_file (request_record_path id) w.env in
      elim error [
        | some e ↦ (fail e, set_env w c)
        | none ↦ (
          ok tt,
          record w {
            env = c;
            requests = put (request_key id) (content (json_stored_result result)) w.requests;
          },
        )
      ]

  unfoldable pub write_run_stored_result : Text → RunStoredResult → Action C (Unit {0})
  write_run_stored_result id result w =
      let (error, c) = node.write_file (run_record_path id) w.env in
      elim error [
        | some e ↦ (fail e, set_env w c)
        | none ↦ (
          ok tt,
          record w {
            env = c;
            runs = put (run_key id) (content (json_run_stored_result result)) w.runs;
          },
        )
      ]

  unfoldable pub write_challenge_stored_result : Text → ChallengeStoredResult → Action C (Unit {0})
  write_challenge_stored_result id result w =
      let (error, c) = node.write_file (challenge_record_path id) w.env in
      elim error [
        | some e ↦ (fail e, set_env w c)
        | none ↦ (
          ok tt,
          record w {
            env = c;
            challenges =
                put (challenge_key id) (content (json_challenge_stored_result result)) w.challenges;
          },
        )
      ]

  unfoldable pub write_settlement_record :
      NormalizedRequest → Text → ExecuteResponse → Action C (Unit {0})
  write_settlement_record request signer_address response =
      write_stored_result request.request_id (record {
        request = request;
        fingerprint = node.fingerprint request signer_address;
        response = response;
      })
