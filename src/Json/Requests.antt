-- ===== src/Json/Requests.antt =====
-- The state file of a request as it is read back, field by field. Its digest is hex digits.
use wolochain.Request.{NormalizedRequest}
use wolochain.Responses.{ExecuteResponse, StoredResult}
use wolochain.Json.{json_text}

abbrev pub json_request : NormalizedRequest → NormalizedRequest
json_request r = record r {
  request_id = json_text r.request_id;
  to_address = json_text r.to_address;
  amount_uwolo = json_text r.amount_uwolo;
  memo = json_text r.memo;
  signer_role = json_text r.signer_role;
}

abbrev pub json_response : ExecuteResponse → ExecuteResponse
json_response r = record r {
  request_id = json_text r.request_id;
  chain_id = json_text r.chain_id;
  signer_role = json_text r.signer_role;
  signer_address = json_text r.signer_address;
  to_address = json_text r.to_address;
  amount_uwolo = json_text r.amount_uwolo;
  amount_wolo = json_text r.amount_wolo;
  broadcast_mode = json_text r.broadcast_mode;
  tx_hash = json_text r.tx_hash;
  codespace = json_text r.codespace;
  raw_log = json_text r.raw_log;
  detail = json_text r.detail;
  canonical_tx_lookup = json_text r.canonical_tx_lookup;
  canonical_tx_lookup_preferred = json_text r.canonical_tx_lookup_preferred;
  canonical_tx_lookup_internal = json_text r.canonical_tx_lookup_internal;
  canonical_tx_lookup_public = json_text r.canonical_tx_lookup_public;
}

abbrev pub json_stored_result : StoredResult → StoredResult
json_stored_result r = record r {
  request = json_request r.request;
  response = json_response r.response;
}
