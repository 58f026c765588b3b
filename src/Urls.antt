-- ===== src/Urls.antt =====
-- The addresses of transactions at the REST endpoint: `txLookupURL`, `publicTxLookupURL` and
-- `preferredTxLookupURL` of cmd/wolochaind/cmd/settlement.go.
use wolochain.Prelude.{not, [], ◌++◌, if◌then◌else◌, is_empty}
use wolochain.Text.{Text, text, trim_space, trim_slashes, path_escape}
use wolochain.Config.{Config}

-- The path of a transaction, or of the template where there is no hash.
abbrev tx_path : Text → Text
tx_path hash =
    if is_empty hash
    then text "/cosmos/tx/v1beta1/txs/{tx_hash}"
    else text "/cosmos/tx/v1beta1/txs/" ++ path_escape hash

unfoldable pub tx_lookup_url : Config → Text → Text
tx_lookup_url cfg hash = trim_slashes cfg.rest_url ++ tx_path hash

unfoldable pub public_tx_lookup_url : Config → Text → Text
public_tx_lookup_url cfg hash =
    if is_empty (trim_space cfg.public_rest_url)
    then []
    else trim_slashes cfg.public_rest_url ++ tx_path hash

unfoldable pub preferred_tx_lookup_url : Config → Text → Text
preferred_tx_lookup_url cfg hash =
    let public_url = public_tx_lookup_url cfg hash in
    if not (is_empty public_url) then public_url else tx_lookup_url cfg hash
