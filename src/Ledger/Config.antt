-- ===== src/Ledger/Config.antt =====
-- The configuration of the ledger, `loadCredentialLedgerConfigFromEnv`.
use dataspace_ica_ts.Common.{
  String, Bool, false, not, ◌&&◌, ◌||◌, Option, none, some, ◌==◌, is_empty, ◌|||◌, if◌then◌else◌,
}
use dataspace_ica_ts.Text.{trim, to_lower}
use dataspace_ica_ts.Config.Network.{NetworkKind, network_name}

-- The variables of the environment that are read.
pub record LedgerEnv : Type 0 where
  pub network_mode : Option String
  pub ledger_enabled : Option String
  pub ledger_required : Option String
  pub ledger_channel : Option String
  pub ledger_chaincode : Option String
  pub fabric_msp_id : Option String

pub record CredentialLedgerConfig : Type 0 where
  pub enabled : Bool
  pub required : Bool
  pub network_mode : String
  pub channel_name : String
  pub chaincode_name : String
  pub msp_id : String

-- `parseBoolean`: a blank text is as good as none.
unfoldable pub parse_flag : Option String → Bool → Bool
parse_flag none fallback = fallback
parse_flag (some value) fallback =
    let text = to_lower (trim value) in
    if is_empty (trim value) then fallback else text == "true" || text == "1" || text == "yes"

-- `asString` of a variable.
abbrev pub text_of : Option String → String
text_of none = ""
text_of (some value) = trim value

abbrev pub requested_name : Option NetworkKind → String
requested_name none = ""
requested_name (some kind) = network_name kind

unfoldable pub network_mode_of : LedgerEnv → Option NetworkKind → String
network_mode_of env requested =
    requested_name requested ||| to_lower (text_of env.network_mode) ||| "test"

unfoldable pub load_credential_ledger_config :
    LedgerEnv → Option NetworkKind → CredentialLedgerConfig
unfolding parse_flag network_mode_of
load_credential_ledger_config env requested =
    let network_mode = network_mode_of env requested in
    let local_network = network_mode == "local-network" in
    let fabric_capable =
      local_network || network_mode == "test-network" || network_mode == "network" in
    let explicitly_enabled = parse_flag env.ledger_enabled false in
    let enabled =
      not (network_mode == "test") && fabric_capable && (local_network || explicitly_enabled) in
    record {
      enabled = enabled;
      required = parse_flag env.ledger_required enabled;
      network_mode = network_mode;
      channel_name =
          text_of env.ledger_channel
          ||| (if local_network then "identity-local" else "identity-global");
      chaincode_name = text_of env.ledger_chaincode ||| "credential-sc";
      msp_id = text_of env.fabric_msp_id ||| "Org1MSP";
    }
