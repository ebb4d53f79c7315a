-- ===== src/Config/Network.antt =====
-- src/api/network-kind.ts
use dataspace_ica_ts.Common.{String, Bool, true, false, Option, none, some, ◌==◌, if◌then◌else◌}
use dataspace_ica_ts.Text.{trim, to_lower}

pub data NetworkKind : Type 0 where
  test local_network test_network network : NetworkKind

abbrev pub network_name : NetworkKind → String
network_name test = "test"
network_name local_network = "local-network"
network_name test_network = "test-network"
network_name network = "network"

unfoldable pub parse_network_kind : String → Option NetworkKind
parse_network_kind value =
    let normalized = to_lower (trim value) in
    if normalized == "terms"
    then some test
    else if normalized == "test"
    then some test
    else if normalized == "local-network"
    then some local_network
    else if normalized == "test-network"
    then some test_network
    else if normalized == "network"
    then some network
    else none

unfoldable pub is_fabric_network_kind : NetworkKind → Bool
is_fabric_network_kind test = false
is_fabric_network_kind local_network = true
is_fabric_network_kind test_network = true
is_fabric_network_kind network = true
