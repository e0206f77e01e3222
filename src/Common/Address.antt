-- ===== src/Common/Address.antt =====
-- example/iperf-bats/iperf_common.cc: ReadIPAddress on Linux. What getifaddrs and inet_ntop answer
-- is given.

-- One entry of the list: its name, whether it has an address, whether that is one of AF_INET, and
-- its text.
use bats_protocol_api.Prelude.Octets.{Octets, is_empty, octets_eq, codes}
use bats_protocol_api.Prelude.{Option, Bool, List, ◌∷◌, if◌then◌else◌, ◌&&◌, [], some, none, ◌||◌}

pub record Interface : Type 0 where
  pub name : Octets
  pub has_address : Bool
  pub is_inet : Bool
  pub text : Option Octets

-- The first interface of that name whose address has a text.
unfoldable pub find_address : Octets → List Interface → Octets
find_address name [] = []
find_address name (i ∷ interfaces) =
    if i.has_address && (octets_eq i.name name && i.is_inet)
    then elim i.text [ none ↦ find_address name interfaces | some text ↦ text ]
    else find_address name interfaces

-- No list is an error of getifaddrs.
unfoldable pub read_ip_address : Option (List Interface) → Octets → Octets
read_ip_address interfaces name =
    if is_empty name
    then []
    else if octets_eq name (codes "loopback") || octets_eq name (codes "lo")
    then codes "127.0.0.1"
    else elim interfaces [ none ↦ [] | some list ↦ find_address name list ]
