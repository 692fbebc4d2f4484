-- ===== src/Caches/NodeIpCache.antt =====
-- pkg/daemon/controller/nodeipcache.go: the VTEP hardware address behind each node address. Parsing a
-- hardware address, net.ParseMAC, and the texts of addresses are parameters.
pub mod Searches
use container_advanced_netwo.Common.{
  Bool, true, false, ite, if◌then◌else◌, ◌||◌, Option, none, some, List, [], ◌∷◌, String, str_dec,
}
use container_advanced_netwo.Common.Map
use container_advanced_netwo.Common.Map.{Map}
use container_advanced_netwo.Net.{NetIp, IpText}

-- VTEPInfo of a NodeInfo or of a RemoteVtep.
pub record VtepInfo : Type 0 where
  pub ip : String
  pub mac : String
  pub local_ips : List String

pub record NodeInfo : Type 0 where
  pub name : String
  pub vtep_info : Option VtepInfo

module _ {Mac : Type 0} (parse_mac : String → Option Mac) where
  -- The inner loops of UpdateNodeIPs.
  unfoldable pub set_all : List String → Mac → Map Mac → Map Mac
  set_all [] mac m = m
  set_all (ip ∷ ips) mac m = set_all ips mac (Map.put ip mac m)

  abbrev pub is_nil_list : List String → Bool
  is_nil_list [] = true
  is_nil_list (_ ∷ _) = false

  -- One node of the first loop. `none` is the error of a hardware address that does not parse.
  unfoldable pub add_vtep : VtepInfo → Map Mac → Option (Map Mac)
  add_vtep vtep m =
      if ite (str_dec vtep.ip "") true false || is_nil_list vtep.local_ips
      then some m
      else elim (parse_mac vtep.mac) [
        | none ↦ none
        | some mac ↦ some (set_all vtep.local_ips mac m)
      ]

  unfoldable pub add_node : String → NodeInfo → Map Mac → Option (Map Mac)
  add_node local_node_name node m =
      ite (str_dec node.name local_node_name) (some m)
        (elim node.vtep_info [ none ↦ some m | some vtep ↦ add_vtep vtep m ])

  -- One entry of the second loop.
  unfoldable pub add_remote : VtepInfo → Map Mac → Option (Map Mac)
  add_remote vtep m = elim (parse_mac vtep.mac) [
    | none ↦ none
    | some mac ↦
        if is_nil_list vtep.local_ips
        then some (Map.put vtep.ip mac m)
        else some (set_all vtep.local_ips mac m)
  ]

  -- The loops: the table so far, and whether the loop has come to its end.
  unfoldable pub add_nodes : String → List NodeInfo → Map Mac → Map Mac × Bool
  add_nodes local_node_name [] m = (m, true)
  add_nodes local_node_name (node ∷ nodes) m = elim (add_node local_node_name node m) [
    | none ↦ (m, false)
    | some m' ↦ add_nodes local_node_name nodes m'
  ]

  unfoldable pub add_remotes : List VtepInfo → Map Mac → Map Mac × Bool
  add_remotes [] m = (m, true)
  add_remotes (vtep ∷ vteps) m = elim (add_remote vtep m) [
    | none ↦ (m, false)
    | some m' ↦ add_remotes vteps m'
  ]

  -- UpdateNodeIPs: the new table, which an error leaves half filled, and whether there was no error.
  unfoldable pub update_node_ips : List NodeInfo → String → List VtepInfo → Map Mac × Bool
  update_node_ips nodes local_node_name vteps =
      let (m, good) = add_nodes local_node_name nodes [] in
      if good then add_remotes vteps m else (m, false)

  -- SearchIP: the table has texts of addresses as the objects spell them, and is asked for IP.String.
  unfoldable pub search_ip : IpText → NetIp → Map Mac → Option Mac
  search_ip t ip m = Map.get (t.print_ip ip) m
