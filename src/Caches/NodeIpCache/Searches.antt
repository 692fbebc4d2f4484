-- ===== src/Caches/NodeIpCache/Searches.antt =====
-- What SearchIP finds after UpdateNodeIPs.
use container_advanced_netwo.Common.{
  ◌≡◌, refl, ◌⊎◌, inl, inr, ite, true, false, Bool-cases, Option-cases, Option, some, List, [], ◌∷◌,
  ◌++◌, String, arith, str_dec, elem,
}
use container_advanced_netwo.Common.Map
use container_advanced_netwo.Common.Map.{Map}
use container_advanced_netwo.Net.{NetIp, IpText}
use container_advanced_netwo.Caches.NodeIpCache.{
  VtepInfo, NodeInfo, set_all, add_node, add_nodes, add_remote, add_remotes, is_nil_list,
  update_node_ips, search_ip,
}

-- The nodes but those of a name.
unfoldable pub without : String → List NodeInfo → List NodeInfo
without name [] = []
without name (node ∷ nodes) =
    ite (str_dec node.name name) (without name nodes) (node ∷ without name nodes)

module _ {Mac : Type 0} (parse_mac : String → Option Mac) where
  add_node_local :
      (name : String) (node : NodeInfo) (m : Map Mac)
      → node.name ≡ name
      → add_node parse_mac name node m ≡ some m
  unfolding add_node
  add_node_local name node m h = ground arith

  add_nodes-without :
      (name : String) (nodes : List NodeInfo) (m : Map Mac)
      → add_nodes parse_mac name nodes m ≡ add_nodes parse_mac name (without name nodes) m
  unfolding add_nodes without
  add_nodes-without name [] m = refl
  add_nodes-without name (node ∷ nodes) m = elim (str_dec node.name name) [
    | yes p ↦ ground (arith, add_node_local name node m p, add_nodes-without name nodes m)
    | no p ↦ elim (Option-cases (add_node parse_mac name node m)) [
      | inl e ↦ ground arith
      | inr (m', e) ↦ ground (arith, add_nodes-without name nodes m')
    ]
  ]

  -- The entries of the local node, also one that does not parse, have no effect on UpdateNodeIPs.
  pub update_node_ips-without :
      (nodes : List NodeInfo) (name : String) (vteps : List VtepInfo)
      → update_node_ips parse_mac nodes name vteps
        ≡ update_node_ips parse_mac (without name nodes) name vteps
  unfolding update_node_ips
  update_node_ips-without nodes name vteps = rw (add_nodes-without name nodes []) refl

  get-set_all :
      (x : String) (ips : List String) (mac : Mac) (m : Map Mac)
      → (elem x ips ≡ true) ⊎ (Map.get x m ≡ some mac)
      → Map.get x (set_all parse_mac ips mac m) ≡ some mac
  unfolding set_all elem
  get-set_all x [] mac m h = ground arith
  get-set_all x (ip ∷ ips) mac m h =
      get-set_all x ips mac _ (ground (arith, Map.get-put x ip mac m))

  -- The last VTEP of the list, with an address of its own that is looked for.
  add_last :
      (last : VtepInfo) (m : Map Mac) (mac : Mac) (x : String)
      → parse_mac last.mac ≡ some mac
      → elem x last.local_ips ≡ true
      → (m' : Map Mac) × (add_remote parse_mac last m ≡ some m') × (Map.get x m' ≡ some mac)
  unfolding add_remote
  add_last last m mac x parsed there = (
    set_all parse_mac last.local_ips mac m,
    rw (parsed, add_remote, not_empty x last.local_ips there) refl,
    get-set_all x last.local_ips mac m (inl there),
  )
    where
      not_empty : (y : String) (l : List String) → elem y l ≡ true → is_nil_list parse_mac l ≡ false
      not_empty y [] h = unfold elem in (absurd (ground arith))
      not_empty y (z ∷ l) h = refl

  add_remotes-append :
      (vteps : List VtepInfo) (last : VtepInfo) (m : Map Mac) (mac : Mac) (x : String)
      → (add_remotes parse_mac vteps m).1 ≡ true
      → parse_mac last.mac ≡ some mac
      → elem x last.local_ips ≡ true
      → (m' : Map Mac) × (add_remotes parse_mac (vteps ++ last ∷ []) m ≡ (m', true))
        × (Map.get x m' ≡ some mac)
  unfolding add_remotes
  add_remotes-append [] last m mac x good parsed there =
      let (m', added, found) = add_last last m mac x parsed there in
      (m', rw (added, add_remotes) refl, found)
  add_remotes-append (vtep ∷ vteps) last m mac x good parsed there =
      elim (Option-cases (add_remote parse_mac vtep m)) [
        | inl e ↦ absurd (ground arith)
        | inr (m1, e) ↦
            let good1 : (add_remotes parse_mac vteps m1).1 ≡ true = ground arith in
            let (m', run, found) = add_remotes-append vteps last m1 mac x good1 parsed there in
            (m', rw (e, add_remotes) run, found)
      ]

  -- Where UpdateNodeIPs succeeds and one more remote VTEP with a hardware address that parses is
  -- appended, it succeeds, and SearchIP finds that hardware address for each address whose text,
  -- as IP.String prints it, is among the local addresses of the VTEP, whatever the nodes and the
  -- other VTEPs say of it.
  pub search_ip_last :
      (t : IpText) (nodes : List NodeInfo) (name : String) (vteps : List VtepInfo) (last : VtepInfo)
      (mac : Mac) (ip : NetIp)
      → (update_node_ips parse_mac nodes name vteps).1 ≡ true
      → parse_mac last.mac ≡ some mac
      → elem (t.print_ip ip) last.local_ips ≡ true
      → ((update_node_ips parse_mac nodes name (vteps ++ last ∷ [])).1 ≡ true)
        × (search_ip parse_mac t ip (update_node_ips parse_mac nodes name (vteps ++ last ∷ [])).0
            ≡ some mac)
  unfolding update_node_ips search_ip
  search_ip_last t nodes name vteps last mac ip good parsed there =
      elim (Bool-cases (add_nodes parse_mac name nodes []).1) [
        | inr e ↦ absurd (ground arith)
        | inl e ↦
            let (m', run, found) =
              add_remotes-append vteps last (add_nodes parse_mac name nodes []).0 mac
                (t.print_ip ip) (ground arith) parsed there in
            (ground arith, ground arith)
      ]
