-- ===== src/Lib.antt =====
-- Hybridnet, a container network for Kubernetes: the manager gives addresses of subnets to pods
-- (pkg/ipam), controllers and daemons keep tables of what was given (pkg/controllers,
-- pkg/daemon), and the daemon turns subnets into ranges and routes. This library models the
-- address manager with all of its types, the address arithmetic below it, the tables beside it,
-- the reconciliation of pods that joins them, the excluded ranges of a subnet, and the rules on
-- Network and Subnet objects.
--
-- Parts and files
--   Common         Boolean tests on numbers, lists, and association maps with their lemmas.
--   Net            Go's package net as far as it is used; Net/Binary is an instance of the texts of
--                  addresses, for the tests.
--   Net/Cidr       pkg/utils/cidr.go and LastIP of pkg/utils/ip.go.
--   Ipam/Base      the errors of pkg/ipam, and calls that change a state and may fail.
--   Ipam/Types     pkg/ipam/types: types.go, usage.go, manager.go and the types of the others.
--   Ipam/Ip        pkg/ipam/types/ip.go: the set in use (IPSet) and the ring of addresses (IPSlice).
--   Ipam/Subnet    pkg/ipam/types/subnet.go for one Subnet: Validate, Canonicalize, Sync, Contains,
--                  AllocateNext, Assign, Release, Reserve.
--   Ipam/SubnetSlice  the same file for SubnetSlice: AddSubnet, GetSubnet, GetAvailableSubnet.
--   Ipam/Network   pkg/ipam/types/network.go: the two slices of a network and the lookups on them.
--   Ipam/Manager   pkg/ipam/manager/manager.go: Allocate, Assign, Release, Reserve, Refresh, usages;
--                  Ledger is the abstract view that Refinement and Assignment compare them with, and
--                  History runs sequences of requests.
--   Pods           Store is pkg/ipam/store/store.go, Controller, Strategy and Reconcile are
--                  pkg/controllers/networking/pod_controller.go, Config is pkg/webhook/utils/utils.go,
--                  Types and Texts are the helpers that they call. Store/Creation, Store/Deletion and
--                  Store/Rollback state what Couple leaves at the API server, Reconcile/Invariant and
--                  Reconcile/Recorded what Reconcile leaves in the manager and in the cache, Config/Chosen
--                  what a network config is.
--   Caches         pkg/controllers/multicluster/uuid_mutex.go, pkg/controllers/networking/
--                  pod_ip_cache.go, pkg/daemon/controller/nodeipcache.go and
--                  pkg/controllers/utils/sets/sets.go.
--   Ranges         pkg/daemon/utils/ip_range.go.
--   AddressRange   pkg/apis/networking/v1/utils.go: the rules on the range of a Subnet object.
--   Api            pkg/apis/networking/v1: the objects, and the readers of utils.go; Api/Transform is
--                  pkg/utils/transform/ipam.go.
--   Webhook        pkg/webhook/validating: network.go, subnet.go and remotesubnet.go; Webhook/Cluster is
--                  the history of the objects that the API server keeps.
--
-- A request runs from the top down: the manager looks a network up by name, the network chooses
-- a subnet by name, by address or by availability, and the subnet moves its ring and enters the
-- address in its set in use. The model passes the state explicitly: a call returns its result
-- and the state from after, also where it fails, so that what a failed call leaves behind can be
-- stated. A *Subnet of a network is its family and its place (Ipam.Network.SubnetRef); a method
-- call on it writes the subnet back there.
--
-- Bounds and fuel
--   A slice of 4 or 16 bytes is the number it spells; big.Int arithmetic is that of ℕ, with what the
--   source does below 0 and past the last address written out. Counts of usages are uint32 and wrap.
--   The other counts are Go ints of list lengths, without overflow.
--   Sync walks its range on fuel, the size of the range and two rounds; GetAvailableSubnet has as many
--   rounds as subnets; AllocateNext has the rounds of its own counter. The loops of
--   calculateIPLastZeroBits and findTheFirstLargestCidr have one round for each mask length; the blocks
--   of one range, and the loops of Intersect, have a bound that the caller gives.
--
-- What is not modelled
--   The texts of addresses (net.ParseIP, IP.String) are a parameter, Net.IpText, with the documented
--   laws as Net.IsIpText; so are those of networks (net.ParseCIDR). Masks are prefix masks or nil.
--   The getters of the manager are a parameter. The package ipaddr is one of Ranges.
--   Pointers to addresses and slices of names are values: a write that a later call makes
--   through a pointer that was returned before is not seen in the earlier result. The order of a
--   Go map is that of a list.
--   sort.Slice is an insertion sort: two ranges with one start are an error in either order.
--   A lock that a call holds from its first line to its return is the order of the calls. Logs have
--   no model.
--   The reads of the webhooks are a parameter; in a history of the cluster each request is checked
--   against the objects that are there, so two requests in flight at once are not covered. Decoding
--   and the HTTP server have no model.
--   Reconcile of pods runs alone: what other writers do to the API server between two of its calls is
--   not covered. The client of the API server, the lists by index, and Go's packages strings, strconv,
--   net, os and md5 are parameters (Pods.Types.Client, Pods.Strategy.Lookups, Pods.Texts.Texts).
--   The number at the end of a pod's name is taken to be below 2^31, as an int32 holds it.
--   A failed creation or deletion may have had its effect all the same (Pods.Store.Deletion.IsClient).
--   Events and metrics have no model. AggregateGoroutines runs its functions one after the other.
--   The other Kubernetes controllers, the daemon's kernel calls, the webhooks of pods, the commands and
--   generated code are not modelled.
pub mod Common
pub mod Net
pub mod Ipam
pub mod Caches
pub mod Ranges
pub mod AddressRange
pub mod Api
pub mod Pods
pub mod Webhook
