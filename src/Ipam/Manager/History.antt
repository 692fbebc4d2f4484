-- ===== src/Ipam/Manager/History.antt =====
-- Histories of requests to the manager: its calls hold the lock from their first line to their
-- return, so that what several callers ask for is one sequence of requests.
use container_advanced_netwo.Common.{◌≢◌, Bool, String, List, [], ◌∷◌, not}
use container_advanced_netwo.Net.{IpText}
use container_advanced_netwo.Ipam.Base.{Result, validation_fail}
use container_advanced_netwo.Ipam.Types.{NetworkSet, PodInfo, SubnetIpSuite}
use container_advanced_netwo.Ipam.Subnet.{is_empty, release, reserve}
use container_advanced_netwo.Ipam.Manager.{
  allocate, assign_pod, release_all, reserve_all, for_suites,
}
use container_advanced_netwo.Ipam.Manager.Invariant.{
  IsManager, allocate-Serves, assign_pod-Serves, release_all-Serves, reserve_all-Serves,
}
use container_advanced_netwo.Ipam.Manager.Ledger.{Ledger, Held, Same-Held, Held-trans}
use container_advanced_netwo.Ipam.Manager.Refinement.{
  book, Booked, on_network-Booked, guarded-Booked, refl-Same, allocate-Held,
}
use container_advanced_netwo.Ipam.Manager.Assignment.{assign_pod-Held}

pub data Request : Type 0 where
  allocate_to : String → PodInfo → List String → Request
  assign_to : String → PodInfo → List SubnetIpSuite → Bool → Request
  release_from : String → List SubnetIpSuite → Request
  reserve_in : String → List SubnetIpSuite → Request

module _ (t : IpText) where
  -- One request, with its answer left out.
  unfoldable pub serve : Request → NetworkSet → NetworkSet
  serve (allocate_to name pod subnets) set = (allocate t name pod subnets set).1
  serve (assign_to name pod suites force) set = (assign_pod t name pod suites force set).1
  serve (release_from name suites) set = (release_all t name suites set).1
  serve (reserve_in name suites) set = (reserve_all t name suites set).1

  unfoldable pub run : List Request → NetworkSet → NetworkSet
  run [] set = set
  run (request ∷ requests) set = run requests (serve request set)

  serve-IsManager :
      (request : Request) (set : NetworkSet) → IsManager t set → IsManager t (serve request set)
  unfolding serve
  serve-IsManager (allocate_to name pod subnets) = allocate-Serves t name pod subnets
  serve-IsManager (assign_to name pod suites force) = assign_pod-Serves t name pod suites force
  serve-IsManager (release_from name suites) = release_all-Serves t name suites
  serve-IsManager (reserve_in name suites) = reserve_all-Serves t name suites

  -- Every history of Allocate, Assign, Release and Reserve, failed requests included, keeps all
  -- networks of the manager well-formed.
  pub run-IsManager :
      (requests : List Request) (set : NetworkSet)
      → IsManager t set
      → IsManager t (run requests set)
  unfolding run
  run-IsManager [] set v = v
  run-IsManager (request ∷ requests) set v =
      run-IsManager requests (serve request set) (serve-IsManager request set v)

  -- A request that neither releases nor reserves in the network.
  abbrev pub Spares : String → Request → Type 0
  Spares name (allocate_to _ _ _) = Unit {0}
  Spares name (assign_to _ _ _ _) = Unit {0}
  Spares name (release_from other _) = name ≢ other
  Spares name (reserve_in other _) = name ≢ other

  abbrev pub AllSpare : String → List Request → Type 0
  AllSpare name [] = Unit {0}
  AllSpare name (request ∷ requests) = Spares name request × AllSpare name requests

  abbrev Anything : {A : Type 0} → Ledger → Result A → Ledger → Type 0
  Anything l r l' = Unit {0}

  release_all-Booked :
      (name : String) (suites : List SubnetIpSuite) (set : NetworkSet)
      → Booked name Anything set (release_all t name suites set)
  unfolding release_all
  release_all-Booked name suites set =
      guarded-Booked name (not (is_empty name)) validation_fail _ Anything set (λ e l. tt)
        (on_network-Booked name (for_suites t (release t) suites) Anything set (λ e l. tt)
          (λ n e. tt))

  reserve_all-Booked :
      (name : String) (suites : List SubnetIpSuite) (set : NetworkSet)
      → Booked name Anything set (reserve_all t name suites set)
  unfolding reserve_all
  reserve_all-Booked name suites set =
      guarded-Booked name (not (is_empty name)) validation_fail _ Anything set (λ e l. tt)
        (on_network-Booked name (for_suites t (reserve t) suites) Anything set (λ e l. tt)
          (λ n e. tt))

  serve-Held :
      (name : String) (request : Request) (set : NetworkSet)
      → IsManager t set
      → Spares name request
      → Held (book name set) (book name (serve request set))
  unfolding serve
  serve-Held name (allocate_to other pod subnets) set v spares =
      allocate-Held t pod other subnets set name v
  serve-Held name (assign_to other pod suites force) set v spares =
      assign_pod-Held t pod force other suites set name
  serve-Held name (release_from other suites) set v spares =
      Same-Held _ _ ((release_all-Booked other suites set).1 name spares)
  serve-Held name (reserve_in other suites) set v spares =
      Same-Held _ _ ((reserve_all-Booked other suites set).1 name spares)

  -- From well-formed networks, over every history of Allocate, Assign, Release and Reserve that
  -- releases and reserves nothing in a network, an address of the network that is allocated to a
  -- pod stays allocated to that pod, whatever the other requests ask for by force.
  pub run-Held :
      (name : String) (requests : List Request) (set : NetworkSet)
      → IsManager t set
      → AllSpare name requests
      → Held (book name set) (book name (run requests set))
  unfolding run
  run-Held name [] set v spares = Same-Held _ _ (refl-Same (book name set))
  run-Held name (request ∷ requests) set v spares =
      let after = serve request set in
      Held-trans (book name set) (book name after) (book name (run requests after))
        (serve-Held name request set v spares.0)
        (run-Held name requests after (serve-IsManager request set v) spares.1)
