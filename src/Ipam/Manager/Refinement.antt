-- ===== src/Ipam/Manager/Refinement.antt =====
-- pkg/ipam/manager/manager.go: Allocate against the ledger of the manager, what it returns and what
-- becomes of the entries.
use container_advanced_netwo.Common.{
  ℕ, ◌≡◌, ◌≢◌, refl, sym, subst, ap, ◌∙◌, ◌⊎◌, inl, inr, Bool, true, false, not, String, Option,
  none, some, List, [], ◌∷◌, Option-cases, str_dec, if_pos, if_neg,
}
use container_advanced_netwo.Common.Map
use container_advanced_netwo.Net.{IpText}
use container_advanced_netwo.Ipam.Base.{
  M, Error, Result, ok, err, ◌>>=◌, ◌>>◌, guard, validation_fail, unsupported_ip_family,
  not_found_network,
}
use container_advanced_netwo.Ipam.Types.{
  Ip, Network, NetworkSet, PodInfo, IpFamilyMode, ipv4, ipv6, dual_stack, other_mode,
}
use container_advanced_netwo.Ipam.Network.Selection.{used}
use container_advanced_netwo.Ipam.Manager.{on_network, valid_request, allocate_family, allocate}
use container_advanced_netwo.Ipam.Manager.Invariant.{IsManager}
use container_advanced_netwo.Ipam.Manager.Entries.{Gave-same}
use container_advanced_netwo.Ipam.Manager.Atomic.{One, allocate_one-One}
use container_advanced_netwo.Ipam.Manager.Dual.{Two, allocate_dual-Two}
use container_advanced_netwo.Ipam.Manager.Ledger.{
  Ledger, view, Same, SameUsed-Same, Held, Same-Held, Held-trans, Grant, Gave-Grant, Take-Held,
  Grant-Take,
}

-- The steps of an allocation: one grant for each family, of the address in its place of the answer.
pub data Grants (pod : PodInfo) : List Bool → List Ip → Ledger → Ledger → Type 0 where
  done : {l l' : Ledger} → Same l l' → Grants pod [] [] l l'
  grant :
      {v6 : Bool} {families : List Bool} {ip : Ip} {ips : List Ip} {l m l' : Ledger}
      → Grant pod v6 ip l m
      → Grants pod families ips m l'
      → Grants pod (v6 ∷ families) (ip ∷ ips) l l'

-- An allocation for the families: a grant for each, or an error and the same ledger.
abbrev pub Allocates : PodInfo → List Bool → Ledger → Result (List Ip) → Ledger → Type 0
Allocates pod families l r l' =
    ((ips : List Ip) × (r ≡ ok ips) × Grants pod families ips l l')
    ⊎ ((e : Error) × (r ≡ err e) × Same l l')

abbrev pub families_of : IpFamilyMode → List Bool
families_of ipv4 = false ∷ []
families_of ipv6 = true ∷ []
families_of dual_stack = false ∷ true ∷ []
families_of (other_mode _) = []

-- The ledger of one network of the manager, empty where the network is not there.
abbrev pub view_of : Option Network → Ledger
view_of none = λ v6 i k. none
view_of (some n) = view n

abbrev pub book : String → NetworkSet → Ledger
book name set = view_of (Map.get name set)

pub refl-Same : (l : Ledger) → Same l l
refl-Same l v6 i k = refl

-- A call on a network, seen in the books: the network's own, and every other one's.
abbrev pub Booked :
    {A : Type 0}
    → String
    → (Ledger → Result A → Ledger → Type 0)
    → NetworkSet
    → Result A × NetworkSet
    → Type 0
Booked name P set r =
    P (book name set) r.0 (book name r.1)
    × ((other : String) → other ≢ name → Same (book other set) (book other r.1))

pub on_network-Booked :
    {A : Type 0} (name : String) (call : M Network A) (P : Ledger → Result A → Ledger → Type 0)
    (set : NetworkSet)
    → ((e : Error) (l : Ledger) → P l (err e) l)
    → ((n : Network) → Map.get name set ≡ some n → P (view n) (call n).0 (view (call n).1))
    → Booked name P set (on_network name call set)
unfolding on_network
on_network-Booked name call P set failed each = elim (Option-cases (Map.get name set)) [
  | inl e ↦
      let made : on_network name call set ≡ (err not_found_network, set) =
        rw (e, on_network) refl in
      rw made (failed not_found_network (book name set), λ other ne v6 i k. refl)
  | inr (n, e) ↦
      let made : on_network name call set ≡ ((call n).0, Map.put name (call n).1 set) =
        rw (e, on_network) refl in
      let here : Map.get name (Map.put name (call n).1 set) ≡ some (call n).1 =
        Map.get-put name name (call n).1 set ∙ if_pos (str_dec name name) refl _ _ in
      rw (made, here, e)
        (
          each n e,
          λ other ne v6 i k.
              ap (λ o. view_of o v6 i k)
                (Map.get-put other name (call n).1 set ∙ if_neg (str_dec other name) ne _ _),
        )
]

pub guarded-Booked :
    {A : Type 0} (name : String) (b : Bool) (e : Error) (call : M NetworkSet A)
    (P : Ledger → Result A → Ledger → Type 0) (set : NetworkSet)
    → ((e : Error) (l : Ledger) → P l (err e) l)
    → Booked name P set (call set)
    → Booked name P set ((guard b e >> call) set)
unfolding ◌>>=◌
guarded-Booked name true e call P set failed booked = booked
guarded-Booked name false e call P set failed booked =
    (failed e (book name set), λ other ne v6 i k. refl)

failed-Allocates :
    (pod : PodInfo) (families : List Bool) (e : Error) (l : Ledger)
    → Allocates pod families l (err e) l
failed-Allocates pod families e l = inr (e, refl, refl-Same l)

pub other_family : (b v6 : Bool) → b ≢ v6 → b ≡ not v6
other_family true true ne = absurd (ne refl)
other_family true false ne = refl
other_family false true ne = refl
other_family false false ne = absurd (ne refl)

module _ (t : IpText) (pod : PodInfo) where
  One-Allocates :
      (v6 : Bool) (n : Network) (r : Result (List Ip) × Network)
      → One t pod v6 n r
      → Allocates pod (v6 ∷ []) (view n) r.0 (view r.1)
  One-Allocates v6 n r (inr (e, f, same)) = inr (e, f, SameUsed-Same n r.1 same)
  One-Allocates v6 n r (inl (ip, f, gave, others)) = inl (
    ip ∷ [],
    f,
    grant
        (Gave-Grant t pod v6 n r.1 ip gave (λ b i ne.
          subst (λ c. used c i r.1 ≡ used c i n) (sym (other_family b v6 ne)) (others i)))
        (done (refl-Same (view r.1))),
  )

  -- Between the two grants stands the network with the new IPv4 subnets and the old IPv6 ones.
  Two-Allocates :
      (n : Network) (r : Result (List Ip) × Network)
      → Two t pod n r
      → Allocates pod (false ∷ true ∷ []) (view n) r.0 (view r.1)
  Two-Allocates n r (inr (e, f, same)) = inr (e, f, SameUsed-Same n r.1 same)
  Two-Allocates n r (inl (v4_ip, v6_ip, f, v4, v6)) =
      let m = record n { ipv4_subnets = r.1.ipv4_subnets } in
      inl (
        v4_ip ∷ v6_ip ∷ [],
        f,
        grant
            (Gave-Grant t pod false n m v4_ip
              (Gave-same t pod false n n r.1 m v4_ip refl (λ i. refl) v4) v6_kept)
            (grant
              (Gave-Grant t pod true m r.1 v6_ip
                (Gave-same t pod true n m r.1 r.1 v6_ip refl (λ i. refl) v6) v4_kept)
              (done (refl-Same (view r.1)))),
      )
    where
      v6_kept :
          (b : Bool) (i : ℕ)
          → b ≢ false
          → used b i (record n { ipv4_subnets = r.1.ipv4_subnets }) ≡ used b i n
      v6_kept true i ne = refl
      v6_kept false i ne = absurd (ne refl)

      v4_kept :
          (b : Bool) (i : ℕ)
          → b ≢ true
          → used b i r.1 ≡ used b i (record n { ipv4_subnets = r.1.ipv4_subnets })
      v4_kept true i ne = absurd (ne refl)
      v4_kept false i ne = refl

  allocate_family-Booked :
      (subnets : List String) (name : String) (mode : IpFamilyMode) (set : NetworkSet)
      → IsManager t set
      → Booked name
          (Allocates pod (families_of mode))
          set
          (allocate_family t pod subnets name mode set)
  unfolding allocate_family
  allocate_family-Booked subnets name ipv4 set v =
      on_network-Booked name _ (Allocates pod (false ∷ [])) set (failed-Allocates pod (false ∷ []))
        (λ n e. One-Allocates false n _ (allocate_one-One t pod false subnets n (v name n e)))
  allocate_family-Booked subnets name ipv6 set v =
      on_network-Booked name _ (Allocates pod (true ∷ [])) set (failed-Allocates pod (true ∷ []))
        (λ n e. One-Allocates true n _ (allocate_one-One t pod true subnets n (v name n e)))
  allocate_family-Booked subnets name dual_stack set v =
      on_network-Booked name _ (Allocates pod (false ∷ true ∷ [])) set
        (failed-Allocates pod (false ∷ true ∷ []))
        (λ n e. Two-Allocates n _ (allocate_dual-Two t pod subnets n (v name n e)))
  allocate_family-Booked subnets name (other_mode _) set v =
      (failed-Allocates pod _ unsupported_ip_family (book name set), λ other ne b i k. refl)

  -- On well-formed networks, Allocate of the manager refines its ledger, which says for each
  -- network, family, place of a subnet and text of an address what is entered: either it returns
  -- one address for each family of the request, in the order of the families, and the ledger of
  -- the network takes one step for each of them, which enters an address that was free for the
  -- pod as allocated and changes no other entry; or it returns an error and no entry of the
  -- network changes. The entries of the other networks never change.
  pub allocate-Allocates :
      (name : String) (subnets : List String) (set : NetworkSet)
      → IsManager t set
      → Booked name
          (Allocates pod (families_of pod.ip_family))
          set
          (allocate t name pod subnets set)
  unfolding allocate
  allocate-Allocates name subnets set v =
      guarded-Booked name (valid_request name pod) validation_fail _
        (Allocates pod (families_of pod.ip_family)) set (failed-Allocates pod _)
        (allocate_family-Booked subnets name pod.ip_family set v)

module _ (t : IpText) (pod : PodInfo) where
  Grants-Held :
      (families : List Bool) (ips : List Ip) (l l' : Ledger)
      → Grants pod families ips l l'
      → Held l l'
  Grants-Held [] (_ ∷ _) l l' never = elim never [ ]
  Grants-Held (_ ∷ _) [] l l' never = elim never [ ]
  Grants-Held [] [] l l' (done same) = Same-Held l l' same
  Grants-Held (v6 ∷ families) (ip ∷ ips) l l' (grant {m = m} granted rest) =
      Held-trans l m l'
        (Take-Held pod (λ _. ⊥) ip l m (λ held no_way. absurd no_way)
          (Grant-Take pod (λ _. ⊥) v6 ip l m granted))
        (Grants-Held families ips m l' rest)

  -- No Allocate of the manager takes an allocated address from its pod.
  pub allocate-Held :
      (name : String) (subnets : List String) (set : NetworkSet) (other : String)
      → IsManager t set
      → Held (book other set) (book other (allocate t name pod subnets set).1)
  allocate-Held name subnets set other v =
      let (here, others) = allocate-Allocates t pod name subnets set v in
      elim (str_dec other name) [
        | no ne ↦ Same-Held _ _ (others other ne)
        | yes e ↦
            subst (λ o. Held (book o set) (book o (allocate t name pod subnets set).1)) (sym e)
              (elim here [
                | inl (ips, _, granted) ↦ Grants-Held _ ips _ _ granted
                | inr (x, _, same) ↦ Same-Held _ _ same
              ])
      ]
