-- ===== src/Ipam/Manager/Ledger.antt =====
-- The abstract view of the manager: which address of which subnet is entered for whom. It forgets
-- the rings, the current subnets, and the order in which the entries are kept.
use container_advanced_netwo.Common.{
  ℕ, ◌≡◌, ◌≢◌, refl, sym, subst, ap, ◌∙◌, ◌⊎◌, inl, inr, Bool, true, false, String, Option, none,
  some, str_dec, ℕ_discrete, if_pos, if_neg, ite, arith,
}
use container_advanced_netwo.Common.Map
use container_advanced_netwo.Net.{IpText}
use container_advanced_netwo.Ipam.Types.{Ip, IpSet, Network, PodInfo, allocated}
use container_advanced_netwo.Ipam.Network.Selection.{used, using_of, SameUsed}
use container_advanced_netwo.Ipam.Manager.Entries.{Gave}

pub bool_dec : (a b : Bool) → Dec (a ≡ b)
bool_dec true true = yes refl
bool_dec true false = no (λ e. cc)
bool_dec false true = no (λ e. cc)
bool_dec false false = yes refl

-- The entry of an address of the subnet at a place of one family.
abbrev pub in_set : String → Option IpSet → Option Ip
in_set k none = none
in_set k (some m) = Map.get k m

abbrev pub entry : Bool → ℕ → String → Network → Option Ip
entry v6 i k n = in_set k (used v6 i n)

-- A ledger: by family, place of the subnet and text of the address.
abbrev pub Ledger : Type 0
Ledger = Bool → ℕ → String → Option Ip

abbrev pub view : Network → Ledger
view n v6 i k = entry v6 i k n

abbrev pub Same : Ledger → Ledger → Type 0
Same l l' = (v6 : Bool) (i : ℕ) (k : String) → l' v6 i k ≡ l v6 i k

pub SameUsed-Same : (n n' : Network) → SameUsed n n' → Same (view n) (view n')
SameUsed-Same n n' same v6 i k = ap (in_set k) (same v6 i)

-- What was allocated is still allocated, to the same pod.
abbrev pub SameOwner : Ip → Ip → Type 0
SameOwner x y =
    (y.pod_name ≡ x.pod_name) × (y.pod_namespace ≡ x.pod_namespace) × (y.status ≡ allocated)

abbrev pub Held : Ledger → Ledger → Type 0
Held l l' =
    (v6 : Bool) (i : ℕ) (k : String) (x : Ip)
    → l v6 i k ≡ some x
    → x.status ≡ allocated
    → (y : Ip) × (l' v6 i k ≡ some y) × SameOwner x y

pub Same-Held : (l l' : Ledger) → Same l l' → Held l l'
Same-Held l l' same v6 i k x e st = (x, same v6 i k ∙ e, (refl, refl, st))

pub Held-trans : (a b c : Ledger) → Held a b → Held b c → Held a c
Held-trans a b c f g v6 i k x e st =
    let (y, ey, (oy, ny, sy)) = f v6 i k x e st in
    let (z, ez, (oz, nz, sz)) = g v6 i k y ey sy in (z, ez, (oz ∙ oy, nz ∙ ny, sz))

-- One address, free before, is entered for the pod, and no other entry changes: the family, the
-- place of the subnet, and the text of the address.
pub record Grant (pod : PodInfo) (v6 : Bool) (ip : Ip) (before after : Ledger) : Type 0 where
  pub place : ℕ
  pub key : String
  pub owner :
      (ip.pod_name ≡ pod.name) × (ip.pod_namespace ≡ pod.namespace) × (ip.status ≡ allocated)
  pub free : before v6 place key ≡ none
  pub entered : after v6 place key ≡ some ip
  pub elsewhere :
      (b : Bool) (i : ℕ) (k : String)
      → (b ≢ v6) ⊎ ((i ≢ place) ⊎ (k ≢ key))
      → after b i k ≡ before b i k

-- The place of an entry is another one.
pub place_cases :
    (b v6 : Bool) (i j : ℕ) (k key : String)
    → ((b ≡ v6) × (i ≡ j) × (k ≡ key)) ⊎ ((b ≢ v6) ⊎ ((i ≢ j) ⊎ (k ≢ key)))
place_cases b v6 i j k key = elim (bool_dec b v6) [
  | no ne ↦ inr (inl ne)
  | yes e ↦ elim (ℕ_discrete i j) [
    | no ne ↦ inr (inr (inl ne))
    | yes f ↦ elim (str_dec k key) [ no ne ↦ inr (inr (inr ne)) | yes g ↦ inl (e, f, g) ]
  ]
]

-- The address of one entry goes to the pod, by a rule on the entry from before, and no other entry
-- changes.
pub record Take (pod : PodInfo) (may : Ip → Type 0) (ip : Ip) (before after : Ledger) : Type 0 where
  pub v6 : Bool
  pub place : ℕ
  pub key : String
  pub owner :
      (ip.pod_name ≡ pod.name) × (ip.pod_namespace ≡ pod.namespace) × (ip.status ≡ allocated)
  pub allowed : (held : Ip) → before v6 place key ≡ some held → may held
  pub entered : after v6 place key ≡ some ip
  pub elsewhere :
      (b : Bool) (i : ℕ) (k : String)
      → (b ≢ v6) ⊎ ((i ≢ place) ⊎ (k ≢ key))
      → after b i k ≡ before b i k

-- Where the rule lets the pod take only what is its own or not allocated, no pod loses an address.
pub Take-Held :
    (pod : PodInfo) (may : Ip → Type 0) (ip : Ip) (l l' : Ledger)
    → ((held : Ip)
        → may held
        → held.status ≡ allocated
        → (held.pod_name ≡ pod.name) × (held.pod_namespace ≡ pod.namespace))
    → Take pod may ip l l'
    → Held l l'
Take-Held pod may ip l l' rule t v6 i k x e st = elim (place_cases v6 t.v6 i t.place k t.key) [
  | inr other ↦ (x, t.elsewhere v6 i k other ∙ e, (refl, refl, st))
  | inl (ev, ei, ek) ↦
      let move : (m : Ledger) → m v6 i k ≡ m t.v6 t.place t.key =
        λ m. ap (λ b. m b i k) ev ∙ ap (λ j. m t.v6 j k) ei ∙ ap (λ c. m t.v6 t.place c) ek in
      let (en, ens) = rule x (t.allowed x (sym (move l) ∙ e)) st in
      let (on, ons, os) = t.owner in (ip, move l' ∙ t.entered, (on ∙ sym en, ons ∙ sym ens, os))
]

pub Grant-Take :
    (pod : PodInfo) (may : Ip → Type 0) (v6 : Bool) (ip : Ip) (l l' : Ledger)
    → Grant pod v6 ip l l'
    → Take pod may ip l l'
Grant-Take pod may v6 ip l l' g = record {
  v6 = v6;
  place = g.place;
  key = g.key;
  owner = g.owner;
  allowed = λ held e. absurd (ground (arith, g.free, e));
  entered = g.entered;
  elsewhere = g.elsewhere;
}

module _ (t : IpText) (pod : PodInfo) where
  Gave-entry :
      (v6 : Bool) (n n' : Network) (ip : Ip)
      → (g : Gave t pod v6 n n' ip) → (k : String)
      → entry v6 g.place k n'
        ≡ ite (str_dec k (t.print_ip ip.address.ip)) (some ip) (entry v6 g.place k n)
  Gave-entry v6 n n' ip g k =
      let key = t.print_ip ip.address.ip in
      ap (in_set k) g.entered
      ∙ ap (Map.get k) g.granted.recorded
      ∙ Map.get-put k key ip g.before.using_ips
      ∙ ap (λ o. ite (str_dec k key) (some ip) o) (sym (ap (λ s. in_set k (using_of s)) g.there))

  Gave-free :
      (v6 : Bool) (n n' : Network) (ip : Ip)
      → (g : Gave t pod v6 n n' ip) → entry v6 g.place (t.print_ip ip.address.ip) n ≡ none
  Gave-free v6 n n' ip g =
      ap (λ s. in_set (t.print_ip ip.address.ip) (using_of s)) g.there
      ∙ Map.get-none (t.print_ip ip.address.ip) g.before.using_ips g.granted.was_free

  pub Gave-Grant :
      (v6 : Bool) (n n' : Network) (ip : Ip)
      → Gave t pod v6 n n' ip
      → ((b : Bool) (i : ℕ) → b ≢ v6 → used b i n' ≡ used b i n)
      → Grant pod v6 ip (view n) (view n')
  Gave-Grant v6 n n' ip g others =
      let key = t.print_ip ip.address.ip in
      let (_, _, st) = g.granted.of_subnet in
      record {
        place = g.place;
        key = t.print_ip ip.address.ip;
        owner = (g.granted.owner.0, g.granted.owner.1, st);
        free = Gave-free v6 n n' ip g;
        entered =
            Gave-entry v6 n n' ip g _ ∙ if_pos (str_dec _ (t.print_ip ip.address.ip)) refl _ _;
        elsewhere = away;
      }
    where
      other_text :
          (k : String) → k ≢ t.print_ip ip.address.ip → entry v6 g.place k n' ≡ entry v6 g.place k n
      other_text k ne =
          Gave-entry v6 n n' ip g k ∙ if_neg (str_dec k (t.print_ip ip.address.ip)) ne _ _

      here :
          (i : ℕ) (k : String)
          → (i ≢ g.place) ⊎ (k ≢ t.print_ip ip.address.ip)
          → entry v6 i k n' ≡ entry v6 i k n
      here i k d = elim (ℕ_discrete g.place i) [
        | no ne ↦ ap (in_set k) (g.elsewhere i ne)
        | yes same ↦ elim d [
          | inl ne ↦ absurd (ne (sym same))
          | inr ne ↦ subst (λ j. entry v6 j k n' ≡ entry v6 j k n) same (other_text k ne)
        ]
      ]

      away :
          (b : Bool) (i : ℕ) (k : String)
          → (b ≢ v6) ⊎ ((i ≢ g.place) ⊎ (k ≢ t.print_ip ip.address.ip))
          → entry b i k n' ≡ entry b i k n
      away b i k (inl ne) = ap (in_set k) (others b i ne)
      away b i k (inr d) = elim (bool_dec b v6) [
        | no ne ↦ ap (in_set k) (others b i ne)
        | yes same ↦ subst (λ c. entry c i k n' ≡ entry c i k n) (sym same) (here i k d)
      ]
