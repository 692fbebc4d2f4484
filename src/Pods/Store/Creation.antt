-- ===== src/Pods/Store/Creation.antt =====
-- What the loop of Couple that creates the IP instances leaves at the API server: the instances that are
-- made, and those whose creation was answered with an error.
use container_advanced_netwo.Common.{
  ◌≡◌, ◌≢◌, refl, sym, ap, subst, ◌∙◌, ◌⊎◌, inl, inr, Option, none, some, List, [], ◌∷◌, String,
  arith, All,
}
use container_advanced_netwo.Net.{IpText}
use container_advanced_netwo.Ipam.Base.{Result-cases, Result, ok, err, Error}
use container_advanced_netwo.Ipam.Types.{Ip}
use container_advanced_netwo.Api.{IpInstance}
use container_advanced_netwo.Pods.Texts.{Texts, to_dns_format}
use container_advanced_netwo.Pods.Types.{Pod, Client}
use container_advanced_netwo.Pods.Store.{
  CoupleOptions, bare_instance, assemble_ip_instance, create_ip_instance, create_all,
}
use container_advanced_netwo.Pods.Store.Deletion.{Objects, IsClient, apart, Named, not_either}

module _ (t : IpText) (x : Texts) (kinds : List String) {S : Type 0} (client : Client S)
    (objects : S → Objects) (law : IsClient client objects) where
  -- The instance of an address, as Couple assembles it.
  abbrev pub instance_of : Pod → String → CoupleOptions → Ip → IpInstance
  instance_of pod mac options ip =
      assemble_ip_instance t x kinds ip pod mac options
        (bare_instance (to_dns_format t x ip.address.ip) pod.namespace)

  abbrev pub Kept : Pod → String → CoupleOptions → S → Ip → Type 0
  Kept pod mac options s ip =
      objects s pod.namespace (to_dns_format t x ip.address.ip)
      ≡ some (instance_of pod mac options ip)

  -- The object is the instance of one of the addresses.
  abbrev pub Made : Pod → String → CoupleOptions → List Ip → S → String → String → Type 0
  Made pod mac options [] s ns name = ⊥
  Made pod mac options (ip ∷ ips) s ns name =
      ((ns ≡ pod.namespace)
        × (name ≡ to_dns_format t x ip.address.ip)
        × (objects s ns name ≡ some (instance_of pod mac options ip)))
      ⊎ Made pod mac options ips s ns name

  -- The loop of Couple asked for the creation of the name, and was answered with an error.
  abbrev pub CreateFails : Pod → String → CoupleOptions → List Ip → S → String → Type 0
  CreateFails pod mac options [] s name = ⊥
  CreateFails pod mac options (ip ∷ ips) s name =
      let (r, s1) = create_ip_instance t x kinds client pod mac options ip s in
      ((name ≡ to_dns_format t x ip.address.ip) × ((e : Error) × (r ≡ err e)))
      ⊎ ((r ≡ ok tt) × CreateFails pod mac options ips s1 name)

  -- A creation of an address, in the words of the law.
  create_created :
      (pod : Pod) (mac : String) (options : CoupleOptions) (ip : Ip) (s s' : S)
      → create_ip_instance t x kinds client pod mac options ip s ≡ (ok tt, s')
      → (objects s pod.namespace (to_dns_format t x ip.address.ip) ≡ none)
        × Kept pod mac options s' ip
  unfolding create_ip_instance assemble_ip_instance
  create_created pod mac options ip s s' e = law.created (instance_of pod mac options ip) s s' e

  create_other :
      (pod : Pod) (mac : String) (options : CoupleOptions) (ip : Ip) (s : S) (ns name : String)
      → (ns ≢ pod.namespace) ⊎ (name ≢ to_dns_format t x ip.address.ip)
      → objects (create_ip_instance t x kinds client pod mac options ip s).1 ns name
        ≡ objects s ns name
  unfolding create_ip_instance assemble_ip_instance
  create_other pod mac options ip s ns name other =
      law.create_elsewhere (instance_of pod mac options ip) s ns name other

  create_failed :
      (pod : Pod) (mac : String) (options : CoupleOptions) (ip : Ip) (s s' : S) (y : Error)
      → create_ip_instance t x kinds client pod mac options ip s ≡ (err y, s')
      → let key = to_dns_format t x ip.address.ip in
        (objects s' pod.namespace key ≡ objects s pod.namespace key)
        ⊎ ((objects s pod.namespace key ≡ none) × Kept pod mac options s' ip)
  unfolding create_ip_instance assemble_ip_instance
  create_failed pod mac options ip s s' y e =
      law.not_created (instance_of pod mac options ip) s s' y e

  -- An object after the loop of Couple: one of the names was not there, and is made; any other is as
  -- before, or its creation has failed and has made it all the same.
  abbrev pub Filled :
      Pod → String → CoupleOptions → List Ip → S → List String → S → String → String → Type 0
  Filled pod mac options ips s names s' ns name =
      ((ns ≡ pod.namespace)
        × Named t x kinds client objects law name names
        × (objects s ns name ≡ none)
        × Made pod mac options ips s' ns name)
      ⊎ ((¬ ((ns ≡ pod.namespace) × Named t x kinds client objects law name names))
          × ((objects s' ns name ≡ objects s ns name)
              ⊎ ((objects s ns name ≡ none)
                  × Made pod mac options ips s' ns name
                  × CreateFails pod mac options ips s name)))

  -- And where the loop does not fail, every address has its instance.
  abbrev pub Loop :
      Pod → String → CoupleOptions → List Ip → S → Result (Unit {0}) × List String × S → Type 0
  Loop pod mac options ips s (r, names, s') =
      ((ns name : String) → Filled pod mac options ips s names s' ns name)
      × (r ≡ ok tt → All (Kept pod mac options s') ips)

  taken : (o : Option IpInstance) (i : IpInstance) → o ≡ some i → o ≡ none → ⊥
  taken o i f g = ground (arith, f, g)

  -- What the later creations leave of an instance that is made.
  stays-Kept :
      (pod : Pod) (mac : String) (options : CoupleOptions) (ip : Ip) (ips : List Ip) (s s' : S)
      (names : List String)
      → Kept pod mac options s ip
      → Filled pod mac options ips s names s' pod.namespace (to_dns_format t x ip.address.ip)
      → Kept pod mac options s' ip
  stays-Kept pod mac options ip ips s s' names made (inl (_, _, free, _)) =
      absurd (taken _ _ made free)
  stays-Kept pod mac options ip ips s s' names made (inr (_, inl same)) = same ∙ made
  stays-Kept pod mac options ip ips s s' names made (inr (_, inr (free, _, _))) =
      absurd (taken _ _ made free)

  -- One more creation before a loop.
  module _ (pod : Pod) (mac : String) (options : CoupleOptions) (ip : Ip) (ips : List Ip)
      (s : S) where
    abbrev first : Result (Unit {0}) × S
    first = create_ip_instance t x kinds client pod mac options ip s

    abbrev key : String
    key = to_dns_format t x ip.address.ip

    extend_other :
        (s2 : S) (names : List String) (ns name : String)
        → first.0 ≡ ok tt
        → (ns ≢ pod.namespace) ⊎ (name ≢ key)
        → Filled pod mac options ips first.1 names s2 ns name
        → Filled pod mac options (ip ∷ ips) s (key ∷ names) s2 ns name
    extend_other s2 names ns name e other (inl (en, there, free, made)) =
        inl (en, inr there, sym (create_other pod mac options ip s ns name other) ∙ free, inr made)
    extend_other s2 names ns name e other (inr (away, inl same)) = inr (
      not_either t x kinds client objects law pod.namespace ns name key names away other,
      inl (same ∙ create_other pod mac options ip s ns name other),
    )
    extend_other s2 names ns name e other (inr (away, inr (free, made, fails))) = inr (
      not_either t x kinds client objects law pod.namespace ns name key names away other,
      inr (sym (create_other pod mac options ip s ns name other) ∙ free, inr made, inr (e, fails)),
    )

    extend-Loop :
        (r : Result (Unit {0})) (names : List String) (s2 : S)
        → first.0 ≡ ok tt
        → Loop pod mac options ips first.1 (r, names, s2)
        → Loop pod mac options (ip ∷ ips) s (r, key ∷ names, s2)
    extend-Loop r names s2 e (filled, kept) = (whole, λ f. (here, kept f))
      where
        made : (objects s pod.namespace key ≡ none) × Kept pod mac options first.1 ip
        made = create_created pod mac options ip s first.1 (ap (λ q. (q, first.1)) e)

        here : Kept pod mac options s2 ip
        here = stays-Kept pod mac options ip ips first.1 s2 names made.1 (filled pod.namespace key)

        whole : (ns name : String) → Filled pod mac options (ip ∷ ips) s (key ∷ names) s2 ns name
        whole ns name = elim (apart t x kinds client objects law ns pod.namespace name key) [
          | inr other ↦ extend_other s2 names ns name e other (filled ns name)
          | inl (en, ek) ↦ inl (
            en,
            inl ek,
            ap (λ a. objects s a name) en ∙ ap (objects s pod.namespace) ek ∙ made.0,
            inl (en, ek, ap (λ a. objects s2 a name) en ∙ ap (objects s2 pod.namespace) ek ∙ here),
          )
        ]

    failed-Loop :
        (y : Error) → first.0 ≡ err y → Loop pod mac options (ip ∷ ips) s (err y, [], first.1)
    failed-Loop y e =
        (λ ns name. inr (λ h. absurd h.1, whole ns name), λ f. absurd (ground (arith, f)))
      where
        whole :
            (ns name : String)
            → (objects first.1 ns name ≡ objects s ns name)
              ⊎ ((objects s ns name ≡ none)
                  × Made pod mac options (ip ∷ ips) first.1 ns name
                  × CreateFails pod mac options (ip ∷ ips) s name)
        whole ns name = elim (apart t x kinds client objects law ns pod.namespace name key) [
          | inr other ↦ inl (create_other pod mac options ip s ns name other)
          | inl (en, ek) ↦
              let at : (w : S) → objects w ns name ≡ objects w pod.namespace key =
                λ w. ap (λ a. objects w a name) en ∙ ap (objects w pod.namespace) ek in
              elim (create_failed pod mac options ip s first.1 y (ap (λ q. (q, first.1)) e)) [
                | inl same ↦ inl (at first.1 ∙ same ∙ sym (at s))
                | inr (free, now) ↦
                    inr (at s ∙ free, inl (en, ek, at first.1 ∙ now), inl (ek, (y, e)))
              ]
        ]

  pub create_all-Loop :
      (pod : Pod) (mac : String) (options : CoupleOptions) (ips : List Ip) (s : S)
      → Loop pod mac options ips s (create_all t x kinds client pod mac options ips s)
  unfolding create_all
  create_all-Loop pod mac options [] s = (λ ns name. inr (λ h. absurd h.1, inl refl), λ _. tt)
  create_all-Loop pod mac options (ip ∷ ips) s =
      let s1 = (create_ip_instance t x kinds client pod mac options ip s).1 in
      elim (Result-cases (create_ip_instance t x kinds client pod mac options ip s).0) [
        | inr (y, e) ↦
            let whole : create_all t x kinds client pod mac options (ip ∷ ips) s ≡ (err y, [], s1) =
              rw (e, create_all) refl in
            subst (Loop pod mac options (ip ∷ ips) s) (sym whole)
              (failed-Loop pod mac options ip ips s y e)
        | inl (u, e) ↦
            let rest = create_all t x kinds client pod mac options ips s1 in
            let whole : create_all t x kinds client pod mac options (ip ∷ ips) s
                ≡ (rest.0, to_dns_format t x ip.address.ip ∷ rest.1, rest.2) =
              rw (e, create_all) refl in
            subst (Loop pod mac options (ip ∷ ips) s) (sym whole) (
              extend-Loop pod mac options ip ips s rest.0 rest.1 rest.2 e
                (create_all-Loop pod mac options ips s1))
      ]

  pub Made-same :
      (pod : Pod) (mac : String) (options : CoupleOptions) (ips : List Ip) (s s' : S)
      (ns name : String)
      → objects s' ns name ≡ objects s ns name
      → Made pod mac options ips s ns name
      → Made pod mac options ips s' ns name
  Made-same pod mac options [] s s' ns name same made = absurd made
  Made-same pod mac options (ip ∷ ips) s s' ns name same (inl (en, ek, made)) =
      inl (en, ek, same ∙ made)
  Made-same pod mac options (ip ∷ ips) s s' ns name same (inr made) =
      inr (Made-same pod mac options ips s s' ns name same made)
