-- ===== src/Pods/Store/Rollback.antt =====
-- That Couple creates the IP instance of every address, or takes back what it has created: what may stay
-- is an instance whose deletion, or whose creation, was answered with an error.
use container_advanced_netwo.Common.{◌≡◌, refl, ◌∙◌, ◌⊎◌, inl, inr, none, List, String, All}
use container_advanced_netwo.Net.{IpText}
use container_advanced_netwo.Ipam.Base.{Result-cases, ok, err, Error}
use container_advanced_netwo.Ipam.Types.{Ip}
use container_advanced_netwo.Pods.Texts.{Texts}
use container_advanced_netwo.Pods.Types.{Pod, Client}
use container_advanced_netwo.Pods.Store.{CoupleOptions, create_all, unified_mac, couple}
use container_advanced_netwo.Pods.Store.Deletion.{
  Objects, Gone, IsClient, DeleteFails, Swept, delete_each-Swept,
}
use container_advanced_netwo.Pods.Store.Creation.{
  Kept, Made, CreateFails, Filled, create_all-Loop, Made-same,
}

module _ (t : IpText) (x : Texts) (kinds : List String) {S : Type 0} (client : Client S)
    (objects : S → Objects) (law : IsClient client objects) where
  -- An object after Couple has failed: as before; or not there before, and gone now, or the instance of
  -- one of the addresses whose deletion, or whose creation, was answered with an error.
  abbrev pub Undone :
      Pod → String → CoupleOptions → List Ip → S → List String → S → S → String → String → Type 0
  Undone pod mac options ips s names filled s' ns name =
      (objects s' ns name ≡ objects s ns name)
      ⊎ ((objects s ns name ≡ none)
          × (Gone (objects s' ns name)
              ⊎ (Made t x kinds client objects law pod mac options ips s' ns name
                  × (DeleteFails t x kinds client objects law pod.namespace names filled name
                      ⊎ CreateFails t x kinds client objects law pod mac options ips s name))))

  undo :
      (pod : Pod) (mac : String) (options : CoupleOptions) (ips : List Ip) (s : S)
      (names : List String) (filled s' : S) (ns name : String)
      → Filled t x kinds client objects law pod mac options ips s names filled ns name
      → Swept t x kinds client objects law pod.namespace names filled s' ns name
      → Undone pod mac options ips s names filled s' ns name
  undo pod mac options ips s names w s' ns name (inl (e, there, free, made))
        (inl (_, _, inl gone)) =
      inr (free, inl gone)
  undo pod mac options ips s names w s' ns name (inl (e, there, free, made))
        (inl (_, _, inr (same, fails))) =
      inr (
        free,
        inr (
          Made-same t x kinds client objects law pod mac options ips w s' ns name same made,
          inl fails,
        ),
      )
  undo pod mac options ips s names w s' ns name (inl (e, there, free, made)) (inr (away, _)) =
      absurd (away (e, there))
  undo pod mac options ips s names w s' ns name (inr (away, _)) (inl (e, there, _)) =
      absurd (away (e, there))
  undo pod mac options ips s names w s' ns name (inr (_, inl same)) (inr (_, same')) =
      inl (same' ∙ same)
  undo pod mac options ips s names w s' ns name (inr (_, inr (free, made, fails)))
        (inr (_, same')) =
      inr (
        free,
        inr (
          Made-same t x kinds client objects law pod mac options ips w s' ns name same' made,
          inr fails,
        ),
      )

  added :
      (pod : Pod) (mac : String) (options : CoupleOptions) (ips : List Ip) (s : S)
      (names : List String) (filled : S) (ns name : String)
      → Filled t x kinds client objects law pod mac options ips s names filled ns name
      → (objects filled ns name ≡ objects s ns name)
        ⊎ ((objects s ns name ≡ none)
            × Made t x kinds client objects law pod mac options ips filled ns name)
  added pod mac options ips s names w ns name (inl (_, _, free, made)) = inr (free, made)
  added pod mac options ips s names w ns name (inr (_, inl same)) = inl same
  added pod mac options ips s names w ns name (inr (_, inr (free, made, _))) = inr (free, made)

  -- What Couple leaves behind, with the names that were created and the state that this led to: success,
  -- with every address kept; or an error, with every object undone.
  abbrev pub Coupled : String → Pod → List Ip → CoupleOptions → S → Type 0
  Coupled generated pod ips options s =
      let mac = unified_mac t x kinds client generated options.specified_mac in
      let (_, names, filled) = create_all t x kinds client pod mac options ips s in
      let (r, s') = couple t x kinds client generated pod ips options s in
      ((r ≡ ok tt)
        × All (Kept t x kinds client objects law pod mac options s') ips
        × ((ns name : String)
            → (objects s' ns name ≡ objects s ns name)
              ⊎ ((objects s ns name ≡ none)
                  × Made t x kinds client objects law pod mac options ips s' ns name)))
      ⊎ ((e : Error) × (r ≡ err e)
          × ((ns name : String) → Undone pod mac options ips s names filled s' ns name))

  -- For a client of which a failed creation or deletion may have had its effect all the same:
  -- Couple succeeds, and the IP instance of every address is there, as assembleIPInstance makes
  -- it with one MAC address, and any other object is as before, or was not there before and is
  -- the instance of one of the addresses; or it fails, and each object is as it was before, or it
  -- was not there before and is now absent or being deleted, or it is the instance of one of the
  -- addresses whose deletion, or whose creation, was answered with an error.
  pub couple-Undone :
      (generated : String) (pod : Pod) (ips : List Ip) (options : CoupleOptions) (s : S)
      → Coupled generated pod ips options s
  unfolding couple
  couple-Undone generated pod ips options s =
      let mac = unified_mac t x kinds client generated options.specified_mac in
      let all = create_all t x kinds client pod mac options ips s in
      let (filled, kept) = create_all-Loop t x kinds client objects law pod mac options ips s in
      elim (Result-cases all.0) [
        | inl (u, e) ↦ inl (
          rw (e, couple) refl,
          rw (e, couple) (kept e),
          rw (e, couple)
              (λ ns name. added pod mac options ips s all.1 all.2 ns name (filled ns name)),
        )
        | inr (y, e) ↦ inr (
          y,
          rw (e, couple) refl,
          rw (e, couple)
              (λ ns name.
                undo pod mac options ips s all.1 all.2 _ ns name (filled ns name) (
                  delete_each-Swept t x kinds client objects law pod.namespace all.1 all.2 ns
                    name)),
        )
      ]
