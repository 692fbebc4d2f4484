-- ===== src/Pods/Store/Deletion.antt =====
-- The client of the API server that the store relies on, and what the deferred loop of Couple leaves
-- behind: an object whose deletion fails may stay.
use container_advanced_netwo.Common.{
  ◌≡◌, ◌≢◌, refl, sym, subst, ◌∙◌, ◌⊎◌, inl, inr, true, Option, none, some, List, [], ◌∷◌, String,
  str_dec,
}
use container_advanced_netwo.Net.{IpText}
use container_advanced_netwo.Ipam.Base.{Result-cases, ok, err, Error}
use container_advanced_netwo.Api.{IpInstance}
use container_advanced_netwo.Pods.Texts.{Texts}
use container_advanced_netwo.Pods.Types.{Client}
use container_advanced_netwo.Pods.Store.{delete_each}

-- What the API server keeps, by namespace and name.
abbrev pub Objects : Type 0
Objects = String → String → Option IpInstance

-- An instance that is absent, or has a finalizer and is being deleted.
abbrev pub Gone : Option IpInstance → Type 0
Gone o = (o ≡ none) ⊎ ((i : IpInstance) × (o ≡ some i) × (i.deleted ≡ true))

-- What is relied on of the client. A creation that succeeds finds no object of the name and puts one
-- there; one that fails changes nothing, or has put it there all the same, as after a timeout. After a
-- deletion that succeeds the object is gone; after one that fails it is as before, or gone all the same.
-- No other object changes.
pub record IsClient {S : Type 0} (client : Client S) (objects : S → Objects) : Type 0 where
  pub created :
      (i : IpInstance) (s s' : S)
      → client.create i s ≡ (ok tt, s')
      → (objects s i.namespace i.name ≡ none) × (objects s' i.namespace i.name ≡ some i)
  pub not_created :
      (i : IpInstance) (s s' : S) (e : Error)
      → client.create i s ≡ (err e, s')
      → (objects s' i.namespace i.name ≡ objects s i.namespace i.name)
        ⊎ ((objects s i.namespace i.name ≡ none) × (objects s' i.namespace i.name ≡ some i))
  pub create_elsewhere :
      (i : IpInstance) (s : S) (ns name : String)
      → (ns ≢ i.namespace) ⊎ (name ≢ i.name)
      → objects (client.create i s).1 ns name ≡ objects s ns name
  pub deleted :
      (ns name : String) (s : S)
      → (client.delete ns name s).0 ≡ ok tt
      → Gone (objects (client.delete ns name s).1 ns name)
  pub not_deleted :
      (ns name : String) (s : S) (e : Error)
      → (client.delete ns name s).0 ≡ err e
      → (objects (client.delete ns name s).1 ns name ≡ objects s ns name)
        ⊎ Gone (objects (client.delete ns name s).1 ns name)
  pub delete_elsewhere :
      (ns name : String) (s : S) (ns' name' : String)
      → (ns' ≢ ns) ⊎ (name' ≢ name)
      → objects (client.delete ns name s).1 ns' name' ≡ objects s ns' name'

module _ (t : IpText) (x : Texts) (kinds : List String) {S : Type 0} (client : Client S)
    (objects : S → Objects) (law : IsClient client objects) where
  pub apart :
      (ns ns' name name' : String) → ((ns ≡ ns') × (name ≡ name')) ⊎ ((ns ≢ ns') ⊎ (name ≢ name'))
  apart ns ns' name name' = elim (str_dec ns ns') [
    | no ne ↦ inr (inl ne)
    | yes e ↦ elim (str_dec name name') [ no ne ↦ inr (inr ne) | yes f ↦ inl (e, f) ]
  ]

  abbrev pub Named : String → List String → Type 0
  Named name [] = ⊥
  Named name (n ∷ ns) = (name ≡ n) ⊎ Named name ns

  -- The deferred loop of Couple asked for the deletion of the name, and was answered with an error.
  abbrev pub DeleteFails : String → List String → S → String → Type 0
  DeleteFails ns [] s name = ⊥
  DeleteFails ns (n ∷ names) s name =
      ((name ≡ n) × ((e : Error) × ((client.delete ns n s).0 ≡ err e)))
      ⊎ DeleteFails ns names (client.delete ns n s).1 name

  -- An object after the deferred loop: one of the names is gone, or its deletion has failed and it is as
  -- before; any other is as before.
  abbrev pub Swept : String → List String → S → S → String → String → Type 0
  Swept ns names s s' ns' name =
      ((ns' ≡ ns)
        × Named name names
        × (Gone (objects s' ns' name)
            ⊎ ((objects s' ns' name ≡ objects s ns' name) × DeleteFails ns names s name)))
      ⊎ ((¬ ((ns' ≡ ns) × Named name names)) × (objects s' ns' name ≡ objects s ns' name))

  pub not_either :
      (ns ns' name n : String) (names : List String)
      → (¬ ((ns' ≡ ns) × Named name names))
      → (ns' ≢ ns) ⊎ (name ≢ n)
      → ¬ ((ns' ≡ ns) × Named name (n ∷ names))
  not_either ns ns' name n names away (inl ne) (e, _) = ne e
  not_either ns ns' name n names away (inr ne) (e, inl f) = ne f
  not_either ns ns' name n names away (inr ne) (e, inr there) = away (e, there)

  -- One deletion: the object is gone, or the deletion has failed and it is as before.
  delete_cases :
      (ns n : String) (s : S)
      → Gone (objects (client.delete ns n s).1 ns n)
        ⊎ ((objects (client.delete ns n s).1 ns n ≡ objects s ns n)
            × ((e : Error) × ((client.delete ns n s).0 ≡ err e)))
  delete_cases ns n s = elim (Result-cases (client.delete ns n s).0) [
    | inl (u, e) ↦ inl (law.deleted ns n s e)
    | inr (y, e) ↦ elim (law.not_deleted ns n s y e) [
      | inl same ↦ inr (same, (y, e))
      | inr gone ↦ inl gone
    ]
  ]

  -- The object of the first name, whatever the later deletions do.
  sweep_first :
      (ns n : String) (names : List String) (s s' : S)
      → Swept ns names (client.delete ns n s).1 s' ns n
      → Swept ns (n ∷ names) s s' ns n
  sweep_first ns n names s s' (inl (e, there, inl gone)) = inl (refl, inl refl, inl gone)
  sweep_first ns n names s s' (inl (e, there, inr (same, fails))) = elim (delete_cases ns n s) [
    | inl gone ↦ inl (refl, inl refl, inl (subst Gone (sym same) gone))
    | inr (same', _) ↦ inl (refl, inl refl, inr (same ∙ same', inr fails))
  ]
  sweep_first ns n names s s' (inr (away, same)) = elim (delete_cases ns n s) [
    | inl gone ↦ inl (refl, inl refl, inl (subst Gone (sym same) gone))
    | inr (same', failed) ↦ inl (refl, inl refl, inr (same ∙ same', inl (refl, failed)))
  ]

  sweep_other :
      (ns n ns' name : String) (names : List String) (s s' : S)
      → (ns' ≢ ns) ⊎ (name ≢ n)
      → Swept ns names (client.delete ns n s).1 s' ns' name
      → Swept ns (n ∷ names) s s' ns' name
  sweep_other ns n ns' name names s s' other (inl (e, there, inl gone)) =
      inl (e, inr there, inl gone)
  sweep_other ns n ns' name names s s' other (inl (e, there, inr (same, fails))) =
      inl (e, inr there, inr (same ∙ law.delete_elsewhere ns n s ns' name other, inr fails))
  sweep_other ns n ns' name names s s' other (inr (away, same)) =
      inr (
        not_either ns ns' name n names away other,
        same ∙ law.delete_elsewhere ns n s ns' name other,
      )

  pub delete_each-Swept :
      (ns : String) (names : List String) (s : S) (ns' name : String)
      → Swept ns names s (delete_each t x kinds client ns names s) ns' name
  unfolding delete_each
  delete_each-Swept ns [] s ns' name = inr (λ h. absurd h.1, refl)
  delete_each-Swept ns (n ∷ names) s ns' name =
      let s1 = (client.delete ns n s).1 in
      let s' = delete_each t x kinds client ns names s1 in
      elim (apart ns' ns name n) [
        | inr other ↦
            sweep_other ns n ns' name names s s' other (delete_each-Swept ns names s1 ns' name)
        | inl (e, f) ↦
            subst (λ a. Swept ns (n ∷ names) s s' a name) (sym e)
              (subst (λ a. Swept ns (n ∷ names) s s' ns a) (sym f)
                (sweep_first ns n names s s' (delete_each-Swept ns names s1 ns n)))
      ]
