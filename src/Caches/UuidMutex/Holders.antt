-- ===== src/Caches/UuidMutex/Holders.antt =====
-- A UUID has one holder, and the latest UUID of a name is one that the name holds.
use container_advanced_netwo.Common.{
  ◌≡◌, ◌≢◌, sym, ap, All, Bool, ◌↔◌, true, false, ite, none, some, Option-cases, List, [], ◌∷◌,
  String, arith, str_dec, elem, Distinct, inl, inr,
}
use container_advanced_netwo.Common.Map
use container_advanced_netwo.Common.Map.{Map}
use container_advanced_netwo.Caches.UuidMutex.{
  UuidMutex, locked, empty_uuid, already_locked, new_uuid_mutex, lock, forget, unlock,
  get_latest_uuid, ids_of, get_uuids, Call, locks, unlocks, step, run,
}

-- The latest UUID of a name is held by it, and each UUID is listed once.
pub record IsConsistent (u : UuidMutex) : Type 0 where
  pub latest_held :
      (name uuid : String)
      → Map.get name u.name_latest_id_map ≡ some uuid
      → Map.get uuid u.id_name_map ≡ some name
  pub distinct : Distinct (Map.keys u.id_name_map)

new_uuid_mutex-IsConsistent : IsConsistent new_uuid_mutex
unfolding new_uuid_mutex Map.get Map.keys
new_uuid_mutex-IsConsistent = record {
  latest_held = λ name uuid h. absurd (ground arith);
  distinct = tt;
}

put_latest :
    (u : UuidMutex) (uuid name : String) (ids : Map String)
    → IsConsistent u
    → Map.get uuid ids ≡ some name
    → ((id : String) (n : String) → Map.get id u.id_name_map ≡ some n → Map.get id ids ≡ some n)
    → (n id : String) → Map.get n (Map.put name uuid u.name_latest_id_map) ≡ some id
    → Map.get id ids ≡ some n
put_latest u uuid name ids v held grows n id h =
    ground (arith, Map.get-put n name uuid u.name_latest_id_map, v.latest_held n id, grows id n)

module _ (uuid name : String) (u : UuidMutex) where
  lock_empty : uuid ≡ "" → lock uuid name u ≡ (empty_uuid, u)
  unfolding lock
  lock_empty e = ground arith

  lock_other :
      (holder : String)
      → uuid ≢ ""
      → Map.get uuid u.id_name_map ≡ some holder
      → holder ≢ name
      → lock uuid name u ≡ (already_locked holder, u)
  unfolding lock
  lock_other holder h held ne = ground arith

  lock_again :
      uuid ≢ ""
      → Map.get uuid u.id_name_map ≡ some name
      → lock uuid name u
        ≡ (locked false, record u { name_latest_id_map = Map.put name uuid u.name_latest_id_map })
  unfolding lock
  lock_again h held = ground arith

  lock_free :
      uuid ≢ ""
      → Map.get uuid u.id_name_map ≡ none
      → lock uuid name u ≡ (
        locked true,
        record {
          id_name_map = Map.put uuid name u.id_name_map;
          name_latest_id_map = Map.put name uuid u.name_latest_id_map;
        },
      )
  unfolding lock
  lock_free h free = ground arith

lock-IsConsistent :
    (uuid name : String) (u : UuidMutex) → IsConsistent u → IsConsistent (lock uuid name u).1
lock-IsConsistent uuid name u v = elim (str_dec uuid "") [
  | yes e ↦ rw (lock_empty uuid name u e) v
  | no e ↦ elim (Option-cases (Map.get uuid u.id_name_map)) [
    | inl free ↦ rw (lock_free uuid name u e free) (record {
      latest_held =
          put_latest u uuid name (Map.put uuid name u.id_name_map) v
            (ground (arith, Map.get-put uuid uuid name u.id_name_map))
            (λ id n h. ground (arith, Map.get-put id uuid name u.id_name_map));
      distinct = Map.put-Distinct uuid name u.id_name_map v.distinct;
    })
    | inr (current, held) ↦ elim (str_dec current name) [
      | yes same ↦ rw (lock_again uuid name u e (rw (← same) held)) (record {
        latest_held = put_latest u uuid name u.id_name_map v (rw (← same) held) (λ id n h. h);
        distinct = v.distinct;
      })
      | no other ↦ rw (lock_other uuid name u current e held other) v
    ]
  ]
]

forget_held :
    (u : UuidMutex) (uuid name n id : String)
    → IsConsistent u
    → Map.get uuid u.id_name_map ≡ some name
    → Map.get n (forget uuid name u.name_latest_id_map) ≡ some id
    → Map.get id (Map.delete uuid u.id_name_map) ≡ some n
unfolding forget
forget_held u uuid name n id v held h = ground (
  arith,
  Map.get-delete n name u.name_latest_id_map,
  Map.get-delete id uuid u.id_name_map,
  v.latest_held n id,
)

unlock-IsConsistent :
    (uuid : String) (u : UuidMutex) → IsConsistent u → IsConsistent (unlock uuid u).1
unfolding unlock
unlock-IsConsistent uuid u v = elim (Option-cases (Map.get uuid u.id_name_map)) [
  | inl free ↦ rw (free, unlock) v
  | inr (name, held) ↦
      rw (held, unlock)
        (record {
          latest_held = λ n id h. forget_held u uuid name n id v held h;
          distinct = Map.delete-Distinct uuid u.id_name_map v.distinct;
        })
]

step-IsConsistent : (u : UuidMutex) (c : Call) → IsConsistent u → IsConsistent (step u c)
unfolding step
step-IsConsistent u (locks uuid name) v = lock-IsConsistent uuid name u v
step-IsConsistent u (unlocks uuid) v = unlock-IsConsistent uuid u v

run-IsConsistent : (u : UuidMutex) (cs : List Call) → IsConsistent u → IsConsistent (run u cs)
unfolding run
run-IsConsistent u [] v = v
run-IsConsistent u (c ∷ cs) v = run-IsConsistent (step u c) cs (step-IsConsistent u c v)

-- After any history of calls on a new table, the latest UUID of a name is one that the name
-- holds.
pub get_latest_uuid-held :
    (cs : List Call) (name uuid : String)
    → get_latest_uuid name (run new_uuid_mutex cs) ≡ some uuid
    → Map.get uuid (run new_uuid_mutex cs).id_name_map ≡ some name
unfolding get_latest_uuid
get_latest_uuid-held cs name uuid h =
    (run-IsConsistent new_uuid_mutex cs new_uuid_mutex-IsConsistent).latest_held name uuid h

-- The call does not unlock the UUID.
abbrev pub Spares : String → Call → Type 0
Spares uuid (locks _ _) = Unit {0}
Spares uuid (unlocks id) = id ≢ uuid

lock-held :
    (uuid name id holder : String) (u : UuidMutex)
    → Map.get id u.id_name_map ≡ some holder
    → Map.get id (lock uuid name u).1.id_name_map ≡ some holder
unfolding lock
lock-held uuid name id holder u h = ground (arith, Map.get-put id uuid name u.id_name_map)

unlock-held :
    (uuid id holder : String) (u : UuidMutex)
    → uuid ≢ id
    → Map.get id u.id_name_map ≡ some holder
    → Map.get id (unlock uuid u).1.id_name_map ≡ some holder
unfolding unlock
unlock-held uuid id holder u ne h = ground (arith, Map.get-delete id uuid u.id_name_map)

run-held :
    (id holder : String) (u : UuidMutex) (cs : List Call)
    → All (Spares id) cs
    → Map.get id u.id_name_map ≡ some holder
    → Map.get id (run u cs).id_name_map ≡ some holder
unfolding run step
run-held id holder u [] spares h = h
run-held id holder u (locks uuid name ∷ cs) spares h =
    run-held id holder (lock uuid name u).1 cs spares.1 (lock-held uuid name id holder u h)
run-held id holder u (unlocks uuid ∷ cs) spares h =
    run-held id holder (unlock uuid u).1 cs spares.1 (unlock-held uuid id holder u spares.0 h)

-- A Lock without an error makes the name the holder, and its UUID is not empty.
locked-held :
    (uuid name : String) (u : UuidMutex) (b : Bool)
    → (lock uuid name u).0 ≡ locked b
    → (uuid ≢ "") × (Map.get uuid (lock uuid name u).1.id_name_map ≡ some name)
unfolding lock
locked-held uuid name u b h =
    (ground arith, ground (arith, Map.get-put uuid uuid name u.id_name_map))

-- After a Lock that returns no error, and over any calls of Lock and Unlock that do not unlock
-- this UUID, a Lock of it by another name is refused with the name that holds it and changes
-- nothing, and a Lock of it by the holder succeeds.
pub lock_exclusive :
    (uuid name other : String) (u : UuidMutex) (b : Bool) (cs : List Call)
    → (lock uuid name u).0 ≡ locked b
    → All (Spares uuid) cs
    → other ≢ name
    → let u' = run (lock uuid name u).1 cs in
      (lock uuid other u' ≡ (already_locked name, u')) × ((lock uuid name u').0 ≡ locked false)
lock_exclusive uuid name other u b cs taken spares ne =
    let u' = run (lock uuid name u).1 cs in
    let (named, first) = locked-held uuid name u b taken in
    let held = run-held uuid name (lock uuid name u).1 cs spares first in
    (
      lock_other uuid other u' name named held (λ e. ne (sym e)),
      ap (λ r. r.0) (lock_again uuid name u' named held),
    )

ids_of_sound :
    (uuid name : String) (m : Map String)
    → Distinct (Map.keys m)
    → elem uuid (ids_of name m) ≡ true
    → Map.get uuid m ≡ some name
unfolding ids_of elem Map.get Map.keys
ids_of_sound uuid name [] d h = absurd (ground arith)
ids_of_sound uuid name ((id, n) ∷ rest) d h =
    ground (arith, ids_of_sound uuid name rest d.1, Map.has_of_get uuid rest name)

ids_of_complete :
    (uuid name : String) (m : Map String)
    → Map.get uuid m ≡ some name
    → elem uuid (ids_of name m) ≡ true
unfolding ids_of elem Map.get
ids_of_complete uuid name [] h = absurd (ground arith)
ids_of_complete uuid name ((id, n) ∷ rest) h = ground (arith, ids_of_complete uuid name rest)

-- After any history of calls on a new table, GetUUIDs lists a UUID exactly where the name holds
-- it.
pub get_uuids-elem :
    (cs : List Call) (uuid name : String)
    → let u = run new_uuid_mutex cs in
      (elem uuid (get_uuids name u) ≡ true) ↔ (Map.get uuid u.id_name_map ≡ some name)
unfolding get_uuids
get_uuids-elem cs uuid name =
    let u = run new_uuid_mutex cs in
    let v = run-IsConsistent new_uuid_mutex cs new_uuid_mutex-IsConsistent in
    (ids_of_sound uuid name u.id_name_map v.distinct, ids_of_complete uuid name u.id_name_map)

-- Lock of a free UUID that is not empty and then Unlock: the UUIDs and their holders are those
-- from before, the other names keep their latest UUID, and the name is left without one, also if
-- it had one.
pub unlock-lock :
    (uuid name other : String) (u : UuidMutex)
    → uuid ≢ ""
    → Map.has uuid u.id_name_map ≡ false
    → ((unlock uuid (lock uuid name u).1).0 ≡ true)
      × ((unlock uuid (lock uuid name u).1).1.id_name_map ≡ u.id_name_map)
      × (get_latest_uuid other (unlock uuid (lock uuid name u).1).1
          ≡ ite (str_dec other name) none (get_latest_uuid other u))
unfolding unlock forget get_latest_uuid
unlock-lock uuid name other u h absent =
    rw (lock_free uuid name u h (Map.get-none uuid u.id_name_map absent)) (
      ground (arith, Map.get-put uuid uuid name u.id_name_map),
      ground (
        arith,
        Map.get-put uuid uuid name u.id_name_map,
        Map.delete-put_new uuid name u.id_name_map absent,
      ),
      ground (
        arith,
        Map.get-put uuid uuid name u.id_name_map,
        Map.get-put name name uuid u.name_latest_id_map,
        Map.get-put other name uuid u.name_latest_id_map,
        Map.get-delete other name (Map.put name uuid u.name_latest_id_map),
      ),
    )
