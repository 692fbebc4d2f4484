-- ===== src/Caches/UuidMutex.antt =====
-- pkg/controllers/multicluster/uuid_mutex.go: which cluster name holds a cluster UUID.
pub mod Holders
use container_advanced_netwo.Common.{
  Bool, true, false, ite, Option, none, some, List, [], ◌∷◌, String, str_dec,
}
use container_advanced_netwo.Common.Map
use container_advanced_netwo.Common.Map.{Map}

pub record UuidMutex : Type 0 where
  pub id_name_map : Map String
  pub name_latest_id_map : Map String

-- What Lock returns: its Boolean, or one of its two errors.
pub data LockResult : Type 0 where
  locked : Bool → LockResult
  empty_uuid : LockResult
  already_locked : String → LockResult

-- NewUUIDMutex.
unfoldable pub new_uuid_mutex : UuidMutex
new_uuid_mutex = record { id_name_map = []; name_latest_id_map = [] }

-- Lock.
unfoldable pub lock : String → String → UuidMutex → LockResult × UuidMutex
lock uuid name u =
    ite (str_dec uuid "") (empty_uuid, u)
      (elim (Map.get uuid u.id_name_map) [
        | some current_name ↦
            ite (str_dec current_name name)
              (
                locked false,
                record u { name_latest_id_map = Map.put name uuid u.name_latest_id_map },
              )
              (already_locked current_name, u)
        | none ↦ (
          locked true,
          record {
            id_name_map = Map.put uuid name u.id_name_map;
            name_latest_id_map = Map.put name uuid u.name_latest_id_map;
          },
        )
      ])

-- The latest UUID of the name is forgotten if it is this one.
unfoldable pub forget : String → String → Map String → Map String
forget uuid name latest = elim (Map.get name latest) [
  | none ↦ latest
  | some id ↦ ite (str_dec id uuid) (Map.delete name latest) latest
]

-- Unlock.
unfoldable pub unlock : String → UuidMutex → Bool × UuidMutex
unlock uuid u = elim (Map.get uuid u.id_name_map) [
  | none ↦ (false, u)
  | some name ↦ (
    true,
    record {
      id_name_map = Map.delete uuid u.id_name_map;
      name_latest_id_map = forget uuid name u.name_latest_id_map;
    },
  )
]

-- GetLatestUUID.
unfoldable pub get_latest_uuid : String → UuidMutex → Option String
get_latest_uuid name u = Map.get name u.name_latest_id_map

ids_of : String → Map String → List String
ids_of name [] = []
ids_of name ((id, n) ∷ rest) = ite (str_dec n name) (id ∷ ids_of name rest) (ids_of name rest)

-- GetUUIDs. The source lists them in the order in which Go goes through the map.
unfoldable pub get_uuids : String → UuidMutex → List String
unfolding ids_of
get_uuids name u = ids_of name u.id_name_map

-- The calls that change the table, and a history of them.
pub data Call : Type 0 where
  locks : String → String → Call
  unlocks : String → Call

unfoldable pub step : UuidMutex → Call → UuidMutex
step u (locks uuid name) = (lock uuid name u).1
step u (unlocks uuid) = (unlock uuid u).1

unfoldable pub run : UuidMutex → List Call → UuidMutex
run u [] = u
run u (c ∷ cs) = run (step u c) cs
