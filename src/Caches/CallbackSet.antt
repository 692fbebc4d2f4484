-- ===== src/Caches/CallbackSet.antt =====
-- pkg/controllers/utils/sets/sets.go: a set that calls back when it changes. The callback's effect is
-- a function on a state of its own.
pub mod Calls
use container_advanced_netwo.Common.{
  Bool, true, false, if◌then◌else◌, Option, none, some, List, [], ◌∷◌, String, elem, erase_all,
}

pub record CallbackSet (S : Type 0) : Type 0 where
  pub items : List String
  pub callback : Option (S → S)

module _ {S : Type 0} where
  -- NewCallbackSet.
  unfoldable pub new_callback_set : CallbackSet S
  new_callback_set = record { items = []; callback = none }

  unfoldable pub call_back : Option (S → S) → S → S
  call_back none s = s
  call_back (some f) s = f s

  -- Insert.
  unfoldable pub insert : String → CallbackSet S × S → CallbackSet S × S
  insert item (c, s) =
      if elem item c.items
      then (c, s)
      else (record c { items = item ∷ c.items }, call_back c.callback s)

  -- Delete.
  unfoldable pub delete : String → CallbackSet S × S → CallbackSet S × S
  delete item (c, s) =
      if elem item c.items
      then (record c { items = erase_all item c.items }, call_back c.callback s)
      else (c, s)

  -- Has.
  unfoldable pub has : String → CallbackSet S → Bool
  has item c = elem item c.items

  -- WithCallback.
  unfoldable pub with_callback : (S → S) → CallbackSet S → CallbackSet S
  with_callback f c = record c { callback = some f }
