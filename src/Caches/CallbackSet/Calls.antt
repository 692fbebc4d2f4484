-- ===== src/Caches/CallbackSet/Calls.antt =====
-- The set calls back exactly when a call changes what it holds.
use container_advanced_netwo.Common.{
  ◌≡◌, refl, ite, true, false, if◌then◌else◌, List, [], ◌∷◌, String, arith, str_dec, elem,
  erase_all, elem-erase_all,
}
use container_advanced_netwo.Caches.CallbackSet.{CallbackSet, insert, delete, has, call_back}

module _ {S : Type 0} (item : String) (c : CallbackSet S) (s : S) where
  -- Insert adds the item and no other, and calls back exactly if the item was not there; Delete
  -- takes it away and no other, and calls back exactly if it was there.
  pub insert-delete :
      (other : String)
      → (has other (insert item (c, s)).0 ≡ ite (str_dec other item) true (has other c))
        × ((insert item (c, s)).1 ≡ (if has item c then s else call_back c.callback s))
        × (has other (delete item (c, s)).0 ≡ ite (str_dec other item) false (has other c))
        × ((delete item (c, s)).1 ≡ (if has item c then call_back c.callback s else s))
  unfolding insert delete has elem
  insert-delete other =
      (ground arith, ground arith, ground (arith, elem-erase_all other item c.items), ground arith)

erase_all_absent :
    (item : String) (items : List String) → elem item items ≡ false → erase_all item items ≡ items
unfolding elem erase_all
erase_all_absent item [] h = refl
erase_all_absent item (x ∷ items) h = ground (arith, erase_all_absent item items)

-- Insert of an item that is not there and then Delete give the set back, with two calls back.
pub delete-insert :
    {S : Type 0} (item : String) (c : CallbackSet S) (s : S)
    → has item c ≡ false
    → delete item (insert item (c, s)) ≡ (c, call_back c.callback (call_back c.callback s))
unfolding insert delete has elem erase_all
delete-insert item c s h = ground (arith, erase_all_absent item c.items)
