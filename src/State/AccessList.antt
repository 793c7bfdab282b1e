-- ===== src/State/AccessList.antt =====
-- state/access_list.go. `index.unslotted` is the index -1; a set of slots is a list without repeats.
pub mod Laws
use cardinal_evm.Prelude.{ℕ, zero, suc, ◌==◌, Bool, true, false, not, ◌||◌, if◌then◌else◌, ◌>>=◌}
use cardinal_evm.Prelude.{Option, none, some, List, [], ◌∷◌, ◌++◌, Map, empty_map, insert, delete}
use cardinal_evm.Prelude.{length, get_elem?, set, take}
use cardinal_evm.State.Account.{Address, Hash}

pub data Index : Type 0 where
  unslotted : Index
  at : ℕ → Index

pub record AccessList : Type 0 where
  pub addresses : Map Index
  pub slots : List (List Hash)

abbrev pub has : List Hash → Hash → Bool
has [] h = false
has (x ∷ xs) h = (x == h) || has xs h

abbrev pub remove : List Hash → Hash → List Hash
remove [] h = []
remove (x ∷ xs) h = let rest = remove xs h in if x == h then rest else x ∷ rest

unfoldable pub new_access_list : AccessList
new_access_list = record { addresses = empty_map; slots = [] }

unfoldable pub contains_address : AccessList → Address → Bool
contains_address al a = elim (al.addresses a) [ none ↦ false | some i ↦ true ]

-- `none` is the panic of an index out of range.
contains_at : AccessList → Option Index → Hash → Option (Bool × Bool)
contains_at al none slot = some (false, false)
contains_at al (some unslotted) slot = some (true, false)
contains_at al (some (at n)) slot = do slots ← get_elem? al.slots n; some (true, has slots slot)

unfoldable pub contains : AccessList → Address → Hash → Option (Bool × Bool)
unfolding contains_at
contains al a slot = contains_at al (al.addresses a) slot

unfoldable pub add_address : AccessList → Address → AccessList × Bool
add_address al a =
    if contains_address al a
    then (al, false)
    else (record al { addresses = insert al.addresses a unslotted }, true)

-- The first branch of AddSlot: a new set of slots at the end.
append_slots : AccessList → Address → Hash → AccessList
append_slots al a slot = record {
  addresses = insert al.addresses a (at (length al.slots));
  slots = al.slots ++ (slot ∷ []) ∷ [];
}

-- The results are: the list, address added, slot added.
add_slot_at : AccessList → Option Index → Address → Hash → Option (AccessList × Bool × Bool)
add_slot_at al none a slot = some (append_slots al a slot, true, true)
add_slot_at al (some unslotted) a slot = some (append_slots al a slot, false, true)
add_slot_at al (some (at n)) a slot = do
  slots ← get_elem? al.slots n
  if has slots slot
      then some (al, false, false)
      else some (record al { slots = set al.slots n (slot ∷ slots) }, false, true)

unfoldable pub add_slot : AccessList → Address → Hash → Option (AccessList × Bool × Bool)
unfolding add_slot_at append_slots
add_slot al a slot = add_slot_at al (al.addresses a) a slot

drop_empty : AccessList → ℕ → Address → List Hash → AccessList
drop_empty al n a [] = record {
  addresses = insert al.addresses a unslotted;
  slots = take n al.slots;
}
drop_empty al n a (x ∷ xs) = record al { slots = set al.slots n (x ∷ xs) }

delete_slot_at : AccessList → Option Index → Address → Hash → Option AccessList
delete_slot_at al none a slot = none
delete_slot_at al (some unslotted) a slot = none
delete_slot_at al (some (at n)) a slot = do
  slots ← get_elem? al.slots n
  some (drop_empty al n a (remove slots slot))

unfoldable pub delete_slot : AccessList → Address → Hash → Option AccessList
unfolding delete_slot_at drop_empty
delete_slot al a slot = delete_slot_at al (al.addresses a) a slot

unfoldable pub delete_address : AccessList → Address → AccessList
delete_address al a = record al { addresses = delete al.addresses a }
