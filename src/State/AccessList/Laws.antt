-- ===== src/State/AccessList/Laws.antt =====
-- The journal entries of the access list undo the additions, and it implements a set of addresses
-- and a set of (address, slot) pairs.
pub mod Membership
use cardinal_evm.Prelude.{ℕ, zero, suc, ◌<◌, ◌≡◌, refl, ap, ◌∙◌, arith, Bool, true, false}
use cardinal_evm.Prelude.{Option, none, some, List, [], ◌∷◌, ◌++◌, insert, ◌==◌}
use cardinal_evm.Prelude.{delete-insert, insert-insert, insert_present, ◌>>=◌, if◌then◌else◌}
use cardinal_evm.Prelude.{length, get_elem?, set, take, Bool-cases, Option-cases, inl, inr}
use cardinal_evm.Prelude.{get_elem?-set_self, get_elem?-set_ne}
use cardinal_evm.State.Account.{Address, Hash}
use cardinal_evm.State.AccessList.{AccessList, Index, unslotted, at, has, remove, append_slots}
use cardinal_evm.State.AccessList.{add_slot, add_slot_at, delete_slot, delete_slot_at, drop_empty}
use cardinal_evm.State.AccessList.{add_address, delete_address, contains_address}

-- Each index leads to a set with an element.
pub record IsValid (al : AccessList) : Type 0 where
  pub filled :
      (a : Address) (n : ℕ)
      → al.addresses a ≡ some (at n)
      → (x : Hash) × (xs : List Hash) × (get_elem? al.slots n ≡ some (x ∷ xs))

lt_of_get_elem? {ℓ} :
    {A : Type ℓ} (xs : List A) (n : ℕ) {x : A} → get_elem? xs n ≡ some x → n < length xs
lt_of_get_elem? [] n e = cc
lt_of_get_elem? (x ∷ xs) zero e = omega arith
lt_of_get_elem? (x ∷ xs) (suc n) e = omega (arith, lt_of_get_elem? xs n e)

take-append {ℓ} : {A : Type ℓ} (xs ys : List A) → take (length xs) (xs ++ ys) ≡ xs
take-append [] ys = refl
take-append (x ∷ xs) ys = ap (◌∷◌ x) (take-append xs ys)

get_elem?-append_left {ℓ} :
    {A : Type ℓ} (xs ys : List A) (n : ℕ) {x : A}
    → get_elem? xs n ≡ some x
    → get_elem? (xs ++ ys) n ≡ some x
get_elem?-append_left [] ys n e = cc
get_elem?-append_left (x ∷ xs) ys zero e = e
get_elem?-append_left (x ∷ xs) ys (suc n) e = get_elem?-append_left xs ys n e

get_elem?-append_end {ℓ} :
    {A : Type ℓ} (xs : List A) (y : A) → get_elem? (xs ++ y ∷ []) (length xs) ≡ some y
get_elem?-append_end [] y = refl
get_elem?-append_end (x ∷ xs) y = get_elem?-append_end xs y

set-set_back {ℓ} :
    {A : Type ℓ} (xs : List A) (n : ℕ) (v : A) {x : A}
    → get_elem? xs n ≡ some x
    → set (set xs n v) n x ≡ xs
set-set_back [] n v e = refl
set-set_back (x ∷ xs) zero v e = ground arith
set-set_back (x ∷ xs) (suc n) v e = ap (◌∷◌ x) (set-set_back xs n v e)

remove_absent : (xs : List Hash) (h : Hash) → has xs h ≡ false → remove xs h ≡ xs
remove_absent [] h e = refl
remove_absent (x ∷ xs) h e = ground (arith, remove_absent xs h)

remove_head : (xs : List Hash) (h : Hash) → has xs h ≡ false → remove (h ∷ xs) h ≡ xs
remove_head xs h e = ground (arith, remove_absent xs h)

-- Where AddAddress adds the address, DeleteAddress gives back the list that it changed.
pub delete_address-add_address :
    (al : AccessList) (a : Address)
    → (add_address al a).1 ≡ true
    → delete_address (add_address al a).0 a ≡ al
unfolding add_address delete_address contains_address
delete_address-add_address al a e = elim (Option-cases (al.addresses a)) [
  | inl h ↦
      rw (h, add_address, contains_address)
        (λ i. record al { addresses = delete-insert al.addresses a unslotted h i })
  | inr (x, h) ↦ cc (rw (h, add_address, contains_address) at e)
]

unfoldable pub undo_slot : AccessList → Address → Hash → Bool × Bool → Option AccessList
undo_slot al a slot (added_address, added_slot) = do
  al' ← if added_slot then delete_slot al a slot else some al
  some (if added_address then delete_address al' a else al')

-- What AddSlot promises: it does not panic, keeps the list valid, and its entries undo it.
pub record Undoes (al : AccessList) (a : Address) (slot : Hash)
    (result : Option (AccessList × Bool × Bool)) : Type 0 where
  pub out : AccessList
  pub flags : Bool × Bool
  pub returns : result ≡ some (out, flags.0, flags.1)
  pub valid : IsValid out
  pub undone : undo_slot out a slot flags ≡ some al

insert_self {ℓ} : {V : Type ℓ} (m : ℕ → Option V) (k : ℕ) (v : V) → insert m k v k ≡ some v
insert_self m k v = ground arith

delete_slot-append_slots :
    (al : AccessList) (a : Address) (slot : Hash)
    → delete_slot (append_slots al a slot) a slot
      ≡ some (record al { addresses = insert al.addresses a unslotted })
unfolding delete_slot append_slots
delete_slot-append_slots al a slot =
    rw
      (
        insert_self al.addresses a (at (length al.slots)),
        delete_slot_at,
        get_elem?-append_end al.slots (slot ∷ []),
        remove_head [] slot refl,
        drop_empty,
        take-append al.slots ((slot ∷ []) ∷ []),
      )
      (λ i.
        some (record al {
          addresses = insert-insert al.addresses a (at (length al.slots)) unslotted i;
        }))

IsValid-append_slots :
    (al : AccessList) (a : Address) (slot : Hash) → IsValid al → IsValid (append_slots al a slot)
unfolding append_slots
IsValid-append_slots al a slot v = record {
  filled = λ a' n e. elim (Bool-cases (a == a')) [
    | inl same ↦
        let h : length al.slots ≡ n = ground arith in
        (slot, [], rw (← h) (get_elem?-append_end al.slots (slot ∷ [])))
    | inr other ↦
        let (x, xs, h) = v.filled a' n (rw other at e) in
        (x, xs, get_elem?-append_left al.slots ((slot ∷ []) ∷ []) n h)
  ];
}

-- A set of slots that grew is still the set at its index, and the others stay.
IsValid-set :
    (al : AccessList) (n : ℕ) (slot : Hash) (xs : List Hash)
    → n < length al.slots
    → IsValid al
    → IsValid (record al { slots = set al.slots n (slot ∷ xs) })
IsValid-set al n slot xs lt v = record {
  filled = λ a m e. elim (Bool-cases (n == m)) [
    | inl same ↦
        let h : n ≡ m = ground arith in
        (slot, xs, rw (← h) (get_elem?-set_self al.slots n (slot ∷ xs) lt))
    | inr other ↦
        let (x, ys, h) = v.filled a m e in
        (x, ys, get_elem?-set_ne al.slots n m (slot ∷ xs) (ground arith) ∙ h)
  ];
}

record_addresses :
    (al : AccessList) (m : ℕ → Option Index) → m ≡ al.addresses → record al { addresses = m } ≡ al
record_addresses al m e i = record al { addresses = e i }

record_slots :
    (al : AccessList) (s : List (List Hash)) → s ≡ al.slots → record al { slots = s } ≡ al
record_slots al s e i = record al { slots = e i }

Undoes-absent :
    (al : AccessList) (a : Address) (slot : Hash)
    → al.addresses a ≡ none
    → IsValid al
    → Undoes al a slot (add_slot_at al none a slot)
unfolding add_slot_at
Undoes-absent al a slot h v = record {
  out = append_slots al a slot;
  flags = (true, true);
  returns = refl;
  valid = IsValid-append_slots al a slot v;
  undone =
      unfold undo_slot delete_address in
      rw (delete_slot-append_slots al a slot)
        (ap some (record_addresses al _ (delete-insert al.addresses a unslotted h)));
}

Undoes-unslotted :
    (al : AccessList) (a : Address) (slot : Hash)
    → al.addresses a ≡ some unslotted
    → IsValid al
    → Undoes al a slot (add_slot_at al (some unslotted) a slot)
unfolding add_slot_at
Undoes-unslotted al a slot h v = record {
  out = append_slots al a slot;
  flags = (false, true);
  returns = refl;
  valid = IsValid-append_slots al a slot v;
  undone =
      unfold undo_slot in
      rw (delete_slot-append_slots al a slot)
        (ap some (record_addresses al _ (insert_present al.addresses a unslotted h)));
}

delete_slot-set :
    (al : AccessList) (a : Address) (slot : Hash) (n : ℕ) (x : Hash) (xs : List Hash)
    → al.addresses a ≡ some (at n)
    → get_elem? al.slots n ≡ some (x ∷ xs)
    → has (x ∷ xs) slot ≡ false
    → delete_slot (record al { slots = set al.slots n (slot ∷ x ∷ xs) }) a slot ≡ some al
unfolding delete_slot
delete_slot-set al a slot n x xs h g new =
    rw
      (
        h,
        delete_slot_at,
        get_elem?-set_self al.slots n (slot ∷ x ∷ xs) (lt_of_get_elem? al.slots n g),
        remove_head (x ∷ xs) slot new,
        drop_empty,
      )
      (ap some (record_slots al _ (set-set_back al.slots n (slot ∷ x ∷ xs) g)))

Undoes-at :
    (al : AccessList) (a : Address) (slot : Hash) (n : ℕ)
    → al.addresses a ≡ some (at n)
    → IsValid al
    → Undoes al a slot (add_slot_at al (some (at n)) a slot)
unfolding add_slot_at
Undoes-at al a slot n h v =
    let (x, xs, g) = v.filled a n h in
    elim (Bool-cases (has (x ∷ xs) slot)) [
      | inl old ↦ record {
        out = al;
        flags = (false, false);
        returns = rw (g, old) refl;
        valid = v;
        undone = unfold undo_slot in refl;
      }
      | inr new ↦ record {
        out = record al { slots = set al.slots n (slot ∷ x ∷ xs) };
        flags = (false, true);
        returns = rw (g, new) refl;
        valid = IsValid-set al n slot (x ∷ xs) (lt_of_get_elem? al.slots n g) v;
        undone = unfold undo_slot in rw (delete_slot-set al a slot n x xs h g new) refl;
      }
    ]

-- AddSlot on a valid list does not panic and keeps it valid, and the DeleteSlot and DeleteAddress that
-- its two answers call for give back the list before.
pub add_slot-Undoes :
    (al : AccessList) (a : Address) (slot : Hash)
    → IsValid al
    → Undoes al a slot (add_slot al a slot)
unfolding add_slot
add_slot-Undoes al a slot v = go (al.addresses a) refl
  where
    go : (i : Option Index) → al.addresses a ≡ i → Undoes al a slot (add_slot_at al i a slot)
    go none h = Undoes-absent al a slot h v
    go (some unslotted) h = Undoes-unslotted al a slot h v
    go (some (at n)) h = Undoes-at al a slot n h v

-- When AddAddress changes nothing it answers `false`, and it keeps the list valid.
pub add_address_unchanged :
    (al : AccessList) (a : Address) → (add_address al a).1 ≡ false → (add_address al a).0 ≡ al
unfolding add_address
add_address_unchanged al a e = elim (Bool-cases (contains_address al a)) [
  | inl old ↦ rw old refl
  | inr new ↦ cc (rw (new, add_address) at e)
]

insert_unslotted :
    (m : ℕ → Option Index) (a c : Address) (n : ℕ)
    → insert m a unslotted c ≡ some (at n)
    → m c ≡ some (at n)
insert_unslotted m a c n e = elim (Bool-cases (a == c)) [
  | inl same ↦ cc (rw same at e)
  | inr other ↦ rw other at e
]

pub add_address-IsValid :
    (al : AccessList) (a : Address) → IsValid al → IsValid (add_address al a).0
unfolding add_address
add_address-IsValid al a v = elim (Bool-cases (contains_address al a)) [
  | inl old ↦ rw old v
  | inr new ↦
      rw new (record { filled = λ c n e. v.filled c n (insert_unslotted al.addresses a c n e) })
]
