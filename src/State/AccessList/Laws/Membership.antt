-- ===== src/State/AccessList/Laws/Membership.antt =====
-- Which pairs are on the access list after AddSlot.
use cardinal_evm.Prelude.{ℕ, ◌≡◌, ◌≢◌, refl, sym, ap, ◌∙◌, arith, ◌==◌, Bool, true, false}
use cardinal_evm.Prelude.{
  ◌&&◌, ◌||◌, if◌then◌else◌, Option, none, some, List, [], ◌∷◌, ◌++◌, length, get_elem?, set,
}
use cardinal_evm.Prelude.{Bool-cases, inl, inr, get_elem?-set_self, get_elem?-set_ne, ◌>>=◌}
use mathlib.Core.Option.{some-injective}
use cardinal_evm.State.Account.{Address, Hash}
use cardinal_evm.State.AccessList.{
  AccessList, Index, unslotted, at, has, contains, contains_at, add_slot,
}
use cardinal_evm.State.AccessList.{add_slot_at, append_slots, contains_address}
use cardinal_evm.State.AccessList.Laws.{
  IsValid, get_elem?-append_left, get_elem?-append_end, lt_of_get_elem?,
}

-- No two addresses have the same set of slots.
pub record IsSeparate (al : AccessList) : Type 0 where
  pub separate :
      (a c : Address) (n : ℕ) → al.addresses a ≡ some (at n) → al.addresses c ≡ some (at n) → a ≡ c

-- The answer of Contains for (c, k) when (a, slot) is added.
abbrev pub with_slot : Bool → Bool → Bool × Bool → Bool × Bool
with_slot same_address same_slot (x, y) = (x || same_address, y || (same_address && same_slot))

unfoldable pub contains_after : AccessList → Address → Hash → Address → Hash → Option (Bool × Bool)
contains_after al a slot c k = do
  found ← contains al c k
  some (with_slot (a == c) (slot == k) found)

index_of : Index → ℕ
index_of unslotted = 0
index_of (at n) = n

at-injective : (m n : ℕ) → at m ≡ at n → m ≡ n
unfolding index_of
at-injective m n e = ap index_of e

appended_elsewhere :
    (al : AccessList) (s : List Hash) (i : Option Index) (m : Address → Option Index) (c : Address)
    (k : Hash)
    → IsValid al
    → al.addresses c ≡ i
    → contains_at (record { addresses = m; slots = al.slots ++ s ∷ [] }) i k ≡ contains_at al i k
unfolding contains_at
appended_elsewhere al s none m c k v e = refl
appended_elsewhere al s (some unslotted) m c k v e = refl
appended_elsewhere al s (some (at n)) m c k v e =
    let (x, xs, got) = v.filled c n e in
    rw (got, get_elem?-append_left al.slots (s ∷ []) n got) refl

set_elsewhere :
    (al : AccessList) (s : List Hash) (n : ℕ) (i : Option Index) (k : Hash)
    → ((j : ℕ) → i ≡ some (at j) → n ≢ j)
    → contains_at (record al { slots = set al.slots n s }) i k ≡ contains_at al i k
unfolding contains_at
set_elsewhere al s n none k h = refl
set_elsewhere al s n (some unslotted) k h = refl
set_elsewhere al s n (some (at j)) k h = rw (get_elem?-set_ne al.slots n j s (h j refl)) refl

-- The result of AddSlot: a list with the memberships of `contains_after` for all pairs, in which still no
-- two addresses share a set.
pub record Adds (al : AccessList) (a : Address) (slot : Hash)
    (result : Option (AccessList × Bool × Bool)) : Type 0 where
  pub out : AccessList
  pub flags : Bool × Bool
  pub returns : result ≡ some (out, flags.0, flags.1)
  pub members : (c : Address) (k : Hash) → contains out c k ≡ contains_after al a slot c k
  pub apart : IsSeparate out

unchanged :
    (found : Option (Bool × Bool)) (same_slot : Bool)
    → (found >>= λ r. some (with_slot false same_slot r)) ≡ found
unchanged none same_slot = refl
unchanged (some (x, y)) same_slot = ground arith

appended :
    (al : AccessList) (a : Address) (slot : Hash) (c : Address) (k : Hash)
    → IsValid al
    → contains al a k ≡ some (contains_address al a, false)
    → contains (append_slots al a slot) c k ≡ contains_after al a slot c k
unfolding contains append_slots contains_after
appended al a slot c k v fresh = elim (Bool-cases (a == c)) [
  | inl same ↦
      let e : a ≡ c = ground arith in
      rw (same, ← e, fresh, get_elem?-append_end al.slots (slot ∷ [])) (ground arith)
  | inr other ↦
      rw (other, appended_elsewhere al (slot ∷ []) (al.addresses c) _ c k v refl)
        (sym (unchanged (contains al c k) (slot == k)))
]

-- The address has the set `s` at `n`, with the slot in it or not.
present :
    (al : AccessList) (a : Address) (slot : Hash) (c : Address) (k : Hash) (n : ℕ) (s : List Hash)
    → al.addresses a ≡ some (at n)
    → get_elem? al.slots n ≡ some s
    → has s slot ≡ true
    → contains al c k ≡ contains_after al a slot c k
unfolding contains contains_at contains_after
present al a slot c k n s e got old = elim (Bool-cases (a == c)) [
  | inl same ↦
      let e' : a ≡ c = ground arith in
      rw (same, ← e', e, got)
        (elim (Bool-cases (slot == k)) [
          | inl here ↦ let e'' : slot ≡ k = ground arith in rw (here, ← e'', old) refl
          | inr there ↦ rw there (ground arith)
        ])
  | inr other ↦ rw other (sym (unchanged (contains al c k) (slot == k)))
]

extended :
    (al : AccessList) (a : Address) (slot : Hash) (c : Address) (k : Hash) (n : ℕ) (s : List Hash)
    → IsSeparate al
    → al.addresses a ≡ some (at n)
    → get_elem? al.slots n ≡ some s
    → contains (record al { slots = set al.slots n (slot ∷ s) }) c k ≡ contains_after al a slot c k
unfolding contains contains_at contains_after
extended al a slot c k n s apart e got = elim (Bool-cases (a == c)) [
  | inl same ↦
      let e' : a ≡ c = ground arith in
      rw
        (
          same,
          ← e',
          e,
          got,
          get_elem?-set_self al.slots n (slot ∷ s) (lt_of_get_elem? al.slots n got),
        )
        (ground arith)
  | inr other ↦ rw other (
      set_elsewhere al (slot ∷ s) n (al.addresses c) k
        (λ j q same_set. ground (arith, apart.separate a c n e (rw same_set q)))
      ∙ sym (unchanged (contains al c k) (slot == k)))
]

IsSeparate-append_slots :
    (al : AccessList) (a : Address) (slot : Hash)
    → IsValid al
    → IsSeparate al
    → IsSeparate (append_slots al a slot)
unfolding append_slots
IsSeparate-append_slots al a slot v apart = record {
  separate = λ c d n p q. elim (Bool-cases (a == c)) [
    | inl here ↦ elim (Bool-cases (a == d)) [
      | inl there ↦ ground arith
      | inr gone ↦
          let last : length al.slots ≡ n = at-injective _ _ (some-injective _ _ (rw here at p)) in
          let old = v.filled d n (rw gone at q) in
          absurd (omega (arith, lt_of_get_elem? al.slots n old.2, last))
    ]
    | inr away ↦ elim (Bool-cases (a == d)) [
      | inl there ↦
          let last : length al.slots ≡ n = at-injective _ _ (some-injective _ _ (rw there at q)) in
          let old = v.filled c n (rw away at p) in
          absurd (omega (arith, lt_of_get_elem? al.slots n old.2, last))
      | inr gone ↦ apart.separate c d n (rw away at p) (rw gone at q)
    ]
  ];
}

abbrev is_listed : Option Index → Bool
is_listed i = elim i [ none ↦ false | some j ↦ true ]

fresh_slot :
    (al : AccessList) (a : Address) (slot : Hash) (i : Option Index)
    → al.addresses a ≡ i
    → ((n : ℕ) → i ≢ some (at n))
    → contains al a slot ≡ some (contains_address al a, false)
unfolding contains contains_at contains_address
fresh_slot al a slot none e h =
    ap (λ x. contains_at al x slot) e ∙ ap (λ x. some (is_listed x, false)) (sym e)
fresh_slot al a slot (some unslotted) e h =
    ap (λ x. contains_at al x slot) e ∙ ap (λ x. some (is_listed x, false)) (sym e)
fresh_slot al a slot (some (at n)) e h = absurd (h n refl)

with_set :
    (al : AccessList) (a : Address) (slot : Hash) (n : ℕ) (s : List Hash)
    → IsSeparate al
    → al.addresses a ≡ some (at n)
    → get_elem? al.slots n ≡ some s
    → Adds al a slot (
        if has s slot
        then some (al, false, false)
        else some (record al { slots = set al.slots n (slot ∷ s) }, false, true))
with_set al a slot n s apart e got = elim (Bool-cases (has s slot)) [
  | inl old ↦ rw old (record {
    out = al;
    flags = (false, false);
    returns = refl;
    members = λ c k. present al a slot c k n s e got old;
    apart = apart;
  })
  | inr new ↦ rw new (record {
    out = record al { slots = set al.slots n (slot ∷ s) };
    flags = (false, true);
    returns = refl;
    members = λ c k. extended al a slot c k n s apart e got;
    apart = record { separate = apart.separate };
  })
]

-- On a valid access list in which no two addresses share a set, AddSlot does not panic; afterwards
-- exactly the pairs that were on the list, and the new address and slot, are on it, and still no two
-- addresses share a set.
pub add_slot-Adds :
    (al : AccessList) (a : Address) (slot : Hash)
    → IsValid al
    → IsSeparate al
    → Adds al a slot (add_slot al a slot)
unfolding add_slot
add_slot-Adds al a slot v apart = by_index (al.addresses a) refl
  where
    by_index : (i : Option Index) → al.addresses a ≡ i → Adds al a slot (add_slot_at al i a slot)
    by_index none e = record {
      out = append_slots al a slot;
      flags = (true, true);
      returns = refl;
      members = λ c k. appended al a slot c k v (fresh_slot al a k none e (λ n q. cc));
      apart = IsSeparate-append_slots al a slot v apart;
    }
    by_index (some unslotted) e = record {
      out = append_slots al a slot;
      flags = (false, true);
      returns = refl;
      members = λ c k. appended al a slot c k v (fresh_slot al a k (some unslotted) e (λ n q. cc));
      apart = IsSeparate-append_slots al a slot v apart;
    }
    by_index (some (at n)) e =
        let (x, xs, got) = v.filled a n e in rw got (with_set al a slot n (x ∷ xs) apart e got)
