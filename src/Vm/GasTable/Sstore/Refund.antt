-- ===== src/Vm/GasTable/Sstore/Refund.antt =====
-- The refund counter under a sequence of storage writes: what SSTORE's gas function takes off it, an
-- earlier write has put there.
use cardinal_evm.Prelude.{ℕ, ◌+◌, ◌^◌, ◌<◌, ◌≤◌, ◌≡◌, refl, sym, ap, ◌∙◌, arith, ◌==◌}
use cardinal_evm.Prelude.{true, false, not, ◌||◌, if◌then◌else◌}
use cardinal_evm.Prelude.{insert, Bool-cases, inl, inr}
use cardinal_evm.State.Account.{Address, Hash, Backend}
use cardinal_evm.State.Object.{StateObject}
use cardinal_evm.State.Object.Load
use cardinal_evm.State.Object.Caches
use cardinal_evm.State.Object.Change
use cardinal_evm.State.Object.Caches.{state_at}
use cardinal_evm.State.Object.Views.{Same, committed_view}
use cardinal_evm.State.Db.{StateDb, object, read}
use cardinal_evm.State.Db.Agree.{Agree, Agree-trans, object-put}
use cardinal_evm.State.Db.Undo.{Agree-put-Same}
use cardinal_evm.State.Db.Ops
use cardinal_evm.Vm.GasTable.Sstore.{Schedule, net_cost, net_metered}
use cardinal_evm.Vm.GasTable.Sstore.Net.{Covers, Covers-change, covered_one, same_cell}
use cardinal_evm.Vm.Uint256.{Uint256}

-- What the counter owes for a cell: the clearing refund of a cell that held a value and is now zero.
unfoldable pub owed : Schedule → Hash → Hash → ℕ
owed p original current = if (original == 0) || not (current == 0) then 0 else p.clear_refund

abbrev pub largest : Schedule → ℕ
largest p = p.clear_refund + p.reset_clear_refund + p.reset_refund

-- One write's effect on the counter: at least the change of what is owed for the cell, and at most
-- `largest`.
net_cost_refund :
    (p : Schedule) (o c v : Hash) (db : StateDb)
    → (c == v) ≡ false
    → owed p o c ≤ db.refund
    → db.refund + largest p < 2 ^ 64
    → (db.refund + owed p o v ≤ (net_cost p o c v db).1.refund + owed p o c)
      × ((net_cost p o c v db).1.refund ≤ db.refund + largest p)
unfolding net_cost owed Ops.add_refund Ops.sub_refund
net_cost_refund p o c v db ne h small = ground arith

net_cost-objects :
    (p : Schedule) (o c v : Hash) (db : StateDb) → (net_cost p o c v db).1.state ≡ db.state
unfolding net_cost Ops.add_refund Ops.sub_refund
net_cost-objects p o c v db = ground arith

module _ (u : Uint256) (b : Backend) where
  -- SSTORE on the state: the gas function's reads and refunds, then opSstore.
  unfoldable pub sstore : Schedule → Address → Hash → Hash → StateDb → StateDb
  sstore p a slot value db =
      let (current, db1) = Ops.get_state b db a slot in
      let (cost, db2) = net_metered u b p a slot current value db1 in
      Ops.set_state b db2 a slot value

  abbrev pub original_at : StateDb → Address → Hash → Hash
  original_at db a j = committed_view b (object db a) j

  abbrev pub current_at : StateDb → Address → Hash → Hash
  current_at db a j = state_at b ((object db a).dirty j) (original_at db a j)

  unfoldable pub owed_at : Schedule → StateDb → Address → Hash → ℕ
  owed_at p db a j = owed p (original_at db a j) (current_at db a j)

  -- The counter covers what is owed for any distinct cells.
  abbrev pub IsCovered : Schedule → StateDb → Type 0
  IsCovered p db = Covers (owed_at p db) db.refund

  original_at-Agree :
      (s t : StateDb) (a : Address) (j : Hash) → Agree b s t → original_at s a j ≡ original_at t a j
  original_at-Agree s t a j h = (h.object_at a).committed j

  current_at-Agree :
      (s t : StateDb) (a : Address) (j : Hash) → Agree b s t → current_at s a j ≡ current_at t a j
  current_at-Agree s t a j h =
      λ i. state_at b ((h.object_at a).dirty i j) ((h.object_at a).committed j i)

  -- What the net-metered part does to the state: it may fill caches, and moves the counter.
  record Metered (p : Schedule) (a : Address) (slot value : Hash) (db db' : StateDb) : Type 0 where
    filled : StateDb
    agree : Agree b db filled
    objects : db'.state ≡ filled.state
    enough :
        db.refund + owed p (original_at db a (Ops.slot_key b slot)) value
        ≤ db'.refund + owed_at p db a (Ops.slot_key b slot)
    little : db'.refund ≤ db.refund + largest p

  read-Agree :
      {A : Type 0} (f : StateObject → A × StateObject) (s : StateDb) (a : Address)
      → ((o : StateObject) → Same b o (f o).1)
      → Agree b s (read f s a).1
  read-Agree f s a h = Agree-put-Same b s a _ (h (object s a))

  current_lem :
      (db : StateDb) (a : Address) (slot : Hash)
      → (Ops.get_state b db a slot).0 ≡ current_at db a (Ops.slot_key b slot)
  unfolding Ops.get_state
  current_lem db a slot = Caches.get_state_lem b (object db a) (Ops.slot_key b slot)

  metered :
      (p : Schedule) (a : Address) (slot value : Hash) (db db1 : StateDb)
      → Agree b db db1
      → IsCovered p db
      → db.refund + largest p < 2 ^ 64
      → Metered p a slot value db
          (net_metered u b p a slot (current_at db a (Ops.slot_key b slot)) value db1).1
  unfolding net_metered owed_at Ops.get_committed_state
  metered p a slot value db db1 h cover small =
      let c = current_at db a (Ops.slot_key b slot) in
      let o = original_at db a (Ops.slot_key b slot) in
      elim (Bool-cases (c == value)) [
        | inl same ↦
            let e : c ≡ value = ground arith in
            rw same (record {
              filled = db1;
              agree = h;
              objects = refl;
              enough = rw (← h.refund, ← e) (omega arith);
              little = rw (← h.refund) (omega arith);
            })
        | inr other ↦
            let k =
              read-Agree (λ x. Load.get_committed_state b x (Ops.slot_key b slot)) db1 a
                (λ x. Caches.get_committed_state-Same b x (Ops.slot_key b slot)) in
            let db2 = (Ops.get_committed_state b db1 a slot).1 in
            let found =
              Caches.get_committed_state_lem b (object db1 a) (Ops.slot_key b slot)
              ∙ sym (original_at-Agree db db1 a (Ops.slot_key b slot) h) in
            let paid =
              net_cost_refund p o c value db2 other
                (rw (← h.refund)
                  (covered_one (owed_at p db) db.refund a (Ops.slot_key b slot) cover))
                (rw (← h.refund) small) in
            rw (other, found)
              (record {
                filled = db2;
                agree = Agree-trans b h k;
                objects = net_cost-objects p o c value db2;
                enough = rw h.refund paid.0;
                little = rw h.refund paid.1;
              })
      ]

  abbrev owed_in : Schedule → StateObject → Hash → ℕ
  owed_in p o j = owed p (committed_view b o j) (state_at b (o.dirty j) (committed_view b o j))

  owed_in-Same :
      (p : Schedule) (o o' : StateObject) (j : Hash) → Same b o o' → owed_in p o j ≡ owed_in p o' j
  owed_in-Same p o o' j h =
      λ i. owed p (h.committed j i) (state_at b (h.dirty i j) (h.committed j i))

  abbrev written : StateObject → Hash → Hash → StateObject
  written o key value = record o { dirty = insert o.dirty key value }

  owed_in-written :
      (p : Schedule) (o : StateObject) (key j value : Hash)
      → owed_in p (written o key value) j
        ≡ (if key == j then owed p (committed_view b o key) value else owed_in p o j)
  owed_in-written p o key j value = elim (Bool-cases (key == j)) [
    | inl same ↦ let e : key ≡ j = ground arith in rw same (rw e refl)
    | inr other ↦ rw other refl
  ]

  object-set_state :
      (db' : StateDb) (a : Address) (slot value : Hash) (c : Address)
      → object (Ops.set_state b db' a slot value) c
        ≡ (if a == c then written (object db' a) (Ops.slot_key b slot) value else object db' c)
  unfolding Ops.set_state Change.set_state
  object-set_state db' a slot value c = object-put db' a c _

  owed_by_object :
      (p : Schedule) (o : StateObject) (c : Address) (db : StateDb) (j : Hash)
      → object db c ≡ o
      → owed_at p db c j ≡ owed_in p o j
  unfolding owed_at
  owed_by_object p o c db j e = ap (λ x. owed_in p x j) e

  -- A write into a state whose objects are those of one that agrees with `db`: the cell's charge is
  -- the new value's, the others' are as they were.
  owed_after :
      (p : Schedule) (db db' h : StateDb) (a : Address) (slot value : Hash)
      → Agree b db h
      → db'.state ≡ h.state
      → (c : Address) (j : Hash)
      → owed_at p (Ops.set_state b db' a slot value) c j ≡ (
          if same_cell a (Ops.slot_key b slot) c j
          then owed p (original_at db a (Ops.slot_key b slot)) value
          else owed_at p db c j)
  owed_after p db db' h a slot value agree same c j = elim (Bool-cases (a == c)) [
    | inl here ↦
        let e : a ≡ c = ground arith in
        let found : object db' a ≡ object h a = unchanged a in
        owed_by_object p (written (object db' a) key value) c _ j
          (object-set_state db' a slot value c ∙ rw here refl)
        ∙ owed_in-written p (object db' a) key j value
        ∙ (elim (Bool-cases (key == j)) [
          | inl same_key ↦
              rw (here, same_key)
                (ap (λ o. owed p (committed_view b o key) value) found
                  ∙ ap (λ x. owed p x value) (sym (original_at-Agree db h a key agree)))
          | inr other_key ↦ rw (here, other_key) (rw (← e) (before a))
        ])
    | inr elsewhere ↦ rw elsewhere (
        owed_by_object p (object db' c) c _ j
          (object-set_state db' a slot value c ∙ rw elsewhere refl)
        ∙ before c)
  ]
    where
      key : Hash
      key = Ops.slot_key b slot

      unchanged : (x : Address) → object db' x ≡ object h x
      unchanged x = ap (λ m. object (record db' { state = m }) x) same

      before : (x : Address) → owed_in p (object db' x) j ≡ owed_at p db x j
      before x =
          ap (λ o. owed_in p o j) (unchanged x)
          ∙ sym (owed_in-Same p (object db x) (object h x) j (agree.object_at x))
          ∙ sym (owed_by_object p (object db x) x db j refl)

  refund-set_state :
      (db : StateDb) (a : Address) (slot value : Hash)
      → (Ops.set_state b db a slot value).refund ≡ db.refund
  unfolding Ops.set_state
  refund-set_state db a slot value = refl

  -- One SSTORE keeps the counter covering, and adds at most `largest` to it.
  pub sstore-IsCovered :
      (p : Schedule) (a : Address) (slot value : Hash) (db : StateDb)
      → IsCovered p db
      → db.refund + largest p < 2 ^ 64
      → IsCovered p (sstore p a slot value db)
        × ((sstore p a slot value db).refund ≤ db.refund + largest p)
  unfolding sstore Ops.get_state Ops.set_state
  sstore-IsCovered p a slot value db cover small =
      let filled =
        read-Agree (λ o. Load.get_state b o (Ops.slot_key b slot)) db a
          (λ o. Caches.get_state-Same b o (Ops.slot_key b slot)) in
      let key = Ops.slot_key b slot in
      let db1 = (Ops.get_state b db a slot).1 in
      let m = metered p a slot value db db1 filled cover small in
      let db2 = (net_metered u b p a slot (current_at db a key) value db1).1 in
      let after = owed_after p db db2 m.filled a slot value m.agree m.objects in
      let self : same_cell a key a key ≡ true = ground arith in
      let new = after a key ∙ rw self refl in
      rw (current_lem db a slot, refund-set_state db2 a slot value)
        (
          Covers-change (owed_at p db) (owed_at p (Ops.set_state b db2 a slot value)) a key
              (λ c j other. after c j ∙ rw other refl) db.refund db2.refund (rw new m.enough) cover,
          m.little,
        )
