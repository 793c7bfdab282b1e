-- ===== src/State/Db/Cells.antt =====
-- What stateDB answers for a storage slot: after SetState, and after Finalise.
use cardinal_evm.Prelude.{◌≡◌, refl, ap, sym, ◌∙◌, arith, ◌&&◌, if◌then◌else◌, ◌==◌}
use cardinal_evm.Prelude.{Option, none, some, insert, Bool-cases, inl, inr}
use cardinal_evm.State.Account.{Address, Hash, Backend}
use cardinal_evm.State.Object.{StateObject, new_object}
use cardinal_evm.State.Object
use cardinal_evm.State.Object.Caches
use cardinal_evm.State.Object.Caches.{state_at}
use cardinal_evm.State.Object.Change
use cardinal_evm.State.Object.Views.{committed_view, committed_at}
use cardinal_evm.State.Db.{StateDb, object, finalise}
use cardinal_evm.State.Db.Agree.{object-put}
use cardinal_evm.State.Db.Ops

module _ (b : Backend) where
  abbrev written : StateObject → Hash → Hash → StateObject
  written o key value = record o { dirty = insert o.dirty key value }

  object-set_state :
      (s : StateDb) (a : Address) (slot value : Hash) (c : Address)
      → object (Ops.set_state b s a slot value) c
        ≡ (if a == c then written (object s a) (Ops.slot_key b slot) value else object s c)
  unfolding Ops.set_state Change.set_state
  object-set_state s a slot value c = object-put s a c _

  -- What GetState answers of an object.
  abbrev cell : StateObject → Hash → Hash
  cell o key = state_at b (o.dirty key) (committed_view b o key)

  get_state-cell :
      (s : StateDb) (a : Address) (slot : Hash)
      → (Ops.get_state b s a slot).0 ≡ cell (object s a) (Ops.slot_key b slot)
  unfolding Ops.get_state
  get_state-cell s a slot = Caches.get_state_lem b (object s a) (Ops.slot_key b slot)

  cell-written :
      (o : StateObject) (key value k : Hash)
      → cell (written o key value) k ≡ (if key == k then value else cell o k)
  cell-written o key value k = elim (Bool-cases (key == k)) [
    | inl same ↦ rw same refl
    | inr other ↦ rw other refl
  ]

  -- After SetState, GetState answers the new value for that account and every slot position with the
  -- same hash, and what it answered before for all others.
  pub get_state-set_state :
      (s : StateDb) (a : Address) (slot value : Hash) (c : Address) (k : Hash)
      → (Ops.get_state b (Ops.set_state b s a slot value) c k).0 ≡ (
          if (a == c) && (Ops.slot_key b slot == Ops.slot_key b k)
          then value
          else (Ops.get_state b s c k).0)
  get_state-set_state s a slot value c k =
      get_state-cell (Ops.set_state b s a slot value) c k
      ∙ ap (λ o. cell o (Ops.slot_key b k)) (object-set_state s a slot value c)
      ∙ (elim (Bool-cases (a == c)) [
        | inl here ↦
            let e : a ≡ c = ground arith in
            rw (here, get_state-cell s c k, ← e)
              (cell-written (object s a) (Ops.slot_key b slot) value (Ops.slot_key b k))
        | inr elsewhere ↦ rw elsewhere (sym (get_state-cell s c k))
      ])

  -- The clean entry of a slot after the merge, and what it answers.
  abbrev merged : Option Hash → Option Hash → Option Hash
  merged dirty clean = elim dirty [ some v ↦ some v | none ↦ clean ]

  cell_merged :
      (a : Address) (key : Hash) (dirty clean : Option Hash)
      → state_at b dirty (committed_at b a key (merged dirty clean))
        ≡ state_at b dirty (committed_at b a key clean)
  cell_merged a key none clean = refl
  cell_merged a key (some v) clean = refl

  committed_merged :
      (a : Address) (key : Hash) (dirty clean : Option Hash)
      → committed_at b a key (merged dirty clean) ≡ state_at b dirty (committed_at b a key clean)
  committed_merged a key none clean = refl
  committed_merged a key (some v) clean = refl

  cell-finalise : (o : StateObject) (key : Hash) → cell (Object.finalise o) key ≡ cell o key
  unfolding Object.finalise
  cell-finalise o key = cell_merged o.address key (o.dirty key) (o.clean key)

  committed-finalise :
      (o : StateObject) (key : Hash) → committed_view b (Object.finalise o) key ≡ cell o key
  unfolding Object.finalise
  committed-finalise o key = committed_merged o.address key (o.dirty key) (o.clean key)

  -- The objects of a finalised state: one that was not there is as a new one finalised.
  finalised_cell :
      (s : StateDb) (a : Address) (key : Hash)
      → (cell (object (finalise s) a) key ≡ cell (object s a) key)
        × (committed_view b (object (finalise s) a) key ≡ cell (object s a) key)
  unfolding finalise
  finalised_cell s a key = by_entry (s.state a) refl
    where
      by_entry :
          (x : Option StateObject)
          → s.state a ≡ x
          → (cell (object (finalise s) a) key ≡ cell (object s a) key)
            × (committed_view b (object (finalise s) a) key ≡ cell (object s a) key)
      by_entry none e = simp e (refl, refl)
      by_entry (some o) e = simp e (cell-finalise o key, committed-finalise o key)

  -- After Finalise, every slot answers as it did, and GetCommittedState answers that too: for the next
  -- transaction, the value of a slot is its original value.
  pub finalise-commits :
      (s : StateDb) (a : Address) (slot : Hash)
      → ((Ops.get_state b (finalise s) a slot).0 ≡ (Ops.get_state b s a slot).0)
        × ((Ops.get_committed_state b (finalise s) a slot).0 ≡ (Ops.get_state b s a slot).0)
  unfolding Ops.get_committed_state
  finalise-commits s a slot =
      let (state, committed) = finalised_cell s a (Ops.slot_key b slot) in
      let before = get_state-cell s a slot in
      (
        get_state-cell (finalise s) a slot ∙ state ∙ sym before,
        Caches.get_committed_state_lem b (object (finalise s) a) (Ops.slot_key b slot)
            ∙ committed
            ∙ sym before,
      )
