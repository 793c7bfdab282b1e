-- ===== src/Vm/GasTable/Sstore/Runs.antt =====
-- Any sequence of SSTOREs of a transaction, from a state whose slots have their committed values.
use cardinal_evm.Prelude.{ℕ, ◌+◌, ◌*◌, ◌^◌, ◌<◌, ◌≤◌, ◌≡◌, refl, arith, ◌==◌, false, ap, ◌∙◌}
use cardinal_evm.Prelude.{List, [], ◌∷◌, length}
use cardinal_evm.State.Account.{Address, Hash, Backend}
use cardinal_evm.State.Db.{StateDb}
use cardinal_evm.Vm.Uint256.{Uint256}
use cardinal_evm.Vm.GasTable.Sstore.{Schedule}
use cardinal_evm.Vm.GasTable.Sstore.Net.{covered_one, Cells, sum}
use cardinal_evm.Vm.GasTable.Sstore.Refund.{
  owed, owed_at, largest, sstore, IsCovered, sstore-IsCovered,
}
use cardinal_evm.Vm.GasTable.Sstore.Refund.{original_at, current_at}

pub record Write : Type 0 where
  pub address : Address
  pub slot : Hash
  pub value : Hash

module _ (u : Uint256) (b : Backend) (p : Schedule) where
  unfoldable pub sstores : List Write → StateDb → StateDb
  sstores [] db = db
  sstores (w ∷ ws) db = sstores ws (sstore u b p w.address w.slot w.value db)

  owed_unwritten : (original : Hash) → owed p original original ≡ 0
  unfolding owed
  owed_unwritten original = ground arith

  nothing_owed :
      (f : Address → Hash → ℕ) → ((a : Address) (j : Hash) → f a j ≡ 0) → (l : Cells) → sum f l ≡ 0
  unfolding sum
  nothing_owed f h [] = refl
  nothing_owed f h ((a, j) ∷ l) = omega (arith, h a j, nothing_owed f h l)

  clean-IsCovered :
      (db : StateDb)
      → ((a : Address) (j : Hash) → current_at u b db a j ≡ original_at u b db a j)
      → IsCovered u b p db
  unfolding owed_at
  clean-IsCovered db h = record {
    covered = λ l d. omega (
      arith,
      nothing_owed (owed_at u b p db) (λ a j. ap (owed p _) (h a j) ∙ owed_unwritten _) l,
    );
  }

  sstores-IsCovered :
      (ws : List Write) (db : StateDb)
      → IsCovered u b p db
      → db.refund + length ws * largest p < 2 ^ 64
      → IsCovered u b p (sstores ws db)
  unfolding sstores
  sstores-IsCovered [] db cover small = cover
  sstores-IsCovered (w ∷ ws) db cover small =
      let (after, little) =
        sstore-IsCovered u b p w.address w.slot w.value db cover
          (omega (arith, more (length ws) (largest p), small)) in
      sstores-IsCovered ws (sstore u b p w.address w.slot w.value db) after
        (omega (arith, little, more (length ws) (largest p), small))
    where
      more : (n m : ℕ) → (1 + n) * m ≡ m + n * m
      more n m = ground arith

  -- From a state whose slots have their committed values, after any SSTOREs that cannot bring the counter to 2^64,
  -- the refund counter holds at least the clearing refund for a cell that had a value and now is zero:
  -- the SubRefund that writing it again makes does not go below zero, whatever the other cells did.
  pub sub_refund_covered :
      (ws : List Write) (db : StateDb) (a : Address) (j : Hash)
      → ((c : Address) (k : Hash) → current_at u b db c k ≡ original_at u b db c k)
      → db.refund + length ws * largest p < 2 ^ 64
      → (original_at u b (sstores ws db) a j == 0) ≡ false
      → current_at u b (sstores ws db) a j ≡ 0
      → p.clear_refund ≤ (sstores ws db).refund
  unfolding owed_at owed
  sub_refund_covered ws db a j clean small was now =
      let h = sstores-IsCovered ws db (clean-IsCovered db clean) small in
      let one = covered_one (owed_at u b p (sstores ws db)) (sstores ws db).refund a j h in
      simp (was, now) at one
