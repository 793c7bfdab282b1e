-- ===== src/Vm/Interpreter/ReadOnly.antt =====
-- The instructions of a static call.
use cardinal_evm.Prelude.{ℕ, zero, suc, ◌≡◌, refl, arith}
use cardinal_evm.State.Db.{StateDb}
use cardinal_evm.State.Db.Ops
use cardinal_evm.Vm.Stack
use cardinal_evm.Vm.Scope
use cardinal_evm.Vm.Scope.{Scope, Step, ok, exit, crash, X, ◌>>=◌, ◌>>◌}
use cardinal_evm.Vm.Instructions.Words
use cardinal_evm.Vm.Instructions.Context
use cardinal_evm.Vm.Instructions.Access
use cardinal_evm.Vm.Instructions.Control
use cardinal_evm.Vm.JumpTable.Operation.{}

-- Only the objects may differ, by what a read has put into their caches.
abbrev pub IsUnwritten : StateDb → StateDb → Type 0
IsUnwritten d d' =
    (d'.journal ≡ d.journal)
    × (d'.transient ≡ d.transient)
    × (d'.refund ≡ d.refund)
    × (d'.access_list ≡ d.access_list)

abbrev pub WritesNothing : {A : Type 0} → Scope → Step A → Type 0
WritesNothing s (ok a s') = IsUnwritten s.db s'.db
WritesNothing s (exit e ret s') = IsUnwritten s.db s'.db
WritesNothing s crash = Unit {0}

drop_topics-WritesNothing : (n : ℕ) (s : Scope) → WritesNothing s (Access.drop_topics n s)
unfolding Access.drop_topics Scope.pop
drop_topics-WritesNothing zero s = (refl, refl, refl, refl)
drop_topics-WritesNothing (suc n) s = grind (arith, drop_topics-WritesNothing n)
