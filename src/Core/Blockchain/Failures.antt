-- ===== src/Core/Blockchain/Failures.antt =====
-- How `AddBlock` of core/blockchain.go fails once a block is validated: the transactions run on the
-- shared contract state, and nothing takes their writes back.
use goblockchain.Base.{
  ℕ, ◌≡◌, refl, true, none, ◌∷◌, List, Result, ok, err, panic, stuck, Panic, arith, ap, ◌∙◌, Fails,
}
use goblockchain.Types.Hash.{Hash, is_zero}
use goblockchain.Vm.Value
use goblockchain.Vm.State.{State}
use goblockchain.Vm.Stack.Refinement.{new_stack_lem}
use goblockchain.Vm.Machine.{Vm, new_vm, run}
use goblockchain.Vm.Machine.Run.{starts_badly, run_index_iff}
use goblockchain.Core.Blockchain.Add.{add_block_unrun}
use goblockchain.Core.Data.{Error, Transaction}
use goblockchain.Core.Platform.{Platform}
use goblockchain.Core.Transaction.{tx_hash}
use goblockchain.Core.Blockchain.{
  Session, validate_block, run_txns, run_block, add_block, after_run, vm_error,
}

module _ (p : Platform) where
  run_txns_ok :
      (t : Transaction) (txns : List Transaction) (cs : State) (v : Vm)
      → run (new_vm t.tx_data cs) ≡ (ok tt, v)
      → run_txns p (t ∷ txns) cs
        ≡ (let (r, cs', done) = run_txns p txns v.contract_state in (r, cs', t ∷ done))
  unfolding run_txns
  run_txns_ok t txns cs v e = rw (e, after_run)

  run_txns_err :
      (t : Transaction) (txns : List Transaction) (cs : State) (v : Vm) (e : Value.Error)
      → run (new_vm t.tx_data cs) ≡ (err e, v)
      → run_txns p (t ∷ txns) cs
        ≡ (vm_error p e (tx_hash p t).0, v.contract_state, (tx_hash p t).1 ∷ txns)
  unfolding run_txns
  run_txns_err t txns cs v e q = rw (q, after_run)

  run_txns_panic :
      (t : Transaction) (txns : List Transaction) (cs : State) (v : Vm) (q : Panic)
      → run (new_vm t.tx_data cs) ≡ (panic q, v)
      → run_txns p (t ∷ txns) cs ≡ (panic q, v.contract_state, t ∷ txns)
  unfolding run_txns
  run_txns_panic t txns cs v q e = rw (e, after_run)

  vm_error-Fails : (e : Value.Error) (r : Result Error Hash) → Fails (vm_error p e r)
  vm_error-Fails e (ok _) = tt
  vm_error-Fails e (err x) = tt
  vm_error-Fails e (panic q) = tt
  vm_error-Fails e stuck = tt

  second_fails :
      (t u : Transaction) (txns : List Transaction) (cs : State) (v w : Vm) (e : Value.Error)
      → run (new_vm t.tx_data cs) ≡ (ok tt, v)
      → run (new_vm u.tx_data v.contract_state) ≡ (err e, w)
      → run_txns p (t ∷ u ∷ txns) cs
        ≡ (vm_error p e (tx_hash p u).0, w.contract_state, t ∷ (tx_hash p u).1 ∷ txns)
  second_fails t u txns cs v w e first second =
      rw (run_txns_ok t (u ∷ txns) cs v first, run_txns_err u txns v.contract_state w e second)

  nil_hash :
      (t : Transaction)
      → t.hasher ≡ none
      → is_zero t.hash ≡ true
      → tx_hash p t ≡ (panic Panic.nil_dereference, t)
  unfolding tx_hash
  nil_hash t n z = ground arith

  bad_run :
      (code : List ℕ) (cs : State)
      → starts_badly code ≡ true
      → run (new_vm code cs) ≡ (panic Panic.index_out_of_range, (run (new_vm code cs)).1)
  unfolding new_vm
  bad_run code cs bad =
      ap (λ r. (r, (run (new_vm code cs)).1))
        ((run_index_iff (new_vm code cs) (new_stack_lem 0).0 refl).1 bad)

  module _ (s : Session) (validated : validate_block p s ≡ (ok tt, s)) where
    run-Fails :
        {r : Result Error (Unit {0})} {cs : State} {done : List Transaction}
        → run_txns p s.block.transactions s.chain.contract_state ≡ (r, cs, done)
        → Fails r
        → Fails (add_block p s).0
          × ((add_block p s).1.chain ≡ record s.chain { contract_state = cs })
    unfolding run_block
    run-Fails e f = let (g, same) = add_block_unrun p s validated (rw e f) in (g, rw (same, e))

    run_panics :
        {q : Panic} {cs : State} {done : List Transaction}
        → run_txns p s.block.transactions s.chain.contract_state ≡ (panic q, cs, done)
        → (add_block p s).0 ≡ panic q
    unfolding add_block run_block
    run_panics e = rw (validated, e)

    -- A validated block whose first transaction runs to its end and whose second returns an error is
    -- rejected, but the chain keeps the contract state that the two have left behind.
    pub add_block_not_atomic :
        (t u : Transaction) (txns : List Transaction) (v w : Vm) (e : Value.Error)
        → s.block.transactions ≡ t ∷ u ∷ txns
        → run (new_vm t.tx_data s.chain.contract_state) ≡ (ok tt, v)
        → run (new_vm u.tx_data v.contract_state) ≡ (err e, w)
        → Fails (add_block p s).0
          × ((add_block p s).1.chain ≡ record s.chain { contract_state = w.contract_state })
    add_block_not_atomic t u txns v w e has first second =
        run-Fails
          (ap (λ l. run_txns p l s.chain.contract_state) has
            ∙ second_fails t u txns s.chain.contract_state v w e first second)
          (vm_error-Fails e (tx_hash p u).0)

    -- A transaction that came over the wire has no hasher and no cached hash: where its run returns
    -- an error as the first of a validated block, the message for the error dereferences the nil
    -- hasher, and the node panics.
    pub add_block_nil_hasher :
        (t : Transaction) (txns : List Transaction) (v : Vm) (e : Value.Error)
        → s.block.transactions ≡ t ∷ txns
        → t.hasher ≡ none
        → is_zero t.hash ≡ true
        → run (new_vm t.tx_data s.chain.contract_state) ≡ (err e, v)
        → (add_block p s).0 ≡ panic Panic.nil_dereference
    add_block_nil_hasher t txns v e has nil uncached fails = run_panics (
        ap (λ l. run_txns p l s.chain.contract_state) has
        ∙ run_txns_err t txns s.chain.contract_state v e fails
        ∙ ap (λ r. (vm_error p e r, v.contract_state, (tx_hash p t).1 ∷ txns))
            (ap (λ r. r.0) (nil_hash t nil uncached)))

    -- Validation does not look at the code of a transaction: a validated block whose first
    -- transaction has no data, or data that begin with a push instruction, panics the node.
    pub add_block_bad_code :
        (t : Transaction) (txns : List Transaction)
        → s.block.transactions ≡ t ∷ txns
        → starts_badly t.tx_data ≡ true
        → (add_block p s).0 ≡ panic Panic.index_out_of_range
    add_block_bad_code t txns has bad =
        let vm = new_vm t.tx_data s.chain.contract_state in
        run_panics (
          ap (λ l. run_txns p l s.chain.contract_state) has
          ∙ run_txns_panic t txns s.chain.contract_state (run vm).1 Panic.index_out_of_range
              (bad_run t.tx_data s.chain.contract_state bad))
