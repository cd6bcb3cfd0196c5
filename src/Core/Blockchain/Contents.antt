-- ===== src/Core/Blockchain/Contents.antt =====
-- What becomes of the contents of a block in `AddBlock` and `persistBlock` of core/blockchain.go: the
-- runs and the index write only to hashers and cached hashes, and the store gets the block as it is.
use goblockchain.Base.{
  ◌≡◌, refl, sym, ap, ◌∙◌, some, List, [], ◌∷◌, Result, ok, err, panic, stuck, arith, length,
  length-append, get_elem?, get_elem?-append_last, bytes_eq, nat_eq, inl, inr, Bool-cases,
  Option-cases, Result-cases, Fails-not_ok,
}
use goblockchain.Base.Map.{Map, lookup, insert}
use goblockchain.Base.MapLaws.{lookup-insert_self}
use goblockchain.Types.Hash.{Hash, is_zero}
use goblockchain.Vm.Value
use goblockchain.Vm.State.{State}
use goblockchain.Vm.Machine.{Vm, new_vm, run}
use goblockchain.Core.Data.{Transaction, HeaderPtr, Block, Error, default_tx_hasher}
use goblockchain.Core.Platform.{Platform}
use goblockchain.Core.Store.{store_put}
use goblockchain.Core.Transaction.{set_hasher, tx_hash}
use goblockchain.Core.Block.{block_hash}
use goblockchain.Core.Blockchain.{
  Blockchain, Session, height, get_block_at, run_txns, run_block, after_run, index_txns, after_hash,
  store_block, persist_block, add_block,
}
use goblockchain.Core.Blockchain.Invariant.{IsValid, chain_headers, height_lem, get_header_within}
use goblockchain.Core.Blockchain.Lookup.{found}
use goblockchain.Core.Blockchain.Persist.{with_header, persist_block_ok}
use goblockchain.Core.Blockchain.Validate.{Extends, validate_Extends}
use goblockchain.Core.Blockchain.Add.{persist_cases, add_block_persists, add_block_unrun, Extended}

-- The fields that are sent and signed.
abbrev pub SameTx : Transaction → Transaction → Type 0
SameTx t u = (u.tx_data ≡ t.tx_data) × (u.from ≡ t.from) × (u.signature ≡ t.signature)

abbrev pub SameTxs : List Transaction → List Transaction → Type 0
SameTxs [] [] = Unit
SameTxs (t ∷ txns) (u ∷ done) = SameTx t u × SameTxs txns done
SameTxs _ _ = ⊥

-- The block but for what it and its transactions cache.
abbrev pub SameBlock : Block → Block → Type 0
SameBlock b c =
    (c.header ≡ b.header)
    × (c.validator ≡ b.validator)
    × (c.signature ≡ b.signature)
    × SameTxs b.transactions c.transactions

SameTx-trans : (t u w : Transaction) → SameTx t u → SameTx u w → SameTx t w
SameTx-trans t u w (a, b, c) (d, e, f) = (d ∙ a, e ∙ b, f ∙ c)

pub SameTxs-refl : (txns : List Transaction) → SameTxs txns txns
SameTxs-refl [] = tt
SameTxs-refl (t ∷ txns) = ((refl, refl, refl), SameTxs-refl txns)

SameTxs-trans : (a b c : List Transaction) → SameTxs a b → SameTxs b c → SameTxs a c
SameTxs-trans [] [] [] s q = tt
SameTxs-trans [] [] (w ∷ c) s q = absurd q
SameTxs-trans [] (u ∷ b) c s q = absurd s
SameTxs-trans (t ∷ a) [] c s q = absurd s
SameTxs-trans (t ∷ a) (u ∷ b) [] s q = absurd q
SameTxs-trans (t ∷ a) (u ∷ b) (w ∷ c) (x, s) (y, q) =
    (SameTx-trans t u w x y, SameTxs-trans a b c s q)

pub SameBlock-trans : (a b c : Block) → SameBlock a b → SameBlock b c → SameBlock a c
SameBlock-trans a b c (h, v, s, t) (h', v', s', t') =
    (h' ∙ h, v' ∙ v, s' ∙ s, SameTxs-trans a.transactions b.transactions c.transactions t t')

module _ (p : Platform) where
  pub tx_hash-SameTx : (t : Transaction) → SameTx t (tx_hash p t).1
  unfolding tx_hash
  tx_hash-SameTx t = elim (Bool-cases (is_zero t.hash)) [
    | inr c ↦ rw c (refl, refl, refl)
    | inl z ↦ elim (Option-cases t.hasher) [
      | inl e ↦ rw (z, e) (refl, refl, refl)
      | inr (h, e) ↦ rw (z, e) (refl, refl, refl)
    ]
  ]

  pub set_hasher-SameTx :
      (t : Transaction) → SameTx t (tx_hash p (set_hasher default_tx_hasher t)).1
  unfolding set_hasher
  set_hasher-SameTx t = tx_hash-SameTx (set_hasher default_tx_hasher t)

  after_run-SameTxs :
      (t : Transaction) (txns : List Transaction) (r : Result Value.Error (Unit {0})) (v : Vm)
      (next : State → Result Error (Unit {0}) × State × List Transaction)
      → ((cs : State) → SameTxs txns (next cs).2)
      → SameTxs (t ∷ txns) (after_run p t txns (r, v) next).2
  after_run-SameTxs t txns (ok _) v next h = ((refl, refl, refl), h v.contract_state)
  after_run-SameTxs t txns (err e) v next h = (tx_hash-SameTx t, SameTxs-refl txns)
  after_run-SameTxs t txns (panic q) v next h = SameTxs-refl (t ∷ txns)
  after_run-SameTxs t txns stuck v next h = SameTxs-refl (t ∷ txns)

  run_txns-SameTxs : (txns : List Transaction) (cs : State) → SameTxs txns (run_txns p txns cs).2
  unfolding run_txns
  run_txns-SameTxs [] cs = tt
  run_txns-SameTxs (t ∷ txns) cs =
      after_run-SameTxs t txns (run (new_vm t.tx_data cs)).0 (run (new_vm t.tx_data cs)).1
        (run_txns p txns) (run_txns-SameTxs txns)

  after_hash-SameTxs :
      (s : Transaction) (txns : List Transaction) (r : Result Error Hash) (t : Transaction)
      (st : Map Hash Transaction)
      (next : Map Hash Transaction
        → Result Error (Unit {0}) × List Transaction × Map Hash Transaction)
      → SameTx s t
      → ((m : Map Hash Transaction) → SameTxs txns (next m).1)
      → SameTxs (s ∷ txns) (after_hash p txns (r, t) st next).1
  unfolding store_put
  after_hash-SameTxs s txns (ok x) t st next e h = (e, h (insert x t st))
  after_hash-SameTxs s txns (err y) t st next e h = (e, SameTxs-refl txns)
  after_hash-SameTxs s txns (panic q) t st next e h = (e, SameTxs-refl txns)
  after_hash-SameTxs s txns stuck t st next e h = (e, SameTxs-refl txns)

  index_txns-SameTxs :
      (txns : List Transaction) (st : Map Hash Transaction) → SameTxs txns (index_txns p txns st).1
  unfolding index_txns
  index_txns-SameTxs [] st = tt
  index_txns-SameTxs (t ∷ txns) st =
      after_hash-SameTxs t txns (tx_hash p (set_hasher default_tx_hasher t)).0
        (tx_hash p (set_hasher default_tx_hasher t)).1 st (index_txns p txns) (set_hasher-SameTx t)
        (index_txns-SameTxs txns)

  -- The block is under the address of its header in the store, as it comes back.
  abbrev pub Stores : Session → Session → Type 0
  Stores s s' =
      SameBlock s.block s'.block × (lookup s.block.header.addr s'.chain.store ≡ some s'.block)

  pub block_hash-SameBlock : (b c : Block) (h : Hash) → block_hash p b ≡ (ok h, c) → SameBlock b c
  unfolding block_hash
  block_hash-SameBlock b c h e =
      let (a, d, f, g) = fields b c h e in (a, d, f, rw g (SameTxs-refl b.transactions))
    where
      fields :
          (b c : Block) (h : Hash)
          → block_hash p b ≡ (ok h, c)
          → (c.header ≡ b.header)
            × (c.validator ≡ b.validator)
            × (c.signature ≡ b.signature)
            × (c.transactions ≡ b.transactions)
      fields b c h e = ground arith

  pub persist_block-Stores :
      (s : Session) → (persist_block p s).0 ≡ ok tt → Stores s (persist_block p s).1
  unfolding store_block store_put
  persist_block-Stores s r = elim (persist_cases p s) [
    | inr (g, _) ↦ absurd (Fails-not_ok (persist_block p s).0 r g)
    | inl x ↦
        let done = persist_block_ok p s x.hash x.hashed x.has_hash x.unknown in
        let (a, d, f, g) = block_hash-SameBlock s.block x.hashed x.hash x.has_hash in
        let out = (store_block p (with_header p x.hash x.hashed s)).1.block in
        rw done (
          (
            a,
            d,
            f,
            SameTxs-trans s.block.transactions x.hashed.transactions out.transactions g
                (index_txns-SameTxs x.hashed.transactions s.chain.tx_store),
          ),
          ap (λ (h : HeaderPtr). lookup h.addr (insert x.hashed.header.addr out s.chain.store))
                (sym a)
              ∙ lookup-insert_self x.hashed.header.addr out s.chain.store,
        )
  ]

  pub add_block-Stores :
      (s : Session)
      → IsValid p s.chain
      → Extends p s.chain s.block
      → (add_block p s).0 ≡ ok tt
      → Stores s (add_block p s).1
  unfolding run_block
  add_block-Stores s v x r = elim (Result-cases (run_block p s).0) [
    | inr f ↦
        absurd
          (Fails-not_ok (add_block p s).0 r (add_block_unrun p s (validate_Extends p s v x) f).0)
    | inl (_, e) ↦
        let done = add_block_persists p s (validate_Extends p s v x) e in
        let s1 = (run_block p s).1 in
        let (same, stored) = persist_block-Stores s1 (sym (ap (λ q. q.0) done) ∙ r) in
        rw done (
          SameBlock-trans s.block s1.block (persist_block p s1).1.block
              (refl, refl, refl, run_txns-SameTxs s.block.transactions s.chain.contract_state) same,
          stored,
        )
  ]

  -- `GetBlockAt` returns the block that was added last.
  pub Extended-get_block_at :
      (bc bc' : Blockchain) (b out : Block)
      → Extended p bc b bc'
      → lookup b.header.addr bc'.store ≡ some out
      → get_block_at (height bc') bc' ≡ ok out
  Extended-get_block_at bc bc' b out (v, _, grown, up) stored =
      let (hdr, at_last, got) = get_header_within p bc' v (height bc') (omega arith) in
      let last : get_elem? (chain_headers bc') (height bc') ≡ some b.header =
        ap (λ l. get_elem? l (height bc')) grown
        ∙ get_elem?-append_last (chain_headers bc) b.header (height bc') (
            omega (
              arith,
              height_lem p bc' v,
              ap length grown,
              length-append (chain_headers bc) (b.header ∷ []),
            )) in
      let same : hdr ≡ b.header = ground (arith, at_last, last) in
      found bc' (height bc') hdr out got (rw same stored)
