-- ===== src/Core/Blockchain/Add.antt =====
-- `AddBlock` of core/blockchain.go: what it accepts, what it then leaves behind, and what a rejected
-- block leaves behind.
use goblockchain.Base.{
  ℕ, suc, ◌+◌, ◌-◌, ◌≡◌, refl, none, some, [], ◌∷◌, ◌++◌, Result, ok, err, panic, stuck, arith,
  length, get_elem?, bytes_eq, nat_eq, Option-cases, inl, inr, ◌∙◌, ◌⊎◌, Fails, ap, length-append,
  >>=-Fails, Result-cases, ◌>>◌,
}
use goblockchain.Base.Map.{lookup, insert}
use goblockchain.Types.Hash.{Hash}
use goblockchain.Core.Data.{HeaderPtr, Block, Error}
use goblockchain.Core.Platform.{Platform}
use goblockchain.Core.Block.{header_hash, block_hash}
use goblockchain.Core.Blockchain.{
  Blockchain, Session, height, validate_block, run_block, persist_block, store_block, add_block,
}
use goblockchain.Core.Store.{store_put}
use goblockchain.Core.Blockchain.Invariant.{IsValid, chain_headers, height_lem}
use goblockchain.Core.Blockchain.Persist.{
  with_header, block_hash_keeps, persist_block_ok, persist_block_unhashed, persist_block_exists,
}
use goblockchain.Core.Blockchain.Validate.{Extends, validate_keeps, validate_iff, validate_Extends}
use goblockchain.Core.Blockchain.Append.{Coherent, Grows, Grows-IsValid}

module _ (p : Platform) where
  -- What a successful `persistBlock` found: a hash, and no entry for it in the index.
  pub record Fresh (s : Session) : Type 0 where
    pub hash : Hash
    pub hashed : Block
    pub has_hash : block_hash p s.block ≡ (ok hash, hashed)
    pub unknown : lookup hash s.chain.headers.idx ≡ none

  pub persist_cases :
      (s : Session)
      → Fresh s
        ⊎ (Fails (persist_block p s).0
            × ((b : Block) × ((persist_block p s).1 ≡ record s { block = b })))
  persist_cases s = by_hash (block_hash p s.block).0 (block_hash p s.block).1 refl
    where
      by_hash :
          (r : Result Error Hash) (b : Block)
          → block_hash p s.block ≡ (r, b)
          → Fresh s
            ⊎ (Fails (persist_block p s).0
                × ((b : Block) × ((persist_block p s).1 ≡ record s { block = b })))
      by_hash (ok x) b e = elim (Option-cases (lookup x s.chain.headers.idx)) [
        | inl fresh ↦ inl (record { hash = x; hashed = b; has_hash = e; unknown = fresh })
        | inr (ix, known) ↦ inr (rw (persist_block_exists p s x b e known) (tt, (b, refl)))
      ]
      by_hash (err x) b e =
          let (f, q) = persist_block_unhashed p s (err x) b e tt in inr (f, (b, q))
      by_hash (panic x) b e =
          let (f, q) = persist_block_unhashed p s (panic x) b e tt in inr (f, (b, q))
      by_hash stuck b e = let (f, q) = persist_block_unhashed p s stuck b e tt in inr (f, (b, q))

  -- Running the transactions touches neither the headers nor the stores, nor the header of the block.
  run_block_keeps :
      (s : Session)
      → ((run_block p s).1.chain.headers ≡ s.chain.headers)
        × ((run_block p s).1.chain.store ≡ s.chain.store)
        × ((run_block p s).1.chain.tx_store ≡ s.chain.tx_store)
        × ((run_block p s).1.block.header ≡ s.block.header)
  unfolding run_block
  run_block_keeps s = (refl, refl, refl, refl)

  -- What `persistBlock` writes for a fresh block.
  record Persists (s : Session) : Type 0 where
    returns : (persist_block p s).0 ≡ ok tt
    grown :
        chain_headers (persist_block p s).1.chain ≡ chain_headers s.chain ++ (s.block.header ∷ [])
    block : Block
    of_header : block.header ≡ s.block.header
    stored : (persist_block p s).1.chain.store ≡ insert s.block.header.addr block s.chain.store
    hash : Hash
    indexed :
        (persist_block p s).1.chain.headers.idx
        ≡ insert hash
            (length (chain_headers s.chain ++ (s.block.header ∷ [])) - 1)
            s.chain.headers.idx

  Fresh-Persists : (s : Session) → Fresh s → Persists s
  unfolding store_block store_put
  Fresh-Persists s f =
      let done = persist_block_ok p s f.hash f.hashed f.has_hash f.unknown in
      let (_, same_header, _) = block_hash_keeps p s.block f.hashed f.hash f.has_hash in
      let last = ap (λ (x : Result Error (Unit {0}) × Session). x.1) done in
      record {
        returns = ap (λ x. x.0) done;
        grown =
            ap (λ (x : Session). chain_headers x.chain) last
            ∙ ap (λ h. chain_headers s.chain ++ (h ∷ [])) same_header;
        block = (store_block p (with_header p f.hash f.hashed s)).1.block;
        of_header = same_header;
        stored =
            ap (λ (x : Session). x.chain.store) last
            ∙ ap
                (λ (h : HeaderPtr).
                  insert h.addr (store_block p (with_header p f.hash f.hashed s)).1.block
                    s.chain.store)
                same_header;
        hash = f.hash;
        indexed =
            ap (λ (x : Session). x.chain.headers.idx) last
            ∙ ap
                (λ h.
                  insert f.hash (length (chain_headers s.chain ++ (h ∷ [])) - 1)
                    s.chain.headers.idx)
                same_header;
      }

  module _ (s : Session) (v : IsValid p s.chain) (x : Extends p s.chain s.block) where
    names_last :
        (i : ℕ) (a : HeaderPtr)
        → suc i ≡ length (chain_headers s.chain)
        → get_elem? (chain_headers s.chain) i ≡ some a
        → header_hash p a.target ≡ ok s.block.header.target.previous_block_hash
    names_last i a h e =
        let at_height : i ≡ height s.chain = omega (arith, height_lem p s.chain v) in
        let same : a ≡ x.last = ground (arith, x.is_last, rw at_height at e) in rw same x.names_last

    persist_Grows :
        Fresh (run_block p s).1
        → Grows p s.chain (persist_block p (run_block p s).1).1.chain s.block.header
    unfolding run_block
    persist_Grows f =
        let w = Fresh-Persists (run_block p s).1 f in
        record {
          next_height = x.next_height;
          in_range = x.in_range;
          names_last = names_last;
          grown = w.grown;
          block = w.block;
          of_header = w.of_header;
          stored = w.stored;
          hash = w.hash;
          indexed = w.indexed;
        }

  -- A validated block whose transactions run goes on to the store.
  pub add_block_persists :
      (s : Session)
      → validate_block p s ≡ (ok tt, s)
      → (run_block p s).0 ≡ ok tt
      → add_block p s ≡ persist_block p (run_block p s).1
  unfolding add_block
  add_block_persists s e r = rw (e, r)

  add_block_unvalidated :
      (s : Session)
      → Fails (validate_block p s).0
      → Fails (add_block p s).0 × ((add_block p s).1 ≡ (validate_block p s).1)
  unfolding add_block
  add_block_unvalidated s f = >>=-Fails (validate_block p) (λ _. run_block p >> persist_block p) s f

  pub add_block_unrun :
      (s : Session)
      → validate_block p s ≡ (ok tt, s)
      → Fails (run_block p s).0
      → Fails (add_block p s).0 × ((add_block p s).1 ≡ (run_block p s).1)
  unfolding add_block
  add_block_unrun s e f = rw e (>>=-Fails (run_block p) (λ _. persist_block p) s f)

  -- The parts of a chain that only a stored block changes.
  abbrev pub SameBlocks : Blockchain → Blockchain → Type 0
  SameBlocks bc bc' =
      (bc'.headers ≡ bc.headers) × (bc'.store ≡ bc.store) × (bc'.tx_store ≡ bc.tx_store)

  -- What an accepted block does to a valid chain.
  abbrev pub Extended : Blockchain → Block → Blockchain → Type 0
  Extended bc b bc' =
      IsValid p bc'
      × Extends p bc b
      × (chain_headers bc' ≡ chain_headers bc ++ (b.header ∷ []))
      × (height bc' ≡ height bc + 1)

  -- On a valid chain `AddBlock` either accepts a block that extends the chain: the headers before it
  -- stay, its header goes behind them, the height goes up by one, and the invariant holds again. Or
  -- it fails, and the headers and both stores are as before. (A header of the chain at the address of
  -- the block's header is that header.)
  pub add_block_outcome :
      (s : Session)
      → IsValid p s.chain
      → Coherent s.chain s.block.header
      → let (r, s') = add_block p s in
        ((r ≡ ok tt) × Extended s.chain s.block s'.chain) ⊎ (Fails r × SameBlocks s.chain s'.chain)
  add_block_outcome s v c = elim (Result-cases (validate_block p s).0) [
    | inr f ↦
        let (g, e) = add_block_unvalidated s f in
        inr (g, rw (e, validate_keeps p s) (refl, refl, refl))
    | inl (_, e) ↦ accepted ((validate_iff p s v).0 e)
  ]
    where
      extended :
          (x : Extends p s.chain s.block) (f : Fresh (run_block p s).1)
          → Extended s.chain s.block (persist_block p (run_block p s).1).1.chain
      extended x f =
          let g = persist_Grows s v x f in
          let w =
            Grows-IsValid p s.chain (persist_block p (run_block p s).1).1.chain s.block.header g v
              c in
          (
            w,
            x,
            g.grown,
            omega (
              arith,
              height_lem p s.chain v,
              height_lem p _ w,
              ap length g.grown,
              length-append (chain_headers s.chain) (s.block.header ∷ []),
            ),
          )

      accepted :
          Extends p s.chain s.block
          → let (r, s') = add_block p s in
            ((r ≡ ok tt) × Extended s.chain s.block s'.chain)
            ⊎ (Fails r × SameBlocks s.chain s'.chain)
      accepted x = elim (Result-cases (run_block p s).0) [
        | inr f ↦
            let (g, e) = add_block_unrun s (validate_Extends p s v x) f in
            let (a, b, d, _) = run_block_keeps s in inr (g, rw e (a, b, d))
        | inl (_, r) ↦ elim (persist_cases (run_block p s).1) [
          | inl f ↦
              let done = add_block_persists s (validate_Extends p s v x) r in
              inl (rw done ((Fresh-Persists (run_block p s).1 f).returns, extended x f))
          | inr (g, (b', e)) ↦
              let done = add_block_persists s (validate_Extends p s v x) r in
              let (a, b, d, _) = run_block_keeps s in inr (rw (done, e) (g, (a, b, d)))
        ]
      ]
