-- ===== src/Core/Blockchain/TxIndex.antt =====
-- The transaction store of core/blockchain.go: `persistBlock` files each transaction under its hash.
use goblockchain.Base.{
  ℕ, zero, suc, ◌≡◌, some, [], ◌∷◌, List, Result, ok, arith, get_elem?, bytes_eq, bytes_beq,
  bytes_beq_iff, Fails-not_ok, inl, inr, ap, ◌∙◌, ◌⊎◌, refl, Bool-cases,
}
use mathlib.Core.Path.{subst}
use goblockchain.Base.Map.{Map, lookup, insert}
use goblockchain.Base.MapLaws.{lookup-insert, lookup-insert_self}
use goblockchain.Types.Hash.{Hash}
use goblockchain.Core.Data.{Transaction, Error, default_tx_hasher}
use goblockchain.Core.Platform.{Platform}
use goblockchain.Core.Store.{store_get}
use goblockchain.Core.Transaction.{set_hasher, tx_hash}
use goblockchain.Core.Blockchain.{
  Blockchain, Session, get_transaction, index_txns, after_hash, store_block, persist_block,
}
use goblockchain.Core.Blockchain.Persist.{
  tx_hash_ok, with_header, block_hash_keeps, persist_block_ok,
}
use goblockchain.Core.Blockchain.Add.{persist_cases}
use goblockchain.Core.Blockchain.Contents.{SameTx, set_hasher-SameTx}

module _ (p : Platform) where
  -- The hash under which `persistBlock` files a transaction.
  abbrev pub filed_hash : Transaction → Result Error Hash
  filed_hash t = (tx_hash p (set_hasher default_tx_hasher t)).0

  -- Each entry of the transaction store carries the hash that it stands under.
  abbrev pub IsFiled : Map Hash Transaction → Type 0
  IsFiled st = (h : Hash) (w : Transaction) → lookup h st ≡ some w → w.hash ≡ h

  -- But for what it caches, it is one of the transactions, and one with this hash.
  abbrev pub OneOf : Hash → List Transaction → Transaction → Type 0
  OneOf h txns w =
      (j : ℕ) × (u : Transaction) × (get_elem? txns j ≡ some u) × (filed_hash u ≡ ok h) × SameTx u w

  -- A transaction of the list has a hash, and under it is one of them with this hash.
  abbrev pub Finds : Blockchain → List Transaction → Transaction → Type 0
  Finds bc txns t =
      (h : Hash) × (filed_hash t ≡ ok h)
      × ((w : Transaction) × (get_transaction h bc ≡ ok w) × (w.hash ≡ h) × OneOf h txns w)

  tx_hash-hash :
      (t u : Transaction) (h : Hash)
      → tx_hash p (set_hasher default_tx_hasher t) ≡ (ok h, u)
      → u.hash ≡ h
  unfolding tx_hash set_hasher
  tx_hash-hash t u h e = ground arith

  -- What the loop does to the store, whatever it holds.
  record Files (txns : List Transaction) (st : Map Hash Transaction) : Type 0 where
    filed : IsFiled st → IsFiled (index_txns p txns st).2
    kept :
        (h : Hash) (w : Transaction)
        → lookup h st ≡ some w
        → (w' : Transaction) × (lookup h (index_txns p txns st).2 ≡ some w')
          × ((w' ≡ w) ⊎ OneOf h txns w')
    has :
        (i : ℕ) (t : Transaction)
        → get_elem? txns i ≡ some t
        → (h : Hash) × (filed_hash t ≡ ok h)
          × ((w : Transaction) × (lookup h (index_txns p txns st).2 ≡ some w) × OneOf h txns w)

  insert-IsFiled :
      (h : Hash) (u : Transaction) (st : Map Hash Transaction)
      → u.hash ≡ h
      → IsFiled st
      → IsFiled (insert h u st)
  insert-IsFiled h u st e f k w q = ground (arith, lookup-insert h k u st, bytes_beq_iff h k, f k w)

  insert_kept :
      (h k : Hash) (u w : Transaction) (st : Map Hash Transaction)
      → lookup k st ≡ some w
      → (w' : Transaction) × (lookup k (insert h u st) ≡ some w')
        × ((w' ≡ w) ⊎ ((h ≡ k) × (w' ≡ u)))
  insert_kept h k u w st q = elim (Bool-cases (bytes_beq h k)) [
    | inl e ↦ (u, ground (arith, lookup-insert h k u st), inr ((bytes_beq_iff h k).0 e, refl))
    | inr e ↦ (w, ground (arith, lookup-insert h k u st), inl refl)
  ]

  index_step :
      (t : Transaction) (txns : List Transaction) (st : Map Hash Transaction) (x : Hash)
      (u : Transaction)
      → tx_hash p (set_hasher default_tx_hasher t) ≡ (ok x, u)
      → (index_txns p (t ∷ txns) st).2 ≡ (index_txns p txns (insert x u st)).2
  unfolding index_txns
  index_step t txns st x u e = rw (e, after_hash)

  Files-cons :
      (t : Transaction) (txns : List Transaction) (st : Map Hash Transaction) (x : Hash)
      (u : Transaction)
      → tx_hash p (set_hasher default_tx_hasher t) ≡ (ok x, u)
      → Files txns (insert x u st)
      → Files (t ∷ txns) st
  Files-cons t txns st x u e w = record {
    filed = λ f. rw step (w.filed (insert-IsFiled x u st (tx_hash-hash t u x e) f));
    kept = λ h v q. rw step (kept h v (insert_kept x h u v st q));
    has = λ i s q. rw step (has i s q);
  }
    where
      after : Map Hash Transaction
      after = (index_txns p txns (insert x u st)).2

      step : (index_txns p (t ∷ txns) st).2 ≡ after
      step = index_step t txns st x u e

      same_fields : SameTx t u
      same_fields =
          subst (λ (r : Result Error Hash × Transaction). SameTx t r.1) e (set_hasher-SameTx p t)

      first : (v : Transaction) → v ≡ u → OneOf x (t ∷ txns) v
      first v q = (0, t, refl, ap (λ r. r.0) e, rw q same_fields)

      later : (h : Hash) (v : Transaction) → OneOf h txns v → OneOf h (t ∷ txns) v
      later h v (j, s, at_j, has_hash, same) = (suc j, s, at_j, has_hash, same)

      kept :
          (h : Hash) (v : Transaction)
          → ((v' : Transaction) × (lookup h (insert x u st) ≡ some v')
              × ((v' ≡ v) ⊎ ((x ≡ h) × (v' ≡ u))))
          → (w' : Transaction) × (lookup h after ≡ some w') × ((w' ≡ v) ⊎ OneOf h (t ∷ txns) w')
      kept h v (v', q', from) =
          let (w', found, c) = w.kept h v' q' in
          elim c [
            | inr one ↦ (w', found, inr (later h w' one))
            | inl same ↦ elim from [
              | inl old ↦ (w', found, inl (same ∙ old))
              | inr (here, new) ↦
                  (w', found, inr (subst (λ k. OneOf k (t ∷ txns) w') here (first w' (same ∙ new))))
            ]
          ]

      has :
          (i : ℕ) (s : Transaction)
          → get_elem? (t ∷ txns) i ≡ some s
          → (h : Hash) × (filed_hash s ≡ ok h)
            × ((v : Transaction) × (lookup h after ≡ some v) × OneOf h (t ∷ txns) v)
      has zero s q =
          let same : t ≡ s = cc in
          let (v, found, c) = w.kept x u (lookup-insert_self x u st) in
          (
            x,
            ap (λ r. r.0) (rw same at e),
            (v, found, elim c [ inl new ↦ first v new | inr one ↦ later x v one ]),
          )
      has (suc i) s q =
          let (h, has_hash, (v, found, one)) = w.has i s q in
          (h, has_hash, (v, found, later h v one))

  index_txns-Files : (txns : List Transaction) (st : Map Hash Transaction) → Files txns st
  unfolding index_txns
  index_txns-Files [] st = record {
    filed = λ f. f;
    kept = λ h w e. (w, e, inl refl);
    has = λ i t e. absurd (ground arith);
  }
  index_txns-Files (t ∷ txns) st =
      let (x, u, e) = tx_hash_ok p t default_tx_hasher in
      Files-cons t txns st x u e (index_txns-Files txns (insert x u st))

  found_tx :
      (bc : Blockchain) (h : Hash) (w : Transaction)
      → lookup h bc.tx_store ≡ some w
      → get_transaction h bc ≡ ok w
  unfolding get_transaction store_get
  found_tx bc h w e = ground arith

  store_block-Finds :
      (s : Session) (i : ℕ) (t : Transaction)
      → IsFiled s.chain.tx_store
      → get_elem? s.block.transactions i ≡ some t
      → let bc' = (store_block p s).1.chain in
        IsFiled bc'.tx_store × Finds bc' s.block.transactions t
  unfolding store_block
  store_block-Finds s i t f q =
      let w = index_txns-Files s.block.transactions s.chain.tx_store in
      let (h, e, (v, at_h, one)) = w.has i t q in
      (w.filed f, (h, e, (v, found_tx (store_block p s).1.chain h v at_h, w.filed f h v at_h, one)))

  -- Where every entry of the transaction store carries the hash that it stands under, after a block is
  -- persisted every entry still does, and under the hash of each transaction of the block
  -- `GetTransaction` returns a transaction of the block with that hash: its data, sender and signature,
  -- and the hash in its cache.
  pub persist_block-Finds :
      (s : Session) (i : ℕ) (t : Transaction)
      → IsFiled s.chain.tx_store
      → get_elem? s.block.transactions i ≡ some t
      → (persist_block p s).0 ≡ ok tt
      → let bc' = (persist_block p s).1.chain in
        IsFiled bc'.tx_store × Finds bc' s.block.transactions t
  persist_block-Finds s i t f q r = elim (persist_cases p s) [
    | inl x ↦
        let done = persist_block_ok p s x.hash x.hashed x.has_hash x.unknown in
        let (_, _, same) = block_hash_keeps p s.block x.hashed x.hash x.has_hash in
        rw (done, ← same) (store_block-Finds (with_header p x.hash x.hashed s) i t f (rw same q))
    | inr (g, _) ↦ absurd (Fails-not_ok (persist_block p s).0 r g)
  ]
