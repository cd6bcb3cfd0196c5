-- ===== src/Server/Node/Create.antt =====
-- `createNewBlock` of server/server_internal.go: the chain grows and the pool is emptied, or neither.
use goblockchain.Base.{
  ◌>>=◌, ◌>>◌, modify, ℕ, ◌≡◌, ◌≢◌, refl, sym, ap, ◌∙◌, ◌⊎◌, inl, inr, some, [], ◌∷◌, ◌++◌, Result,
  ok, err, panic, stuck, Go, bind_at, wrap_result, Fails, get_elem?,
}
use goblockchain.Types.GoList
use goblockchain.Core.Data
use goblockchain.Core.Data.{Transaction, HeaderPtr, Block}
use goblockchain.Core.Platform.{Platform, EcdsaKey}
use goblockchain.Core.Block.{new_block_from_prev_header, sign_block}
use goblockchain.Core.Block.Signing.{sign_block-Signs}
use goblockchain.Core.Block.Build.{new_block-Builds}
use goblockchain.Core.Blockchain.{Session, height, get_header, get_block_at, add_block}
use goblockchain.Core.Blockchain.Invariant.{IsValid, chain_headers}
use goblockchain.Core.Blockchain.Add.{add_block_outcome, Extended, SameBlocks}
use goblockchain.Core.Blockchain.Contents.{SameBlock, add_block-Stores, Extended-get_block_at}
use goblockchain.Server.TxOrderedMap
use goblockchain.Server.TxPool.{pending_txns, clear_pending}
use goblockchain.Server.Node.{
  post, Node, Error, in_core, block_message, carry, chain_add, create_new_block,
}

wrap_result_ok :
    {E F A : Type 0} (f : E → F) (r : Result E A) {a : A} → wrap_result f r ≡ ok a → r ≡ ok a
wrap_result_ok f (ok a) e = cc
wrap_result_ok f (err x) e = cc
wrap_result_ok f (panic q) e = cc
wrap_result_ok f stuck e = cc

carry_ok :
    {A : Type 0} (r : Result Data.Error (Unit {0})) (x : A) {a : A}
    → carry (r, x) ≡ ok a
    → (r ≡ ok tt) × (x ≡ a)
carry_ok (ok _) x e = (refl, cc)
carry_ok (err y) x e = cc
carry_ok (panic q) x e = cc
carry_ok stuck x e = cc

module _ (p : Platform) where
  -- A block of the pending transactions was added, is what `GetBlockAt` returns as the last one, and
  -- goes out; none is pending any more.
  abbrev pub Created : ℕ → Node → Node → Type 0
  Created addr n n' =
      (b : Block) × Extended p n.chain b n'.chain
      × (b.header.addr ≡ addr)
      × (b.transactions ≡ pending_txns n.pool)
      × (n'.pool ≡ clear_pending n.pool)
      × (pending_txns n'.pool ≡ [])
      × ((out : Block) × SameBlock b out
          × (get_block_at (height n'.chain) n'.chain ≡ ok out)
          × (n'.outbox ≡ n.outbox ++ (block_message out ∷ [])))

  -- The transactions still wait, and nothing goes out.
  abbrev pub Unchanged : Node → Node → Type 0
  Unchanged n n' = SameBlocks p n.chain n'.chain × (n'.pool ≡ n.pool) × (n'.outbox ≡ n.outbox)

  abbrev pub CreateOutcome : ℕ → Node → Result Error (Unit {0}) × Node → Type 0
  CreateOutcome addr n (r, n') = ((r ≡ ok tt) × Created addr n n') ⊎ (Fails r × Unchanged n n')

  pure_step :
      {A : Type 0} (addr : ℕ) (r : Result Error A) (n : Node) (f : A → Go Error Node (Unit {0}))
      → ((a : A) → r ≡ ok a → CreateOutcome addr n (f a n))
      → CreateOutcome addr n (bind_at r n f)
  pure_step addr (ok a) n f h = h a refl
  pure_step addr (err e) n f h = inr (tt, ((refl, refl, refl), refl, refl))
  pure_step addr (panic q) n f h = inr (tt, ((refl, refl, refl), refl, refl))
  pure_step addr stuck n f h = inr (tt, ((refl, refl, refl), refl, refl))

  abbrev after_chain : Block → Go Error Node (Unit {0})
  after_chain added =
      post (block_message added) >> modify (λ n. record n { pool = clear_pending n.pool })

  finish :
      (addr : ℕ) (n : Node) (b : Block) (r : Result Data.Error (Unit {0})) (s : Session)
      → b.header.addr ≡ addr
      → b.transactions ≡ pending_txns n.pool
      → ((r ≡ ok tt)
          × Extended p n.chain b s.chain
          × SameBlock b s.block
          × (get_block_at (height s.chain) s.chain ≡ ok s.block))
        ⊎ (Fails r × SameBlocks p n.chain s.chain)
      → CreateOutcome addr n
          (bind_at (carry (r, s.block)) (record n { chain = s.chain }) after_chain)
  unfolding clear_pending pending_txns TxOrderedMap.clear GoList.clear GoList.slice
  finish addr n b (ok _) s a e (inl (_, x, same, got)) =
      inl (refl, (b, x, a, e, refl, refl, (s.block, same, got, refl)))
  finish addr n b (ok _) s a e (inr (f, _)) = absurd f
  finish addr n b (err y) s a e (inl (q, _, _, _)) = cc
  finish addr n b (err y) s a e (inr (_, same)) = inr (tt, (same, refl, refl))
  finish addr n b (panic y) s a e (inl (q, _, _, _)) = cc
  finish addr n b (panic y) s a e (inr (_, same)) = inr (tt, (same, refl, refl))
  finish addr n b stuck s a e (inl (q, _, _, _)) = cc
  finish addr n b stuck s a e (inr (_, same)) = inr (tt, (same, refl, refl))

  -- What `createNewBlock` has left to do once it has the last header, the new block, the signature.
  abbrev after_signed : Block → Go Error Node (Unit {0})
  after_signed signed = chain_add p signed >>= after_chain

  abbrev after_built : ℕ → Block → Go Error Node (Unit {0})
  after_built entropy b = (λ n. (carry (sign_block p entropy n.key b), n)) >>= after_signed

  abbrev after_header : ℕ → ℕ → ℕ → HeaderPtr → Go Error Node (Unit {0})
  after_header entropy addr now curr n =
      ((λ n. (
        wrap_result in_core
            (new_block_from_prev_header p addr now curr.target (pending_txns n.pool)),
        n,
      ))
          >>= after_built entropy)
        n

  -- On a valid chain, with a key, and with a new header for the block, `createNewBlock` does one of
  -- two things. It succeeds: a block of the pending transactions, with the new header, extends the
  -- chain, which is valid again and one higher; `GetBlockAt` returns this block as the last one, with
  -- the data, senders and signatures of its transactions, and so it is broadcast; and none is pending
  -- any more.
  -- Or it fails: the blocks of the chain, the pool and the outbox are as before.
  pub create_new_block-CreateOutcome :
      (entropy addr now : ℕ) (key : EcdsaKey) (n : Node)
      → IsValid p n.chain
      → n.key ≡ record { key = some key }
      → ((i : ℕ) (a : HeaderPtr) → get_elem? (chain_headers n.chain) i ≡ some a → a.addr ≢ addr)
      → CreateOutcome addr n (create_new_block p entropy addr now n)
  unfolding create_new_block
  create_new_block-CreateOutcome entropy addr now key n v has_key apart =
      pure_step addr (wrap_result in_core (get_header (height n.chain) n.chain)) n
        (after_header entropy addr now)
        (λ curr _.
          pure_step addr
            (wrap_result in_core
              (new_block_from_prev_header p addr now curr.target (pending_txns n.pool)))
            n (after_built entropy)
            (λ b made.
              pure_step addr (carry (sign_block p entropy n.key b)) n after_signed
                (λ signed done. signs curr b signed made done)))
    where
      add_signed :
          (curr : HeaderPtr) (b signed : Block)
          → new_block_from_prev_header p addr now curr.target (pending_txns n.pool) ≡ ok b
          → (sign_block p entropy (record { key = some key }) b).0 ≡ ok tt
          → (sign_block p entropy (record { key = some key }) b).1 ≡ signed
          → CreateOutcome addr n (after_signed signed n)
      add_signed curr b signed made ok_sign same =
          let m = new_block-Builds p addr now curr.target (pending_txns n.pool) b made in
          let w = sign_block-Signs p entropy key b ok_sign in
          let holds : signed.transactions ≡ pending_txns n.pool =
            ap (λ (x : Block). x.transactions) (sym same ∙ w.result) ∙ m.holds in
          let at_addr : signed.header.addr ≡ addr =
            ap (λ (x : Block). x.header.addr) (sym same ∙ w.result) ∙ m.at_addr in
          let s : Session = record { chain = n.chain; block = signed } in
          finish addr n signed (add_block p s).0 (add_block p s).1 at_addr holds
            (elim (add_block_outcome p s v (λ i a e q. absurd (apart i a e (q ∙ at_addr)))) [
              | inr f ↦ inr f
              | inl (q, (w, x, grown, up)) ↦
                  let (kept, stored) = add_block-Stores p s v x q in
                  inl (
                    q,
                    (w, x, grown, up),
                    kept,
                    Extended-get_block_at p n.chain (add_block p s).1.chain signed
                        (add_block p s).1.block (w, x, grown, up) stored,
                  )
            ])

      signs :
          (curr : HeaderPtr) (b signed : Block)
          → wrap_result in_core
              (new_block_from_prev_header p addr now curr.target (pending_txns n.pool))
            ≡ ok b
          → carry (sign_block p entropy n.key b) ≡ ok signed
          → CreateOutcome addr n (after_signed signed n)
      signs curr b signed made done =
          let (ok_sign, same) =
            carry_ok (sign_block p entropy n.key b).0 (sign_block p entropy n.key b).1 done in
          add_signed curr b signed
            (wrap_result_ok in_core
              (new_block_from_prev_header p addr now curr.target (pending_txns n.pool)) made)
            (rw has_key at ok_sign) (rw has_key at same)
