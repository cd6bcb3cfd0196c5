-- ===== src/Server/Node/Receive.antt =====
-- `handleBlock` of server/server_internal.go: a block from the network.
use goblockchain.Base.{
  ◌+◌, ◌%◌, ◌≡◌, refl, ◌⊎◌, inl, inr, [], ◌∷◌, ◌++◌, Result, ok, err, panic, stuck, Fails, u32_mod,
  ℤ, ◌≢◌, wrap_result, sym, ap, ◌∙◌, arith,
}
use mathlib.Core.Path.{subst}
use goblockchain.Types.Hash.{Hash}
use goblockchain.Core.Data
use goblockchain.Core.Data.{Transaction, HeaderPtr, Block, out_of_sync}
use goblockchain.Core.Platform.{Platform}
use goblockchain.Core.Block.{block_hash}
use goblockchain.Core.Blockchain.{Blockchain, Session, height, get_block_at, add_block}
use goblockchain.Core.Blockchain.Invariant.{IsValid}
use goblockchain.Core.Blockchain.Contents.{
  SameBlock, SameBlock-trans, block_hash-SameBlock, add_block-Stores, Extended-get_block_at,
}
use goblockchain.Core.Blockchain.Append.{Coherent}
use goblockchain.Core.Blockchain.Add.{add_block_outcome, Extended, SameBlocks}
use goblockchain.Core.Blockchain.History.{SameBlocks-IsValid}
use goblockchain.Server.Node.{
  Node, Error, in_core, block_message, get_blocks_request, after_add, handle_block,
}

module _ (p : Platform) where
  -- What `AddBlock` says of the block, whose hash was taken before.
  abbrev pub verdict : Block → Node → Result Data.Error (Unit {0})
  verdict b n = (add_block p (record { chain = n.chain; block = (block_hash p b).1 })).0

  -- The block extended the chain, `GetBlockAt` returns it as the last one, and it goes out.
  abbrev pub Accepted : Block → Node → Result Error (Unit {0}) × Node → Type 0
  Accepted b n (r, n') =
      (verdict b n ≡ ok tt)
      × (r ≡ ok tt)
      × ((c : Block) × (c.header ≡ b.header) × Extended p n.chain c n'.chain)
      × ((out : Block) × SameBlock b out
          × (get_block_at (height n'.chain) n'.chain ≡ ok out)
          × (n'.outbox ≡ n.outbox ++ (block_message out ∷ [])))

  -- It is from further ahead, and the blocks after the chain's last are asked for.
  abbrev pub Asks : Block → Node → Result Error (Unit {0}) × Node → Type 0
  Asks b n (r, n') =
      ((lag : ℤ) × (verdict b n ≡ err (out_of_sync lag)))
      × (r ≡ ok tt)
      × (n'.outbox ≡ n.outbox ++ (get_blocks_request ((height n'.chain + 1) % u32_mod) ∷ []))

  -- `AddBlock` failed in another way, which the caller gets.
  abbrev pub Turns : Block → Node → Result Error (Unit {0}) × Node → Type 0
  Turns b n (r, n') =
      Fails (verdict b n)
      × ((lag : ℤ) → verdict b n ≢ err (out_of_sync lag))
      × (r ≡ wrap_result in_core (verdict b n))
      × (n'.outbox ≡ n.outbox)

  abbrev pub BlockOutcome : Block → Node → Result Error (Unit {0}) × Node → Type 0
  BlockOutcome b n (r, n') =
      IsValid p n'.chain
      × (n'.pool ≡ n.pool)
      × (Accepted b n (r, n')
          ⊎ (SameBlocks p n.chain n'.chain × (Asks b n (r, n') ⊎ Turns b n (r, n'))))

  after_err :
      (b out : Block) (n : Node) (bc : Blockchain) (e : Data.Error)
      → IsValid p n.chain
      → verdict b n ≡ err e
      → SameBlocks p n.chain bc
      → BlockOutcome b n (after_add p (err e) out (record n { chain = bc }))
  after_err b out n bc (out_of_sync lag) v said same =
      (SameBlocks-IsValid p n.chain bc same v, refl, inr (same, inl ((lag, said), refl, refl)))
  after_err b out n bc _ v said same = (
    SameBlocks-IsValid p n.chain bc same v,
    refl,
    inr (same, inr (rw said tt, λ lag e. ground (arith, said, e), rw said refl, refl)),
  )

  by_outcome :
      (n : Node) (b : Block) (r : Result Data.Error (Unit {0})) (s : Session)
      → IsValid p n.chain
      → verdict b n ≡ r
      → ((r ≡ ok tt)
          × Accepted b n (
            ok tt,
            record n { chain = s.chain; outbox = n.outbox ++ (block_message s.block ∷ []) },
          )
          × IsValid p s.chain)
        ⊎ (Fails r × SameBlocks p n.chain s.chain)
      → BlockOutcome b n (after_add p r s.block (record n { chain = s.chain }))
  by_outcome n b (ok _) s v said (inl (_, a, w)) = (w, refl, inl a)
  by_outcome n b (ok _) s v said (inr (f, _)) = absurd f
  by_outcome n b (err y) s v said (inl (q, _, _)) = cc
  by_outcome n b (err y) s v said (inr (_, same)) = after_err b s.block n s.chain y v said same
  by_outcome n b (panic y) s v said (inl (q, _, _)) = cc
  by_outcome n b (panic y) s v said (inr (_, same)) = (
    SameBlocks-IsValid p n.chain s.chain same v,
    refl,
    inr (same, inr (rw said tt, λ lag e. ground (arith, said, e), rw said refl, refl)),
  )
  by_outcome n b stuck s v said (inl (q, _, _)) = cc
  by_outcome n b stuck s v said (inr (_, same)) = (
    SameBlocks-IsValid p n.chain s.chain same v,
    refl,
    inr (same, inr (rw said tt, λ lag e. ground (arith, said, e), rw said refl, refl)),
  )

  -- On a valid chain `handleBlock` leaves a valid chain, and the pool as it is. If `AddBlock` accepts
  -- the block, it extends the chain, `GetBlockAt` returns it as the last block, and it is broadcast with
  -- its header, validator, signature and transactions. If the answer is `ErrOutOfSync`, the chain keeps
  -- its blocks, and the node asks for the ones that follow its last and returns. Otherwise the chain
  -- keeps its blocks, nothing goes out, and the caller gets the error or panic. (A header of the chain
  -- at the address of the block's header is that header, and the block's hash can be taken.)
  pub handle_block-BlockOutcome :
      (b c : Block) (h : Hash) (n : Node)
      → IsValid p n.chain
      → Coherent n.chain b.header
      → block_hash p b ≡ (ok h, c)
      → BlockOutcome b n (handle_block p b n)
  unfolding handle_block
  handle_block-BlockOutcome b c h n v apart e =
      let cached = block_hash-SameBlock p b c h e in
      let s : Session = record { chain = n.chain; block = c } in
      let s' : Session = (add_block p s).1 in
      let ran : handle_block p b n
          ≡ after_add p (add_block p s).0 s'.block (record n { chain = s'.chain }) =
        rw e refl in
      let said : verdict b n ≡ (add_block p s).0 =
        ap
          (λ (r : Result Data.Error Hash × Block).
            (add_block p (record { chain = n.chain; block = r.1 })).0)
          e in
      subst (λ (x : Result Error (Unit {0}) × Node). BlockOutcome b n x) (sym ran)
        (by_outcome n b (add_block p s).0 s' v said
          (elim (add_block_outcome p s v (rw cached.0 apart)) [
            | inr f ↦ inr f
            | inl (q, (w, x, grown, up)) ↦
                let (same, stored) = add_block-Stores p s v x q in
                inl (
                  q,
                  (
                    said ∙ q,
                    refl,
                    (c, cached.0, (w, x, grown, up)),
                    (
                      s'.block,
                      SameBlock-trans b c s'.block cached same,
                      Extended-get_block_at p n.chain s'.chain c s'.block (w, x, grown, up) stored,
                      refl,
                    ),
                  ),
                  w,
                )
          ]))
