-- ===== src/Server/Node/Progress.antt =====
-- `createNewBlock` of server/server_internal.go makes progress: what waits in the pool gets into the
-- chain.
use goblockchain.Base.{
  ℕ, ◌+◌, ◌<◌, ◌≡◌, ◌≢◌, refl, ap, ◌∙◌, ◌⊎◌, inl, inr, some, List, ok, err, arith, get_elem?,
  Option-cases, Fails-not_ok, u32_mod, bytes_eq, Result,
}
use goblockchain.Base.Map.{lookup}
use goblockchain.Vm.State.{State}
use goblockchain.Core.Data
use goblockchain.Core.Data.{Transaction, HeaderPtr, Block, header_exists}
use goblockchain.Core.Platform.{Platform, EcdsaKey, SignsSoundly, SignsAlways, EncodesFields}
use goblockchain.Core.Block.{sign_block, new_block_from_prev_header}
use goblockchain.Core.Block.Signing.{AllVerify}
use goblockchain.Core.Block.Build.{sign_block-new_block_from_prev_header}
use goblockchain.Core.Block.Total.{
  block_hash_total, new_block_from_prev_header_total, sign_block_total,
}
use goblockchain.Core.Blockchain.{
  Blockchain, Session, height, run_txns, run_block, store_block, add_block,
}
use goblockchain.Core.Blockchain.Invariant.{IsValid, chain_headers, height_lem, get_header_within}
use goblockchain.Core.Blockchain.Validate.{Extends, validate_Extends}
use goblockchain.Core.Blockchain.Persist.{persist_block_ok, persist_block_exists}
use goblockchain.Core.Blockchain.Add.{add_block_persists}
use goblockchain.Server.TxPool.{pending_txns}
use goblockchain.Server.Node.{Node, in_core, create_new_block}
use goblockchain.Server.Node.Create.{Created, create_new_block-CreateOutcome}

-- The state that a run of transactions leaves.
abbrev pub contract_state_of : Result Data.Error (Unit {0}) × State × List Transaction → State
contract_state_of (r, cs, txns) = cs

module _ (p : Platform) (f : EncodesFields p) where
  -- A block that extends a valid chain, and whose transactions run, goes in, unless the index has its
  -- hash already.
  pub add_block_runs :
      (s : Session)
      → IsValid p s.chain
      → Extends p s.chain s.block
      → (run_txns p s.block.transactions s.chain.contract_state).0 ≡ ok tt
      → (((add_block p s).0 ≡ ok tt)
          × ((add_block p s).1.chain.contract_state
              ≡ contract_state_of (run_txns p s.block.transactions s.chain.contract_state)))
        ⊎ ((add_block p s).0 ≡ err header_exists)
  unfolding run_block store_block
  add_block_runs s v x runs =
      let done = add_block_persists p s (validate_Extends p s v x) runs in
      let s' = (run_block p s).1 in
      let (h, c, e) = block_hash_total p f s'.block in
      elim (Option-cases (lookup h s'.chain.headers.idx)) [
        | inl fresh ↦
            let persisted = done ∙ persist_block_ok p s' h c e fresh in
            inl (
              ap (λ r. r.0) persisted,
              ap (λ (r : Result Data.Error (Unit {0}) × Session). r.1.chain.contract_state)
                  persisted,
            )
        | inr (ix, known) ↦ inr (ap (λ r. r.0) (done ∙ persist_block_exists p s' h c e known))
      ]

  module _ (key : EcdsaKey) (sound : SignsSoundly p key) (always : SignsAlways p key) where
    -- The block that `createNewBlock` signs extends the chain.
    signed-Extends :
        (entropy addr now : ℕ) (bc : Blockchain) (hdr : HeaderPtr) (b : Block)
        (txns : List Transaction)
        → IsValid p bc
        → height bc + 1 < u32_mod
        → get_elem? (chain_headers bc) (height bc) ≡ some hdr
        → AllVerify p txns
        → new_block_from_prev_header p addr now hdr.target txns ≡ ok b
        → let signed = (sign_block p entropy (record { key = some key }) b).1 in
          Extends p bc signed × (signed.transactions ≡ txns)
    signed-Extends entropy addr now bc hdr b txns v room at_last all made =
        let done = sign_block_total p f key always entropy b in
        let (good, next, names, holds) =
          sign_block-new_block_from_prev_header p entropy addr now key hdr.target txns b sound f all
            made done in
        let last_height = v.numbered (height bc) hdr at_last in
        (
          record {
            next_height = omega (arith, next, last_height, height_lem p bc v);
            in_range = omega (arith, next, last_height);
            last = hdr;
            is_last = at_last;
            names_last = names;
            verified = good;
          },
          holds,
        )

    answers :
        (entropy addr now : ℕ) (n : Node)
        → IsValid p n.chain
        → n.key ≡ record { key = some key }
        → height n.chain + 1 < u32_mod
        → AllVerify p (pending_txns n.pool)
        → (run_txns p (pending_txns n.pool) n.chain.contract_state).0 ≡ ok tt
        → ((create_new_block p entropy addr now n).0 ≡ ok tt)
          ⊎ ((create_new_block p entropy addr now n).0 ≡ err (in_core header_exists))
    unfolding create_new_block
    answers entropy addr now n v has_key room all runs =
        let (hdr, at_last, got) = get_header_within p n.chain v (height n.chain) (omega arith) in
        let (b, made) =
          new_block_from_prev_header_total p f addr now hdr.target (pending_txns n.pool) in
        let (x, holds) =
          signed-Extends entropy addr now n.chain hdr b (pending_txns n.pool) v room at_last all
            made in
        let signed = (sign_block p entropy (record { key = some key }) b).1 in
        let signs : sign_block p entropy n.key b ≡ (ok tt, signed) =
          rw has_key (ap (λ r. (r, signed)) (sign_block_total p f key always entropy b)) in
        let s : Session = record { chain = n.chain; block = signed } in
        elim (add_block_runs s v x (rw holds runs)) [
          | inl (e, _) ↦ inl (rw (got, made, signs, e) refl)
          | inr e ↦ inr (rw (got, made, signs, e) refl)
        ]

    -- On a valid chain with room for a height, with a key, and with a new header for the block,
    -- take pending transactions that verify and whose programs run one after the other. Then
    -- the next tick of `createNewBlock` gets them into the chain: it returns, `GetBlockAt`
    -- finds as the last block one with exactly these transactions (their data, senders and
    -- signatures), which is broadcast, and none is pending any more. The one way for it to fail
    -- is that the index has the hash of the new header already, that is, a collision. (gob and
    -- signing do not fail, and the key's signatures are sound.)
    pub create_new_block-Created :
        (entropy addr now : ℕ) (n : Node)
        → IsValid p n.chain
        → n.key ≡ record { key = some key }
        → height n.chain + 1 < u32_mod
        → ((i : ℕ) (a : HeaderPtr) → get_elem? (chain_headers n.chain) i ≡ some a → a.addr ≢ addr)
        → AllVerify p (pending_txns n.pool)
        → (run_txns p (pending_txns n.pool) n.chain.contract_state).0 ≡ ok tt
        → (((create_new_block p entropy addr now n).0 ≡ ok tt)
            × Created p addr n (create_new_block p entropy addr now n).1)
          ⊎ ((create_new_block p entropy addr now n).0 ≡ err (in_core header_exists))
    create_new_block-Created entropy addr now n v has_key room apart all runs =
        elim (answers entropy addr now n v has_key room all runs) [
          | inr e ↦ inr e
          | inl e ↦ elim (create_new_block-CreateOutcome p entropy addr now key n v has_key apart) [
            | inl created ↦ inl created
            | inr (fails, _) ↦
                absurd (Fails-not_ok (create_new_block p entropy addr now n).0 e fails)
          ]
        ]
