-- ===== src/Server/Node/CatchUp.antt =====
-- A node that asks another for the blocks it lacks (server/server_internal.go): `requestBlocks`,
-- `handleGetBlocksRequest` at the other node, and `handleGetBlocksResponse`.
pub mod Request
mod Tests
use goblockchain.Base.{
  ℕ, suc, ◌+◌, ◌≤◌, ◌<◌, ◌≡◌, refl, sym, ap, ◌∙◌, ◌⊎◌, inl, inr, false, some, List, [], ◌∷◌, ◌++◌,
  Result, ok, err, arith, length, get_elem?, length-append, lt_length_of_get_elem?, get_elem?-some,
  get_elem?-append_cases, u32_mod, bytes_eq, nat_eq, Fails-not_ok, bytes_eq,
}
use goblockchain.Vm.State.{State}
use goblockchain.Core.Data
use goblockchain.Core.Data.{Transaction, HeaderPtr, Block, header_exists}
use goblockchain.Core.Platform.{Platform, EncodesFields}
use goblockchain.Core.Block.{header_hash, verify_block}
use goblockchain.Core.Blockchain.{
  Blockchain, Session, height, has_block_at_height, run_txns, add_block, get_block_at,
}
use goblockchain.Core.Blockchain.Invariant.{IsValid, chain_headers, height_lem, get_header_within}
use goblockchain.Core.Blockchain.Lookup.{found}
use goblockchain.Core.Blockchain.Validate.{Extends}
use goblockchain.Core.Coding.{blocks_received}
use goblockchain.Core.Block.Received.{verify_block-block_received}
use goblockchain.Base.Map.{lookup}
use goblockchain.Core.Blockchain.Add.{add_block_outcome}
use goblockchain.Server.Decode.Allocation.{AllocatedFrom}
use goblockchain.Server.Node.{
  Node, Error, in_core, get_blocks_response, handle_get_blocks_request, handle_get_blocks_response,
}
use goblockchain.Server.Node.Serve.{BlocksFrom, handle_get_blocks_request-BlocksFrom}
use goblockchain.Server.Node.Growth.{Below, Kept, Kept-start, Kept-Coherent, add_block-Kept}
use goblockchain.Server.Node.Progress.{contract_state_of, add_block_runs}

-- Where both chains have a header, it is the same.
abbrev pub Agrees : Blockchain → Blockchain → Type 0
Agrees bc bc' =
    (i : ℕ) (a b : HeaderPtr)
    → get_elem? (chain_headers bc) i ≡ some a
    → get_elem? (chain_headers bc') i ≡ some b
    → a.target ≡ b.target

-- The headers of the two chains are the same.
abbrev pub SameHeaders : Blockchain → Blockchain → Type 0
SameHeaders bc bc' = (length (chain_headers bc) ≡ length (chain_headers bc')) × Agrees bc bc'

module _ (p : Platform) where
  -- The blocks have the headers of the chain from this height on, to its last, and verify.
  abbrev pub Continues : Blockchain → ℕ → List Block → Type 0
  Continues bc i [] = i ≡ length (chain_headers bc)
  Continues bc i (b ∷ blocks) =
      ((hdr : HeaderPtr) × (get_elem? (chain_headers bc) i ≡ some hdr)
        × (b.header.target ≡ hdr.target))
      × (verify_block p b ≡ ok tt)
      × Continues bc (suc i) blocks

  -- The transactions of the blocks run, one after the other, from this contract state on.
  abbrev pub RunOn : State → List Block → Type 0
  RunOn cs [] = Unit
  RunOn cs (b ∷ blocks) =
      ((run_txns p b.transactions cs).0 ≡ ok tt)
      × RunOn (contract_state_of (run_txns p b.transactions cs)) blocks

  -- The chain has the headers of the other; or the index knew the hash of a new header.
  abbrev pub CaughtUp : Blockchain → Result Error (Unit {0}) × Node → Type 0
  CaughtUp bc (r, n) = ((r ≡ ok tt) × SameHeaders n.chain bc) ⊎ (r ≡ err (in_core header_exists))

  -- The next header of a longer valid chain extends one that agrees with it.
  next-Extends :
      (bc other : Blockchain) (b : Block) (hdr : HeaderPtr)
      → IsValid p bc
      → IsValid p other
      → Agrees bc other
      → get_elem? (chain_headers other) (length (chain_headers bc)) ≡ some hdr
      → b.header.target ≡ hdr.target
      → verify_block p b ≡ ok tt
      → Extends p bc b
  next-Extends bc other b hdr v w same at_next as_next good =
      let (last, at_last, _) = get_header_within p bc v (height bc) (omega arith) in
      let next : suc (height bc) ≡ length (chain_headers bc) = omega (arith, height_lem p bc v) in
      let at_hdr : get_elem? (chain_headers other) (suc (height bc)) ≡ some hdr =
        ap (get_elem? (chain_headers other)) next ∙ at_next in
      let inside : length (chain_headers bc) < length (chain_headers other) =
        lt_length_of_get_elem? (chain_headers other) (length (chain_headers bc)) at_next in
      let (before, at_before) = get_elem?-some (chain_headers other) (height bc) (omega arith) in
      let numbers : b.header.target.height ≡ length (chain_headers bc) =
        ap (λ h. h.height) as_next ∙ w.numbered (length (chain_headers bc)) hdr at_next in
      record {
        next_height = numbers;
        in_range = omega (arith, w.fits, numbers);
        last = last;
        is_last = at_last;
        names_last =
            ap (header_hash p) (same (height bc) last before at_last at_before)
            ∙ w.linked (height bc) before hdr at_before at_hdr
            ∙ ap (λ h. ok h.previous_block_hash) (sym as_next);
        verified = good;
      }

  response_ok :
      (b : Block) (blocks : List Block) (n : Node)
      → has_block_at_height b.header.target.height n.chain ≡ false
      → (add_block p (record { chain = n.chain; block = b })).0 ≡ ok tt
      → handle_get_blocks_response p (b ∷ blocks) n
        ≡ handle_get_blocks_response p blocks
            (record n { chain = (add_block p (record { chain = n.chain; block = b })).1.chain })
  unfolding handle_get_blocks_response
  response_ok b blocks n above e = rw (above, e) refl

  response_err :
      (b : Block) (blocks : List Block) (n : Node) {x : Data.Error}
      → has_block_at_height b.header.target.height n.chain ≡ false
      → (add_block p (record { chain = n.chain; block = b })).0 ≡ err x
      → (handle_get_blocks_response p (b ∷ blocks) n).0 ≡ err (in_core x)
  unfolding handle_get_blocks_response
  response_err b blocks n above e = rw (above, e) refl

  -- What the chain is after one more block of the other.
  Agrees-append :
      (bc bc' other : Blockchain) (b : Block) (hdr : HeaderPtr)
      → Agrees bc other
      → chain_headers bc' ≡ chain_headers bc ++ (b.header ∷ [])
      → get_elem? (chain_headers other) (length (chain_headers bc)) ≡ some hdr
      → b.header.target ≡ hdr.target
      → Agrees bc' other
  Agrees-append bc bc' other b hdr same grown at_next as_next i x y at_x at_y =
      elim (get_elem?-append_cases (chain_headers bc) b.header i (rw grown at at_x)) [
        | inl (_, old) ↦ same i x y old at_y
        | inr (at_end, new) ↦
            let at_hdr : get_elem? (chain_headers other) i ≡ some hdr =
              ap (get_elem? (chain_headers other)) at_end ∙ at_next in
            let one : hdr ≡ y = ground (arith, at_hdr, at_y) in
            ap (λ (h : HeaderPtr). h.target) new ∙ as_next ∙ ap (λ (h : HeaderPtr). h.target) one
      ]

  module _ (f : EncodesFields p) (first : Blockchain) where
    appended :
        (k : ℕ) (s : Session)
        → s.block.header.addr ≡ k
        → Kept p first k s.chain
        → (add_block p s).0 ≡ ok tt
        → chain_headers (add_block p s).1.chain ≡ chain_headers s.chain ++ (s.block.header ∷ [])
    appended k s at_k v e =
        elim (add_block_outcome p s v.valid
          (Kept-Coherent p first k s.chain s.block.header at_k v)) [
            | inl (_, (_, _, g, _)) ↦ g
            | inr (fails, _) ↦ absurd (Fails-not_ok (add_block p s).0 e fails)
          ]

    pub adopts :
        (k : ℕ) (blocks : List Block) (n : Node) (other : Blockchain)
        → AllocatedFrom k blocks
        → Kept p first k n.chain
        → IsValid p other
        → Agrees n.chain other
        → Continues other (length (chain_headers n.chain)) blocks
        → RunOn n.chain.contract_state blocks
        → CaughtUp other (handle_get_blocks_response p blocks n)
    unfolding handle_get_blocks_response has_block_at_height
    adopts k [] n other a v w same all runs = inl (refl, (all, same))
    adopts k (b ∷ blocks) n other (at_k, a) v w same ((hdr, at_hdr, as_hdr), good, all)
          (run, runs) =
        let s : Session = record { chain = n.chain; block = b } in
        let x = next-Extends n.chain other b hdr v.valid w same at_hdr as_hdr good in
        let above : has_block_at_height b.header.target.height n.chain ≡ false =
          ground (arith, x.next_height, height_lem p n.chain v.valid) in
        elim (add_block_runs p f s v.valid x run) [
          | inr e ↦ inr (response_err b blocks n above e)
          | inl (e, state) ↦
              let bc' = (add_block p s).1.chain in
              let grown : chain_headers bc' ≡ chain_headers n.chain ++ (b.header ∷ []) =
                appended k s at_k v e in
              let longer : length (chain_headers bc') ≡ suc (length (chain_headers n.chain)) =
                ap length grown
                ∙ omega (arith, length-append (chain_headers n.chain) (b.header ∷ [])) in
              rw (response_ok b blocks n above e) (
                adopts (suc k) blocks (record n { chain = bc' }) other a
                  (add_block-Kept p first k s at_k v) w
                  (Agrees-append n.chain bc' other b hdr same grown at_hdr as_hdr) (rw longer all)
                  (rw state runs))
        ]
