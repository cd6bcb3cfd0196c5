-- ===== src/Server/Node/Rounds.antt =====
-- The rounds of the two loops of server/server_internal.go, in any order: what holds of the node as
-- long as the process lives.
use goblockchain.Base.{
  ℕ, suc, ◌+◌, ◌≡◌, ◌∙◌, refl, sym, inl, inr, arith, List, [], ◌∷◌, Result, ok, err, panic, stuck,
  Bool-cases, ap,
}
use goblockchain.Crypto
use mathlib.Core.List.{append-nil}
use goblockchain.Core.Platform.{Platform, EncodesFields}
use goblockchain.Core.Blockchain.{Blockchain}
use goblockchain.Core.Blockchain.Invariant.{IsValid, chain_headers}
use goblockchain.Network.Rpc.{DecodedMessage}
use goblockchain.Protocol.{Gob}
use goblockchain.Protocol.Payload.{Payload}
use goblockchain.Server.Decode
use goblockchain.Server.Decode.{extract_message_from_rpc}
use goblockchain.Server.Decode.Allocation.{NewResult, Allocates, extract-NewResult}
use goblockchain.Server.TxPool.Admission
use goblockchain.Server.Node.{Node, Error, handle_transaction, create_new_block}
use goblockchain.Server.Node.Dispatch.{
  Event, rpc_arrived, api_tx, block_tick, Server, allocates, after_round, process_decoded,
  process_rpc, round, rounds,
}
use goblockchain.Server.Node.Growth.{Below, Grown}
use goblockchain.Server.Node.Healthy.{
  Healthy, more, handle_transaction-Healthy, create_new_block-Healthy, process_message-Healthy,
}

module _ (p : Platform) (g : Gob) where
  -- The node after any number of rounds: valid, and with the blocks of before where they were.
  abbrev pub StillSound : Server → Server → Type 0
  StillSound s t =
      IsValid p t.node.chain × Grown s.node.chain t.node.chain × Admission.IsValid p t.node.pool

  module _ (f : EncodesFields p) (w : Allocates g) (first : Blockchain) where
    abbrev HealthyServer : Server → Type 0
    HealthyServer s = Healthy p first s.next_addr s.node

    abbrev HealthyAfter : Result Error Server → Type 0
    HealthyAfter (ok t) = HealthyServer t
    HealthyAfter _ = Unit

    after_round-Healthy :
        (used : ℕ) (s : Server) (r : Result Error (Unit {0})) (n : Node)
        → Healthy p first (s.next_addr + used) n
        → HealthyAfter (after_round used s (r, n))
    after_round-Healthy used s (ok _) n h = h
    after_round-Healthy used s (err e) n h = h
    after_round-Healthy used s (panic q) n h = tt
    after_round-Healthy used s stuck n h = tt

    process_decoded-Healthy :
        (k now : ℕ) (r : Result Decode.Error (DecodedMessage Payload)) (n : Node)
        → NewResult k r
        → Healthy p first k n
        → Healthy p first (k + allocates r) (process_decoded p g now r n).1
    process_decoded-Healthy k now (ok m) n a h =
        process_message-Healthy p first f k now m.message_data n a h
    process_decoded-Healthy k now (err e) n a h = more p first k 0 n h
    process_decoded-Healthy k now (panic q) n a h = more p first k 0 n h
    process_decoded-Healthy k now stuck n a h = more p first k 0 n h

    round-Healthy : (e : Event) (s : Server) → HealthyServer s → HealthyAfter (round p g e s)
    unfolding round process_rpc
    round-Healthy (rpc_arrived now r) s h =
        let d = extract_message_from_rpc g s.next_addr r in
        after_round-Healthy (allocates d) s (process_decoded p g now d s.node).0
          (process_decoded p g now d s.node).1
          (process_decoded-Healthy s.next_addr now d s.node (extract-NewResult g w s.next_addr r) h)
    round-Healthy (api_tx now t) s h =
        after_round-Healthy 0 s (handle_transaction p now t s.node).0
          (handle_transaction p now t s.node).1
          (more p first s.next_addr 0 (handle_transaction p now t s.node).1
            (handle_transaction-Healthy p first s.next_addr now t s.node h))
    round-Healthy (block_tick entropy now) s h = elim (Bool-cases (Crypto.is_zero s.node.key)) [
      | inl e ↦ rw e h
      | inr e ↦ rw e (
          after_round-Healthy 1 s (create_new_block p entropy s.next_addr now s.node).0
            (create_new_block p entropy s.next_addr now s.node).1
            (let count : s.next_addr + 1 ≡ suc s.next_addr = omega arith in
              rw count (create_new_block-Healthy p first s.next_addr entropy now s.node e h)))
    ]

    abbrev last_of : Server → Result Error Server → Server
    last_of s (ok t) = t
    last_of s _ = s

    then_rounds :
        (events : List Event) (r : Result Error Server) (t : Server)
        → ((s : Server) → HealthyServer s → rounds p g events s ≡ ok t → HealthyServer t)
        → HealthyAfter r
        → (elim r as (λ _. Result Error Server) [
          | ok s ↦ rounds p g events s
          | err x ↦ err x
          | panic q ↦ panic q
          | stuck ↦ stuck
        ])
          ≡ ok t
        → HealthyServer t
    then_rounds events (ok s) t go h e = go s h e
    then_rounds events (err x) t go h e = absurd (ground (arith, e))
    then_rounds events (panic q) t go h e = absurd (ground (arith, e))
    then_rounds events stuck t go h e = absurd (ground (arith, e))

    by_end :
        (s t : Server) (r : Result Error Server)
        → HealthyServer s
        → r ≡ ok s
        → r ≡ ok t
        → HealthyServer t
    by_end s t (ok u) h e q = rw (ap (last_of s) (sym q ∙ e)) h
    by_end s t (err x) h e q = absurd (ground (arith, e))
    by_end s t (panic x) h e q = absurd (ground (arith, e))
    by_end s t stuck h e q = absurd (ground (arith, e))

    rounds-Healthy :
        (events : List Event) (s t : Server)
        → HealthyServer s
        → rounds p g events s ≡ ok t
        → HealthyServer t
    unfolding rounds
    rounds-Healthy [] s t h e = by_end s t (rounds p g [] s) h refl e
    rounds-Healthy (e ∷ events) s t h q =
        then_rounds events (round p g e s) t (λ u hu eu. rounds-Healthy events u t hu eu)
          (round-Healthy e s h) q

  -- Take any RPCs, with whatever bytes, transactions of the API server and ticks of the block timer,
  -- in any order, from a node with a valid chain and a valid pool, whose headers stand below the next
  -- free address. As long as the process lives its chain is valid and still begins with all the
  -- headers that it had, and its pool is valid. (gob writes headers and transactions without an error,
  -- and what its decoders return is newly allocated.)
  pub rounds-StillSound :
      EncodesFields p
      → Allocates g
      → (events : List Event) (s t : Server) → IsValid p s.node.chain
      → Admission.IsValid p s.node.pool
      → Below s.next_addr (chain_headers s.node.chain)
      → rounds p g events s ≡ ok t
      → StillSound s t
  rounds-StillSound f w events s t v pool below e =
      let (k, q) =
        rounds-Healthy f w s.node.chain events s t
          (
            record {
              valid = v;
              below = below;
              grown = ([], sym (append-nil (chain_headers s.node.chain)));
            },
            pool,
          )
          e in
      (k.valid, k.grown, q)
