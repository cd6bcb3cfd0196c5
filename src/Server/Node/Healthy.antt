-- ===== src/Server/Node/Healthy.antt =====
-- What each handler of server/server_internal.go and server/handle_subscribe.go keeps of the node.
use goblockchain.Base.{
  ℕ, suc, ◌+◌, ◌≡◌, refl, ap, ◌∙◌, inl, inr, false, List, arith, Result, ok, err, panic, stuck,
  Option-cases, Bool-cases, bytes_eq, bind_at, wrap_result,
}
use goblockchain.Base.Map.{lookup, has_key}
use goblockchain.Crypto
use goblockchain.Crypto.{PrivateKey}
use goblockchain.Core.Data
use goblockchain.Core.Data.{Transaction, HeaderPtr, Block}
use goblockchain.Core.Platform.{Platform, EncodesFields}
use goblockchain.Core.Block.Total.{block_hash_total}
use goblockchain.Core.Blockchain.{Blockchain}
use goblockchain.Protocol.{SubscribeMessageRequest, SubscribeMessageResponse}
use goblockchain.Protocol.Payload.{
  Payload, of_tx, of_block, of_status_request, of_status_response, of_subscribe_request,
  of_subscribe_response, of_get_blocks_request, of_get_blocks_response,
}
use goblockchain.Server.Decode.Allocation.{New}
use goblockchain.Server.TxPool.Admission
use goblockchain.Server.TxPool.History.{clear_pending-IsValid}
use goblockchain.Server.Node.{
  Node, Error, Outgoing, in_core, send_ignored, get_blocks_response, handle_transaction,
  handle_block, handle_get_blocks_request, create_new_block,
}
use goblockchain.Server.Node.Create.{create_new_block-CreateOutcome}
use goblockchain.Server.Node.Handle.{handle_transaction-HandleOutcome}
use goblockchain.Server.Node.Receive.{handle_block-BlockOutcome}
use goblockchain.Server.Node.Status.{
  send, handle_status_message_request, handle_status_message_response,
  handle_subscribe_message_request, handle_subscribe_message_response,
}
use goblockchain.Server.Node.Dispatch.{headers_of, process_message}
use goblockchain.Server.Node.Growth.{
  Kept, Kept-weaken, Kept-same, Kept-append, Kept-apart, Kept-Coherent,
  handle_get_blocks_response-KeepsNode,
}

-- A call that leaves the chain and the pool alone.
abbrev Quiet : Node → Result Error (Unit {0}) × Node → Type 0
Quiet n (r, n') = (n'.chain ≡ n.chain) × (n'.pool ≡ n.pool)

send-Quiet : (addr : List ℕ) (m : Outgoing) (n : Node) → Quiet n (send addr m n)
unfolding send
send-Quiet addr m n = elim (Bool-cases (has_key addr n.connections)) [
  | inl e ↦ rw e (refl, refl)
  | inr e ↦ rw e (refl, refl)
]

handle_subscribe_message_request-Quiet :
    (s : SubscribeMessageRequest) (n : Node) → Quiet n (handle_subscribe_message_request s n)
unfolding handle_subscribe_message_request
handle_subscribe_message_request-Quiet s n = elim (Option-cases (lookup s.handle n.connections)) [
  | inl e ↦ rw e (refl, refl)
  | inr (pipe, e) ↦ rw e (send-Quiet pipe.remote_addr _ _)
]

handle_subscribe_message_response-Quiet :
    (s : SubscribeMessageResponse) (n : Node) → Quiet n (handle_subscribe_message_response s n)
unfolding handle_subscribe_message_response
handle_subscribe_message_response-Quiet s n =
    elim (Option-cases (lookup s.provider_id n.connections)) [
      | inl e ↦ rw e (refl, refl)
      | inr (pipe, e) ↦ rw e (refl, refl)
    ]

sent-Quiet :
    (n : Node) (addr : List ℕ) (r : Result Data.Error (List Block))
    → Quiet n (
        bind_at
          (wrap_result in_core r)
          n
          (λ blocks. send_ignored addr (get_blocks_response addr blocks)))
sent-Quiet n addr (ok blocks) = elim (Bool-cases (has_key addr n.connections)) [
  | inl e ↦ rw e (refl, refl)
  | inr e ↦ rw e (refl, refl)
]
sent-Quiet n addr (err e) = (refl, refl)
sent-Quiet n addr (panic q) = (refl, refl)
sent-Quiet n addr stuck = (refl, refl)

handle_get_blocks_request-Quiet :
    (requestor : List ℕ) (start : ℕ) (n : Node)
    → Quiet n (handle_get_blocks_request requestor start n)
unfolding handle_get_blocks_request
handle_get_blocks_request-Quiet requestor start n = elim (Option-cases (lookup requestor n.peers)) [
  | inl e ↦ rw e (refl, refl)
  | inr (addr, e) ↦ rw e (sent-Quiet n addr _)
]

module _ (p : Platform) where
  module _ (first : Blockchain) where
    -- The node as long as the process lives.
    abbrev pub Healthy : ℕ → Node → Type 0
    Healthy k n = Kept p first k n.chain × Admission.IsValid p n.pool

    quiet :
        (k : ℕ) (n : Node) (x : Result Error (Unit {0}) × Node)
        → Quiet n x
        → Healthy k n
        → Healthy k x.1
    quiet k n x (e, f) (v, w) = (rw e v, rw f w)

    pub more : (k i : ℕ) (n : Node) → Healthy k n → Healthy (k + i) n
    more k i n (v, w) = (Kept-weaken p first k (k + i) n.chain (omega arith) v, w)

    still :
        (k : ℕ) (n : Node) (x : Result Error (Unit {0}) × Node)
        → Quiet n x
        → Healthy k n
        → Healthy (k + 0) x.1
    still k n x q h = more k 0 x.1 (quiet k n x q h)

    pub handle_transaction-Healthy :
        (k now : ℕ) (t : Transaction) (n : Node)
        → Healthy k n
        → Healthy k (handle_transaction p now t n).1
    handle_transaction-Healthy k now t n (v, w) =
        let (pool, chain, _) = handle_transaction-HandleOutcome p now t n w in (rw chain v, pool)

    handle_block-Healthy :
        EncodesFields p
        → (k : ℕ) (b : Block) (n : Node) → b.header.addr ≡ k
        → Healthy k n
        → Healthy (suc k) (handle_block p b n).1
    handle_block-Healthy f k b n at_k (v, w) =
        let (h, c, e) = block_hash_total p f b in
        let (valid, pool, either) =
          handle_block-BlockOutcome p b c h n v.valid
            (Kept-Coherent p first k n.chain b.header at_k v) e in
        (
          elim either [
            | inl (_, _, (d, same, (_, _, g, _)), _) ↦
                Kept-append p first k n.chain (handle_block p b n).1.chain d.header valid g
                  (ap (λ (x : HeaderPtr). x.addr) same ∙ at_k) v
            | inr (same, _) ↦
                Kept-weaken p first k (suc k) (handle_block p b n).1.chain (omega arith)
                  (Kept-same p first k n.chain (handle_block p b n).1.chain same v)
          ],
          rw pool w,
        )

    pub create_new_block-Healthy :
        (k entropy now : ℕ) (n : Node)
        → Crypto.is_zero n.key ≡ false
        → Healthy k n
        → Healthy (suc k) (create_new_block p entropy k now n).1
    unfolding Crypto.is_zero
    create_new_block-Healthy k entropy now n key_set (v, w) = elim (Option-cases n.key.key) [
      | inl e ↦ absurd (ground (arith, key_set, e))
      | inr (key, e) ↦
          elim (create_new_block-CreateOutcome p entropy k now key n v.valid
            (ap (λ x. record { key = x }) e)
            (λ i a at_i. Kept-apart p first k n.chain i a v at_i)) [
              | inl (_, (b, (valid, _, g, _), at_k, _, emptied, _, _)) ↦ (
                Kept-append p first k n.chain (create_new_block p entropy k now n).1.chain b.header
                    valid g at_k v,
                rw emptied (clear_pending-IsValid p n.pool w),
              )
              | inr (_, (same, pool, _)) ↦ (
                Kept-weaken p first k (suc k) (create_new_block p entropy k now n).1.chain
                    (omega arith)
                    (Kept-same p first k n.chain (create_new_block p entropy k now n).1.chain same
                      v),
                rw pool w,
              )
            ]
    ]

    pub process_message-Healthy :
        EncodesFields p
        → (k now : ℕ) (x : Payload) (n : Node) → New k x
        → Healthy k n
        → Healthy (k + headers_of x) (process_message p now x n).1
    unfolding process_message handle_status_message_request handle_status_message_response
    process_message-Healthy f k now (of_tx t) n a h =
        more k 0 (handle_transaction p now t n).1 (handle_transaction-Healthy k now t n h)
    process_message-Healthy f k now (of_block b) n a h =
        let count : k + 1 ≡ suc k = omega arith in rw count (handle_block-Healthy f k b n a h)
    process_message-Healthy f k now (of_status_request s) n a h =
        still k n (handle_status_message_request s n) (refl, refl) h
    process_message-Healthy f k now (of_status_response s) n a h =
        still k n (handle_status_message_response s n) (refl, refl) h
    process_message-Healthy f k now (of_subscribe_request s) n a h =
        still k n (handle_subscribe_message_request s n)
          (handle_subscribe_message_request-Quiet s n) h
    process_message-Healthy f k now (of_subscribe_response s) n a h =
        still k n (handle_subscribe_message_response s n)
          (handle_subscribe_message_response-Quiet s n) h
    process_message-Healthy f k now (of_get_blocks_request s) n a h =
        still k n (handle_get_blocks_request s.requestor_id s.start_height n)
          (handle_get_blocks_request-Quiet s.requestor_id s.start_height n) h
    process_message-Healthy f k now (of_get_blocks_response s) n a (v, w) =
        let (kept, pool) = handle_get_blocks_response-KeepsNode p first k s.blocks n a v in
        (kept, rw pool w)
