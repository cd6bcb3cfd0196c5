-- ===== src/Server/Node/Growth.antt =====
-- What no handler of server/server_internal.go does to the chain: it stays valid, and the blocks that
-- it has stay where they are.
use goblockchain.Base.{
  ℕ, zero, suc, ◌+◌, ◌≤◌, ◌<◌, ◌≡◌, ◌≢◌, refl, sym, ap, ◌∙◌, inl, inr, some, List, [], ◌∷◌, ◌++◌,
  All, All-append, get_elem?, length, arith, Result, ok, err, panic, stuck, Go, bind_at, ◌>>=◌,
  pure, if◌then◌else◌, Bool-cases,
}
use mathlib.Core.List.{append_assoc, append-nil}
use goblockchain.Core.Data
use goblockchain.Core.Data.{HeaderPtr, Block}
use goblockchain.Core.Platform.{Platform}
use goblockchain.Core.Blockchain.{Blockchain, Session, has_block_at_height, add_block}
use goblockchain.Core.Blockchain.Invariant.{IsValid, chain_headers}
use goblockchain.Core.Blockchain.Append.{Coherent}
use goblockchain.Core.Blockchain.Add.{add_block_outcome, SameBlocks}
use goblockchain.Core.Blockchain.History.{SameBlocks-IsValid}
use goblockchain.Server.Decode.Allocation.{AllocatedFrom}
use goblockchain.Server.Node.{Node, Error, carry, chain_add, handle_get_blocks_response}

-- The headers stand below this address.
abbrev pub Below : ℕ → List HeaderPtr → Type 0
Below k headers = All (λ (h : HeaderPtr). h.addr < k) headers

-- The second chain has the headers of the first, and then more.
abbrev pub Grown : Blockchain → Blockchain → Type 0
Grown bc bc' = (more : List HeaderPtr) × (chain_headers bc' ≡ chain_headers bc ++ more)

Below-elem :
    (k : ℕ) (headers : List HeaderPtr) (i : ℕ) (a : HeaderPtr)
    → Below k headers
    → get_elem? headers i ≡ some a
    → a.addr < k
Below-elem k [] i a l e = ground (arith, e)
Below-elem k (h ∷ headers) zero a l e = ground (arith, e)
Below-elem k (h ∷ headers) (suc i) a l e = Below-elem k headers i a l.1 e

Below-weaken : (k k' : ℕ) (headers : List HeaderPtr) → k ≤ k' → Below k headers → Below k' headers
Below-weaken k k' [] h l = tt
Below-weaken k k' (x ∷ headers) h (l, ls) = (omega arith, Below-weaken k k' headers h ls)

module _ (p : Platform) (first : Blockchain) where
  -- A valid chain that grew out of the first, with nothing allocated from `k` on.
  pub record Kept (k : ℕ) (bc : Blockchain) : Type 0 where
    pub valid : IsValid p bc
    pub below : Below k (chain_headers bc)
    pub grown : Grown first bc

  pub Kept-start : (k : ℕ) → IsValid p first → Below k (chain_headers first) → Kept k first
  Kept-start k v below = record {
    valid = v;
    below = below;
    grown = ([], sym (append-nil (chain_headers first)));
  }

  pub Kept-weaken : (k k' : ℕ) (bc : Blockchain) → k ≤ k' → Kept k bc → Kept k' bc
  Kept-weaken k k' bc h v = record {
    valid = v.valid;
    below = Below-weaken k k' (chain_headers bc) h v.below;
    grown = v.grown;
  }

  pub Kept-same : (k : ℕ) (bc bc' : Blockchain) → SameBlocks p bc bc' → Kept k bc → Kept k bc'
  Kept-same k bc bc' (headers, store, txns) v =
      let same : chain_headers bc' ≡ chain_headers bc = ap (λ h. h.headers) headers in
      record {
        valid = SameBlocks-IsValid p bc bc' (headers, store, txns) v.valid;
        below = rw same v.below;
        grown = (v.grown.0, same ∙ v.grown.1);
      }

  -- A header of its own behind the others.
  pub Kept-append :
      (k : ℕ) (bc bc' : Blockchain) (hdr : HeaderPtr)
      → IsValid p bc'
      → chain_headers bc' ≡ chain_headers bc ++ (hdr ∷ [])
      → hdr.addr ≡ k
      → Kept k bc
      → Kept (suc k) bc'
  Kept-append k bc bc' hdr w e at_k v = record {
    valid = w;
    below = rw e (
        All-append (λ (h : HeaderPtr). h.addr < suc k) (chain_headers bc) (hdr ∷ [])
          (Below-weaken k (suc k) (chain_headers bc) (omega arith) v.below)
          (omega (arith, at_k), tt));
    grown = (
      v.grown.0 ++ (hdr ∷ []),
      e
          ∙ ap (λ hs. hs ++ (hdr ∷ [])) v.grown.1
          ∙ append_assoc (chain_headers first) v.grown.0 (hdr ∷ []),
    );
  }

  pub Kept-apart :
      (k : ℕ) (bc : Blockchain) (i : ℕ) (a : HeaderPtr)
      → Kept k bc
      → get_elem? (chain_headers bc) i ≡ some a
      → a.addr ≢ k
  Kept-apart k bc i a v e q =
      absurd (omega (arith, Below-elem k (chain_headers bc) i a v.below e, q))

  pub Kept-Coherent :
      (k : ℕ) (bc : Blockchain) (hdr : HeaderPtr) → hdr.addr ≡ k → Kept k bc → Coherent bc hdr
  Kept-Coherent k bc hdr at_k v i a e q =
      absurd (omega (arith, Below-elem k (chain_headers bc) i a v.below e, at_k, q))

  pub add_block-Kept :
      (k : ℕ) (s : Session)
      → s.block.header.addr ≡ k
      → Kept k s.chain
      → Kept (suc k) (add_block p s).1.chain
  add_block-Kept k s at_k v =
      elim (add_block_outcome p s v.valid (Kept-Coherent k s.chain s.block.header at_k v)) [
        | inl (_, (w, _, g, _)) ↦
            Kept-append k s.chain (add_block p s).1.chain s.block.header w g at_k v
        | inr (_, same) ↦
            Kept-weaken k (suc k) (add_block p s).1.chain (omega arith)
              (Kept-same k s.chain (add_block p s).1.chain same v)
      ]

  -- The chain of the node is kept, and its pool stays.
  abbrev pub KeepsNode : ℕ → Node → Result Error (Unit {0}) × Node → Type 0
  KeepsNode k n (r, n') = Kept k n'.chain × (n'.pool ≡ n.pool)

  abbrev offer : Block → Go Error Node (Unit {0})
  offer b n =
      (if has_block_at_height b.header.target.height n.chain
          then pure tt
          else (chain_add p b >>= λ _. pure tt))
        n

  by_result :
      (k : ℕ) (n : Node) (r : Result Data.Error (Unit {0})) (s : Session)
      → Kept k s.chain
      → KeepsNode k n (bind_at (carry (r, s.block)) (record n { chain = s.chain }) (λ _. pure tt))
  by_result k n (ok _) s v = (v, refl)
  by_result k n (err e) s v = (v, refl)
  by_result k n (panic q) s v = (v, refl)
  by_result k n stuck s v = (v, refl)

  offer-KeepsNode :
      (k : ℕ) (b : Block) (n : Node)
      → b.header.addr ≡ k
      → Kept k n.chain
      → KeepsNode (suc k) n (offer b n)
  offer-KeepsNode k b n at_k v =
      elim (Bool-cases (has_block_at_height b.header.target.height n.chain)) [
        | inl known ↦ rw known (Kept-weaken k (suc k) n.chain (omega arith) v, refl)
        | inr above ↦
            let s : Session = record { chain = n.chain; block = b } in
            rw above
              (by_result (suc k) n (add_block p s).0 (add_block p s).1 (add_block-Kept k s at_k v))
      ]

  then_rest :
      (k k' : ℕ) (blocks : List Block) (n : Node) (r : Result Error (Unit {0})) (n' : Node)
      → k ≤ k'
      → KeepsNode k n (r, n')
      → KeepsNode k' n' (handle_get_blocks_response p blocks n')
      → KeepsNode k' n (bind_at r n' (λ _. handle_get_blocks_response p blocks))
  then_rest k k' blocks n (ok _) n' h (v, e) (w, f) = (w, f ∙ e)
  then_rest k k' blocks n (err x) n' h (v, e) (w, f) = (Kept-weaken k k' n'.chain h v, e)
  then_rest k k' blocks n (panic x) n' h (v, e) (w, f) = (Kept-weaken k k' n'.chain h v, e)
  then_rest k k' blocks n stuck n' h (v, e) (w, f) = (Kept-weaken k k' n'.chain h v, e)

  pub handle_get_blocks_response-KeepsNode :
      (k : ℕ) (blocks : List Block) (n : Node)
      → AllocatedFrom k blocks
      → Kept k n.chain
      → KeepsNode (k + length blocks) n (handle_get_blocks_response p blocks n)
  unfolding handle_get_blocks_response
  handle_get_blocks_response-KeepsNode k [] n a v =
      (Kept-weaken k (k + 0) n.chain (omega arith) v, refl)
  handle_get_blocks_response-KeepsNode k (b ∷ blocks) n (at_k, a) v =
      let (w, e) = offer-KeepsNode k b n at_k v in
      let rest = handle_get_blocks_response-KeepsNode (suc k) blocks (offer b n).1 a w in
      let count : k + suc (length blocks) ≡ suc k + length blocks = omega arith in
      rw count (
        then_rest (suc k) (suc k + length blocks) blocks n (offer b n).0 (offer b n).1 (omega arith)
          (w, e) rest)
