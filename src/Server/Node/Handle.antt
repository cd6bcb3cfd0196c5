-- ===== src/Server/Node/Handle.antt =====
-- `handleTransaction` and `handleBlock` of server/server_internal.go.
use goblockchain.Base.{
  ◌>>=◌, ℕ, ◌≡◌, refl, ◌⊎◌, inl, inr, Bool, [], ◌∷◌, ◌++◌, Result, ok, err, panic, stuck, Go,
  bind_at, wrap_result, if◌then◌else◌, length, ◌==◌, ==_iff, ◌≢◌, none, some, arith, Fails,
  Bool-cases, Option-cases, pure,
}
use goblockchain.Core.Data
use goblockchain.Core.Data.{Transaction, HeaderPtr, Block, out_of_sync}
use goblockchain.Core.Platform.{Platform}
use goblockchain.Core.Transaction.{verify_tx, set_created_at}
use goblockchain.Core.Blockchain.Contents.{SameTx}
use goblockchain.Server.TxOrderedMap
use goblockchain.Server.TxOrderedMap.{no_more_space}
use goblockchain.Server.TxPool.Steps.{hash_found}
use goblockchain.Server.TxOrderedMap.Mirror.{find_tx}
use goblockchain.Server.TxPool
use goblockchain.Server.TxPool.{TxPool}
use goblockchain.Server.TxPool.Admission.{IsValid, answer, offer, add-Outcome}
use goblockchain.Server.Node.{
  Node, Error, in_core, in_pool, tx_message, post, pool_add, handle_transaction,
}

module _ (p : Platform) where
  -- The transaction waits behind the others, with its hash, and goes out.
  abbrev pub Taken : Transaction → Node → Node → Type 0
  Taken tx n n' =
      (u : Transaction) × SameTx tx u
      × (u.hash ≡ hash_found p tx)
      × (n'.pool.pending.txns ≡ n.pool.pending.txns ++ (u ∷ []))
      × (n'.outbox ≡ n.outbox ++ (tx_message u ∷ []))

  abbrev pub Ignored : Node → Node → Type 0
  Ignored n n' = (n'.pool.pending.txns ≡ n.pool.pending.txns) × (n'.outbox ≡ n.outbox)

  -- What becomes of a verified transaction: the pool is full, or one with its hash waits, or neither.
  abbrev pub OfferOutcome : Transaction → Node → Result Error (Unit {0}) × Node → Type 0
  OfferOutcome tx n (r, n') =
      ((length n.pool.pending.txns ≡ n.pool.max) × (r ≡ err (in_pool no_more_space)) × Ignored n n')
      ⊎ ((length n.pool.pending.txns ≢ n.pool.max)
          × ((((x : Transaction) × (find_tx (hash_found p tx) n.pool.pending.txns ≡ some x))
                × (r ≡ ok tt)
                × Ignored n n')
              ⊎ ((find_tx (hash_found p tx) n.pool.pending.txns ≡ none)
                  × (r ≡ ok tt)
                  × Taken tx n n')))

  abbrev pub HandleOutcome : Transaction → Node → Result Error (Unit {0}) × Node → Type 0
  HandleOutcome tx n (r, n') =
      IsValid p n'.pool
      × (n'.chain ≡ n.chain)
      × (((verify_tx p tx ≡ ok tt) × OfferOutcome tx n (r, n'))
          ⊎ (Fails (verify_tx p tx) × (r ≡ wrap_result in_core (verify_tx p tx)) × Ignored n n'))

  abbrev after_pool : Bool × Transaction → Go Error Node (Unit {0})
  after_pool (is_new, t) = if is_new then post (tx_message t) else pure tt

  by_answer :
      (tx u : Transaction) (n : Node) (r : Result TxOrderedMap.Error (Bool × Transaction))
      (pool : TxPool)
      → verify_tx p tx ≡ ok tt
      → SameTx tx u
      → u.hash ≡ hash_found p tx
      → IsValid p pool
      → r ≡ answer n.pool.max u n.pool.pending.txns
      → pool.pending.txns ≡ offer n.pool.max u n.pool.pending.txns
      → HandleOutcome tx n (bind_at (wrap_result in_pool r) (record n { pool = pool }) after_pool)
  by_answer tx u n r pool good same at_hash v told after =
      elim (Bool-cases (length n.pool.pending.txns == n.pool.max)) [
        | inl full ↦
            let limit : length n.pool.pending.txns ≡ n.pool.max = (==_iff _ _).0 full in
            rw (told, full) (v, refl, inl (good, inl (limit, refl, (rw full at after, refl))))
        | inr room ↦
            let below : length n.pool.pending.txns ≢ n.pool.max = λ e. ground (arith, room, e) in
            elim (Option-cases (find_tx u.hash n.pool.pending.txns)) [
              | inl k ↦
                  rw (told, room, k)
                    (
                      v,
                      refl,
                      inl (
                        good,
                        inr (
                          below,
                          inr (
                            rw at_hash at k,
                            refl,
                            (u, same, at_hash, rw (room, k) at after, refl),
                          ),
                        ),
                      ),
                    )
              | inr (z, k) ↦
                  rw (told, room, k)
                    (
                      v,
                      refl,
                      inl (
                        good,
                        inr (
                          below,
                          inl ((z, rw at_hash at k), refl, (rw (room, k) at after, refl)),
                        ),
                      ),
                    )
            ]
      ]

  -- With a valid pool `handleTransaction` leaves a valid pool and the chain as it is. A transaction that
  -- does not verify gets the answer of `Verify`. One that does gets an error if `max` are pending; no
  -- error, and nothing else, if one with its hash is pending already; and otherwise it joins the end of
  -- the pending ones, with its data, sender, signature and hash, and is broadcast. In the other cases
  -- the pending transactions and the outbox are as before.
  pub handle_transaction-HandleOutcome :
      (now : ℕ) (tx : Transaction) (n : Node)
      → IsValid p n.pool
      → HandleOutcome tx n (handle_transaction p now tx n)
  unfolding handle_transaction set_created_at
  handle_transaction-HandleOutcome now tx n v = by_signature (verify_tx p tx) refl
    where
      by_signature :
          (r : Result Data.Error (Unit {0}))
          → verify_tx p tx ≡ r
          → HandleOutcome tx n (
              bind_at
                (wrap_result in_core r)
                n
                (λ _. pool_add p (set_created_at now tx) >>= after_pool))
      by_signature (ok _) e =
          let (u, same, at_hash, (w, _, told, after)) =
            add-Outcome p (set_created_at now tx) n.pool v in
          by_answer tx u n (TxPool.add p (set_created_at now tx) n.pool).0
            (TxPool.add p (set_created_at now tx) n.pool).1 e same at_hash w told after
      by_signature (err x) e = (v, refl, inr (rw e (tt, refl, (refl, refl))))
      by_signature (panic q) e = (v, refl, inr (rw e (tt, refl, (refl, refl))))
      by_signature stuck e = (v, refl, inr (rw e (tt, refl, (refl, refl))))
