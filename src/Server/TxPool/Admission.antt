-- ===== src/Server/TxPool/Admission.antt =====
-- `TxPool.Add` of server/txpool.go against a queue of limited length without repetitions.
use goblockchain.Base.{
  ℕ, ◌≤◌, ◌<◌, ◌≡◌, refl, ◌∙◌, Bool, true, false, Option, none, some, List, [], ◌∷◌, ◌++◌, Result,
  ok, err, arith, length, length-append, bytes_eq, if◌then◌else◌, ◌==◌, All, All-append, Bool-cases,
  Option-cases, inl, inr,
}
use goblockchain.Base.Map.{lookup}
use goblockchain.Types.GoList
use goblockchain.Core.Data.{Transaction}
use goblockchain.Core.Blockchain.Contents.{SameTx}
use goblockchain.Core.Platform.{Platform}
use goblockchain.Core.Transaction.{set_hasher, tx_hash}
use goblockchain.Server.TxOrderedMap
use goblockchain.Server.TxOrderedMap.{TxOrderedMap, Error, no_more_space}
use goblockchain.Server.TxOrderedMap.Mirror.{Mirrors, find_tx, added, added-Mirrors}
use goblockchain.Server.TxPool.{prune, TxPool, add, contains, pending_count}
use goblockchain.Server.TxPool.Steps.{hash_found, Hashed, set_hasher-Hashed, prune_ok, add_both_lem}

-- The queue: a newcomer goes to the end, unless the queue is full or has its hash already.
abbrev pub admitted : Transaction → List Transaction → Option Transaction → List Transaction
admitted t q none = q ++ (t ∷ [])
admitted t q (some _) = q

abbrev pub offer : ℕ → Transaction → List Transaction → List Transaction
offer max t q = if length q == max then q else admitted t q (find_tx t.hash q)

abbrev is_new : Option Transaction → Bool
is_new none = true
is_new (some _) = false

-- What the caller is told.
abbrev pub answer : ℕ → Transaction → List Transaction → Result Error (Bool × Transaction)
answer max t q = if length q == max then err no_more_space else ok (is_new (find_tx t.hash q), t)

module _ (p : Platform) where
  pub record IsValid (pool : TxPool) : Type 0 where
    pub mirrors : Mirrors pool.pending
    pub bounded : length pool.pending.txns ≤ pool.max
    pub hashed : All (Hashed p) pool.all.txns

  pub add_full :
      (tx : Transaction) (pool : TxPool)
      → (length pool.pending.txns == pool.max) ≡ true
      → add p tx pool ≡ (err no_more_space, pool)
  unfolding add pending_count TxOrderedMap.len GoList.length
  add_full tx pool e = rw e refl

  pub add_known :
      (tx u val : Transaction) (pool : TxPool)
      → (length pool.pending.txns == pool.max) ≡ false
      → tx_hash p (set_hasher pool.hasher tx) ≡ (ok u.hash, u)
      → lookup u.hash pool.pending.by_hash ≡ some val
      → add p tx pool ≡ (ok (false, u), pool)
  unfolding add pending_count contains TxOrderedMap.len GoList.length TxOrderedMap.contains
  add_known tx u val pool e h k = rw (e, h, k) refl

  pub add_new :
      (tx u : Transaction) (pool : TxPool) (tm : TxOrderedMap)
      → (length pool.pending.txns == pool.max) ≡ false
      → tx_hash p (set_hasher pool.hasher tx) ≡ (ok u.hash, u)
      → Hashed p u
      → lookup u.hash pool.pending.by_hash ≡ none
      → prune p pool ≡ (ok tt, record pool { all = tm })
      → add p tx pool ≡ (
        ok (true, u),
        record pool { all = added u.hash u tm; pending = added u.hash u pool.pending },
      )
  unfolding add pending_count contains TxOrderedMap.len GoList.length TxOrderedMap.contains
  add_new tx u pool tm e h hu k pruned =
      rw (e, h, k, pruned) (add_both_lem p u (record pool { all = tm }) hu)

  -- What `Add` has done when the newcomer counts as `u`.
  abbrev pub Outcome : Transaction → TxPool → Result Error (Bool × Transaction) × TxPool → Type 0
  Outcome u pool (r, pool') =
      IsValid pool'
      × (pool'.max ≡ pool.max)
      × (r ≡ answer pool.max u pool.pending.txns)
      × (pool'.pending.txns ≡ offer pool.max u pool.pending.txns)

  add_full-Outcome :
      (tx u : Transaction) (pool : TxPool)
      → (length pool.pending.txns == pool.max) ≡ true
      → IsValid pool
      → Outcome u pool (add p tx pool)
  add_full-Outcome tx u pool e v = rw (add_full tx pool e, e) (v, refl, refl, refl)

  add_known-Outcome :
      (tx u val : Transaction) (pool : TxPool)
      → (length pool.pending.txns == pool.max) ≡ false
      → tx_hash p (set_hasher pool.hasher tx) ≡ (ok u.hash, u)
      → find_tx u.hash pool.pending.txns ≡ some val
      → IsValid pool
      → Outcome u pool (add p tx pool)
  add_known-Outcome tx u val pool e h k v =
      let known : lookup u.hash pool.pending.by_hash ≡ some val = v.mirrors.agrees u.hash ∙ k in
      rw (add_known tx u val pool e h known, e, k) (v, refl, refl, refl)

  add_new-Outcome :
      (tx u : Transaction) (pool : TxPool)
      → (length pool.pending.txns == pool.max) ≡ false
      → tx_hash p (set_hasher pool.hasher tx) ≡ (ok u.hash, u)
      → Hashed p u
      → find_tx u.hash pool.pending.txns ≡ none
      → IsValid pool
      → Outcome u pool (add p tx pool)
  add_new-Outcome tx u pool e h hu k v =
      let missing : lookup u.hash pool.pending.by_hash ≡ none = v.mirrors.agrees u.hash ∙ k in
      let room : length pool.pending.txns < pool.max = ground (arith, e, v.bounded) in
      let (tm, pruned, b) = prune_ok p pool v.hashed (λ z. absurd (omega arith)) in
      let eq = add_new tx u pool tm e h hu missing pruned in
      rw (eq, e, k)
        (
          record {
            mirrors = added-Mirrors u.hash u pool.pending refl k v.mirrors;
            bounded = omega (arith, length-append pool.pending.txns (u ∷ []));
            hashed = All-append (Hashed p) tm.txns (u ∷ []) b (hu, tt);
          },
          refl,
          refl,
          refl,
        )

  -- From a valid pool `Add` always returns, and the pool stays valid. With `u` for the transaction
  -- with its hash, the pending transactions become what a queue of length `max` without repeated
  -- hashes makes of them: unchanged with an error if they are `max` already, unchanged with the
  -- answer false if one has the hash of `u`, and otherwise followed by `u` with the answer true. The
  -- data, sender and signature of `u` are the transaction's, and its hash the cached one, or that of
  -- the data where the cache is zero.
  pub add-Outcome :
      (tx : Transaction) (pool : TxPool)
      → IsValid pool
      → (u : Transaction) × SameTx tx u
        × (u.hash ≡ hash_found p tx)
        × Outcome u pool (add p tx pool)
  add-Outcome tx pool v =
      let (u, h, hu, same, fresh) = set_hasher-Hashed p tx pool.hasher in
      (
        u,
        same,
        fresh,
        elim (Bool-cases (length pool.pending.txns == pool.max)) [
          | inl e ↦ add_full-Outcome tx u pool e v
          | inr e ↦ elim (Option-cases (find_tx u.hash pool.pending.txns)) [
            | inl k ↦ add_new-Outcome tx u pool e h hu k v
            | inr (val, k) ↦ add_known-Outcome tx u val pool e h k v
          ]
        ],
      )
