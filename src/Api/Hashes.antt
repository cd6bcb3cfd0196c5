-- ===== src/Api/Hashes.antt =====
-- What api/server.go answers to a request by the text of a hash.
use goblockchain.Base.{
  ℕ, ◌-◌, ◌≡◌, Bool, none, some, err, Result, List, [], ◌∷◌, ◌++◌, ok, length, get_elem?, refl, sym,
  ap, ◌∙◌, arith, inl, inr, Fails-not_ok, bytes_eq, nat_eq, get_elem?-append_last, length-append,
}
use goblockchain.Base.Map.{Map}
use goblockchain.Base.MapLaws.{lookup-insert_self}
use goblockchain.Types.Hash.{Hash, IsHash, to_string}
use goblockchain.Types.Hash.Hex.{hash_from_hex-to_string}
use goblockchain.Core.Data.{Transaction, Block, HeaderPtr, Error, unknown_hash, key_not_in_store}
use goblockchain.Core.Platform.{Platform}
use goblockchain.Core.HeaderStore
use goblockchain.Core.HeaderStore.{HeaderStore, header_at}
use goblockchain.Core.Store.{store_put, store_get}
use goblockchain.Core.Block.{block_hash}
use goblockchain.Core.Blockchain.{
  Session, block_of, get_block_hash, get_transaction, store_block, persist_block,
}
use goblockchain.Core.Blockchain.Persist.{with_header, persist_block_ok}
use goblockchain.Core.Blockchain.Add.{persist_cases}
use goblockchain.Core.Blockchain.Contents.{SameBlock, persist_block-Stores}
use mathlib.Core.Path.{subst}
use goblockchain.Core.Blockchain.TxIndex.{OneOf, filed_hash, IsFiled, persist_block-Finds}
use goblockchain.Api.{
  Response, Body, block_by_hash, transaction, status_ok, handle_get_block_by_hash,
  handle_get_transaction, answer, json, with_hash,
}
use goblockchain.Api

-- The last header of the longer list.
header_at_last :
    (hdr : HeaderPtr) (headers : List HeaderPtr) (idx : Map Hash ℕ)
    → header_at
        (length (headers ++ (hdr ∷ [])) - 1)
        (record { headers = headers ++ (hdr ∷ []); idx = idx })
      ≡ ok hdr
header_at_last hdr headers idx =
    let last =
      get_elem?-append_last headers hdr (length (headers ++ (hdr ∷ [])) - 1)
        (omega (arith, length-append headers (hdr ∷ []))) in
    rw (header_at, last) refl

module _ (p : Platform) where
  store_block-get_block_hash :
      (h : Hash) (b : Block) (s : Session)
      → let s' = (store_block p (with_header p h b s)).1 in get_block_hash h s'.chain ≡ ok s'.block
  unfolding store_block get_block_hash HeaderStore.get_hash store_put store_get
  store_block-get_block_hash h b s =
      let headers = s.chain.headers.headers in
      let n = length (headers ++ (b.header ∷ [])) - 1 in
      let hs : HeaderStore = (with_header p h b s).chain.headers in
      let s' = (store_block p (with_header p h b s)).1 in
      ap (λ o. block_of (elim o [ none ↦ err unknown_hash | some ix ↦ header_at ix hs ]) s'.chain)
        (lookup-insert_self h n s.chain.headers.idx)
      ∙ ap (λ r. block_of r s'.chain) (header_at_last b.header headers hs.idx)
      ∙ ap (λ o. elim o [ none ↦ err key_not_in_store | some v ↦ ok v ])
          (lookup-insert_self b.header.addr s'.block s.chain.store)

  -- The block is found under its hash.
  persist_block-get_block_hash :
      (s : Session) (h : Hash)
      → (block_hash p s.block).0 ≡ ok h
      → (persist_block p s).0 ≡ ok tt
      → let s' = (persist_block p s).1 in get_block_hash h s'.chain ≡ ok s'.block
  persist_block-get_block_hash s h e r = elim (persist_cases p s) [
    | inl x ↦
        let done = persist_block_ok p s x.hash x.hashed x.has_hash x.unknown in
        let same : x.hash ≡ h = ground (arith, x.has_hash, e) in
        rw (done, sym same) (store_block-get_block_hash x.hash x.hashed s)
    | inr (g, _) ↦ absurd (Fails-not_ok (persist_block p s).0 r g)
  ]

-- Where every entry of the transaction store carries the hash that it stands under, let `persistBlock`
-- succeed. Then a request with the text of the block's hash gets, as far as the framework writes it,
-- the answer with status 200 and the block: its header, validator, signature, and transactions with
-- their data, senders and signatures. One with the text of the hash of a transaction of the block gets
-- the answer with status 200 and a transaction of the block with that hash, which is in its cache.
pub persist_block-Served :
    (p : Platform) (writes : Response → Bool) (s : Session) (h x : Hash) (i : ℕ) (t : Transaction)
    → IsFiled p s.chain.tx_store
    → IsHash h
    → IsHash x
    → (block_hash p s.block).0 ≡ ok h
    → get_elem? s.block.transactions i ≡ some t
    → filed_hash p t ≡ ok x
    → (persist_block p s).0 ≡ ok tt
    → let bc = (persist_block p s).1.chain in
      ((b : Block) × (handle_get_block_by_hash writes (to_string h) bc
          ≡ json writes status_ok (block_by_hash h b))
        × SameBlock s.block b)
      × ((w : Transaction) × (handle_get_transaction writes (to_string x) bc
            ≡ json writes status_ok (transaction x w))
          × (w.hash ≡ x)
          × OneOf p x s.block.transactions w)
unfolding handle_get_block_by_hash handle_get_transaction
persist_block-Served p writes s h x i t filed h_ok x_ok hashed here filed_at r =
    let bc = (persist_block p s).1.chain in
    let (_, (y, at_y, (w, found, carries, one))) = persist_block-Finds p s i t filed here r in
    let same : y ≡ x = ground (arith, at_y, filed_at) in
    let by_hash : Hash → Result Error Block → Result Api.Error Response =
      λ k. answer writes (λ b. json writes status_ok (block_by_hash k b)) in
    let by_tx : Hash → Result Error Transaction → Result Api.Error Response =
      λ k. answer writes (λ v. json writes status_ok (transaction k v)) in
    (
      (
        (persist_block p s).1.block,
        ap (with_hash writes (λ k. by_hash k (get_block_hash k bc)))
              (hash_from_hex-to_string h h_ok).1
            ∙ ap (by_hash h) (persist_block-get_block_hash p s h hashed r),
        (persist_block-Stores p s r).0,
      ),
      (
        w,
        ap (with_hash writes (λ k. by_tx k (get_transaction k bc)))
              (hash_from_hex-to_string x x_ok).1
            ∙ ap (by_tx x) (rw same at found),
        carries ∙ same,
        subst (λ k. OneOf p k s.block.transactions w) same one,
      ),
    )
