-- ===== src/Core/Blockchain/Integrity.antt =====
-- What the hashes of the headers are for (core/blockchain.go): a header fixes all that came before it.
use goblockchain.Base.{
  ℕ, zero, suc, ◌+◌, ◌<◌, ◌≡◌, sym, ap, ◌∙◌, some, ok, arith, length, get_elem?, get_elem?-some,
  lt_length_of_get_elem?,
}
use goblockchain.Types.Hash.{Hash}
use goblockchain.Core.Data.{Header, HeaderPtr}
use goblockchain.Core.Platform.{Platform}
use goblockchain.Core.Block.{header_hash}
use goblockchain.Core.Blockchain.{Blockchain}
use goblockchain.Core.Blockchain.History.{ChainHistory, ChainHistory-IsValid}
use goblockchain.Core.Blockchain.Invariant.{IsValid, chain_headers}

-- No two headers have the same hash: what is relied on of gob and SHA-256 here.
pub record NoCollision (p : Platform) : Type 0 where
  pub same : (h k : Header) (x : Hash) → header_hash p h ≡ ok x → header_hash p k ≡ ok x → h ≡ k

module _ (p : Platform) (bc bc' : Blockchain) (v : IsValid p bc) (v' : IsValid p bc')
    (free : NoCollision p) where
  one_back :
      (i : ℕ) (a a' b b' : HeaderPtr)
      → get_elem? (chain_headers bc) i ≡ some a
      → get_elem? (chain_headers bc) (suc i) ≡ some b
      → get_elem? (chain_headers bc') i ≡ some a'
      → get_elem? (chain_headers bc') (suc i) ≡ some b'
      → b.target ≡ b'.target
      → a.target ≡ a'.target
  one_back i a a' b b' ea eb ea' eb' same =
      free.same a.target a'.target b.target.previous_block_hash (v.linked i a b ea eb)
        (v'.linked i a' b' ea' eb' ∙ ap (λ (h : Header). ok h.previous_block_hash) (sym same))

  agree :
      (back i : ℕ) (a a' b b' : HeaderPtr)
      → get_elem? (chain_headers bc) (i + back) ≡ some b
      → get_elem? (chain_headers bc') (i + back) ≡ some b'
      → b.target ≡ b'.target
      → get_elem? (chain_headers bc) i ≡ some a
      → get_elem? (chain_headers bc') i ≡ some a'
      → a.target ≡ a'.target
  agree zero i a a' b b' eb eb' same ea ea' =
      let here : i + 0 ≡ i = omega arith in
      ground (arith, rw here at eb, rw here at eb', same, ea, ea')
  agree (suc back) i a a' b b' eb eb' same ea ea' =
      let up : i + suc back ≡ suc i + back = omega arith in
      let top : i + suc back < length (chain_headers bc) = lt_length_of_get_elem? _ _ eb in
      let top' : i + suc back < length (chain_headers bc') = lt_length_of_get_elem? _ _ eb' in
      let (c, ec) = get_elem?-some (chain_headers bc) (suc i) (omega arith) in
      let (c', ec') = get_elem?-some (chain_headers bc') (suc i) (omega arith) in
      one_back i a a' c c' ea ec ea' ec'
        (agree back (suc i) c c' b b' (rw up at eb) (rw up at eb') same ec ec')

-- Take two chains, each made from a genesis block and offered blocks in any order. If they have the
-- same header at some height, they have the same headers at every height below. (No two headers have
-- the same hash.)
pub headers_agree :
    (p : Platform) (bc bc' : Blockchain) (back i : ℕ) (a a' b b' : HeaderPtr)
    → NoCollision p
    → ChainHistory p bc
    → ChainHistory p bc'
    → get_elem? (chain_headers bc) (i + back) ≡ some b
    → get_elem? (chain_headers bc') (i + back) ≡ some b'
    → b.target ≡ b'.target
    → get_elem? (chain_headers bc) i ≡ some a
    → get_elem? (chain_headers bc') i ≡ some a'
    → a.target ≡ a'.target
headers_agree p bc bc' back i a a' b b' free past past' =
    agree p bc bc' (ChainHistory-IsValid p bc past) (ChainHistory-IsValid p bc' past') free back i a
      a' b b'
