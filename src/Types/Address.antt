-- ===== src/Types/Address.antt =====
-- types/address.go: an address is 20 bytes. A Go array or string is the list of its bytes.
pub mod Laws
use goblockchain.Base.{
  ℕ, ◌+◌, List, [], ◌∷◌, Result, ok, panic, Panic, if◌then◌else◌, ltb, length, set, replicate,
}
use goblockchain.Types.Hash.{hex_encode}

abbrev pub Address : Type 0
Address = List ℕ

abbrev pub address_len : ℕ
address_len = 20

unfoldable pub to_slice : Address → List ℕ
to_slice a = a

-- `for i := range b { out[i] = b[i] }`, which panics where `i` is no index of `out`.
unfoldable pub copy_loop : List ℕ → ℕ → Address → Result ⊥ Address
copy_loop [] i out = ok out
copy_loop (b ∷ bs) i out =
    let rest = copy_loop bs (i + 1) (set out i b) in
    if ltb i (length out) then rest else panic Panic.index_out_of_range

unfoldable pub must_address_from_bytes : List ℕ → Result ⊥ Address
must_address_from_bytes b =
    if ltb (length b) address_len
    then panic Panic.explicit
    else copy_loop b 0 (replicate address_len 0)

unfoldable pub to_string : Address → List ℕ
unfolding to_slice
to_string a = hex_encode (to_slice a)
