-- ===== src/Network/Rpc.antt =====
-- network/rpc.go, and the payload and pipes of network/transport.go. A payload is the list of its bytes.
use goblockchain.Base.{ℕ, List, [], ◌∷◌, ◌++◌}

-- `RPC`, with the bytes that its reader has.
pub record Rpc : Type 0 where
  pub from : List ℕ
  pub content : List ℕ

-- `DecodedMessage`; its field `Data` is of any type.
pub record DecodedMessage (A : Type 0) : Type 0 where
  pub from : List ℕ
  pub message_data : A

-- `Pipe`, with the texts of its addresses.
pub record Pipe : Type 0 where
  pub local_addr : List ℕ
  pub remote_addr : List ℕ

-- `pipeImpl.String`: the local address, " (local) -> ", the remote address, " (remote)".
unfoldable pub pipe_string : Pipe → List ℕ
pipe_string p =
    p.local_addr
    ++ (32 ∷ 40 ∷ 108 ∷ 111 ∷ 99 ∷ 97 ∷ 108 ∷ 41 ∷ 32 ∷ 45 ∷ 62 ∷ 32 ∷ [])
    ++ p.remote_addr
    ++ (32 ∷ 40 ∷ 114 ∷ 101 ∷ 109 ∷ 111 ∷ 116 ∷ 101 ∷ 41 ∷ [])
