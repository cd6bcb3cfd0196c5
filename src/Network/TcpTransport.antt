-- ===== src/Network/TcpTransport.antt =====
-- network/tcp_transport.go: the connections of a transport, what it writes to them, and the loop that
-- reads one. A connection is what was written to it and not read yet. What dialling, listening and
-- accepting return are arguments; logging is left out, and so are the errors of writing.
pub mod Frames
pub mod Delivery
mod Tests
use goblockchain.Base.{
  ℕ, ◌+◌, List, [], ◌∷◌, ◌++◌, Option, none, some, Bool, true, false, Result, ok, err, panic, stuck,
  Panic, Go, ◌>>=◌, ◌>>◌, pure, gets, modify, panic_if, or_throw, ltb, length, take, drop, bytes_eq,
  nat_eq, not, if◌then◌else◌,
}
use goblockchain.Base.Map.{Map, lookup, insert, has_key}
use goblockchain.Network.Rpc.{Rpc, Pipe}
use goblockchain.Network.Envelope.{
  TcpEnvelope, new_tcp_envelope, read_u32, encode_envelope, decode_envelope,
}

-- A `net.Conn`: its two addresses, and what was written to it.
pub record Conn : Type 0 where
  pub local_addr : List ℕ
  pub remote_addr : List ℕ
  pub written : List ℕ

-- The map holds the connections themselves, which nothing else writes to.
pub record TcpTransport : Type 0 where
  pub addr : List ℕ
  pub connections : Map (List ℕ) Conn

pub data Error : Type 0 where
  unknown_peer : List ℕ → Error
  dial_failed listen_failed : Error

unfoldable pub get : List ℕ → TcpTransport → Option Pipe
get id t = elim (lookup id t.connections) [
  | none ↦ none
  | some c ↦ some (record { local_addr = c.local_addr; remote_addr = c.remote_addr })
]

unfoldable pub is_connected : List ℕ → TcpTransport → Bool
is_connected addr t = has_key addr t.connections

-- `NewTcpTransport`, where `listening` is whether `net.Listen` succeeds.
unfoldable pub new_tcp_transport : List ℕ → Bool → Result Error TcpTransport
new_tcp_transport addr listening =
    if listening then ok (record { addr = addr; connections = [] }) else err listen_failed

-- `Connect`, where `net.Dial` has returned `dialled`.
unfoldable pub connect : List ℕ → Option Conn → Go Error TcpTransport (Unit {0})
unfolding is_connected
connect partner dialled t = if is_connected partner t then (ok tt, t) else elim dialled [
  | none ↦ (err dial_failed, t)
  | some c ↦ (ok tt, record t { connections = insert partner c t.connections })
]

-- A round of `listen`, where `Accept` has returned `accepted`. After an error, which goes to the log,
-- the round goes on with the nil connection.
unfoldable pub accept : Option Conn → Go Error TcpTransport (Unit {0})
accept none t = (panic Panic.nil_dereference, t)
accept (some c) t = (ok tt, record t { connections = insert c.remote_addr c t.connections })

unfoldable pub get_conn : List ℕ → TcpTransport → Option Conn
get_conn to t = lookup to t.connections

-- `send`: an envelope with the address of the transport.
unfoldable pub send_on : List ℕ → List ℕ → Conn → Conn
unfolding new_tcp_envelope
send_on addr payload c = record c {
  written = c.written ++ encode_envelope (new_tcp_envelope addr payload);
}

-- `Send`
unfoldable pub send : List ℕ → List ℕ → Go Error TcpTransport (Unit {0})
unfolding send_on
send to payload = do
  c ← or_throw (← gets (λ t. lookup to t.connections)) (unknown_peer to)
  modify (λ t. record t { connections = insert to (send_on t.addr payload c) t.connections })

abbrev pub send_all : List ℕ → List ℕ → Map (List ℕ) Conn → Map (List ℕ) Conn
unfolding send_on
send_all addr payload [] = []
send_all addr payload ((id, c) ∷ conns) = (id, send_on addr payload c) ∷ send_all addr payload conns

-- `Broadcast`
unfoldable pub broadcast : List ℕ → TcpTransport → TcpTransport
broadcast payload t = record t { connections = send_all t.addr payload t.connections }

-- An RPC on the channel: its content is a slice of the buffer that the loop reads into.
pub record Queued : Type 0 where
  pub from : List ℕ
  pub start : ℕ
  pub count : ℕ

-- The variables of `read`, what is left to read of the connection, and the channel.
pub record Reading : Type 0 where
  pub buf : List ℕ
  pub len_buf : List ℕ
  pub input : List ℕ
  pub recv : List Queued

abbrev pub blank_envelope : TcpEnvelope
blank_envelope = record { sender_id = []; payload = [] }

-- What `decodeEnvelope` found, as it goes to the channel.
abbrev pub queued : TcpEnvelope → Queued
queued e = record { from = e.sender_id; start = length e.sender_id + 8; count = length e.payload }

-- A round of the loop of `read`. `Read` returns `n` bytes, from one to four, and the buffer keeps
-- the others; the errors of reading panic.
unfoldable pub read_round : ℕ → Go ⊥ Reading (Unit {0})
read_round n = do
  panic_if (← gets (λ s. ltb (length s.input) 1)) Panic.explicit
  modify (λ s. record s {
    len_buf = take n s.input ++ drop (length (take n s.input)) s.len_buf;
    input = drop n s.input;
  })
  len ← (λ s. (read_u32 s.len_buf, s))
  panic_if (← gets (λ s. ltb (length s.buf) len)) Panic.index_out_of_range
  panic_if (← gets (λ s. ltb (length s.input) len)) Panic.explicit
  modify (λ s. record s { buf = take len s.input ++ drop len s.buf; input = drop len s.input })
  e ← (λ s. ((decode_envelope s.buf blank_envelope).0, s))
  modify (λ s. record s { recv = s.recv ++ (queued (decode_envelope s.buf blank_envelope).1 ∷ []) })

-- What the receiver of a queued RPC reads from it: the buffer as it is by then.
unfoldable pub content_of : Reading → Queued → List ℕ
content_of s q = take q.count (drop q.start s.buf)
