-- ===== src/Server/Node/Status.antt =====
-- The status messages of server/server_internal.go, the subscriptions of server/handle_subscribe.go,
-- and `Subscribe` and `Join` of server/server.go.
use goblockchain.Base.{
  ℕ, List, Result, ok, Panic, Go, ◌>>=◌, ◌>>◌, pure, gets, modify, or_throw, or_panic, throw_if,
  bytes_eq, not,
}
use goblockchain.Base.Map.{lookup, insert, has_key}
use goblockchain.Core.Data
use goblockchain.Core.Data.{HeaderPtr}
use goblockchain.Core.Blockchain.{height, get_header}
use goblockchain.Protocol.{
  StatusMessageRequest, StatusMessageResponse, SubscribeMessageRequest, SubscribeMessageResponse,
}
use goblockchain.Server.Node.{
  Node, Error, Outgoing, post, unknown_peer, ghost_connection, status_request_message,
  status_response_message, subscribe_request_message, subscribe_response_message,
}

-- The error of `GetHeader` leaves the version 0.
abbrev pub version_of : Result Data.Error HeaderPtr → ℕ
version_of (ok hdr) = hdr.target.version
version_of _ = 0

unfoldable pub current_status : Node → StatusMessageResponse
current_status n = record {
  server_id = n.id;
  current_height = height n.chain;
  version = version_of (get_header (height n.chain) n.chain);
}

-- `send`: the transport sends on a connection that it has to this address.
unfoldable pub send : List ℕ → Outgoing → Go Error Node (Unit {0})
send addr m = do
  connected ← gets (λ n. has_key addr n.connections)
  throw_if (not connected) (unknown_peer addr)
  post m

unfoldable pub send_startup_status_requests : Go Error Node (Unit {0})
send_startup_status_requests = do
  id ← gets (λ n. n.id)
  post (status_request_message (record { requestor_id = id }))

unfoldable pub handle_status_message_response : StatusMessageResponse → Go Error Node (Unit {0})
handle_status_message_response s = pure tt

unfoldable pub handle_status_message_request : StatusMessageRequest → Go Error Node (Unit {0})
handle_status_message_request s = do
  status ← gets current_status
  post (status_response_message status)

unfoldable pub handle_subscribe_message_request : SubscribeMessageRequest → Go Error Node (Unit {0})
unfolding send
handle_subscribe_message_request s = do
  pipe ← or_throw (← gets (λ n. lookup s.handle n.connections)) (ghost_connection s.handle)
  modify (λ n. record n { peers = insert s.requestor_id pipe.remote_addr n.peers })
  addr ← gets (λ n. n.addr)
  send pipe.remote_addr
      (subscribe_response_message pipe.remote_addr (record { provider_id = addr }))

unfoldable pub handle_subscribe_message_response :
    SubscribeMessageResponse → Go Error Node (Unit {0})
handle_subscribe_message_response s = do
  pipe ←
      or_throw (← gets (λ n. lookup s.provider_id n.connections)) (ghost_connection s.provider_id)
  modify (λ n. record n { peers = insert s.provider_id pipe.remote_addr n.peers })

-- `Subscribe`: without a connection the pipe is a nil interface.
unfoldable pub subscribe : List ℕ → Go Error Node (Unit {0})
unfolding send
subscribe leader = do
  pipe ← or_panic (← gets (λ n. lookup leader n.connections)) Panic.nil_dereference
  addr ← gets (λ n. n.addr)
  send leader
      (subscribe_request_message leader (record { requestor_id = addr; handle = pipe.local_addr }))

-- `Join`: each of the two servers subscribes to the other.
unfoldable pub join : Go Error (Node × Node) (Unit {0})
unfolding subscribe
join (s, peer) = elim (subscribe peer.addr s).0 [
  | ok _ ↦ ((subscribe s.addr peer).0, ((subscribe peer.addr s).1, (subscribe s.addr peer).1))
  | other ↦ (other, ((subscribe peer.addr s).1, peer))
]
