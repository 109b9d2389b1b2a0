-- ===== src/Server/Accept.antt =====
-- `Server::run` of src/server.rs: it binds the address, starts the event switch, and accepts.
use hardlight.Prelude.{ℕ, Bool, true, false, Option, none, some, List, [], ◌∷◌}
use hardlight.Codec.{◌>>=◌}
use hardlight.Server.Switch.{EventSwitch, new_switch}
use hardlight.Server.Application.{Server, Receiver, switch_receiver}

-- A stream that was accepted, with the address of its peer.
abbrev pub Peer : Type 0
Peer = ℕ × ℕ

-- How `run` goes on: with the error of `bind`, or for ever.
pub data Run : Type 0 where
  bind_error : Run
  accepts : (switch : EventSwitch) (event_rx : Receiver) (handlers : List Peer) → Run

-- The loop, on what `accept` gives: an error is passed over, and a stream gets a handler of its own.
unfoldable pub accept_all : List (Option Peer) → List Peer
accept_all [] = []
accept_all (none ∷ rest) = accept_all rest
accept_all (some peer ∷ rest) = peer ∷ accept_all rest

-- `none` is the panic of `unwrap`, on a server whose event receiver is gone.
unfoldable pub run_server : Bool → List (Option Peer) → Server → Option Run
unfolding accept_all switch_receiver
run_server false accepted s = some bind_error
run_server true accepted s = do
  event_rx ← switch_receiver s
  some (accepts new_switch event_rx (accept_all accepted))
