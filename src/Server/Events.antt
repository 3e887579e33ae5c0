-- ===== src/Server/Events.antt =====
-- What happens to the server, one event after another: a datagram, a connection that names its id or
-- ends, and a round of the clean-up.
pub mod Bounds
use dpmp.Prelude.{ℕ, List, [], ◌∷◌, Text}
use dpmp.Server.Format.{Addr}
use dpmp.Server.State.{Settings, Server, Message, Output}
use dpmp.Server.Handlers.{dispatch, tcp_registered, tcp_closed, cleanup}

pub data Event : Type 0 where
  datagram : Text → Message → Addr → ℕ → Event
  registers : Text → ℕ → Addr → ℕ → Event
  disconnects : Text → ℕ → ℕ → Event
  cleans : ℕ → ℕ → Event

unfoldable pub step : (Text → Text) → Settings → Event → Server → Server × List Output
step sha256 c (datagram fresh msg addr now) s = dispatch sha256 c fresh msg addr now s
step sha256 c (registers mid conn addr now) s = tcp_registered mid conn addr now s
step sha256 c (disconnects mid conn now) s = tcp_closed mid conn now s
step sha256 c (cleans now later) s = cleanup c now later s

unfoldable pub run : (Text → Text) → Settings → List Event → Server → Server
unfolding step
run sha256 c [] s = s
run sha256 c (e ∷ es) s = run sha256 c es (step sha256 c e s).0
