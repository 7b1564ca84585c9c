-- ===== src/Client/Reader/Laws.antt =====
-- What `server_input_thread` of client/proxy/client/proxy_client.c does with its descriptors.
use net_port.Base.{◌≡◌, true, false, none, All}
use net_port.Client.Side.{Side, Turn, After, goes_on, leaves, restarts, returns}
use net_port.Client.Side.Laws.{IsTidy}
use net_port.Client.Reader.{Socket, no_socket, ready, Session}

-- The descriptors are in order; where the thread starts again or returns, none is open; and where it
-- returns, its flags are cleared.
pub record IsEnded (s : Side) : Type 0 where
  pub tidy : IsTidy s
  pub shut : s.fd ≡ none

pub record IsReturned (s : Side) : Type 0 where
  pub ended : IsEnded s
  pub not_running : s.is_running ≡ false
  pub not_starting : s.is_starting ≡ false

abbrev pub IsFit : Side → After → Type 0
IsFit s goes_on = IsTidy s
IsFit s leaves = IsTidy s
IsFit s restarts = IsEnded s
IsFit s returns = IsReturned s

-- The target's thread comes to run whenever a chunk is there, and a socket that cannot be set up is not
-- left open.
abbrev pub Served : Turn → Type 0
Served t = t.other_runs ≡ true

abbrev pub NothingLeft : Socket → Type 0
NothingLeft (no_socket left) = left ≡ none
NothingLeft (ready fd) = Unit

abbrev pub Smooth : Session → Type 0
Smooth x = NothingLeft x.socket × All Served x.turns
