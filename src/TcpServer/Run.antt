-- ===== src/TcpServer/Run.antt =====
-- code/TcpServer.cpp: runs of a server, by the accepts that asio ends and the connections that end.
use ecron.Prelude.{List, Option, [], false, none, ok, some, true, ℕ, ◌++◌, ◌+◌, ◌∷◌, ◌≡◌, ◌≢◌}
use ecron.TimingWheel.{contains}
use ecron.TcpServer.{
  Accepted, Conn, Request, TcpServer, async_accept, close, establish, handle_accept,
  post_accept_loop, remove_conn_loop,
}

abbrev pub awaited : List Request → Option Conn
awaited [] = none
awaited (post_accept_loop ∷ rest) = awaited rest
awaited (async_accept c ∷ rest) = some c
awaited (establish c ∷ rest) = awaited rest
awaited (close a ∷ rest) = awaited rest

abbrev pub established : List Request → List ℕ
established [] = []
established (post_accept_loop ∷ rest) = established rest
established (async_accept c ∷ rest) = established rest
established (establish c ∷ rest) = c.number ∷ established rest
established (close a ∷ rest) = established rest

-- The server, the connection that waits for a peer, the numbers of the connections that were
-- established so far, and how many of them ended.
pub record Session : Type 0 where
  pub server : TcpServer
  pub pending : Option Conn
  pub numbers : List ℕ
  pub ended : ℕ

-- A new connection gets an address that no connection has.
pub data Step (s : Session) : Session → Type 0 where
  finishing :
      (c : Conn) (outcome : Accepted) (a : ℕ) (r : TcpServer × List Request)
      → s.pending ≡ some c
      → contains s.server.connections a ≡ false
      → a ≢ c.address
      → handle_accept s.server c outcome a ≡ ok r
      → Step s
          (record s { server = r.0; pending = awaited r.1; numbers = s.numbers ++ established r.1 })
  ending :
      (a : ℕ)
      → contains s.server.connections a ≡ true
      → Step s (record s { server = remove_conn_loop s.server a; ended = s.ended + 1 })

pub data Reach (s : Session) : Session → Type 0 where
  here : Reach s s
  next : {t u : Session} → Reach s t → Step t u → Reach s u

abbrev pub begun : TcpServer × Conn → Session
begun r = record { server = r.0; pending = some r.1; numbers = []; ended = 0 }
