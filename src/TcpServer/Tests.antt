-- ===== src/TcpServer/Tests.antt =====
-- code/TcpServer.cpp: a server that accepts a connection, and the theorem at it.
use ecron.Prelude.{[], arith, refl, some, true, false, ◌∷◌, ◌≡◌}
use ecron.EventLoopPool
use ecron.EventLoopPool.{get_nextloop}
use ecron.TimingWheel.{erase, insert}
use ecron.TcpServer.{
  Acceptor, accept_again, accept_loop, create, failure, handle_accept, listen, listening, peer,
  post_accept_loop, remove_conn_loop, start, stop, close,
}
use ecron.TcpServer.Count.{IsCounted, Reach-IsCounted}
use ecron.TcpServer.Run.{Session, ending, finishing, here, next}

abbrev willing : Acceptor
willing = record {
  opens = true;
  reuse_address = true;
  enable_connection_aborted = true;
  binds = true;
  listens = true;
}

abbrev taken : Acceptor
taken = record willing { binds = false }

start_example :
    start (λ s. some 1) (λ n. n) willing (create 5) (some "a") 80
    ≡ (true, listening (λ n. n) (create 5) "a" 80, post_accept_loop ∷ [])
unfolding start listen
start_example = refl

-- A port that is taken leaves the acceptor open.
start-taken_example :
    start (λ s. some 1) (λ n. n) taken (create 5) (some "a") 80
    ≡ (false, record (create 5) { is_open = true }, [])
unfolding start listen create
start-taken_example = refl

stop_example : (stop (record (create 5) { connections = 9 ∷ [] })).1 ≡ close 9 ∷ []
unfolding stop
stop_example = refl

-- Two connections came, the first has ended, and then an accept failed.
abbrev served : Session
served = record {
  server = record (create 5) { connections = 8 ∷ []; count = 3 };
  pending = some (record { address = 7; number = 3; loop = 5 });
  numbers = 1 ∷ 2 ∷ [];
  ended = 1;
}

Reach-IsCounted_example : IsCounted served
unfolding create accept_loop accept_again handle_accept remove_conn_loop insert erase get_nextloop
    EventLoopPool.create
Reach-IsCounted_example = Reach-IsCounted (create 5) 9 _ refl refl refl (
    next
      (next
        (next (next here (finishing _ peer 8 _ refl refl (λ e. absurd (omega arith)) refl))
          (finishing _ peer 6 _ refl refl (λ e. absurd (omega arith)) refl))
        (ending 9 refl))
      (finishing _ failure 7 _ refl refl (λ e. absurd (omega arith)) refl))
