-- ===== src/Rpc/RpcServer/Answers.antt =====
-- examples/rpc/RpcServer.cpp: what on_recv does without workers.
use ecron.Prelude.{
  List, Option, arith, assign, if◌then◌else◌, length, lookup, lookup-assign, ok, some, ℕ, ◌++◌, ◌<◌,
  ◌==◌, ◌≡◌,
}
use ecron.Buffer.{Buffer}
use ecron.Buffer.Fifo.{Holds}
use ecron.Rpc.{Codec, IsLawful}
use ecron.Rpc.Stream.{Fits, IsPart, messages, wire}
use ecron.Rpc.Calls.{Memory, RpcChannel, RpcMeta}
use ecron.Rpc.Ends.{process_buffer, process_messages}
use ecron.Rpc.Ends.Served.{AreRequests, Served, process_buffer-Delivered, process_messages-Served}
use ecron.Rpc.RpcServer.{RpcServer, on_recv, with_services}

on_recv-of :
    {Message : Type 0} (k : Codec RpcMeta Message) (mem : Memory) (parse : List ℕ → Option Message)
    (fuel : ℕ) (s : RpcServer Message) (a n : ℕ) (ch ch' : RpcChannel Message) (b b' : Buffer)
    → s.num_workers ≡ 0
    → lookup ◌==◌ a s.contexts ≡ some ch
    → process_buffer k mem parse fuel (with_services s ch) b ≡ ok (some (ch', b', n))
    → on_recv k mem parse fuel s a b
      ≡ ok (some (record s { contexts = assign ◌==◌ a ch' s.contexts }, b', n))
unfolding on_recv
on_recv-of k mem parse fuel s a n ch ch' b b' alone found run = ground (arith, alone, found, run)

module _ {Message : Type 0} (k : Codec RpcMeta Message) (law : IsLawful k) (mem : Memory)
    (parse : List ℕ → Option Message) (fuel : ℕ) (s : RpcServer Message) (a : ℕ)
    (ch : RpcChannel Message) (b : Buffer) (ps : List (RpcMeta × Option Message)) (rest : List ℕ)
    (alone : s.num_workers ≡ 0) (found : lookup ◌==◌ a s.contexts ≡ some ch)
    (holds : Holds b (wire k ps ++ rest)) (fits : Fits k ps) (part : IsPart k rest)
    (enough : length ps < fuel) where
  -- The channel behind the requests.
  abbrev pub after : RpcChannel Message
  after = process_messages k mem parse (with_services s ch) (messages k ps)

  pub on_recv-after :
      (b' : Buffer) × (on_recv k mem parse fuel s a b
        ≡ ok (some (record s { contexts = assign ◌==◌ a after s.contexts }, b', 0)))
      × Holds b' rest
  on_recv-after =
      let (b', run, held) =
        process_buffer-Delivered k mem parse law fuel ps (with_services s ch) b rest holds fits part
          enough in
      (b', on_recv-of k mem parse fuel s a 0 ch after b b' alone found run, held)

  -- Where a server has no workers and a connection's buffer holds some requests and then a part of
  -- a message, on_recv handles each of the requests, once and in order: it sends one answer with the
  -- request's id, or the user's method keeps the request for later. It returns with fuel for one turn
  -- more than there are requests, leaves the part in the buffer, does not close the connection,
  -- and changes no other connection's channel.
  pub on_recv-Served :
      AreRequests ps
      → (ch' : RpcChannel Message) × (b' : Buffer) × (on_recv k mem parse fuel s a b
          ≡ ok (some (record s { contexts = assign ◌==◌ a ch' s.contexts }, b', 0)))
        × Holds b' rest
        × Served (with_services s ch) ps ch'
        × ((j : ℕ)
            → (lookup ◌==◌ j (assign ◌==◌ a ch' s.contexts)
                ≡ (if a == j then some ch' else lookup ◌==◌ j s.contexts)))
  on_recv-Served requests =
      let (b', run, held) = on_recv-after in
      (
        after,
        b',
        run,
        held,
        process_messages-Served k mem parse (with_services s ch) ps requests,
        λ j. lookup-assign a j after s.contexts,
      )
