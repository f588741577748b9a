-- ===== src/TcpClient/Single.antt =====
-- code/TcpClient.cpp: a client does one thing at a time.
use ecron.Prelude.{
  Ends-ok, List, Option, String, [], ap, append-nil, arith, length, ok, refl, subst, sym, ℕ, ◌++◌,
  ◌+◌, ◌-◌, ◌<◌, ◌∙◌, ◌∷◌, ◌≡◌, ◌≤◌,
}
use ecron.TcpConnection.{TcpConnection, Callbacks}
use ecron.TimingWheel.{TimingWheel, erase}
use ecron.TcpClient.{
  Attempt, Request, TcpClient, connect_loop, create, failure, handle_timeout, operation_aborted,
  remove_conn, success,
}
use ecron.TcpClient.Run.{
  Reach, Session, Step, armed, connecting, ending, finishing, here, leaving, next, retrying,
  sharing, start, starting, ticking, waiting_of, won, working,
}
use ecron.TcpClient.Timers.{AreAt, erase-AreAt, length-erase, length-waiting_of, waiting_of-none}
use Prim.{tt}
use ecron.TcpClient.Effects.{
  Dropped, Finished, connect-flag, connect_loop-Ends, disconnect_loop-Ends, drop_conn-flag, flag,
  flag-bound, handle_connect-Ends, handle_connect-Remembers, present,
}

pub record IsSingle (s : Session) : Type 0 where
  pub one : s.posted + s.attempts + length s.timers + s.established ≤ flag s.client.connecting
  pub linked : present s.client.conn ≡ s.attempts + s.established
  pub remembered : AreAt s.client.timer.timer s.timers

-- connect_loop ran in place of one job, or one timer.
looped :
    {s : Session} (r : TcpClient × List Request) (w : TimingWheel) (n : ℕ) (xs : List ℕ)
    → IsSingle s
    → n + length xs + 1 + s.attempts + s.established ≤ flag s.client.connecting
    → AreAt s.client.timer.timer xs
    → connect_loop s.client ≡ ok r
    → IsSingle (record s {
      client = r.0;
      wheel = w;
      timers = xs;
      posted = n;
      attempts = s.attempts + length r.1;
    })
looped {s} r w n xs i h known e =
    let (made, kept, asked, same) = Ends-ok _ _ r e (connect_loop-Ends s.client) in
    let b = flag-bound s.client.connecting in
    record {
      one = rw kept (omega (arith, asked, h));
      linked = omega (arith, made, asked, h, b);
      remembered = subst (λ t. AreAt t.timer xs) (sym same) known;
    }

no_timers : (xs : List ℕ) → length xs ≤ 0 → xs ≡ []
no_timers [] h = refl
no_timers (x ∷ xs) h = absurd (omega arith)

-- The timers behind an attempt that ended: none was there before.
alone :
    {s : Session} (w : TimingWheel) (xs : List ℕ)
    → IsSingle s
    → 0 < s.attempts
    → waiting_of w (xs ++ s.timers) ≡ waiting_of w xs
alone {s} w xs i h =
    let b = flag-bound s.client.connecting in
    ap (waiting_of w)
      (ap (λ l. xs ++ l) (no_timers s.timers (omega (arith, i.one, b))) ∙ append-nil xs)

finished :
    {s : Session} (a : ℕ) (outcome : Attempt) (r : TcpClient × TimingWheel)
    → IsSingle s
    → 0 < s.attempts
    → Finished s.client outcome r.0
    → AreAt r.0.timer.timer (waiting_of r.1 (armed outcome a))
    → IsSingle (record s {
      client = r.0;
      wheel = r.1;
      timers = waiting_of r.1 (armed outcome a ++ s.timers);
      attempts = s.attempts - 1;
      established = s.established + won outcome;
    })
finished {s} a success r i h (made, kept) known =
    let b = flag-bound s.client.connecting in
    let same = alone r.1 [] i h in
    record {
      one = rw kept (omega (arith, i.one, ap length same));
      linked = omega (arith, made, i.one, b);
      remembered = subst (AreAt r.0.timer.timer) (sym same) known;
    }
finished {s} a operation_aborted r i h (gone, free) known =
    let b = flag-bound s.client.connecting in
    let same = alone r.1 [] i h in
    record {
      one = omega (arith, i.one, b, ap length same);
      linked = omega (arith, gone, i.one, b);
      remembered = subst (AreAt r.0.timer.timer) (sym same) known;
    }
finished {s} a failure r i h (gone, kept) known =
    let b = flag-bound s.client.connecting in
    let same = alone r.1 (a ∷ []) i h in
    let few = length-waiting_of r.1 (a ∷ []) in
    record {
      one = rw kept (omega (arith, i.one, ap length same, few));
      linked = omega (arith, gone, i.one, b);
      remembered = subst (AreAt r.0.timer.timer) (sym same) known;
    }

left :
    {s : Session} (r : (TcpClient × List Request) × TimingWheel) (m : Option TcpConnection)
    → IsSingle s
    → s.client.conn ≡ m
    → s.posted ≡ 0
    → Dropped s.client r
    → IsSingle (record s { client = r.0.0; wheel = r.1; timers = waiting_of r.1 s.timers })
left {s} r m i e h (q, cancelled) =
    let linked' : present m ≡ s.attempts + s.established = ap present (sym e) ∙ i.linked in
    let (same, timer, single, fits) = drop_conn-flag s.client m e in
    let gone = waiting_of-none r.1 s.client.timer.timer s.timers i.remembered cancelled in
    record {
      one = omega (
        arith,
        i.one,
        flag-bound s.client.connecting,
        linked',
        h,
        fits,
        ap length gone,
        ap (λ x. flag x.0.connecting) q,
      );
      linked = ap (λ x. present x.0.conn) q ∙ same ∙ linked';
      remembered = subst (AreAt r.0.0.timer.timer) (sym gone) tt;
    }

module _ {make_address : String → Option ℕ} {cb : Callbacks} where
  Step-IsSingle : {s t : Session} → IsSingle s → Step make_address cb s t → IsSingle t
  unfolding handle_timeout remove_conn
  Step-IsSingle {s} i (connecting ip port interval) =
      let (same, timer, grows) = connect-flag make_address s.client ip port interval in
      record {
        one = omega (arith, i.one, grows);
        linked = rw same i.linked;
        remembered = subst (λ t. AreAt t.timer s.timers) (sym timer) i.remembered;
      }
  Step-IsSingle {s} i (starting r h e) =
      looped r s.wheel (s.posted - 1) s.timers i (omega (arith, i.one)) i.remembered e
  Step-IsSingle {s} i (retrying a t r ticked own called e) =
      looped r t.0 s.posted (erase s.timers a) i (omega (arith, i.one, length-erase s.timers a own))
        (erase-AreAt s.client.timer.timer a s.timers i.remembered) e
  Step-IsSingle {s} i (finishing a outcome r h some_place fresh e) =
      finished a outcome r i h (Ends-ok _ _ r e (handle_connect-Ends cb s.client s.wheel a outcome))
        (Ends-ok _ _ r e (handle_connect-Remembers cb s.client s.wheel a outcome some_place fresh))
  Step-IsSingle i (ticking t e h) = record {
    one = i.one;
    linked = i.linked;
    remembered = i.remembered;
  }
  Step-IsSingle i (sharing w h) = record {
    one = i.one;
    linked = i.linked;
    remembered = i.remembered;
  }
  Step-IsSingle {s} i (leaving r h asked e) =
      left r s.client.conn i refl h (Ends-ok _ _ r e (disconnect_loop-Ends s.client s.wheel))
  Step-IsSingle {s} i (working k h) =
      let b = flag-bound s.client.connecting in
      record { one = i.one; linked = omega (arith, i.one, i.linked, b); remembered = i.remembered }
  Step-IsSingle {s} i (ending h) =
      let b = flag-bound s.client.connecting in
      record {
        one = omega (arith, i.one, b);
        linked = omega (arith, i.one, b);
        remembered = i.remembered;
      }

  -- In every run of a client that was just made, on any wheel, in which `disconnect` is called in
  -- the loop's thread and never while a connect_loop is queued, an established connection reports
  -- its end once, other users of the wheel leave the client's timers alone, and `operator new`
  -- returns addresses where no timer is: at most one connect_loop, attempt, waiting timer for a
  -- retry or established connection is outstanding, and none unless `connecting_` is set; `conn_`
  -- is set exactly while an attempt or an established connection is, so that an attempt that
  -- succeeds never meets a null `conn_`; and a timer that waits is the one that `timer_` names.
  pub Reach-IsSingle :
      (w : TimingWheel) {s : Session} → Reach make_address cb (start w) s → IsSingle s
  unfolding create
  Reach-IsSingle w here = record { one = omega arith; linked = refl; remembered = tt }
  Reach-IsSingle w (next r x) = Step-IsSingle (Reach-IsSingle w r) x
