-- ===== src/WsSession/Tests.antt =====
-- Runs of a session of net/websockets/WsSession.cpp.
use boost_server_example.Base.{
  ltb, ◌*◌, ℕ, Bool, some, ◌+◌, ◌≤◌, ◌≡◌, ◌≢◌, ◌⊎◌, refl, true, false, List, [], ◌∷◌, ◌++◌, Bytes,
  length, arith,
}
use boost_server_example.Base.Result.{ok, err, assert_failed}
use boost_server_example.Base.Text.{codes}
use boost_server_example.Callbacks.{Callbacks}
use boost_server_example.WsSession.Connect.{wait_for_connect}
use boost_server_example.WsSession.{
  on_control_callback, expired, WsSession, Call, Callback, success, other, alive, ping_frequency,
  Task, start_ping, start_wait, new_session, run_as_server, on_accept, on_timer, on_ping, on_write,
  send,
}
use boost_server_example.WsSession.Bounds.{All, Fits, Registered, sizes_bounded}
use boost_server_example.WsSession.Conn.{
  Conn, Move, Reach, as_server, start, later, accepted, sends, waited, controlled, after, fresh,
  none_pending, writes_of, take_read,
}
use boost_server_example.WsSession.Deaf.{empty_message_deafens}
use boost_server_example.WsSession.Mute.{reads_of}
use boost_server_example.WsSession.Incoming.{on_read}
use boost_server_example.WsSession.Watch.{shuts, timer_silent}
use boost_server_example.WsSession.Silence.{silent, then_silent, no_answer_closes}
use boost_server_example.WsSession.Ping.{Calm, on_ping-returns, two_pings_assert}
use boost_server_example.WsSession.Stall.{here, next, failed_write_stalls}
use boost_server_example.WsSession.Writes.{writes_in_order}

abbrev callbacks : Callbacks Callback
callbacks = []

abbrev session : WsSession
session = new_session (codes "queue") (codes "id")

-- A session that a server has run, then one that has accepted, then one that sends.
abbrev ran : Conn
ran = after (fresh true session) none_pending (run_as_server false 5 session)

abbrev opened : Conn
opened = after ran (record ran.pending { accepts = 0 }) (on_accept success ran.session)

abbrev sent_hi : Conn
sent_hi = record (after opened opened.pending (send true opened.session (codes "hi"))) {
  taken = codes "hi" ∷ [];
}

ran-Reach : Reach callbacks ran
ran-Reach = start (as_server (codes "queue") (codes "id") false 5 refl)

opened-Reach : Reach callbacks opened
opened-Reach = later ran-Reach (accepted 0 success (unfold run_as_server new_session in refl))

sent_hi-Reach : Reach callbacks sent_hi
sent_hi-Reach = later opened-Reach (sends true (codes "hi"))

hi_written : (sent_hi.pending.writes ≡ codes "hi" ∷ []) × (sent_hi.pending.reads ≡ 1)
unfolding send new_session run_as_server on_accept
hi_written = (refl, refl)

sizes_bounded_example :
    All Fits sent_hi.session.send_queue
    × All Fits (writes_of sent_hi.log)
    × All (Registered callbacks) sent_hi.session.received_messages.callbacks_queue
sizes_bounded_example = sizes_bounded callbacks sent_hi-Reach

writes_in_order_example :
    (length sent_hi.pending.writes ≤ 1)
    × ((waiting : List Bytes) × (sent_hi.taken ≡ writes_of sent_hi.log ++ waiting))
writes_in_order_example = writes_in_order callbacks sent_hi-Reach

-- The write fails, and another message is sent.
abbrev failed : Conn
failed =
    after sent_hi (record sent_hi.pending { writes = [] }) (on_write true (other 5) sent_hi.session)

abbrev sent_more : Conn
sent_more = record (after failed failed.pending (send true failed.session (codes "more"))) {
  taken = failed.taken ++ codes "more" ∷ [];
}

other-ne : other 5 ≢ success
other-ne h = cc

failed_write_stalls_example :
    (writes_of sent_more.log ≡ writes_of sent_hi.log) × (sent_more.pending.writes ≡ [])
failed_write_stalls_example =
    failed_write_stalls callbacks (codes "hi") [] true (other 5) sent_hi-Reach hi_written.0 other-ne
      (next here (sends true (codes "more")))

-- The timer runs out, and a ping is under way.
abbrev pinging : Conn
pinging =
    after ran (record ran.pending { waits = 0 })
      (on_timer true (5 + ping_frequency) success ran.session)

pinging-pings : (ran.pending.waits ≡ 1) × (pinging.pending.pings ≡ 1)
unfolding on_timer run_as_server new_session
pinging-pings = (refl, refl)

pinging-Calm : Calm callbacks pinging
pinging-Calm =
    Calm.later
      (Calm.start (as_server (codes "queue") (codes "id") false 5 refl)
        (unfold run_as_server new_session in omega arith))
      (waited 0 true (5 + ping_frequency) success pinging-pings.0) (omega (arith, pinging-pings.1))

on_ping-returns_example : (r : WsSession × List Call) × (on_ping success pinging.session ≡ ok r)
on_ping-returns_example = on_ping-returns callbacks 0 success pinging-Calm pinging-pings.1

-- The ping is still under way, and a control frame comes in.
abbrev answered : Conn
answered = after pinging pinging.pending (on_control_callback 7 pinging.session)

answered-Reach : Reach callbacks answered
answered-Reach =
    later (later ran-Reach (waited 0 true (5 + ping_frequency) success pinging-pings.0))
      (controlled 7)

answered-state :
    (answered.session.ping_state ≡ alive)
    × (answered.pending.pings ≡ 1)
    × (answered.pending.waits ≡ 1)
    × (expired (7 + ping_frequency) answered.session.timer_expiry ≡ true)
unfolding on_control_callback on_timer run_as_server new_session
answered-state = (refl, refl, refl, refl)

two_pings_assert_example :
    (d : Conn) × (e : Conn) × Move callbacks answered d
    × Move callbacks d e
    × (e.pending.pings ≡ 1)
    × (on_ping success e.session ≡ err assert_failed)
two_pings_assert_example =
    two_pings_assert callbacks answered 0 0 (7 + ping_frequency) answered-state.0 answered-state.1
      answered-state.2 answered-state.3

-- A message is sent, and nothing comes back.
abbrev pinging_sent : Conn
pinging_sent = record (after pinging pinging.pending (send true pinging.session (codes "hi"))) {
  taken = codes "hi" ∷ [];
}

ran-state :
    (ran.session.ping_state ≡ alive)
    × (expired (5 + ping_frequency) ran.session.timer_expiry ≡ true)
unfolding run_as_server new_session
ran-state = (refl, refl)

no_answer_closes_example :
    ((on_timer true (5 + ping_frequency) success ran.session).1 ≡ start_ping ∷ start_wait ∷ [])
    × (pinging_sent.session.timer_expiry ≡ some (5 + ping_frequency + ping_frequency))
    × ((pinging_sent.pending.waits ≡ 1) ⊎ (shuts pinging_sent.log ≡ true))
    × ((is_open : Bool) (later : ℕ)
        → on_timer is_open later success pinging_sent.session
          ≡ timer_silent (5 + ping_frequency + ping_frequency) later pinging_sent.session)
no_answer_closes_example =
    no_answer_closes callbacks 0 (5 + ping_frequency) ran-Reach pinging-pings.0 ran-state.0
      ran-state.1 (then_silent silent (sends true (codes "hi")) refl)

-- An empty message is read, and another is sent.
abbrev deaf : Conn
deaf =
    after opened (record opened.pending { reads = 0 })
      (on_read true callbacks success (take_read opened.session []))

abbrev deaf_sent : Conn
deaf_sent = record (after deaf deaf.pending (send true deaf.session (codes "hi"))) {
  taken = codes "hi" ∷ [];
}

opened-state : opened.pending.reads ≡ 1
unfolding on_accept run_as_server new_session
opened-state = refl

empty_message_deafens_example :
    (deaf_sent.pending.accepts + deaf_sent.pending.reads ≡ 0)
    × (reads_of deaf_sent.log ≡ reads_of opened.log)
    × ((gone : List Task) × (opened.session.received_messages.callbacks_queue
          ≡ gone ++ deaf_sent.session.received_messages.callbacks_queue))
empty_message_deafens_example =
    empty_message_deafens callbacks 0 true success opened-Reach opened-state
      (next here (sends true (codes "hi")))

-- The session opens at the third look.
abbrev opens_late : ℕ → Bool
opens_late i = ltb 2 i

abbrev ticking : ℕ → ℕ
ticking i = i * 2

waited_three : wait_for_connect opens_late ticking 11 10 ≡ some true
unfolding wait_for_connect
waited_three = refl
