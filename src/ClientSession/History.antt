-- ===== src/ClientSession/History.antt =====
-- Cycle after cycle of src/client_session.rs: what has gone over the lines after any number of
-- calls, whatever the master and the server do.
use modbus_bridge_rs.Base.{
  ℕ, zero, suc, ◌<◌, ◌≡◌, refl, ap, Option, List, [], ◌∷◌, ◌++◌, arith, length, map, concat_map,
  All,
}
use mathlib.Core.List.{append_assoc, append-nil}
use modbus_bridge_rs.Base.Outcome.{ok, ◌>>=◌, calls, pure}
use modbus_bridge_rs.Base.Ensures.{Ensures, Ensures-bind, Ensures-weaken}
use modbus_bridge_rs.Frame.{check_crc}
use modbus_bridge_rs.Io.{Traffic, ReadReady, DelayNs}
use modbus_bridge_rs.Io.Order.{Move}
use modbus_bridge_rs.Ports.{Ports, IsNetLogged}
use modbus_bridge_rs.Rtu.Frames.{request_length}
use modbus_bridge_rs.Event.{BridgeError, BridgeEvent}
use modbus_bridge_rs.Timing.Poll.{IsReadReady, IsUnlogged}
use modbus_bridge_rs.Timing.Race.{AsyncDelay}
use modbus_bridge_rs.ClientSession.{ClientSession, Cycle, next}
use modbus_bridge_rs.ClientSession.Timed
use modbus_bridge_rs.ClientSession.Raced
use modbus_bridge_rs.ClientSession.Deadlines.{timed_session_next-Forwarded}
use modbus_bridge_rs.ClientSession.Race.{raced_session_next-Forwarded}
use modbus_bridge_rs.ClientSession.Relay.{IsSized}
use modbus_bridge_rs.ClientSession.Parts.{net_turn, Lines, Unanswered}
use modbus_bridge_rs.ClientSession.Cycles.{Forwarded, next_tid, session_next-Forwarded}
use modbus_bridge_rs.ClientSession.Success.{bus_frame, id_after}
use modbus_bridge_rs.ClientSession.Conversation.{Turn, turn_event}

-- A request of the stated length with a valid CRC, and a response as long as it says.
abbrev pub IsTurn : Turn → Type 0
IsTurn x = (check_crc x.req ≡ ok tt) × (length x.req ≡ request_length x.req) × IsSized x.resp

-- The transaction ids of the turns count up from the given one, and wrap around.
abbrev pub CountsUp : ℕ → List Turn → Type 0
CountsUp id [] = Unit {0}
CountsUp id (x ∷ turns) = (x.id ≡ id_after id) × CountsUp (id_after id) turns

module _ {S TX TS D SE TE : Type 0} {p : Ports S TX TS SE TE} {bus : Traffic S}
    {log : TS → List Move} (lawful : IsNetLogged p bus log) where
  -- The lines after the given turns.
  abbrev pub Carried : List ℕ → List ℕ → List Move → List Turn → ClientSession S TX TS D → Type 0
  Carried bus_out bus_in l turns =
      Lines lawful (bus_out ++ concat_map (λ x. bus_frame x.resp) turns)
        (bus_in ++ concat_map (λ x. x.req) turns)
        (l ++ concat_map (λ x. net_turn x.id x.req x.resp) turns)

  -- As many turns as calls, and their events.
  abbrev pub Relayed :
      ℕ → ℕ → List ℕ → List ℕ → List Move → List BridgeEvent → ClientSession S TX TS D → Type 0
  Relayed n id bus_out bus_in l events c =
      (turns : List Turn) × All IsTurn turns
      × CountsUp id turns
      × (length turns ≡ n)
      × (events ≡ map turn_event turns)
      × Carried bus_out bus_in l turns c

  -- Fewer turns than calls, and then a call that sent the master nothing, or was cut off in its
  -- answer.
  abbrev pub Stopped :
      ℕ
      → ℕ
      → List ℕ
      → List ℕ
      → List Move
      → Option (BridgeError SE TE)
      → ClientSession S TX TS D
      → Type 0
  Stopped n id bus_out bus_in l e c =
      (turns : List Turn) × All IsTurn turns
      × CountsUp id turns
      × (length turns < n)
      × Unanswered lawful (bus_out ++ concat_map (λ x. bus_frame x.resp) turns)
          (bus_in ++ concat_map (λ x. x.req) turns)
          (l ++ concat_map (λ x. net_turn x.id x.req x.resp) turns) e c

  one_more-Relayed :
      (n id : ℕ) (bus_out bus_in : List ℕ) (l : List Move) (req resp : List ℕ)
      (events : List BridgeEvent) (c : ClientSession S TX TS D)
      → let x : Turn = record { id = id_after id; req = req; resp = resp } in
        IsTurn x
        → Relayed n
            (id_after id)
            (bus_out ++ bus_frame resp)
            (bus_in ++ req)
            (l ++ net_turn (id_after id) req resp)
            events
            c
        → Relayed (suc n) id bus_out bus_in l (turn_event x ∷ events) c
  one_more-Relayed n id bus_out bus_in l req resp events c t (turns, all, counts, size, e, lines) =
      let x : Turn = record { id = id_after id; req = req; resp = resp } in
      (
        x ∷ turns,
        (t, all),
        (refl, counts),
        omega arith,
        ap (λ es. turn_event x ∷ es) e,
        rw
            (
              append_assoc bus_out (bus_frame resp) (concat_map (λ y. bus_frame y.resp) turns),
              append_assoc bus_in req (concat_map (λ y. y.req) turns),
              append_assoc l (net_turn (id_after id) req resp)
                  (concat_map (λ y. net_turn y.id y.req y.resp) turns),
            )
            at lines,
      )

  one_more-Stopped :
      (n id : ℕ) (bus_out bus_in : List ℕ) (l : List Move) (req resp : List ℕ)
      (e : Option (BridgeError SE TE)) (c : ClientSession S TX TS D)
      → let x : Turn = record { id = id_after id; req = req; resp = resp } in
        IsTurn x
        → Stopped n
            (id_after id)
            (bus_out ++ bus_frame resp)
            (bus_in ++ req)
            (l ++ net_turn (id_after id) req resp)
            e
            c
        → Stopped (suc n) id bus_out bus_in l e c
  one_more-Stopped n id bus_out bus_in l req resp e c t (turns, all, counts, size, u) = (
    record { id = id_after id; req = req; resp = resp } ∷ turns,
    (t, all),
    (refl, counts),
    omega arith,
    rw
        (
          append_assoc bus_out (bus_frame resp) (concat_map (λ y. bus_frame y.resp) turns),
          append_assoc bus_in req (concat_map (λ y. y.req) turns),
          append_assoc l (net_turn (id_after id) req resp)
              (concat_map (λ y. net_turn y.id y.req y.resp) turns),
        )
        at u,
  )

  -- A cycle that relays one request and one response when it returns an event, and otherwise sends
  -- nothing to the master or is cut off in its answer.
  abbrev pub Relays : Cycle S TX TS D SE TE BridgeEvent → Type 0
  Relays m =
      (bus_out bus_in : List ℕ) (l : List Move) (c : ClientSession S TX TS D)
      → Lines lawful bus_out bus_in l c
      → Ensures (Forwarded lawful bus_out bus_in l (next_tid lawful c))
          (Unanswered lawful bus_out bus_in l) (m c).0 (m c).1

  module _ (m : Cycle S TX TS D SE TE BridgeEvent) (spec : Relays m) where
    calls-post :
        (n id : ℕ) (bus_out bus_in : List ℕ) (l : List Move) (c : ClientSession S TX TS D)
        → c.tcp.transaction_id ≡ id
        → Lines lawful bus_out bus_in l c
        → Ensures
            (Relayed n id bus_out bus_in l)
            (Stopped n id bus_out bus_in l)
            (calls n m c).0
            (calls n m c).1
    calls-post zero id bus_out bus_in l c i lines =
        ([], tt, tt, refl, refl, rw (append-nil bus_out, append-nil bus_in, append-nil l) lines)
    calls-post (suc n) id bus_out bus_in l c i lines =
        let tid : ℕ = id_after id in
        let Once : BridgeEvent → ClientSession S TX TS D → Type 0 =
          Forwarded lawful bus_out bus_in l tid in
        Ensures-bind Once (Relayed (suc n) id bus_out bus_in l)
          (Stopped (suc n) id bus_out bus_in l) m
          (λ event. calls n m >>= λ events. pure (event ∷ events)) c
          (Ensures-weaken (Forwarded lawful bus_out bus_in l (next_tid lawful c)) Once
            (Unanswered lawful bus_out bus_in l) (Stopped (suc n) id bus_out bus_in l) (m c).0
            (m c).1 (spec bus_out bus_in l c lines) (λ event c' q. rw (ap id_after i) at q)
            (λ e c' u. (
              [],
              tt,
              tt,
              omega arith,
              rw (append-nil bus_out, append-nil bus_in, append-nil l) u,
            )))
          (λ event c' (req, resp, valid, size, sized, is, i', lines').
            let t : IsTurn (record { id = tid; req = req; resp = resp }) = (valid, size, sized) in
            let Rest : List BridgeEvent → ClientSession S TX TS D → Type 0 =
              Relayed n tid (bus_out ++ bus_frame resp) (bus_in ++ req)
                (l ++ net_turn tid req resp) in
            Ensures-bind Rest (Relayed (suc n) id bus_out bus_in l)
              (Stopped (suc n) id bus_out bus_in l) (calls n m) (λ events. pure (event ∷ events)) c'
              (Ensures-weaken Rest Rest
                (Stopped n tid (bus_out ++ bus_frame resp) (bus_in ++ req)
                  (l ++ net_turn tid req resp))
                (Stopped (suc n) id bus_out bus_in l) (calls n m c').0 (calls n m c').1
                (calls-post n tid (bus_out ++ bus_frame resp) (bus_in ++ req)
                  (l ++ net_turn tid req resp) c' i' lines')
                (λ _ _ q. q) (λ e c'' q. one_more-Stopped n id bus_out bus_in l req resp e c'' t q))
              (λ events c'' q.
                rw is (one_more-Relayed n id bus_out bus_in l req resp events c'' t q)))

  -- Any number of calls of `next` without timeouts, on ports that keep their contracts, with a
  -- stream that logs the bytes in the order in which they go over the net, and from any point of
  -- the traffic. If all of them return, as many requests with a valid CRC have come from the
  -- master; over the net has gone, for one request after the other, the request once, under the
  -- transaction id after the one before it, modulo 2 ^ 16, and then one response, and nothing
  -- else; these responses have gone to the master in order, each with its CRC; and the events are
  -- those of the requests, with a warning exactly where a response carries another id. If a call
  -- fails or stalls, the master has been sent exactly the responses of the calls before it, or the
  -- call stalled or failed with an error of the serial port in its answer: then one more request
  -- has come in and gone over the net with its response, and the master has been sent a prefix of
  -- the answer.
  pub session_calls-Relayed :
      (n id : ℕ) (bus_out bus_in : List ℕ) (l : List Move) (c : ClientSession S TX TS D)
      → c.tcp.transaction_id ≡ id
      → Lines lawful bus_out bus_in l c
      → Ensures
          (Relayed n id bus_out bus_in l)
          (Stopped n id bus_out bus_in l)
          (calls n (next p) c).0
          (calls n (next p) c).1
  session_calls-Relayed = calls-post (next p) (session_next-Forwarded lawful)

  module _ {serial_ready : ReadReady S SE} {stream_ready : ReadReady TS TE} (clock : DelayNs D)
      (serial_quiet : IsReadReady serial_ready bus)
      (stream_quiet : IsUnlogged stream_ready log) where
    -- Any number of calls of the blocking `next` with any timeouts, on ports that keep their
    -- contracts, with the log of the net and from any point of the traffic, relay like calls
    -- without timeouts: if all return, as many requests have gone over the net, under consecutive
    -- transaction ids, each once and with its response behind it, and these responses to the
    -- master, each once and in order; if one fails, with `Timeout` or otherwise,
    -- or stalls, the master has been sent the responses of the calls before it and nothing more,
    -- or the call stalled or failed with an error of the serial port in its answer, and a prefix of
    -- that answer has been sent too.
    pub timed_session_calls-Relayed :
        (n id : ℕ) (bus_out bus_in : List ℕ) (l : List Move) (c : ClientSession S TX TS D)
        → c.tcp.transaction_id ≡ id
        → Lines lawful bus_out bus_in l c
        → Ensures
            (Relayed n id bus_out bus_in l)
            (Stopped n id bus_out bus_in l)
            (calls n (Timed.next p serial_ready stream_ready clock) c).0
            (calls n (Timed.next p serial_ready stream_ready clock) c).1
    timed_session_calls-Relayed =
        calls-post (Timed.next p serial_ready stream_ready clock)
          (timed_session_next-Forwarded lawful clock serial_quiet stream_quiet)

  -- Any number of calls of the async `next` with any timeouts, on ports that keep their contracts,
  -- with the log of the net, from any point of the traffic and wherever the delays fire, relay like
  -- calls without timeouts: if all return, as many requests have gone over the net, under
  -- consecutive transaction ids, each once and with its response behind it, and these responses to
  -- the master, each once and in order; if one fails, with `Timeout` or
  -- otherwise, or stalls, the master has been sent the responses of the calls before it and
  -- nothing more, or the call stalled or failed with an error of the serial port in its answer,
  -- and a prefix of that answer has been sent too.
  pub raced_session_calls-Relayed :
      (clock : AsyncDelay D) (n id : ℕ) (bus_out bus_in : List ℕ) (l : List Move)
      (c : ClientSession S TX TS D)
      → c.tcp.transaction_id ≡ id
      → Lines lawful bus_out bus_in l c
      → Ensures
          (Relayed n id bus_out bus_in l)
          (Stopped n id bus_out bus_in l)
          (calls n (Raced.next p clock) c).0
          (calls n (Raced.next p clock) c).1
  raced_session_calls-Relayed clock =
      calls-post (Raced.next p clock) (raced_session_next-Forwarded lawful clock)
