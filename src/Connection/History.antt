-- ===== src/Connection/History.antt =====
-- Cycle after cycle of src/connection.rs: what has gone over the lines after any number of calls,
-- whatever the client and the device do.
use modbus_bridge_rs.Base.{
  ℕ, zero, suc, ◌+◌, ◌≤◌, ◌<◌, ◌≡◌, refl, ap, Option, List, [], ◌∷◌, ◌++◌, arith, length, map,
  concat_map, All, get_or,
}
use mathlib.Core.List.{append_assoc, append-nil}
use modbus_bridge_rs.Base.Outcome.{ok, ◌>>=◌, calls, pure}
use modbus_bridge_rs.Base.Ensures.{Ensures, Ensures-bind, Ensures-weaken}
use modbus_bridge_rs.Frame.{check_crc, from_be_bytes}
use modbus_bridge_rs.Io.{Traffic, ReadReady, DelayNs}
use modbus_bridge_rs.Ports.{Ports, IsBusLogged}
use modbus_bridge_rs.Event.{BridgeError, BridgeEvent}
use modbus_bridge_rs.Timing.Poll.{IsReadReady, IsUnlogged}
use modbus_bridge_rs.Io.Order.{Move}
use modbus_bridge_rs.Timing.Race.{AsyncDelay}
use modbus_bridge_rs.Connection.{Connection, Cycle, next}
use modbus_bridge_rs.Connection.Timed
use modbus_bridge_rs.Connection.Raced
use modbus_bridge_rs.Connection.Deadlines.{timed_next-Forwarded}
use modbus_bridge_rs.Connection.Race.{raced_next-Forwarded}
use modbus_bridge_rs.Connection.Cycles.{bus_turn, Lines, Forwarded, Unanswered, next-Forwarded}
use modbus_bridge_rs.Connection.Success.{net_frame, request_event}
use modbus_bridge_rs.Connection.Conversation.{Turn}

-- A request with a PDU, as long as it says, and a response with a valid CRC.
abbrev pub IsTurn : Turn → Type 0
IsTurn x =
    (7 ≤ length x.req)
    × (length x.req ≡ 6 + from_be_bytes (get_or x.req 4 0) (get_or x.req 5 0))
    × (check_crc x.resp ≡ ok tt)

module _ {S TX TS D SE TE : Type 0} {p : Ports S TX TS SE TE} {log : S → List Move}
    {net : Traffic TS} (lawful : IsBusLogged p log net) where
  -- The log of the bus and the traffic on the net after the given turns.
  abbrev pub Carried : List Move → List ℕ → List ℕ → List Turn → Connection S TX TS D → Type 0
  Carried l net_out net_in turns =
      Lines lawful (l ++ concat_map (λ x. bus_turn x.req x.resp) turns)
        (net_out ++ concat_map (λ x. net_frame x.req x.resp) turns)
        (net_in ++ concat_map (λ x. x.req) turns)

  -- As many turns as calls, and their events.
  abbrev pub Relayed :
      ℕ → List Move → List ℕ → List ℕ → List BridgeEvent → Connection S TX TS D → Type 0
  Relayed n l net_out net_in events c =
      (turns : List Turn) × All IsTurn turns
      × (length turns ≡ n)
      × (events ≡ map (λ x. request_event x.req) turns)
      × Carried l net_out net_in turns c

  -- Fewer turns than calls, and then a call that sent the client nothing, or was cut off in its
  -- answer.
  abbrev pub Stopped :
      ℕ → List Move → List ℕ → List ℕ → Option (BridgeError SE TE) → Connection S TX TS D → Type 0
  Stopped n l net_out net_in e c =
      (turns : List Turn) × All IsTurn turns
      × (length turns < n)
      × Unanswered lawful (l ++ concat_map (λ x. bus_turn x.req x.resp) turns)
          (net_out ++ concat_map (λ x. net_frame x.req x.resp) turns)
          (net_in ++ concat_map (λ x. x.req) turns) e c

  one_more-Relayed :
      (n : ℕ) (l : List Move) (net_out net_in req resp : List ℕ) (events : List BridgeEvent)
      (c : Connection S TX TS D)
      → IsTurn (record { req = req; resp = resp })
      → Relayed n (l ++ bus_turn req resp) (net_out ++ net_frame req resp) (net_in ++ req) events c
      → Relayed (suc n) l net_out net_in (request_event req ∷ events) c
  one_more-Relayed n l net_out net_in req resp events c t (turns, all, size, e, lines) = (
    record { req = req; resp = resp } ∷ turns,
    (t, all),
    omega arith,
    ap (λ es. request_event req ∷ es) e,
    rw
        (
          append_assoc l (bus_turn req resp) (concat_map (λ x. bus_turn x.req x.resp) turns),
          append_assoc net_out (net_frame req resp)
              (concat_map (λ x. net_frame x.req x.resp) turns),
          append_assoc net_in req (concat_map (λ x. x.req) turns),
        )
        at lines,
  )

  one_more-Stopped :
      (n : ℕ) (l : List Move) (net_out net_in req resp : List ℕ) (e : Option (BridgeError SE TE))
      (c : Connection S TX TS D)
      → IsTurn (record { req = req; resp = resp })
      → Stopped n (l ++ bus_turn req resp) (net_out ++ net_frame req resp) (net_in ++ req) e c
      → Stopped (suc n) l net_out net_in e c
  one_more-Stopped n l net_out net_in req resp e c t (turns, all, size, u) = (
    record { req = req; resp = resp } ∷ turns,
    (t, all),
    omega arith,
    rw
        (
          append_assoc l (bus_turn req resp) (concat_map (λ x. bus_turn x.req x.resp) turns),
          append_assoc net_out (net_frame req resp)
              (concat_map (λ x. net_frame x.req x.resp) turns),
          append_assoc net_in req (concat_map (λ x. x.req) turns),
        )
        at u,
  )

  -- A cycle that relays one request and one response when it returns an event, and otherwise sends
  -- nothing to the client or is cut off in its answer.
  abbrev pub Relays : Cycle S TX TS D SE TE BridgeEvent → Type 0
  Relays m =
      (l : List Move) (net_out net_in : List ℕ) (c : Connection S TX TS D)
      → Lines lawful l net_out net_in c
      → Ensures (Forwarded lawful l net_out net_in) (Unanswered lawful l net_out net_in) (m c).0
          (m c).1

  module _ (m : Cycle S TX TS D SE TE BridgeEvent) (spec : Relays m) where
    calls-post :
        (n : ℕ) (l : List Move) (net_out net_in : List ℕ) (c : Connection S TX TS D)
        → Lines lawful l net_out net_in c
        → Ensures
            (Relayed n l net_out net_in)
            (Stopped n l net_out net_in)
            (calls n m c).0
            (calls n m c).1
    calls-post zero l net_out net_in c lines =
        ([], tt, refl, refl, rw (append-nil l, append-nil net_out, append-nil net_in) lines)
    calls-post (suc n) l net_out net_in c lines =
        Ensures-bind (Forwarded lawful l net_out net_in) (Relayed (suc n) l net_out net_in)
          (Stopped (suc n) l net_out net_in) m
          (λ event. calls n m >>= λ events. pure (event ∷ events)) c
          (Ensures-weaken (Forwarded lawful l net_out net_in) (Forwarded lawful l net_out net_in)
            (Unanswered lawful l net_out net_in) (Stopped (suc n) l net_out net_in) (m c).0 (m c).1
            (spec l net_out net_in c lines) (λ _ _ q. q)
            (λ e c' u.
              ([], tt, omega arith, rw (append-nil l, append-nil net_out, append-nil net_in) u)))
          (λ event c' (req, resp, long, size, valid, is, lines').
            let t : IsTurn (record { req = req; resp = resp }) = (long, size, valid) in
            Ensures-bind
              (Relayed n (l ++ bus_turn req resp) (net_out ++ net_frame req resp) (net_in ++ req))
              (Relayed (suc n) l net_out net_in) (Stopped (suc n) l net_out net_in) (calls n m)
              (λ events. pure (event ∷ events)) c'
              (Ensures-weaken
                (Relayed n (l ++ bus_turn req resp) (net_out ++ net_frame req resp) (net_in ++ req))
                (Relayed n (l ++ bus_turn req resp) (net_out ++ net_frame req resp) (net_in ++ req))
                (Stopped n (l ++ bus_turn req resp) (net_out ++ net_frame req resp) (net_in ++ req))
                (Stopped (suc n) l net_out net_in) (calls n m c').0 (calls n m c').1
                (calls-post n (l ++ bus_turn req resp) (net_out ++ net_frame req resp)
                  (net_in ++ req) c' lines')
                (λ _ _ q. q) (λ e c'' q. one_more-Stopped n l net_out net_in req resp e c'' t q))
              (λ events c'' q. rw is (one_more-Relayed n l net_out net_in req resp events c'' t q)))

  -- Any number of calls of `next` without timeouts, on ports that keep their contracts, with a
  -- serial port that logs the bytes in the order in which they go over the bus, and from any point
  -- of the traffic. If all of them return, their events are those of as many requests of the
  -- client, in order; over the bus has gone, for one request after the other, the request once,
  -- with its CRC, and then one response with a valid CRC, and nothing else; and the client has been
  -- sent these responses in the order of the requests, each under the id of its own request, and
  -- nothing else. If a call fails or stalls, the client has been sent exactly the responses of the
  -- calls before it, or the call stalled or failed with an error of the TCP stream in its answer:
  -- then one more request has come in and gone over the bus with its response, and the client has
  -- been sent a prefix of the answer.
  pub calls-Relayed :
      (n : ℕ) (l : List Move) (net_out net_in : List ℕ) (c : Connection S TX TS D)
      → Lines lawful l net_out net_in c
      → Ensures
          (Relayed n l net_out net_in)
          (Stopped n l net_out net_in)
          (calls n (next p) c).0
          (calls n (next p) c).1
  calls-Relayed = calls-post (next p) (next-Forwarded lawful)

  module _ {serial_ready : ReadReady S SE} {stream_ready : ReadReady TS TE} (clock : DelayNs D)
      (serial_quiet : IsUnlogged serial_ready log)
      (stream_quiet : IsReadReady stream_ready net) where
    -- Any number of calls of the blocking `next` with any timeouts, on ports that keep their
    -- contracts, with the log of the bus and from any point of the traffic, relay like calls
    -- without timeouts: if all return, as many requests have gone over the bus, each once and with
    -- its response behind it, and these responses to the client, each once and in order; if one fails, with `Timeout` or otherwise, or stalls, the client has been
    -- sent the responses of the calls before it and nothing more, or the call stalled or failed
    -- with an error of the TCP stream in its answer, and a prefix of that answer has been sent too.
    pub timed_calls-Relayed :
        (n : ℕ) (l : List Move) (net_out net_in : List ℕ) (c : Connection S TX TS D)
        → Lines lawful l net_out net_in c
        → Ensures
            (Relayed n l net_out net_in)
            (Stopped n l net_out net_in)
            (calls n (Timed.next p serial_ready stream_ready clock) c).0
            (calls n (Timed.next p serial_ready stream_ready clock) c).1
    timed_calls-Relayed =
        calls-post (Timed.next p serial_ready stream_ready clock)
          (timed_next-Forwarded lawful clock serial_quiet stream_quiet)

  -- Any number of calls of the async `next` with any timeouts, on ports that keep their contracts,
  -- with the log of the bus, from any point of the traffic and wherever the delays fire, relay like
  -- calls without timeouts: if all return, as many requests have gone over the bus, each once and
  -- with its response behind it, and these responses to the client, each once and in order; if one fails, with `Timeout` or otherwise, or stalls, the client has
  -- been sent the responses of the calls before it and nothing more, or the call stalled or failed
  -- with an error of the TCP stream in its answer, and a prefix of that answer has been sent too.
  pub raced_calls-Relayed :
      (clock : AsyncDelay D) (n : ℕ) (l : List Move) (net_out net_in : List ℕ)
      (c : Connection S TX TS D)
      → Lines lawful l net_out net_in c
      → Ensures
          (Relayed n l net_out net_in)
          (Stopped n l net_out net_in)
          (calls n (Raced.next p clock) c).0
          (calls n (Raced.next p clock) c).1
  raced_calls-Relayed clock = calls-post (Raced.next p clock) (raced_next-Forwarded lawful clock)
