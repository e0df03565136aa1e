-- ===== src/Examples/Handlers.antt =====
-- The handlers of a worker with one connection.
use dcj_rtc.Prelude.{◌≡◌, ◌≢◌, Bool, Bytes, List, [], ◌∷◌, ok, arith, replicate}
use dcj_rtc.Base.Socket.{took}
use dcj_rtc.Signaling.Conn.{new_connection}
use dcj_rtc.Signaling.Worker.{Worker, watched_connection}
use dcj_rtc.Signaling.Handlers.{WriteEnd, drained, write_loop, write_conn, add_reply}
use dcj_rtc.Signaling.Handlers.Write.{write_loop-ends, write_loop-short_write}
use dcj_rtc.Signaling.Handlers.Keep.{write_conn-IsTable}
use dcj_rtc.Signaling.Table.{IsTable}
use dcj_rtc.Examples.Fixtures.{
  Io, small_ev, small_ev-IsLibev, replying_worker, replying_worker-IsTable,
}

abbrev two_replies : List Bytes
two_replies = (1 ∷ 2 ∷ []) ∷ (3 ∷ []) ∷ []

write_loop-ends_example :
    (e : WriteEnd) × (write_loop (replicate 5 (took 1)) 0 two_replies [] ≡ ok e)
write_loop-ends_example =
    write_loop-ends (replicate 5 (took 1)) two_replies
      (omega arith, (omega arith, (omega arith, (omega arith, (omega arith, tt))))) (omega arith)

abbrev long_reply : Bytes
long_reply = 1 ∷ 2 ∷ 3 ∷ []

-- What the peer gets.
abbrev garbled : Bytes
garbled = 1 ∷ 2 ∷ 1 ∷ 2 ∷ []

write_loop-short_write_example :
    (write_loop (took 2 ∷ took 2 ∷ []) 0 (long_reply ∷ []) [] ≡ ok (drained garbled))
    × (garbled ≢ long_reply)
write_loop-short_write_example =
    write_loop-short_write long_reply 2 2 (omega arith) (omega arith) (omega arith) (omega arith)

write_conn-IsTable_example :
    (w : Worker Io Bool) × (sent : Bytes) × (write_conn small_ev
        (replicate 4 (took 1))
        200
        5
        replying_worker
      ≡ ok (w, sent))
    × IsTable small_ev w
unfolding watched_connection new_connection add_reply
write_conn-IsTable_example =
    write_conn-IsTable small_ev small_ev-IsLibev (replicate 4 (took 1)) 200 5 replying_worker
      replying_worker-IsTable (omega arith, (omega arith, (omega arith, (omega arith, tt))))
      (λ p c e h. ground arith)
