-- ===== src/Round/Request.antt =====
-- The first half of a call: what signaling/src/framework/xrpc sends, as far as the queue of the media
-- server.
use dcj_rtc.Prelude.{
  ℕ, pos, as_int32, ◌+◌, ◌^◌, ◌<◌, ◌≤◌, ◌≡◌, ◌≢◌, sym, ap, ◌∙◌, true, some, Bytes, List, [], ◌∷◌,
  ◌++◌, ok, get_or, length, codes, arith, Bool,
}
use dcj_rtc.Base.EventLoop.{Libev}
use dcj_rtc.Wire.{xhead_size, read_xhead}
use dcj_rtc.Rtc.Msg.{RtcMsg, cmdno_push}
use dcj_rtc.Signaling.Conn.{TcpConnection}
use dcj_rtc.Signaling.Framing.{short_connection}
use dcj_rtc.Signaling.Framing.Stream.{InPhase, served-short}
use dcj_rtc.Signaling.Json.{JsonCpp}
use dcj_rtc.Signaling.Request.{Caller, push_fields, process_request}
use dcj_rtc.Signaling.Worker.{Worker}
use dcj_rtc.Signaling.Table.{IsTable}
use dcj_rtc.Signaling.Handlers.Reading.{caller, IsReading, IsReading-IsServed}
use dcj_rtc.Signaling.Handlers.Requests.{read_events_of, read_events_of-Queued}
use dcj_rtc.Proxy.Xrpc.{new_request, write_request}
use dcj_rtc.Proxy.Xrpc.Trip.{write_request-IsFramed, served-IsFramed}

-- The content that the client sends is JSON for a push, from which the worker makes the message.
pub record IsPush {V : Type 0} (json : JsonCpp V) (k : Caller) (content : Bytes) (log_id : ℕ)
    (m : RtcMsg) : Type 0 where
  pub root : V
  pub parsed : json.parse content ≡ some root
  pub command : json.as_int root (codes "cmdno") ≡ some cmdno_push
  pub fields : push_fields json k root (as_int32 log_id) ≡ some m
  pub bounded : log_id < 2 ^ 32
  pub short : xhead_size + length content < short_connection

-- What the worker puts into the message of a push.
pub record IsFrom (k : Caller) (m : RtcMsg) : Type 0 where
  pub push : m.cmdno ≡ cmdno_push
  pub worker : m.worker ≡ k.worker
  pub conn : m.conn ≡ k.conn
  pub fd : m.fd ≡ pos k.fd
  pub err_no : m.err_no ≡ pos 0

pub push_fields-IsFrom :
    {V : Type 0} (json : JsonCpp V) (k : Caller) (root : V) (log_id : ℕ) (m : RtcMsg)
    → push_fields json k root (as_int32 log_id) ≡ some m
    → IsFrom k m
unfolding push_fields
push_fields-IsFrom json k root log_id m e = ground arith

-- A connection on which nothing has come yet, and whose descriptor has it.
pub record IsNew {W T : Type 0} (ev : Libev W T) (fd p : ℕ) (g : Worker W T) (c : TcpConnection W T)
    : Type 0 where
  pub table : IsTable ev g
  pub owned : get_or g.conns fd 0 ≡ p
  pub not_null : p ≢ 0
  pub alive : g.heap p ≡ some c
  pub nothing_read : c.querybuf ≡ []
  pub nothing_to_write : c.reply_msgs ≡ []

module _ {W T V : Type 0} (ev : Libev W T) (json : JsonCpp V) (self : ℕ)
    (notify_ok : List RtcMsg → Bool) where
  IsNew-IsReading :
      (fd p : ℕ) (g : Worker W T) (c : TcpConnection W T)
      → IsNew ev fd p g c
      → IsReading ev json self notify_ok fd p [] g.queued g c
  IsNew-IsReading fd p g c n =
      let (c', h, s) = n.table.entries fd (λ e. n.not_null (sym n.owned ∙ e)) in
      let same : c' ≡ c = ground (arith, n.owned, n.alive) in
      record {
        table = n.table;
        owned = n.owned;
        not_null = n.not_null;
        alive = n.alive;
        buffer = n.nothing_read;
        phase = rw n.nothing_read at (let q : InPhase c c.querybuf = rw same at s.phase in q);
        queue =
            served-short (process_request json (caller self notify_ok p fd)) [] g.queued
              (omega arith);
      }

  -- However the kernel cuts what a client sends for a push into reads, the request is read to its
  -- end, and the message is queued behind the others for the media server. The buffer then starts
  -- with the header that the client wrote, nothing waits to be written, and the table is kept. The
  -- connection is new, there are as many reads as bytes, the notice is not refused, and header and
  -- content have fewer than 65535 bytes; the content is JSON for a push with all its members, and
  -- the log id has 32 bits.
  pub request_is_queued :
      (content : Bytes) (log_id : ℕ) (m : RtcMsg) (now fd p : ℕ) (events : List ℕ) (g : Worker W T)
      (c : TcpConnection W T)
      → IsPush json (caller self notify_ok p fd) content log_id m
      → IsNew ev fd p g c
      → notify_ok (g.queued ++ (m ∷ [])) ≡ true
      → xhead_size + length content ≤ length events
      → (request : Bytes) × (g' : Worker W T) × (c' : TcpConnection W T) × (write_request
            (new_request content log_id)
          ≡ some request)
        × (read_events_of ev json self notify_ok now fd events request g ≡ ok ([], g'))
        × (g'.queued ≡ g.queued ++ (m ∷ []))
        × (g'.q_rtc_msg ≡ g.q_rtc_msg)
        × (get_or g'.conns fd 0 ≡ p)
        × (g'.heap p ≡ some c')
        × (c'.fd ≡ fd)
        × (c'.querybuf ≡ request)
        × (read_xhead c'.querybuf ≡ (new_request content log_id).header)
        × (length request ≡ xhead_size + length content)
        × (c'.reply_msgs ≡ [])
        × IsTable ev g'
  request_is_queued content log_id m now fd p events g c push new sent enough =
      let k = caller self notify_ok p fd in
      let (request, made, framed) =
        write_request-IsFramed content log_id push.bounded (omega arith) in
      let (whole, exact, len) =
        served-IsFramed json k content log_id request push.root m g.queued framed push.bounded
          push.short push.parsed push.command push.fields sent in
      let (g', c', run, i, queued, replies, q) =
        read_events_of-Queued ev json self notify_ok now fd p events [] request g.queued _ g c
          (IsNew-IsReading fd p g c new) whole exact (omega arith) (omega arith) in
      (
        request,
        g',
        c',
        made,
        run,
        queued,
        q,
        i.owned,
        i.alive,
        (IsReading-IsServed ev json self notify_ok i).fd,
        i.buffer,
        ap read_xhead i.buffer ∙ framed.whole_header,
        len,
        replies ∙ new.nothing_to_write,
        i.table,
      )
