-- ===== src/Round/Reply.antt =====
-- The last leg of a call: the reply that waits for a connection of
-- xrtc_server/src/server/signaling_worker.cpp is written, and read by
-- signaling/src/framework/xrpc/response.go.
use dcj_rtc.Prelude.{
  ℕ, pos, ◌≤◌, ◌≡◌, ◌≢◌, refl, sym, ap, ◌∙◌, none, some, Bytes, List, [], ◌∷◌, ◌++◌, ok, get_or,
  length, codes, arith, append-nil, subst,
}
use mathlib.Core.List.{flatten}
use dcj_rtc.Base.EventLoop.{Libev, IsLibev}
use dcj_rtc.Base.Socket.{took}
use dcj_rtc.Wire.{xhead_size, xhead_magic_num, head_magic_num, read_xhead}
use dcj_rtc.Rtc.Msg.{RtcMsg, max_res_buf}
use dcj_rtc.Signaling.Conn.{TcpConnection}
use dcj_rtc.Signaling.Json.{JsonCpp, number, text}
use dcj_rtc.Signaling.Worker.{Worker, update}
use dcj_rtc.Signaling.Table.{IsTable}
use dcj_rtc.Signaling.Handlers.{add_reply, response_body, write_conn}
use dcj_rtc.Signaling.Handlers.Response.{reply_for, read_xhead-reply_for}
use dcj_rtc.Signaling.Handlers.Write.{whole_writes, NonEmpty}
use dcj_rtc.Signaling.Handlers.Drains.{emptied, write_conn-drains}
use dcj_rtc.Proxy.Xrpc.{read_response}
use dcj_rtc.Proxy.Xrpc.Trip.{read_response-reply_for}

-- The reply's text for an offer.
abbrev pub success : {V : Type 0} → JsonCpp V → Bytes → Bytes
success json sdp = json.write_string (
    (codes "err_no", number (pos 0))
    ∷ (codes "err_msg", text (codes "process sdp success"))
    ∷ (codes "offer", text sdp)
    ∷ [])

pub response_body-success :
    {V : Type 0} (json : JsonCpp V) (m : RtcMsg)
    → m.err_no ≡ pos 0
    → response_body json m ≡ success json m.sdp
unfolding response_body
response_body-success json m e = rw e refl

-- The replies that wait for the connection of a descriptor.
abbrev pub waiting : {W T : Type 0} → ℕ → Worker W T → List Bytes
waiting fd g = elim (g.heap (get_or g.conns fd 0)) [ none ↦ [] | some c ↦ c.reply_msgs ]

module _ {W T V : Type 0} (ev : Libev W T) (laws : IsLibev ev) (json : JsonCpp V) where
  -- One reply that waits is written whole, and the client reads it.
  pub reply_is_read :
      (m : RtcMsg) (later fd p : ℕ) (g : Worker W T) (c : TcpConnection W T)
      → IsTable ev g
      → fd ≢ 0
      → p ≢ 0
      → c.fd ≡ fd
      → c.reply_msgs ≡ []
      → g.heap p ≡ some (add_reply ev c (reply_for json c m))
      → xhead_size ≤ length c.querybuf
      → head_magic_num c.querybuf ≡ xhead_magic_num
      → length (response_body json m) ≤ max_res_buf
      → let reply = reply_for json c m in
        (g' : Worker W T) × (write_conn ev (took (length reply) ∷ []) later fd g ≡ ok (g', reply))
        × (read_response reply
            ≡ some (record {
              header = record (read_xhead c.querybuf) { body_len = length (response_body json m) };
              body = response_body json m;
            }))
        × (waiting fd g ≡ reply ∷ [])
        × IsTable ev g'
  unfolding add_reply flatten
  reply_is_read m later fd p g c v pos_fd ne same_fd none_waits alive long magic fits =
      let reply = reply_for json c m in
      let c2 = add_reply ev c reply in
      let own : get_or g.conns fd 0 ≡ p = rw same_fd at (v.listed p c2 alive).1 in
      let one : c2.reply_msgs ≡ reply ∷ [] =
        ap (λ (x : List Bytes). x ++ (reply ∷ [])) none_waits in
      let len = (read_xhead-reply_for ev laws json c m long fits).1 in
      let (run, v') =
        write_conn-drains ev laws later fd p g c2 v pos_fd ne own alive
          (subst NonEmpty (sym one) (omega (arith, len))) in
      (
        update g p (emptied ev laws later c2),
        subst
            (λ x.
              write_conn ev (whole_writes x) later fd g
              ≡ ok (update g p (emptied ev laws later c2), reply))
            one
            (run
              ∙ ap (λ x. ok (update g p (emptied ev laws later c2), x))
                  (ap flatten one ∙ append-nil reply)),
        read_response-reply_for ev laws json c m long magic fits,
        rw (waiting, own, alive) one,
        v',
      )
