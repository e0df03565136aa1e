-- ===== src/Signaling/Handlers/Response.antt =====
-- `_response_server_offer`: the reply that goes back, and to whom.
use dcj_rtc.Prelude.{
  ℕ, pos, ◌+◌, ◌≤◌, true, ◌≡◌, ◌≢◌, refl, sym, ap, ◌∙◌, some, Bytes, ◌++◌, ok, get_or, length, take,
  arith, le→leb, length-append, length-take,
}
use dcj_rtc.Base.EventLoop.{Libev, IsLibev}
use dcj_rtc.Rtc.Msg.{RtcMsg, max_res_buf}
use dcj_rtc.Wire.{Xhead, xhead_size, set_body_len, read_xhead}
use dcj_rtc.Wire.Reply.{
  read_xhead-append, read_xhead-take, read_xhead-set_body_len, length-set_body_len,
}
use dcj_rtc.Signaling.Conn.{TcpConnection}
use dcj_rtc.Signaling.Json.{JsonCpp}
use dcj_rtc.Signaling.Worker.{Worker, update, deref}
use dcj_rtc.Signaling.Table.{IsServed, IsTable}
use dcj_rtc.Signaling.Table.Update.{update-IsTable}
use dcj_rtc.Signaling.Handlers.{
  add_reply, offer_target, response_msg, response_body, response_server_offer,
}
use dcj_rtc.Signaling.Handlers.Keep.{add_reply-IsServed}

-- The reply for a connection: the request's header with the length of the body that follows.
abbrev pub reply_for : {W T V : Type 0} → JsonCpp V → TcpConnection W T → RtcMsg → Bytes
reply_for json c m =
    set_body_len (take xhead_size c.querybuf) (length (response_body json m))
    ++ response_body json m

-- The target of a reply is an entry of the table, under the descriptor that the message has.
pub offer_target_lem :
    {W T : Type 0} (m : RtcMsg) (w : Worker W T) (p : ℕ)
    → offer_target m w ≡ some p
    → (fd : ℕ) × (m.fd ≡ pos fd) × (get_or w.conns fd 0 ≡ p) × (p ≡ m.conn) × (p ≢ 0)
unfolding offer_target
offer_target_lem m w p e = ground arith

module _ {W T V : Type 0} (ev : Libev W T) (laws : IsLibev ev) (json : JsonCpp V) where
  -- A message whose connection is still the entry of its descriptor is answered: the reply goes
  -- behind the others of that connection, and the table is kept. The
  -- request's header is in the buffer, and the body fits the reply's buffer.
  pub response_server_offer-reply :
      (m : RtcMsg) (w : Worker W T) (p : ℕ) (c : TcpConnection W T)
      → IsTable ev w
      → offer_target m w ≡ some p
      → w.heap p ≡ some c
      → xhead_size ≤ length c.querybuf
      → length (response_body json m) ≤ max_res_buf
      → let w' = update w p (add_reply ev c (reply_for json c m)) in
        (response_server_offer ev json true m w ≡ ok w') × IsTable ev w'
  unfolding response_server_offer deref response_msg
  response_server_offer-reply m w p c v t h long fits =
      let (fd, mfd, own, conn, ne) = offer_target_lem m w p t in
      let (c', h', s) = v.entries fd (λ e. ne (sym own ∙ e)) in
      let same : c' ≡ c = ground (arith, own) in
      let served : IsServed ev c fd = rw same at s in
      (
        rw
            (
              t,
              response_server_offer,
              h,
              deref,
              le→leb xhead_size (length c.querybuf) long,
              le→leb (length (response_body json m)) max_res_buf fits,
            )
            refl,
        update-IsTable ev w fd p c _ h served.fd (add_reply-IsServed ev laws c fd _ served) v,
      )

  -- The reply's header is the request's with the length of the reply's body, and the reply is 36
  -- bytes longer than that body. The request's header is in the buffer, and the body fits.
  pub read_xhead-reply_for :
      (c : TcpConnection W T) (m : RtcMsg)
      → xhead_size ≤ length c.querybuf
      → length (response_body json m) ≤ max_res_buf
      → (read_xhead (reply_for json c m)
          ≡ record (read_xhead c.querybuf) { body_len = length (response_body json m) })
        × (length (reply_for json c m) ≡ xhead_size + length (response_body json m))
  read_xhead-reply_for c m long fits =
      let head = take xhead_size c.querybuf in
      let n = length (response_body json m) in
      let long' : xhead_size ≤ length head = omega (arith, length-take 36 c.querybuf) in
      let len = length-set_body_len head n long' (omega arith) in
      (
        read_xhead-append (set_body_len head n) (response_body json m) (omega (arith, len))
            ∙ (read_xhead-set_body_len head n long' (omega arith)
                ∙ ap (λ (x : Xhead). record x { body_len = n }) (read_xhead-take c.querybuf long)),
        omega (
          arith,
          len,
          length-append (set_body_len head n) (response_body json m),
          length-take 36 c.querybuf,
        ),
      )
