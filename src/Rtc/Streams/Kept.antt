-- ===== src/Rtc/Streams/Kept.antt =====
-- What the manager keeps of the streams that it makes.
use dcj_rtc.Prelude.{ℕ, pos, Bool, ◌≡◌, ◌≢◌, refl, Bytes, some, [], ok}
use dcj_rtc.Rtc.Peer.{RtcBase, CanDescribe}
use dcj_rtc.Rtc.Sdp.{Fingerprint, IceParameters}
use dcj_rtc.Rtc.Sdp.Text.{to_sdp}
use dcj_rtc.Rtc.Peer.Offer.{offered, create_offer-offered}
use dcj_rtc.Rtc.Streams.{
  PushStream, push_options, StreamManager, put_stream, find_stream, create_push_offer,
  create_push_stream, drop_push_stream, new_stream, start_stream,
}

-- A manager that knows no stream answers a push with the offer to receive the wanted media. The new
-- stream, with that name, is on the heap, and the manager still knows no stream. The certificate is
-- one whose fingerprint can be taken.
pub create_push_stream-offered :
    (base : RtcBase) (params : IceParameters) (p uid : ℕ) (name : Bytes) (audio video : Bool)
    (log_id certificate : ℕ) (fp : Fingerprint) (m : StreamManager)
    → m.push_streams ≡ []
    → certificate ≢ 0
    → CanDescribe base certificate fp
    → (text : Bytes) × (s : PushStream) × (m' : StreamManager) × (to_sdp
          (offered (push_options audio video) params fp)
        ≡ ok text)
      × (create_push_stream base params p uid name audio video log_id certificate m
          ≡ ok (pos 0, text, m'))
      × (m'.push_streams ≡ [])
      × (m'.heap ≡ put_stream m.heap p (some s))
      × (s.stream_name ≡ name)
unfolding create_push_stream drop_push_stream find_stream create_push_offer
create_push_stream-offered base params p uid name audio video log_id certificate fp m empty ne e =
    let s = start_stream certificate (new_stream uid name audio video log_id) in
    let (text, t, c) =
      create_offer-offered base (push_options audio video) params s.pc certificate fp refl ne e in
    (
      text,
      record s {
        pc = record (s.pc) { local_desc = some (offered (push_options audio video) params fp) };
      },
      record m { heap = put_stream m.heap p (some _) },
      t,
      rw (empty, c) refl,
      empty,
      refl,
      refl,
    )
