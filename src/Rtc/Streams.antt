-- ===== src/Rtc/Streams.antt =====
-- xrtc_server/src/stream: the streams of a media worker and their manager. Streams live on a heap,
-- and the manager's map holds their addresses, 0 for `nullptr`.
pub mod Kept
pub mod History
use dcj_rtc.Prelude.{
  ℕ, ℤ, pos, Bool, true, false, Bytes, Option, none, some, List, [], ◌∷◌, Outcome, ok, fault, ◌>>=◌,
  bytes_eq, ◌==◌, if◌then◌else◌,
}
use dcj_rtc.Rtc.Sdp.{Fingerprint, IceParameters}
use dcj_rtc.Rtc.Peer.{
  RtcBase, OfferOptions, default_options, PeerConnection, new_peer, init_peer, create_offer,
}

-- `RtcStream`, of which `PushStream` is the one kind.
pub record PushStream : Type 0 where
  pub uid : ℕ
  pub stream_name : Bytes
  pub audio : Bool
  pub video : Bool
  pub log_id : ℕ
  pub pc : PeerConnection

abbrev pub new_stream : ℕ → Bytes → Bool → Bool → ℕ → PushStream
new_stream uid stream_name audio video log_id = record {
  uid = uid;
  stream_name = stream_name;
  audio = audio;
  video = video;
  log_id = log_id;
  pc = new_peer;
}

-- `RtcStream::start`
abbrev pub start_stream : ℕ → PushStream → PushStream
start_stream certificate s = record s { pc = init_peer certificate s.pc }

-- The options that `PushStream::create_offer` sets.
abbrev pub push_options : (audio video : Bool) → OfferOptions
push_options audio video = record default_options {
  send_audio = false;
  send_video = false;
  recv_audio = audio;
  recv_video = video;
}

-- `RtcStreamManager`; the list is the map `_push_streams`.
pub record StreamManager : Type 0 where
  pub push_streams : List (Bytes × ℕ)
  pub heap : ℕ → Option PushStream

-- The constructor, with the streams that other managers have.
abbrev pub new_manager : (ℕ → Option PushStream) → StreamManager
new_manager heap = record { push_streams = []; heap = heap }

abbrev pub put_stream : (ℕ → Option PushStream) → ℕ → Option PushStream → ℕ → Option PushStream
put_stream h p s q = if q == p then s else h q

-- `find` of the map, `nullptr` at its end.
unfoldable pub find_stream : Bytes → List (Bytes × ℕ) → ℕ
find_stream name [] = 0
find_stream name ((key, p) ∷ streams) = if bytes_eq key name then p else find_stream name streams

-- `erase` of the map
unfoldable pub erase_stream : Bytes → List (Bytes × ℕ) → List (Bytes × ℕ)
erase_stream name [] = []
erase_stream name ((key, p) ∷ streams) =
    let rest = erase_stream name streams in if bytes_eq key name then rest else (key, p) ∷ rest

-- `find_push_stream`
abbrev pub find_push_stream : Bytes → StreamManager → ℕ
find_push_stream name m = find_stream name m.push_streams

-- The stream that is there is taken off the map and deleted.
unfoldable pub drop_push_stream : Bytes → StreamManager → Outcome StreamManager
drop_push_stream name m =
    let p = find_push_stream name m in
    if p == 0 then ok m else elim (m.heap p) [
      | none ↦ fault
      | some s ↦ ok (record {
        push_streams = erase_stream name m.push_streams;
        heap = put_stream m.heap p none;
      })
    ]

module _ (base : RtcBase) where
  -- `PushStream::create_offer`
  unfoldable pub create_push_offer : IceParameters → PushStream → Outcome (Bytes × PushStream)
  create_push_offer params s = do
    (text, pc) ← create_offer base (push_options s.audio s.video) params s.pc
    ok (text, record s { pc = pc })

  -- `create_push_stream`: the new stream is at the fresh address `p`. It returns 0 and the offer.
  unfoldable pub create_push_stream :
      IceParameters
      → (p uid : ℕ) → Bytes
      → (audio video : Bool) → (log_id certificate : ℕ) → StreamManager
      → Outcome (ℤ × Bytes × StreamManager)
  unfolding drop_push_stream create_push_offer
  create_push_stream params p uid name audio video log_id certificate m = do
    m' ← drop_push_stream name m
    (text, s) ←
        create_push_offer params (start_stream certificate (new_stream uid name audio video log_id))
    ok (pos 0, text, record m' { heap = put_stream m'.heap p (some s) })
