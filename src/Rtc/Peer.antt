-- ===== src/Rtc/Peer.antt =====
-- xrtc_server/src/pc/peer_connection.h and .cpp: the offer.
pub mod Offer
pub mod OfferLines
pub mod Lines
use dcj_rtc.Prelude.{
  ℕ, Bool, true, false, ◌&&◌, Bytes, Option, none, some, List, [], ◌∷◌, Outcome, ok, fault, ◌>>=◌,
  ◌≡◌, codes, ◌==◌, if◌then◌else◌,
}
use dcj_rtc.Rtc.Sdp.{
  offer, MediaType, audio, video, RtpDirection, send_only, receive_only, send_receive, inactive,
  MediaContent, new_media, mid, ContentGroup, add_content, Fingerprint, IceParameters,
  SessionDescription, new_description, add_media_desc, add_content_group, add_transport_info,
}
use dcj_rtc.Rtc.Sdp.Text.{to_sdp}

-- `RTCOfferAnswerOptions`
pub record OfferOptions : Type 0 where
  pub send_audio : Bool
  pub send_video : Bool
  pub recv_audio : Bool
  pub recv_video : Bool
  pub use_rtp_mux : Bool
  pub use_rtcp_mux : Bool
  pub dtls_on : Bool

-- The values that the struct starts with.
abbrev pub default_options : OfferOptions
default_options = record {
  send_audio = true;
  send_video = true;
  recv_audio = true;
  recv_video = true;
  use_rtp_mux = true;
  use_rtcp_mux = true;
  dtls_on = true;
}

-- `PeerConnection`; `_certificate` has no value before `init`.
pub record PeerConnection : Type 0 where
  pub local_desc : Option SessionDescription
  pub certificate : Option ℕ

abbrev pub new_peer : PeerConnection
new_peer = record { local_desc = none; certificate = none }

-- `PeerConnection::init`
abbrev pub init_peer : ℕ → PeerConnection → PeerConnection
init_peer certificate pc = record pc { certificate = some certificate }

abbrev pub get_rtp_dir : (send recv : Bool) → RtpDirection
get_rtp_dir true true = send_receive
get_rtp_dir true false = send_only
get_rtp_dir false true = receive_only
get_rtp_dir false false = inactive

-- The content of one section, with `set_direction` and `set_rtcp_mux`.
abbrev pub offer_media : MediaType → RtpDirection → Bool → MediaContent
offer_media media direction mux = record (new_media media) { direction = direction; rtcp_mux = mux }

-- The loop that fills the group.
unfoldable pub add_mids : List MediaContent → ContentGroup → ContentGroup
add_mids [] group = group
add_mids (content ∷ contents) group = add_mids contents (add_content (mid content) group)

-- Whether the group has contents.
abbrev pub add_bundle : ContentGroup → SessionDescription → SessionDescription
add_bundle group d = elim group.contents [ [] ↦ d | c ∷ cs ↦ add_content_group group d ]

-- What the code takes from outside the repository: the fingerprint of a certificate by rtc_base, and
-- what the build makes of a `bool` function that ends without its `return`, which is undefined
-- behaviour by the language, and some value in a build that goes on.
pub record RtcBase : Type 0 where
  pub fingerprint : ℕ → Option Fingerprint
  pub unreturned : Outcome Bool

-- The certificate's fingerprint can be taken, and the build goes on where `set_rtcp_mux` ends without
-- its `return`.
abbrev pub CanDescribe : RtcBase → (certificate : ℕ) → Fingerprint → Type 0
CanDescribe base certificate fp =
    (base.fingerprint certificate ≡ some fp) × (b : Bool) × (base.unreturned ≡ ok b)

module _ (base : RtcBase) where
  -- One of the two blocks that add a section. `set_rtcp_mux` ends without its `return`; the result of
  -- `add_transport_info` is not used.
  unfoldable pub add_section :
      MediaType
      → RtpDirection
      → Bool
      → IceParameters
      → ℕ
      → SessionDescription
      → Outcome SessionDescription
  add_section media direction mux params certificate d = do
    b ← base.unreturned
    let content = offer_media media direction mux
    ok
        (add_transport_info base.fingerprint (mid content) params certificate
          (add_media_desc content d)).1

  -- The description that `create_offer` makes; `params` are the random credentials.
  unfoldable pub describe : OfferOptions → IceParameters → ℕ → Outcome SessionDescription
  unfolding add_section add_mids
  describe opts params certificate = do
    let d0 = new_description offer
    d1 ←
        (if opts.recv_audio
          then add_section audio (get_rtp_dir opts.send_audio opts.recv_audio) opts.use_rtcp_mux
              params certificate d0
          else ok d0)
    d2 ←
        (if opts.recv_video
          then add_section video (get_rtp_dir opts.send_video opts.recv_video) opts.use_rtcp_mux
              params certificate d1
          else ok d1)
    ok (
        if opts.use_rtp_mux
        then add_bundle
            (add_mids d2.media_descs (record { semantic = codes "BUNDLE"; contents = [] })) d2
        else d2)

  -- `PeerConnection::create_offer`
  unfoldable pub create_offer :
      OfferOptions → IceParameters → PeerConnection → Outcome (Bytes × PeerConnection)
  unfolding describe
  create_offer opts params pc = elim pc.certificate [
    | none ↦ fault
    | some certificate ↦ if opts.dtls_on && certificate == 0 then ok ([], pc) else (do
      d ← describe opts params certificate
      text ← to_sdp d
      ok (text, record pc { local_desc = some d }))
  ]
