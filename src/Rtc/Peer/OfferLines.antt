-- ===== src/Rtc/Peer/OfferLines.antt =====
-- What the receiver of the offer to a push is to read, from xrtc_server/src/pc/session_description.cpp
-- and peer_connection.cpp.
use dcj_rtc.Prelude.{Bool, true, false, Bytes, List, [], ◌∷◌, ◌++◌, codes}
use dcj_rtc.Rtc.Sdp.{Fingerprint, IceParameters}

-- The lines of the whole description and of its bundle.
abbrev pub session_lines : (audio video : Bool) → List Bytes
session_lines audio video =
    codes "v=0"
    ∷ codes "o=- 1234567890 1234567890 IN IP4 127.0.0.1"
    ∷ codes "s=-"
    ∷ codes "t=0 0"
    ∷ bundle_lines audio video
  where
    bundle_lines : (audio video : Bool) → List Bytes
    bundle_lines true true =
        codes "a=group:BUNDLE audio video" ∷ codes "a=msid-semantic: WMS *" ∷ []
    bundle_lines true false = codes "a=group:BUNDLE audio" ∷ codes "a=msid-semantic: WMS *" ∷ []
    bundle_lines false true = codes "a=group:BUNDLE video" ∷ codes "a=msid-semantic: WMS *" ∷ []
    bundle_lines false false = codes "a=msid-semantic: WMS *" ∷ []

abbrev pub credential_lines : IceParameters → Fingerprint → List Bytes
credential_lines params fp =
    (codes "a=ice-ufrag:" ++ params.ice_ufrag)
    ∷ (codes "a=ice-pwd:" ++ params.ice_password)
    ∷ (codes "a=fingerprint:" ++ (fp.algorithm ++ (codes " " ++ fp.digest)))
    ∷ codes "a=setup:actpass"
    ∷ []

-- A section that receives: its head, and its codecs.
abbrev pub head_lines : (media mid : Bytes) → List Bytes
head_lines media mid =
    media
    ∷ codes "c=IN IP4 0.0.0.0"
    ∷ codes "a=rtcp:9 IN IP4 0.0.0.0"
    ∷ (codes "a=mid:" ++ mid)
    ∷ codes "a=recvonly"
    ∷ codes "a=rtcp-mux"
    ∷ []

abbrev pub audio_codec_lines : List Bytes
audio_codec_lines =
    codes "a=rtpmap:111 opus/48000/2"
    ∷ codes "a=rtcp-fb:111 transport-cc"
    ∷ codes "a=fmtp:111 minptime=10;useinbandfec=1"
    ∷ []

abbrev pub video_codec_lines : List Bytes
video_codec_lines =
    codes "a=rtpmap:107 h264/90000"
    ∷ codes "a=rtcp-fb:107 goog-remb"
    ∷ codes "a=rtcp-fb:107 transport-cc"
    ∷ codes "a=rtcp-fb:107 ccm fir"
    ∷ codes "a=rtcp-fb:107 nack"
    ∷ codes "a=rtcp-fb:107 nack pli"
    ∷ codes "a=fmtp:107 level-asymmetry-allowed=1;packetization-mode=1;profile-level-id=42e01"
    ∷ codes "a=rtpmap:99 rtx/90000"
    ∷ codes "a=fmtp:99 apt=107"
    ∷ []
