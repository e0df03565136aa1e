-- ===== src/Rtc/Sdp.antt =====
-- xrtc_server/src/pc/session_description.h and .cpp: a session description and its text. A
-- certificate is its address, 0 for `nullptr`.
pub mod Text
pub mod Lines
use dcj_rtc.Prelude.{
  ℕ, ℤ, pos, Bool, true, false, Bytes, Option, none, some, List, [], ◌∷◌, ◌++◌, codes, bytes_eq,
  ◌==◌, if◌then◌else◌,
}
use dcj_rtc.Rtc.Codec.{CodecInfo, opus, h264, rtx}

pub data SdpType : Type 0 where
  offer answer : SdpType

pub data MediaType : Type 0 where
  audio video : MediaType

pub data RtpDirection : Type 0 where
  send_only receive_only send_receive inactive : RtpDirection

-- `ConnectionRole`
pub data ConnectionRole : Type 0 where
  no_role active passive actpass holeconn : ConnectionRole

-- `MediaContentDescription`
pub record MediaContent : Type 0 where
  pub media : MediaType
  pub codecs : List CodecInfo
  pub direction : RtpDirection
  pub rtcp_mux : Bool

-- The two constructors.
abbrev pub new_media : MediaType → MediaContent
new_media audio = record {
  media = audio;
  codecs = opus ∷ [];
  direction = inactive;
  rtcp_mux = true;
}
new_media video = record {
  media = video;
  codecs = h264 ∷ rtx h264.id ∷ [];
  direction = inactive;
  rtcp_mux = true;
}

-- `mid`
abbrev pub media_mid : MediaType → Bytes
media_mid audio = codes "audio"
media_mid video = codes "video"

abbrev pub mid : MediaContent → Bytes
mid content = media_mid content.media

-- `ContentGroup`
pub record ContentGroup : Type 0 where
  pub semantic : Bytes
  pub contents : List Bytes

-- `std::find`
unfoldable pub has_content : Bytes → List Bytes → Bool
has_content content [] = false
has_content content (c ∷ contents) =
    if bytes_eq c content then true else has_content content contents

unfoldable pub add_content : Bytes → ContentGroup → ContentGroup
add_content content group =
    if has_content content group.contents
    then group
    else record group { contents = group.contents ++ (content ∷ []) }

-- `rtc::SSLFingerprint`: the algorithm, and the text of the digest.
pub record Fingerprint : Type 0 where
  pub algorithm : Bytes
  pub digest : Bytes

-- `IceParameters` of xrtc_server/src/ice/ice_credentials.h
pub record IceParameters : Type 0 where
  pub ice_ufrag : Bytes
  pub ice_password : Bytes

-- `TransportDescription`
pub record Transport : Type 0 where
  pub mid : Bytes
  pub ice_ufrag : Bytes
  pub ice_password : Bytes
  pub identity_fingerprint : Option Fingerprint
  pub role : ConnectionRole

-- `SessionDescription`
pub record SessionDescription : Type 0 where
  pub type : SdpType
  pub media_descs : List MediaContent
  pub content_groups : List ContentGroup
  pub transports : List Transport

abbrev pub new_description : SdpType → SessionDescription
new_description type = record {
  type = type;
  media_descs = [];
  content_groups = [];
  transports = [];
}

abbrev pub add_media_desc : MediaContent → SessionDescription → SessionDescription
add_media_desc content d = record d { media_descs = d.media_descs ++ (content ∷ []) }

abbrev pub add_content_group : ContentGroup → SessionDescription → SessionDescription
add_content_group group d = record d { content_groups = d.content_groups ++ (group ∷ []) }

abbrev pub role_for : SdpType → ConnectionRole
role_for offer = actpass
role_for answer = active

abbrev pub add_transport :
    Bytes → IceParameters → Option Fingerprint → SessionDescription → SessionDescription
add_transport mid params fingerprint d = record d {
  transports =
      d.transports
      ++ (record {
        mid = mid;
        ice_ufrag = params.ice_ufrag;
        ice_password = params.ice_password;
        identity_fingerprint = fingerprint;
        role = role_for d.type;
      }
          ∷ []);
}

-- `add_transport_info`; `fingerprint` is `SSLFingerprint::CreateFromCertificate` of rtc_base, which
-- may fail.
unfoldable pub add_transport_info :
    (fingerprint : ℕ → Option Fingerprint)
    → Bytes
    → IceParameters
    → (certificate : ℕ) → SessionDescription
    → Bool × SessionDescription
add_transport_info fingerprint mid params certificate d =
    if certificate == 0
    then (true, add_transport mid params none d)
    else elim (fingerprint certificate) [
      | none ↦ (false, d)
      | some fp ↦ (true, add_transport mid params (some fp) d)
    ]

-- The loop of `get_transport`.
unfoldable pub find_transport : Bytes → List Transport → Option Transport
find_transport mid [] = none
find_transport mid (t ∷ ts) = if bytes_eq t.mid mid then some t else find_transport mid ts

abbrev pub get_transport : Bytes → SessionDescription → Option Transport
get_transport mid d = find_transport mid d.transports

-- `get_group_by_name`
unfoldable pub groups_by_name : Bytes → List ContentGroup → List ContentGroup
groups_by_name name [] = []
groups_by_name name (g ∷ gs) =
    let rest = groups_by_name name gs in if bytes_eq g.semantic name then g ∷ rest else rest
