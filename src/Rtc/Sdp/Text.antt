-- ===== src/Rtc/Sdp/Text.antt =====
-- `SessionDescription::to_string` of xrtc_server/src/pc/session_description.cpp. A stream's buffer is
-- the text that is appended.
use dcj_rtc.Prelude.{
  ℤ, Bool, true, false, Bytes, Option, none, some, List, [], ◌∷◌, ◌++◌, Outcome, ok, fault, ◌>>=◌,
  codes, decimal_int, if◌then◌else◌,
}
use dcj_rtc.Rtc.Codec.{FeedBackParam, CodecInfo}
use dcj_rtc.Rtc.Sdp.{
  MediaType, audio, video, RtpDirection, send_only, receive_only, send_receive, inactive,
  ConnectionRole, no_role, active, passive, actpass, holeconn, MediaContent, mid, ContentGroup,
  Fingerprint, Transport, SessionDescription, get_transport, groups_by_name,
}

abbrev pub crlf : Bytes
crlf = 13 ∷ 10 ∷ []

-- Parts of a line one behind the other.
abbrev pub line : List Bytes → Bytes
line [] = crlf
line (part ∷ parts) = part ++ line parts

-- The parameters of `add_fmtp_line`, separated by semicolons.
unfoldable pub fmtp_params : Bool → List (Bytes × Bytes) → Bytes
fmtp_params first [] = []
fmtp_params first ((key, value) ∷ params) =
    (if first then [] else codes ";") ++ (key ++ (codes "=" ++ (value ++ fmtp_params false params)))

-- `add_fmtp_line`
unfoldable pub fmtp_line : CodecInfo → Bytes
unfolding fmtp_params
fmtp_line codec = elim codec.codec_params [
  | [] ↦ []
  | param ∷ params ↦
      line (
        codes "a=fmtp:" ∷ decimal_int codec.id ∷ codes " " ∷ fmtp_params true (param ∷ params) ∷ [])
]

-- `add_rtcp_fb_line`
unfoldable pub rtcp_fb_lines : ℤ → List FeedBackParam → Bytes
rtcp_fb_lines id [] = []
rtcp_fb_lines id (p ∷ ps) = elim p.param [
  | [] ↦ line (codes "a=rtcp-fb:" ∷ decimal_int id ∷ codes " " ∷ p.id ∷ []) ++ rtcp_fb_lines id ps
  | c ∷ cs ↦
      line (codes "a=rtcp-fb:" ∷ decimal_int id ∷ codes " " ∷ p.id ∷ codes " " ∷ (c ∷ cs) ∷ [])
      ++ rtcp_fb_lines id ps
]

-- `build_rtp_direction`
abbrev pub direction_line : RtpDirection → Bytes
direction_line send_receive = line (codes "a=sendrecv" ∷ [])
direction_line send_only = line (codes "a=sendonly" ∷ [])
direction_line receive_only = line (codes "a=recvonly" ∷ [])
direction_line inactive = line (codes "a=inactive" ∷ [])

-- The channels in a line of `build_rtp_map`: an audio section whose codec is no audio codec reads
-- through `nullptr`.
abbrev pub channels_part : MediaType → CodecInfo → Outcome Bytes
channels_part video codec = ok []
channels_part audio codec = elim codec.channels [
  | none ↦ fault
  | some n ↦ ok (codes "/" ++ decimal_int n)
]

-- `build_rtp_map`
unfoldable pub rtp_map : MediaType → List CodecInfo → Outcome Bytes
unfolding fmtp_line rtcp_fb_lines
rtp_map media [] = ok []
rtp_map media (codec ∷ codecs) = do
  channels ← channels_part media codec
  rest ← rtp_map media codecs
  ok (
      line (
        codes "a=rtpmap:"
        ∷ decimal_int codec.id
        ∷ codes " "
        ∷ codec.name
        ∷ codes "/"
        ∷ decimal_int codec.clock_rate
        ∷ channels
        ∷ [])
      ++ (rtcp_fb_lines codec.id codec.fb_params ++ (fmtp_line codec ++ rest)))

-- `k_connection_role_map`
abbrev pub role_text : ConnectionRole → Bytes
role_text no_role = codes "none"
role_text active = codes "active"
role_text passive = codes "passive"
role_text actpass = codes "actpass"
role_text holeconn = codes "holeconn"

-- What follows `get_transport` in a media section.
abbrev pub fingerprint_lines : Option Fingerprint → ConnectionRole → Bytes
fingerprint_lines none role = []
fingerprint_lines (some fp) role =
    line (codes "a=fingerprint:" ∷ fp.algorithm ∷ codes " " ∷ fp.digest ∷ [])
    ++ line (codes "a=setup:" ∷ role_text role ∷ [])

abbrev pub transport_lines : Option Transport → Bytes
transport_lines none = []
transport_lines (some t) =
    line (codes "a=ice-ufrag:" ∷ t.ice_ufrag ∷ [])
    ++ (line (codes "a=ice-pwd:" ∷ t.ice_password ∷ [])
        ++ fingerprint_lines t.identity_fingerprint t.role)

abbrev pub formats : List CodecInfo → Bytes
formats [] = []
formats (codec ∷ codecs) = codes " " ++ (decimal_int codec.id ++ formats codecs)

-- The body of the loop over the media sections.
unfoldable pub media_section : SessionDescription → MediaContent → Outcome Bytes
unfolding rtp_map
media_section d content = do
  let mux = (if content.rtcp_mux then line (codes "a=rtcp-mux" ∷ []) else [])
  codecs ← rtp_map content.media content.codecs
  ok (
      line (
        codes "m="
        ∷ mid content
        ∷ codes " 9 "
        ∷ codes "UDP/TLS/RTP/SAVPF"
        ∷ formats content.codecs
        ∷ [])
      ++ (line (codes "c=IN IP4 0.0.0.0" ∷ [])
          ++ (line (codes "a=rtcp:9 IN IP4 0.0.0.0" ∷ [])
              ++ (line (codes "a=mid:" ∷ mid content ∷ [])
                  ++ (direction_line content.direction
                      ++ (mux ++ (transport_lines (get_transport (mid content) d) ++ codecs)))))))

unfoldable pub media_sections : SessionDescription → List MediaContent → Outcome Bytes
unfolding media_section
media_sections d [] = ok []
media_sections d (content ∷ contents) = do
  section ← media_section d content
  rest ← media_sections d contents
  ok (section ++ rest)

abbrev pub group_contents : List Bytes → Bytes
group_contents [] = []
group_contents (content ∷ contents) = codes " " ++ (content ++ group_contents contents)

-- The loop over the groups, each of which ends the line.
abbrev pub group_lines : List ContentGroup → Bytes
group_lines [] = []
group_lines (g ∷ gs) = group_contents g.contents ++ (crlf ++ group_lines gs)

abbrev pub group_start : List ContentGroup → Bytes
group_start [] = []
group_start (g ∷ gs) = codes "a=group:" ++ g.semantic

unfoldable pub to_sdp : SessionDescription → Outcome Bytes
unfolding media_sections groups_by_name
to_sdp d = do
  let groups = groups_by_name (codes "BUNDLE") d.content_groups
  sections ← media_sections d d.media_descs
  ok (
      line (codes "v=0" ∷ [])
      ++ (line (codes "o=- 1234567890 1234567890 IN IP4 127.0.0.1" ∷ [])
          ++ (line (codes "s=-" ∷ [])
              ++ (line (codes "t=0 0" ∷ [])
                  ++ (group_start groups
                      ++ (group_lines groups
                          ++ (line (codes "a=msid-semantic: WMS *" ∷ []) ++ sections)))))))
