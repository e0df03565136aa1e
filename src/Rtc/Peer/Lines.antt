-- ===== src/Rtc/Peer/Lines.antt =====
-- The lines of the offer that answers a push.
use dcj_rtc.Prelude.{
  Bool, true, false, some, ◌≡◌, refl, sym, ap, ◌∙◌, Bytes, List, [], ◌∷◌, ◌++◌, append-nil, ok,
  codes,
}
use dcj_rtc.Prelude.Text.{decimal, decimal_int, bytes_eq}
use dcj_rtc.Rtc.Sdp.{actpass, Fingerprint, IceParameters, Transport, find_transport, groups_by_name}
use dcj_rtc.Rtc.Sdp.Text.{
  line, transport_lines, rtp_map, rtcp_fb_lines, fmtp_line, fmtp_params, media_section,
  media_sections, to_sdp,
}
use dcj_rtc.Rtc.Sdp.Lines.{read_lines, is_clean, Reads, Reads-append, Reads-line}
use dcj_rtc.Rtc.Peer.Offer.{offered}
use dcj_rtc.Rtc.Streams.{push_options}
use dcj_rtc.Rtc.Peer.OfferLines.{
  session_lines, credential_lines, head_lines, audio_codec_lines, video_codec_lines,
}

-- Every line ended.
abbrev unlines : List Bytes → Bytes
unlines [] = []
unlines (l ∷ ls) = line (l ∷ []) ++ unlines ls

module _ (params : IceParameters) (fp : Fingerprint) where
  abbrev transport : Bytes → Transport
  transport mid = record {
    mid = mid;
    ice_ufrag = params.ice_ufrag;
    ice_password = params.ice_password;
    identity_fingerprint = some fp;
    role = actpass;
  }

  abbrev section_text : List Bytes → Bytes → List Bytes → Bytes
  section_text head mid codecs =
      unlines head ++ (transport_lines (some (transport mid)) ++ unlines codecs)

  abbrev audio_text : Bytes
  audio_text =
      section_text (head_lines (codes "m=audio 9 UDP/TLS/RTP/SAVPF 111") (codes "audio"))
        (codes "audio") audio_codec_lines

  abbrev video_text : Bytes
  video_text =
      section_text (head_lines (codes "m=video 9 UDP/TLS/RTP/SAVPF 107 99") (codes "video"))
        (codes "video") video_codec_lines

  abbrev sections : (audio video : Bool) → Bytes
  sections true true = audio_text ++ (video_text ++ [])
  sections true false = audio_text ++ []
  sections false true = video_text ++ []
  sections false false = []

  to_sdp-offered :
      (audio video : Bool)
      → to_sdp (offered (push_options audio video) params fp)
        ≡ ok (unlines (session_lines audio video) ++ sections audio video)
  unfolding to_sdp media_sections media_section rtp_map rtcp_fb_lines fmtp_line fmtp_params
      groups_by_name decimal_int decimal find_transport bytes_eq
  to_sdp-offered true true = refl
  to_sdp-offered true false = refl
  to_sdp-offered false true = refl
  to_sdp-offered false false = refl

  -- What the random credentials and the digest of a certificate are made of.
  pub record AreClean : Type 0 where
    pub ufrag : is_clean params.ice_ufrag ≡ true
    pub password : is_clean params.ice_password ≡ true
    pub algorithm : is_clean fp.algorithm ≡ true
    pub digest : is_clean fp.digest ≡ true

  -- The lines of the sections.
  abbrev pub audio_lines : List Bytes
  audio_lines =
      head_lines (codes "m=audio 9 UDP/TLS/RTP/SAVPF 111") (codes "audio")
      ++ (credential_lines params fp ++ audio_codec_lines)

  abbrev pub video_lines : List Bytes
  video_lines =
      head_lines (codes "m=video 9 UDP/TLS/RTP/SAVPF 107 99") (codes "video")
      ++ (credential_lines params fp ++ video_codec_lines)

  abbrev pub section_lines : (audio video : Bool) → List Bytes
  section_lines true true = audio_lines ++ (video_lines ++ [])
  section_lines true false = audio_lines ++ []
  section_lines false true = video_lines ++ []
  section_lines false false = []

  Reads-credentials :
      (mid : Bytes)
      → AreClean
      → Reads (transport_lines (some (transport mid))) (credential_lines params fp)
  unfolding is_clean
  Reads-credentials mid c =
      let u = line (codes "a=ice-ufrag:" ∷ params.ice_ufrag ∷ []) in
      let p = line (codes "a=ice-pwd:" ∷ params.ice_password ∷ []) in
      let f = line (codes "a=fingerprint:" ∷ fp.algorithm ∷ codes " " ∷ fp.digest ∷ []) in
      let s = line (codes "a=setup:" ∷ codes "actpass" ∷ []) in
      let ul : Bytes = codes "a=ice-ufrag:" ++ params.ice_ufrag in
      let pl : Bytes = codes "a=ice-pwd:" ++ params.ice_password in
      let fl : Bytes = codes "a=fingerprint:" ++ (fp.algorithm ++ (codes " " ++ fp.digest)) in
      let sl : Bytes = codes "a=setup:actpass" in
      let digest : Reads f (fl ∷ []) = rw append-nil at (
        Reads-line (codes "a=fingerprint:" ∷ fp.algorithm ∷ codes " " ∷ fp.digest ∷ [])
          (refl, (c.algorithm, (refl, (c.digest, tt))))) in
      let setup : Reads s (sl ∷ []) =
        Reads-line (codes "a=setup:" ∷ codes "actpass" ∷ []) (refl, (refl, tt)) in
      Reads-append u (p ++ (f ++ s)) (ul ∷ []) (pl ∷ fl ∷ sl ∷ [])
        (one (codes "a=ice-ufrag:") params.ice_ufrag refl c.ufrag)
        (Reads-append p (f ++ s) (pl ∷ []) (fl ∷ sl ∷ [])
          (one (codes "a=ice-pwd:") params.ice_password refl c.password)
          (Reads-append f s (fl ∷ []) (sl ∷ []) digest setup))
    where
      one :
          (name value : Bytes)
          → is_clean name ≡ true
          → is_clean value ≡ true
          → Reads (line (name ∷ value ∷ [])) ((name ++ value) ∷ [])
      one name value h h' = rw append-nil at (Reads-line (name ∷ value ∷ []) (h, (h', tt)))

  Reads-section :
      (head : List Bytes) (mid : Bytes) (codecs : List Bytes)
      → AreClean
      → Reads (unlines head) head
      → Reads (unlines codecs) codecs
      → Reads (section_text head mid codecs) (head ++ (credential_lines params fp ++ codecs))
  Reads-section head mid codecs c r r' =
      Reads-append (unlines head) (transport_lines (some (transport mid)) ++ unlines codecs) head
        (credential_lines params fp ++ codecs) r
        (Reads-append (transport_lines (some (transport mid))) (unlines codecs)
          (credential_lines params fp) codecs (Reads-credentials mid c) r')

  Reads-audio : AreClean → Reads audio_text audio_lines
  unfolding read_lines
  Reads-audio c =
      Reads-section (head_lines (codes "m=audio 9 UDP/TLS/RTP/SAVPF 111") (codes "audio"))
        (codes "audio") audio_codec_lines c (λ rest. refl) (λ rest. refl)

  Reads-video : AreClean → Reads video_text video_lines
  unfolding read_lines
  Reads-video c =
      Reads-section (head_lines (codes "m=video 9 UDP/TLS/RTP/SAVPF 107 99") (codes "video"))
        (codes "video") video_codec_lines c (λ rest. refl) (λ rest. refl)

  Reads-sections :
      (audio video : Bool) → AreClean → Reads (sections audio video) (section_lines audio video)
  Reads-sections true true c =
      Reads-append audio_text (video_text ++ []) audio_lines (video_lines ++ []) (Reads-audio c)
        (Reads-append video_text [] video_lines [] (Reads-video c) (λ rest. refl))
  Reads-sections true false c =
      Reads-append audio_text [] audio_lines [] (Reads-audio c) (λ rest. refl)
  Reads-sections false true c =
      Reads-append video_text [] video_lines [] (Reads-video c) (λ rest. refl)
  Reads-sections false false c = λ rest. refl

  Reads-session :
      (audio video : Bool) → Reads (unlines (session_lines audio video)) (session_lines audio video)
  unfolding read_lines
  Reads-session true true rest = refl
  Reads-session true false rest = refl
  Reads-session false true rest = refl
  Reads-session false false rest = refl

  -- The receiver of an answer to a push reads, line by line: the session, the bundle of the wanted
  -- sections, and for each section its media line, its direction, the credentials and the
  -- fingerprint, and its codecs. The credentials and the fingerprint hold no CR and no LF.
  pub read_lines-to_sdp :
      (audio video : Bool)
      → AreClean
      → (text : Bytes) × (to_sdp (offered (push_options audio video) params fp) ≡ ok text)
        × (read_lines text ≡ session_lines audio video ++ section_lines audio video)
  unfolding read_lines
  read_lines-to_sdp audio video c =
      let s = unlines (session_lines audio video) in
      let t = sections audio video in
      let whole =
        Reads-append s t (session_lines audio video) (section_lines audio video)
          (Reads-session audio video) (Reads-sections audio video c) in
      (
        s ++ t,
        to_sdp-offered audio video,
        sym (ap read_lines (append-nil (s ++ t)))
            ∙ (whole [] ∙ append-nil (session_lines audio video ++ section_lines audio video)),
      )
