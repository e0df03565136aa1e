-- ===== src/Rtc/Peer/Offer.antt =====
-- What an offer describes.
use dcj_rtc.Prelude.{
  ℕ, Bool, true, false, ◌≡◌, ◌≢◌, refl, Bytes, some, List, [], ◌∷◌, ◌++◌, map, ok, codes, is_ok_lem,
  if◌then◌else◌, arith,
}
use dcj_rtc.Prelude.Text.{bytes_eq}
use dcj_rtc.Rtc.Sdp.{
  offer, MediaType, audio, video, RtpDirection, MediaContent, new_media, media_mid, mid, actpass,
  ContentGroup, Fingerprint, IceParameters, Transport, SessionDescription, new_description,
  add_media_desc, add_transport, add_transport_info, has_content, add_content,
}
use dcj_rtc.Rtc.Sdp.Text.{to_sdp, media_sections, media_section, rtp_map}
use dcj_rtc.Rtc.Peer.{
  RtcBase, CanDescribe, OfferOptions, PeerConnection, get_rtp_dir, offer_media, add_mids,
  add_section, describe, create_offer,
}

-- The sections that are asked for.
abbrev pub wanted : OfferOptions → List MediaContent
wanted opts =
    (if opts.recv_audio
      then offer_media audio (get_rtp_dir opts.send_audio true) opts.use_rtcp_mux ∷ []
      else [])
    ++ (if opts.recv_video
        then offer_media video (get_rtp_dir opts.send_video true) opts.use_rtcp_mux ∷ []
        else [])

abbrev pub bundle_of : List MediaContent → List ContentGroup
bundle_of [] = []
bundle_of (content ∷ contents) =
    record { semantic = codes "BUNDLE"; contents = map mid (content ∷ contents) } ∷ []

abbrev pub transport_of : IceParameters → Fingerprint → MediaContent → Transport
transport_of params fp content = record {
  mid = mid content;
  ice_ufrag = params.ice_ufrag;
  ice_password = params.ice_password;
  identity_fingerprint = some fp;
  role = actpass;
}

-- An offer: the wanted sections; the bundle of all of them; for each its transport.
abbrev pub offered : OfferOptions → IceParameters → Fingerprint → SessionDescription
offered opts params fp = record {
  type = offer;
  media_descs = wanted opts;
  content_groups = if opts.use_rtp_mux then bundle_of (wanted opts) else [];
  transports = map (transport_of params fp) (wanted opts);
}

module _ (base : RtcBase) where
  add_section-eq :
      (media : MediaType) (direction : RtpDirection) (mux : Bool) (params : IceParameters)
      (certificate : ℕ) (fp : Fingerprint) (d : SessionDescription)
      → certificate ≢ 0
      → CanDescribe base certificate fp
      → add_section base media direction mux params certificate d
        ≡ ok (
            add_transport
              (media_mid media)
              params
              (some fp)
              (add_media_desc (offer_media media direction mux) d))
  unfolding add_section add_transport_info
  add_section-eq audio direction mux params certificate fp d ne (e, b, r) = ground arith
  add_section-eq video direction mux params certificate fp d ne (e, b, r) = ground arith

  describe-offered :
      (opts : OfferOptions) (params : IceParameters) (certificate : ℕ) (fp : Fingerprint)
      → certificate ≢ 0
      → CanDescribe base certificate fp
      → describe base opts params certificate ≡ ok (offered opts params fp)
  unfolding describe add_content has_content add_mids bytes_eq
  describe-offered opts params certificate fp ne e =
      cases opts.recv_audio opts.recv_video opts.use_rtp_mux opts.send_audio opts.send_video
        opts.use_rtcp_mux opts.dtls_on
    where
      cases :
          (ra rv bundle sa sv mux dtls : Bool)
          → let o : OfferOptions = record {
            send_audio = sa;
            send_video = sv;
            recv_audio = ra;
            recv_video = rv;
            use_rtp_mux = bundle;
            use_rtcp_mux = mux;
            dtls_on = dtls;
          } in
            describe base o params certificate ≡ ok (offered o params fp)
      cases true true true sa sv mux dtls =
          rw
            (
              add_section-eq audio (get_rtp_dir sa true) mux params certificate fp
                  (new_description offer) ne e,
              add_section-eq video (get_rtp_dir sv true) mux params certificate fp _ ne e,
            )
            refl
      cases true true false sa sv mux dtls =
          rw
            (
              add_section-eq audio (get_rtp_dir sa true) mux params certificate fp
                  (new_description offer) ne e,
              add_section-eq video (get_rtp_dir sv true) mux params certificate fp _ ne e,
            )
            refl
      cases true false true sa sv mux dtls =
          rw
            (add_section-eq audio (get_rtp_dir sa true) mux params certificate fp
              (new_description offer) ne e)
            refl
      cases true false false sa sv mux dtls =
          rw
            (add_section-eq audio (get_rtp_dir sa true) mux params certificate fp
              (new_description offer) ne e)
            refl
      cases false true true sa sv mux dtls =
          rw
            (add_section-eq video (get_rtp_dir sv true) mux params certificate fp
              (new_description offer) ne e)
            refl
      cases false true false sa sv mux dtls =
          rw
            (add_section-eq video (get_rtp_dir sv true) mux params certificate fp
              (new_description offer) ne e)
            refl
      cases false false true sa sv mux dtls = refl
      cases false false false sa sv mux dtls = refl

-- Every section made here has codecs of its kind: its text is there.
rtp_map-new_media :
    (media : MediaType) → (t : Bytes) × (rtp_map media (new_media media).codecs ≡ ok t)
unfolding rtp_map
rtp_map-new_media audio = (_, refl)
rtp_map-new_media video = (_, refl)

media_section-offer_media :
    (d : SessionDescription) (media : MediaType) (direction : RtpDirection) (mux : Bool)
    → (t : Bytes) × (media_section d (offer_media media direction mux) ≡ ok t)
unfolding media_section
media_section-offer_media d audio direction mux =
    let (t, e) = rtp_map-new_media audio in is_ok_lem _ (ground (arith, e))
media_section-offer_media d video direction mux =
    let (t, e) = rtp_map-new_media video in is_ok_lem _ (ground (arith, e))

media_sections-wanted :
    (d : SessionDescription) (opts : OfferOptions)
    → (t : Bytes) × (media_sections d (wanted opts) ≡ ok t)
unfolding media_sections
media_sections-wanted d opts =
    let (a, ea) =
      media_section-offer_media d audio (get_rtp_dir opts.send_audio true) opts.use_rtcp_mux in
    let (v, ev) =
      media_section-offer_media d video (get_rtp_dir opts.send_video true) opts.use_rtcp_mux in
    is_ok_lem _ (ground (arith, ea, ev))

to_sdp-offered :
    (opts : OfferOptions) (params : IceParameters) (fp : Fingerprint)
    → (t : Bytes) × (to_sdp (offered opts params fp) ≡ ok t)
unfolding to_sdp
to_sdp-offered opts params fp =
    let (t, e) = media_sections-wanted (offered opts params fp) opts in is_ok_lem _ (rw e refl)

-- With a certificate whose fingerprint can be taken, and in a build that goes on where
-- `set_rtcp_mux` ends without its `return`, the offer is there whatever the options: it describes
-- the wanted sections with their directions, bundles all of them when bundling is on and there are
-- any, and gives each the credentials, the fingerprint and the role `actpass`; its text is that
-- description's.
pub create_offer-offered :
    (base : RtcBase) (opts : OfferOptions) (params : IceParameters) (pc : PeerConnection)
    (certificate : ℕ) (fp : Fingerprint)
    → pc.certificate ≡ some certificate
    → certificate ≢ 0
    → CanDescribe base certificate fp
    → (text : Bytes) × (to_sdp (offered opts params fp) ≡ ok text)
      × (create_offer base opts params pc
          ≡ ok (text, record pc { local_desc = some (offered opts params fp) }))
unfolding create_offer
create_offer-offered base opts params pc certificate fp ce ne e =
    let d = describe-offered base opts params certificate fp ne e in
    let (t, s) = to_sdp-offered opts params fp in (t, s, ground (arith, d, s))
