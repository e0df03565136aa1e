-- ===== src/Rtc/Streams/History.antt =====
-- Every push that a media worker is asked for, one after the other.
use dcj_rtc.Prelude.{
  ℕ, Bool, ◌≡◌, ◌≢◌, refl, sym, subst, Bytes, Option, none, some, List, [], ◌∷◌, ok, Outcome, ◌>>=◌,
  arith,
}
use dcj_rtc.Rtc.Peer.{RtcBase, CanDescribe}
use dcj_rtc.Rtc.Sdp.{Fingerprint, IceParameters}
use dcj_rtc.Rtc.Sdp.Text.{to_sdp}
use dcj_rtc.Rtc.Peer.Offer.{offered}
use dcj_rtc.Rtc.Streams.{PushStream, push_options, StreamManager, put_stream, create_push_stream}
use dcj_rtc.Rtc.Streams.Kept.{create_push_stream-offered}

-- The arguments of `create_push_stream`, the credentials and the address of the new stream.
pub record Push : Type 0 where
  pub params : IceParameters
  pub address : ℕ
  pub uid : ℕ
  pub stream_name : Bytes
  pub audio : Bool
  pub video : Bool
  pub log_id : ℕ
  pub certificate : ℕ

module _ (base : RtcBase) where
  -- The offers that the pushes get, with the manager behind them.
  unfoldable pub create_push_streams :
      List Push → StreamManager → Outcome (List Bytes × StreamManager)
  create_push_streams [] m = ok ([], m)
  create_push_streams (c ∷ cs) m =
      create_push_stream base c.params c.address c.uid c.stream_name c.audio c.video c.log_id
        c.certificate m
      >>= λ (ret, text, m'). create_push_streams cs m' >>= λ (texts, m''). ok (text ∷ texts, m'')

-- Each push has a certificate whose fingerprint can be taken, and the build goes on where
-- `set_rtcp_mux` ends without its `return`.
abbrev pub HaveCertificates : RtcBase → List Push → Type 0
HaveCertificates base [] = Unit {0}
HaveCertificates base (c ∷ cs) =
    (c.certificate ≢ 0)
    × ((fp : Fingerprint) × CanDescribe base c.certificate fp)
    × HaveCertificates base cs

-- The address of each new stream is free when it is made.
abbrev pub AreFresh : (ℕ → Option PushStream) → List Push → Type 0
AreFresh heap [] = Unit {0}
AreFresh heap (c ∷ cs) =
    (heap c.address ≡ none) × ((s : PushStream) → AreFresh (put_stream heap c.address (some s)) cs)

-- The texts are the offers that the pushes ask for, in order, with their certificates' fingerprints.
abbrev pub AreOffers : RtcBase → List Push → List Bytes → Type 0
AreOffers base [] [] = Unit {0}
AreOffers base [] (text ∷ texts) = ⊥
AreOffers base (c ∷ cs) [] = ⊥
AreOffers base (c ∷ cs) (text ∷ texts) =
    ((fp : Fingerprint) × (base.fingerprint c.certificate ≡ some fp)
      × (to_sdp (offered (push_options c.audio c.video) c.params fp) ≡ ok text))
    × AreOffers base cs texts

-- Each push has its own stream on the heap, with its name.
abbrev pub AllLive : (ℕ → Option PushStream) → List Push → Type 0
AllLive heap [] = Unit {0}
AllLive heap (c ∷ cs) =
    ((s : PushStream) × (heap c.address ≡ some s) × (s.stream_name ≡ c.stream_name))
    × AllLive heap cs

put_stream-kept :
    (heap : ℕ → Option PushStream) (p q : ℕ) (s t : PushStream)
    → heap p ≡ none
    → heap q ≡ some t
    → put_stream heap p (some s) q ≡ some t
put_stream-kept heap p q s t free live = ground arith

-- A manager that knows no stream answers each of a run of pushes with its offer, and never finds or
-- deletes a stream: it knows none in the end, the stream that it made for each push is still there,
-- of pushes with the same name too, and each that was there before is as it was. Each push has a
-- certificate, whose fingerprint can be taken; each new stream is at a free address; and the build
-- goes on where `set_rtcp_mux` ends without its `return`.
pub create_push_streams-AllLive :
    (base : RtcBase) (cs : List Push) (m : StreamManager)
    → HaveCertificates base cs
    → AreFresh m.heap cs
    → m.push_streams ≡ []
    → (texts : List Bytes) × (m' : StreamManager) × (create_push_streams base cs m ≡ ok (texts, m'))
      × AreOffers base cs texts
      × (m'.push_streams ≡ [])
      × AllLive m'.heap cs
      × ((q : ℕ) (t : PushStream) → m.heap q ≡ some t → m'.heap q ≡ some t)
unfolding create_push_streams
create_push_streams-AllLive base [] m have fresh empty =
    ([], m, refl, tt, empty, tt, λ q t live. live)
create_push_streams-AllLive base (c ∷ cs) m (ne, (fp, can), have) (free, fresh) empty =
    let (text, s, m1, offer, run, empty1, heap1, name) =
      create_push_stream-offered base c.params c.address c.uid c.stream_name c.audio c.video
        c.log_id c.certificate fp m empty ne can in
    let (texts, m2, run2, offers, empty2, live2, kept) =
      create_push_streams-AllLive base cs m1 have (subst (λ h. AreFresh h cs) (sym heap1) (fresh s))
        empty1 in
    let made : m1.heap c.address ≡ some s = rw heap1 (ground arith) in
    (
      text ∷ texts,
      m2,
      rw (run, run2) refl,
      ((fp, can.0, offer), offers),
      empty2,
      ((s, kept c.address s made, name), live2),
      λ q t live. kept q t (rw heap1 (put_stream-kept m.heap c.address q s t free live)),
    )
