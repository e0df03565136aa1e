-- ===== src/Rtc/Codec.antt =====
-- xrtc_server/src/pc/codec_info.h: what a session description says of a codec.
use dcj_rtc.Prelude.{ℤ, pos, Bytes, Option, none, some, List, [], ◌∷◌, codes, decimal_int}

-- `FeedBackParam`; the parameter is empty if there is none.
pub record FeedBackParam : Type 0 where
  pub id : Bytes
  pub param : Bytes

abbrev pub feed_back : Bytes → Bytes → FeedBackParam
feed_back id param = record { id = id; param = param }

-- `CodecInfo`. `codec_params` is the `std::map` in the order of its keys. `channels` is the field of
-- `AudioCodecInfo`, `none` for a codec whose `as_audio` is `nullptr`.
pub record CodecInfo : Type 0 where
  pub id : ℤ
  pub name : Bytes
  pub clock_rate : ℤ
  pub fb_params : List FeedBackParam
  pub codec_params : List (Bytes × Bytes)
  pub channels : Option ℤ

-- The codecs that the constructors of `AudioContentDescription` and `VideoContentDescription` of
-- xrtc_server/src/pc/session_description.cpp make.
abbrev pub opus : CodecInfo
opus = record {
  id = pos 111;
  name = codes "opus";
  clock_rate = pos 48000;
  fb_params = feed_back (codes "transport-cc") [] ∷ [];
  codec_params = (codes "minptime", codes "10") ∷ (codes "useinbandfec", codes "1") ∷ [];
  channels = some (pos 2);
}

abbrev pub h264 : CodecInfo
h264 = record {
  id = pos 107;
  name = codes "h264";
  clock_rate = pos 90000;
  fb_params =
      feed_back (codes "goog-remb") []
      ∷ feed_back (codes "transport-cc") []
      ∷ feed_back (codes "ccm") (codes "fir")
      ∷ feed_back (codes "nack") []
      ∷ feed_back (codes "nack") (codes "pli")
      ∷ [];
  codec_params =
      (codes "level-asymmetry-allowed", codes "1")
      ∷ (codes "packetization-mode", codes "1")
      ∷ (codes "profile-level-id", codes "42e01")
      ∷ [];
  channels = none;
}

-- Retransmissions of the codec with the given number.
abbrev pub rtx : ℤ → CodecInfo
rtx apt = record {
  id = pos 99;
  name = codes "rtx";
  clock_rate = pos 90000;
  fb_params = [];
  codec_params = (codes "apt", decimal_int apt) ∷ [];
  channels = none;
}
