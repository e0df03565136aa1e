-- ===== src/Rtc/Msg.antt =====
-- xrtc_server/src/base/xrtcserver_def.h: the message that passes between the threads.
-- A pointer is its address, 0 for `nullptr`.
use dcj_rtc.Prelude.{ℕ, ℤ, pos, Bytes, ◌++◌, codes, decimal, decimal_int}

abbrev pub cmdno_push : ℤ
cmdno_push = pos 1

abbrev pub cmdno_pull : ℤ
cmdno_pull = pos 2

abbrev pub cmdno_answer : ℤ
cmdno_answer = pos 3

abbrev pub cmdno_stoppush : ℤ
cmdno_stoppush = pos 4

abbrev pub cmdno_stoppull : ℤ
cmdno_stoppull = pos 5

abbrev pub max_res_buf : ℕ
max_res_buf = 4096

-- `RtcMsg`; `worker` is the field that the source spells `woeker`.
pub record RtcMsg : Type 0 where
  pub cmdno : ℤ
  pub stream_name : Bytes
  pub audio : ℤ
  pub video : ℤ
  pub uid : ℕ
  pub certificate : ℕ
  pub log_id : ℤ
  pub worker : ℕ
  pub conn : ℕ
  pub fd : ℤ
  pub sdp : Bytes
  pub err_no : ℤ

-- `RtcMsg::to_string`, for the log.
unfoldable pub to_string : RtcMsg → Bytes
to_string m =
    codes "cmdno: "
    ++ (decimal_int m.cmdno
        ++ (codes ", stream_name: "
            ++ (m.stream_name
                ++ (codes ", audio: "
                    ++ (decimal_int m.audio
                        ++ (codes ", video: "
                            ++ (decimal_int m.video
                                ++ (codes ", uid: "
                                    ++ (decimal m.uid
                                        ++ (codes ", log_id: " ++ decimal_int m.log_id))))))))))
