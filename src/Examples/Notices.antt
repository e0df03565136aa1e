-- ===== src/Examples/Notices.antt =====
-- Histories of the media server's queue and pipe.
use dcj_rtc.Prelude.{ℕ, pos, some, true, false, ◌≡◌, refl, Bytes, [], ◌∷◌, ok, length}
use dcj_rtc.Base.Socket.{whole_int}
use dcj_rtc.Rtc.Server.{RtcServer, CertificateAnswers}
use dcj_rtc.Rtc.Server.Notices.{
  Media, pushes, notifies, fails_to_notify, Reachable, starts, goes_on, recv_notify,
  every_notice_finds_a_message, waiting_messages,
}
use dcj_rtc.Examples.Fixtures.{answer_msg}

abbrev checksum : Bytes → ℕ
checksum name = 5

abbrev idle : RtcServer ℕ
idle = record {
  worker_num = pos 2;
  workers = 11 ∷ 12 ∷ [];
  q_msg = [];
  certificate = 3;
  sent = [];
  stopped = [];
  pipe_watcher = some 0;
  notify_recv_fd = 5;
  notify_send_fd = 6;
  has_thread = true;
  loop_stopped = false;
  thread_joined = false;
  closed = [];
}

-- A message is queued, and its notice is written, or is refused.
abbrev pushed : Media ℕ
pushed = record {
  server = record idle { q_msg = answer_msg ∷ [] };
  pipe = [];
  sending = 1;
  refused = 0;
}

abbrev noticed : Media ℕ
noticed = record pushed { sending = 0; pipe = pos 1 ∷ [] }

abbrev unnoticed : Media ℕ
unnoticed = record pushed { sending = 0; refused = 1 }

pushed-Reachable : Reachable checksum idle pushed
pushed-Reachable = goes_on (starts refl) (pushes answer_msg)

abbrev certified : CertificateAnswers
certified = record { has_expired = false; generated = 4 }

every_notice_finds_a_message_example :
    (s : RtcServer ℕ) × (recv_notify checksum (whole_int (pos 1)) certified noticed.server ≡ ok s)
every_notice_finds_a_message_example =
    every_notice_finds_a_message checksum idle noticed (pos 1) [] certified 0
      (goes_on pushed-Reachable (notifies refl)) refl refl

waiting_messages_example : length unnoticed.server.q_msg ≡ 1
waiting_messages_example =
    waiting_messages checksum idle unnoticed (goes_on pushed-Reachable (fails_to_notify refl)) refl
      refl
