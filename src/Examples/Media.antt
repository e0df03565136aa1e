-- ===== src/Examples/Media.antt =====
-- A push on its way through the media server.
use dcj_rtc.Prelude.{
  List, ℕ, zero, suc, pos, ◌<◌, true, false, ◌≡◌, ◌≢◌, refl, Bytes, none, some, [], ◌∷◌, ◌++◌, ok,
  ◌==◌, get_or, codes, if◌then◌else◌, arith,
}
use dcj_rtc.Rtc.Msg.{RtcMsg}
use dcj_rtc.Rtc.Sdp.{Fingerprint, IceParameters}
use dcj_rtc.Rtc.Sdp.Text.{to_sdp}
use dcj_rtc.Rtc.Peer.{RtcBase, default_options, new_peer, init_peer, create_offer}
use dcj_rtc.Rtc.Peer.Offer.{offered, create_offer-offered}
use dcj_rtc.Rtc.Sdp.Lines.{read_lines, is_clean}
use dcj_rtc.Rtc.Peer.OfferLines.{session_lines}
use dcj_rtc.Rtc.Peer.Lines.{section_lines, AreClean, read_lines-to_sdp}
use dcj_rtc.Rtc.Streams.{PushStream, push_options, StreamManager, new_manager}
use dcj_rtc.Rtc.Streams.History.{
  Push, create_push_streams, AreOffers, AllLive, create_push_streams-AllLive,
}
use dcj_rtc.Rtc.Worker.{RtcWorker}
use dcj_rtc.Rtc.Server.{RtcServer, new_server}
use dcj_rtc.Rtc.Server.Init
use dcj_rtc.Rtc.Server.Init.{WorkerAnswers}
use dcj_rtc.Rtc.Server.Init.Staffed.{init-IsStaffed}
use dcj_rtc.Rtc.Server.Routing.{IsStaffed}
use dcj_rtc.Examples.Fixtures.{Io, small_ev, answer_msg}

abbrev small_fp : Fingerprint
small_fp = record { algorithm = codes "sha-256"; digest = codes "AB:CD" }

-- Only the certificate at 3 has a fingerprint.
abbrev rtc_base : RtcBase
rtc_base = record {
  fingerprint = λ p. if p == 3 then some small_fp else none;
  unreturned = ok true;
}

abbrev params : IceParameters
params = record { ice_ufrag = codes "abcd"; ice_password = codes "abcdefghijklmnopqrstuvwx" }

create_offer-offered_example :
    let pc = init_peer 3 new_peer in
    (text : Bytes) × (to_sdp (offered default_options params small_fp) ≡ ok text)
    × (create_offer rtc_base default_options params pc
        ≡ ok (text, record pc { local_desc = some (offered default_options params small_fp) }))
create_offer-offered_example =
    create_offer-offered rtc_base default_options params (init_peer 3 new_peer) 3 small_fp refl
      (omega arith) (refl, true, refl)

abbrev push : RtcMsg
push = record answer_msg { certificate = 3 }

abbrev rtc_worker : RtcWorker ℕ
rtc_worker = record {
  streams = new_manager (λ p. none);
  q_msg = push ∷ [];
  answers = [];
  pipe_watcher = some 0;
  notify_recv_fd = 3;
  notify_send_fd = 4;
  has_thread = true;
  loop_stopped = false;
  thread_joined = false;
  closed = [];
}

abbrev both_workers : List ℕ
both_workers = 11 ∷ 12 ∷ []

abbrev server : RtcServer ℕ
server = record {
  worker_num = pos 2;
  workers = both_workers;
  q_msg = push ∷ [];
  certificate = 0;
  sent = [];
  stopped = [];
  pipe_watcher = some 0;
  notify_recv_fd = 5;
  notify_send_fd = 6;
  has_thread = true;
  loop_stopped = false;
  thread_joined = false;
  closed = [];
}

server-IsStaffed : IsStaffed server
server-IsStaffed = record {
  some_worker = omega arith;
  bounded = omega arith;
  worker_num = refl;
  present = both;
}
  where
    both : (i : ℕ) → i < 2 → get_or both_workers i 0 ≢ 0
    both zero h = omega arith
    both (suc zero) h = omega arith
    both (suc (suc i)) h = absurd (omega arith)

abbrev two_answers : List WorkerAnswers
two_answers =
    record { address = 11; fds = some (5, 6) } ∷ record { address = 12; fds = some (7, 8) } ∷ []

init-IsStaffed_example :
    (s : RtcServer Io) × (Init.init small_ev
        (some (pos 2))
        (record { has_expired = false; generated = 3 })
        (some (3, 4))
        two_answers
        new_server
      ≡ ok (pos 0, s))
    × IsStaffed s
    × (s.certificate ≢ 0)
init-IsStaffed_example =
    init-IsStaffed small_ev 2 (record { has_expired = false; generated = 3 }) (3, 4) two_answers
      new_server (omega arith) (omega arith) refl (omega arith)
      (omega arith, ((5, 6), refl), (omega arith, ((7, 8), refl), tt))

params-AreClean : AreClean params small_fp
unfolding is_clean
params-AreClean = record { ufrag = refl; password = refl; algorithm = refl; digest = refl }

read_lines-to_sdp_example :
    (text : Bytes) × (to_sdp (offered (push_options true true) params small_fp) ≡ ok text)
    × (read_lines text ≡ session_lines true true ++ section_lines params small_fp true true)
read_lines-to_sdp_example = read_lines-to_sdp params small_fp true true params-AreClean

-- Two pushes of the same stream.
abbrev two_pushes : List Push
two_pushes =
    record {
      params = params;
      address = 8;
      uid = 7;
      stream_name = codes "cam";
      audio = true;
      video = true;
      log_id = 1;
      certificate = 3;
    }
    ∷ record {
      params = params;
      address = 9;
      uid = 7;
      stream_name = codes "cam";
      audio = true;
      video = false;
      log_id = 2;
      certificate = 4;
    }
    ∷ []

-- Each certificate has its own fingerprint.
abbrev two_prints : RtcBase
two_prints = record {
  fingerprint = λ p. some (record { algorithm = codes "sha-256"; digest = p ∷ [] });
  unreturned = ok true;
}

create_push_streams-AllLive_example :
    (texts : List Bytes) × (m : StreamManager) × (create_push_streams two_prints two_pushes
        (new_manager (λ p. none))
      ≡ ok (texts, m))
    × AreOffers two_prints two_pushes texts
    × (m.push_streams ≡ [])
    × AllLive m.heap two_pushes
    × ((q : ℕ) (t : PushStream) → none ≡ some t → m.heap q ≡ some t)
create_push_streams-AllLive_example =
    create_push_streams-AllLive two_prints two_pushes (new_manager (λ p. none))
      (omega arith, (_, (refl, true, refl)), (omega arith, (_, (refl, true, refl)), tt))
      (refl, λ s. (refl, λ t. tt)) refl
