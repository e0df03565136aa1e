-- ===== src/Examples/Start.antt =====
-- The process on its way up.
use dcj_rtc.Prelude.{
  pos, ◌≡◌, ◌↔◌, refl, true, false, Bytes, codes, none, some, [], ◌∷◌, ◌++◌, ok, fault, arith,
}
use dcj_rtc.Base.EventLoop.{read_events, start_io_event}
use dcj_rtc.Base.Socket.Setup.{create_tcp_socket}
use dcj_rtc.Base.Conf.{Yaml, returned, GeneralConf, new_conf, load_general_conf}
use dcj_rtc.Base.Conf.Exact.{IsRead, load_general_conf-IsRead}
use dcj_rtc.Base.Log.{made_dir}
use dcj_rtc.Signaling.Server.Init.{load_options, SignalingServerOptions, new_server, init_server}
use dcj_rtc.Signaling.Server.Init.Ready.{CanPipe, init_server-ready}
use dcj_rtc.Main.{StartAnswers, main}
use dcj_rtc.Main.Unstarted.{Gives}
use dcj_rtc.Main.Stages.{IsEnough}
use dcj_rtc.Main.Order.{EndsWell, main-order}
use dcj_rtc.Examples.Fixtures.{small_ev}

-- Every file asks for two workers.
abbrev small_yaml : Yaml Bytes
small_yaml = record {
  load_file = λ name. some name;
  as_string = λ root keys. some (codes "log");
  as_bool = λ root keys. some true;
  as_int = λ root keys. some (pos 2);
}

abbrev start_answers : StartAnswers
start_answers = record {
  mkdir = made_dir;
  opened = true;
  opened_wf = true;
  signaling_fds = some (3, 4);
  socket = record {
    socket = some 5;
    reuse_addr = true;
    address = true;
    bind = true;
    listen = true;
  };
  signaling_workers =
      record { address = 21; fds = some (6, 7) } ∷ record { address = 22; fds = some (8, 9) } ∷ [];
  certs = record { has_expired = false; generated = 3 };
  rtc_fds = some (10, 11);
  rtc_workers =
      record { address = 31; fds = some (12, 13) } ∷ record { address = 32; fds = none } ∷ [];
}

start_answers-IsEnough : IsEnough small_ev (pos 0) small_yaml start_answers
unfolding load_options
start_answers-IsEnough = record { signaling = λ o e. ground arith; rtc = λ k e. ground arith }

-- The second media worker gets no pipe, and `main` returns -1.
main-order_example :
    Gives
      (EndsWell small_ev (pos 0) small_yaml)
      (main small_ev (ok (pos 0)) small_yaml start_answers)
main-order_example = main-order small_ev (pos 0) small_yaml start_answers start_answers-IsEnough

abbrev two_workers : SignalingServerOptions
two_workers = record {
  host = codes "0.0.0.0";
  port = pos 9000;
  worker_thread_num = pos 2;
  connection_timeout_ms = pos 5000;
}

two_workers-CanPipe : CanPipe 2 start_answers.signaling_workers
two_workers-CanPipe = (((6, 7), refl), (((8, 9), refl), tt))

init_server-ready_example :
    (init_server small_ev
        (ok (pos 0))
        (some two_workers)
        (some (3, 4))
        start_answers.socket
        start_answers.signaling_workers
        new_server
      ≡ ok (
        pos 0,
        record new_server {
          notify_recv_fd = 3;
          notify_send_fd = 4;
          pipe_watcher = some (start_io_event small_ev small_ev.init 3 read_events);
          listen_fd = 5;
          io_watcher = some (start_io_event small_ev small_ev.init 5 read_events);
          workers = [] ++ (21 ∷ 22 ∷ []);
        },
      ))
    × (init_server small_ev fault
          (some two_workers)
          (some (3, 4))
          start_answers.socket
          start_answers.signaling_workers
          new_server
        ≡ fault)
unfolding create_tcp_socket
init_server-ready_example =
    init_server-ready small_ev (pos 0) 1 5 3 4 two_workers start_answers.socket
      start_answers.signaling_workers new_server refl refl refl two_workers-CanPipe

abbrev read_conf : GeneralConf
read_conf = record {
  log_dir = codes "log";
  log_name = codes "log";
  log_level = codes "log";
  log_to_stderr = true;
  ice_min_port = pos 2;
  ice_max_port = pos 2;
}

load_general_conf-IsRead_example :
    (load_general_conf small_yaml (some (codes "a.yaml")) (some new_conf)
      ≡ returned (pos 0, some read_conf))
    ↔ ((root : Bytes) × (small_yaml.load_file (codes "a.yaml") ≡ some root)
        × IsRead small_yaml root read_conf)
load_general_conf-IsRead_example =
    load_general_conf-IsRead small_yaml (codes "a.yaml") new_conf read_conf
