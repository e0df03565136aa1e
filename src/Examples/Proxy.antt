-- ===== src/Examples/Proxy.antt =====
-- A browser's requests to the proxy.
use dcj_rtc.Prelude.{◌≡◌, refl, pos, Bytes, Option, none, some, [], ◌∷◌, codes, if◌then◌else◌}
use dcj_rtc.Prelude.Text.{bytes_eq}
use dcj_rtc.Proxy.Client.{RoundRobinSelector, panicked, pick_server}
use dcj_rtc.Proxy.Push.{
  PushReq, PushResp, param_err, process_error, push_data, returns, panics, execute,
}

-- The form has the uid `7x` and the stream `cam`.
abbrev form_with : Bytes → Bytes → Option Bytes
form_with uid key =
    if bytes_eq key (codes "uid")
    then some uid
    else if bytes_eq key (codes "streamName")
    then some (codes "cam")
    else none

abbrev accepts : PushReq → Option PushResp
accepts req = some (record { err_no = pos 0; err_msg = []; offer = codes "v=0" })

-- A uid that is no number gets an error, and the server is called all the same.
bad_uid :
    execute accepts (form_with (codes "7x"))
    ≡ returns (process_error param_err ∷ push_data (codes "v=0") ∷ [])
unfolding execute bytes_eq
bad_uid = refl

-- The uid 0 ends the handler by a panic, and 7 gets the offer alone.
zero_uid : execute accepts (form_with (codes "0")) ≡ panics
unfolding execute bytes_eq
zero_uid = refl

one_answer : execute accepts (form_with (codes "7")) ≡ returns (push_data (codes "v=0") ∷ [])
unfolding execute bytes_eq
one_answer = refl

-- Without servers, the selector panics.
abbrev no_servers : RoundRobinSelector Bytes
no_servers = record { servers = []; cur_index = 0 }

no_server : pick_server no_servers ≡ panicked
unfolding pick_server
no_server = refl
