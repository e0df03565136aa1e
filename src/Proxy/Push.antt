-- ===== src/Proxy/Push.antt =====
-- signaling/src/action/push.go: the handler of `/signaling/push`. The HTTP server, JSON and the logger
-- are Go's; the call of the server, `framework.Call`, is a parameter.
use dcj_rtc.Prelude.{
  ℕ, ◌+◌, ◌-◌, ◌*◌, ◌^◌, ◌≡◌, ◌≢◌, arith, ℤ, pos, minus_one, negsuc, eq_ℤ, Bool, true, false, ◌&&◌,
  ◌||◌, Option, none, some, Bytes, List, [], ◌∷◌, ◌++◌, ◌==◌, leb, codes, if◌then◌else◌,
}
use dcj_rtc.Prelude.Text.{bytes_eq}

-- `xrtcPushReq` and `xrtcPushResp`
pub record PushReq : Type 0 where
  pub cmdno : ℕ
  pub uid : ℕ
  pub stream_name : Bytes
  pub audio : ℕ
  pub video : ℕ

pub record PushResp : Type 0 where
  pub err_no : ℤ
  pub err_msg : Bytes
  pub offer : Bytes

abbrev pub param_err : ℤ
param_err = minus_one

abbrev pub network_err : ℤ
network_err = negsuc 1

-- What is written to the browser: `writeJsonErrorResponse`, or the offer.
pub data HttpBody : Type 0 where
  process_error : (errno : ℤ) → HttpBody
  push_data : (sdp : Bytes) → HttpBody

-- How the handler ends, with what it wrote.
pub data Executed : Type 0 where
  panics : Executed
  returns : List HttpBody → Executed

-- `strconv.ParseUint(s, 10, 61)`: the value, and whether there is an error.
parse_digits : ℕ → Bytes → ℕ × Bool
parse_digits n [] = (n, false)
parse_digits n (c ∷ s) =
    let next = n * 10 + (c - 48) in
    let rest = parse_digits next s in
    if leb 48 c && leb c 57
    then (if leb (2 ^ 61) next then (2 ^ 61 - 1, true) else rest)
    else (0, true)

unfoldable pub parse_uint : Bytes → ℕ × Bool
unfolding parse_digits
parse_uint [] = (0, true)
parse_uint (c ∷ s) = parse_digits 0 (c ∷ s)

-- `r.Form[key]`, the first value; a variable that is not set stays the empty text.
abbrev pub value_of : (Bytes → Option Bytes) → Bytes → Bytes
value_of form key = elim (form key) [ none ↦ [] | some value ↦ value ]

-- `audio` and `video`
unfoldable pub flag : Bytes → ℕ
flag value = if bytes_eq value [] || bytes_eq value (codes "0") then 0 else 1

unfoldable pub push_req : (Bytes → Option Bytes) → ℕ → PushReq
unfolding flag
push_req form uid = record {
  cmdno = 1;
  uid = uid;
  stream_name = value_of form (codes "streamName");
  audio = flag (value_of form (codes "audio"));
  video = flag (value_of form (codes "video"));
}

-- What follows the call.
unfoldable pub answer_to : Option PushResp → HttpBody
answer_to none = process_error network_err
answer_to (some resp) =
    if eq_ℤ resp.err_no (pos 0) then push_data resp.offer else process_error network_err

module _ (call : PushReq → Option PushResp) (form : Bytes → Option Bytes) where
  -- From the test of the stream's name on, with what is written before.
  unfoldable pub after_uid : List HttpBody → ℕ → Executed
  unfolding push_req answer_to
  after_uid written uid =
      if bytes_eq (value_of form (codes "streamName")) []
      then returns (written ++ (process_error param_err ∷ []))
      else returns (written ++ (answer_to (call (push_req form uid)) ∷ []))

  -- `Execute`. For the uid 0 the error's text is asked for and there is no error; after a uid that is
  -- no number the handler goes on.
  unfoldable pub execute : Executed
  unfolding after_uid parse_uint
  execute =
      let (uid, err) = parse_uint (value_of form (codes "uid")) in
      if err
      then after_uid (process_error param_err ∷ []) uid
      else if uid == 0
      then panics
      else after_uid [] uid

  -- With a uid other than 0 and a name, what follows the call is the only answer.
  pub execute-answer_to :
      (uid : ℕ)
      → parse_uint (value_of form (codes "uid")) ≡ (uid, false)
      → uid ≢ 0
      → bytes_eq (value_of form (codes "streamName")) [] ≡ false
      → execute ≡ returns (answer_to (call (push_req form uid)) ∷ [])
  unfolding execute after_uid
  execute-answer_to uid e ne name = rw (execute, e, name) (ground (arith, ne))
