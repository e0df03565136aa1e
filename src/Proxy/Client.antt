-- ===== src/Proxy/Client.antt =====
-- signaling/src/framework/xrpc/selector.go and client.go, and `Call` of signaling/src/framework/xrpc.go.
-- The network and JSON are parameters; a lock is held by one goroutine at a time.
use dcj_rtc.Prelude.{
  ℕ, zero, suc, ℤ, pos, eq_ℤ, ◌+◌, ◌%◌, ◌<◌, ◌≡◌, refl, Bytes, Option, none, some, List, [], ◌∷◌,
  ◌==◌, length, get_elem?, if◌then◌else◌, arith,
}
use native.Mathlib.Nat.{mod-lt}
use dcj_rtc.Proxy.Push.{PushReq, PushResp}
use dcj_rtc.Proxy.Xrpc.{XrpcRequest, XrpcResponse, new_request, write_request, read_response}

-- How a run of Go code ends: by a panic, or with its result.
pub data Ran {ℓ} (A : Type ℓ) : Type ℓ where
  panicked : Ran A
  ran : A → Ran A

-- `RoundRobinSelector`; the index stays below the number of servers.
pub record RoundRobinSelector (A : Type 0) : Type 0 where
  pub servers : List A
  pub cur_index : ℕ

pub record Client (A : Type 0) : Type 0 where
  pub connect_timeout : ℤ
  pub read_timeout : ℤ
  pub write_timeout : ℤ
  pub selector : RoundRobinSelector A

module _ {A : Type 0} where
  -- The addresses that `AddServer` resolves, until one fails.
  unfoldable pub resolve_all : (Bytes → Option A) → List Bytes → Option (List A)
  resolve_all resolve [] = some []
  resolve_all resolve (server ∷ rest) = elim (resolve server) [
    | none ↦ none
    | some addr ↦ elim (resolve_all resolve rest) [ none ↦ none | some addrs ↦ some (addr ∷ addrs) ]
  ]

  -- `AddServer`; on an error the selector stays as it is.
  unfoldable pub add_server :
      (Bytes → Option A) → List Bytes → RoundRobinSelector A → Option (RoundRobinSelector A)
  unfolding resolve_all
  add_server resolve [] s = none
  add_server resolve (server ∷ rest) s = elim (resolve_all resolve (server ∷ rest)) [
    | none ↦ none
    | some addrs ↦ some (record s { servers = addrs })
  ]

  -- `PickServer`: the remainder is taken before the test for no servers, and by 0 it is a panic.
  unfoldable pub pick_server : RoundRobinSelector A → Ran (RoundRobinSelector A × Option A)
  pick_server s =
      if length s.servers == 0
      then panicked
      else (let s' = record s { cur_index = (s.cur_index + 1) % length s.servers } in
          if length s'.servers == 0
          then ran (s', none)
          else elim (get_elem? s'.servers s'.cur_index) [
            | none ↦ panicked
            | some addr ↦ ran (s', some addr)
          ])

  -- `NewClient`
  unfoldable pub new_client : (Bytes → Option A) → List Bytes → Ran (Client A)
  unfolding add_server
  new_client resolve servers =
      elim (add_server resolve servers (record { servers = []; cur_index = 0 })) [
        | none ↦ panicked
        | some selector ↦ ran (record {
          connect_timeout = pos 0;
          read_timeout = pos 0;
          write_timeout = pos 0;
          selector = selector;
        })
      ]

-- `connectTimeout`, `readTimeout` and `writeTimeout`, in nanoseconds.
abbrev pub or_default : (default timeout : ℤ) → ℤ
or_default default timeout = if eq_ℤ timeout (pos 0) then default else timeout

-- The deadlines of one connection.
pub record Timeouts : Type 0 where
  pub connect : ℤ
  pub read : ℤ
  pub write : ℤ

abbrev pub timeouts : {A : Type 0} → Client A → Timeouts
timeouts c = record {
  connect = or_default (pos 100000000) c.connect_timeout;
  read = or_default (pos 500000000) c.read_timeout;
  write = or_default (pos 500000000) c.write_timeout;
}

-- `net` dials an address, writes and flushes the bytes it is given, and has the bytes that come back
-- before the connection ends or the deadline passes; `none` is an error of dialling or writing.
module _ {A : Type 0} (net : A → Timeouts → Bytes → Option Bytes) where
  -- `Do`, on one new connection; `none` is an error.
  unfoldable pub do_request : XrpcRequest → Client A → Ran (Client A × Option XrpcResponse)
  unfolding pick_server
  do_request req c = elim (pick_server c.selector) [
    | panicked ↦ panicked
    | ran (selector, picked) ↦
        let c' = record c { selector = selector } in
        elim picked [
          | none ↦ ran (c', none)
          | some addr ↦ elim (write_request req) [
            | none ↦ ran (c', none)
            | some request ↦ elim (net addr (timeouts c) request) [
              | none ↦ ran (c', none)
              | some reply ↦ ran (c', read_response reply)
            ]
          ]
        ]
  ]

  module _ (to_json : PushReq → Option Bytes) (from_json : Bytes → Option PushResp) where
    -- `Call`, of the client that is known under the service's name, if there is one; `log_id` is the
    -- number as `uint32`.
    unfoldable pub call_service :
        (log_id : ℕ) → PushReq → Option (Client A) → Ran (Option (Client A) × Option PushResp)
    unfolding do_request
    call_service log_id req none = ran (none, none)
    call_service log_id req (some c) = elim (to_json req) [
      | none ↦ ran (some c, none)
      | some content ↦ elim (do_request (new_request content log_id) c) [
        | panicked ↦ panicked
        | ran (c', answered) ↦ elim answered [
          | none ↦ ran (some c', none)
          | some response ↦ ran (some c', from_json response.body)
        ]
      ]
    ]

module _ {A : Type 0} where
  get_elem?-inside : (xs : List A) (i : ℕ) → i < length xs → (a : A) × (get_elem? xs i ≡ some a)
  get_elem?-inside [] i h = absurd (omega (arith, h))
  get_elem?-inside (x ∷ xs) zero h = (x, refl)
  get_elem?-inside (x ∷ xs) (suc i) h = get_elem?-inside xs i (omega arith)

  -- A selector with some server picks the next one.
  pub pick_server-next :
      (s : RoundRobinSelector A)
      → 0 < length s.servers
      → (a : A) × (get_elem? s.servers ((s.cur_index + 1) % length s.servers) ≡ some a)
        × (pick_server s
            ≡ ran (record s { cur_index = (s.cur_index + 1) % length s.servers }, some a))
  unfolding pick_server
  pick_server-next s h =
      let (a, e) =
        get_elem?-inside s.servers ((s.cur_index + 1) % length s.servers)
          (mod-lt (s.cur_index + 1) h) in
      (a, e, ground (arith, e, h))
