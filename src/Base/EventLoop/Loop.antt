-- ===== src/Base/EventLoop/Loop.antt =====
-- The loop itself in xrtc_server/src/base/event_loop.cpp. Its callers hold an `EventLoop`; libev's own
-- loops are numbers here, and what libev does with one is a list of calls.
use dcj_rtc.Prelude.{ℕ, ℤ, pos, minus_one, ◌≡◌, refl, Option, none, some, List, [], ◌∷◌, ◌++◌}
use dcj_rtc.Base.EventLoop.{Libev, stop_timer}

-- `ev_run`, `ev_break` and `ev_loop_destroy`
pub data LoopCall : Type 0 where
  runs : (loop : ℕ) → LoopCall
  breaks : (loop : ℕ) → LoopCall
  destroys : (loop : ℕ) → LoopCall

-- `_owner` and `_loop`, and the calls made so far.
pub record EventLoop : Type 0 where
  pub owner : ℕ
  pub loop : Option ℕ
  pub calls : List LoopCall

-- The constructor; `ev_loop_new` may fail.
unfoldable pub new_event_loop : (owner : ℕ) (made : Option ℕ) → EventLoop
new_event_loop owner made = record { owner = owner; loop = made; calls = [] }

abbrev on_loop : (ℕ → LoopCall) → EventLoop → EventLoop
on_loop call el = elim el.loop [
  | none ↦ el
  | some l ↦ record el { calls = el.calls ++ (call l ∷ []) }
]

-- The destructor.
unfoldable pub destroy_event_loop : EventLoop → EventLoop
destroy_event_loop el = on_loop destroys el

-- `init`, with what `ev_default_loop` gives.
unfoldable pub init_event_loop : (default_loop : Option ℕ) → EventLoop → ℤ × EventLoop
init_event_loop default_loop el = elim default_loop [
  | none ↦ (minus_one, record el { loop = none })
  | some l ↦ (pos 0, record el { loop = some l })
]

-- `start` and `stop`
unfoldable pub start_loop : EventLoop → EventLoop
start_loop el = on_loop runs el

unfoldable pub stop_loop : EventLoop → EventLoop
stop_loop el = on_loop breaks el

module _ {W T : Type 0} (ev : Libev W T) where
  -- `create_io_event` and `create_timer`: new structs that libev has initialised. Whether a timer
  -- repeats is kept with it.
  abbrev pub create_io_event : W
  create_io_event = ev.init

  abbrev pub create_timer : T
  create_timer = ev.timer_init

  -- `delete_timer`, up to the `delete` of the watcher.
  unfoldable pub delete_timer : T → T
  unfolding stop_timer
  delete_timer t = stop_timer ev t

-- Without `init`, the loop that the constructor made is the one that the destructor destroys. After
-- `init` it is not: the loop that the constructor made is destroyed by no call.
pub init_event_loop-leaks :
    (owner made other : ℕ)
    → ((destroy_event_loop (new_event_loop owner (some made))).calls ≡ destroys made ∷ [])
      × ((destroy_event_loop
            (init_event_loop (some other) (new_event_loop owner (some made))).1).calls
          ≡ destroys other ∷ [])
unfolding destroy_event_loop init_event_loop new_event_loop
init_event_loop-leaks owner made other = (refl, refl)
