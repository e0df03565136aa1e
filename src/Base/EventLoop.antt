-- ===== src/Base/EventLoop.antt =====
-- xrtc_server/src/base/event_loop.cpp: which events an `IOWatcher` asks libev for.
-- libev is not part of the repository: its watchers and its calls on them are a parameter, with
-- the laws that its manual states of them.
pub mod Interest
pub mod History
pub mod Loop
use dcj_rtc.Prelude.{ℕ, Bool, true, false, not, ◌&&◌, ◌||◌, ◌≡◌, if◌then◌else◌}

-- The bits `READ` and `WRITE` of an event mask. No caller passes another bit.
pub record Mask : Type 0 where
  pub read : Bool
  pub write : Bool

abbrev pub mask : Bool → Bool → Mask
mask r w = record { read = r; write = w }

abbrev pub none_events : Mask
none_events = mask false false

abbrev pub read_events : Mask
read_events = mask true false

abbrev pub write_events : Mask
write_events = mask false true

abbrev pub union : Mask → Mask → Mask
union a b = mask (a.read || b.read) (a.write || b.write)

-- `a & ~b`
abbrev pub without : Mask → Mask → Mask
without a b = mask (a.read && not b.read) (a.write && not b.write)

abbrev pub eq_bit : Bool → Bool → Bool
eq_bit true b = b
eq_bit false b = not b

abbrev pub eq_mask : Mask → Mask → Bool
eq_mask a b = eq_bit a.read b.read && eq_bit a.write b.write

-- What the code uses of libev: `W` is `ev_io` with its loop, `T` is `ev_timer` with its loop.
-- `events` is the mask that `TRANS_FROM_EV_MASK` reads, and `set` is given to `TRANS_TO_EV_MASK`.
pub record Libev (W T : Type 0) : Type 0 where
  pub init : W
  pub is_active : W → Bool
  pub events : W → Mask
  pub watched_fd : W → ℕ
  pub set : W → ℕ → Mask → W
  pub start : W → W
  pub stop : W → W
  pub timer_init : T
  pub timer_active : T → Bool
  pub timer_stop : T → T
  -- `ev_timer_set(t, usec / 1e6, 0)`, and the assignment to the field `repeat`.
  pub timer_set : T → ℕ → T
  pub set_repeat : T → ℕ → T
  pub timer_start : T → T
  pub timer_again : T → T

-- The manual: `start` activates and `stop` deactivates, and neither changes the settings; `set`
-- changes the settings alone; `again` starts a timer that has a repeat value.
pub record IsLibev {W T : Type 0} (ev : Libev W T) : Type 0 where
  pub active-start : (w : W) → ev.is_active (ev.start w) ≡ true
  pub active-stop : (w : W) → ev.is_active (ev.stop w) ≡ false
  pub events-start : (w : W) → ev.events (ev.start w) ≡ ev.events w
  pub events-stop : (w : W) → ev.events (ev.stop w) ≡ ev.events w
  pub events-set : (w : W) (fd : ℕ) (m : Mask) → ev.events (ev.set w fd m) ≡ m
  pub fd-start : (w : W) → ev.watched_fd (ev.start w) ≡ ev.watched_fd w
  pub fd-set : (w : W) (fd : ℕ) (m : Mask) → ev.watched_fd (ev.set w fd m) ≡ fd
  pub init_idle : ev.is_active ev.init ≡ false
  pub timer_active-again :
      (t : T) (usec : ℕ) → ev.timer_active (ev.timer_again (ev.set_repeat t usec)) ≡ true
  pub timer_active-start : (t : T) → ev.timer_active (ev.timer_start t) ≡ true
  pub timer_active-stop : (t : T) → ev.timer_active (ev.timer_stop t) ≡ false

module _ {W T : Type 0} (ev : Libev W T) where
  -- `EventLoop::start_io_event`
  unfoldable pub start_io_event : W → ℕ → Mask → W
  start_io_event w fd m =
      if ev.is_active w
      then (let active_events = ev.events w in
          let new_events = union active_events m in
          if eq_mask new_events active_events
          then w
          else ev.start (ev.set (ev.stop w) fd new_events))
      else ev.start (ev.set w fd m)

  -- `EventLoop::stop_io_event`
  unfoldable pub stop_io_event : W → ℕ → Mask → W
  stop_io_event w fd m =
      let active_events = ev.events w in
      let new_events = without active_events m in
      if eq_mask new_events active_events
      then w
      else if eq_mask new_events none_events
      then ev.stop w
      else ev.start (ev.set (ev.stop w) fd new_events)

  -- `EventLoop::delete_io_event`, up to the `delete` of the watcher.
  unfoldable pub delete_io_event : W → W
  delete_io_event w = ev.stop w

  -- `EventLoop::start_timer`
  unfoldable pub start_timer : (need_repeat : Bool) → T → ℕ → T
  start_timer need_repeat t usec =
      if not need_repeat
      then ev.timer_start (ev.timer_set (ev.timer_stop t) usec)
      else ev.timer_again (ev.set_repeat t usec)

  -- `EventLoop::stop_timer`
  unfoldable pub stop_timer : T → T
  stop_timer t = ev.timer_stop t
