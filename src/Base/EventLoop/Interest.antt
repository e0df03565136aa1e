-- ===== src/Base/EventLoop/Interest.antt =====
-- The events that a watcher asks for, under `start_io_event` and `stop_io_event`.
use dcj_rtc.Prelude.{ℕ, Bool, true, false, ◌≡◌, ◌≢◌, arith, if◌then◌else◌}
use dcj_rtc.Base.EventLoop.{
  Mask, none_events, union, without, eq_mask, Libev, IsLibev, start_io_event, stop_io_event,
  start_timer, stop_timer,
}

module _ {W T : Type 0} (ev : Libev W T) where
  -- What the loop reports for the watcher: nothing while it is inactive.
  abbrev pub interest : W → Mask
  interest w = if ev.is_active w then ev.events w else none_events

pub eq_mask→eq : (a b : Mask) → eq_mask a b ≡ true → a ≡ b
eq_mask→eq a b h = ground arith

module _ {W T : Type 0} (ev : Libev W T) (laws : IsLibev ev) where
  -- Starting adds the events to those that are watched, whatever the watcher did before.
  pub interest-start_io_event :
      (w : W) (fd : ℕ) (m : Mask) → interest ev (start_io_event ev w fd m) ≡ union (interest ev w) m
  unfolding start_io_event
  interest-start_io_event w fd m = ground (
    arith,
    laws.active-start (ev.set w fd m),
    laws.events-start (ev.set w fd m),
    laws.events-set w fd m,
    laws.active-start (ev.set (ev.stop w) fd (union (ev.events w) m)),
    laws.events-start (ev.set (ev.stop w) fd (union (ev.events w) m)),
    laws.events-set (ev.stop w) fd (union (ev.events w) m),
  )

  -- Stopping takes the events away from an active watcher, and leaves the others watched.
  pub interest-stop_io_event :
      (w : W) (fd : ℕ) (m : Mask)
      → ev.is_active w ≡ true
      → interest ev (stop_io_event ev w fd m) ≡ without (interest ev w) m
  unfolding stop_io_event
  interest-stop_io_event w fd m active = ground (
    arith,
    laws.active-stop w,
    laws.active-start (ev.set (ev.stop w) fd (without (ev.events w) m)),
    laws.events-start (ev.set (ev.stop w) fd (without (ev.events w) m)),
    laws.events-set (ev.stop w) fd (without (ev.events w) m),
  )

  -- On an inactive watcher whose settings hold more than `m` and some of `m`, stopping starts it with
  -- the rest.
  pub stop_io_event_starts :
      (w : W) (fd : ℕ) (m : Mask)
      → ev.is_active w ≡ false
      → without (ev.events w) m ≢ ev.events w
      → without (ev.events w) m ≢ none_events
      → interest ev (stop_io_event ev w fd m) ≡ without (ev.events w) m
  unfolding stop_io_event
  stop_io_event_starts w fd m idle some_of more = ground (
    arith,
    eq_mask→eq (without (ev.events w) m) (ev.events w),
    eq_mask→eq (without (ev.events w) m) none_events,
    laws.active-start (ev.set (ev.stop w) fd (without (ev.events w) m)),
    laws.events-start (ev.set (ev.stop w) fd (without (ev.events w) m)),
    laws.events-set (ev.stop w) fd (without (ev.events w) m),
  )

  -- A started timer runs, and a stopped one does not, for both kinds of timer.
  pub start_timer-stop_timer :
      (need_repeat : Bool) (t : T) (usec : ℕ)
      → (ev.timer_active (start_timer ev need_repeat t usec) ≡ true)
        × (ev.timer_active (stop_timer ev (start_timer ev need_repeat t usec)) ≡ false)
  unfolding start_timer stop_timer
  start_timer-stop_timer true t usec = (laws.timer_active-again t usec, laws.timer_active-stop _)
  start_timer-stop_timer false t usec = (laws.timer_active-start _, laws.timer_active-stop _)

  -- An active watcher stays active, with the settings that its interest shows.
  pub active-start_io_event :
      (w : W) (fd : ℕ) (m : Mask)
      → ev.is_active w ≡ true
      → (ev.is_active (start_io_event ev w fd m) ≡ true)
        × (ev.events (start_io_event ev w fd m) ≡ union (ev.events w) m)
  unfolding start_io_event
  active-start_io_event w fd m active = ground (
    arith,
    eq_mask→eq (union (ev.events w) m) (ev.events w),
    laws.active-start (ev.set (ev.stop w) fd (union (ev.events w) m)),
    laws.events-start (ev.set (ev.stop w) fd (union (ev.events w) m)),
    laws.events-set (ev.stop w) fd (union (ev.events w) m),
  )

  pub active-stop_io_event :
      (w : W) (fd : ℕ) (m : Mask)
      → ev.is_active w ≡ true
      → without (ev.events w) m ≢ none_events
      → (ev.is_active (stop_io_event ev w fd m) ≡ true)
        × (ev.events (stop_io_event ev w fd m) ≡ without (ev.events w) m)
  unfolding stop_io_event
  active-stop_io_event w fd m active some_left = ground (
    arith,
    eq_mask→eq (without (ev.events w) m) (ev.events w),
    eq_mask→eq (without (ev.events w) m) none_events,
    laws.active-start (ev.set (ev.stop w) fd (without (ev.events w) m)),
    laws.events-start (ev.set (ev.stop w) fd (without (ev.events w) m)),
    laws.events-set (ev.stop w) fd (without (ev.events w) m),
  )
