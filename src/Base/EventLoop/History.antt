-- ===== src/Base/EventLoop/History.antt =====
-- A watcher of xrtc_server/src/base/event_loop.cpp over its life: the calls that start and stop one
-- event at a time, as all callers do.
use dcj_rtc.Prelude.{
  ℕ, true, false, ◌≡◌, refl, ◌∙◌, List, [], ◌∷◌, ◌⊎◌, inl, inr, ◌&&◌, arith, Bool-cases, ap,
}
use dcj_rtc.Base.EventLoop.{
  Mask, read_events, write_events, union, without, Libev, IsLibev, start_io_event, stop_io_event,
}
use dcj_rtc.Base.EventLoop.Interest.{interest, interest-start_io_event, interest-stop_io_event}

pub data IoEvent : Type 0 where
  input output : IoEvent

abbrev pub mask_of : IoEvent → Mask
mask_of input = read_events
mask_of output = write_events

pub data Call : Type 0 where
  starts : IoEvent → Call
  stops : IoEvent → Call

-- What is watched, as a set of events.
abbrev pub watched : Mask → List Call → Mask
watched m [] = m
watched m (starts e ∷ calls) = watched (union m (mask_of e)) calls
watched m (stops e ∷ calls) = watched (without m (mask_of e)) calls

module _ {W T : Type 0} (ev : Libev W T) where
  unfoldable pub run_calls : (fd : ℕ) → W → List Call → W
  run_calls fd w [] = w
  run_calls fd w (starts e ∷ calls) = run_calls fd (start_io_event ev w fd (mask_of e)) calls
  run_calls fd w (stops e ∷ calls) = run_calls fd (stop_io_event ev w fd (mask_of e)) calls

  -- A watcher that is not active has not the settings for both events.
  abbrev IsSettled : W → Type 0
  IsSettled w = (ev.is_active w ≡ true) ⊎ (((ev.events w).read && (ev.events w).write) ≡ false)

module _ {W T : Type 0} (ev : Libev W T) (laws : IsLibev ev) where
  start-IsSettled : (w : W) (fd : ℕ) (m : Mask) → ev.is_active (start_io_event ev w fd m) ≡ true
  unfolding start_io_event
  start-IsSettled w fd m = ground (
    arith,
    laws.active-start (ev.set w fd m),
    laws.active-start (ev.set (ev.stop w) fd (union (ev.events w) m)),
  )

  stop-idle :
      (w : W) (fd : ℕ) (e : IoEvent)
      → ev.is_active w ≡ false
      → ((ev.events w).read && (ev.events w).write) ≡ false
      → (ev.is_active (stop_io_event ev w fd (mask_of e)) ≡ false)
        × (ev.events (stop_io_event ev w fd (mask_of e)) ≡ ev.events w)
  unfolding stop_io_event
  stop-idle w fd input idle small = ground (arith, laws.active-stop w, laws.events-stop w)
  stop-idle w fd output idle small = ground (arith, laws.active-stop w, laws.events-stop w)

  -- A call that stops a watcher leaves it the settings for the one event.
  stop-settings :
      (w : W) (fd : ℕ) (e : IoEvent)
      → ev.is_active w ≡ true
      → ev.is_active (stop_io_event ev w fd (mask_of e)) ≡ false
      → ((ev.events (stop_io_event ev w fd (mask_of e))).read
          && (ev.events (stop_io_event ev w fd (mask_of e))).write)
        ≡ false
  unfolding stop_io_event
  stop-settings w fd input active idle = ground (
    arith,
    laws.events-stop w,
    laws.active-start (ev.set (ev.stop w) fd (without (ev.events w) read_events)),
  )
  stop-settings w fd output active idle = ground (
    arith,
    laws.events-stop w,
    laws.active-start (ev.set (ev.stop w) fd (without (ev.events w) write_events)),
  )

  stop-IsSettled :
      (w : W) (fd : ℕ) (e : IoEvent)
      → ev.is_active w ≡ true
      → IsSettled ev (stop_io_event ev w fd (mask_of e))
  stop-IsSettled w fd e active =
      elim (Bool-cases (ev.is_active (stop_io_event ev w fd (mask_of e)))) [
        | inl stays ↦ inl stays
        | inr idle ↦ inr (stop-settings w fd e active idle)
      ]

  stop-nothing :
      (w : W) (fd : ℕ) (e : IoEvent)
      → ev.is_active w ≡ false
      → IsSettled ev w
      → IsSettled ev (stop_io_event ev w fd (mask_of e))
        × (interest ev (stop_io_event ev w fd (mask_of e)) ≡ without (interest ev w) (mask_of e))
  stop-nothing w fd e idle (inl active) = cc
  stop-nothing w fd e idle (inr small) =
      let (idle', same) = stop-idle w fd e idle small in
      (inr (rw same small), ground (arith, idle', idle))

  interest-calls :
      (calls : List Call) (fd : ℕ) (w : W)
      → IsSettled ev w
      → interest ev (run_calls ev fd w calls) ≡ watched (interest ev w) calls
  unfolding run_calls
  interest-calls [] fd w s = refl
  interest-calls (starts e ∷ calls) fd w s =
      interest-calls calls fd _ (inl (start-IsSettled w fd (mask_of e)))
      ∙ ap (λ m. watched m calls) (interest-start_io_event ev laws w fd (mask_of e))
  interest-calls (stops e ∷ calls) fd w s = elim (Bool-cases (ev.is_active w)) [
    | inl active ↦
        interest-calls calls fd _ (stop-IsSettled w fd e active)
        ∙ ap (λ m. watched m calls) (interest-stop_io_event ev laws w fd (mask_of e) active)
    | inr idle ↦
        let (s', none) = stop-nothing w fd e idle s in
        interest-calls calls fd _ s' ∙ ap (λ m. watched m calls) none
  ]

  -- Whatever the calls, what the loop reports for a watcher is what was started and not stopped since.
  -- The watcher is created and then started for one event, and each call is for one event.
  pub interest-run_calls :
      (e : IoEvent) (calls : List Call) (fd : ℕ)
      → interest ev (run_calls ev fd (start_io_event ev ev.init fd (mask_of e)) calls)
        ≡ watched (mask_of e) calls
  interest-run_calls e calls fd =
      interest-calls calls fd _ (inl (start-IsSettled ev.init fd (mask_of e)))
      ∙ ap (λ m. watched m calls)
          (interest-start_io_event ev laws ev.init fd (mask_of e) ∙ ground (arith, laws.init_idle))
