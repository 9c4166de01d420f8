-- ===== src/Examples/Queue.antt =====
-- A run of the scheduled work queue: an object is added, its timer expires and its callback runs.
use cert_manager.Common.{◌≡◌, ◌≢◌, refl, true, none, some, arith, eqb, if◌then◌else◌}
use cert_manager.WorkQueue.Steps.{
  running, Timer, Queue, Steps, here, next, added, tick, expire, start, new_queue, add, finish,
  forget, enter, cancel, new_timer,
}
use cert_manager.WorkQueue.Tracking.{IsTracked, Steps-IsTracked}
use cert_manager.WorkQueue.Cancellation.{forget_stops, add_during_callback-lost}

abbrev scheduled : Queue
scheduled = add "crt" 5 (new_queue 100)

abbrev later : Queue
later = record scheduled { now = 105 }

abbrev first_timer : Timer
first_timer = new_timer "crt" 105

abbrev expired_timer : Timer
expired_timer = record first_timer { expired = true }

abbrev running_timer : Timer
running_timer = record expired_timer { phase = running }

abbrev expired : Queue
expired = record later { timers = λ j. if eqb 0 j then some expired_timer else later.timers j }

abbrev in_callback : Queue
in_callback = record expired {
  timers = λ j. if eqb 0 j then some running_timer else expired.timers j;
}

scheduled-Steps : Steps (new_queue 100) scheduled
scheduled-Steps = next here (added "crt" 5)

in_callback-Steps : Steps (new_queue 100) in_callback
unfolding add forget enter cancel
in_callback-Steps =
    next (next (next scheduled-Steps (tick 5)) (expire 0 first_timer refl refl (omega arith)))
      (start 0 expired_timer refl refl refl)

Steps-IsTracked_example : IsTracked in_callback
Steps-IsTracked_example = Steps-IsTracked 100 in_callback-Steps

forget_stops_example :
    (w : Timer) × ((forget "crt" scheduled).timers 0 ≡ some w) × (w.phase ≢ running)
unfolding add forget enter cancel
forget_stops_example = forget_stops 100 0 first_timer scheduled-Steps refl refl refl here

add_during_callback-lost_example :
    ((finish 0 (record running_timer { cancelled = true }) (add "crt" 7 in_callback)).work "crt"
      ≡ none)
    × ((w : Timer) × ((finish 0
              (record running_timer { cancelled = true })
              (add "crt" 7 in_callback)).timers
            1
          ≡ some w)
        × (w.phase ≢ running))
unfolding add forget enter cancel
add_during_callback-lost_example =
    add_during_callback-lost 100 0 7 running_timer (record running_timer { cancelled = true })
      in_callback-Steps refl refl refl here
