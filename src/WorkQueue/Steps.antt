-- ===== src/WorkQueue/Steps.antt =====
-- The scheduledWorkQueue of pkg/scheduler/scheduler.go as a step relation: the callers of Add and Forget,
-- the clock and one goroutine for each timer (afterFunc) take steps in any order. An object is its key. Add
-- and Forget hold the lock and are one step each; the Forget and the cancel that end a goroutine are one
-- step too, since the second touches only the goroutine's own timer, which is no longer in the map.
use cert_manager.Common.{
  ℕ, ◌+◌, ◌≤◌, String, Bool, true, false, Option, none, some, ◌≡◌, ◌==◌, eqb, if◌then◌else◌,
}

-- Where the goroutine of a timer is: at its select, in the callback, or at its end.
pub data Phase : Type 0 where
  waiting running finished : Phase

-- `expired`: the timer's channel has its value; `cancelled`: `cancel` was called.
pub record Timer : Type 0 where
  pub obj : String
  pub due : ℕ
  pub expired : Bool
  pub cancelled : Bool
  pub phase : Phase

-- The timers made so far are those below `count`.
pub record Queue : Type 0 where
  pub now : ℕ
  pub count : ℕ
  pub timers : ℕ → Option Timer
  pub work : String → Option ℕ

abbrev pub update : (ℕ → Option Timer) → ℕ → Option Timer → ℕ → Option Timer
update f i t j = if eqb i j then t else f j

abbrev pub update_work : (String → Option ℕ) → String → Option ℕ → String → Option ℕ
update_work f k v j = if k == j then v else f j

abbrev pub stopped : Option Timer → Option Timer
stopped none = none
stopped (some t) = some (record t { cancelled = true })

-- `cancel` of one timer: it stops the timer and closes the channel.
unfoldable pub cancel : ℕ → Queue → Queue
cancel id s = record s { timers = update s.timers id (stopped (s.timers id)) }

-- Forget
unfoldable pub forget : String → Queue → Queue
unfolding cancel
forget obj s = elim (s.work obj) [
  | none ↦ s
  | some id ↦ cancel id (record s { work = update_work s.work obj none })
]

abbrev pub new_timer : String → ℕ → Timer
new_timer obj due = record {
  obj = obj;
  due = due;
  expired = false;
  cancelled = false;
  phase = Phase.waiting;
}

-- Add, once the timer that was there is cancelled.
unfoldable pub enter : String → ℕ → Queue → Queue
enter obj duration s = record s {
  count = s.count + 1;
  timers = update s.timers s.count (some (new_timer obj (s.now + duration)));
  work = update_work s.work obj (some s.count);
}

unfoldable pub add : String → ℕ → Queue → Queue
unfolding forget enter
add obj duration s = enter obj duration (forget obj s)

-- The end of a goroutine that ran its callback: the deferred Forget and cancel.
unfoldable pub finish : ℕ → Timer → Queue → Queue
unfolding forget
finish id t s =
    let s' = forget t.obj s in
    record s' {
      timers = update s'.timers id (some (record t { cancelled = true; phase = Phase.finished }));
    }

pub data Step (s : Queue) : Queue → Type 0 where
  tick : (d : ℕ) → Step s (record s { now = s.now + d })
  added : (obj : String) (duration : ℕ) → Step s (add obj duration s)
  forgotten : (obj : String) → Step s (forget obj s)
  -- The timer's channel gets its value.
  expire :
      (id : ℕ) (t : Timer)
      → s.timers id ≡ some t
      → t.cancelled ≡ false
      → t.due ≤ s.now
      → Step s (record s { timers = update s.timers id (some (record t { expired = true })) })
  -- The select takes the timer's channel, or the other one; either if both are ready.
  start :
      (id : ℕ) (t : Timer)
      → s.timers id ≡ some t
      → t.phase ≡ Phase.waiting
      → t.expired ≡ true
      → Step s
          (record s { timers = update s.timers id (some (record t { phase = Phase.running })) })
  quit :
      (id : ℕ) (t : Timer)
      → s.timers id ≡ some t
      → t.phase ≡ Phase.waiting
      → t.cancelled ≡ true
      → Step s
          (record s { timers = update s.timers id (some (record t { phase = Phase.finished })) })
  end :
      (id : ℕ) (t : Timer) → s.timers id ≡ some t → t.phase ≡ Phase.running → Step s (finish id t s)

pub data Steps (s : Queue) : Queue → Type 0 where
  here : Steps s s
  next : {t u : Queue} → Steps s t → Step t u → Steps s u

abbrev pub new_queue : ℕ → Queue
new_queue now = record { now = now; count = 0; timers = λ i. none; work = λ k. none }
