-- ===== src/WorkQueue/Cancellation.antt =====
-- What Forget and the end of a callback cancel in the queue of pkg/scheduler/scheduler.go.
use cert_manager.Common.{
  ℕ, ◌+◌, String, true, false, Option, none, some, ◌≡◌, ◌≢◌, refl, sym, ◌∙◌, eqb, arith, Bool-cases,
  Option-cases, inl, inr, ap,
}
use cert_manager.WorkQueue.Steps.{
  waiting, running, finished, Timer, Queue, update, forget, enter, add, finish, new_timer, Step,
  tick, added, forgotten, expire, start, quit, end, Steps, here, next, new_queue,
}
use cert_manager.WorkQueue.Tracking.{
  IsTracked, Steps-IsTracked, forgets-none, forgets-some, forget-IsTracked, add-IsTracked,
  forget-free, forget-keeps, eqb_eq, Step-IsTracked,
}

-- A timer that will not run: it was cancelled before it expired.
pub record IsDead (id : ℕ) (s : Queue) : Type 0 where
  pub timer : Timer
  pub there : s.timers id ≡ some timer
  pub cancelled : timer.cancelled ≡ true
  pub unexpired : timer.expired ≡ false
  pub idle : timer.phase ≢ running

-- Another timer is written, or none.
other-IsDead :
    (id i : ℕ) (o : Option Timer) (s : Queue)
    → eqb i id ≡ false
    → IsDead id s
    → IsDead id (record s { timers = update s.timers i o })
other-IsDead id i o s ne d = record {
  timer = d.timer;
  there = rw ne d.there;
  cancelled = d.cancelled;
  unexpired = d.unexpired;
  idle = d.idle;
}

forget-IsDead :
    (id : ℕ) (obj : String) (s : Queue) → IsTracked s → IsDead id s → IsDead id (forget obj s)
forget-IsDead id obj s v d = elim (Option-cases (s.work obj)) [
  | inl e ↦ rw (forgets-none obj s e) d
  | inr (i, e) ↦
      let (t, t_e, t_obj, t_live) = v.held obj i e in
      rw (forgets-some obj i t s e t_e) (elim (Bool-cases (eqb i id)) [
        | inl eq ↦
            let same : some t ≡ some d.timer =
              ground (arith, ap s.timers (eqb_eq i id eq), d.there) in
            absurd (ground (arith, d.cancelled))
        | inr ne ↦ record {
          timer = d.timer;
          there = rw ne d.there;
          cancelled = d.cancelled;
          unexpired = d.unexpired;
          idle = d.idle;
        }
      ])
]

enter-IsDead :
    (id : ℕ) (obj : String) (duration : ℕ) (s : Queue)
    → IsTracked s
    → IsDead id s
    → IsDead id (enter obj duration s)
unfolding enter
enter-IsDead id obj duration s v d = record {
  timer = d.timer;
  there = ground (arith, v.fresh id, d.there);
  cancelled = d.cancelled;
  unexpired = d.unexpired;
  idle = d.idle;
}

-- A step of another timer, or of this one if nothing lets it expire.
step-IsDead : {s u : Queue} (id : ℕ) → Step s u → IsTracked s → IsDead id s → IsDead id u
unfolding add finish
step-IsDead id (tick k) v d = record {
  timer = d.timer;
  there = d.there;
  cancelled = d.cancelled;
  unexpired = d.unexpired;
  idle = d.idle;
}
step-IsDead {s} id (added obj duration) v d =
    enter-IsDead id obj duration (forget obj s) (forget-IsTracked obj s v)
      (forget-IsDead id obj s v d)
step-IsDead {s} id (forgotten obj) v d = forget-IsDead id obj s v d
step-IsDead {s} id (expire i t h c _) v d = elim (Bool-cases (eqb i id)) [
  | inl eq ↦
      let same : some t ≡ some d.timer = ground (arith, ap s.timers (eqb_eq i id eq), d.there) in
      absurd (ground (arith, d.cancelled))
  | inr ne ↦ other-IsDead id i _ s ne d
]
step-IsDead {s} id (start i t h p e) v d = elim (Bool-cases (eqb i id)) [
  | inl eq ↦
      let same : some t ≡ some d.timer = ground (arith, ap s.timers (eqb_eq i id eq), d.there) in
      absurd (ground (arith, d.unexpired))
  | inr ne ↦ other-IsDead id i _ s ne d
]
step-IsDead {s} id (quit i t h p c) v d = elim (Bool-cases (eqb i id)) [
  | inl eq ↦
      let same : some t ≡ some d.timer = ground (arith, ap s.timers (eqb_eq i id eq), d.there) in
      record {
        timer = record t { phase = finished };
        there = rw eq;
        cancelled = c;
        unexpired = ground (arith, d.unexpired);
        idle = λ q. cc;
      }
  | inr ne ↦ other-IsDead id i _ s ne d
]
step-IsDead {s} id (end i t h p) v d = elim (Bool-cases (eqb i id)) [
  | inl eq ↦
      let same : some t ≡ some d.timer = ground (arith, ap s.timers (eqb_eq i id eq), d.there) in
      absurd (d.idle (ground arith))
  | inr ne ↦ other-IsDead id i _ (forget t.obj s) ne (forget-IsDead id t.obj s v d)
]

Steps-IsDead :
    {s u : Queue} (id : ℕ) → IsTracked s → IsDead id s → Steps s u → IsTracked u × IsDead id u
Steps-IsDead id v d here = (v, d)
Steps-IsDead id v d (next r st) =
    let (v', d') = Steps-IsDead id v d r in (Step-IsTracked st v', step-IsDead id st v' d')

-- A timer of the object that waits and has not expired is dead once the object is forgotten.
forget_own-IsDead :
    (id : ℕ) (t : Timer) (s : Queue)
    → IsTracked s
    → s.timers id ≡ some t
    → t.phase ≡ waiting
    → t.expired ≡ false
    → IsDead id (forget t.obj s)
forget_own-IsDead id t s v h p x = elim (Bool-cases t.cancelled) [
  | inl c ↦
      forget-IsDead id t.obj s v
        (record { timer = t; there = h; cancelled = c; unexpired = x; idle = λ q. cc })
  | inr c ↦ rw (forgets-some t.obj id t s (v.live id t h p c) h) (record {
    timer = record t { cancelled = true };
    there = ground arith;
    cancelled = refl;
    unexpired = x;
    idle = λ q. cc;
  })
]

-- In every state that a new queue can reach, once Forget is called for an object, a timer of that
-- object that waits and has not expired never runs its callback, whatever steps follow.
pub forget_stops :
    (now : ℕ) {s u : Queue} (id : ℕ) (t : Timer)
    → Steps (new_queue now) s
    → s.timers id ≡ some t
    → t.phase ≡ waiting
    → t.expired ≡ false
    → Steps (forget t.obj s) u
    → (w : Timer) × (u.timers id ≡ some w) × (w.phase ≢ running)
forget_stops now {s} id t r h p x more =
    let v = Steps-IsTracked now r in
    let dead =
      Steps-IsDead id (forget-IsTracked t.obj s v) (forget_own-IsDead id t s v h p x) more in
    (dead.1.timer, dead.1.there, dead.1.idle)

count-forget : (obj : String) (s : Queue) → IsTracked s → (forget obj s).count ≡ s.count
count-forget obj s v = elim (Option-cases (s.work obj)) [
  | inl e ↦ rw (forgets-none obj s e)
  | inr (i, e) ↦
      let (t, t_e, t_obj, t_live) = v.held obj i e in
      ap (λ (q : Queue). q.count) (forgets-some obj i t s e t_e)
]

-- What Add leaves: the new timer, and any other with its object and its phase.
added_timer :
    (obj : String) (duration : ℕ) (s : Queue)
    → IsTracked s
    → (due : ℕ) × ((add obj duration s).timers s.count ≡ some (new_timer obj due))
unfolding add enter
added_timer obj duration s v = ((forget obj s).now + duration, ground (arith, count-forget obj s v))

running_after_add :
    (obj : String) (duration id : ℕ) (t t' : Timer) (s : Queue)
    → IsTracked s
    → s.timers id ≡ some t
    → (add obj duration s).timers id ≡ some t'
    → (t'.obj ≡ t.obj) × (t'.phase ≡ t.phase) × (eqb id s.count ≡ false)
unfolding add enter
running_after_add obj duration id t t' s v h h' =
    let older : eqb id s.count ≡ false = ground (arith, v.fresh id) in
    let older' : eqb s.count id ≡ false = ground arith in
    let (k, k_e, o, d, x, p) = forget-keeps obj id t s h v in
    let new : eqb (forget obj s).count id ≡ false = rw (count-forget obj s v) older' in
    let same : some k ≡ some t' = sym k_e ∙ ground arith in (cc, cc, older)

-- In every state that a new queue can reach in which the callback of a timer runs: if the object of
-- that timer is added again, for any duration, and the callback then ends, the object is no longer in
-- the map and the new timer never runs its callback, whatever steps follow.
pub add_during_callback-lost :
    (now : ℕ) {s u : Queue} (id duration : ℕ) (t t' : Timer)
    → Steps (new_queue now) s
    → s.timers id ≡ some t
    → t.phase ≡ running
    → (add t.obj duration s).timers id ≡ some t'
    → Steps (finish id t' (add t.obj duration s)) u
    → ((finish id t' (add t.obj duration s)).work t.obj ≡ none)
      × ((w : Timer) × (u.timers s.count ≡ some w) × (w.phase ≢ running))
unfolding finish
add_during_callback-lost now {s} {u} id duration t t' r h p h' more =
    let v = Steps-IsTracked now r in
    let s' = add t.obj duration s in
    let v' = add-IsTracked t.obj duration s v in
    let (o, ph, older) = running_after_add t.obj duration id t t' s v h h' in
    let (due, new_e) = added_timer t.obj duration s v in
    let dead : IsDead s.count (forget t'.obj s') =
      rw o (forget_own-IsDead s.count (new_timer t.obj due) s' v' new_e refl refl) in
    let after =
      Steps-IsDead s.count (Step-IsTracked (end id t' h' (ph ∙ p)) v')
        (other-IsDead s.count id (some (record t' { cancelled = true; phase = finished }))
          (forget t'.obj s') older dead)
        more in
    (rw o (forget-free t.obj s'), (after.1.timer, after.1.there, after.1.idle))
