-- ===== src/WorkQueue/Tracking.antt =====
-- What holds of a queue of pkg/scheduler/scheduler.go whatever its callers, timers and goroutines do.
use cert_manager.Common.{
  ℕ, ◌+◌, ◌≤◌, String, true, false, Option, none, some, ◌≡◌, refl, eq_iff, eq_refl, eqb, arith,
  Bool-cases, Option-cases, ==-cases, inl, inr, ap,
}
use cert_manager.WorkQueue.Steps.{
  waiting, running, finished, Timer, Queue, update, update_work, stopped, cancel, forget, enter,
  add, finish, new_timer, Step, tick, added, forgotten, expire, start, quit, end, Steps, here, next,
  new_queue,
}

-- Every timer in the map is that of its object and is not cancelled; every timer that waits and is not
-- cancelled is in the map, so an object has one at most; a timer has expired only when it was due, and
-- its callback runs only after that.
pub record IsTracked (s : Queue) : Type 0 where
  pub fresh : (id : ℕ) → s.count ≤ id → s.timers id ≡ none
  pub held :
      (obj : String) (id : ℕ)
      → s.work obj ≡ some id
      → (t : Timer) × (s.timers id ≡ some t) × (t.obj ≡ obj) × (t.cancelled ≡ false)
  pub live :
      (id : ℕ) (t : Timer)
      → s.timers id ≡ some t
      → t.phase ≡ waiting
      → t.cancelled ≡ false
      → s.work t.obj ≡ some id
  pub in_time : (id : ℕ) (t : Timer) → s.timers id ≡ some t → t.expired ≡ true → t.due ≤ s.now
  pub started : (id : ℕ) (t : Timer) → s.timers id ≡ some t → t.phase ≡ running → t.expired ≡ true

new-IsTracked : (now : ℕ) → IsTracked (new_queue now)
new-IsTracked now = record {
  fresh = λ id h. refl;
  held = λ obj id h. cc;
  live = λ id t h p q. cc;
  in_time = λ id t h e. cc;
  started = λ id t h e. cc;
}

-- One timer is replaced by a later state of it, with the map as it was.
module _ (s : Queue) (v : IsTracked s) (id : ℕ) (t t' : Timer) (h : s.timers id ≡ some t)
    (same : t'.obj ≡ t.obj) (as_due : t'.due ≡ t.due) (as_cancelled : t'.cancelled ≡ t.cancelled)
    (in_time' : t'.expired ≡ true → t.due ≤ s.now) (waits : t'.phase ≡ waiting → t.phase ≡ waiting)
    (started' : t'.phase ≡ running → t'.expired ≡ true) where
  replaced : Queue
  replaced = record s { timers = update s.timers id (some t') }

  replace-held :
      (obj : String) (i : ℕ)
      → s.work obj ≡ some i
      → (u : Timer) × (replaced.timers i ≡ some u) × (u.obj ≡ obj) × (u.cancelled ≡ false)
  unfolding replaced
  replace-held obj i e =
      let (u, u_e, u_obj, u_live) = v.held obj i e in
      elim (Bool-cases (eqb id i)) [
        | inl eq ↦
            let is : id ≡ i = ground arith in
            (t', rw eq, ground (arith, ap s.timers is), ground (arith, ap s.timers is))
        | inr ne ↦ (u, rw ne u_e, u_obj, u_live)
      ]

  replace-IsTracked : IsTracked replaced
  unfolding replaced
  replace-IsTracked = record {
    fresh = λ i c. ground (arith, v.fresh i c, v.fresh id);
    held = replace-held;
    live = λ i u e p c. ground (arith, v.live i u, v.live id t h);
    in_time = λ i u e x. ground (arith, v.in_time i u);
    started = λ i u e p. ground (arith, v.started i u);
  }

pub eqb_eq : (i j : ℕ) → eqb i j ≡ true → i ≡ j
eqb_eq i j e = ground arith

pub forgets-none : (obj : String) (s : Queue) → s.work obj ≡ none → forget obj s ≡ s
unfolding forget
forgets-none obj s e = rw (e, forget)

-- The queue after Forget of an object that has a timer.
abbrev pub without : String → ℕ → Timer → Queue → Queue
without obj id t s = record s {
  timers = update s.timers id (some (record t { cancelled = true }));
  work = update_work s.work obj none;
}

pub forgets-some :
    (obj : String) (id : ℕ) (t : Timer) (s : Queue)
    → s.work obj ≡ some id
    → s.timers id ≡ some t
    → forget obj s ≡ without obj id t s
unfolding forget cancel
forgets-some obj id t s e h =
    rw (e, forget)
      (ap
        (λ (o : Option Timer). record s {
          timers = update s.timers id (stopped o);
          work = update_work s.work obj none;
        })
        h)

without-IsTracked :
    (obj : String) (id : ℕ) (t : Timer) (s : Queue)
    → s.work obj ≡ some id
    → s.timers id ≡ some t
    → t.obj ≡ obj
    → IsTracked s
    → IsTracked (without obj id t s)
without-IsTracked obj id t s e t_e t_obj v = record {
  fresh = λ i c. ground (arith, v.fresh i c, v.fresh id);
  held = λ o i w. elim (==-cases obj o) [
    | inl eq ↦ absurd (ground (arith, eq_iff obj o))
    | inr ne ↦
        let w' : s.work o ≡ some i = ground arith in
        let (u, u_e, u_obj, u_live) = v.held o i w' in
        (u, ground (arith, eq_iff obj o), u_obj, u_live)
  ];
  live = λ i u f p c. ground (arith, eq_iff obj u.obj, v.live i u);
  in_time = λ i u f x. ground (arith, v.in_time i u, v.in_time id t t_e);
  started = λ i u f p. ground (arith, v.started i u, v.started id t t_e);
}

pub forget-IsTracked : (obj : String) (s : Queue) → IsTracked s → IsTracked (forget obj s)
forget-IsTracked obj s v = elim (Option-cases (s.work obj)) [
  | inl e ↦ rw (forgets-none obj s e) v
  | inr (id, e) ↦
      let (t, t_e, t_obj, t_live) = v.held obj id e in
      rw (forgets-some obj id t s e t_e) (without-IsTracked obj id t s e t_e t_obj v)
]

pub forget-free : (obj : String) (s : Queue) → (forget obj s).work obj ≡ none
unfolding forget cancel
forget-free obj s = elim (Option-cases (s.work obj)) [
  | inl e ↦ rw (forgets-none obj s e) e
  | inr (id, e) ↦ rw (e, forget) (rw (eq_refl obj))
]

enter-IsTracked :
    (obj : String) (duration : ℕ) (s : Queue)
    → s.work obj ≡ none
    → IsTracked s
    → IsTracked (enter obj duration s)
unfolding enter
enter-IsTracked obj duration s free v = record {
  fresh = λ i c. ground (arith, v.fresh i);
  held = λ o i w. elim (==-cases obj o) [
    | inl eq ↦ (new_timer obj (s.now + duration), ground (arith, eq_iff obj o), eq, refl)
    | inr ne ↦
        let w' : s.work o ≡ some i = ground arith in
        let (u, u_e, u_obj, u_live) = v.held o i w' in (u, ground (arith, v.fresh i), u_obj, u_live)
  ];
  live = λ i u f p c. ground (arith, eq_iff obj u.obj, v.live i u);
  in_time = λ i u f x. ground (arith, v.in_time i u);
  started = λ i u f p. ground (arith, v.started i u);
}

pub add-IsTracked :
    (obj : String) (duration : ℕ) (s : Queue) → IsTracked s → IsTracked (add obj duration s)
unfolding add
add-IsTracked obj duration s v =
    enter-IsTracked obj duration (forget obj s) (forget-free obj s) (forget-IsTracked obj s v)

-- What Forget leaves of a timer.
pub forget-keeps :
    (obj : String) (id : ℕ) (t : Timer) (s : Queue)
    → s.timers id ≡ some t
    → IsTracked s
    → (u : Timer) × ((forget obj s).timers id ≡ some u)
      × (u.obj ≡ t.obj)
      × (u.due ≡ t.due)
      × (u.expired ≡ t.expired)
      × (u.phase ≡ t.phase)
forget-keeps obj id t s h v = elim (Option-cases (s.work obj)) [
  | inl e ↦ rw (forgets-none obj s e) (t, h, refl, refl, refl, refl)
  | inr (i, e) ↦
      let (w, w_e, w_obj, w_live) = v.held obj i e in
      rw (forgets-some obj i w s e w_e) (elim (Bool-cases (eqb i id)) [
        | inl eq ↦
            let same : some w ≡ some t = ground (arith, ap s.timers (eqb_eq i id eq)) in
            (record w { cancelled = true }, rw eq, cc, cc, cc, cc)
        | inr ne ↦ (t, rw ne h, refl, refl, refl, refl)
      ])
]

-- A goroutine ends; its object has no timer.
ended-IsTracked :
    (id : ℕ) (u t : Timer) (s : Queue)
    → s.timers id ≡ some u
    → u.obj ≡ t.obj
    → u.due ≡ t.due
    → u.expired ≡ t.expired
    → s.work t.obj ≡ none
    → IsTracked s
    → IsTracked (record s {
      timers = update s.timers id (some (record t { cancelled = true; phase = finished }));
    })
ended-IsTracked id u t s h o d x free v = record {
  fresh = λ i c. ground (arith, v.fresh i c, v.fresh id);
  held = λ obj i w.
      let (k, k_e, k_obj, k_live) = v.held obj i w in
      elim (Bool-cases (eqb id i)) [
        | inl eq ↦
            let same : some k ≡ some u = ground (arith, ap s.timers (eqb_eq id i eq)) in absurd (cc)
        | inr ne ↦ (k, rw ne k_e, k_obj, k_live)
      ];
  live = λ i k f p c. ground (arith, v.live i k);
  in_time = λ i k f e. ground (arith, v.in_time i k, v.in_time id u h);
  started = λ i k f p. ground (arith, v.started i k);
}

finish-IsTracked :
    (id : ℕ) (t : Timer) (s : Queue)
    → s.timers id ≡ some t
    → IsTracked s
    → IsTracked (finish id t s)
unfolding finish
finish-IsTracked id t s h v =
    let (u, u_e, o, d, x, p) = forget-keeps t.obj id t s h v in
    ended-IsTracked id u t (forget t.obj s) u_e o d x (forget-free t.obj s)
      (forget-IsTracked t.obj s v)

pub Step-IsTracked : {s u : Queue} → Step s u → IsTracked s → IsTracked u
unfolding replaced
Step-IsTracked {s} (tick d) v = record {
  fresh = v.fresh;
  held = v.held;
  live = v.live;
  in_time = λ id t h e. omega (arith, v.in_time id t h e);
  started = v.started;
}
Step-IsTracked {s} (added obj duration) v = add-IsTracked obj duration s v
Step-IsTracked {s} (forgotten obj) v = forget-IsTracked obj s v
Step-IsTracked {s} (expire id t h c d) v =
    replace-IsTracked s v id t (record t { expired = true }) h refl refl refl (λ e. d) (λ p. p)
      (λ p. refl)
Step-IsTracked {s} (start id t h p e) v =
    replace-IsTracked s v id t (record t { phase = running }) h refl refl refl (v.in_time id t h)
      (λ q. cc) (λ q. e)
Step-IsTracked {s} (quit id t h p c) v =
    replace-IsTracked s v id t (record t { phase = finished }) h refl refl refl (v.in_time id t h)
      (λ q. cc) (λ q. cc)
Step-IsTracked {s} (end id t h p) v = finish-IsTracked id t s h v

-- In every state that a new queue can reach, whatever is added and forgotten and however the clock and
-- the goroutines take turns: a timer in the map is that of its object and is not cancelled, a timer
-- that waits and is not cancelled is the one in the map for its object, and a callback runs only for a
-- timer that has expired, which was then due.
pub Steps-IsTracked : (now : ℕ) {s : Queue} → Steps (new_queue now) s → IsTracked s
Steps-IsTracked now here = new-IsTracked now
Steps-IsTracked now (next r st) = Step-IsTracked st (Steps-IsTracked now r)
