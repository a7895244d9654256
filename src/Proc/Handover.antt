-- ===== src/Proc/Handover.antt =====
-- `sleep` and `wakeup` of kernel/proc.c, statement by statement: a process that waits for an event under a
-- lock `lk`, and one that brings the event about.
use os_lab.Base.{
  ℕ, ◌≡◌, ◌≢◌, ◌⊎◌, inl, inr, refl, sym, subst, ◌∙◌, arith, Bool, true, false, false≢true, not,
  ◌&&◌, ◌||◌, ==-ne,
}
use os_lab.Proc.{running, is_sleeping, is_runnable, Proc, set_state, woken}
use os_lab.Proc.Lifecycle.{asleep_on}

-- Where the process that waits is, in `acquire(lk); while (!event) sleep(chan, lk);`: before its `acquire`
-- of `lk`, at the test, and in `sleep` before it takes `p->lock`, before it releases `lk`, before it writes
-- to `p`, within `sched`, and before it tidies up. Behind the loop it is `through`.
pub data SleeperAt : Type 0 where
  outside at_test called handing writing in_sched resumed through : SleeperAt

-- Where the other process is, in `acquire(lk); event = 1; wakeup(chan); release(lk);`: before the `acquire`,
-- before the event, before `wakeup` takes `p->lock`, with `p->lock`, behind `wakeup`, and at the end.
-- Of the rounds of `wakeup` only the one for the process that waits matters here.
pub data WakerAt : Type 0 where
  before locked posted visiting behind finished : WakerAt

-- Whether `lk` and `p->lock` are held, whether the event is there, the process, and the two places.
pub data Moment : Type 0 where
  moment : (lk plock event : Bool) → Proc → SleeperAt → WakerAt → Moment

module _ (chan i self : ℕ) where
  -- A statement of the one or the other. `sched` gives `p->lock` back, and the scheduler takes it before it
  -- runs the process again.
  pub data Move : Moment → Moment → Type 0 where
    acquires :
        (l e : Bool) (p : Proc) (w : WakerAt)
        → Move (moment false l e p outside w) (moment true l e p at_test w)
    goes_on :
        (k l : Bool) (p : Proc) (w : WakerAt)
        → Move (moment k l true p at_test w) (moment k l true p through w)
    calls :
        (k l : Bool) (p : Proc) (w : WakerAt)
        → Move (moment k l false p at_test w) (moment k l false p called w)
    takes :
        (k e : Bool) (p : Proc) (w : WakerAt)
        → Move (moment k false e p called w) (moment k true e p handing w)
    hands :
        (k l e : Bool) (p : Proc) (w : WakerAt)
        → Move (moment k l e p handing w) (moment false l e p writing w)
    sleeps :
        (k l e : Bool) (p : Proc) (w : WakerAt)
        → Move (moment k l e p writing w) (moment k false e (asleep_on chan p) in_sched w)
    runs :
        (k e : Bool) (p : Proc) (w : WakerAt)
        → is_runnable p.state ≡ true
        → Move (moment k false e p in_sched w) (moment k true e (set_state running p) resumed w)
    tidies :
        (k l e : Bool) (p : Proc) (w : WakerAt)
        → Move (moment k l e p resumed w) (moment k false e (record p { chan = 0 }) outside w)
    locks :
        (l e : Bool) (p : Proc) (s : SleeperAt)
        → Move (moment false l e p s before) (moment true l e p s locked)
    posts :
        (k l e : Bool) (p : Proc) (s : SleeperAt)
        → Move (moment k l e p s locked) (moment k l true p s posted)
    visits :
        (k e : Bool) (p : Proc) (s : SleeperAt)
        → Move (moment k false e p s posted) (moment k true e p s visiting)
    wakes :
        (k l e : Bool) (p : Proc) (s : SleeperAt)
        → Move (moment k l e p s visiting) (moment k false e (woken self chan i p) s behind)
    unlocks :
        (k l e : Bool) (p : Proc) (s : SleeperAt)
        → Move (moment k l e p s behind) (moment false l e p s finished)

  pub data Run (m : Moment) : Moment → Type 0 where
    at_start : Run m m
    moves : (a b : Moment) → Run m a → Move a b → Run m b

  s_lk : SleeperAt → Bool
  s_lk at_test = true
  s_lk called = true
  s_lk handing = true
  s_lk through = true
  s_lk _ = false

  s_plock : SleeperAt → Bool
  s_plock handing = true
  s_plock writing = true
  s_plock resumed = true
  s_plock _ = false

  w_lk : WakerAt → Bool
  w_lk before = false
  w_lk finished = false
  w_lk _ = true

  w_plock : WakerAt → Bool
  w_plock visiting = true
  w_plock _ = false

  has_posted : WakerAt → Bool
  has_posted before = false
  has_posted locked = false
  has_posted _ = true

  has_visited : WakerAt → Bool
  has_visited behind = true
  has_visited finished = true
  has_visited _ = false

  -- The process has found no event and has not given `lk` up yet.
  is_late : SleeperAt → Bool
  is_late called = true
  is_late handing = true
  is_late _ = false

  is_writing : SleeperAt → Bool
  is_writing writing = true
  is_writing _ = false

  is_in_sched : SleeperAt → Bool
  is_in_sched in_sched = true
  is_in_sched _ = false

  is_allowed : SleeperAt → WakerAt → Bool
  is_allowed s w =
      not (s_lk s && w_lk w)
      && (not (s_plock s && w_plock w)
          && (not (is_late s && has_posted w) && not (is_writing s && has_visited w)))

  -- The locks are with who holds them, and a process that sleeps has not been visited yet.
  record IsSafe (k l e : Bool) (p : Proc) (s : SleeperAt) (w : WakerAt) : Type 0 where
    allowed : is_allowed s w ≡ true
    lk : k ≡ (s_lk s || w_lk w)
    plock : l ≡ (s_plock s || w_plock w)
    event : e ≡ has_posted w
    place : is_sleeping p.state ≡ true → is_in_sched s ≡ true
    unvisited : is_sleeping p.state ≡ true → has_visited w ≡ false
    channel : is_sleeping p.state ≡ true → p.chan ≡ chan
    waits : is_in_sched s ≡ true → (is_sleeping p.state || is_runnable p.state) ≡ true

  abbrev Safe : Moment → Type 0
  Safe (moment k l e p s w) = IsSafe k l e p s w

  visited-posted : (w : WakerAt) → has_visited w ≡ true → has_posted w ≡ true
  unfolding has_visited has_posted
  visited-posted before h = h
  visited-posted locked h = h
  visited-posted posted h = refl
  visited-posted visiting h = refl
  visited-posted behind h = refl
  visited-posted finished h = refl

  late-lk : (s : SleeperAt) → is_late s ≡ true → s_lk s ≡ true
  unfolding is_late s_lk
  late-lk outside h = h
  late-lk at_test h = refl
  late-lk called h = refl
  late-lk handing h = refl
  late-lk writing h = h
  late-lk in_sched h = h
  late-lk resumed h = h
  late-lk through h = refl

  writing-plock : (s : SleeperAt) → is_writing s ≡ true → s_plock s ≡ true
  unfolding is_writing s_plock
  writing-plock outside h = h
  writing-plock at_test h = h
  writing-plock called h = h
  writing-plock handing h = refl
  writing-plock writing h = refl
  writing-plock in_sched h = h
  writing-plock resumed h = refl
  writing-plock through h = h

  module _ (apart : i ≢ self) where
    Move-Safe : (a b : Moment) → Move a b → Safe a → Safe b
    unfolding is_allowed s_lk s_plock w_lk w_plock has_posted has_visited is_late is_writing
        is_in_sched woken
    Move-Safe a b (acquires l e p w) v = ground (
      arith,
      v.allowed,
      v.lk,
      v.plock,
      v.event,
      v.place,
      v.unvisited,
      v.channel,
      v.waits,
      visited-posted w,
    )
    Move-Safe a b (goes_on k l p w) v = ground (
      arith,
      v.allowed,
      v.lk,
      v.plock,
      v.event,
      v.place,
      v.unvisited,
      v.channel,
      v.waits,
      visited-posted w,
    )
    Move-Safe a b (calls k l p w) v = ground (
      arith,
      v.allowed,
      v.lk,
      v.plock,
      v.event,
      v.place,
      v.unvisited,
      v.channel,
      v.waits,
      visited-posted w,
    )
    Move-Safe a b (takes k e p w) v = ground (
      arith,
      v.allowed,
      v.lk,
      v.plock,
      v.event,
      v.place,
      v.unvisited,
      v.channel,
      v.waits,
      visited-posted w,
    )
    Move-Safe a b (hands k l e p w) v = ground (
      arith,
      v.allowed,
      v.lk,
      v.plock,
      v.event,
      v.place,
      v.unvisited,
      v.channel,
      v.waits,
      visited-posted w,
    )
    Move-Safe a b (sleeps k l e p w) v = ground (
      arith,
      v.allowed,
      v.lk,
      v.plock,
      v.event,
      v.place,
      v.unvisited,
      v.channel,
      v.waits,
      visited-posted w,
    )
    Move-Safe a b (runs k e p w ready) v = ground (
      arith,
      v.allowed,
      v.lk,
      v.plock,
      v.event,
      v.place,
      v.unvisited,
      v.channel,
      v.waits,
      visited-posted w,
    )
    Move-Safe a b (tidies k l e p w) v = ground (
      arith,
      v.allowed,
      v.lk,
      v.plock,
      v.event,
      v.place,
      v.unvisited,
      v.channel,
      v.waits,
      visited-posted w,
    )
    Move-Safe a b (locks l e p s) v = ground (
      arith,
      v.allowed,
      v.lk,
      v.plock,
      v.event,
      v.place,
      v.unvisited,
      v.channel,
      v.waits,
      late-lk s,
      writing-plock s,
    )
    Move-Safe a b (posts k l e p s) v = ground (
      arith,
      v.allowed,
      v.lk,
      v.plock,
      v.event,
      v.place,
      v.unvisited,
      v.channel,
      v.waits,
      late-lk s,
      writing-plock s,
    )
    Move-Safe a b (visits k e p s) v = ground (
      arith,
      v.allowed,
      v.lk,
      v.plock,
      v.event,
      v.place,
      v.unvisited,
      v.channel,
      v.waits,
      late-lk s,
      writing-plock s,
    )
    Move-Safe a b (unlocks k l e p s) v = ground (
      arith,
      v.allowed,
      v.lk,
      v.plock,
      v.event,
      v.place,
      v.unvisited,
      v.channel,
      v.waits,
      late-lk s,
      writing-plock s,
    )
    Move-Safe a b (wakes k l e p s) v = ground (
      arith,
      v.allowed,
      v.lk,
      v.plock,
      v.event,
      v.place,
      v.unvisited,
      v.channel,
      v.waits,
      late-lk s,
      writing-plock s,
      ==-ne i self apart,
    )

    Run-Safe : (m m' : Moment) → Run m m' → Safe m → Safe m'
    Run-Safe m m' at_start v = v
    Run-Safe m m' (moves a b run step) v = Move-Safe a m' step (Run-Safe m a run v)

    start-Safe :
        (p : Proc) → is_sleeping p.state ≡ false → Safe (moment false false false p outside before)
    unfolding is_allowed s_lk s_plock w_lk w_plock has_posted has_visited is_late is_writing
        is_in_sched
    start-Safe p up = record {
      allowed = refl;
      lk = refl;
      plock = refl;
      event = refl;
      place = λ z. ground (arith, up);
      unvisited = λ z. refl;
      channel = λ z. absurd (false≢true (sym up ∙ z));
      waits = λ z. absurd (false≢true z);
    }

    -- Behind the other process's last statement, the one that waits can go on.
    next_move :
        (k l e : Bool) (p : Proc) (s : SleeperAt)
        → IsSafe k l e p s finished
        → (s ≡ through) ⊎ ((m : Moment) × Move (moment k l e p s finished) m)
    unfolding is_allowed s_lk s_plock w_lk w_plock has_posted has_visited is_late is_writing
        is_in_sched
    next_move k l e p outside v = inr (
      moment true l e p at_test finished,
      subst (λ k. Move (moment k l e p outside finished) (moment true l e p at_test finished))
          (sym v.lk) (acquires l e p finished),
    )
    next_move k l e p at_test v = inr (
      moment k l true p through finished,
      subst (λ e. Move (moment k l e p at_test finished) (moment k l true p through finished))
          (sym v.event) (goes_on k l p finished),
    )
    next_move k l e p called v = absurd (false≢true v.allowed)
    next_move k l e p handing v = absurd (false≢true v.allowed)
    next_move k l e p writing v = absurd (false≢true v.allowed)
    next_move k l e p in_sched v =
        let ready : is_runnable p.state ≡ true = ground (arith, v.waits refl, v.unvisited) in
        inr (
          moment k true e (set_state running p) resumed finished,
          subst
              (λ l.
                Move (moment k l e p in_sched finished)
                  (moment k true e (set_state running p) resumed finished))
              (sym v.plock) (runs k e p finished ready),
        )
    next_move k l e p resumed v =
        inr (moment k false e (record p { chan = 0 }) outside finished, tidies k l e p finished)
    next_move k l e p through v = inl refl

    -- No wakeup is lost. A process in slot `i`, awake at first, waits for an event in a loop around `sleep`,
    -- and another process brings the event about under the same lock and then calls `wakeup` of the channel.
    -- In whatever order the statements of the two have been run, once the other has run all of its own, the
    -- process is not asleep, and it is behind its loop or has a next statement that it can run.
    pub Run-awake :
        (k l e : Bool) (p p' : Proc) (s : SleeperAt)
        → is_sleeping p.state ≡ false
        → Run (moment false false false p outside before) (moment k l e p' s finished)
        → (is_sleeping p'.state ≡ false)
          × ((s ≡ through) ⊎ ((m : Moment) × Move (moment k l e p' s finished) m))
    unfolding has_visited
    Run-awake k l e p p' s up run =
        let v =
          Run-Safe (moment false false false p outside before) (moment k l e p' s finished) run
            (start-Safe p up) in
        (ground (arith, v.unvisited), next_move k l e p' s v)
