-- ===== src/Watcher/Timer/Laws.antt =====
-- One loop at a time: what starting and stopping guarantee, and where they do not.
use mathlib.Core.List.{Memᴰ}
use interchain_event.Common.{
  ℕ, ◌+◌, ◌-◌, ◌≤◌, ◌<◌, ◌≡◌, ◌⊎◌, inl, inr, refl, Option-cases, true, false, none, some, [], ◌∷◌,
  arith, length,
}
use interchain_event.Watcher.Timer.{
  Timer, Loop, asleep, set_poll_timer, clear, start_watcher, stop_watcher, tick, finish_tick,
}

-- While it runs, the loop is one pending timer, which `stopWatcher` knows, or one poll; a stopped
-- watcher has no timer, and at most the poll that was under way.
pub data IsSingle (l : Loop) : Type 0 where
  waiting :
      (t : Timer)
      → l.running ≡ true
      → l.pending ≡ t ∷ []
      → l.poll_timer ≡ some t.id
      → l.polling ≡ 0
      → IsSingle l
  busy : l.running ≡ true → l.pending ≡ [] → l.polling ≡ 1 → IsSingle l
  stopped : l.running ≡ false → l.pending ≡ [] → l.polling ≤ 1 → IsSingle l

pub IsSingle-le_one : (l : Loop) → IsSingle l → length l.pending + l.polling ≤ 1
IsSingle-le_one l (waiting t r p h n) = rw (p, n) (omega arith)
IsSingle-le_one l (busy r p n) = rw (p, n) (omega arith)
IsSingle-le_one l (stopped r p n) = rw p (omega arith)

-- What the server and the event loop may do next: start, stop, fire a pending timer, finish a poll. A
-- start after a stop while a poll is still under way is the one step left out.
pub data CalmStep (interval : ℕ) : Loop → Loop → Type 0 where
  calm_start :
      {l : Loop} → l.polling ≡ 0 ⊎ (l.running ≡ true) → CalmStep interval l (start_watcher l)
  calm_stop : {l : Loop} → CalmStep interval l (stop_watcher l)
  calm_fire : {l : Loop} (t : Timer) → Memᴰ t l.pending → CalmStep interval l (tick t.id l)
  calm_done : {l : Loop} → 0 < l.polling → CalmStep interval l (finish_tick interval l)

clear_self : (t : Timer) → clear t.id (t ∷ []) ≡ []
unfolding clear
clear_self t = ground arith

start_watcher-IsSingle :
    (l : Loop) → (l.polling ≡ 0) ⊎ (l.running ≡ true) → IsSingle l → IsSingle (start_watcher l)
start_watcher-IsSingle l calm (waiting t r p h n) =
    let same : start_watcher l ≡ l = unfold start_watcher in ground arith in
    rw same (waiting t r p h n)
start_watcher-IsSingle l calm (busy r p n) =
    let same : start_watcher l ≡ l = unfold start_watcher in ground arith in rw same (busy r p n)
start_watcher-IsSingle l calm (stopped r p n) =
    let e : start_watcher l ≡ set_poll_timer 5000 (record l { running = true }) =
      unfold start_watcher in ground arith in
    let idle : l.polling ≡ 0 = ground arith in
    rw e (
      unfold set_poll_timer in
      waiting (record { id = l.next_id; delay = 5000 }) refl (rw p) refl idle)

stop_idle : (l : Loop) → l.pending ≡ [] → l.polling ≤ 1 → IsSingle (stop_watcher l)
stop_idle l p n = elim (Option-cases l.poll_timer) [
  | inl unset ↦
      let e : stop_watcher l ≡ record l { running = false } = unfold stop_watcher in ground arith in
      rw e (stopped refl p n)
  | inr (id, set) ↦
      let e : stop_watcher l
          ≡ record l { running = false; poll_timer = none; pending = clear id l.pending } =
        unfold stop_watcher in ground arith in
      rw e (stopped refl (rw p (unfold clear in refl)) n)
]

only : (t u : Timer) → Memᴰ t (u ∷ []) → t ≡ u
only t u (Memᴰ.head e) = e
only t u (Memᴰ.tail m) = elim m [ ]

not-nil : {t : Timer} → ¬ Memᴰ t []
not-nil m = elim m [ ]

stop_watcher-IsSingle : (l : Loop) → IsSingle l → IsSingle (stop_watcher l)
stop_watcher-IsSingle l (waiting t r p h n) =
    let e : stop_watcher l
        ≡ record l { running = false; poll_timer = none; pending = clear t.id l.pending } =
      unfold stop_watcher in ground arith in
    rw e (stopped refl (rw p (clear_self t)) (omega arith))
stop_watcher-IsSingle l (busy r p n) = stop_idle l p (omega arith)
stop_watcher-IsSingle l (stopped r p n) = stop_idle l p n

tick-IsSingle : (l : Loop) (t : Timer) → Memᴰ t l.pending → IsSingle l → IsSingle (tick t.id l)
tick-IsSingle l t m (waiting t' r p h n) =
    let same : t ≡ t' = only t t' (rw p at m) in
    let e : tick t.id l ≡ record l {
      pending = clear t.id l.pending;
      polling = l.polling + 1;
      polls = l.polls + 1;
    } =
      unfold tick in ground arith in
    rw e (busy r (rw (p, same) (clear_self t')) (omega arith))
tick-IsSingle l t m (busy r p n) = absurd (not-nil (rw p at m))
tick-IsSingle l t m (stopped r p n) = absurd (not-nil (rw p at m))

finish_tick-IsSingle :
    (interval : ℕ) (l : Loop) → 0 < l.polling → IsSingle l → IsSingle (finish_tick interval l)
finish_tick-IsSingle interval l some_poll (waiting t r p h n) = absurd (omega arith)
finish_tick-IsSingle interval l some_poll (busy r p n) =
    let e : finish_tick interval l
        ≡ set_poll_timer interval (record l { polling = l.polling - 1 }) =
      unfold finish_tick in ground arith in
    rw e (
      unfold set_poll_timer in
      waiting (record { id = l.next_id; delay = interval }) r (rw p) refl (omega arith))
finish_tick-IsSingle interval l some_poll (stopped r p n) =
    let e : finish_tick interval l ≡ record l { polling = l.polling - 1 } =
      unfold finish_tick in ground arith in
    rw e (stopped r p (omega arith))

CalmStep-IsSingle : {interval : ℕ} {l l' : Loop} → CalmStep interval l l' → IsSingle l → IsSingle l'
CalmStep-IsSingle (calm_start {l} calm) s = start_watcher-IsSingle l calm s
CalmStep-IsSingle (calm_stop {l}) s = stop_watcher-IsSingle l s
CalmStep-IsSingle (calm_fire {l} t m) s = tick-IsSingle l t m s
CalmStep-IsSingle {interval} (calm_done {l} h) s = finish_tick-IsSingle interval l h s

pub data Run (interval : ℕ) (l : Loop) : Loop → Type 0 where
  here : Run interval l l
  next : {m n : Loop} → Run interval l m → CalmStep interval m n → Run interval l n

Run-IsSingle : {interval : ℕ} {l m : Loop} → Run interval l m → IsSingle l → IsSingle m
Run-IsSingle here s = s
Run-IsSingle (next r c) s = CalmStep-IsSingle c (Run-IsSingle r s)

-- From the server's start on, through any starts, stops, firing timers and ends of polls in any
-- order, as long as a start comes only while the watcher runs or no poll is under way, pending
-- timers and polls under way together are never more than one.
pub Run-le_one :
    (interval : ℕ) (l : Loop) → Run interval asleep l → length l.pending + l.polling ≤ 1
Run-le_one interval l r = IsSingle-le_one l (Run-IsSingle r (stopped refl refl (omega arith)))

stopped_running : (l : Loop) → (stop_watcher l).running ≡ false
unfolding stop_watcher
stopped_running l = ground arith

stopped_pending : (l : Loop) → l.pending ≡ [] → (stop_watcher l).pending ≡ []
unfolding stop_watcher
stopped_pending l p = elim (Option-cases l.poll_timer) [
  | inl unset ↦ ground arith
  | inr (id, set) ↦ let e : clear id l.pending ≡ [] = rw p (unfold clear in refl) in ground arith
]

-- A stop and a start while a poll is under way, and the end of that poll.
abbrev pub restarted : ℕ → Loop → Loop
restarted interval l = finish_tick interval (start_watcher (stop_watcher l))

-- If the watcher runs with one poll under way and no timer pending, then after a stop, a start and
-- the end of that poll it runs with two pending timers.
pub restart_while_polling :
    (interval : ℕ) (l : Loop)
    → l.running ≡ true
    → l.pending ≡ []
    → l.polling ≡ 1
    → ((restarted interval l).running ≡ true) × (length (restarted interval l).pending ≡ 2)
unfolding finish_tick
restart_while_polling interval l r p n =
    let cleared = stopped_pending l p in
    let off = stopped_running l in
    let restarted : (start_watcher (stop_watcher l)).pending
        ≡ record { id = (stop_watcher l).next_id; delay = 5000 } ∷ [] =
      unfold start_watcher in ground arith in
    let on : (start_watcher (stop_watcher l)).running ≡ true =
      unfold start_watcher in ground arith in
    ground arith
