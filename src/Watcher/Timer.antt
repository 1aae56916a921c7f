-- ===== src/Watcher/Timer.antt =====
-- `startWatcher`, its `tick` and `stopWatcher` (frontend/server/utils/watcher.ts) over the event loop:
-- timers that are pending, and ticks that wait for their `pollOnce`.
pub mod Laws
use interchain_event.Common.{
  ℕ, ◌+◌, ◌-◌, ◌<◌, Bool, true, false, not, Option, none, some, List, [], ◌∷◌, ◌==◌, filter,
  if◌then◌else◌,
}

pub record Timer : Type 0 where
  pub id : ℕ
  pub delay : ℕ

-- `poll_timer` is the module's variable: it keeps a timer's id after the timer has fired.
pub record Loop : Type 0 where
  pub running : Bool
  pub poll_timer : Option ℕ
  pub pending : List Timer
  pub next_id : ℕ
  pub polling : ℕ
  pub polls : ℕ

abbrev pub asleep : Loop
asleep = record {
  running = false;
  poll_timer = none;
  pending = [];
  next_id = 0;
  polling = 0;
  polls = 0;
}

-- `pollTimer = setTimeout(tick, delay)`
unfoldable pub set_poll_timer : ℕ → Loop → Loop
set_poll_timer delay l = record l {
  poll_timer = some l.next_id;
  pending = record { id = l.next_id; delay = delay } ∷ l.pending;
  next_id = l.next_id + 1;
}

-- `clearTimeout(id)`: an id that is not pending changes nothing.
unfoldable pub clear : ℕ → List Timer → List Timer
clear id pending = filter (λ t. not (t.id == id)) pending

unfoldable pub start_watcher : Loop → Loop
unfolding set_poll_timer
start_watcher l = if l.running then l else set_poll_timer 5000 (record l { running = true })

unfoldable pub stop_watcher : Loop → Loop
unfolding clear
stop_watcher l = elim l.poll_timer [
  | none ↦ record l { running = false }
  | some id ↦ record l { running = false; poll_timer = none; pending = clear id l.pending }
]

-- A timer fires: `tick` runs up to its `await`.
unfoldable pub tick : ℕ → Loop → Loop
unfolding clear
tick id l =
    if l.running
    then record l { pending = clear id l.pending; polling = l.polling + 1; polls = l.polls + 1 }
    else record l { pending = clear id l.pending }

-- `pollOnce` is done, and `tick` runs to its end.
unfoldable pub finish_tick : ℕ → Loop → Loop
unfolding set_poll_timer
finish_tick interval l =
    let l' = record l { polling = l.polling - 1 } in
    if l.running then set_poll_timer interval l' else l'
