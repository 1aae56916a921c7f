-- ===== src/Tests/Watcher.antt =====
-- Values and the timer at concrete inputs.
use mathlib.Core.List.{Memᴰ}
use interchain_event.Common.{◌+◌, ◌≤◌, ◌<◌, ◌≡◌, refl, true, some, [], ◌∷◌, arith, length, inl}
use interchain_event.Js.Text.{text}
use interchain_event.Js.Base64.{atob}
use interchain_event.Codec.Hex.{Bytes}
use interchain_event.Watcher.Timer.{Loop, asleep, start_watcher, tick, finish_tick}
use interchain_event.Watcher.Timer.Laws.{
  Run, here, next, calm_start, calm_fire, calm_done, Run-le_one, restarted, restart_while_polling,
}

abbrev stored : Bytes
stored = 1 ∷ 2 ∷ 3 ∷ []

decoded : atob (text "AQID") ≡ some stored
unfolding text atob
decoded = refl

-- A start, the first tick and the end of its poll.
abbrev on : Loop
on = start_watcher asleep

abbrev polling : Loop
polling = tick 0 on

abbrev again : Loop
again = finish_tick 30000 polling

first_pending : Memᴰ (record { id = 0; delay = 5000 }) on.pending
unfolding start_watcher
first_pending = Memᴰ.head refl

poll_open : 0 < polling.polling
unfolding start_watcher tick
poll_open = omega arith

once : Run 30000 asleep again
once =
    next
      (next (next here (calm_start (inl refl)))
        (calm_fire (record { id = 0; delay = 5000 }) first_pending))
      (calm_done poll_open)

Run-le_one_example : length again.pending + again.polling ≤ 1
Run-le_one_example = Run-le_one 30000 again once

abbrev mid_poll : Loop
mid_poll = record asleep {
  running = true;
  poll_timer = some 0;
  next_id = 1;
  polling = 1;
  polls = 1;
}

restart_while_polling_example :
    ((restarted 30000 mid_poll).running ≡ true) × (length (restarted 30000 mid_poll).pending ≡ 2)
restart_while_polling_example = restart_while_polling 30000 mid_poll refl refl refl
