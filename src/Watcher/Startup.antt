-- ===== src/Watcher/Startup.antt =====
-- frontend/server/api/watcher/status.get.ts and frontend/server/plugins/watcher.ts.
use interchain_event.Common.{ℕ}
use interchain_event.Watcher.Types.{WatcherState}
use interchain_event.Watcher.Timer.{Loop, start_watcher, finish_tick}

-- A copy of the module's state.
unfoldable pub get_watcher_state : WatcherState → WatcherState
get_watcher_state state = record {
  running = state.running;
  subscriptions = state.subscriptions;
  events = state.events;
  last_check = state.last_check;
  error = state.error;
}

unfoldable pub status_handler : WatcherState → WatcherState
unfolding get_watcher_state
status_handler state = get_watcher_state state

abbrev pub plugin_interval : ℕ
plugin_interval = 30000

-- The started loop, and how its polls end from then on.
unfoldable pub watcher_plugin : Loop → Loop × (Loop → Loop)
watcher_plugin l = (start_watcher l, finish_tick plugin_interval)
