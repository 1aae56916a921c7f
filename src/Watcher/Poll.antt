-- ===== src/Watcher/Poll.antt =====
-- `fetchActiveSubscriptions` and `pollOnce` of frontend/server/utils/watcher.ts.
use interchain_event.Common.{Option, none, some, List, [], ◌∷◌, ◌++◌, filter, if◌then◌else◌}
use interchain_event.Js.Text.{Text, text}
use interchain_event.Watcher.Types.{Subscription, error, is_active}
use interchain_event.Watcher.Condition.{Engine}
use interchain_event.Watcher.Machine.{
  Services, ok, M, ◌>>=◌, ◌>>◌, return, try, modify, call, add_event,
}
use interchain_event.Watcher.Fetch.{is_empty}
use interchain_event.Watcher.Process.{process_subscription, unit}

abbrev pub or_nil : Option (List Subscription) → List Subscription
or_nil none = []
or_nil (some subs) = subs

module _ (services : Services) where
  -- The client is let go in both cases, which shows nowhere.
  unfoldable pub fetch_active_subscriptions : M (List Subscription)
  unfolding is_active
  fetch_active_subscriptions = do
    call services.connect
    subs ← call (λ n. services.list_subscriptions n 100)
    return (filter is_active (or_nil subs))

  unfoldable pub refresh : M (List Subscription)
  unfolding fetch_active_subscriptions
  refresh = do
    subs ← fetch_active_subscriptions
    modify (λ s. record s { subscriptions = subs })
    time ← call (λ n. ok (services.now n))
    modify (λ s. record s { last_check = some time; error = none })
    return subs

  -- The `catch` block.
  unfoldable pub poll_error : Text → M (Unit {0})
  poll_error message = do
    modify (λ s. record s { error = some message })
    add_event services 0 error (text "Poll error: " ++ message) none

module _ (services : Services) (engine : Engine) where
  unfoldable pub process_all : List Subscription → Text → M (Unit {0})
  process_all [] mnemonic = return unit
  process_all (sub ∷ subs) mnemonic = do
    process_subscription services engine sub mnemonic
    process_all subs mnemonic

  abbrev pub read_only_error : Text
  read_only_error = text "WATCHER_MNEMONIC not set — watching in read-only mode"

  unfoldable pub process_fetched : Option Text → List Subscription → M (Unit {0})
  process_fetched mnemonic [] = return unit
  process_fetched none (sub ∷ subs) = modify (λ s. record s { error = some read_only_error })
  process_fetched (some mnemonic) (sub ∷ subs) =
      if is_empty mnemonic
      then modify (λ s. record s { error = some read_only_error })
      else process_all (sub ∷ subs) mnemonic

  unfoldable pub poll_once : Option Text → M (Unit {0})
  poll_once mnemonic =
      try (do subs ← refresh services; process_fetched mnemonic subs) (poll_error services)
