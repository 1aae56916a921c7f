-- ===== src/Watcher/Process.antt =====
-- `processSubscription` of frontend/server/utils/watcher.ts.
use interchain_event.Common.{none, some, ◌++◌, take, if◌then◌else◌}
use interchain_event.Js.Text.{Text, text}
use interchain_event.Js.Number.{to_text}
use interchain_event.Js.Utf8.{text_decode}
use interchain_event.Js.Base64.{atob}
use interchain_event.Codec.Hex.{bytes_to_hex}
use interchain_event.Watcher.Types.{Subscription, check, condition_met, error}
use interchain_event.Watcher.Condition.{Engine, check_condition}
use interchain_event.Watcher.Machine.{
  Services, whole_text, M, ◌>>=◌, ◌>>◌, return, try, lift, add_event,
}
use interchain_event.Watcher.Fetch.{ProofResult, fetch_state_with_proof, is_empty, bad_base64}
use interchain_event.Watcher.Submit.{sign_and_submit}

abbrev pub unit : Unit {0}
unit = tt

module _ (services : Services) (engine : Engine) where
  -- The `try` block from the condition check on.
  unfoldable pub submit_if_met : Subscription → Text → ProofResult → M (Unit {0})
  submit_if_met sub mnemonic proof =
      if check_condition engine sub.condition proof.value
      then (do
        add_event services sub.id condition_met
            (text "Condition met at height "
              ++ (whole_text proof.height ++ text "! Submitting proof..."))
            none
        sign_and_submit services sub.id mnemonic proof
        return unit)
      else add_event services sub.id check
          (text "Condition not met (value: " ++ (take 80 (text_decode proof.value) ++ text "...)"))
          none

  unfoldable pub check_and_submit : Subscription → Text → Text → M (Unit {0})
  check_and_submit sub mnemonic key_hex = do
    found ← fetch_state_with_proof services key_hex
    elim found [
      | none ↦ add_event services sub.id check (text "Key not found on remote chain") none
      | some proof ↦ submit_if_met sub mnemonic proof
    ]

  -- The `catch` block.
  unfoldable pub report_error : Subscription → Text → M (Unit {0})
  report_error sub message = add_event services sub.id error (text "Error: " ++ message) none

  unfoldable pub skip_subscription : Subscription → M (Unit {0})
  skip_subscription sub =
      add_event services sub.id check
        (text "Subscription " ++ (to_text sub.id ++ text ": no watch_key, skipping")) none

  -- The key is decoded before the `try` block: a watch key that is no base64 is thrown on.
  unfoldable pub process_watched : Subscription → Text → M (Unit {0})
  process_watched sub mnemonic = do
    watch_key_bytes ← lift bad_base64 (atob sub.watch_key)
    add_event services sub.id check
        (text "Checking subscription "
          ++ (to_text sub.id
              ++ (text " (condition: " ++ (services.stringify sub.condition ++ text ")"))))
        none
    try (check_and_submit sub mnemonic (bytes_to_hex watch_key_bytes)) (report_error sub)

  unfoldable pub process_subscription : Subscription → Text → M (Unit {0})
  process_subscription sub mnemonic =
      if is_empty sub.watch_key then skip_subscription sub else process_watched sub mnemonic
