-- ===== src/Watcher/Condition/Laws.antt =====
-- What `checkCondition` answers for an `equals` condition.
use interchain_event.Common.{◌≡◌, ◌↔◌, true, some, arith}
use interchain_event.Js.Text.{Text, text_eq_iff}
use interchain_event.Js.Utf8.Ascii.{IsAscii, text_decode-ascii}
use interchain_event.Js.Base64.{atob}
use interchain_event.Codec.Hex.{Bytes}
use interchain_event.Watcher.Types.{equals}
use interchain_event.Watcher.Condition.{Engine, check_equals, check_condition}

module _ (engine : Engine) where
  -- If the expected text of an `equals` condition is base64 for some bytes, `checkCondition`
  -- accepts a value of ASCII bytes exactly when the value is those bytes.
  pub check_equals_iff :
      (expected : Text) (bytes value : Bytes)
      → atob expected ≡ some bytes
      → IsAscii value
      → (check_condition engine (equals expected) value ≡ true) ↔ (value ≡ bytes)
  unfolding check_condition check_equals
  check_equals_iff expected bytes value decoded ascii =
      ground (arith, text_decode-ascii value ascii, text_eq_iff value bytes)
