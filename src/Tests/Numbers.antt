-- ===== src/Tests/Numbers.antt =====
-- Doubles, their texts and the blocks of heights at concrete inputs.
use interchain_event.Common.{◌≡◌, refl, false, some, ◌++◌, ◌^◌}
use interchain_event.Common.Order.{lt_wf}
use native.Mathlib.Decide.{dec_lt}
use interchain_event.Js.Text.{Text, text}
use interchain_event.Js.Double.{spacing, nearest, to_double}
use interchain_event.Js.Number.{to_digits, digit, to_text, parse_int}
use interchain_event.Js.Number.Shown.{near, shorten, shortest, trim_zeros, mantissa, number_text}
use interchain_event.Watcher.Fetch.{neutron_rpc, block_url, no_app_hash}
use interchain_event.Watcher.NextBlock.{block_url-script_block_url}
use interchain_event.Tests.Data.{down}
use interchain_event.Scripts.Proof.{script_rpc, script_block_url}

rounds_down : parse_int 10 (text "9007199254740993") ≡ some (false, 9007199254740992)
unfolding parse_int text to_double spacing nearest
rounds_down = refl

shown_shortest : number_text (2 ^ 60) ≡ text "1152921504606847000"
unfolding number_text text to_text to_digits digit shortest shorten near to_double spacing nearest
    lt_wf dec_lt
shown_shortest = refl

shown_exponent : number_text (2 ^ 70) ≡ text "1.1805916207174113e+21"
unfolding number_text text to_text to_digits digit shortest shorten near to_double spacing nearest
    lt_wf dec_lt trim_zeros mantissa
shown_exponent = refl

shown_power : number_text (10 ^ 21) ≡ text "1e+21"
unfolding number_text text to_text to_digits digit shortest shorten near to_double spacing nearest
    lt_wf dec_lt trim_zeros mantissa
shown_power = refl

block_url-script_block_url_example :
    (shown : Text) × (block_url (some (false, 41))
      ≡ neutron_rpc ++ (text "/block?height=" ++ shown))
    × (script_block_url (some (false, 41)) ≡ script_rpc ++ (text "/block?height=" ++ shown))
    × (no_app_hash down (some (false, 41)) ≡ text "Failed to fetch app_hash for block " ++ shown)
    × (parse_int 10 shown ≡ some (false, 42))
block_url-script_block_url_example = block_url-script_block_url down 41 refl
