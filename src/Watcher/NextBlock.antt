-- ===== src/Watcher/NextBlock.antt =====
-- The block that `fetchAppHash` asks for, the watcher's (frontend/server/utils/watcher.ts) and the
-- script's (scripts/proof.ts).
use interchain_event.Common.{ℕ, ◌+◌, ◌^◌, ◌≡◌, ◌∙◌, ap, true, false, some, ◌++◌, ltb}
use interchain_event.Js.Text.{Text, text}
use interchain_event.Js.Double.{to_double_exact}
use interchain_event.Js.Number.{to_text, parse_int}
use interchain_event.Js.Number.Shown.{number_text_exact}
use interchain_event.Js.Number.Decimal.{parse_int-to_text}
use interchain_event.Watcher.Machine.{Services, next_height, whole_text}
use interchain_event.Watcher.Fetch.{neutron_rpc, block_url, no_app_hash}
use interchain_event.Scripts.Proof.{script_rpc, script_block_url}

whole_text-next_height :
    (n : ℕ)
    → ltb (n + 1) (2 ^ 53) ≡ true
    → whole_text (next_height (some (false, n))) ≡ to_text (n + 1)
unfolding whole_text next_height
whole_text-next_height n low =
    ap (λ (x : ℕ). whole_text (some (false, x))) (to_double_exact (n + 1) low)
    ∙ number_text_exact (n + 1) low

-- For a height whose next one is below 2 ^ 53, the block URLs of the watcher and of the script are
-- their nodes' addresses, `/block?height=` and one text, which `parseInt` reads as the next
-- height; and the watcher's error when no app hash came ends with the same text.
pub block_url-script_block_url :
    (services : Services) (n : ℕ)
    → ltb (n + 1) (2 ^ 53) ≡ true
    → (shown : Text) × (block_url (some (false, n))
        ≡ neutron_rpc ++ (text "/block?height=" ++ shown))
      × (script_block_url (some (false, n)) ≡ script_rpc ++ (text "/block?height=" ++ shown))
      × (no_app_hash services (some (false, n))
          ≡ text "Failed to fetch app_hash for block " ++ shown)
      × (parse_int 10 shown ≡ some (false, n + 1))
unfolding block_url script_block_url no_app_hash
block_url-script_block_url services n low =
    let same = whole_text-next_height n low in
    (
      to_text (n + 1),
      ap (λ (t : Text). neutron_rpc ++ (text "/block?height=" ++ t)) same,
      ap (λ (t : Text). script_rpc ++ (text "/block?height=" ++ t)) same,
      ap (λ (t : Text). text "Failed to fetch app_hash for block " ++ t) same,
      parse_int-to_text (n + 1) low,
    )
