-- ===== src/Tests/Polls.antt =====
-- Polls, submissions and retries at concrete inputs.
use mathlib.Core.List.{foldl}
use interchain_event.Common.{◌≡◌, refl, some, [], ◌∷◌, arith, inl, false}
use interchain_event.Js.Text.{text}
use interchain_event.Js.Base64.{atob}
use interchain_event.Watcher.Machine.{Machine, ok, threw}
use interchain_event.Watcher.Fetch.{ProofResult, no_app_hash, fetch_app_hash}
use interchain_event.Watcher.Submit.{submit_proof_for_subscription}
use interchain_event.Watcher.Process.{process_subscription}
use interchain_event.Watcher.Poll.{process_all, poll_once}
use interchain_event.Watcher.Logic.{Advances}
use interchain_event.Watcher.Safety.{Served, Carries}
use interchain_event.Watcher.PollSafety.{Reported, poll_once-Advances}
use interchain_event.Watcher.Manual.{IsMet, submit_proof_for_subscription-Advances}
use interchain_event.Watcher.Isolation.{HasReadableKey, process_all-eq}
use interchain_event.Watcher.Retry.{later, fetch_app_hash_exhausted}
use interchain_event.Watcher.Api.{
  Body, Requested, submit_proof_handler, submit_proof_handler-Advances,
}
use interchain_event.Tests.Data.{test_engine, watched, working, down, started}

poll_once-Advances_example :
    Advances
      (Reported working test_engine)
      started
      (poll_once working test_engine (some (text "words")) started).1
poll_once-Advances_example = poll_once-Advances working test_engine (some (text "words")) started

-- The watcher lists the subscription that a proof is submitted for.
abbrev listing : Machine
listing = record started { state = record started.state { subscriptions = watched ∷ [] } }

submit_proof_for_subscription-Advances_example :
    Advances
      (λ msg.
        (proof : ProofResult) × Served working (text "01") proof
        × IsMet test_engine listing.state.subscriptions 7 proof
        × Carries working msg 7 proof)
      listing
      (submit_proof_for_subscription working test_engine
        (some (text "words"))
        7
        (text "01")
        listing).1
submit_proof_for_subscription-Advances_example =
    submit_proof_for_subscription-Advances working test_engine (some (text "words")) 7 (text "01")
      listing

watched_readable : HasReadableKey working test_engine watched
unfolding text atob
watched_readable e = ground arith

process_all-eq_example : process_all working test_engine (watched ∷ []) (text "words") started ≡ (
  ok tt,
  foldl
      (λ t sub. (process_subscription working test_engine sub (text "words") t).1)
      started
      (watched ∷ []),
)
process_all-eq_example =
    process_all-eq working test_engine (watched ∷ []) (text "words") started (watched_readable, tt)

fetch_app_hash_exhausted_example :
    fetch_app_hash down (some (false, 41)) started
    ≡ (threw (no_app_hash down (some (false, 41))), later started 20)
fetch_app_hash_exhausted_example =
    fetch_app_hash_exhausted down (some (false, 41)) started (λ k h. inl refl)

abbrev request : Body
request = record { subscription_id = some 7; iavl_key_hex = some (text "01") }

submit_proof_handler-Advances_example :
    Advances
      (Requested working request)
      started
      (submit_proof_handler working test_engine (some (text "words")) request started).1
submit_proof_handler-Advances_example =
    submit_proof_handler-Advances working test_engine (some (text "words")) request started
