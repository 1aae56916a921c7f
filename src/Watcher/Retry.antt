-- ===== src/Watcher/Retry.antt =====
-- The retries of `fetchAppHash`: ten attempts, each a query and, if the block is not there yet, a wait.
use interchain_event.Common.{
  ℕ, zero, suc, ◌+◌, ◌*◌, ◌<◌, ◌≡◌, ◌⊎◌, inl, inr, ◌-◌, refl, Option, none, some, [], ◌∷◌, arith,
}
use interchain_event.Js.Text.{Text}
use interchain_event.Codec.Hex.{hex_to_bytes}
use interchain_event.Watcher.Machine.{
  Services, Whole, Machine, Outcome, ok, threw, ◌>>=◌, return, throw, call,
}
use interchain_event.Watcher.Fetch.{block_url, no_app_hash, app_hash_attempts, fetch_app_hash}

-- The node answers the query without an app hash.
abbrev pub IsMissing : Outcome (Option Text) → Type 0
IsMissing answer = (answer ≡ ok none) ⊎ (answer ≡ ok (some []))

abbrev pub later : Machine → ℕ → Machine
later s n = record s { calls = s.calls + n }

module _ (services : Services) (height : Whole) where
  abbrev pub answer_at : ℕ → Outcome (Option Text)
  answer_at n = services.block_app_hash n (block_url height)

  later-later : (s : Machine) (m n : ℕ) → later (later s m) n ≡ later s (m + n)
  later-later s m n = ground arith

  attempt_missing :
      (attempts : ℕ) (s : Machine)
      → IsMissing (answer_at s.calls)
      → app_hash_attempts services (suc attempts) height s
        ≡ app_hash_attempts services attempts height (later s 2)
  unfolding app_hash_attempts ◌>>=◌ call
  attempt_missing attempts s missing =
      let e = later-later s 1 1 in
      elim missing [ inl none_yet ↦ rw none_yet (rw e) | inr empty ↦ rw empty (rw e) ]

  attempt_found :
      (attempts c : ℕ) (hex : Text) (s : Machine)
      → answer_at s.calls ≡ ok (some (c ∷ hex))
      → app_hash_attempts services (suc attempts) height s
        ≡ (ok (hex_to_bytes (c ∷ hex)), later s 1)
  unfolding app_hash_attempts ◌>>=◌ call return
  attempt_found attempts c hex s found = rw found

  attempts_found :
      (missed left c : ℕ) (hex : Text) (s : Machine)
      → ((k : ℕ) → k < missed → IsMissing (answer_at (s.calls + 2 * k)))
      → answer_at (s.calls + 2 * missed) ≡ ok (some (c ∷ hex))
      → app_hash_attempts services (missed + suc left) height s
        ≡ (ok (hex_to_bytes (c ∷ hex)), later s (2 * missed + 1))
  attempts_found zero left c hex s missing found =
      let rounds : 0 + suc left ≡ suc left = omega arith in
      let start : s.calls + 2 * 0 ≡ s.calls = omega arith in
      rw rounds (attempt_found left c hex s (rw start at found))
  attempts_found (suc missed) left c hex s missing found =
      let rounds : suc missed + suc left ≡ suc (missed + suc left) = omega arith in
      let total : later (later s 2) (2 * missed + 1) ≡ later s (2 * suc missed + 1) =
        ground arith in
      let start : s.calls + 2 * 0 ≡ s.calls = omega arith in
      let shift = λ (k : ℕ). let e : s.calls + 2 * suc k ≡ s.calls + 2 + 2 * k = omega arith in e in
      rw (rounds, attempt_missing (missed + suc left) s (rw start at (missing 0 (omega arith))))
        (rw (← total) (
          attempts_found missed left c hex (later s 2)
            (λ k h. rw (shift k) at (missing (suc k) (omega arith))) (rw (shift missed) at found)))

  attempts_exhausted :
      (attempts : ℕ) (s : Machine)
      → ((k : ℕ) → k < attempts → IsMissing (answer_at (s.calls + 2 * k)))
      → app_hash_attempts services attempts height s
        ≡ (threw (no_app_hash services height), later s (2 * attempts))
  attempts_exhausted zero s missing =
      let e : later s (2 * 0) ≡ s = ground arith in rw e (unfold app_hash_attempts throw in refl)
  attempts_exhausted (suc attempts) s missing =
      let total : later (later s 2) (2 * attempts) ≡ later s (2 * suc attempts) = ground arith in
      let start : s.calls + 2 * 0 ≡ s.calls = omega arith in
      let shift = λ (k : ℕ). let e : s.calls + 2 * suc k ≡ s.calls + 2 + 2 * k = omega arith in e in
      rw (attempt_missing attempts s (rw start at (missing 0 (omega arith)))) (
        rw (← total) (
          attempts_exhausted attempts (later s 2)
            (λ k h. rw (shift k) at (missing (suc k) (omega arith)))))

  -- If fewer than ten queries of the block after the proof's height find no app hash and the next
  -- one finds one that is not empty, `fetchAppHash` returns its bytes, after one call for every
  -- query and one for every wait between them, and changes nothing else.
  pub fetch_app_hash-found :
      (missed c : ℕ) (hex : Text) (s : Machine)
      → missed < 10
      → ((k : ℕ) → k < missed → IsMissing (answer_at (s.calls + 2 * k)))
      → answer_at (s.calls + 2 * missed) ≡ ok (some (c ∷ hex))
      → fetch_app_hash services height s ≡ (ok (hex_to_bytes (c ∷ hex)), later s (2 * missed + 1))
  unfolding fetch_app_hash
  fetch_app_hash-found missed c hex s few missing found =
      let rounds : missed + suc (9 - missed) ≡ 10 = omega arith in
      rw rounds at (attempts_found missed (9 - missed) c hex s missing found)

  -- If ten queries of the block after the proof's height find no app hash, `fetchAppHash` throws
  -- the error that names that block, after ten queries and ten waits, and changes nothing else.
  pub fetch_app_hash_exhausted :
      (s : Machine)
      → ((k : ℕ) → k < 10 → IsMissing (answer_at (s.calls + 2 * k)))
      → fetch_app_hash services height s ≡ (threw (no_app_hash services height), later s 20)
  unfolding fetch_app_hash
  fetch_app_hash_exhausted s missing = attempts_exhausted 10 s missing
