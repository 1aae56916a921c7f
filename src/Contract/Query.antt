-- ===== src/Contract/Query.antt =====
-- The queries of contracts/interchain-events/src/contract.rs.
use interchain_event.Common.{
  ℕ, Bool, true, ◌&&◌, Option, none, some, List, [], ◌∷◌, ltb, leb, take, if◌then◌else◌,
}
use interchain_event.Js.Text.{Text, text_eq}
use interchain_event.Codec.Hex.{Bytes}
use interchain_event.Contract.Types.{
  StoredSubscription, SubscriptionCondition, Result, ok, err, std, is_active_status,
}
use interchain_event.Contract.Store.{Store, Entries, may_load}

pub record WatchInfo : Type 0 where
  pub subscription_id : ℕ
  pub client_id : Text
  pub key_path : List Text
  pub watch_key : Bytes
  pub condition : SubscriptionCondition

unfoldable pub query_subscription : ℕ → Store → Result StoredSubscription
query_subscription id s = elim (may_load id s.subscriptions) [ none ↦ err std | some sub ↦ ok sub ]

-- The entries behind an exclusive bound.
unfoldable pub is_behind : Option ℕ → ℕ → Bool
is_behind none key = true
is_behind (some start) key = ltb start key

unfoldable pub subscriptions_behind : Option ℕ → Entries → List StoredSubscription
unfolding is_behind
subscriptions_behind start [] = []
subscriptions_behind start ((key, sub) ∷ rest) =
    let later = subscriptions_behind start rest in
    if is_behind start key then sub ∷ later else later

-- `limit.unwrap_or(30).min(100)`
unfoldable pub page_limit : Option ℕ → ℕ
page_limit none = 30
page_limit (some n) = if leb n 100 then n else 100

unfoldable pub query_list_subscriptions : Option ℕ → Option ℕ → Store → List StoredSubscription
unfolding subscriptions_behind page_limit
query_list_subscriptions start_after limit s =
    take (page_limit limit) (subscriptions_behind start_after s.subscriptions)

unfoldable pub watch_info : StoredSubscription → WatchInfo
watch_info sub = record {
  subscription_id = sub.id;
  client_id = sub.client_id;
  key_path = sub.key_path;
  watch_key = sub.watch_key;
  condition = sub.condition;
}

unfoldable pub active_watches : Text → Entries → List WatchInfo
unfolding watch_info
active_watches client_id [] = []
active_watches client_id ((key, sub) ∷ rest) =
    let later = active_watches client_id rest in
    if is_active_status sub.status && text_eq sub.client_id client_id
    then watch_info sub ∷ later
    else later

unfoldable pub query_active_watches_by_client : Text → Store → List WatchInfo
unfolding active_watches
query_active_watches_by_client client_id s = active_watches client_id s.subscriptions
