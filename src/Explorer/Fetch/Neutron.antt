-- ===== src/Explorer/Fetch/Neutron.antt =====
-- The fetchers of the parameter modules and of Neutron's own, and the search in `tokenfactory`.
use interchain_event.Common.{false, Option, some, List, [], ◌∷◌, ◌++◌, if◌then◌else◌}
use interchain_event.Js.Text.{Text, text}
use interchain_event.Js.Value.{Value, obj}
use interchain_event.Watcher.Machine.{Outcome, ok}
use interchain_event.Explorer.Node.{StateNode, info}
use interchain_event.Explorer.Tree.{Page, Found}
use interchain_event.Explorer.Wasm.{includes, nothing_found}
use interchain_event.Explorer.Json.{
  ◌>>=◌, read_field, or_else, items_of, empty_array, shown, text_field, literal, map_items,
}
use interchain_event.Explorer.Fetch.{
  Api, is_root, last_page, plain_folder, searchable_folder, plain_leaf, fetch_list, fetch_params,
  fetch_only_params, stringified,
}
use interchain_event.Explorer.Fetch.Cosmos.{coin_leaf, found_or_nothing}

module _ (api : Api) (rest : Text) where
  unfoldable pub fetch_pool : List Text → Outcome Page
  fetch_pool path = do
    res ← api.fetch (rest ++ text "/cosmos/distribution/v1beta1/community_pool") []
    pool ← read_field (text "pool") (some res)
    coins ← items_of (or_else pool empty_array)
    nodes ← map_items (coin_leaf (text "distribution") path) coins
    last_page nodes

  unfoldable pub fetch_distribution : StateNode → Outcome Page
  unfolding fetch_pool
  fetch_distribution n =
      let path : List Text = (info n).path in
      if is_root path
      then last_page (
          plain_folder (text "distribution") path (text "params")
          ∷ plain_folder (text "distribution") path (text "community_pool")
          ∷ [])
      else if includes (text "params") path
      then fetch_params api rest shown (text "distribution") path
          (text "/cosmos/distribution/v1beta1/params")
      else if includes (text "community_pool") path
      then fetch_pool path
      else last_page []

  unfoldable pub fetch_inflation : List Text → Outcome Page
  fetch_inflation path = do
    res ← api.fetch (rest ++ text "/cosmos/mint/v1beta1/inflation") []
    inflation ← read_field (text "inflation") (some res)
    last_page (
        plain_leaf (text "mint") path (text "inflation")
          (text_field (or_else inflation (some (Value.str (text "N/A")))))
        ∷ [])

  unfoldable pub fetch_mint : StateNode → Outcome Page
  unfolding fetch_inflation
  fetch_mint n =
      let path : List Text = (info n).path in
      if is_root path
      then last_page (
          plain_folder (text "mint") path (text "params")
          ∷ plain_folder (text "mint") path (text "inflation")
          ∷ [])
      else if includes (text "params") path
      then fetch_params api rest shown (text "mint") path (text "/cosmos/mint/v1beta1/params")
      else if includes (text "inflation") path
      then fetch_inflation path
      else last_page []

  unfoldable pub fetch_slashing : StateNode → Outcome Page
  fetch_slashing n =
      fetch_only_params api rest shown (text "slashing") (text "/cosmos/slashing/v1beta1/params") n

  unfoldable pub fetch_auth : StateNode → Outcome Page
  fetch_auth n =
      fetch_only_params api rest shown (text "auth") (text "/cosmos/auth/v1beta1/params") n

  unfoldable pub query_leaf : List Text → Value → Outcome StateNode
  query_leaf path q = do
    id ← read_field (text "id") (some q)
    query_type ← read_field (text "query_type") (some q)
    owner ← read_field (text "owner") (some q)
    keys ← read_field (text "keys") (some q)
    number ← shown id
    kind ← shown query_type
    ok (
        plain_leaf (text "interchainqueries") path
          (text "#" ++ (number ++ (text " (" ++ (kind ++ text ")"))))
          (api.stringify (obj (literal ((text "owner", owner) ∷ (text "keys", keys) ∷ [])))))

  unfoldable pub fetch_interchain_queries : StateNode → Option Text → Outcome Page
  fetch_interchain_queries n page_key =
      let path : List Text = (info n).path in
      if is_root path
      then last_page (
          plain_folder (text "interchainqueries") path (text "registered_queries")
          ∷ plain_folder (text "interchainqueries") path (text "params")
          ∷ [])
      else if includes (text "registered_queries") path
      then fetch_list api rest (text "/neutron/interchainqueries/registered_queries") false page_key
          (text "registered_queries") (query_leaf path)
      else if includes (text "params") path
      then fetch_params api rest (stringified api rest) (text "interchainqueries") path
          (text "/neutron/interchainqueries/params")
      else last_page []

  unfoldable pub fetch_interchain_txs : StateNode → Outcome Page
  fetch_interchain_txs n =
      fetch_only_params api rest (stringified api rest) (text "interchaintxs")
        (text "/neutron/interchaintxs/params") n

  unfoldable pub fetch_fee_burner : StateNode → Outcome Page
  fetch_fee_burner n =
      fetch_only_params api rest shown (text "feeburner") (text "/neutron/feeburner/params") n

  unfoldable pub fetch_token_factory : StateNode → Outcome Page
  fetch_token_factory n =
      let path : List Text = (info n).path in
      if is_root path
      then last_page (
          plain_folder (text "tokenfactory") path (text "params")
          ∷ searchable_folder (text "tokenfactory") path (text "denoms_from_creator")
              (text "Enter creator address (neutron1...)")
          ∷ [])
      else if includes (text "params") path
      then fetch_params api rest (stringified api rest) (text "tokenfactory") path
          (text "/osmosis/tokenfactory/v1beta1/params")
      else last_page []

  unfoldable pub denom_leaf : List Text → Value → Outcome StateNode
  denom_leaf path d =
      ok (plain_leaf (text "tokenfactory") path (text_field (some d)) (text_field (some d)))

  unfoldable pub denoms_of : List Text → Text → Outcome (List StateNode)
  unfolding denom_leaf
  denoms_of path key = do
    res ← api.fetch (rest ++ (text "/osmosis/tokenfactory/v1beta1/denoms_from_creator/" ++ key)) []
    listed ← read_field (text "denoms") (some res)
    denoms ← items_of (or_else listed empty_array)
    map_items (denom_leaf (path ++ (key ∷ []))) denoms

  unfoldable pub search_token_factory : StateNode → Text → Found
  unfolding denoms_of
  search_token_factory n key =
      if includes (text "denoms_from_creator") (info n).path
      then found_or_nothing (text " denoms") (denoms_of (info n).path key)
      else nothing_found

  unfoldable pub fetch_cron : StateNode → Outcome Page
  fetch_cron n = fetch_only_params api rest shown (text "cron") (text "/neutron/cron/params") n

  unfoldable pub fetch_dex : StateNode → Outcome Page
  fetch_dex n =
      fetch_only_params api rest (stringified api rest) (text "dex") (text "/neutron/dex/params") n
