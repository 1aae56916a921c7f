-- ===== src/Explorer/Fetch/Cosmos.antt =====
-- The fetchers of the Cosmos modules, and the searches in `bank`.
use interchain_event.Common.{
  true, false, Option, some, List, [], ◌∷◌, ◌++◌, length, if◌then◌else◌, ◌==◌, ◌&&◌,
}
use interchain_event.Js.Text.{Text, text}
use interchain_event.Js.Number.{to_text}
use interchain_event.Js.Value.{Value, obj}
use interchain_event.Codec.Key.Build.{to_hex}
use interchain_event.Watcher.Machine.{Outcome, ok, threw}
use interchain_event.Explorer.Node.{StateNode, info, make_leaf}
use interchain_event.Explorer.Tree.{Page, Found}
use interchain_event.Explorer.Wasm.{includes, nothing_found}
use interchain_event.Explorer.Json.{
  ◌>>=◌, read_field, read_optional, or_else, items_of, empty_array, empty_object, object_entries,
  shown, text_field, literal, map_items,
}
use interchain_event.Explorer.Fetch.{
  Api, is_root, last_page, plain_folder, searchable_folder, plain_leaf, fetch_list, params_leaf,
  fetch_params,
}

-- A leaf of a coin with its key in the store `bank`; `prefix` stands in front of the denomination.
unfoldable pub bank_leaf : List Text → Text → Value → Outcome StateNode
bank_leaf path prefix coin = do
  denom ← read_field (text "denom") (some coin)
  amount ← read_field (text "amount") (some coin)
  ok (
      make_leaf (text "bank") path (text_field denom) (text_field amount) (some (text "bank"))
        (some (to_hex (prefix ++ text_field denom))))

unfoldable pub coin_leaf : Text → List Text → Value → Outcome StateNode
coin_leaf module_name path coin = do
  denom ← read_field (text "denom") (some coin)
  amount ← read_field (text "amount") (some coin)
  ok (plain_leaf module_name path (text_field denom) (text_field amount))

-- How many of what were found, or nothing; an error is caught.
unfoldable pub found_or_nothing : Text → Outcome (List StateNode) → Found
found_or_nothing what (threw e) = nothing_found
found_or_nothing what (ok []) = nothing_found
found_or_nothing what (ok (n ∷ ns)) = record {
  found = true;
  value = some (to_text (length (n ∷ ns)) ++ what);
  found_children = some (n ∷ ns);
}

module _ (api : Api) (rest : Text) where
  unfoldable pub fetch_bank : StateNode → Option Text → Outcome Page
  fetch_bank n page_key =
      let path : List Text = (info n).path in
      if is_root path
      then last_page (
          plain_folder (text "bank") path (text "supply")
          ∷ searchable_folder (text "bank") path (text "balances")
              (text "Enter address (neutron1...)")
          ∷ [])
      else if includes (text "supply") path
      then fetch_list api rest (text "/cosmos/bank/v1beta1/supply") false page_key (text "supply")
          (bank_leaf path (text "supply/"))
      else last_page []

  -- The `try` block: `none` where no balance is listed.
  unfoldable pub balances_of : List Text → Text → Outcome (List StateNode)
  balances_of path key = do
    res ← api.fetch (rest ++ (text "/cosmos/bank/v1beta1/balances/" ++ key)) []
    listed ← read_field (text "balances") (some res)
    balances ← items_of (or_else listed empty_array)
    map_items (bank_leaf (path ++ (key ∷ [])) (text "balances/" ++ (key ++ text "/"))) balances

  unfoldable pub search_bank : StateNode → Text → Found
  unfolding balances_of found_or_nothing
  search_bank n key =
      if includes (text "balances") (info n).path
      then found_or_nothing (text " tokens") (balances_of (info n).path key)
      else nothing_found

  -- `v.description?.moniker ?? v.operator_address`, and the stringified fields.
  unfoldable pub validator_leaf : List Text → Value → Outcome StateNode
  validator_leaf path v = do
    description ← read_field (text "description") (some v)
    address ← read_field (text "operator_address") (some v)
    tokens ← read_field (text "tokens") (some v)
    status ← read_field (text "status") (some v)
    commission ← read_field (text "commission") (some v)
    ok (
        plain_leaf (text "staking") path
          (text_field (or_else (read_optional (text "moniker") description) address))
          (api.stringify (
            obj (
              literal (
                (text "tokens", tokens)
                ∷ (text "status", status)
                ∷ (
                  text "commission",
                  read_optional (text "rate") (read_optional (text "commission_rates") commission),
                )
                ∷ [])))))

  unfoldable pub fetch_staking : StateNode → Option Text → Outcome Page
  fetch_staking n page_key =
      let path : List Text = (info n).path in
      if is_root path
      then last_page (
          plain_folder (text "staking") path (text "validators")
          ∷ plain_folder (text "staking") path (text "params")
          ∷ [])
      else if includes (text "validators") path
      then fetch_list api rest (text "/cosmos/staking/v1beta1/validators") false page_key
          (text "validators") (validator_leaf path)
      else if includes (text "params") path
      then fetch_params api rest shown (text "staking") path (text "/cosmos/staking/v1beta1/params")
      else last_page []

  -- `#${p.proposal_id ?? p.id} ${p.content?.title ?? p.title ?? ''}`
  unfoldable pub proposal_leaf : List Text → Value → Outcome StateNode
  proposal_leaf path p = do
    proposal_id ← read_field (text "proposal_id") (some p)
    id ← read_field (text "id") (some p)
    content ← read_field (text "content") (some p)
    title ← read_field (text "title") (some p)
    status ← read_field (text "status") (some p)
    number ← shown (or_else proposal_id id)
    name ←
        shown (or_else (or_else (read_optional (text "title") content) title) (some (Value.str [])))
    ok (
        plain_leaf (text "gov") path (text "#" ++ (number ++ (text " " ++ name)))
          (text_field status))

  -- `res.params ?? res.tally_params ?? {}`
  unfoldable pub fetch_tallying : List Text → Outcome Page
  fetch_tallying path = do
    res ← api.fetch (rest ++ text "/cosmos/gov/v1beta1/params/tallying") []
    params ← read_field (text "params") (some res)
    tally_params ← read_field (text "tally_params") (some res)
    entries ← object_entries (or_else (or_else params tally_params) empty_object)
    nodes ← map_items (params_leaf api rest shown (text "gov") path) entries
    last_page nodes

  unfoldable pub fetch_gov : StateNode → Option Text → Outcome Page
  unfolding fetch_tallying
  fetch_gov n page_key =
      let path : List Text = (info n).path in
      if is_root path
      then last_page (
          plain_folder (text "gov") path (text "proposals")
          ∷ plain_folder (text "gov") path (text "params")
          ∷ [])
      else if includes (text "proposals") path
      then fetch_list api rest (text "/cosmos/gov/v1beta1/proposals") true page_key
          (text "proposals") (proposal_leaf path)
      else if includes (text "params") path
      then fetch_tallying path
      else last_page []

  unfoldable pub client_leaf : List Text → Value → Outcome StateNode
  client_leaf path cs = do
    id ← read_field (text "client_id") (some cs)
    state ← read_field (text "client_state") (some cs)
    ok (
        plain_leaf (text "ibc") path (text_field id) (
          text_field
            (or_else (read_optional (text "chain_id") state) (some (Value.str (text "unknown"))))))

  unfoldable pub connection_leaf : List Text → Value → Outcome StateNode
  connection_leaf path c = do
    id ← read_field (text "id") (some c)
    client_id ← read_field (text "client_id") (some c)
    state ← read_field (text "state") (some c)
    client ← shown client_id
    now ← shown state
    ok (
        plain_leaf (text "ibc") path (text_field id)
          (text "client: " ++ (client ++ (text ", state: " ++ now))))

  unfoldable pub channel_leaf : List Text → Value → Outcome StateNode
  channel_leaf path ch = do
    port_id ← read_field (text "port_id") (some ch)
    channel_id ← read_field (text "channel_id") (some ch)
    state ← read_field (text "state") (some ch)
    counterparty ← read_field (text "counterparty") (some ch)
    port ← shown port_id
    channel ← shown channel_id
    now ← shown state
    other ← shown (read_optional (text "channel_id") counterparty)
    ok (
        plain_leaf (text "ibc") path (port ++ (text "/" ++ channel))
          (text "state: " ++ (now ++ (text ", counterparty: " ++ other))))

  unfoldable pub fetch_ibc : StateNode → Option Text → Outcome Page
  fetch_ibc n page_key =
      let path : List Text = (info n).path in
      if is_root path
      then last_page (
          plain_folder (text "ibc") path (text "clients")
          ∷ plain_folder (text "ibc") path (text "connections")
          ∷ plain_folder (text "ibc") path (text "channels")
          ∷ [])
      else if includes (text "clients") path
      then fetch_list api rest (text "/ibc/core/client/v1/client_states") false page_key
          (text "client_states") (client_leaf path)
      else if includes (text "connections") path
      then fetch_list api rest (text "/ibc/core/connection/v1/connections") false page_key
          (text "connections") (connection_leaf path)
      else if includes (text "channels") path
      then fetch_list api rest (text "/ibc/core/channel/v1/channels") false page_key
          (text "channels") (channel_leaf path)
      else last_page []

  unfoldable pub code_leaf : List Text → Value → Outcome StateNode
  code_leaf path c = do
    code_id ← read_field (text "code_id") (some c)
    creator ← read_field (text "creator") (some c)
    code ← shown code_id
    by' ← shown creator
    ok (plain_leaf (text "wasm") path (text "code " ++ code) (text "creator: " ++ by'))

  unfoldable pub fetch_wasm : StateNode → Option Text → Outcome Page
  fetch_wasm n page_key =
      let path : List Text = (info n).path in
      if is_root path
      then last_page (
          plain_folder (text "wasm") path (text "codes")
          ∷ searchable_folder (text "wasm") path (text "contracts")
              (text "Enter contract address (neutron1...)")
          ∷ [])
      else if includes (text "codes") path && (length path == 2)
      then fetch_list api rest (text "/cosmwasm/wasm/v1/code") true page_key (text "code_infos")
          (code_leaf path)
      else last_page []
