-- ===== src/Subscribe/Row.antt =====
-- The script of frontend/app/components/TreeNode.vue: a row of the explorer's tree.
pub mod Address
pub mod Missing
use interchain_event.Common.{
  ℕ, ◌+◌, ◌*◌, ◌/◌, ◌%◌, ◌^◌, ◌-◌, Bool, true, false, not, ◌&&◌, Option, none, some, List, [], ◌∷◌,
  ◌++◌, ltb, map, take, length, if◌then◌else◌,
}
use interchain_event.Js.Text.{Text, text, index_of, pad_start}
use interchain_event.Js.Number.{to_hex_text}
use interchain_event.Js.Utf8.{code_points}
use interchain_event.Codec.Hex.{bytes_to_hex}
use interchain_event.Codec.Bech32.{charset, address_payload, Bits, no_bits, take_bytes}
use interchain_event.Codec.Key.Build.{to_hex}
use interchain_event.Watcher.Fetch.{is_empty}
use interchain_event.Watcher.Machine.{Outcome, ok, threw}
use interchain_event.Explorer.Node.{NodeInfo, StateNode, node, nil, info, plain_info}
use interchain_event.Explorer.Tree.{
  Modules, View, Found, set_expanded, toggle_node, load_more, search_key,
}
use interchain_event.Explorer.Wasm.{is_some_text, or_empty}

-- `for (const c of data) values.push(CHARSET.indexOf(c))`: by code points, `none` for -1.
unfoldable pub places : Text → List (Option ℕ)
places payload = map (λ c. index_of charset c) (code_points payload)

-- `(acc << 5) | v` on 32 bits, where `-1` sets every bit, and the loop.
unfoldable pub push_place : Bits → Option ℕ → Bits
push_place s place =
    let bits' = s.bits + 5 in
    let acc' : ℕ = elim place [ none ↦ 2 ^ 32 - 1 | some v ↦ (s.acc * 32 + v) % 2 ^ 32 ] in
    take_bytes bits' (record s { acc = acc'; bits = bits' })

unfoldable pub push_places : Bits → List (Option ℕ) → Bits
unfolding push_place
push_places s [] = s
push_places s (p ∷ ps) = push_places (push_place s p) ps

-- The row's own `bech32ToHex`.
unfoldable pub row_bech32_to_hex : Text → Text
unfolding places push_places
row_bech32_to_hex addr = bytes_to_hex (push_places no_bits (places (address_payload addr))).bytes

unfoldable pub row_store_key : Text → Text → Text → Text
unfolding row_bech32_to_hex
row_store_key contract_addr ns search_input =
    let ns_hex = to_hex ns in
    let ns_len = pad_start 4 b'0' (to_hex_text (length ns_hex / 2)) in
    text "03" ++ (row_bech32_to_hex contract_addr ++ (ns_len ++ (ns_hex ++ to_hex search_input)))

abbrev pub page_size : ℕ
page_size = 30

-- The node and the explorer's error, and the row's refs.
pub record Row : Type 0 where
  pub view : View
  pub show_modal : Bool
  pub modal_condition : Option Text
  pub modal_value : Option Text
  pub modal_search_key : Option Text
  pub modal_node : Option StateNode
  pub search_input : Text
  pub searching : Bool
  pub search_result : Option Found
  pub displayed_search_count : ℕ

abbrev pub is_some : Option Text → Bool
is_some none = false
is_some (some t) = true

abbrev pub row_info : Row → NodeInfo
row_info row = info row.view.shown

unfoldable pub can_watch_leaf : Row → Bool
can_watch_leaf row = not (row_info row).has_children && is_some (row_info row).value

unfoldable pub can_watch_folder : ℕ → Row → Bool
can_watch_folder depth row = (row_info row).has_children && ltb 0 depth

unfoldable pub displayed_search_children : Row → List StateNode
displayed_search_children row = elim row.search_result [
  | none ↦ []
  | some found ↦ elim found.found_children [
    | none ↦ []
    | some ns ↦ take row.displayed_search_count ns
  ]
]

-- The form opened on a node, with a condition, a value and a search key to begin with.
abbrev pub opened : Option StateNode → Option Text → Option Text → Option Text → Row → Row
opened n condition value key row = record row {
  modal_node = n;
  modal_condition = condition;
  modal_value = value;
  modal_search_key = key;
  show_modal = true;
}

-- The `syntheticNode` of a key that the tree does not have.
unfoldable pub synthetic_node : List Text → Text → Text → StateNode
synthetic_node path key store_key =
    node
      (record (plain_info (text "wasm") (path ++ (key ∷ [])) key) {
        store_name = some (text "wasm");
        store_key = some store_key;
      })
      nil

unfoldable pub open_subscribe : Row → Row
open_subscribe row = opened none none none none row

unfoldable pub open_subscribe_for_child : StateNode → Row → Row
open_subscribe_for_child child row = opened (some child) none (info child).value none row

unfoldable pub open_subscribe_with_condition : Text → Option Text → Row → Row
open_subscribe_with_condition condition value row =
    opened none (some condition) value (some row.search_input) row

-- `pendingWatchKey ?? searchInput.value`
abbrev pub key_or_input : Option Text → Text → Text
key_or_input none input = input
key_or_input (some key) input = key

unfoldable pub open_subscribe_exists : Row → Row
open_subscribe_exists row =
    let i = row_info row in
    if is_some_text i.pending_store_key
    then opened
        (some (
          synthetic_node i.path (key_or_input i.pending_watch_key row.search_input)
            (or_empty i.pending_store_key)))
        (some (text "Exists")) none none row
    else opened none (some (text "Exists")) none (some row.search_input) row

unfoldable pub open_subscribe_for_search : Row → Row
open_subscribe_for_search row =
    let i = row_info row in
    if is_empty row.search_input
    then row
    else if is_some_text i.contract_addr && is_some_text i.namespace
    then opened
        (some (
          synthetic_node i.path row.search_input
            (row_store_key (or_empty i.contract_addr) (or_empty i.namespace) row.search_input)))
        (some (text "Exists")) none none row
    else open_subscribe_exists row

module _ (modules : Modules) where
  unfoldable pub on_row_click : Row → Row
  on_row_click row =
      if (row_info row).has_children
      then record row { view = toggle_node modules row.view }
      else if is_some (row_info row).value
      then record row {
        view = record {
          shown = set_expanded (not (row_info row).expanded) row.view.shown;
          error = row.view.error;
        };
      }
      else row

  unfoldable pub on_load_more : Row → Row
  on_load_more row = record row { view = load_more modules row.view }

  -- `null` where the search threw, which is thrown on once `searching` is reset.
  abbrev pub result_of : Outcome Found → Option Found
  result_of (ok found) = some found
  result_of (threw e) = none

  unfoldable pub on_search : Row → Row
  on_search row =
      let done = search_key modules row.view.shown row.search_input in
      if is_empty row.search_input then row else record row {
        view = record { shown = done.0; error = row.view.error };
        searching = false;
        search_result = result_of done.1;
        displayed_search_count = page_size;
      }

-- `truncate`, which the form and the watcher's page have as well.
unfoldable pub truncate : Text → ℕ → Text
truncate str max = if ltb max (length str) then take max str ++ text "..." else str

-- `JSON.parse`, and `JSON.stringify` with an indentation of two, are parameters.
unfoldable pub format_value : {Json : Type 0} → (Text → Option Json) → (Json → Text) → Text → Text
format_value parse stringify raw = elim (parse raw) [ none ↦ raw | some json ↦ stringify json ]
