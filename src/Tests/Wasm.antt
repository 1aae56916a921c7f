-- ===== src/Tests/Wasm.antt =====
-- A contract with one map entry and one item.
use interchain_event.Common.{◌≡◌, refl, none, some, List, [], ◌∷◌, ◌++◌, map}
use interchain_event.Js.Double.{to_double}
use interchain_event.Js.Text.{Text, text, index_of, last_index_of, pad_start, text_eq}
use interchain_event.Js.Utf8.{
  text_encode, text_decode_fatal, decode_points, decode_step, lead, refuse_errors, skip_bom,
  code_units, code_points, encode_points, utf8_bytes,
}
use interchain_event.Codec.Hex.{bytes_to_hex, byte_to_hex, hex_to_bytes}
use interchain_event.Codec.Key.Build.{wasm_store_key, wasm_store_key_for_ns_entry, to_hex}
use interchain_event.Codec.Bech32.{
  bech32_addr_to_hex, address_payload, charset_values, push_values, push_value, take_bytes,
}
use interchain_event.Codec.Key.Parse.{
  parse_wasm_key_parts, parse_key_bytes, namespace_length, named_parts, printable_text,
  is_printable, map_key_text, decode_item_key, decode_map_key, decode_wasm_state_key, named_key,
}
use interchain_event.Js.Base64.{atob, drop_padding, is_blank, join_sextets, sextet, sextets}
use interchain_event.Js.Number.{
  digit, digit_below, hex_value, is_space, parse_int, read_digits, skip_0x, skip_spaces, take_sign,
  to_digits, to_hex_text, to_uint8,
}
use interchain_event.Common.Order.{lt_wf}
use native.Mathlib.Decide.{dec_lt}
use interchain_event.Watcher.Machine.{ok}
use interchain_event.Explorer.Node.{StateNode, NodeInfo, nil, node, plain_info, make_leaf}
use interchain_event.Explorer.Wasm.{
  Model, WasmRest, nothing_found, filled_folder, state_tree, search_wasm, group_models, group_model,
  map_entry, top_leaf, add_entry_to, decoded_value, entry_leaf, entry_leaves, ns_folders,
}
use interchain_event.Explorer.Wasm.Entries.{rows_in, state_tree-rows}
use interchain_event.Explorer.Wasm.Groups.{entries_of}
use interchain_event.Explorer.Wasm.Folders.{
  row_text, entry_text, folder_rows, state_tree-folder_rows,
}
use interchain_event.Explorer.Tree.{Modules}
use interchain_event.Common.{false}
use interchain_event.Subscribe.Row.{
  Row, opened, synthetic_node, on_search, open_subscribe_exists, open_subscribe_for_search,
}
use interchain_event.Subscribe.Row.Missing.{watch_missing_key}

-- Its payload is the byte 0.
abbrev contract_addr : Text
contract_addr = text "x1qpqqqqqqq"

-- The map entry `n::k` and the item `cfg`, both with the value `1`.
abbrev models : List Model
models =
    record { key = text "00016e6b"; value = text "MQ==" }
    ∷ record { key = text "636667"; value = text "MQ==" }
    ∷ []

abbrev path : List Text
path = text "wasm" ∷ text "contracts" ∷ []

abbrev tree : List StateNode
tree =
    filled_folder path contract_addr (text "n") (
      make_leaf (text "wasm") (path ++ (contract_addr ∷ text "n/" ∷ [])) (text "k") (text "1")
        (some (text "wasm")) (some (text "030000016e6b"))
      ∷ [])
    ∷ make_leaf (text "wasm") (path ++ (contract_addr ∷ [])) (text "cfg") (text "1")
        (some (text "wasm")) (some (text "0300636667"))
    ∷ []

tree_built : state_tree path contract_addr models ≡ some tree
unfolding state_tree group_models group_model map_entry top_leaf add_entry_to decoded_value
    entry_leaf entry_leaves ns_folders parse_wasm_key_parts parse_key_bytes namespace_length
    named_parts printable_text is_printable map_key_text decode_item_key decode_map_key
    decode_wasm_state_key named_key hex_to_bytes text_decode_fatal decode_points decode_step lead
    refuse_errors skip_bom code_units code_points encode_points utf8_bytes push_values push_value
    take_bytes wasm_store_key_for_ns_entry to_hex atob drop_padding is_blank join_sextets sextet
    sextets digit digit_below hex_value is_space parse_int to_double read_digits skip_0x skip_spaces
    take_sign to_digits to_hex_text to_uint8 index_of last_index_of pad_start text_eq lt_wf dec_lt
    text wasm_store_key bech32_addr_to_hex charset_values address_payload byte_to_hex bytes_to_hex
    text_encode filled_folder make_leaf
tree_built = refl

state_tree-rows_example : rows_in tree ≡ 2
state_tree-rows_example = state_tree-rows path contract_addr models tree tree_built

state_tree-folder_rows_example :
    map row_text (folder_rows (text "n") tree)
    ≡ map (entry_text contract_addr (text "n")) (entries_of (text "n") models)
state_tree-folder_rows_example =
    state_tree-folder_rows (text "n") path contract_addr models tree tree_built

abbrev rest : WasmRest
rest = record { contract = λ addr. ok none; contract_state = λ addr. ok (some models) }

abbrev folder_info : NodeInfo
folder_info = record (plain_info (text "wasm") path (text "n/")) {
  contract_addr = some contract_addr;
  namespace = some (text "n");
}

abbrev typed_row : Row
typed_row = record {
  view = record { shown = node folder_info nil; error = none };
  show_modal = false;
  modal_condition = none;
  modal_value = none;
  modal_search_key = none;
  modal_node = none;
  search_input = text "z";
  searching = false;
  search_result = none;
  displayed_search_count = 30;
}

abbrev searching_modules : Modules
searching_modules = record { fetcher = λ m. none; searcher = λ m. some (search_wasm rest) }

z_stored :
    wasm_store_key_for_ns_entry contract_addr (text "n") (text "z") ≡ some (text "030000016e7a")
unfolding wasm_store_key_for_ns_entry to_hex text_encode pad_start to_hex_text bech32_addr_to_hex
    address_payload charset_values push_values push_value take_bytes bytes_to_hex byte_to_hex text
    last_index_of index_of
z_stored = refl

abbrev z_node : StateNode
z_node = synthetic_node path (text "z") (text "030000016e7a")

watch_missing_key_example :
    (open_subscribe_for_search typed_row
      ≡ opened (some z_node) (some (text "Exists")) none none typed_row)
    × (open_subscribe_exists (on_search searching_modules typed_row)
        ≡ opened (some z_node) (some (text "Exists")) none none (record typed_row {
          view = record {
            shown =
                node
                  (record folder_info {
                    pending_watch_key = some (text "z");
                    pending_store_key = some (text "030000016e7a");
                  })
                  nil;
            error = none;
          };
          search_result = some nothing_found;
        }))
unfolding text
watch_missing_key_example =
    watch_missing_key searching_modules rest typed_row folder_info nil b'x' b'n' b'z'
      (text "1qpqqqqqqq") [] [] (text "30000016e7a") refl refl refl refl refl refl b'0' z_stored
