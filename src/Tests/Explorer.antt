-- ===== src/Tests/Explorer.antt =====
-- Folders that the REST endpoint serves in pages.
use interchain_event.Common.{◌≡◌, refl, none, some, [], ◌∷◌, ◌++◌}
use interchain_event.Js.Text.{Text, text, text_eq}
use interchain_event.Watcher.Machine.{ok}
use interchain_event.Explorer.Node.{
  StateNode, node, of_list, plain_info, make_leaf, make_folder, make_load_more,
}
use interchain_event.Explorer.Tree.{fetch_children, Page, Modules, View, toggle_node, load_more}
use interchain_event.Js.Value.{
  own_property, to_string, field_at, Value, str, obj, arr, field, end, cons, nil,
}
use interchain_event.Explorer.Fetch.{Api, fetch_list, next_key_of, page_query}
use interchain_event.Explorer.Json.{
  ◌>>=◌, read_field, items_of, map_items, or_else, text_field, some_text, read_optional,
}
use interchain_event.Explorer.Fetch.Cosmos.{fetch_bank, bank_leaf}
use interchain_event.Explorer.Node.{info}
use interchain_event.Codec.Key.Build.{to_hex}
use interchain_event.Common.{List}
use interchain_event.Explorer.Wasm.{WasmRest}
use interchain_event.Explorer.Registry.{explorer_modules}
use interchain_event.Explorer.Clicks.{shown, toggled, loaded, explorer_clicks-IsPaged}
use interchain_event.Explorer.AllPages.{last, more, IsLoaded, clicks, load_more_all}
use interchain_event.Explorer.Paging.{Plain, IsPaged, tail_row}

-- The first page of the bank's supply, of one coin.
abbrev supply : Value
supply = obj (
    field (text "supply")
      (arr (
        cons
          (obj (
            field (text "denom") (str (text "untrn")) (field (text "amount") (str (text "1")) end)))
          nil))
      (field (text "pagination") (obj (field (text "next_key") (str (text "p2")) end)) end))

abbrev api : Api
api = record { fetch = λ url query. ok supply; stringify = λ v. text "{}" }

-- Its second page, with no key of a next one.
abbrev last_supply : Value
last_supply = obj (
    field (text "supply")
      (arr (
        cons
          (obj (
            field (text "denom") (str (text "uatom")) (field (text "amount") (str (text "5")) end)))
          nil))
      (field (text "pagination") (obj end) end))

abbrev paged_api : Api
paged_api = record api { fetch = λ url query. ok last_supply }

abbrev supply_path : List Text
supply_path = text "bank" ∷ text "supply" ∷ []

abbrev supply_row : Text → Text → StateNode
supply_row denom amount =
    make_leaf (text "bank") supply_path denom amount (some (text "bank"))
      (some (to_hex (text "supply/" ++ denom)))

abbrev supply_folder : StateNode
supply_folder =
    node
      (record (plain_info (text "bank") supply_path (text "supply")) {
        next_page_key = some (text "p2");
      })
      (of_list
        (supply_row (text "untrn") (text "1") ∷ make_load_more (text "bank") supply_path ∷ []))

abbrev last_supply_page : Page
last_supply_page = record { nodes = supply_row (text "uatom") (text "5") ∷ []; next_key = none }

supply_at_path :
    (n : StateNode)
    → (info n).path ≡ supply_path
    → fetch_bank paged_api (text "https://rest") n (some (text "p2")) ≡ ok last_supply_page
unfolding fetch_bank text text_eq fetch_list bank_leaf next_key_of read_field page_query items_of
    map_items ◌>>=◌ or_else own_property to_string text_field make_leaf field_at some_text
    read_optional
supply_at_path n e = rw (fetch_bank, e) refl

abbrev wasm_rest : WasmRest
wasm_rest = record { contract = λ addr. ok none; contract_state = λ addr. ok none }

abbrev explorer : Modules
explorer = explorer_modules api (text "https://rest") wasm_rest

-- The folder of the bank's supply, which the REST endpoint serves in pages.
abbrev bank_supply : View
bank_supply = record {
  shown = make_folder (text "bank") (text "bank" ∷ []) (text "supply") (some (text "bank")) none;
  error = none;
}

-- Its first page is there and a next one is known, so that `loadMore` asks for it.
toggle_node-bank_supply :
    (info (toggle_node explorer bank_supply).shown).next_page_key ≡ some (text "p2")
unfolding toggle_node explorer_modules text text_eq make_folder fetch_children fetch_bank fetch_list
    ◌>>=◌ read_field items_of or_else own_property field_at map_items bank_leaf some_text
    read_optional
toggle_node-bank_supply = refl

explorer_clicks-IsPaged_example :
    IsPaged (load_more explorer (toggle_node explorer bank_supply)).shown
explorer_clicks-IsPaged_example =
    explorer_clicks-IsPaged api (text "https://rest") wasm_rest (text "bank") (text "bank" ∷ [])
      (text "supply") (some (text "bank")) none
      (load_more explorer (toggle_node explorer bank_supply)) (loaded (toggled shown))

abbrev supply_view : View
supply_view = record { shown = supply_folder; error = none }

supply_folder-IsPaged : IsPaged supply_folder
unfolding tail_row make_load_more make_leaf text
supply_folder-IsPaged = refl

last_supply_page-Plain : Plain last_supply_page.nodes
unfolding make_leaf
last_supply_page-Plain = refl

bank_fetcher :
    (explorer_modules paged_api (text "https://rest") wasm_rest).fetcher (text "bank")
    ≡ some (fetch_bank paged_api (text "https://rest"))
unfolding explorer_modules text text_eq
bank_fetcher = refl

load_more_all_example :
    IsLoaded
      (clicks (explorer_modules paged_api (text "https://rest") wasm_rest) 1 supply_view)
      (supply_row (text "untrn") (text "1") ∷ supply_row (text "uatom") (text "5") ∷ [])
unfolding make_leaf make_load_more text
load_more_all_example =
    load_more_all (explorer_modules paged_api (text "https://rest") wasm_rest) (text "bank")
      supply_path (fetch_bank paged_api (text "https://rest")) bank_fetcher supply_view
      (last_supply_page ∷ []) (refl, refl) supply_folder-IsPaged
      (more
        (record {
          keyed = refl;
          plain = last_supply_page-Plain;
          answer = λ n e. supply_at_path n e.1;
        })
        (last refl))
