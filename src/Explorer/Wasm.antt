-- ===== src/Explorer/Wasm.antt =====
-- `searchWasm` of frontend/app/composables/useStateExplorer.ts: a contract's state as a tree of
-- namespace folders, and the search inside such a folder.
pub mod Entries
pub mod Groups
pub mod Folders
use interchain_event.Common.{
  Bool, true, false, Option, none, some, List, [], ◌∷◌, ◌++◌, find, ◌&&◌, if◌then◌else◌,
}
use interchain_event.Js.Text.{Text, text, text_eq}
use interchain_event.Js.Base64.{atob}
use interchain_event.Codec.Key.Build.{wasm_store_key, wasm_store_key_for_ns_entry}
use interchain_event.Codec.Key.Parse.{parse_wasm_key_parts, decode_wasm_state_key}
use interchain_event.Watcher.Machine.{Outcome, ok, threw}
use interchain_event.Explorer.Node.{
  StateNode, node, info, of_list, children, make_leaf, make_folder,
}
use interchain_event.Explorer.Tree.{Found}

-- An entry of `stateRes.models`.
pub record Model : Type 0 where
  pub key : Text
  pub value : Text

-- The fields that are read of `info.contract_info`; a missing label is the empty text.
pub record ContractInfo : Type 0 where
  pub label : Text
  pub code_id : Option Text

-- The two REST requests for a contract's address. The second answers at most a hundred models.
pub record WasmRest : Type 0 where
  pub contract : Text → Outcome (Option ContractInfo)
  pub contract_state : Text → Outcome (Option (List Model))

pub record Entry : Type 0 where
  pub map_key : Text
  pub value : Text
  pub raw_key_hex : Text

-- The `Map` in the order of its keys' insertion, and the leaves that stand in no folder.
pub record Grouped : Type 0 where
  pub namespaces : List (Text × List Entry)
  pub top_level : List StateNode

abbrev pub no_entries : Grouped
no_entries = record { namespaces = []; top_level = [] }

-- `try { decodedValue = atob(m.value) } catch { /* keep raw */ }`
unfoldable pub decoded_value : Text → Text
decoded_value value = elim (atob value) [ none ↦ value | some decoded ↦ decoded ]

unfoldable pub add_entry_to : Text → Entry → List (Text × List Entry) → List (Text × List Entry)
add_entry_to ns e [] = (ns, e ∷ []) ∷ []
add_entry_to ns e ((m, es) ∷ rest) =
    let others = add_entry_to ns e rest in
    if text_eq m ns then (m, es ++ (e ∷ [])) ∷ rest else (m, es) ∷ others

-- `parts && parts.mapKey`: the namespace and the entry of a model that is a map entry.
unfoldable pub map_entry : Model → Option (Text × Entry)
map_entry m = elim (parse_wasm_key_parts m.key) [
  | none ↦ none
  | some (ns, []) ↦ none
  | some (ns, c ∷ map_key) ↦
      some
        (ns, record { map_key = c ∷ map_key; value = decoded_value m.value; raw_key_hex = m.key })
]

-- `none` is the error of an address that does not decode.
unfoldable pub top_leaf : List Text → Text → Model → Option StateNode
top_leaf path addr m = elim (wasm_store_key addr m.key) [
  | none ↦ none
  | some store_key ↦ some (
      make_leaf (text "wasm") (path ++ (addr ∷ [])) (decode_wasm_state_key m.key)
        (decoded_value m.value) (some (text "wasm")) (some store_key))
]

unfoldable pub group_model : List Text → Text → Model → Grouped → Option Grouped
group_model path addr m g = elim (map_entry m) [
  | some (ns, e) ↦ some (record g { namespaces = add_entry_to ns e g.namespaces })
  | none ↦ elim (top_leaf path addr m) [
    | none ↦ none
    | some leaf ↦ some (record g { top_level = g.top_level ++ (leaf ∷ []) })
  ]
]

unfoldable pub group_models : List Text → Text → List Model → Grouped → Option Grouped
group_models path addr [] g = some g
group_models path addr (m ∷ models) g = elim (group_model path addr m g) [
  | none ↦ none
  | some g' ↦ group_models path addr models g'
]

unfoldable pub entry_leaf : List Text → Text → Text → Entry → Option StateNode
entry_leaf path addr ns e = elim (wasm_store_key_for_ns_entry addr ns e.map_key) [
  | none ↦ none
  | some store_key ↦ some (
      make_leaf (text "wasm") (path ++ (addr ∷ (ns ++ text "/") ∷ [])) e.map_key e.value
        (some (text "wasm")) (some store_key))
]

unfoldable pub entry_leaves : List Text → Text → Text → List Entry → Option (List StateNode)
entry_leaves path addr ns [] = some []
entry_leaves path addr ns (e ∷ es) = elim (entry_leaf path addr ns e) [
  | none ↦ none
  | some leaf ↦ elim (entry_leaves path addr ns es) [
    | none ↦ none
    | some leaves ↦ some (leaf ∷ leaves)
  ]
]

-- `nsFolder` with its children, its contract and its namespace.
unfoldable pub filled_folder : List Text → Text → Text → List StateNode → StateNode
filled_folder path addr ns leaves =
    let folder =
      make_folder (text "wasm") (path ++ (addr ∷ [])) (ns ++ text "/")
        (some (text "Watch a new " ++ (ns ++ text " key..."))) (some (text "wasm")) in
    node (record (info folder) { expanded = false; contract_addr = some addr; namespace = some ns })
      (of_list leaves)

unfoldable pub ns_folders : List Text → Text → List (Text × List Entry) → Option (List StateNode)
ns_folders path addr [] = some []
ns_folders path addr ((ns, es) ∷ rest) = elim (entry_leaves path addr ns es) [
  | none ↦ none
  | some leaves ↦ elim (ns_folders path addr rest) [
    | none ↦ none
    | some folders ↦ some (filled_folder path addr ns leaves ∷ folders)
  ]
]

-- The folders, and behind them the other leaves.
unfoldable pub state_tree : List Text → Text → List Model → Option (List StateNode)
state_tree path addr models = elim (group_models path addr models no_entries) [
  | none ↦ none
  | some g ↦ elim (ns_folders path addr g.namespaces) [
    | none ↦ none
    | some folders ↦ some (folders ++ g.top_level)
  ]
]

-- `${contract.code_id}`
unfoldable pub code_label : ContractInfo → Text
code_label contract =
    let id : Text = elim contract.code_id [ none ↦ text "undefined" | some t ↦ t ] in
    elim contract.label [
      | [] ↦ text "code " ++ id
      | c ∷ label ↦ (c ∷ label) ++ (text " (code " ++ (id ++ text ")"))
    ]

abbrev pub no_contract : ContractInfo
no_contract = record { label = []; code_id = none }

abbrev pub nothing_found : Found
nothing_found = record { found = false; value = none; found_children = none }

abbrev pub or_no_contract : Option ContractInfo → ContractInfo
or_no_contract none = no_contract
or_no_contract (some contract) = contract

abbrev pub or_no_models : Option (List Model) → List Model
or_no_models none = []
or_no_models (some models) = models

-- The `try` block for a contract's address, and its `catch`.
unfoldable pub search_contract : WasmRest → List Text → Text → Found
search_contract rest path addr = elim (rest.contract addr) [
  | threw e ↦ nothing_found
  | ok contract ↦ elim (rest.contract_state addr) [
    | threw e ↦ nothing_found
    | ok models ↦ elim (state_tree path addr (or_no_models models)) [
      | none ↦ nothing_found
      | some tree ↦ record {
        found = true;
        value = some (code_label (or_no_contract contract));
        found_children = some tree;
      }
    ]
  ]
]

abbrev pub is_some_text : Option Text → Bool
is_some_text none = false
is_some_text (some []) = false
is_some_text (some (c ∷ s)) = true

abbrev pub or_empty : Option Text → Text
or_empty none = []
or_empty (some t) = t

abbrev pub includes : Text → List Text → Bool
includes t [] = false
includes t (s ∷ path) = let rest = includes t path in if text_eq s t then true else rest

abbrev pub bad_bech32 : Text
bad_bech32 = text "Invalid bech32 character"

-- Inside a namespace folder: the key that is not there is noted on the folder, with its store key.
unfoldable pub search_folder : StateNode → Text → Text → Text → StateNode × Outcome Found
search_folder (node i ns) contract_addr namespace key =
    elim (find (λ c. text_eq (info c).key key) (children (node i ns))) [
      | some existing ↦ (
        node i ns,
        ok (record { found = true; value = (info existing).value; found_children = none }),
      )
      | none ↦
          let i' = record i { pending_watch_key = some key } in
          elim (wasm_store_key_for_ns_entry contract_addr namespace key) [
            | none ↦ (node i' ns, threw bad_bech32)
            | some store_key ↦
                (node (record i' { pending_store_key = some store_key }) ns, ok nothing_found)
          ]
    ]

unfoldable pub search_wasm : WasmRest → StateNode → Text → StateNode × Outcome Found
search_wasm rest n key =
    if is_some_text (info n).namespace && is_some_text (info n).contract_addr
    then search_folder n (or_empty (info n).contract_addr) (or_empty (info n).namespace) key
    else (if includes (text "contracts") (info n).path
        then (n, ok (search_contract rest (info n).path key))
        else (n, ok nothing_found))
