-- ===== src/Subscribe/Row/Missing.antt =====
-- The two ways in which a row opens the form for a key that a namespace's folder does not have.
use interchain_event.Common.{
  ℕ, ◌≡◌, refl, ap, ◌∙◌, Bool, false, ◌&&◌, none, some, List, [], ◌∷◌, find, arith,
}
use interchain_event.Js.Text.{Text, text, text_eq}
use interchain_event.Codec.Key.Build.{wasm_store_key_for_ns_entry}
use interchain_event.Watcher.Machine.{ok}
use interchain_event.Explorer.Node.{NodeInfo, Nodes, StateNode, node, info, children}
use interchain_event.Explorer.Tree.{Modules, not_load_more, search_key}
use interchain_event.Explorer.Wasm.{WasmRest, nothing_found, search_folder, search_wasm}
use interchain_event.Subscribe.Row.{
  Row, opened, synthetic_node, on_search, open_subscribe_exists, open_subscribe_for_search,
  page_size,
}
use interchain_event.Subscribe.Row.Address.{row_store_key-eq}

abbrev has_key : Text → StateNode → Bool
has_key key n = text_eq (info n).key key

find_narrower :
    (key : Text) (ns : List StateNode)
    → find (has_key key) ns ≡ none
    → find (λ n. not_load_more n && has_key key n) ns ≡ none
find_narrower key [] h = refl
find_narrower key (n ∷ ns) h = ground (arith, find_narrower key ns)

module _ (modules : Modules) (rest : WasmRest) (row : Row) (i : NodeInfo) (ns : Nodes) (a c k : ℕ)
    (addr namespace key store_key : Text) (shown : row.view.shown ≡ node i ns)
    (typed : row.search_input ≡ k ∷ key) (of_contract : i.contract_addr ≡ some (a ∷ addr))
    (of_namespace : i.namespace ≡ some (c ∷ namespace))
    (searched : modules.searcher i.module_name ≡ some (search_wasm rest))
    (missing : find (λ n. text_eq (info n).key (k ∷ key)) (children (node i ns)) ≡ none) (s : ℕ)
    (stored : wasm_store_key_for_ns_entry (a ∷ addr) (c ∷ namespace) (k ∷ key)
      ≡ some (s ∷ store_key)) where
  abbrev noted_node : StateNode
  noted_node =
      node
        (record i { pending_watch_key = some (k ∷ key); pending_store_key = some (s ∷ store_key) })
        ns

  search_folder-key :
      search_folder (node i ns) (a ∷ addr) (c ∷ namespace) (k ∷ key)
      ≡ (noted_node, ok nothing_found)
  unfolding search_folder
  search_folder-key = simp (search_folder, missing, stored)

  search_wasm-key : search_wasm rest (node i ns) (k ∷ key) ≡ (noted_node, ok nothing_found)
  unfolding search_wasm
  search_wasm-key = ground (arith, search_folder-key)

  search_key-key : search_key modules (node i ns) (k ∷ key) ≡ (noted_node, ok nothing_found)
  unfolding search_key
  search_key-key = simp (
    search_key,
    find_narrower (k ∷ key) (children (node i ns)) missing,
    searched,
    search_wasm-key,
  )

  -- The row after the search: nothing found, and the key noted on its node.
  abbrev pub missing_row : Row
  missing_row = record row {
    view = record { shown = noted_node; error = row.view.error };
    searching = false;
    search_result = some nothing_found;
    displayed_search_count = page_size;
  }

  on_search-missing_row : on_search modules row ≡ missing_row
  unfolding on_search
  on_search-missing_row = simp (on_search, shown, typed, search_key-key)

  abbrev pub watched_node : StateNode
  watched_node = synthetic_node i.path (k ∷ key) (s ∷ store_key)

  open_subscribe_exists-missing :
      open_subscribe_exists missing_row
      ≡ opened (some watched_node) (some (text "Exists")) none none missing_row
  unfolding open_subscribe_exists
  open_subscribe_exists-missing = refl

  open_subscribe_for_search-typed :
      open_subscribe_for_search row
      ≡ opened (some watched_node) (some (text "Exists")) none none row
  unfolding open_subscribe_for_search
  open_subscribe_for_search-typed =
      let key_written =
        row_store_key-eq (a ∷ addr) (c ∷ namespace) (k ∷ key) (s ∷ store_key) stored in
      simp (open_subscribe_for_search, shown, typed, of_contract, of_namespace, key_written)

  -- In a namespace folder of a contract whose address decodes, for a typed key that no child has:
  -- the button beside the search field opens the form on a node with the key and the store key
  -- that `wasmStoreKeyForNsEntry` makes of address, namespace and key, though it has its own code
  -- for it; and a search for the key, after which the button for a missing key is used, opens the
  -- form on the same node. Both begin with the condition `Exists`.
  pub watch_missing_key :
      (open_subscribe_for_search row
        ≡ opened (some watched_node) (some (text "Exists")) none none row)
      × (open_subscribe_exists (on_search modules row)
          ≡ opened (some watched_node) (some (text "Exists")) none none missing_row)
  watch_missing_key = (
    open_subscribe_for_search-typed,
    ap open_subscribe_exists on_search-missing_row ∙ open_subscribe_exists-missing,
  )
