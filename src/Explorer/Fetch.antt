-- ===== src/Explorer/Fetch.antt =====
-- What the module fetchers of frontend/app/composables/useStateExplorer.ts have in common.
pub mod Cosmos
pub mod Neutron
use interchain_event.Common.{
  ℕ, Bool, true, false, Option, none, some, List, [], ◌∷◌, ◌++◌, length, ◌==◌, if◌then◌else◌,
}
use interchain_event.Js.Text.{Text, text, text_eq}
use interchain_event.Js.Value.{Value}
use interchain_event.Watcher.Machine.{Outcome, ok, threw}
use interchain_event.Explorer.Node.{StateNode, info, make_leaf, make_folder}
use interchain_event.Explorer.Tree.{Page, Found, is_key}
use interchain_event.Explorer.Wasm.{includes}
use interchain_event.Explorer.Json.{
  ◌>>=◌, read_field, read_optional, or_else, items_of, empty_array, empty_object, object_entries,
  shown, some_text, map_items,
}

-- `$fetch` of a URL with a query, and `JSON.stringify`.
pub record Api : Type 0 where
  pub fetch : Text → List (Text × Text) → Outcome Value
  pub stringify : Value → Text

-- `node.path.length === 1`
abbrev pub is_root : List Text → Bool
is_root path = length path == 1

abbrev pub paginated : List StateNode → Option Text → Page
paginated nodes next_key = record { nodes = nodes; next_key = next_key }

abbrev pub last_page : List StateNode → Outcome Page
last_page nodes = ok (paginated nodes none)

abbrev pub plain_folder : Text → List Text → Text → StateNode
plain_folder module_name path name = make_folder module_name path name none none

abbrev pub searchable_folder : Text → List Text → Text → Text → StateNode
searchable_folder module_name path name placeholder =
    make_folder module_name path name (some placeholder) none

abbrev pub plain_leaf : Text → List Text → Text → Text → StateNode
plain_leaf module_name path key value = make_leaf module_name path key value none none

-- The limit, `pagination.reverse` where a fetcher asks for it, and the page's key.
unfoldable pub page_query : Bool → Option Text → List (Text × Text)
unfolding text
page_query reverse page_key =
    let key : List (Text × Text) = elim page_key [
      | none ↦ []
      | some k ↦ if is_key (some k) then (text "pagination.key", k) ∷ [] else []
    ] in
    (text "pagination.limit", text "30")
    ∷ (if reverse then (text "pagination.reverse", text "true") ∷ key else key)

-- `res.pagination?.next_key || null`
unfoldable pub next_key_of : Value → Outcome (Option Text)
next_key_of res = do
  pagination ← read_field (text "pagination") (some res)
  ok (some_text (read_optional (text "next_key") pagination))

module _ (api : Api) (rest : Text) where
  -- A page of a list: the request, a leaf for every item, and the next page's key.
  unfoldable pub fetch_list :
      Text → Bool → Option Text → Text → (Value → Outcome StateNode) → Outcome Page
  unfolding page_query next_key_of
  fetch_list url reverse page_key name leaf = do
    res ← api.fetch (rest ++ url) (page_query reverse page_key)
    listed ← read_field name (some res)
    items ← items_of (or_else listed empty_array)
    nodes ← map_items leaf items
    next_key ← next_key_of res
    ok (paginated nodes next_key)

  -- A leaf for each entry of an object, here of the answer's `params`.
  unfoldable pub params_leaf :
      (Option Value → Outcome Text) → Text → List Text → Text × Value → Outcome StateNode
  params_leaf show module_name path (k, v) = do
    value ← show (some v)
    ok (plain_leaf module_name path k value)

  unfoldable pub fetch_params :
      (Option Value → Outcome Text) → Text → List Text → Text → Outcome Page
  unfolding params_leaf
  fetch_params show module_name path url = do
    res ← api.fetch (rest ++ url) []
    params ← read_field (text "params") (some res)
    entries ← object_entries (or_else params empty_object)
    nodes ← map_items (params_leaf show module_name path) entries
    last_page nodes

  -- `JSON.stringify(v)` of an entry's value.
  abbrev pub stringified : Option Value → Outcome Text
  stringified none = ok (text "undefined")
  stringified (some v) = ok (api.stringify v)

  -- A module whose root has the one folder `params`.
  unfoldable pub fetch_only_params :
      (Option Value → Outcome Text) → Text → Text → StateNode → Outcome Page
  unfolding fetch_params
  fetch_only_params show module_name url n =
      let path : List Text = (info n).path in
      if is_root path
      then last_page (plain_folder module_name path (text "params") ∷ [])
      else if includes (text "params") path
      then fetch_params show module_name path url
      else last_page []
