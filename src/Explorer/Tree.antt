-- ===== src/Explorer/Tree.antt =====
-- `useStateExplorer`: `setModules`, `fetchChildren`, `toggleNode`, `loadMore` and `searchKey`. A node
-- that is changed in place is a function's argument and part of its result.
use interchain_event.Common.{
  Bool, true, false, not, ◌&&◌, Option, none, some, List, [], ◌∷◌, ◌++◌, map, filter, find,
  if◌then◌else◌,
}
use interchain_event.Js.Text.{Text, text, text_eq}
use interchain_event.Watcher.Machine.{Outcome, ok, threw}
use interchain_event.Explorer.Node.{
  NodeInfo, StateNode, node, info, to_list, of_list, children, make_folder, make_load_more,
}

-- What a module's fetcher returns: the nodes and the key of the next page, if there is one.
pub record Page : Type 0 where
  pub nodes : List StateNode
  pub next_key : Option Text

pub record Found : Type 0 where
  pub found : Bool
  pub value : Option Text
  pub found_children : Option (List StateNode)

-- The REST answers, through the registries of fetchers and searchers; a searcher may note
-- something on the node, and may throw.
pub record Modules : Type 0 where
  pub fetcher : Text → Option (StateNode → Option Text → Outcome Page)
  pub searcher : Text → Option (StateNode → Text → StateNode × Outcome Found)

-- A node and the explorer's error text.
pub record View : Type 0 where
  pub shown : StateNode
  pub error : Option Text

abbrev pub not_load_more : StateNode → Bool
not_load_more n = not (info n).is_load_more

-- A key is falsy where it is `null`, missing or empty.
abbrev pub is_key : Option Text → Bool
is_key none = false
is_key (some []) = false
is_key (some (c ∷ s)) = true

-- The explorer's `tree` and `error`.
unfoldable pub set_modules : List Text → List StateNode × Option Text
set_modules modules = (map (λ m. make_folder m [] m none none) modules, none)

-- The children after a page has come: the load-more row goes, the page is added or replaces the rest,
-- and a new row stands at the end if there is another page.
unfoldable pub page_children : NodeInfo → List StateNode → Option Text → Page → List StateNode
page_children i old page_key page =
    let kept = filter not_load_more old in
    let listed = if is_key page_key then kept ++ page.nodes else page.nodes in
    if is_key page.next_key then listed ++ (make_load_more i.module_name i.path ∷ []) else listed

abbrev pub is_nil : List StateNode → Bool
is_nil [] = true
is_nil (n ∷ ns) = false

-- `fetchChildren` from the fetcher's answer on.
unfoldable pub apply_page : StateNode → Option Text → Page → StateNode
unfolding page_children
apply_page (node i ns) page_key page =
    let next = page_children i (to_list ns) page_key page in
    node
      (record i {
        next_page_key = page.next_key;
        has_children = if is_nil next then false else i.has_children;
      })
      (of_list next)

abbrev pub set_loading : Bool → StateNode → StateNode
set_loading b (node i ns) = node (record i { loading = b }) ns

abbrev pub set_expanded : Bool → StateNode → StateNode
set_expanded b (node i ns) = node (record i { expanded = b }) ns

-- The first load-more row, as `find` gives it.
unfoldable pub set_row_loading : Bool → List StateNode → List StateNode
set_row_loading b [] = []
set_row_loading b (n ∷ ns) =
    if (info n).is_load_more then set_loading b n ∷ ns else n ∷ set_row_loading b ns

abbrev pub with_row_loading : Bool → StateNode → StateNode
with_row_loading b (node i ns) = node i (of_list (set_row_loading b (to_list ns)))

module _ (modules : Modules) where
  unfoldable pub fetch_children : StateNode → Option Text → Outcome StateNode
  unfolding apply_page
  fetch_children n page_key = elim (modules.fetcher (info n).module_name) [
    | none ↦ ok n
    | some fetcher ↦ elim (fetcher n page_key) [
      | threw e ↦ threw e
      | ok page ↦ ok (apply_page n page_key page)
    ]
  ]

  -- `${node.module}: ${e.message ?? e}`
  unfoldable pub module_error : StateNode → Text → Text
  module_error n e = (info n).module_name ++ (text ": " ++ e)

  -- The `try`, `catch` and `finally` of `toggleNode`.
  unfoldable pub load_node : StateNode → View
  load_node n = elim (fetch_children (set_loading true n) none) [
    | ok n' ↦ record { shown = set_loading false n'; error = none }
    | threw e ↦ record { shown = set_loading false n; error = some (module_error n e) }
  ]

  unfoldable pub toggle_node : View → View
  unfolding load_node
  toggle_node v =
      if (info v.shown).expanded
      then record v { shown = set_expanded false v.shown }
      else (let opened = set_expanded true v.shown in
          if is_nil (children opened) && (info opened).has_children
          then load_node opened
          else record v { shown = opened })

  -- `finally` unmarks the row that was marked; after a page it is no child any more, and the new row
  -- is not marked.
  unfoldable pub load_more : View → View
  load_more v =
      if is_key (info v.shown).next_page_key
      then elim (fetch_children (with_row_loading true v.shown) (info v.shown).next_page_key) [
        | ok n' ↦ record { shown = with_row_loading false n'; error = none }
        | threw e ↦ record {
          shown = with_row_loading false (with_row_loading true v.shown);
          error = some (module_error v.shown e);
        }
      ]
      else v

  unfoldable pub search_key : StateNode → Text → StateNode × Outcome Found
  search_key n key = elim (find (λ c. not_load_more c && text_eq (info c).key key) (children n)) [
    | some existing ↦
        (n, ok (record { found = true; value = (info existing).value; found_children = none }))
    | none ↦ elim (modules.searcher (info n).module_name) [
      | some searcher ↦ searcher n key
      | none ↦ (n, ok (record { found = false; value = none; found_children = none }))
    ]
  ]
