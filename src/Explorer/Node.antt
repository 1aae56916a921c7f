-- ===== src/Explorer/Node.antt =====
-- `StateNode` and the functions that make nodes.
use interchain_event.Common.{
  ◌≡◌, refl, ap, Bool, true, false, Option, none, some, List, [], ◌∷◌, ◌++◌,
}
use interchain_event.Js.Text.{Text, text}

-- The fields of a node but its children; the last four are attached by `(node as any)`.
pub record NodeInfo : Type 0 where
  pub key : Text
  pub value : Option Text
  pub module_name : Text
  pub path : List Text
  pub has_children : Bool
  pub expanded : Bool
  pub loading : Bool
  pub next_page_key : Option Text
  pub is_load_more : Bool
  pub searchable : Bool
  pub search_placeholder : Option Text
  pub store_name : Option Text
  pub store_key : Option Text
  pub contract_addr : Option Text
  pub namespace : Option Text
  pub pending_watch_key : Option Text
  pub pending_store_key : Option Text

mutual
  pub data StateNode : Type 0 where
    node : NodeInfo → Nodes → StateNode

  pub data Nodes : Type 0 where
    nil : Nodes
    cons : StateNode → Nodes → Nodes

abbrev pub info : StateNode → NodeInfo
info (node i ns) = i

abbrev pub to_list : Nodes → List StateNode
to_list nil = []
to_list (cons n ns) = n ∷ to_list ns

abbrev pub of_list : List StateNode → Nodes
of_list [] = nil
of_list (n ∷ ns) = cons n (of_list ns)

abbrev pub children : StateNode → List StateNode
children (node i ns) = to_list ns

pub to_list-of_list : (ns : List StateNode) → to_list (of_list ns) ≡ ns
to_list-of_list [] = refl
to_list-of_list (n ∷ ns) = ap (λ (t : List StateNode). n ∷ t) (to_list-of_list ns)

pub of_list-to_list : (ns : Nodes) → of_list (to_list ns) ≡ ns
of_list-to_list nil = refl
of_list-to_list (cons n ns) = ap (cons n) (of_list-to_list ns)

abbrev pub plain_info : Text → List Text → Text → NodeInfo
plain_info module_name path key = record {
  key = key;
  value = none;
  module_name = module_name;
  path = path;
  has_children = false;
  expanded = false;
  loading = false;
  next_page_key = none;
  is_load_more = false;
  searchable = false;
  search_placeholder = none;
  store_name = none;
  store_key = none;
  contract_addr = none;
  namespace = none;
  pending_watch_key = none;
  pending_store_key = none;
}

-- `makeLeaf`, with the store's name and key as options.
unfoldable pub make_leaf : Text → List Text → Text → Text → Option Text → Option Text → StateNode
make_leaf module_name path key value store_name store_key =
    node
      (record (plain_info module_name (path ++ (key ∷ [])) key) {
        value = some value;
        store_name = store_name;
        store_key = store_key;
      })
      nil

-- `makeFolder`, with the placeholder of a searchable folder and the store's name as options.
unfoldable pub make_folder : Text → List Text → Text → Option Text → Option Text → StateNode
make_folder module_name path key placeholder store_name =
    node
      (record (plain_info module_name (path ++ (key ∷ [])) key) {
        has_children = true;
        searchable = elim placeholder [ none ↦ false | some p ↦ true ];
        search_placeholder = placeholder;
        store_name = store_name;
      })
      nil

unfoldable pub make_load_more : Text → List Text → StateNode
make_load_more module_name path =
    node (record (plain_info module_name path (text "__ load_more __")) { is_load_more = true }) nil
