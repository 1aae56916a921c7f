-- ===== src/Explorer/Registry/Plain.antt =====
-- What fetchers return: rules for rows that are no load-more rows.
use interchain_event.Common.{
  ◌≡◌, refl, Bool, true, false, Option, none, List, [], ◌∷◌, All, if◌then◌else◌,
}
use interchain_event.Js.Text.{Text, text}
use interchain_event.Js.Value.{Value}
use interchain_event.Watcher.Machine.{Outcome, ok, threw}
use interchain_event.Explorer.Node.{StateNode, info, make_leaf, make_folder}
use interchain_event.Explorer.Tree.{Page, not_load_more}
use interchain_event.Explorer.Wasm.{includes}
use interchain_event.Explorer.Json.{◌>>=◌, map_items}
use interchain_event.Explorer.Fetch.{
  Api, is_root, last_page, fetch_list, params_leaf, fetch_params, fetch_only_params,
}

abbrev pub Holds : {A : Type 0} → (A → Type 0) → Outcome A → Type 0
Holds Q (ok a) = Q a
Holds Q (threw e) = Unit

-- What is returned has the property.
pub record Gives {A : Type 0} (Q : A → Type 0) (o : Outcome A) : Type 0 where
  pub holds : Holds Q o

abbrev pub IsRow : StateNode → Type 0
IsRow n = not_load_more n ≡ true

abbrev pub HasRows : Page → Type 0
HasRows page = All IsRow page.nodes

bind_Holds :
    {A B : Type 0} (P : A → Type 0) (Q : B → Type 0) (m : Outcome A) (f : A → Outcome B)
    → Holds P m
    → ((a : A) → P a → Gives Q (f a))
    → Holds Q (m >>= f)
unfolding ◌>>=◌
bind_Holds P Q (ok a) f p h = (h a p).holds
bind_Holds P Q (threw e) f p h = tt

pub chain_Gives :
    {A B : Type 0} {P : A → Type 0} {Q : B → Type 0} {m : Outcome A} {f : A → Outcome B}
    → Gives P m
    → ((a : A) → P a → Gives Q (f a))
    → Gives Q (m >>= f)
chain_Gives {P} {Q} {m} {f} p h = record { holds = bind_Holds P Q m f p.holds h }

any_Holds : {A : Type 0} (m : Outcome A) → Holds (λ a. Unit {0}) m
any_Holds (ok a) = tt
any_Holds (threw e) = tt

pub any_Gives : {A : Type 0} (m : Outcome A) → Gives (λ a. Unit {0}) m
any_Gives m = record { holds = any_Holds m }

pub ok_Gives : {A : Type 0} {Q : A → Type 0} (a : A) → Q a → Gives Q (ok a)
ok_Gives a q = record { holds = q }

pub if_Gives :
    {A : Type 0} {Q : A → Type 0} (b : Bool) {x y : Outcome A}
    → Gives Q x
    → Gives Q y
    → Gives Q (if b then x else y)
if_Gives true h k = h
if_Gives false h k = k

pub map_items-Gives :
    {A : Type 0} (f : A → Outcome StateNode) (as' : List A)
    → ((a : A) → Gives IsRow (f a))
    → Gives (All IsRow) (map_items f as')
unfolding map_items
map_items-Gives f [] h = ok_Gives [] tt
map_items-Gives f (a ∷ as') h =
    chain_Gives (h a)
      λ n row. chain_Gives (map_items-Gives f as' h) λ ns rows. ok_Gives _ (row, rows)

pub leaf_Gives :
    (m : Text) (path : List Text) (key value : Text) (store_name store_key : Option Text)
    → Gives IsRow (ok (make_leaf m path key value store_name store_key))
leaf_Gives m path key value store_name store_key = ok_Gives _ (unfold make_leaf in refl)

pub folder_IsRow :
    (m : Text) (path : List Text) (name : Text) (p s : Option Text)
    → IsRow (make_folder m path name p s)
unfolding make_folder
folder_IsRow m path name p s = refl

pub no_rows : Gives HasRows (last_page [])
no_rows = ok_Gives _ tt

module _ (api : Api) (rest : Text) where
  pub fetch_list-Gives :
      (url : Text) (reverse : Bool) (page_key : Option Text) (name : Text)
      (leaf : Value → Outcome StateNode)
      → ((v : Value) → Gives IsRow (leaf v))
      → Gives HasRows (fetch_list api rest url reverse page_key name leaf)
  unfolding fetch_list
  fetch_list-Gives url reverse page_key name leaf h = chain_Gives (any_Gives _) λ res u.
      chain_Gives (any_Gives _) λ listed u. chain_Gives (any_Gives _) λ items u.
        chain_Gives (map_items-Gives leaf items h)
          λ nodes rows. chain_Gives (any_Gives _) λ next_key u. ok_Gives _ rows

  pub params_leaf-Gives :
      (show : Option Value → Outcome Text) (m : Text) (path : List Text) (e : Text × Value)
      → Gives IsRow (params_leaf api rest show m path e)
  unfolding params_leaf
  params_leaf-Gives show m path (k, v) = chain_Gives (any_Gives _) λ value u. leaf_Gives _ _ _ _ _ _

  pub fetch_params-Gives :
      (show : Option Value → Outcome Text) (m : Text) (path : List Text) (url : Text)
      → Gives HasRows (fetch_params api rest show m path url)
  unfolding fetch_params
  fetch_params-Gives show m path url = chain_Gives (any_Gives _) λ res u.
      chain_Gives (any_Gives _) λ params u. chain_Gives (any_Gives _) λ entries u.
        chain_Gives (map_items-Gives _ entries (params_leaf-Gives show m path))
          λ nodes rows. ok_Gives _ rows

  pub fetch_only_params-Gives :
      (show : Option Value → Outcome Text) (m url : Text) (n : StateNode)
      → Gives HasRows (fetch_only_params api rest show m url n)
  unfolding fetch_only_params
  fetch_only_params-Gives show m url n =
      if_Gives (is_root (info n).path)
        (ok_Gives _ (folder_IsRow m (info n).path (text "params") none none, tt))
        (if_Gives (includes (text "params") (info n).path)
          (fetch_params-Gives show m (info n).path url) no_rows)
