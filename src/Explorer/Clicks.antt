-- ===== src/Explorer/Clicks.antt =====
-- Clicks on a folder of the explorer: its rows stay in place through any of them.
use mathlib.Core.Path.{subst}
use interchain_event.Common.{
  ◌≡◌, refl, sym, Bool, true, false, ◌&&◌, Option, none, List, if◌then◌else◌, Option-cases, inl,
  inr, arith,
}
use interchain_event.Js.Text.{Text}
use interchain_event.Watcher.Machine.{ok, threw}
use interchain_event.Explorer.Node.{StateNode, node, info, children, make_folder}
use interchain_event.Explorer.Tree.{
  Modules, View, is_nil, apply_page, set_loading, set_expanded, fetch_children, load_node,
  toggle_node, load_more,
}
use interchain_event.Explorer.Paging.{IsPaged, HasPlainPages, tail_row, apply_page-IsPaged}
use interchain_event.Explorer.LoadMore.{
  fetch_children-unknown, fetch_children-ok, fetch_children-threw, Outcome-cases, load_more-IsPaged,
}
use interchain_event.Explorer.Wasm.{WasmRest}
use interchain_event.Explorer.Fetch.{Api}
use interchain_event.Explorer.Registry.{explorer_modules}
use interchain_event.Explorer.Registry.Rows.{explorer_modules-HasPlainPages}

set_loading-IsPaged : (b : Bool) (n : StateNode) → IsPaged n → IsPaged (set_loading b n)
unfolding tail_row
set_loading-IsPaged b (node i ns) paged = paged

set_expanded-IsPaged : (b : Bool) (n : StateNode) → IsPaged n → IsPaged (set_expanded b n)
unfolding tail_row
set_expanded-IsPaged b (node i ns) paged = paged

load_node-ok :
    (modules : Modules) (n n' : StateNode)
    → fetch_children modules (set_loading true n) none ≡ ok n'
    → (load_node modules n).shown ≡ set_loading false n'
unfolding load_node
load_node-ok modules n n' got = simp (load_node, got)

load_node-threw :
    (modules : Modules) (n : StateNode) (e : Text)
    → fetch_children modules (set_loading true n) none ≡ threw e
    → (load_node modules n).shown ≡ set_loading false n
unfolding load_node
load_node-threw modules n e got = simp (load_node, got)

fetch_children-IsPaged :
    (modules : Modules) (n n' : StateNode) (key : Option Text)
    → HasPlainPages modules
    → IsPaged n
    → fetch_children modules n key ≡ ok n'
    → IsPaged n'
fetch_children-IsPaged modules n n' key plain paged got =
    elim (Option-cases (modules.fetcher (info n).module_name)) [
      | inl unknown ↦
          let same : n ≡ n' = ground (arith, fetch_children-unknown modules n key unknown) in
          subst IsPaged same paged
      | inr (f, known) ↦ elim (Outcome-cases (f n key)) [
        | inl (page, answered) ↦
            let same : apply_page n key page ≡ n' =
              ground (arith, fetch_children-ok modules n key f page known answered) in
            subst IsPaged same (
              apply_page-IsPaged n key page
                (plain (info n).module_name f known n key page answered))
        | inr (e, failed) ↦ ground (arith, fetch_children-threw modules n key f e known failed)
      ]
    ]

load_node-IsPaged :
    (modules : Modules) (n : StateNode)
    → HasPlainPages modules
    → IsPaged n
    → IsPaged (load_node modules n).shown
load_node-IsPaged modules n plain paged =
    elim (Outcome-cases (fetch_children modules (set_loading true n) none)) [
      | inl (n', got) ↦ subst IsPaged (sym (load_node-ok modules n n' got)) (
          set_loading-IsPaged false n' (
            fetch_children-IsPaged modules (set_loading true n) n' none plain
              (set_loading-IsPaged true n paged) got))
      | inr (e, got) ↦
          subst IsPaged (sym (load_node-threw modules n e got)) (set_loading-IsPaged false n paged)
    ]

if_IsPaged :
    (b : Bool) (v w : View) → IsPaged v.shown → IsPaged w.shown → IsPaged (if b then v else w).shown
if_IsPaged true v w h k = h
if_IsPaged false v w h k = k

toggle_node-IsPaged :
    (modules : Modules) (v : View)
    → HasPlainPages modules
    → IsPaged v.shown
    → IsPaged (toggle_node modules v).shown
unfolding toggle_node
toggle_node-IsPaged modules v plain paged =
    let opened = set_expanded true v.shown in
    let opened_paged = set_expanded-IsPaged true v.shown paged in
    if_IsPaged (info v.shown).expanded (record v { shown = set_expanded false v.shown }) _
      (set_expanded-IsPaged false v.shown paged)
      (if_IsPaged (is_nil (children opened) && (info opened).has_children)
        (load_node modules opened) (record v { shown = opened })
        (load_node-IsPaged modules opened plain opened_paged) opened_paged)

-- What a user may do to a folder, one click after the other.
pub data Clicked (modules : Modules) (v : View) : View → Type 0 where
  shown : Clicked modules v v
  toggled : {w : View} → Clicked modules v w → Clicked modules v (toggle_node modules w)
  loaded : {w : View} → Clicked modules v w → Clicked modules v (load_more modules w)

Clicked-IsPaged :
    {modules : Modules} {v w : View}
    → HasPlainPages modules
    → IsPaged v.shown
    → Clicked modules v w
    → IsPaged w.shown
Clicked-IsPaged plain paged shown = paged
Clicked-IsPaged {modules} plain paged (toggled {w} c) =
    toggle_node-IsPaged modules w plain (Clicked-IsPaged plain paged c)
Clicked-IsPaged {modules} plain paged (loaded {w} c) =
    load_more-IsPaged modules w plain (Clicked-IsPaged plain paged c)

folder-IsPaged :
    (m : Text) (path : List Text) (name : Text) (p s : Option Text)
    → IsPaged (make_folder m path name p s)
unfolding make_folder tail_row
folder-IsPaged m path name p s = refl

-- For any folder of any module of the explorer, as `makeFolder` makes it at any path, and whatever
-- its module's REST requests answer: any clicks that expand, collapse or load more of it leave its
-- children as its rows and then, where a next page is known, one load-more row.
pub explorer_clicks-IsPaged :
    (api : Api) (rest : Text) (wasm_rest : WasmRest) (m : Text) (path : List Text) (name : Text)
    (store prefix : Option Text) (w : View)
    → Clicked
        (explorer_modules api rest wasm_rest)
        (record { shown = make_folder m path name store prefix; error = none })
        w
    → IsPaged w.shown
explorer_clicks-IsPaged api rest wasm_rest m path name store prefix w c =
    Clicked-IsPaged (explorer_modules-HasPlainPages api rest wasm_rest)
      (folder-IsPaged m path name store prefix) c
