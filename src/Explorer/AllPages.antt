-- ===== src/Explorer/AllPages.antt =====
-- Loading a folder's pages one after the other comes to an end with every row.
use mathlib.Core.List.{append_assoc, append-nil}
use mathlib.Core.Path.{subst}
use interchain_event.Common.{
  ℕ, zero, suc, ◌≡◌, refl, sym, ap, ◌∙◌, true, false, Option, some, List, [], ◌∷◌, ◌++◌, length,
}
use interchain_event.Js.Text.{Text}
use interchain_event.Watcher.Machine.{Outcome, ok}
use interchain_event.Explorer.Node.{NodeInfo, StateNode, node, info, children}
use interchain_event.Explorer.Tree.{
  Page, Modules, View, is_key, apply_page, load_more, with_row_loading,
}
use interchain_event.Explorer.Paging.{
  Plain, rows, IsPaged, tail_row, apply_page-IsPaged, unmark_row,
}
use interchain_event.Explorer.LoadMore.{load_more-rows, load_more-ok, fetch_children-ok}

abbrev pub clicks : Modules → ℕ → View → View
clicks modules zero v = v
clicks modules (suc n) v = clicks modules n (load_more modules v)

abbrev pub nodes_of : List Page → List StateNode
nodes_of [] = []
nodes_of (page ∷ pages) = page.nodes ++ nodes_of pages

tail_row_nil : (i : NodeInfo) (key : Option Text) → is_key key ≡ false → tail_row i key ≡ []
unfolding tail_row
tail_row_nil i key unkeyed = simp unkeyed

-- A folder of the module at the path.
abbrev pub IsAt : Text → List Text → StateNode → Type 0
IsAt m path n = ((info n).module_name ≡ m) × ((info n).path ≡ path)

module _ (m : Text) (path : List Text) (f : StateNode → Option Text → Outcome Page) where
  -- The fetcher answers a page of rows for the key, whatever the folder at the path holds by then.
  pub record Answers (key : Option Text) (page : Page) : Type 0 where
    pub keyed : is_key key ≡ true
    pub plain : Plain page.nodes
    pub answer : (n : StateNode) → IsAt m path n → f n key ≡ ok page

  -- The pages from a key on: each has the key of the next, and the last has none.
  pub data Serves : Option Text → List Page → Type 0 where
    last : {key : Option Text} → is_key key ≡ false → Serves key []
    more :
        {key : Option Text} {page : Page} {pages : List Page}
        → Answers key page
        → Serves page.next_key pages
        → Serves key (page ∷ pages)

-- The state that loading all pages ends in.
abbrev pub IsLoaded : View → List StateNode → Type 0
IsLoaded w ns =
    (rows w.shown ≡ ns) × (is_key (info w.shown).next_page_key ≡ false) × (children w.shown ≡ ns)

module _ (modules : Modules) (m : Text) (path : List Text)
    (f : StateNode → Option Text → Outcome Page) (known : modules.fetcher m ≡ some f) where
  marked-IsAt : (n : StateNode) → IsAt m path n → IsAt m path (with_row_loading true n)
  marked-IsAt (node i ns) e = e

  load_page :
      (v : View) (page : Page)
      → IsAt m path v.shown
      → Answers m path f (info v.shown).next_page_key page
      → IsPaged v.shown
      → (load_more modules v).shown
        ≡ apply_page (with_row_loading true v.shown) (info v.shown).next_page_key page
  load_page v page named a paged =
      let n = with_row_loading true v.shown in
      let key = (info v.shown).next_page_key in
      let here : modules.fetcher (info n).module_name ≡ some f =
        subst (λ (t : Text). modules.fetcher t ≡ some f) (sym (marked-IsAt v.shown named).0)
          known in
      ap (λ (w : View). w.shown)
        (load_more-ok modules v (apply_page n key page) a.keyed
          (fetch_children-ok modules n key f page here (a.answer n (marked-IsAt v.shown named))))
      ∙ unmark_row _ (apply_page-IsPaged n key page a.plain)

  apply_page-next_page_key :
      (n : StateNode) (key : Option Text) (page : Page)
      → (info (apply_page n key page)).next_page_key ≡ page.next_key
  unfolding apply_page
  apply_page-next_page_key (node i ns) key page = refl

  apply_page-IsAt :
      (n : StateNode) (key : Option Text) (page : Page)
      → IsAt m path n
      → IsAt m path (apply_page n key page)
  unfolding apply_page
  apply_page-IsAt (node i ns) key page e = e

  IsLoaded-last :
      (v : View)
      → IsPaged v.shown
      → is_key (info v.shown).next_page_key ≡ false
      → IsLoaded v (rows v.shown ++ [])
  IsLoaded-last v paged unkeyed =
      let kept = append-nil (rows v.shown) in
      (
        sym kept,
        unkeyed,
        paged
            ∙ ap (λ (t : List StateNode). rows v.shown ++ t)
                (tail_row_nil (info v.shown) _ unkeyed),
      )

  load_pages :
      (v : View) {pages : List Page} {key : Option Text}
      → (info v.shown).next_page_key ≡ key
      → IsAt m path v.shown
      → IsPaged v.shown
      → Serves m path f key pages
      → IsLoaded (clicks modules (length pages) v) (rows v.shown ++ nodes_of pages)
  load_pages v e named paged (last unkeyed) = IsLoaded-last v paged (ap is_key e ∙ unkeyed)
  load_pages v e named paged (more {key} {page} {pages} a serves) =
      let k = (info v.shown).next_page_key in
      let a' : Answers m path f k page =
        subst (λ (o : Option Text). Answers m path f o page) (sym e) a in
      let n = with_row_loading true v.shown in
      let w = load_more modules v in
      let here : IsAt m path n = marked-IsAt v.shown named in
      let known_here : modules.fetcher (info n).module_name ≡ some f =
        subst (λ (t : Text). modules.fetcher t ≡ some f) (sym here.0) known in
      let became : w.shown ≡ apply_page n k page = load_page v page named a' paged in
      let listed : rows w.shown ≡ rows v.shown ++ page.nodes =
        load_more-rows modules v f page paged a'.keyed known_here (a'.answer n here) a'.plain in
      subst (IsLoaded (clicks modules (length pages) w))
        (ap (λ (t : List StateNode). t ++ nodes_of pages) listed
          ∙ append_assoc (rows v.shown) page.nodes (nodes_of pages))
        (load_pages w {key = page.next_key}
          (ap (λ (t : StateNode). (info t).next_page_key) became
            ∙ apply_page-next_page_key n k page)
          (subst (IsAt m path) (sym became) (apply_page-IsAt n k page here))
          (subst IsPaged (sym became) (apply_page-IsPaged n k page a'.plain)) serves)

  -- If a folder's children are its rows and, where a next page is known, one load-more row at the
  -- end, and at its path the fetcher of its module answers from the folder's next page key on each
  -- key with a page that holds no load-more row and names the next key, until a page names none:
  -- as many calls of `loadMore` as there are pages leave the folder with its rows and then those
  -- of every page in order as its only children, and with no next page.
  pub load_more_all :
      (v : View) (pages : List Page)
      → IsAt m path v.shown
      → IsPaged v.shown
      → Serves m path f (info v.shown).next_page_key pages
      → IsLoaded (clicks modules (length pages) v) (rows v.shown ++ nodes_of pages)
  load_more_all v pages named paged serves = load_pages v refl named paged serves
