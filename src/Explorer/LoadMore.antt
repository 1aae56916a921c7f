-- ===== src/Explorer/LoadMore.antt =====
-- `loadMore` of the state explorer: what it keeps and what it adds.
use interchain_event.Common.{
  ◌≡◌, Bool, true, false, Option, none, some, List, [], ◌++◌, if◌then◌else◌, refl, sym, ◌∙◌, ap,
  Bool-cases, Option-cases, ◌⊎◌, inl, inr,
}
use mathlib.Core.Path.{subst}
use interchain_event.Js.Text.{Text}
use interchain_event.Watcher.Machine.{Outcome, ok, threw}
use interchain_event.Explorer.Node.{StateNode, info}
use interchain_event.Explorer.Tree.{
  Page, Modules, View, is_key, apply_page, fetch_children, module_error, load_more,
  with_row_loading,
}
use interchain_event.Explorer.Paging.{
  Plain, rows, IsPaged, HasPlainPages, apply_page-rows, apply_page-IsPaged, with_row_loading-rows,
  unmark_row, mark_unmark_row,
}

-- The answer that `load_more` gets to its request.
abbrev pub answer : Modules → StateNode → Outcome StateNode
answer modules n = fetch_children modules (with_row_loading true n) (info n).next_page_key

pub load_more-ok :
    (modules : Modules) (v : View) (n : StateNode)
    → is_key (info v.shown).next_page_key ≡ true
    → answer modules v.shown ≡ ok n
    → load_more modules v ≡ record { shown = with_row_loading false n; error = none }
unfolding load_more
load_more-ok modules v n keyed got = simp (keyed, got)

pub load_more-threw :
    (modules : Modules) (v : View) (e : Text)
    → is_key (info v.shown).next_page_key ≡ true
    → answer modules v.shown ≡ threw e
    → load_more modules v ≡ record {
      shown = with_row_loading false (with_row_loading true v.shown);
      error = some (module_error modules v.shown e);
    }
unfolding load_more
load_more-threw modules v e keyed got = simp (keyed, got)

pub load_more-unkeyed :
    (modules : Modules) (v : View)
    → is_key (info v.shown).next_page_key ≡ false
    → load_more modules v ≡ v
unfolding load_more
load_more-unkeyed modules v unkeyed = simp unkeyed

pub fetch_children-unknown :
    (modules : Modules) (n : StateNode) (key : Option Text)
    → modules.fetcher (info n).module_name ≡ none
    → fetch_children modules n key ≡ ok n
unfolding fetch_children
fetch_children-unknown modules n key unknown = simp (fetch_children, unknown)

pub fetch_children-ok :
    (modules : Modules) (n : StateNode) (key : Option Text)
    (f : StateNode → Option Text → Outcome Page) (page : Page)
    → modules.fetcher (info n).module_name ≡ some f
    → f n key ≡ ok page
    → fetch_children modules n key ≡ ok (apply_page n key page)
unfolding fetch_children
fetch_children-ok modules n key f page known got = simp (fetch_children, known, got)

pub fetch_children-threw :
    (modules : Modules) (n : StateNode) (key : Option Text)
    (f : StateNode → Option Text → Outcome Page) (e : Text)
    → modules.fetcher (info n).module_name ≡ some f
    → f n key ≡ threw e
    → fetch_children modules n key ≡ threw e
unfolding fetch_children
fetch_children-threw modules n key f e known got = simp (fetch_children, known, got)

pub Outcome-cases :
    {A : Type 0} (o : Outcome A) → ((a : A) × (o ≡ ok a)) ⊎ ((e : Text) × (o ≡ threw e))
Outcome-cases (ok a) = inl (a, refl)
Outcome-cases (threw e) = inr (e, refl)

-- Where no page of a fetcher holds a load-more row: if a folder's children are its rows and then,
-- where a next page is known, one load-more row, the same holds after `loadMore`, whatever the
-- fetcher answers and also where the module has none.
pub load_more-IsPaged :
    (modules : Modules) (v : View)
    → HasPlainPages modules
    → IsPaged v.shown
    → IsPaged (load_more modules v).shown
load_more-IsPaged modules v plain paged =
    let n = with_row_loading true v.shown in
    let key = (info v.shown).next_page_key in
    elim (Bool-cases (is_key key)) [
      | inr unkeyed ↦
          subst (λ (w : View). IsPaged w.shown) (sym (load_more-unkeyed modules v unkeyed)) paged
      | inl keyed ↦ elim (Option-cases (modules.fetcher (info n).module_name)) [
        | inl unknown ↦
            subst (λ (w : View). IsPaged w.shown)
              (sym (load_more-ok modules v n keyed (fetch_children-unknown modules n key unknown)))
              (subst IsPaged (sym (mark_unmark_row v.shown paged)) paged)
        | inr (f, known) ↦ elim (Outcome-cases (f n key)) [
          | inl (page, got) ↦
              let next = apply_page n key page in
              let next_paged =
                apply_page-IsPaged n key page (plain (info n).module_name f known n key page got) in
              subst (λ (w : View). IsPaged w.shown)
                (sym (
                  load_more-ok modules v next keyed
                    (fetch_children-ok modules n key f page known got)))
                (subst IsPaged (sym (unmark_row next next_paged)) next_paged)
          | inr (e, got) ↦
              subst (λ (w : View). IsPaged w.shown)
                (sym (
                  load_more-threw modules v e keyed
                    (fetch_children-threw modules n key f e known got)))
                (subst IsPaged (sym (mark_unmark_row v.shown paged)) paged)
        ]
      ]
    ]

-- If a folder's children are its rows and one load-more row, and the module's fetcher returns for
-- the next page's key a page without load-more rows, then after `loadMore` the folder's rows are
-- the ones before and behind them the page's nodes.
pub load_more-rows :
    (modules : Modules) (v : View) (f : StateNode → Option Text → Outcome Page) (page : Page)
    → IsPaged v.shown
    → is_key (info v.shown).next_page_key ≡ true
    → modules.fetcher (info (with_row_loading true v.shown)).module_name ≡ some f
    → f (with_row_loading true v.shown) (info v.shown).next_page_key ≡ ok page
    → Plain page.nodes
    → rows (load_more modules v).shown ≡ rows v.shown ++ page.nodes
load_more-rows modules v f page paged keyed known got plain =
    let n = with_row_loading true v.shown in
    let key = (info v.shown).next_page_key in
    let next = apply_page n key page in
    ap (λ (w : View). rows w.shown)
      (load_more-ok modules v next keyed (fetch_children-ok modules n key f page known got))
    ∙ with_row_loading-rows false next
    ∙ apply_page-rows n key page plain
    ∙ ap (λ (b : Bool). (if b then rows n else []) ++ page.nodes) keyed
    ∙ ap (λ (t : List StateNode). t ++ page.nodes) (with_row_loading-rows true v.shown)

-- If a folder's children are its rows and one load-more row, and the module's fetcher fails for
-- the next page's key, `loadMore` leaves the folder as it was and shows the module's name and the
-- failure's message.
pub load_more-error :
    (modules : Modules) (v : View) (f : StateNode → Option Text → Outcome Page) (e : Text)
    → IsPaged v.shown
    → is_key (info v.shown).next_page_key ≡ true
    → modules.fetcher (info (with_row_loading true v.shown)).module_name ≡ some f
    → f (with_row_loading true v.shown) (info v.shown).next_page_key ≡ threw e
    → load_more modules v
      ≡ record { shown = v.shown; error = some (module_error modules v.shown e) }
load_more-error modules v f e paged keyed known got =
    let n = with_row_loading true v.shown in
    let key = (info v.shown).next_page_key in
    load_more-threw modules v e keyed (fetch_children-threw modules n key f e known got)
    ∙ ap (λ (m : StateNode). record { shown = m; error = some (module_error modules v.shown e) })
        (mark_unmark_row v.shown paged)
