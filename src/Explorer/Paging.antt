-- ===== src/Explorer/Paging.antt =====
-- The pages of a folder in the state explorer: where the load-more row stands, and what a page adds.
use interchain_event.Common.{
  ◌≡◌, Bool, true, false, Option, some, List, [], ◌∷◌, ◌++◌, filter, if◌then◌else◌, refl, sym, ◌∙◌,
  ap, Bool-cases, inl, inr,
}
use mathlib.Core.List.{append-nil}
use interchain_event.Js.Text.{Text}
use interchain_event.Watcher.Machine.{Outcome, ok}
use interchain_event.Explorer.Node.{
  NodeInfo, StateNode, node, info, to_list, of_list, children, make_load_more, to_list-of_list,
  of_list-to_list,
}
use interchain_event.Explorer.Tree.{
  Page, Modules, not_load_more, is_key, page_children, apply_page, set_row_loading,
  with_row_loading,
}

-- No row of the list is a load-more row.
abbrev pub Plain : List StateNode → Type 0
Plain ns = filter not_load_more ns ≡ ns

-- The load-more row that stands at the end where a next page is known.
unfoldable pub tail_row : NodeInfo → Option Text → List StateNode
tail_row i key = if is_key key then make_load_more i.module_name i.path ∷ [] else []

-- The children other than load-more rows.
abbrev pub rows : StateNode → List StateNode
rows n = filter not_load_more (children n)

-- The children are the rows and, where a next page is known, one load-more row at the end.
abbrev pub IsPaged : StateNode → Type 0
IsPaged n = children n ≡ rows n ++ tail_row (info n) (info n).next_page_key

-- A page that a fetcher returns holds no load-more row.
abbrev pub HasPlainPages : Modules → Type 0
HasPlainPages modules =
    (m : Text) (f : StateNode → Option Text → Outcome Page)
    → modules.fetcher m ≡ some f
    → (n : StateNode) (key : Option Text) (page : Page) → f n key ≡ ok page
    → Plain page.nodes

pub filter-append :
    (f : StateNode → Bool) (xs ys : List StateNode)
    → filter f (xs ++ ys) ≡ filter f xs ++ filter f ys
filter-append f [] ys = refl
filter-append f (x ∷ xs) ys = elim (Bool-cases (f x)) [
  | inl h ↦ simp (h, filter-append f xs ys)
  | inr h ↦ simp (h, filter-append f xs ys)
]

pub filter-filter :
    (f : StateNode → Bool) (xs : List StateNode) → filter f (filter f xs) ≡ filter f xs
filter-filter f [] = refl
filter-filter f (x ∷ xs) = elim (Bool-cases (f x)) [
  | inl h ↦ simp (h, filter-filter f xs)
  | inr h ↦ simp (h, filter-filter f xs)
]

pub filter-tail_row :
    (i : NodeInfo) (key : Option Text) → filter not_load_more (tail_row i key) ≡ []
unfolding tail_row make_load_more
filter-tail_row i key = elim (Bool-cases (is_key key)) [ inl h ↦ simp h | inr h ↦ simp h ]

pub page_children-eq :
    (i : NodeInfo) (old : List StateNode) (key : Option Text) (page : Page)
    → page_children i old key page
      ≡ ((if is_key key then filter not_load_more old else []) ++ page.nodes)
        ++ tail_row i page.next_key
unfolding page_children tail_row
page_children-eq i old key page = elim (Bool-cases (is_key key)) [
  | inl h ↦ elim (Bool-cases (is_key page.next_key)) [
    | inl k ↦ simp (h, k)
    | inr k ↦ simp (h, k, append-nil)
  ]
  | inr h ↦ elim (Bool-cases (is_key page.next_key)) [
    | inl k ↦ simp (h, k)
    | inr k ↦ simp (h, k, append-nil)
  ]
]

pub page_children-filter :
    (i : NodeInfo) (old : List StateNode) (key : Option Text) (page : Page)
    → Plain page.nodes
    → filter not_load_more (page_children i old key page)
      ≡ (if is_key key then filter not_load_more old else []) ++ page.nodes
page_children-filter i old key page plain = elim (Bool-cases (is_key key)) [
  | inl h ↦ simp (
    h,
    page_children-eq i old key page,
    filter-append,
    filter-tail_row,
    filter-filter,
    plain,
    append-nil,
  )
  | inr h ↦
      simp (h, page_children-eq i old key page, filter-append, filter-tail_row, plain, append-nil)
]

pub apply_page-rows :
    (n : StateNode) (key : Option Text) (page : Page)
    → Plain page.nodes
    → rows (apply_page n key page) ≡ (if is_key key then rows n else []) ++ page.nodes
unfolding apply_page
apply_page-rows (node i ns) key page plain =
    ap (filter not_load_more) (to_list-of_list (page_children i (to_list ns) key page))
    ∙ page_children-filter i (to_list ns) key page plain

pub apply_page-IsPaged :
    (n : StateNode) (key : Option Text) (page : Page)
    → Plain page.nodes
    → IsPaged (apply_page n key page)
unfolding apply_page tail_row
apply_page-IsPaged (node i ns) key page plain =
    to_list-of_list (page_children i (to_list ns) key page)
    ∙ page_children-eq i (to_list ns) key page
    ∙ ap (λ (t : List StateNode). t ++ tail_row i page.next_key)
        (sym (apply_page-rows (node i ns) key page plain))

-- Marking the load-more row leaves the rows alone.
pub filter-set_row_loading :
    (b : Bool) (ns : List StateNode)
    → filter not_load_more (set_row_loading b ns) ≡ filter not_load_more ns
unfolding set_row_loading
filter-set_row_loading b [] = refl
filter-set_row_loading b (node i ms ∷ ns) = elim (Bool-cases i.is_load_more) [
  | inl h ↦ simp h
  | inr h ↦ simp (h, filter-set_row_loading b ns)
]

pub with_row_loading-rows : (b : Bool) (n : StateNode) → rows (with_row_loading b n) ≡ rows n
with_row_loading-rows b (node i ns) =
    ap (filter not_load_more) (to_list-of_list (set_row_loading b (to_list ns)))
    ∙ filter-set_row_loading b (to_list ns)

pub set_row_loading-append :
    (b : Bool) (xs ys : List StateNode)
    → set_row_loading b (filter not_load_more xs ++ ys)
      ≡ filter not_load_more xs ++ set_row_loading b ys
unfolding set_row_loading
set_row_loading-append b [] ys = refl
set_row_loading-append b (node i ms ∷ ns) ys = elim (Bool-cases i.is_load_more) [
  | inl h ↦ simp (h, set_row_loading-append b ns ys)
  | inr h ↦ simp (h, set_row_loading-append b ns ys)
]

set_row_loading-tail_row :
    (i : NodeInfo) (key : Option Text) → set_row_loading false (tail_row i key) ≡ tail_row i key
unfolding set_row_loading tail_row make_load_more
set_row_loading-tail_row i key = elim (Bool-cases (is_key key)) [ inl h ↦ simp h | inr h ↦ simp h ]

set_row_loading-tail_row_marked :
    (i : NodeInfo) (key : Option Text)
    → set_row_loading false (set_row_loading true (tail_row i key)) ≡ tail_row i key
unfolding set_row_loading tail_row make_load_more
set_row_loading-tail_row_marked i key = elim (Bool-cases (is_key key)) [
  | inl h ↦ simp h
  | inr h ↦ simp h
]

pub unmark_row : (n : StateNode) → IsPaged n → with_row_loading false n ≡ n
unmark_row (node i ns) paged =
    ap (λ (t : List StateNode). node i (of_list t))
      (ap (set_row_loading false) paged
        ∙ set_row_loading-append false (to_list ns) (tail_row i i.next_page_key)
        ∙ ap (λ (t : List StateNode). rows (node i ns) ++ t)
            (set_row_loading-tail_row i i.next_page_key)
        ∙ sym paged)
    ∙ ap (node i) (of_list-to_list ns)

pub mark_unmark_row :
    (n : StateNode) → IsPaged n → with_row_loading false (with_row_loading true n) ≡ n
mark_unmark_row (node i ns) paged =
    ap (λ (t : List StateNode). node i (of_list t))
      (ap (set_row_loading false) (to_list-of_list (set_row_loading true (to_list ns)))
        ∙ ap (λ (t : List StateNode). set_row_loading false (set_row_loading true t)) paged
        ∙ ap (set_row_loading false)
            (set_row_loading-append true (to_list ns) (tail_row i i.next_page_key))
        ∙ set_row_loading-append false (to_list ns)
            (set_row_loading true (tail_row i i.next_page_key))
        ∙ ap (λ (t : List StateNode). rows (node i ns) ++ t)
            (set_row_loading-tail_row_marked i i.next_page_key)
        ∙ sym paged)
    ∙ ap (node i) (of_list-to_list ns)
