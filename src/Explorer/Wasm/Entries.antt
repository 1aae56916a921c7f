-- ===== src/Explorer/Wasm/Entries.antt =====
-- No entry of a contract's state is lost in the explorer's tree, and the entries of a namespace stand
-- together in the order of the answer.
use mathlib.Core.Path.{subst}
use mathlib.Core.Option.{some-injective}
use interchain_event.Common.{
  ℕ, ◌+◌, ◌≡◌, refl, ap, some, List, [], ◌∷◌, ◌++◌, arith, length, if◌then◌else◌, Bool-cases,
  Option-cases, inl, inr, length-append,
}
use interchain_event.Js.Text.{Text, text_eq}
use interchain_event.Codec.Key.Build.{wasm_store_key}
use interchain_event.Explorer.Node.{
  StateNode, info, children, make_leaf, make_folder, to_list-of_list,
}
use interchain_event.Explorer.Wasm.{
  Model, Entry, Grouped, no_entries, add_entry_to, map_entry, top_leaf, group_model, group_models,
  entry_leaf, entry_leaves, filled_folder, ns_folders, state_tree,
}

-- The rows under a folder, or one for a leaf.
abbrev pub row_count : StateNode → ℕ
row_count n = if (info n).has_children then length (children n) else 1

abbrev pub rows_in : List StateNode → ℕ
rows_in [] = 0
rows_in (n ∷ ns) = row_count n + rows_in ns

abbrev entries_in : List (Text × List Entry) → ℕ
entries_in [] = 0
entries_in ((ns, es) ∷ rest) = length es + entries_in rest

rows_in-append : (xs ys : List StateNode) → rows_in (xs ++ ys) ≡ rows_in xs + rows_in ys
rows_in-append [] ys = omega arith
rows_in-append (x ∷ xs) ys = omega (arith, rows_in-append xs ys)

entries_in-add_entry_to :
    (ns : Text) (e : Entry) (gs : List (Text × List Entry))
    → entries_in (add_entry_to ns e gs) ≡ entries_in gs + 1
unfolding add_entry_to
entries_in-add_entry_to ns e [] = omega arith
entries_in-add_entry_to ns e ((m, es) ∷ rest) = elim (Bool-cases (text_eq m ns)) [
  | inl same ↦ rw same (omega (arith, length-append es (e ∷ [])))
  | inr other ↦ rw other (omega (arith, entries_in-add_entry_to ns e rest))
]

abbrev grouped_rows : Grouped → ℕ
grouped_rows g = entries_in g.namespaces + rows_in g.top_level

top_leaf-row_count :
    (path : List Text) (addr : Text) (m : Model) (leaf : StateNode)
    → top_leaf path addr m ≡ some leaf
    → row_count leaf ≡ 1
unfolding top_leaf make_leaf
top_leaf-row_count path addr m leaf e = elim (Option-cases (wasm_store_key addr m.key)) [
  | inl bad ↦ ground arith
  | inr (store_key, made) ↦
      subst (λ (n : StateNode). row_count n ≡ 1) (some-injective _ _ (rw (top_leaf, made) at e))
        refl
]

group_model-rows :
    (path : List Text) (addr : Text) (m : Model) (g g' : Grouped)
    → group_model path addr m g ≡ some g'
    → grouped_rows g' ≡ grouped_rows g + 1
unfolding group_model
group_model-rows path addr m g g' e = elim (Option-cases (map_entry m)) [
  | inr ((ns, entry), read) ↦
      subst (λ (h : Grouped). grouped_rows h ≡ grouped_rows g + 1)
        (some-injective _ _ (rw (group_model, read) at e))
        (omega (arith, entries_in-add_entry_to ns entry g.namespaces))
  | inl none_read ↦ elim (Option-cases (top_leaf path addr m)) [
    | inl bad ↦ ground arith
    | inr (leaf, made) ↦
        subst (λ (h : Grouped). grouped_rows h ≡ grouped_rows g + 1)
          (some-injective _ _ (rw (group_model, none_read, made) at e))
          (omega (
            arith,
            rows_in-append g.top_level (leaf ∷ []),
            top_leaf-row_count path addr m leaf made,
          ))
  ]
]

group_models-rows :
    (path : List Text) (addr : Text) (models : List Model) (g g' : Grouped)
    → group_models path addr models g ≡ some g'
    → grouped_rows g' ≡ grouped_rows g + length models
unfolding group_models
group_models-rows path addr [] g g' e =
    subst (λ (h : Grouped). grouped_rows h ≡ grouped_rows g + 0) (some-injective _ _ e)
      (omega arith)
group_models-rows path addr (m ∷ models) g g' e = elim (Option-cases (group_model path addr m g)) [
  | inl bad ↦ ground arith
  | inr (h, made) ↦ omega (
    arith,
    group_model-rows path addr m g h made,
    group_models-rows path addr models h g' (rw (group_models, made) at e),
  )
]

length-entry_leaves :
    (path : List Text) (addr ns : Text) (es : List Entry) (leaves : List StateNode)
    → entry_leaves path addr ns es ≡ some leaves
    → length leaves ≡ length es
unfolding entry_leaves
length-entry_leaves path addr ns [] leaves e =
    subst (λ (l : List StateNode). length l ≡ 0) (some-injective _ _ e) refl
length-entry_leaves path addr ns (entry ∷ es) leaves e =
    elim (Option-cases (entry_leaf path addr ns entry)) [
      | inl bad ↦ ground arith
      | inr (leaf, made) ↦ elim (Option-cases (entry_leaves path addr ns es)) [
        | inl bad ↦ ground arith
        | inr (rest, others) ↦
            subst (λ (l : List StateNode). length l ≡ length (entry ∷ es))
              (some-injective _ _ (rw (entry_leaves, made, others) at e))
              (omega (arith, length-entry_leaves path addr ns es rest others))
      ]
    ]

filled_folder-row_count :
    (path : List Text) (addr ns : Text) (leaves : List StateNode)
    → row_count (filled_folder path addr ns leaves) ≡ length leaves
unfolding filled_folder make_folder
filled_folder-row_count path addr ns leaves = ap length (to_list-of_list leaves)

ns_folders-rows :
    (path : List Text) (addr : Text) (gs : List (Text × List Entry)) (folders : List StateNode)
    → ns_folders path addr gs ≡ some folders
    → rows_in folders ≡ entries_in gs
unfolding ns_folders
ns_folders-rows path addr [] folders e =
    subst (λ (l : List StateNode). rows_in l ≡ 0) (some-injective _ _ e) refl
ns_folders-rows path addr ((ns, es) ∷ rest) folders e =
    elim (Option-cases (entry_leaves path addr ns es)) [
      | inl bad ↦ ground arith
      | inr (leaves, made) ↦ elim (Option-cases (ns_folders path addr rest)) [
        | inl bad ↦ ground arith
        | inr (others, done) ↦
            subst (λ (l : List StateNode). rows_in l ≡ length es + entries_in rest)
              (some-injective _ _ (rw (ns_folders, made, done) at e))
              (omega (
                arith,
                filled_folder-row_count path addr ns leaves,
                length-entry_leaves path addr ns es leaves made,
                ns_folders-rows path addr rest others done,
              ))
      ]
    ]

-- If the tree of a contract's state can be built, it has as many rows, those in folders and those
-- beside them together, as the state has models.
pub state_tree-rows :
    (path : List Text) (addr : Text) (models : List Model) (tree : List StateNode)
    → state_tree path addr models ≡ some tree
    → rows_in tree ≡ length models
unfolding state_tree
state_tree-rows path addr models tree e =
    elim (Option-cases (group_models path addr models no_entries)) [
      | inl bad ↦ ground arith
      | inr (g, grouped) ↦ elim (Option-cases (ns_folders path addr g.namespaces)) [
        | inl bad ↦ ground arith
        | inr (folders, made) ↦
            subst (λ (l : List StateNode). rows_in l ≡ length models)
              (some-injective _ _ (rw (state_tree, grouped, made) at e))
              (omega (
                arith,
                rows_in-append folders g.top_level,
                ns_folders-rows path addr g.namespaces folders made,
                group_models-rows path addr models no_entries g grouped,
              ))
      ]
    ]
