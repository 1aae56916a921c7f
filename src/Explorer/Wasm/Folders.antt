-- ===== src/Explorer/Wasm/Folders.antt =====
-- What stands in a namespace's folder of the explorer's tree.
use mathlib.Core.Path.{subst}
use mathlib.Core.Option.{some-injective}
use interchain_event.Common.{
  ◌≡◌, refl, ap, ◌∙◌, Bool, false, Option, none, some, List, [], ◌∷◌, ◌++◌, map, arith,
  if◌then◌else◌, Bool-cases, Option-cases, inl, inr,
}
use interchain_event.Js.Text.{Text, text_eq, text_eq→eq}
use interchain_event.Codec.Key.Build.{wasm_store_key, wasm_store_key_for_ns_entry}
use interchain_event.Explorer.Node.{
  StateNode, info, children, make_leaf, make_folder, to_list-of_list,
}
use interchain_event.Explorer.Wasm.{
  Model, Entry, Grouped, no_entries, map_entry, top_leaf, group_model, group_models, entry_leaf,
  entry_leaves, filled_folder, ns_folders, state_tree,
}
use interchain_event.Explorer.Wasm.Groups.{entries_of, entries_at, group_models-entries_at}

abbrev pub is_folder_of : Text → StateNode → Bool
is_folder_of ns n = elim (info n).namespace [ none ↦ false | some m ↦ text_eq m ns ]

-- The rows of the first folder of a namespace.
unfoldable pub folder_rows : Text → List StateNode → List StateNode
folder_rows ns [] = []
folder_rows ns (n ∷ rest) =
    let others = folder_rows ns rest in if is_folder_of ns n then children n else others

-- What a row shows and the store key that a subscription to it watches.
abbrev pub row_text : StateNode → Text × Option Text × Option Text
row_text n = ((info n).key, (info n).value, (info n).store_key)

abbrev pub entry_text : Text → Text → Entry → Text × Option Text × Option Text
entry_text addr ns e = (e.map_key, some e.value, wasm_store_key_for_ns_entry addr ns e.map_key)

entry_leaf-row_text :
    (path : List Text) (addr ns : Text) (e : Entry) (leaf : StateNode)
    → entry_leaf path addr ns e ≡ some leaf
    → row_text leaf ≡ entry_text addr ns e
unfolding entry_leaf make_leaf
entry_leaf-row_text path addr ns e leaf made =
    elim (Option-cases (wasm_store_key_for_ns_entry addr ns e.map_key)) [
      | inl bad ↦ ground arith
      | inr (store_key, built) ↦
          subst (λ (n : StateNode). row_text n ≡ entry_text addr ns e)
            (some-injective _ _ (rw (entry_leaf, built) at made)) (rw built)
    ]

entry_leaves-row_text :
    (path : List Text) (addr ns : Text) (es : List Entry) (leaves : List StateNode)
    → entry_leaves path addr ns es ≡ some leaves
    → map row_text leaves ≡ map (entry_text addr ns) es
unfolding entry_leaves
entry_leaves-row_text path addr ns [] leaves e =
    subst (λ (l : List StateNode). map row_text l ≡ []) (some-injective _ _ e) refl
entry_leaves-row_text path addr ns (entry ∷ es) leaves e =
    elim (Option-cases (entry_leaf path addr ns entry)) [
      | inl bad ↦ ground arith
      | inr (leaf, made) ↦ elim (Option-cases (entry_leaves path addr ns es)) [
        | inl bad ↦ ground arith
        | inr (rest, others) ↦
            subst (λ (l : List StateNode). map row_text l ≡ map (entry_text addr ns) (entry ∷ es))
              (some-injective _ _ (rw (entry_leaves, made, others) at e))
              (simp (
                entry_leaf-row_text path addr ns entry leaf made,
                entry_leaves-row_text path addr ns es rest others,
              ))
      ]
    ]

filled_folder-is_folder_of :
    (ns path_addr : Text) (path : List Text) (m : Text) (leaves : List StateNode)
    → is_folder_of ns (filled_folder path path_addr m leaves) ≡ text_eq m ns
unfolding filled_folder make_folder
filled_folder-is_folder_of ns addr path m leaves = refl

filled_folder-children :
    (path : List Text) (addr m : Text) (leaves : List StateNode)
    → children (filled_folder path addr m leaves) ≡ leaves
unfolding filled_folder make_folder
filled_folder-children path addr m leaves = to_list-of_list leaves

ns_folders-row_text :
    (ns : Text) (path : List Text) (addr : Text) (gs : List (Text × List Entry))
    (folders : List StateNode)
    → ns_folders path addr gs ≡ some folders
    → map row_text (folder_rows ns folders) ≡ map (entry_text addr ns) (entries_at ns gs)
unfolding ns_folders folder_rows entries_at
ns_folders-row_text ns path addr [] folders e =
    subst (λ (l : List StateNode). map row_text (folder_rows ns l) ≡ []) (some-injective _ _ e) refl
ns_folders-row_text ns path addr ((m, es) ∷ rest) folders e =
    elim (Option-cases (entry_leaves path addr m es)) [
      | inl bad ↦ ground arith
      | inr (leaves, made) ↦ elim (Option-cases (ns_folders path addr rest)) [
        | inl bad ↦ ground arith
        | inr (others, done) ↦
            subst
              (λ (l : List StateNode).
                map row_text (folder_rows ns l)
                ≡ map (entry_text addr ns) (entries_at ns ((m, es) ∷ rest)))
              (some-injective _ _ (rw (ns_folders, made, done) at e))
              (elim (Bool-cases (text_eq m ns)) [
                | inl here ↦
                    let is_ns : m ≡ ns = text_eq→eq m ns here in
                    simp
                      (
                        filled_folder-is_folder_of ns addr path m leaves,
                        here,
                        filled_folder-children path addr m leaves,
                      )
                      (rw is_ns at (entry_leaves-row_text path addr m es leaves made))
                | inr away ↦
                    simp (filled_folder-is_folder_of ns addr path m leaves, away)
                      (ns_folders-row_text ns path addr rest others done)
              ])
      ]
    ]

folder_rows-append :
    (ns : Text) (xs ys : List StateNode)
    → folder_rows ns ys ≡ []
    → folder_rows ns (xs ++ ys) ≡ folder_rows ns xs
unfolding folder_rows
folder_rows-append ns [] ys none_there = none_there
folder_rows-append ns (x ∷ xs) ys none_there =
    ap (λ (t : List StateNode). if is_folder_of ns x then children x else t)
      (folder_rows-append ns xs ys none_there)

top_leaf-folder_rows :
    (ns : Text) (path : List Text) (addr : Text) (m : Model) (leaf : StateNode)
    → top_leaf path addr m ≡ some leaf
    → folder_rows ns (leaf ∷ []) ≡ []
unfolding top_leaf make_leaf folder_rows
top_leaf-folder_rows ns path addr m leaf e = elim (Option-cases (wasm_store_key addr m.key)) [
  | inl bad ↦ ground arith
  | inr (store_key, made) ↦
      subst (λ (n : StateNode). folder_rows ns (n ∷ []) ≡ [])
        (some-injective _ _ (rw (top_leaf, made) at e)) refl
]

group_model-top_level :
    (ns : Text) (path : List Text) (addr : Text) (m : Model) (g g' : Grouped)
    → group_model path addr m g ≡ some g'
    → folder_rows ns g.top_level ≡ []
    → folder_rows ns g'.top_level ≡ []
unfolding group_model
group_model-top_level ns path addr m g g' e empty = elim (Option-cases (map_entry m)) [
  | inr ((k, entry), read) ↦
      subst (λ (h : Grouped). folder_rows ns h.top_level ≡ [])
        (some-injective _ _ (rw (group_model, read) at e)) empty
  | inl none_read ↦ elim (Option-cases (top_leaf path addr m)) [
    | inl bad ↦ ground arith
    | inr (leaf, made) ↦
        subst (λ (h : Grouped). folder_rows ns h.top_level ≡ [])
          (some-injective _ _ (rw (group_model, none_read, made) at e))
          (folder_rows-append ns g.top_level (leaf ∷ [])
              (top_leaf-folder_rows ns path addr m leaf made)
            ∙ empty)
  ]
]

group_models-top_level :
    (ns : Text) (path : List Text) (addr : Text) (models : List Model) (g g' : Grouped)
    → group_models path addr models g ≡ some g'
    → folder_rows ns g.top_level ≡ []
    → folder_rows ns g'.top_level ≡ []
unfolding group_models
group_models-top_level ns path addr [] g g' e empty =
    subst (λ (h : Grouped). folder_rows ns h.top_level ≡ []) (some-injective _ _ e) empty
group_models-top_level ns path addr (m ∷ models) g g' e empty =
    elim (Option-cases (group_model path addr m g)) [
      | inl bad ↦ ground arith
      | inr (h, made) ↦
          group_models-top_level ns path addr models h g' (rw (group_models, made) at e)
            (group_model-top_level ns path addr m g h made empty)
    ]

-- If the tree of a contract's state can be built, the rows in the first folder of a namespace
-- show, for each map entry of that namespace among the models and in their order, its map key, its
-- decoded value and the store key that `wasmStoreKeyForNsEntry` makes of them; where the namespace
-- has no entry there is no such row.
pub state_tree-folder_rows :
    (ns : Text) (path : List Text) (addr : Text) (models : List Model) (tree : List StateNode)
    → state_tree path addr models ≡ some tree
    → map row_text (folder_rows ns tree) ≡ map (entry_text addr ns) (entries_of ns models)
unfolding state_tree
state_tree-folder_rows ns path addr models tree e =
    elim (Option-cases (group_models path addr models no_entries)) [
      | inl bad ↦ ground arith
      | inr (g, grouped) ↦ elim (Option-cases (ns_folders path addr g.namespaces)) [
        | inl bad ↦ ground arith
        | inr (folders, made) ↦
            let top =
              group_models-top_level ns path addr models no_entries g grouped
                (unfold folder_rows in refl) in
            let listed = group_models-entries_at ns path addr models no_entries g grouped in
            subst
              (λ (l : List StateNode).
                map row_text (folder_rows ns l) ≡ map (entry_text addr ns) (entries_of ns models))
              (some-injective _ _ (rw (state_tree, grouped, made) at e))
              (ap (map row_text) (folder_rows-append ns folders g.top_level top)
                ∙ ns_folders-row_text ns path addr g.namespaces folders made
                ∙ ap (map (entry_text addr ns)) (listed ∙ unfold entries_at in refl))
      ]
    ]
