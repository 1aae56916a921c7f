-- ===== src/Explorer/Wasm/Groups.antt =====
-- The entries of a namespace stand together in the explorer's tree, in the order of the answer.
use mathlib.Core.Path.{subst}
use mathlib.Core.Option.{some-injective}
use mathlib.Core.List.{append_assoc, append-nil}
use interchain_event.Common.{
  ◌≡◌, sym, ◌∙◌, true, false, none, some, List, [], ◌∷◌, ◌++◌, arith, if◌then◌else◌, Bool-cases,
  Option-cases, inl, inr,
}
use interchain_event.Js.Text.{Text, text_eq, text_eq→eq, text_eq_self}
use interchain_event.Explorer.Wasm.{
  Model, Entry, Grouped, add_entry_to, map_entry, top_leaf, group_model, group_models,
}

-- The map entries of a namespace among the models, in order.
unfoldable pub entries_of : Text → List Model → List Entry
entries_of ns [] = []
entries_of ns (m ∷ models) =
    let rest = entries_of ns models in
    elim (map_entry m) [ none ↦ rest | some (k, e) ↦ if text_eq k ns then e ∷ rest else rest ]

unfoldable pub entries_at : Text → List (Text × List Entry) → List Entry
entries_at ns [] = []
entries_at ns ((m, es) ∷ rest) =
    let others = entries_at ns rest in if text_eq m ns then es else others

add_entry_to-entries_at :
    (ns k : Text) (e : Entry) (gs : List (Text × List Entry))
    → entries_at ns (add_entry_to k e gs)
      ≡ entries_at ns gs ++ (if text_eq k ns then e ∷ [] else [])
unfolding add_entry_to entries_at
add_entry_to-entries_at ns k e [] = ground arith
add_entry_to-entries_at ns k e ((m, es) ∷ rest) = elim (Bool-cases (text_eq m k)) [
  | inl same ↦ elim (Bool-cases (text_eq m ns)) [
    | inl here ↦
        let is_k : m ≡ k = text_eq→eq m k same in
        let hit : text_eq k ns ≡ true = rw is_k at here in simp (same, here, hit)
    | inr away ↦
        let is_k : m ≡ k = text_eq→eq m k same in
        let miss : text_eq k ns ≡ false = rw is_k at away in simp (same, away, miss, append-nil)
  ]
  | inr other ↦ elim (Bool-cases (text_eq m ns)) [
    | inl here ↦
        let is_ns : m ≡ ns = text_eq→eq m ns here in
        let miss : text_eq k ns ≡ false = elim (Bool-cases (text_eq k ns)) [
          | inr away ↦ away
          | inl both ↦
              let is_k : k ≡ ns = text_eq→eq k ns both in
              let whole : text_eq ns ns ≡ true = text_eq_self ns in cc
        ] in
        simp (other, here, miss, append-nil)
    | inr away ↦ rw (other, away) (add_entry_to-entries_at ns k e rest)
  ]
]

group_model-entries_at :
    (ns : Text) (path : List Text) (addr : Text) (m : Model) (models : List Model) (g g' : Grouped)
    → group_model path addr m g ≡ some g'
    → entries_at ns g'.namespaces ++ entries_of ns models
      ≡ entries_at ns g.namespaces ++ entries_of ns (m ∷ models)
unfolding group_model entries_of
group_model-entries_at ns path addr m models g g' e = elim (Option-cases (map_entry m)) [
  | inr ((k, entry), read) ↦
      subst
        (λ (h : Grouped).
          entries_at ns h.namespaces ++ entries_of ns models
          ≡ entries_at ns g.namespaces ++ entries_of ns (m ∷ models))
        (some-injective _ _ (rw (group_model, read) at e))
        (elim (Bool-cases (text_eq k ns)) [
          | inl hit ↦ simp (add_entry_to-entries_at, entries_of, read, hit, append_assoc)
          | inr miss ↦ simp (add_entry_to-entries_at, entries_of, read, miss, append-nil)
        ])
  | inl none_read ↦ elim (Option-cases (top_leaf path addr m)) [
    | inl bad ↦ ground arith
    | inr (leaf, made) ↦
        subst
          (λ (h : Grouped).
            entries_at ns h.namespaces ++ entries_of ns models
            ≡ entries_at ns g.namespaces ++ entries_of ns (m ∷ models))
          (some-injective _ _ (rw (group_model, none_read, made) at e))
          (simp (entries_of, none_read))
  ]
]

pub group_models-entries_at :
    (ns : Text) (path : List Text) (addr : Text) (models : List Model) (g g' : Grouped)
    → group_models path addr models g ≡ some g'
    → entries_at ns g'.namespaces ≡ entries_at ns g.namespaces ++ entries_of ns models
unfolding group_models
group_models-entries_at ns path addr [] g g' e =
    subst
      (λ (h : Grouped). entries_at ns h.namespaces ≡ entries_at ns g.namespaces ++ entries_of ns [])
      (some-injective _ _ e) (unfold entries_of in sym (append-nil (entries_at ns g.namespaces)))
group_models-entries_at ns path addr (m ∷ models) g g' e =
    elim (Option-cases (group_model path addr m g)) [
      | inl bad ↦ ground arith
      | inr (h, made) ↦
          group_models-entries_at ns path addr models h g' (rw (group_models, made) at e)
          ∙ group_model-entries_at ns path addr m models g h made
    ]
