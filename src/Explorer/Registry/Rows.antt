-- ===== src/Explorer/Registry/Rows.antt =====
-- No fetcher of the explorer returns a load-more row.
use interchain_event.Common.{
  ◌≡◌, refl, Option, some, List, [], ◌∷◌, All, Bool-cases, inl, inr, arith, length, ◌==◌, ◌&&◌,
}
use mathlib.Core.Path.{subst}
use mathlib.Core.Option.{some-injective}
use interchain_event.Js.Text.{Text, text, text_eq}
use interchain_event.Js.Value.{Value}
use interchain_event.Watcher.Machine.{Outcome}
use interchain_event.Explorer.Node.{StateNode, info}
use interchain_event.Explorer.Tree.{Page}
use interchain_event.Explorer.Paging.{Plain, HasPlainPages}
use interchain_event.Explorer.Wasm.{WasmRest, includes}
use interchain_event.Explorer.Json.{shown}
use interchain_event.Explorer.Fetch.{Api, is_root}
use interchain_event.Explorer.Fetch.Cosmos.{
  bank_leaf, coin_leaf, validator_leaf, proposal_leaf, client_leaf, connection_leaf, channel_leaf,
  code_leaf, fetch_bank, fetch_staking, fetch_tallying, fetch_gov, fetch_ibc, fetch_wasm,
}
use interchain_event.Explorer.Fetch.Neutron.{
  fetch_pool, fetch_distribution, fetch_inflation, fetch_mint, fetch_slashing, fetch_auth,
  query_leaf, fetch_interchain_queries, fetch_interchain_txs, fetch_fee_burner, fetch_token_factory,
  fetch_cron, fetch_dex,
}
use interchain_event.Explorer.Registry.{Fetcher, registered, fetchers, explorer_modules}
use interchain_event.Explorer.Registry.Plain.{
  Holds, Gives, IsRow, HasRows, chain_Gives, any_Gives, ok_Gives, if_Gives, map_items-Gives,
  leaf_Gives, folder_IsRow, no_rows, fetch_list-Gives, params_leaf-Gives, fetch_params-Gives,
  fetch_only_params-Gives,
}

module _ (api : Api) (rest : Text) where
  fetch_bank-Gives : (n : StateNode) (key : Option Text) → Gives HasRows (fetch_bank api rest n key)
  unfolding fetch_bank bank_leaf
  fetch_bank-Gives n key =
      if_Gives (is_root (info n).path)
        (ok_Gives _ (folder_IsRow _ _ _ _ _, (folder_IsRow _ _ _ _ _, tt)))
        (if_Gives (includes (text "supply") (info n).path)
          (fetch_list-Gives api rest _ _ _ _ _ λ v.
            chain_Gives (any_Gives _)
              λ denom u. chain_Gives (any_Gives _) λ amount u. leaf_Gives _ _ _ _ _ _)
          no_rows)

  fetch_staking-Gives :
      (n : StateNode) (key : Option Text) → Gives HasRows (fetch_staking api rest n key)
  unfolding fetch_staking validator_leaf
  fetch_staking-Gives n key =
      if_Gives (is_root (info n).path)
        (ok_Gives _ (folder_IsRow _ _ _ _ _, (folder_IsRow _ _ _ _ _, tt)))
        (if_Gives (includes (text "validators") (info n).path)
          (fetch_list-Gives api rest _ _ _ _ _ λ v. chain_Gives (any_Gives _) λ description u.
            chain_Gives (any_Gives _) λ address u. chain_Gives (any_Gives _) λ tokens u.
              chain_Gives (any_Gives _)
                λ status u. chain_Gives (any_Gives _) λ commission u. leaf_Gives _ _ _ _ _ _)
          (if_Gives (includes (text "params") (info n).path) (fetch_params-Gives api rest _ _ _ _)
            no_rows))

  fetch_tallying-Gives : (path : List Text) → Gives HasRows (fetch_tallying api rest path)
  unfolding fetch_tallying
  fetch_tallying-Gives path = chain_Gives (any_Gives _) λ res u.
      chain_Gives (any_Gives _) λ params u. chain_Gives (any_Gives _) λ tally u.
        chain_Gives (any_Gives _) λ entries u.
          chain_Gives
            (map_items-Gives _ entries (params_leaf-Gives api rest shown (text "gov") path))
            λ nodes rows. ok_Gives _ rows

  fetch_gov-Gives : (n : StateNode) (key : Option Text) → Gives HasRows (fetch_gov api rest n key)
  unfolding fetch_gov proposal_leaf
  fetch_gov-Gives n key =
      if_Gives (is_root (info n).path)
        (ok_Gives _ (folder_IsRow _ _ _ _ _, (folder_IsRow _ _ _ _ _, tt)))
        (if_Gives (includes (text "proposals") (info n).path)
          (fetch_list-Gives api rest _ _ _ _ _ λ v. chain_Gives (any_Gives _) λ proposal_id u.
            chain_Gives (any_Gives _) λ id u. chain_Gives (any_Gives _) λ content u.
              chain_Gives (any_Gives _) λ title u. chain_Gives (any_Gives _) λ status u.
                chain_Gives (any_Gives _)
                  λ number u. chain_Gives (any_Gives _) λ name u. leaf_Gives _ _ _ _ _ _)
          (if_Gives (includes (text "params") (info n).path) (fetch_tallying-Gives (info n).path)
            no_rows))

  fetch_ibc-Gives : (n : StateNode) (key : Option Text) → Gives HasRows (fetch_ibc api rest n key)
  unfolding fetch_ibc client_leaf connection_leaf channel_leaf
  fetch_ibc-Gives n key =
      if_Gives (is_root (info n).path)
        (ok_Gives _
          (folder_IsRow _ _ _ _ _, (folder_IsRow _ _ _ _ _, (folder_IsRow _ _ _ _ _, tt))))
        (if_Gives (includes (text "clients") (info n).path)
          (fetch_list-Gives api rest _ _ _ _ _ λ v.
            chain_Gives (any_Gives _)
              λ id u. chain_Gives (any_Gives _) λ state u. leaf_Gives _ _ _ _ _ _)
          (if_Gives (includes (text "connections") (info n).path)
            (fetch_list-Gives api rest _ _ _ _ _ λ v. chain_Gives (any_Gives _) λ id u.
              chain_Gives (any_Gives _) λ client_id u. chain_Gives (any_Gives _) λ state u.
                chain_Gives (any_Gives _)
                  λ client u. chain_Gives (any_Gives _) λ now u. leaf_Gives _ _ _ _ _ _)
            (if_Gives (includes (text "channels") (info n).path)
              (fetch_list-Gives api rest _ _ _ _ _ λ v. chain_Gives (any_Gives _) λ port_id u.
                chain_Gives (any_Gives _) λ channel_id u. chain_Gives (any_Gives _) λ state u.
                  chain_Gives (any_Gives _) λ counterparty u. chain_Gives (any_Gives _) λ port u.
                    chain_Gives (any_Gives _) λ channel u.
                      chain_Gives (any_Gives _)
                        λ now u. chain_Gives (any_Gives _) λ other u. leaf_Gives _ _ _ _ _ _)
              no_rows)))

  fetch_wasm-Gives : (n : StateNode) (key : Option Text) → Gives HasRows (fetch_wasm api rest n key)
  unfolding fetch_wasm code_leaf
  fetch_wasm-Gives n key =
      if_Gives (is_root (info n).path)
        (ok_Gives _ (folder_IsRow _ _ _ _ _, (folder_IsRow _ _ _ _ _, tt)))
        (if_Gives (includes (text "codes") (info n).path && (length (info n).path == 2))
          (fetch_list-Gives api rest _ _ _ _ _ λ v. chain_Gives (any_Gives _) λ code_id u.
            chain_Gives (any_Gives _) λ creator u.
              chain_Gives (any_Gives _)
                λ code u. chain_Gives (any_Gives _) λ by' u. leaf_Gives _ _ _ _ _ _)
          no_rows)

  fetch_pool-Gives : (path : List Text) → Gives HasRows (fetch_pool api rest path)
  unfolding fetch_pool coin_leaf
  fetch_pool-Gives path = chain_Gives (any_Gives _) λ res u. chain_Gives (any_Gives _) λ pool u.
      chain_Gives (any_Gives _)
        λ coins u. chain_Gives (map_items-Gives _ coins coins_IsRow) λ nodes rows. ok_Gives _ rows
    where
      coins_IsRow : (coin : Value) → Gives IsRow (coin_leaf (text "distribution") path coin)
      coins_IsRow coin =
          chain_Gives (any_Gives _)
            λ denom u. chain_Gives (any_Gives _) λ amount u. leaf_Gives _ _ _ _ _ _

  fetch_distribution-Gives : (n : StateNode) → Gives HasRows (fetch_distribution api rest n)
  unfolding fetch_distribution
  fetch_distribution-Gives n =
      if_Gives (is_root (info n).path)
        (ok_Gives _ (folder_IsRow _ _ _ _ _, (folder_IsRow _ _ _ _ _, tt)))
        (if_Gives (includes (text "params") (info n).path) (fetch_params-Gives api rest _ _ _ _) (
          if_Gives (includes (text "community_pool") (info n).path) (fetch_pool-Gives (info n).path)
            no_rows))

  fetch_inflation-Gives : (path : List Text) → Gives HasRows (fetch_inflation api rest path)
  unfolding fetch_inflation
  fetch_inflation-Gives path = chain_Gives (any_Gives _) λ res u.
      chain_Gives (any_Gives _) λ inflation u. ok_Gives _ ((leaf_Gives _ _ _ _ _ _).holds, tt)

  fetch_mint-Gives : (n : StateNode) → Gives HasRows (fetch_mint api rest n)
  unfolding fetch_mint
  fetch_mint-Gives n =
      if_Gives (is_root (info n).path)
        (ok_Gives _ (folder_IsRow _ _ _ _ _, (folder_IsRow _ _ _ _ _, tt)))
        (if_Gives (includes (text "params") (info n).path) (fetch_params-Gives api rest _ _ _ _) (
          if_Gives (includes (text "inflation") (info n).path) (fetch_inflation-Gives (info n).path)
            no_rows))

  fetch_interchain_queries-Gives :
      (n : StateNode) (key : Option Text) → Gives HasRows (fetch_interchain_queries api rest n key)
  unfolding fetch_interchain_queries query_leaf
  fetch_interchain_queries-Gives n key =
      if_Gives (is_root (info n).path)
        (ok_Gives _ (folder_IsRow _ _ _ _ _, (folder_IsRow _ _ _ _ _, tt)))
        (if_Gives (includes (text "registered_queries") (info n).path)
          (fetch_list-Gives api rest _ _ _ _ _ λ v. chain_Gives (any_Gives _) λ id u.
            chain_Gives (any_Gives _) λ query_type u. chain_Gives (any_Gives _) λ owner u.
              chain_Gives (any_Gives _) λ keys u.
                chain_Gives (any_Gives _)
                  λ number u. chain_Gives (any_Gives _) λ kind u. leaf_Gives _ _ _ _ _ _)
          (if_Gives (includes (text "params") (info n).path) (fetch_params-Gives api rest _ _ _ _)
            no_rows))

  fetch_token_factory-Gives : (n : StateNode) → Gives HasRows (fetch_token_factory api rest n)
  unfolding fetch_token_factory
  fetch_token_factory-Gives n =
      if_Gives (is_root (info n).path)
        (ok_Gives _ (folder_IsRow _ _ _ _ _, (folder_IsRow _ _ _ _ _, tt)))
        (if_Gives (includes (text "params") (info n).path) (fetch_params-Gives api rest _ _ _ _)
          no_rows)

module _ (api : Api) (rest : Text) (wasm_rest : WasmRest) where
  abbrev ServesRows : Text × Fetcher → Type 0
  ServesRows (name, f) = (n : StateNode) (key : Option Text) → Gives HasRows (f n key)

  fetchers-ServesRows : All ServesRows (fetchers api rest wasm_rest)
  unfolding fetchers fetch_slashing fetch_auth fetch_interchain_txs fetch_fee_burner fetch_cron
      fetch_dex
  fetchers-ServesRows = (
    fetch_bank-Gives api rest,
    (
      fetch_staking-Gives api rest,
      (
        fetch_gov-Gives api rest,
        (
          fetch_ibc-Gives api rest,
          (
            fetch_wasm-Gives api rest,
            (
              λ n key. fetch_distribution-Gives api rest n,
              (
                λ n key. fetch_mint-Gives api rest n,
                (
                  λ n key. fetch_only_params-Gives api rest _ _ _ n,
                  (
                    λ n key. fetch_only_params-Gives api rest _ _ _ n,
                    (
                      fetch_interchain_queries-Gives api rest,
                      (
                        λ n key. fetch_only_params-Gives api rest _ _ _ n,
                        (
                          λ n key. fetch_only_params-Gives api rest _ _ _ n,
                          (
                            λ n key. fetch_token_factory-Gives api rest n,
                            (
                              λ n key. fetch_only_params-Gives api rest _ _ _ n,
                              (λ n key. fetch_only_params-Gives api rest _ _ _ n, tt),
                            ),
                          ),
                        ),
                      ),
                    ),
                  ),
                ),
              ),
            ),
          ),
        ),
      ),
    ),
  )

  registered-ServesRows :
      (fs : List (Text × Fetcher))
      → All ServesRows fs
      → (name : Text) (f : Fetcher) → registered name fs ≡ some f
      → (n : StateNode) (key : Option Text) → Gives HasRows (f n key)
  unfolding registered
  registered-ServesRows [] h name f e = ground arith
  registered-ServesRows ((key', g) ∷ fs) (here, h) name f e =
      elim (Bool-cases (text_eq key' name)) [
        | inl hit ↦
            subst (λ (k : Fetcher). (n : StateNode) (key : Option Text) → Gives HasRows (k n key))
              (some-injective _ _ (rw (hit, registered) at e)) here
        | inr miss ↦ registered-ServesRows fs h name f (rw (miss, registered) at e)
      ]

  rows_Plain : (ns : List StateNode) → All IsRow ns → Plain ns
  rows_Plain [] h = refl
  rows_Plain (n ∷ ns) (here, h) = simp (here, rows_Plain ns h)

  -- The registry.
  pub explorer_modules-HasPlainPages : HasPlainPages (explorer_modules api rest wasm_rest)
  unfolding explorer_modules
  explorer_modules-HasPlainPages m f known n key page got = rows_Plain page.nodes (
      subst (λ (o : Outcome Page). Holds HasRows o) got
        (registered-ServesRows (fetchers api rest wasm_rest) fetchers-ServesRows m f known n
          key).holds)
