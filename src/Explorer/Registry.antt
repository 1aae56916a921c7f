-- ===== src/Explorer/Registry.antt =====
-- The `fetchers` and `searchers` of frontend/app/composables/useStateExplorer.ts.
pub mod Plain
pub mod Rows
use interchain_event.Common.{Option, none, some, List, [], ◌∷◌, if◌then◌else◌}
use interchain_event.Js.Text.{Text, text, text_eq}
use interchain_event.Watcher.Machine.{Outcome, ok}
use interchain_event.Explorer.Node.{StateNode}
use interchain_event.Explorer.Tree.{Page, Found, Modules}
use interchain_event.Explorer.Wasm.{WasmRest, search_wasm}
use interchain_event.Explorer.Fetch.{Api}
use interchain_event.Explorer.Fetch.Cosmos.{
  fetch_bank, search_bank, fetch_staking, fetch_gov, fetch_ibc, fetch_wasm,
}
use interchain_event.Explorer.Fetch.Neutron.{
  fetch_distribution, fetch_mint, fetch_slashing, fetch_auth, fetch_interchain_queries,
  fetch_interchain_txs, fetch_fee_burner, fetch_token_factory, search_token_factory, fetch_cron,
  fetch_dex,
}

abbrev pub Fetcher : Type 0
Fetcher = StateNode → Option Text → Outcome Page

abbrev pub Searcher : Type 0
Searcher = StateNode → Text → StateNode × Outcome Found

-- A property of a record of functions.
unfoldable pub registered : {A : Type 0} → Text → List (Text × A) → Option A
registered name [] = none
registered name ((key, a) ∷ rest) =
    let others = registered name rest in if text_eq key name then some a else others

-- A fetcher of a module without pages takes no page key; a search that changes no node.
abbrev pub unpaged : (StateNode → Outcome Page) → Fetcher
unpaged f n page_key = f n

abbrev pub unchanging : (StateNode → Text → Found) → Searcher
unchanging f n key = (n, ok (f n key))

module _ (api : Api) (rest : Text) (wasm_rest : WasmRest) where
  unfoldable pub fetchers : List (Text × Fetcher)
  fetchers =
      (text "bank", fetch_bank api rest)
      ∷ (text "staking", fetch_staking api rest)
      ∷ (text "gov", fetch_gov api rest)
      ∷ (text "ibc", fetch_ibc api rest)
      ∷ (text "wasm", fetch_wasm api rest)
      ∷ (text "distribution", unpaged (fetch_distribution api rest))
      ∷ (text "mint", unpaged (fetch_mint api rest))
      ∷ (text "slashing", unpaged (fetch_slashing api rest))
      ∷ (text "auth", unpaged (fetch_auth api rest))
      ∷ (text "interchainqueries", fetch_interchain_queries api rest)
      ∷ (text "interchaintxs", unpaged (fetch_interchain_txs api rest))
      ∷ (text "feeburner", unpaged (fetch_fee_burner api rest))
      ∷ (text "tokenfactory", unpaged (fetch_token_factory api rest))
      ∷ (text "cron", unpaged (fetch_cron api rest))
      ∷ (text "dex", unpaged (fetch_dex api rest))
      ∷ []

  unfoldable pub searchers : List (Text × Searcher)
  searchers =
      (text "bank", unchanging (search_bank api rest))
      ∷ (text "wasm", search_wasm wasm_rest)
      ∷ (text "tokenfactory", unchanging (search_token_factory api rest))
      ∷ []

  unfoldable pub explorer_modules : Modules
  unfolding fetchers searchers registered
  explorer_modules = record {
    fetcher = λ name. registered name fetchers;
    searcher = λ name. registered name searchers;
  }
