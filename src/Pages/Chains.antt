-- ===== src/Pages/Chains.antt =====
-- frontend/app/composables/useChains.ts and the script of frontend/app/pages/explorer.vue.
use interchain_event.Common.{◌≡◌, refl, Option, none, some, List, [], ◌∷◌, find, All}
use interchain_event.Js.Text.{Text, text, text_eq}
use interchain_event.Explorer.Node.{StateNode}
use interchain_event.Explorer.Tree.{set_modules}
use interchain_event.Explorer.Wasm.{WasmRest}
use interchain_event.Explorer.Fetch.{Api}
use interchain_event.Explorer.Registry.{Fetcher, explorer_modules}

pub record Chain : Type 0 where
  pub id : Text
  pub name : Text
  pub chain_id : Text
  pub rpc : Text
  pub rest : Text
  pub modules : List Text

abbrev pub neutron_chain : Chain
neutron_chain = record {
  id = text "neutron";
  name = text "Neutron";
  chain_id = text "neutron-1";
  rpc = text "https://rpc-kralum.neutron-1.neutron.org";
  rest = text "https://rest-kralum.neutron-1.neutron.org";
  modules =
      text "bank"
      ∷ text "wasm"
      ∷ text "staking"
      ∷ text "gov"
      ∷ text "ibc"
      ∷ text "distribution"
      ∷ text "slashing"
      ∷ text "mint"
      ∷ text "auth"
      ∷ text "dex"
      ∷ text "cron"
      ∷ text "interchaintxs"
      ∷ text "interchainqueries"
      ∷ text "feeburner"
      ∷ text "tokenfactory"
      ∷ [];
}

abbrev pub chains : List Chain
chains = neutron_chain ∷ []

-- `chains.find(c => c.id === chainId) ?? null`
unfoldable pub select_chain : Text → Option Chain
select_chain chain_id = find (λ c. text_eq c.id chain_id) chains

-- The selected chain, and the explorer's tree and error.
pub record ExplorerPage : Type 0 where
  pub selected : Option Chain
  pub tree : List StateNode
  pub error : Option Text

-- `setModules` of the selected chain, if there is one; the page does so when it is mounted.
unfoldable pub show_selected : ExplorerPage → ExplorerPage
show_selected p = elim p.selected [
  | none ↦ p
  | some chain ↦ record {
    selected = some chain;
    tree = (set_modules chain.modules).0;
    error = (set_modules chain.modules).1;
  }
]

unfoldable pub on_select_chain : Text → ExplorerPage → ExplorerPage
unfolding show_selected
on_select_chain chain_id p = show_selected (record p { selected = select_chain chain_id })

-- Every module of a chain on the list has a fetcher.
pub chains-HasFetchers :
    (api : Api) (rest : Text) (wasm_rest : WasmRest)
    → All
        (λ (c : Chain).
          All
            (λ (m : Text).
              (f : Fetcher) × ((explorer_modules api rest wasm_rest).fetcher m ≡ some f))
            c.modules)
        chains
unfolding explorer_modules text text_eq
chains-HasFetchers api rest wasm_rest = (
  (
    (_, refl),
    (
      (_, refl),
      (
        (_, refl),
        (
          (_, refl),
          (
            (_, refl),
            (
              (_, refl),
              (
                (_, refl),
                (
                  (_, refl),
                  (
                    (_, refl),
                    (
                      (_, refl),
                      ((_, refl), ((_, refl), ((_, refl), ((_, refl), ((_, refl), tt))))),
                    ),
                  ),
                ),
              ),
            ),
          ),
        ),
      ),
    ),
  ),
  tt,
)
