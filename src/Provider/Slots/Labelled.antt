-- ===== src/Provider/Slots/Labelled.antt =====
-- The contracts with known slots, against the label registry.
use argus_core.Base.{List, [], none, some, ◌≡◌, refl, sym, ◌∙◌, ℕ_discrete, length, All}
use argus_core.HashMap.{get}
use argus_core.HashMap.Inserts.{get-inserts, All-last_value}
use argus_core.Types.{Address, U256}
use argus_core.Provider.Labels.{ContractLabel, lookup}
use argus_core.Provider.Slots.{contract_entries, known_slots}

-- A known contract: five slots to fetch, and a label of the protocol Uniswap.
pub record IsPool (address : Address) (slots : List U256) : Type 0 where
  pub label : ContractLabel
  pub labelled : lookup address ≡ some label
  pub uniswap : label.protocol ≡ "Uniswap"
  pub five : length slots ≡ 5

entries-IsPool : All (λ e. IsPool e.0 e.1) contract_entries
unfolding lookup ℕ_discrete
entries-IsPool = (
  pool refl refl refl,
  (pool refl refl refl, (pool refl refl refl, (pool refl refl refl, (pool refl refl refl, tt)))),
)
  where
    pool :
        {address : Address} {slots : List U256} {label : ContractLabel}
        → lookup address ≡ some label
        → label.protocol ≡ "Uniswap"
        → length slots ≡ 5
        → IsPool address slots
    pool {label} p q r = record { label = label; labelled = p; uniswap = q; five = r }

-- Every contract whose slots are fetched ahead has five of them, and a label of Uniswap.
known_slots-IsPool :
    (address : Address) (slots : List U256)
    → known_slots address ≡ some slots
    → IsPool address slots
unfolding known_slots get
known_slots-IsPool address slots h =
    All-last_value ℕ_discrete IsPool address none contract_entries (λ w q. cc) entries-IsPool
      (sym (get-inserts ℕ_discrete address contract_entries []) ∙ h)
