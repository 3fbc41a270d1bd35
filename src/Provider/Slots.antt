-- ===== src/Provider/Slots.antt =====
-- crates/provider/src/slots.rs: the storage slots that are fetched ahead for known contracts.
pub mod Labelled
use argus_core.Base.{List, [], ◌∷◌, Option, ℕ_discrete, foldl}
use argus_core.HashMap.{get, insert}
use argus_core.Types.{Address, U256}

abbrev pub uniswap_v2_slots : List U256
uniswap_v2_slots = 6 ∷ 7 ∷ 8 ∷ 9 ∷ 10 ∷ []

abbrev pub uniswap_v3_slots : List U256
uniswap_v3_slots = 0 ∷ 1 ∷ 2 ∷ 3 ∷ 4 ∷ []

abbrev pub contract_entries : List (Address × List U256)
contract_entries =
    (0xb4e16d0168e52d35cacd2c6185b44281ec28c9dc, uniswap_v2_slots)
    ∷ (0x0d4a11d5eeaac28ec3f61d100daf4d40471f1852, uniswap_v2_slots)
    ∷ (0x8ad599c3a0ff1de082011efddc58f1908eb6e6d8, uniswap_v3_slots)
    ∷ (0x88e6a0c2ddd26feeb64f039a2c41296fcb3f5640, uniswap_v3_slots)
    ∷ (0xcbcdf9626bc03e24f779434178a73a0b4bad62ed, uniswap_v3_slots)
    ∷ []

unfoldable pub known_contracts : List (Address × List U256)
unfolding insert
known_contracts = foldl (λ m e. insert ℕ_discrete e.0 e.1 m) [] contract_entries

unfoldable pub known_slots : Address → Option (List U256)
unfolding known_contracts get
known_slots address = get ℕ_discrete address known_contracts
