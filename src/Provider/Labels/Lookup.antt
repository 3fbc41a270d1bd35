-- ===== src/Provider/Labels/Lookup.antt =====
-- What the label registry answers.
use argus_core.Base.{[], none, ◌≡◌, ℕ_discrete}
use argus_core.HashMap.{get}
use argus_core.HashMap.Inserts.{last_value, get-inserts}
use argus_core.Types.{Address}
use argus_core.Provider.Labels.{label_entries, lookup}

-- A look-up answers with the last label that the source inserts for the address, and with none for
-- an address that it does not insert.
lookup-last_value :
    (address : Address) → lookup address ≡ last_value ℕ_discrete address none label_entries
unfolding lookup get
lookup-last_value address = get-inserts ℕ_discrete address label_entries []
