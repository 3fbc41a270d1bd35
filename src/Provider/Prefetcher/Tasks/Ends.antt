-- ===== src/Provider/Prefetcher/Tasks/Ends.antt =====
-- The collected addresses are the ends of the transactions, each once.
use mathlib.Core.List.{map-id}
use argus_core.Base.{
  List, [], ◌∷◌, ◌++◌, flat_map, foldl, Option-cases, inl, inr, none, some, ◌≡◌, refl, ℕ_discrete,
  sym, subst,
}
use argus_core.HashMap.{set_insert}
use argus_core.HashMap.Grouping.{key_set}
use argus_core.HashMap.Once.{EachOnce, key_set-EachOnce}
use argus_core.Types.{Address, Transaction}
use argus_core.Provider.Prefetcher.Tasks.{add_addresses, collect_addresses}

-- The sender, and the recipient if there is one.
abbrev pub ends_of : Transaction → List Address
ends_of tx = elim tx.to [ none ↦ tx.from ∷ [] | some to ↦ tx.from ∷ to ∷ [] ]

-- The ends of the transactions, as often as they occur.
abbrev pub all_ends : List Transaction → List Address
all_ends txs = flat_map ends_of txs

abbrev inserted : List Address → List Address → List Address
inserted = key_set ℕ_discrete (λ x. x)

inserted-append : (s xs ys : List Address) → inserted s (xs ++ ys) ≡ inserted (inserted s xs) ys
inserted-append s [] ys = refl
inserted-append s (x ∷ xs) ys = inserted-append (set_insert ℕ_discrete x s) xs ys

add_addresses-inserted :
    (s : List Address) (tx : Transaction) → add_addresses s tx ≡ inserted s (ends_of tx)
unfolding add_addresses
add_addresses-inserted s tx = elim (Option-cases tx.to) [
  | inl e ↦ rw (e, add_addresses) refl
  | inr (to, e) ↦ rw (e, add_addresses) refl
]

foldl-inserted :
    (txs : List Transaction) (s : List Address)
    → foldl add_addresses s txs ≡ inserted s (all_ends txs)
foldl-inserted [] s = refl
foldl-inserted (tx ∷ txs) s =
    rw (foldl-inserted txs (add_addresses s tx), add_addresses-inserted s tx)
      (sym (inserted-append s (ends_of tx) (all_ends txs)))

pub collect_addresses-EachOnce :
    (txs : List Transaction) → EachOnce (all_ends txs) (collect_addresses txs)
unfolding collect_addresses
collect_addresses-EachOnce txs = rw (foldl-inserted txs []) (
    subst (λ ends. EachOnce ends (inserted [] (all_ends txs))) (map-id (all_ends txs))
      (key_set-EachOnce ℕ_discrete (λ x. x) (all_ends txs)))
