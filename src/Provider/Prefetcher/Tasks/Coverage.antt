-- ===== src/Provider/Prefetcher/Tasks/Coverage.antt =====
-- The set of addresses against the transactions.
use mathlib.Core.List.{
  Mem, Mem-prop, mem-append_left, mem-append_right, mem-map_of_mem, eq-or-mem_of_mem-cons,
  not-mem-nil,
}
use mathlib.Core.Logic.Or
use mathlib.Core.List.Perm
use argus_core.Base.{
  List, [], ◌∷◌, flat_map, foldl, Option, Option-cases, inl, inr, none, some, ◌≡◌, refl, ℕ_discrete,
  All, All-mono, map, subst,
}
use argus_core.HashMap.{Iteration, set_insert}
use argus_core.HashMap.Sets.{mem-set_insert_self, mem-set_insert_of_mem}
use argus_core.Types.{Address, U256, Transaction}
use argus_core.Provider.Slots.{known_slots}
use argus_core.Provider.Prefetcher.Tasks.{
  FetchTask, collect_addresses, slot_tasks, spawn_tasks, add_addresses,
}

-- The addresses of a transaction are in the list.
pub record Touched (addresses : List Address) (tx : Transaction) : Type 0 where
  pub sender : Mem tx.from addresses
  pub recipient : (to : Address) → tx.to ≡ some to → Mem to addresses

mem-add_addresses :
    (tx : Transaction) {a : Address} (addrs : List Address)
    → Mem a addrs
    → Mem a (add_addresses addrs tx)
unfolding add_addresses
mem-add_addresses tx addrs m =
    let m' = mem-set_insert_of_mem ℕ_discrete tx.from addrs m in
    elim (Option-cases tx.to) [
      | inl e ↦ rw (e, add_addresses) m'
      | inr (to, e) ↦
          rw (e, add_addresses)
            (mem-set_insert_of_mem ℕ_discrete to (set_insert ℕ_discrete tx.from addrs) m')
    ]

add_addresses-Touched :
    (tx : Transaction) (addrs : List Address) → Touched (add_addresses addrs tx) tx
unfolding add_addresses
add_addresses-Touched tx addrs = record { sender = sender; recipient = recipient }
  where
    sender : Mem tx.from (add_addresses addrs tx)
    sender =
        let sent = mem-set_insert_self ℕ_discrete tx.from addrs in
        elim (Option-cases tx.to) [
          | inl e ↦ rw (e, add_addresses) sent
          | inr (to, e) ↦ rw (e, add_addresses) (mem-set_insert_of_mem ℕ_discrete to _ sent)
        ]

    recipient : (to : Address) → tx.to ≡ some to → Mem to (add_addresses addrs tx)
    recipient to e =
        rw (e, add_addresses)
          (mem-set_insert_self ℕ_discrete to (set_insert ℕ_discrete tx.from addrs))

Touched-add_addresses :
    (tx seen : Transaction) (addrs : List Address)
    → Touched addrs seen
    → Touched (add_addresses addrs tx) seen
Touched-add_addresses tx seen addrs h = record {
  sender = mem-add_addresses tx addrs h.sender;
  recipient = λ to e. mem-add_addresses tx addrs (h.recipient to e);
}

Touched-foldl :
    (seen : Transaction) (txs : List Transaction) (addrs : List Address)
    → Touched addrs seen
    → Touched (foldl add_addresses addrs txs) seen
Touched-foldl seen [] addrs h = h
Touched-foldl seen (tx ∷ txs) addrs h =
    Touched-foldl seen txs (add_addresses addrs tx) (Touched-add_addresses tx seen addrs h)

All-Touched :
    (txs : List Transaction) (addrs : List Address)
    → All (Touched (foldl add_addresses addrs txs)) txs
All-Touched [] addrs = tt
All-Touched (tx ∷ txs) addrs = (
  Touched-foldl tx txs (add_addresses addrs tx) (add_addresses-Touched tx addrs),
  All-Touched txs (add_addresses addrs tx),
)

-- The account of a recipient is among the tasks, if there is one.
abbrev pub HasRecipient : List FetchTask → Option Address → Type 0
HasRecipient tasks none = Unit
HasRecipient tasks (some to) = Mem (FetchTask.account to) tasks

HasRecipient-of :
    (tasks : List FetchTask) (o : Option Address)
    → ((to : Address) → o ≡ some to → Mem (FetchTask.account to) tasks)
    → HasRecipient tasks o
HasRecipient-of tasks none h = tt
HasRecipient-of tasks (some to) h = h to refl

-- A transaction's accounts are among the tasks.
pub record Fetched (tasks : List FetchTask) (tx : Transaction) : Type 0 where
  pub sender : Mem (FetchTask.account tx.from) tasks
  pub recipient : HasRecipient tasks tx.to

-- The fetch of a collected address is started.
pub account-started :
    (it : Iteration Address) (txs : List Transaction) (a : Address)
    → Mem a (collect_addresses txs)
    → Mem (FetchTask.account a) (spawn_tasks it txs)
unfolding spawn_tasks
account-started it txs a m =
    mem-append_left (flat_map slot_tasks (it.arrange (collect_addresses txs))) (
      mem-map_of_mem FetchTask.account
        ((Perm.mem_iff (it.arrange-perm (collect_addresses txs))).1 m))

mem-flat_map {ℓ} :
    {A B : Type ℓ} (f : A → List B) (x : A) {y : B} (xs : List A)
    → Mem x xs
    → Mem y (f x)
    → Mem y (flat_map f xs)
mem-flat_map f x [] m k = absurd (not-mem-nil m)
mem-flat_map f x {y} (z ∷ xs) m k =
    Or.elim Mem-prop (eq-or-mem_of_mem-cons m)
      (λ e. mem-append_left (flat_map f xs) (subst (λ t. Mem y (f t)) e k))
      (λ t. mem-append_right (f z) (mem-flat_map f x xs t k))

-- So is that of a known slot of a collected address.
pub slot-started :
    (it : Iteration Address) (txs : List Transaction) (a : Address) (slots : List U256)
    (slot : U256)
    → Mem a (collect_addresses txs)
    → known_slots a ≡ some slots
    → Mem slot slots
    → Mem (FetchTask.storage a slot) (spawn_tasks it txs)
unfolding spawn_tasks slot_tasks
slot-started it txs a slots slot m e k =
    let addrs = it.arrange (collect_addresses txs) in
    let own : Mem (FetchTask.storage a slot) (slot_tasks a) =
      rw (slot_tasks, e) (mem-map_of_mem (FetchTask.storage a) k) in
    mem-append_right (map FetchTask.account addrs) (
      mem-flat_map slot_tasks a addrs ((Perm.mem_iff (it.arrange-perm (collect_addresses txs))).1 m)
        own)

pub collect_addresses-Touched : (txs : List Transaction) → All (Touched (collect_addresses txs)) txs
unfolding collect_addresses
collect_addresses-Touched txs = All-Touched txs []

-- For every transaction a fetch of its sender's account is started, and of its recipient's if it
-- has one.
pub spawn_tasks-Fetched :
    (it : Iteration Address) (txs : List Transaction) → All (Fetched (spawn_tasks it txs)) txs
spawn_tasks-Fetched it txs =
    All-mono txs
      (λ tx h. record {
        sender = account-started it txs tx.from h.sender;
        recipient =
            HasRecipient-of (spawn_tasks it txs) tx.to
              (λ to e. account-started it txs to (h.recipient to e));
      })
      (collect_addresses-Touched txs)
