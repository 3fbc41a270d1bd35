-- ===== src/Simulator/Inspector.antt =====
-- `AccessListInspector` of crates/analyzer/src/simulator.rs: the callbacks by which revm reports an
-- execution, as events, and what they do to the inspector.
use mathlib.Core.List.{get_last?, head?, tail}
use argus_core.Base.{
  ℕ, List, [], ◌∷◌, ◌++◌, Option, none, some, foldl, ◌==◌, ◌&&◌, not, if◌then◌else◌,
}
use argus_core.Types.{Address, U256, AccessMode, read, write, AccessEntry}

-- `address_stack` is kept with its top first; `SmallVec::push`, `pop` and `last` act on the top.
pub record AccessListInspector : Type 0 where
  pub entries : List AccessEntry
  pub address_stack : List Address

abbrev pub opcode_sload : ℕ
opcode_sload = 0x54

abbrev pub opcode_sstore : ℕ
opcode_sstore = 0x55

-- One callback with what it reads. The stack of `step` has its top last.
pub data Hook : Type 0 where
  step : (opcode : ℕ) (stack : List U256) → Hook
  call : (target_address : Address) → Hook
  call_end create : Hook

unfoldable pub new : Option Address → AccessListInspector
new none = record { entries = []; address_stack = [] }
new (some addr) = record { entries = []; address_stack = addr ∷ [] }

unfoldable pub into_entries : AccessListInspector → List AccessEntry
into_entries i = i.entries

abbrev pub current_address : AccessListInspector → Option Address
current_address i = head? i.address_stack

-- The part of `step` behind the first test. A word of the EVM stack and a `B256` are one number.
unfoldable pub record_access : AccessListInspector → AccessMode → List U256 → AccessListInspector
record_access i mode stack = elim (get_last? stack) [
  | none ↦ i
  | some slot ↦ elim (current_address i) [
    | none ↦ i
    | some address ↦ record i {
      entries =
          i.entries
          ++ record { location = record { address = address; slot = slot }; mode = mode } ∷ [];
    }
  ]
]

unfoldable pub on_step : AccessListInspector → ℕ → List U256 → AccessListInspector
unfolding record_access
on_step i opcode stack =
    if not (opcode == opcode_sload) && not (opcode == opcode_sstore)
    then i
    else record_access i (if opcode == opcode_sload then read else write) stack

unfoldable pub on_call : AccessListInspector → Address → AccessListInspector
on_call i target = record i { address_stack = target ∷ i.address_stack }

-- `pop` of an empty stack changes nothing.
unfoldable pub on_call_end : AccessListInspector → AccessListInspector
on_call_end i = record i { address_stack = tail i.address_stack }

unfoldable pub on_create : AccessListInspector → AccessListInspector
on_create i = i

unfoldable pub on_hook : AccessListInspector → Hook → AccessListInspector
unfolding on_step on_call on_call_end on_create
on_hook i (step opcode stack) = on_step i opcode stack
on_hook i (call target) = on_call i target
on_hook i call_end = on_call_end i
on_hook i create = on_create i

abbrev pub run_hooks : AccessListInspector → List Hook → AccessListInspector
run_hooks = foldl on_hook
