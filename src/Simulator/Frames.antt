-- ===== src/Simulator/Frames.antt =====
-- Which contract an access belongs to: an execution as its frames, and the inspector's stack of
-- addresses against them.
pub mod Creation
use mathlib.Core.List.{get_last?, head?, append_assoc, append-nil, foldl-append}
use argus_core.Base.{
  ℕ, List, [], ◌∷◌, ◌++◌, Option, none, some, ◌==◌, if◌then◌else◌, ◌≡◌, ◌≢◌, refl, ap, ◌∙◌, sym,
  arith,
}
use argus_core.Types.{Address, U256, read, write, AccessEntry}
use argus_core.Simulator.Inspector.{
  AccessListInspector, on_call, opcode_sload, opcode_sstore, Hook, step, call, call_end, create,
  new, on_step, on_hook, run_hooks,
}

-- What revm executes: instructions, and frames with the instructions within. A `create` frame runs
-- the constructor of the contract at `created`.
pub data Run : Type 0 where
  done : Run
  op : (opcode : ℕ) (stack : List U256) → Run → Run
  call_frame : (target : Address) (body : Run) → Run → Run
  create_frame : (created : Address) (body : Run) → Run → Run

-- The callbacks that reach the inspector. It does not implement `create_end`.
abbrev pub hooks : Run → List Hook
hooks done = []
hooks (op opcode stack rest) = step opcode stack ∷ hooks rest
hooks (call_frame target body rest) = call target ∷ (hooks body ++ call_end ∷ hooks rest)
hooks (create_frame created body rest) = create ∷ (hooks body ++ hooks rest)

-- The access that an instruction makes, in the storage of `owner`.
abbrev pub access_at : Option Address → ℕ → List U256 → List AccessEntry
access_at none opcode stack = []
access_at (some owner) opcode stack = elim (get_last? stack) [
  | none ↦ []
  | some slot ↦
      if opcode == opcode_sload
      then record { location = record { address = owner; slot = slot }; mode = read } ∷ []
      else if opcode == opcode_sstore
      then record { location = record { address = owner; slot = slot }; mode = write } ∷ []
      else []
]

-- The accesses with the contracts whose storage they touch.
abbrev pub owned : Option Address → Run → List AccessEntry
owned owner done = []
owned owner (op opcode stack rest) = access_at owner opcode stack ++ owned owner rest
owned owner (call_frame target body rest) = owned (some target) body ++ owned owner rest
owned owner (create_frame created body rest) = owned (some created) body ++ owned owner rest

-- The accesses as the inspector attributes them: a constructor's go to the frame that creates.
abbrev pub attributed : Option Address → Run → List AccessEntry
attributed owner done = []
attributed owner (op opcode stack rest) = access_at owner opcode stack ++ attributed owner rest
attributed owner (call_frame target body rest) =
    attributed (some target) body ++ attributed owner rest
attributed owner (create_frame created body rest) = attributed owner body ++ attributed owner rest

abbrev pub CreatesNothing : Run → Type 0
CreatesNothing done = Unit
CreatesNothing (op _ _ rest) = CreatesNothing rest
CreatesNothing (call_frame _ body rest) = CreatesNothing body × CreatesNothing rest
CreatesNothing (create_frame _ _ _) = ⊥

-- What a run of the hooks leaves: more entries, and the stack of addresses as it was.
abbrev with_entries : AccessListInspector → List AccessEntry → AccessListInspector
with_entries i es = record i { entries = i.entries ++ es }

on_step-access_at :
    (i : AccessListInspector) (opcode : ℕ) (stack : List U256)
    → on_step i opcode stack ≡ with_entries i (access_at (head? i.address_stack) opcode stack)
unfolding on_step
on_step-access_at i opcode stack = ground (arith, append-nil i.entries)

with_entries-append :
    (i : AccessListInspector) (es fs : List AccessEntry)
    → with_entries (with_entries i es) fs ≡ with_entries i (es ++ fs)
with_entries-append i es fs = ap (λ l. record i { entries = l }) (append_assoc i.entries es fs)

-- Over a whole execution, from any state, the inspector adds exactly the accesses of its frames as
-- attributed by frame, in their order, and its stack of addresses is back where it was.
pub run_hooks-attributed :
    (run : Run) (i : AccessListInspector)
    → run_hooks i (hooks run)
      ≡ record i { entries = i.entries ++ attributed (head? i.address_stack) run }
unfolding on_hook
run_hooks-attributed done i = ap (λ l. record i { entries = l }) (sym (append-nil i.entries))
run_hooks-attributed (op opcode stack rest) i =
    let es = access_at (head? i.address_stack) opcode stack in
    ap (λ j. run_hooks j (hooks rest)) (on_step-access_at i opcode stack)
    ∙ run_hooks-attributed rest (with_entries i es)
    ∙ with_entries-append i es _
run_hooks-attributed (call_frame target body rest) i =
    let es = attributed (some target) body in
    foldl-append on_hook (on_call i target) (hooks body) (call_end ∷ hooks rest)
    ∙ ap (λ j. run_hooks j (call_end ∷ hooks rest)) (run_hooks-attributed body (on_call i target))
    ∙ run_hooks-attributed rest (with_entries i es)
    ∙ with_entries-append i es _
run_hooks-attributed (create_frame created body rest) i =
    let es = attributed (head? i.address_stack) body in
    foldl-append on_hook i (hooks body) (hooks rest)
    ∙ ap (λ j. run_hooks j (hooks rest)) (run_hooks-attributed body i)
    ∙ run_hooks-attributed rest (with_entries i es)
    ∙ with_entries-append i es _

-- Without contract creation, what is attributed is what is owned.
pub attributed-owned :
    (owner : Option Address) (run : Run)
    → CreatesNothing run
    → attributed owner run ≡ owned owner run
attributed-owned owner done h = refl
attributed-owned owner (op opcode stack rest) h = rw (attributed-owned owner rest h)
attributed-owned owner (call_frame target body rest) h =
    rw (attributed-owned (some target) body h.0, attributed-owned owner rest h.1)
attributed-owned owner (create_frame created body rest) h = absurd h

-- A transaction to `to` that creates no contract: every access is recorded, under the contract
-- whose storage it touches, in the order of execution.
pub inspect-owned :
    (to : Address) (run : Run)
    → CreatesNothing run
    → (run_hooks (new (some to)) (hooks run)).entries ≡ owned (some to) run
unfolding new
inspect-owned to run h =
    ap (λ (i : AccessListInspector). i.entries) (run_hooks-attributed run (new (some to)))
    ∙ attributed-owned (some to) run h
