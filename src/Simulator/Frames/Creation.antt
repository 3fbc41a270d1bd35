-- ===== src/Simulator/Frames/Creation.antt =====
-- What the inspector makes of the constructors of contracts.
use mathlib.Core.List.{get_last?, append_assoc}
use argus_core.Base.{
  ℕ, List, [], ◌∷◌, ◌++◌, Option, none, some, ◌≡◌, ◌≢◌, refl, sym, ap, ◌∙◌, arith, All, All-append,
  Option-cases, Bool-cases, inl, inr, ◌==◌,
}
use argus_core.Types.{Address, U256, AccessEntry}
use argus_core.Simulator.Inspector.{
  AccessListInspector, opcode_sload, opcode_sstore, new, run_hooks,
}
use argus_core.Simulator.Frames.{
  Run, done, op, call_frame, create_frame, hooks, access_at, owned, attributed,
  run_hooks-attributed,
}
use argus_core.Simulator.Dedup.WorstCase.{worst}

-- One run behind the other.
abbrev pub followed_by : Run → Run → Run
followed_by done after = after
followed_by (op opcode stack rest) after = op opcode stack (followed_by rest after)
followed_by (call_frame target body rest) after = call_frame target body (followed_by rest after)
followed_by (create_frame created body rest) after =
    create_frame created body (followed_by rest after)

-- The run in which every constructor is a part of the frame that creates, and not a frame.
abbrev pub inlined : Run → Run
inlined done = done
inlined (op opcode stack rest) = op opcode stack (inlined rest)
inlined (call_frame target body rest) = call_frame target (inlined body) (inlined rest)
inlined (create_frame created body rest) = followed_by (inlined body) (inlined rest)

-- No call within the run goes to the address.
abbrev pub CallsNot : Address → Run → Type 0
CallsNot a done = Unit
CallsNot a (op opcode stack rest) = CallsNot a rest
CallsNot a (call_frame target body rest) = (target ≢ a) × CallsNot a body × CallsNot a rest
CallsNot a (create_frame created body rest) = CallsNot a body × CallsNot a rest

owned-followed_by :
    (owner : Option Address) (run after : Run)
    → owned owner (followed_by run after) ≡ owned owner run ++ owned owner after
owned-followed_by owner done after = refl
owned-followed_by owner (op opcode stack rest) after =
    rw (owned-followed_by owner rest after)
      (sym (append_assoc (access_at owner opcode stack) (owned owner rest) (owned owner after)))
owned-followed_by owner (call_frame target body rest) after =
    rw (owned-followed_by owner rest after)
      (sym (append_assoc (owned (some target) body) (owned owner rest) (owned owner after)))
owned-followed_by owner (create_frame created body rest) after =
    rw (owned-followed_by owner rest after)
      (sym (append_assoc (owned (some created) body) (owned owner rest) (owned owner after)))

attributed-inlined :
    (owner : Option Address) (run : Run) → attributed owner run ≡ owned owner (inlined run)
attributed-inlined owner done = refl
attributed-inlined owner (op opcode stack rest) = rw (attributed-inlined owner rest)
attributed-inlined owner (call_frame target body rest) =
    rw (attributed-inlined (some target) body, attributed-inlined owner rest)
attributed-inlined owner (create_frame created body rest) =
    rw
      (
        attributed-inlined owner body,
        attributed-inlined owner rest,
        owned-followed_by owner (inlined body) (inlined rest),
      )
      refl

-- The accesses within the calls of a run of which the frame has no owner.
abbrev pub in_calls : Run → List AccessEntry
in_calls done = []
in_calls (op opcode stack rest) = in_calls rest
in_calls (call_frame target body rest) = owned (some target) (inlined body) ++ in_calls rest
in_calls (create_frame created body rest) = in_calls body ++ in_calls rest

attributed-in_calls : (run : Run) → attributed none run ≡ in_calls run
attributed-in_calls done = refl
attributed-in_calls (op opcode stack rest) = attributed-in_calls rest
attributed-in_calls (call_frame target body rest) =
    rw (attributed-inlined (some target) body, attributed-in_calls rest) refl
attributed-in_calls (create_frame created body rest) =
    rw (attributed-in_calls body, attributed-in_calls rest) refl

-- What the inspector records of a transaction with a recipient.
pub inspect-inlined :
    (to : Address) (run : Run)
    → (run_hooks (new (some to)) (hooks run)).entries ≡ owned (some to) (inlined run)
unfolding new
inspect-inlined to run =
    ap (λ (i : AccessListInspector). i.entries) (run_hooks-attributed run (new (some to)))
    ∙ attributed-inlined (some to) run

-- What it records of one without.
pub inspect-in_calls : (run : Run) → (run_hooks (new none) (hooks run)).entries ≡ in_calls run
unfolding new
inspect-in_calls run =
    ap (λ (i : AccessListInspector). i.entries) (run_hooks-attributed run (new none))
    ∙ attributed-in_calls run

module _ (a : Address) where
  abbrev Elsewhere : List AccessEntry → Type 0
  Elsewhere = All (λ e. e.location.address ≢ a)

  access_at-Elsewhere :
      (owner : Option Address) (opcode : ℕ) (stack : List U256)
      → owner ≢ some a
      → Elsewhere (access_at owner opcode stack)
  access_at-Elsewhere none opcode stack h = tt
  access_at-Elsewhere (some owner) opcode stack h =
      let other : owner ≢ a = λ e. h (ap (λ (x : Address). some x) e) in
      elim (Option-cases (get_last? stack)) [
        | inl e ↦ rw (access_at, e) tt
        | inr (slot, e) ↦
            rw (access_at, e)
              (elim (Bool-cases (opcode == opcode_sload)) [
                | inl r ↦ rw r (other, tt)
                | inr r ↦ rw r (elim (Bool-cases (opcode == opcode_sstore)) [
                  | inl w ↦ rw w (other, tt)
                  | inr w ↦ rw w tt
                ])
              ])
      ]

  attributed-Elsewhere :
      (owner : Option Address) (run : Run)
      → owner ≢ some a
      → CallsNot a run
      → Elsewhere (attributed owner run)
  attributed-Elsewhere owner done h c = tt
  attributed-Elsewhere owner (op opcode stack rest) h c =
      All-append _ (access_at owner opcode stack) (attributed owner rest)
        (access_at-Elsewhere owner opcode stack h) (attributed-Elsewhere owner rest h c)
  attributed-Elsewhere owner (call_frame target body rest) h c =
      All-append _ (attributed (some target) body) (attributed owner rest)
        (attributed-Elsewhere (some target) body (λ e. c.0 (ground (arith, e))) c.1)
        (attributed-Elsewhere owner rest h c.2)
  attributed-Elsewhere owner (create_frame created body rest) h c =
      All-append _ (attributed owner body) (attributed owner rest)
        (attributed-Elsewhere owner body h c.0) (attributed-Elsewhere owner rest h c.1)

  worst-Elsewhere :
      (slot : U256) (es : List AccessEntry)
      → Elsewhere es
      → worst (record { address = a; slot = slot }) es ≡ none
  worst-Elsewhere slot [] h = refl
  worst-Elsewhere slot (e ∷ es) h = ground (arith, worst-Elsewhere slot es h.1, h.0)

  -- No access is recorded under an address, other than the recipient, that no call goes to.
  pub inlined-Elsewhere :
      (to : Address) (run : Run) (slot : U256)
      → to ≢ a
      → CallsNot a run
      → worst (record { address = a; slot = slot }) (owned (some to) (inlined run)) ≡ none
  inlined-Elsewhere to run slot h c =
      ap (worst (record { address = a; slot = slot })) (sym (attributed-inlined (some to) run))
      ∙ worst-Elsewhere slot (attributed (some to) run)
          (attributed-Elsewhere (some to) run (λ e. h (ground (arith, e))) c)

  pub in_calls-Elsewhere :
      (run : Run) (slot : U256)
      → CallsNot a run
      → worst (record { address = a; slot = slot }) (in_calls run) ≡ none
  in_calls-Elsewhere run slot c =
      ap (worst (record { address = a; slot = slot })) (sym (attributed-in_calls run))
      ∙ worst-Elsewhere slot (attributed none run)
          (attributed-Elsewhere none run (λ e. ground (arith, e)) c)
