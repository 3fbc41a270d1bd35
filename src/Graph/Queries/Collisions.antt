-- ===== src/Graph/Queries/Collisions.antt =====
-- Conflicts of two transactions, read off what was recorded for each.
use mathlib.Core.List.{
  Mem, Nodup, Nodup-cons, eq-or-mem_of_mem-cons, not-mem-nil, mem-map_of_mem, mem-cons_self,
  mem-cons_of_mem,
}
use mathlib.Core.Logic.Or
use argus_core.Base.{
  Bool_set, any, any-ext, any-or, any-append, List, [], ◌∷◌, map, Option, none, some, Bool, true,
  false, ◌||◌, ◌&&◌, ◌==◌, ◌≡◌, ◌≢◌, refl, sym, ap, ◌∙◌, arith, All,
}
use argus_core.HashMap.{Iteration}
use argus_core.Types.{
  B256, StorageLocation, StorageLocation_discrete, AccessMode, AccessEntry, AccessList,
}
use argus_core.Types.ConflictGraph.{has_conflict}
use argus_core.Simulator.Dedup.Comparison.{Before, Before-irrefl}
use argus_core.Simulator.Dedup.Ascending.{IsAscending}
use argus_core.Simulator.Dedup.WorstCase.{mode_at, worst}
use argus_core.Graph.{Accessor, build_conflict_graph}
use argus_core.Graph.Hazards.{Access, access_of, accesses, is_write}
use argus_core.Graph.Queries.{clashes, has_conflict-interferes}

-- Two entries at one location, not both reads.
abbrev pub entries_clash : AccessEntry → AccessEntry → Bool
entries_clash e d =
    elim (StorageLocation_discrete e.location d.location) [ yes _ ↦ true | no _ ↦ false ]
    && (is_write e.mode || is_write d.mode)

-- Some entry of the one clashes with some entry of the other.
abbrev pub collide : List AccessEntry → List AccessEntry → Bool
collide es ds = any (λ e. any (entries_clash e) ds) es

entries_clash_comm : (e d : AccessEntry) → entries_clash e d ≡ entries_clash d e
entries_clash_comm e d = ground arith

any-none {ℓ} : {A : Type ℓ} (xs : List A) → any (λ _. false) xs ≡ false
any-none [] = refl
any-none (x ∷ xs) = any-none xs

collide_comm : (es ds : List AccessEntry) → collide es ds ≡ collide ds es
collide_comm [] ds = sym (any-none ds)
collide_comm (e ∷ es) ds =
    rw (any-ext ds (λ d. entries_clash_comm e d), collide_comm es ds)
      (sym (any-or (λ d. entries_clash d e) (λ d. any (entries_clash d) es) ds))

-- Whether an access of this mode clashes with the worst one at its location.
abbrev meets : AccessMode → Option AccessMode → Bool
meets m none = false
meets m (some n) = is_write m || is_write n

clash-worst :
    (e : AccessEntry) (ds : List AccessEntry)
    → any (entries_clash e) ds ≡ meets e.mode (worst e.location ds)
clash-worst e [] = refl
clash-worst e (d ∷ ds) = ground (arith, clash-worst e ds)

collide-worst :
    (es ds ds' : List AccessEntry)
    → ((location : StorageLocation) → worst location ds ≡ worst location ds')
    → collide es ds ≡ collide es ds'
collide-worst es ds ds' h =
    any-ext es (λ e. clash-worst e ds ∙ ap (meets e.mode) (h e.location) ∙ sym (clash-worst e ds'))

-- Collisions only depend on the worst modes.
pub collide-worst_both :
    (es es' ds ds' : List AccessEntry)
    → ((location : StorageLocation) → worst location es ≡ worst location es')
    → ((location : StorageLocation) → worst location ds ≡ worst location ds')
    → collide es ds ≡ collide es' ds'
collide-worst_both es es' ds ds' h k =
    collide-worst es ds ds' k
    ∙ collide_comm es ds'
    ∙ collide-worst ds' es es' h
    ∙ collide_comm ds' es'

worst-absent :
    (location : StorageLocation) (es : List AccessEntry)
    → All (λ d. Before location d.location) es
    → worst location es ≡ none
worst-absent location [] h = refl
worst-absent location (d ∷ es) h =
    ground (arith, worst-absent location es h.1, Before-irrefl location, h.0)

-- Where each location stands once, the first mode is the worst.
pub worst-mode_at :
    (location : StorageLocation) (es : List AccessEntry)
    → IsAscending es
    → worst location es ≡ mode_at location es
worst-mode_at location [] h = refl
worst-mode_at location (e ∷ es) h =
    ground (arith, worst-absent e.location es h.0, worst-mode_at location es h.1)

or_false : (b : Bool) → (b || false) ≡ b
or_false b = ground arith

module _ (p : Access → Bool) (tx : B256) where
  any-own :
      (es : List AccessEntry)
      → any (λ x. x.tx == tx && p x) (map (access_of tx) es) ≡ any (λ e. p (access_of tx e)) es
  any-own [] = refl
  any-own (e ∷ es) = ground (arith, any-own es)

  any-foreign :
      (t : B256) (es : List AccessEntry)
      → t ≢ tx
      → any (λ x. x.tx == tx && p x) (map (access_of t) es) ≡ false
  any-foreign t [] h = refl
  any-foreign t (e ∷ es) h = ground (arith, any-foreign t es h)

  any-others :
      (lists : List AccessList)
      → ¬ Mem tx (map (λ al. al.tx_hash) lists)
      → any (λ x. x.tx == tx && p x) (accesses lists) ≡ false
  any-others [] h = refl
  any-others (al ∷ lists) h =
      any-append (λ x. x.tx == tx && p x) (map (access_of al.tx_hash) al.entries) (accesses lists)
      ∙ rw
          (
            any-foreign al.tx_hash al.entries (λ e. h (rw e mem-cons_self)),
            any-others lists (λ m. h (mem-cons_of_mem al.tx_hash m)),
          )
          refl

-- Of the accesses of the batch, only those of the transaction count.
any-accesses :
    (p : Access → Bool) (al : AccessList) (lists : List AccessList)
    → Nodup (map (λ l. l.tx_hash) lists)
    → Mem al lists
    → any (λ x. x.tx == al.tx_hash && p x) (accesses lists)
      ≡ any (λ e. p (access_of al.tx_hash e)) al.entries
any-accesses p al [] d m = absurd (not-mem-nil m)
any-accesses p al (bl ∷ lists) d m =
    any-append (λ x. x.tx == al.tx_hash && p x) (map (access_of bl.tx_hash) bl.entries)
      (accesses lists)
    ∙ Or.elim (Bool_set _ _) (eq-or-mem_of_mem-cons m)
        (λ e. rw e (
          rw (any-own p bl.tx_hash bl.entries, any-others p bl.tx_hash lists (Nodup-cons.0 d).0)
            (or_false _)))
        (λ m.
          rw
            (any-foreign p al.tx_hash bl.tx_hash bl.entries
              (λ e. (Nodup-cons.0 d).0 (rw e (mem-map_of_mem (λ l. l.tx_hash) m))))
            (any-accesses p al lists (Nodup-cons.0 d).1 m))

-- If the transactions of the batch have different hashes, `has_conflict` answers for two of them
-- whether the entries of their access lists collide.
pub has_conflict-collide :
    (it : Iteration (StorageLocation × List Accessor)) (lists : List AccessList)
    (al bl : AccessList)
    → Nodup (map (λ l. l.tx_hash) lists)
    → Mem al lists
    → Mem bl lists
    → al.tx_hash ≢ bl.tx_hash
    → has_conflict (build_conflict_graph it lists) al.tx_hash bl.tx_hash
      ≡ collide al.entries bl.entries
unfolding clashes
has_conflict-collide it lists al bl d m n h =
    has_conflict-interferes al.tx_hash bl.tx_hash it lists h
    ∙ any-accesses (λ x. any (λ y. y.tx == bl.tx_hash && clashes x y) (accesses lists)) al lists d m
    ∙ any-ext al.entries (λ e. any-accesses (clashes (access_of al.tx_hash e)) bl lists d n)
