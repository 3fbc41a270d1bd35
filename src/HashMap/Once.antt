-- ===== src/HashMap/Once.antt =====
-- The keys of a set filled by a loop: what was inserted, each once.
use mathlib.Core.List.{
  Mem, Mem-prop, Nodup, Nodup-nil, not-mem-nil, mem-cons_self, mem-cons_of_mem,
  eq-or-mem_of_mem-cons,
}
use mathlib.Core.Logic.Or
use argus_core.Base.{List, [], ◌∷◌, map, sym, subst, ◌↔◌, All}
use argus_core.HashMap.{set_insert}
use argus_core.HashMap.Entries.{key_set-Nodup, All-key_set}
use argus_core.HashMap.Grouping.{key_set}
use argus_core.HashMap.Sets.{mem_of_mem-set_insert}

-- The second list has what is in the first, without repetition.
pub record EachOnce {K : Type 0} (xs : List K) (once : List K) : Type 0 where
  pub distinct : Nodup once
  pub each : (k : K) → Mem k once ↔ Mem k xs

module _ {K X : Type 0} (dec : Discrete K) (key : X → K) where
  mem_of_mem-key_set :
      {k : K} (s : List K) (xs : List X)
      → ¬ Mem k s
      → Mem k (key_set dec key s xs)
      → Mem k (map key xs)
  mem_of_mem-key_set s [] h m = absurd (h m)
  mem_of_mem-key_set {k} s (x ∷ xs) h m = elim (dec k (key x)) [
    | yes p ↦ rw p mem-cons_self
    | no p ↦ mem-cons_of_mem (key x) (
        mem_of_mem-key_set (set_insert dec (key x) s) xs
          (λ n. h (mem_of_mem-set_insert dec (key x) s n p)) m)
  ]

  mem-of_All :
      {k : K} (ks : List K) (xs : List X)
      → All (λ x. Mem (key x) ks) xs
      → Mem k (map key xs)
      → Mem k ks
  mem-of_All ks [] h m = absurd (not-mem-nil m)
  mem-of_All ks (x ∷ xs) h m =
      Or.elim Mem-prop (eq-or-mem_of_mem-cons m) (λ e. subst (λ j. Mem j ks) (sym e) h.0)
        (λ n. mem-of_All ks xs h.1 n)

  pub key_set-EachOnce : (xs : List X) → EachOnce (map key xs) (key_set dec key [] xs)
  key_set-EachOnce xs = record {
    distinct = key_set-Nodup dec key [] xs Nodup-nil;
    each = λ k. (
      mem_of_mem-key_set [] xs not-mem-nil,
      mem-of_All (key_set dec key [] xs) xs (All-key_set dec key [] xs),
    );
  }
