-- ===== src/HashMap/Sets.antt =====
-- What insertion into a `HashSet` does to its members.
use mathlib.Core.List.{
  Mem, Mem-prop, Nodup, Nodup-cons, Nodup-nil, not-mem-nil, mem-cons_self, mem-cons_of_mem,
  eq-or-mem_of_mem-cons,
}
use mathlib.Core.Logic.Or
use argus_core.Base.{◌+◌, ◌≤◌, ◌<◌, length, arith, List, [], ◌∷◌, ◌≢◌, if_pos, if_neg}
use argus_core.HashMap.{set_insert}
use argus_core.HashMap.Grouping.{key_set}

module _ {ℓ} {K : Type ℓ} (dec : Discrete K) where
  pub mem-set_insert_self : (k : K) (s : List K) → Mem k (set_insert dec k s)
  unfolding set_insert
  mem-set_insert_self k [] = mem-cons_self
  mem-set_insert_self k (j ∷ s) = elim (dec j k) [
    | yes p ↦ rw (if_pos _ p, p) mem-cons_self
    | no p ↦ rw (if_neg _ p) (mem-cons_of_mem j (mem-set_insert_self k s))
  ]

  pub mem-set_insert_of_mem : (k : K) {j : K} (s : List K) → Mem j s → Mem j (set_insert dec k s)
  unfolding set_insert
  mem-set_insert_of_mem k [] m = absurd (not-mem-nil m)
  mem-set_insert_of_mem k (i ∷ s) m = elim (dec i k) [
    | yes p ↦ rw (if_pos _ p) m
    | no p ↦ rw (if_neg _ p) (
        Or.elim Mem-prop (eq-or-mem_of_mem-cons m) (λ e. rw e mem-cons_self)
          (λ t. mem-cons_of_mem i (mem-set_insert_of_mem k s t)))
  ]

  -- A member of the new set is the inserted key or was a member before.
  pub mem_of_mem-set_insert :
      (k : K) {j : K} (s : List K) → Mem j (set_insert dec k s) → j ≢ k → Mem j s
  unfolding set_insert
  mem_of_mem-set_insert k [] m h =
      Or.elim Mem-prop (eq-or-mem_of_mem-cons m) (λ e. absurd (h e)) (λ t. t)
  mem_of_mem-set_insert k {j} (i ∷ s) m h = elim (dec i k) [
    | yes p ↦ rw (if_pos (dec i k) p) at m
    | no p ↦
        let m' : Mem j (i ∷ set_insert dec k s) = rw (if_neg (dec i k) p) at m in
        Or.elim Mem-prop (eq-or-mem_of_mem-cons m') (λ e. rw e mem-cons_self)
          (λ t. mem-cons_of_mem i (mem_of_mem-set_insert k s t h))
  ]

  pub set_insert-Nodup : (k : K) (s : List K) → Nodup s → Nodup (set_insert dec k s)
  unfolding set_insert
  set_insert-Nodup k [] h = Nodup-cons.1 (not-mem-nil, Nodup-nil)
  set_insert-Nodup k (i ∷ s) h = elim (dec i k) [
    | yes p ↦ rw (if_pos _ p) h
    | no p ↦ rw (if_neg _ p) (
        Nodup-cons.1 (
          (λ m. (Nodup-cons.0 h).0 (mem_of_mem-set_insert k s m p)),
          set_insert-Nodup k s (Nodup-cons.0 h).1,
        ))
  ]

  -- An insertion makes a set no smaller, and by at most one larger.
  pub length-set_insert :
      (k : K) (s : List K)
      → (length s ≤ length (set_insert dec k s))
        × (length (set_insert dec k s) ≤ length s + 1)
        × (0 < length (set_insert dec k s))
  unfolding set_insert
  length-set_insert k [] = omega arith
  length-set_insert k (i ∷ s) = ground (arith, length-set_insert k s)

module _ {ℓ} {K X : Type ℓ} (dec : Discrete K) (key : X → K) where
  pub length-key_set :
      (s : List K) (xs : List X)
      → (length s ≤ length (key_set dec key s xs))
        × (length (key_set dec key s xs) ≤ length s + length xs)
  length-key_set s [] = omega arith
  length-key_set s (x ∷ xs) =
      omega (arith, length-set_insert dec (key x) s, length-key_set (set_insert dec (key x) s) xs)

  -- There are no more distinct keys than elements, and one at least if there is an element.
  pub length-keys :
      (xs : List X)
      → 0 < length xs
      → (0 < length (key_set dec key [] xs)) × (length (key_set dec key [] xs) ≤ length xs)
  length-keys [] h = absurd (omega (arith, h))
  length-keys (x ∷ xs) h =
      omega (arith, length-set_insert dec (key x) [], length-key_set (set_insert dec (key x) []) xs)
