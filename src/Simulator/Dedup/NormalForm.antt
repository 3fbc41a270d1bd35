-- ===== src/Simulator/Dedup/NormalForm.antt =====
-- Which recordings of accesses end in the same access list.
use argus_core.Base.{
  List, [], ◌∷◌, none, some, ◌≡◌, ◌≢◌, ◌↔◌, refl, sym, subst, ap, ◌∙◌, ◌⊎◌, inl, inr, All, All-mono,
  arith, if_pos, if_neg,
}
use mathlib.Core.List.{Perm}
use argus_core.Slices.Sorted.{IsSorted}
use argus_core.Types.{StorageLocation, StorageLocation_discrete, AccessEntry}
use argus_core.Simulator.Dedup.{cmp_entry, dedup, canonical}
use argus_core.Simulator.Dedup.Comparison.{Before, Before-irrefl, Before-trans}
use argus_core.Simulator.Dedup.Ascending.{IsAscending, dedup-IsAscending, canonical-IsAscending}
use argus_core.Simulator.Dedup.WorstCase.{
  mode_at, worst, mode_at-dedup, worst-perm, mode_at-canonical,
}

Before-total : (a b : StorageLocation) → a ≢ b → Before a b ⊎ Before b a
Before-total a b h = ground arith

Before-trans_all :
    (a b : StorageLocation) (xs : List AccessEntry)
    → Before a b
    → All (λ x. Before b x.location) xs
    → All (λ x. Before a x.location) xs
Before-trans_all a b xs h k = All-mono xs (λ x q. Before-trans a b x.location h q) k

-- Nothing is recorded before the first entry.
mode_at-Before :
    (l : StorageLocation) (xs : List AccessEntry)
    → All (λ b. Before l b.location) xs
    → mode_at l xs ≡ none
mode_at-Before l [] h = refl
mode_at-Before l (x ∷ xs) h = ground (arith, Before-irrefl l, h.0, mode_at-Before l xs h.1)

mode_at-here : (x : AccessEntry) (xs : List AccessEntry) → mode_at x.location (x ∷ xs) ≡ some x.mode
mode_at-here x xs = if_pos (StorageLocation_discrete x.location x.location) refl _ _

mode_at-elsewhere :
    (l : StorageLocation) (x : AccessEntry) (xs : List AccessEntry)
    → x.location ≢ l
    → mode_at l (x ∷ xs) ≡ mode_at l xs
mode_at-elsewhere l x xs h = if_neg (StorageLocation_discrete x.location l) h _ _

-- The two record the same mode for every location.
abbrev SameModes : List AccessEntry → List AccessEntry → Type 0
SameModes xs ys = (l : StorageLocation) → mode_at l xs ≡ mode_at l ys

-- A list with an entry differs from one that begins later.
later-differs :
    (x : AccessEntry) (xs ys : List AccessEntry)
    → All (λ y. Before x.location y.location) ys
    → ¬ SameModes (x ∷ xs) ys
later-differs x xs ys h same =
    ground (arith, mode_at-here x xs, same x.location, mode_at-Before x.location ys h)

heads :
    (x y : AccessEntry) (xs ys : List AccessEntry)
    → IsAscending (x ∷ xs)
    → IsAscending (y ∷ ys)
    → SameModes (x ∷ xs) (y ∷ ys)
    → x ≡ y
heads x y xs ys h k same = elim (StorageLocation_discrete x.location y.location) [
  | yes p ↦ ground (arith, p, mode_at-here x xs, mode_at-here y ys, same x.location)
  | no p ↦ elim (Before-total x.location y.location p) [
    | inl q ↦
        absurd
          (later-differs x xs (y ∷ ys) (q, Before-trans_all x.location y.location ys q k.0) same)
    | inr q ↦ absurd (
        later-differs y ys (x ∷ xs) (q, Before-trans_all y.location x.location xs q h.0)
          (λ l. sym (same l)))
  ]
]

tails :
    (x : AccessEntry) (xs ys : List AccessEntry)
    → All (λ b. Before x.location b.location) xs
    → All (λ b. Before x.location b.location) ys
    → SameModes (x ∷ xs) (x ∷ ys)
    → SameModes xs ys
tails x xs ys h k same l = elim (StorageLocation_discrete x.location l) [
  | yes p ↦ rw (← p) (mode_at-Before x.location xs h ∙ sym (mode_at-Before x.location ys k))
  | no p ↦ sym (mode_at-elsewhere l x xs p) ∙ same l ∙ mode_at-elsewhere l x ys p
]

ascending-ext :
    (xs ys : List AccessEntry) → IsAscending xs → IsAscending ys → SameModes xs ys → xs ≡ ys
ascending-ext [] [] h k same = refl
ascending-ext [] (y ∷ ys) h k same = absurd (later-differs y ys [] tt (λ l. sym (same l)))
ascending-ext (x ∷ xs) [] h k same = absurd (later-differs x xs [] tt same)
ascending-ext (x ∷ xs) (y ∷ ys) h k same =
    let e = heads x y xs ys h k same in
    let k' = subst (λ z. IsAscending (z ∷ ys)) (sym e) k in
    let same' = subst (λ z. SameModes (x ∷ xs) (z ∷ ys)) (sym e) same in
    ap (λ t. x ∷ t) (ascending-ext xs ys h.1 k.1 (tails x xs ys h.0 k'.0 same'))
    ∙ ap (λ z. z ∷ ys) e

-- However the entries are sorted: the deduplication of any rearrangement of the recorded entries that
-- is in order by location and by mode, a write before a read, is the access list.
pub dedup-canonical :
    (entries sorted : List AccessEntry)
    → Perm sorted entries
    → IsSorted cmp_entry sorted
    → dedup sorted ≡ canonical entries
dedup-canonical entries sorted p s =
    ascending-ext (dedup sorted) (canonical entries) (dedup-IsAscending sorted s)
      (canonical-IsAscending entries)
      (λ l. mode_at-dedup l sorted s ∙ worst-perm l p ∙ sym (mode_at-canonical l entries))

-- Two recordings end in the same access list exactly if they have the same worst mode for every
-- location: neither the order nor the number of the accesses counts.
pub canonical_iff :
    (xs ys : List AccessEntry)
    → (canonical xs ≡ canonical ys) ↔ ((l : StorageLocation) → worst l xs ≡ worst l ys)
canonical_iff xs ys = (
  (λ e l. sym (mode_at-canonical l xs) ∙ ap (mode_at l) e ∙ mode_at-canonical l ys),
  (λ same.
      ascending-ext (canonical xs) (canonical ys) (canonical-IsAscending xs)
        (canonical-IsAscending ys)
        (λ l. mode_at-canonical l xs ∙ same l ∙ sym (mode_at-canonical l ys))),
)
