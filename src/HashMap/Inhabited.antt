-- ===== src/HashMap/Inhabited.antt =====
-- The keys of such a map are the keys of elements: no group is empty.
use mathlib.Core.List.{append_assoc}
use argus_core.Base.{
  ◌<◌, List, [], ◌∷◌, ◌++◌, length, length-append, ◌≡◌, refl, if_pos, if_neg, All, arith,
}
use argus_core.HashMap.{set_insert}
use argus_core.HashMap.Grouping.{members, key_set}

module _ {ℓ} {K X : Type ℓ} (dec : Discrete K) (key : X → K) where
  All-set_insert {κ} :
      (P : K → Type κ) (k : K) (s : List K) → P k → All P s → All P (set_insert dec k s)
  unfolding set_insert
  All-set_insert P k [] h hs = (h, tt)
  All-set_insert P k (j ∷ s) h hs = elim (dec j k) [
    | yes p ↦ rw (if_pos (dec j k) p) hs
    | no p ↦ rw (if_neg (dec j k) p) (hs.0, All-set_insert P k s h hs.1)
  ]

  -- What holds of the keys of the elements holds of all keys.
  pub All-key_set_of {κ} :
      (P : K → Type κ) (s : List K) (xs : List X)
      → All P s
      → All (λ x. P (key x)) xs
      → All P (key_set dec key s xs)
  All-key_set_of P s [] hs h = hs
  All-key_set_of P s (x ∷ xs) hs h =
      All-key_set_of P (set_insert dec (key x) s) xs (All-set_insert P (key x) s h.0 hs) h.1

  members-append :
      (k : K) (xs ys : List X)
      → members dec key k (xs ++ ys) ≡ members dec key k xs ++ members dec key k ys
  members-append k [] ys = refl
  members-append k (x ∷ xs) ys = ground (arith, members-append k xs ys)

  abbrev pub HasMembers : List X → K → Type 0
  HasMembers xs k = 0 < length (members dec key k xs)

  members_pos : (pre xs : List X) → All (λ x. HasMembers (pre ++ xs) (key x)) xs
  members_pos pre [] = tt
  members_pos pre (x ∷ xs) =
      (here, rw (append_assoc pre (x ∷ []) xs) at (members_pos (pre ++ x ∷ []) xs))
    where
      here : HasMembers (pre ++ x ∷ xs) (key x)
      here =
          rw (members-append (key x) pre (x ∷ xs), if_pos (dec (key x) (key x)) refl)
            (omega
              (arith, length-append (members dec key (key x) pre) (x ∷ members dec key (key x) xs)))

  pub key_set-HasMembers : (xs : List X) → All (HasMembers xs) (key_set dec key [] xs)
  key_set-HasMembers xs = All-key_set_of (HasMembers xs) [] xs tt (members_pos [] xs)
