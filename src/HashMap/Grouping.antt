-- ===== src/HashMap/Grouping.antt =====
-- Loops of the form `for x in xs { step(map.entry(key(x)).or_default(), x) }`: what the map holds
-- in the end, in terms of the elements alone.
use mathlib.Core.Option
use argus_core.Base.{
  List, [], ◌∷◌, ◌++◌, map, foldl, filter, Option, none, some, if_pos, if_neg, ◌≡◌, ◌≢◌, refl, ap,
  ◌∙◌, arith,
}
use argus_core.HashMap.{get, update, set_insert}

module _ {ℓ} {K V : Type ℓ} (dec : Discrete K) where
  abbrev pub keys : List (K × V) → List K
  keys = map (λ e. e.0)

  pub keys-update :
      (k : K) (d : V) (f : V → V) (m : List (K × V))
      → keys (update dec k d f m) ≡ set_insert dec k (keys m)
  unfolding update set_insert
  keys-update k d f [] = refl
  keys-update k d f ((j, v) ∷ m) = ground (arith, keys-update k d f m)

  pub get-update_self :
      (k : K) (d : V) (f : V → V) (m : List (K × V))
      → get dec k (update dec k d f m) ≡ some (f (Option.get_or (get dec k m) d))
  unfolding update get
  get-update_self k d f [] = if_pos (dec k k) refl _ _
  get-update_self k d f ((j, v) ∷ m) = ground (arith, get-update_self k d f m)

  pub get-update_ne :
      (k j : K) (d : V) (f : V → V) (m : List (K × V))
      → k ≢ j
      → get dec j (update dec k d f m) ≡ get dec j m
  unfolding update get
  get-update_ne k j d f [] h = if_neg (dec k j) h _ _
  get-update_ne k j d f ((i, v) ∷ m) h = ground (arith, get-update_ne k j d f m h)

-- `key` names the entry that an element goes to.
module _ {ℓ} {K X : Type ℓ} (dec : Discrete K) (key : X → K) where
  -- The elements of one group, in their order.
  abbrev pub members : K → List X → List X
  members k = filter (λ x. dec (key x) k)

  -- The distinct keys, in the order in which they first occur.
  abbrev pub key_set : List K → List X → List K
  key_set s [] = s
  key_set s (x ∷ xs) = key_set (set_insert dec (key x) s) xs

-- The loop; `step` changes the value of an entry.
module _ {ℓ} {K V X : Type ℓ} (dec : Discrete K) (key : X → K) (d : V) (step : V → X → V) where
  unfoldable pub group_loop : List (K × V) → List X → List (K × V)
  group_loop m [] = m
  group_loop m (x ∷ xs) = group_loop (update dec (key x) d (λ v. step v x) m) xs

  -- What the loop makes of one entry.
  abbrev gather : Option V → List X → Option V
  gather o [] = o
  gather o (x ∷ xs) = gather (some (step (Option.get_or o d) x)) xs

  get-group_loop_from :
      (k : K) (m : List (K × V)) (xs : List X)
      → get dec k (group_loop m xs) ≡ gather (get dec k m) (members dec key k xs)
  unfolding group_loop
  get-group_loop_from k m [] = refl
  get-group_loop_from k m (x ∷ xs) =
      let rest = get-group_loop_from k (update dec (key x) d (λ v. step v x) m) xs in
      let ys = members dec key k xs in
      elim (dec (key x) k) [
        | yes p ↦
            rw (if_pos (dec (key x) k) p)
              (rest ∙ ap (λ o. gather o ys) (rw p (get-update_self dec k d (λ v. step v x) m)))
        | no p ↦
            rw (if_neg (dec (key x) k) p)
              (rest ∙ ap (λ o. gather o ys) (get-update_ne dec (key x) k d (λ v. step v x) m p))
      ]

  gather-some : (v : V) (xs : List X) → gather (some v) xs ≡ some (foldl step v xs)
  gather-some v [] = refl
  gather-some v (x ∷ xs) = gather-some (step v x) xs

  gather-none : (xs : List X) → Option.get_or (gather none xs) d ≡ foldl step d xs
  gather-none [] = refl
  gather-none (x ∷ xs) = ap (λ o. Option.get_or o d) (gather-some (step d x) xs)

  -- What the loop leaves under a key: the fold of its group.
  pub get-group_loop :
      (k : K) (xs : List X)
      → Option.get_or (get dec k (group_loop [] xs)) d ≡ foldl step d (members dec key k xs)
  unfolding get
  get-group_loop k xs =
      ap (λ o. Option.get_or o d) (get-group_loop_from k [] xs) ∙ gather-none (members dec key k xs)

  pub keys-group_loop :
      (m : List (K × V)) (xs : List X)
      → keys dec (group_loop m xs) ≡ key_set dec key (keys dec m) xs
  unfolding group_loop
  keys-group_loop m [] = refl
  keys-group_loop m (x ∷ xs) =
      keys-group_loop (update dec (key x) d (λ v. step v x) m) xs
      ∙ ap (λ s. key_set dec key s xs) (keys-update dec (key x) d (λ v. step v x) m)

  pub group_loop-append :
      (m : List (K × V)) (xs ys : List X)
      → group_loop m (xs ++ ys) ≡ group_loop (group_loop m xs) ys
  unfolding group_loop
  group_loop-append m [] ys = refl
  group_loop-append m (x ∷ xs) ys = group_loop-append (update dec (key x) d (λ v. step v x) m) xs ys
