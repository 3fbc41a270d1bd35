-- ===== src/HashMap/Renamed.antt =====
-- Sets whose keys are renamed, no two of them alike.
use mathlib.Core.Logic.{if_pos, if_neg}
use argus_core.Base.{List, [], ◌∷◌, map, ◌≡◌, refl, ap, ◌∙◌}
use argus_core.HashMap.{set_insert}
use argus_core.HashMap.Grouping.{key_set}

module _ {ℓ} {K L : Type ℓ} (dec : Discrete K) (dec' : Discrete L) (f : K → L)
    (inj : (j k : K) → f j ≡ f k → j ≡ k) where
  set_insert-map :
      (k : K) (s : List K) → set_insert dec' (f k) (map f s) ≡ map f (set_insert dec k s)
  unfolding set_insert
  set_insert-map k [] = refl
  set_insert-map k (j ∷ s) = elim (dec j k) [
    | yes p ↦ rw (if_pos (dec j k) p, if_pos (dec' (f j) (f k)) (ap f p)) refl
    | no p ↦
        rw (if_neg (dec j k) p, if_neg (dec' (f j) (f k)) (λ e. p (inj j k e)))
          (ap (λ t. f j ∷ t) (set_insert-map k s))
  ]

  -- The keys of the renamed elements are the renamed keys.
  pub key_set-map :
      {X Y : Type ℓ} (key : X → K) (key' : Y → L) (g : X → Y)
      → ((x : X) → key' (g x) ≡ f (key x))
      → (s : List K) (xs : List X)
      → key_set dec' key' (map f s) (map g xs) ≡ map f (key_set dec key s xs)
  key_set-map key key' g e s [] = refl
  key_set-map key key' g e s (x ∷ xs) =
      ap (λ t. key_set dec' key' t (map g xs))
        (ap (λ l. set_insert dec' l (map f s)) (e x) ∙ set_insert-map (key x) s)
      ∙ key_set-map key key' g e (set_insert dec (key x) s) xs
