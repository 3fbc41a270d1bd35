-- ===== src/HashMap/Entries.antt =====
-- The map that such a loop leaves, entry by entry.
use mathlib.Core.List.{Mem, Nodup, Nodup-cons, Nodup-nil, mem-cons_self, mem-cons_of_mem}
use mathlib.Core.Option
use mathlib.Core.Path.{fun_ext}
use argus_core.Base.{List, [], ◌∷◌, map, foldl, if_pos, if_neg, ◌≡◌, refl, ap, ◌∙◌, All}
use argus_core.HashMap.{get, set_insert}
use argus_core.HashMap.Grouping.{
  keys, members, key_set, group_loop, get-group_loop, keys-group_loop,
}
use argus_core.HashMap.Sets.{mem-set_insert_self, mem-set_insert_of_mem, set_insert-Nodup}

module _ {ℓ} {K V : Type ℓ} (dec : Discrete K) (d : V) where
  -- The entry of a key, as `get` reports it.
  abbrev entry : List (K × V) → K → K × V
  entry m k = (k, Option.get_or (get dec k m) d)

  map-entry_absent :
      (j : K) (v : V) (m : List (K × V)) (ks : List K)
      → ¬ Mem j ks
      → map (entry ((j, v) ∷ m)) ks ≡ map (entry m) ks
  unfolding get
  map-entry_absent j v m [] h = refl
  map-entry_absent j v m (k ∷ ks) h =
      rw (if_neg (dec j k) (λ e. h (rw e mem-cons_self)))
        (ap (◌∷◌ (entry m k)) (map-entry_absent j v m ks (λ t. h (mem-cons_of_mem k t))))

  -- A map with distinct keys is determined by what its keys look up.
  pub entries-eq-map : (m : List (K × V)) → Nodup (keys dec m) → m ≡ map (entry m) (keys dec m)
  unfolding get
  entries-eq-map [] h = refl
  entries-eq-map ((j, v) ∷ m) h =
      rw (if_pos (dec j j) refl, map-entry_absent j v m (keys dec m) (Nodup-cons.0 h).0)
        (ap (◌∷◌ (j, v)) (entries-eq-map m (Nodup-cons.0 h).1))

module _ {ℓ} {K X : Type ℓ} (dec : Discrete K) (key : X → K) where
  pub key_set-Nodup : (s : List K) (xs : List X) → Nodup s → Nodup (key_set dec key s xs)
  key_set-Nodup s [] h = h
  key_set-Nodup s (x ∷ xs) h =
      key_set-Nodup (set_insert dec (key x) s) xs (set_insert-Nodup dec (key x) s h)

  mem-key_set : {k : K} (s : List K) (xs : List X) → Mem k s → Mem k (key_set dec key s xs)
  mem-key_set s [] h = h
  mem-key_set s (x ∷ xs) h =
      mem-key_set (set_insert dec (key x) s) xs (mem-set_insert_of_mem dec (key x) s h)

  -- Every element's key is a key of the map.
  pub All-key_set : (s : List K) (xs : List X) → All (λ x. Mem (key x) (key_set dec key s xs)) xs
  All-key_set s [] = tt
  All-key_set s (x ∷ xs) = (
    mem-key_set (set_insert dec (key x) s) xs (mem-set_insert_self dec (key x) s),
    All-key_set (set_insert dec (key x) s) xs,
  )

module _ {ℓ} {K V X : Type ℓ} (dec : Discrete K) (key : X → K) (d : V) (step : V → X → V) where
  -- One entry for each distinct key, with the fold of the key's group.
  pub group_loop-eq-map :
      (xs : List X)
      → group_loop dec key d step [] xs
        ≡ map
            (λ k. let e : K × V = (k, foldl step d (members dec key k xs)) in e)
            (key_set dec key [] xs)
  group_loop-eq-map xs =
      let m = group_loop dec key d step [] xs in
      let ks : keys dec m ≡ key_set dec key [] xs = keys-group_loop dec key d step [] xs in
      let distinct : Nodup (keys dec m) = rw ks (key_set-Nodup dec key [] xs Nodup-nil) in
      entries-eq-map dec d m distinct
      ∙ ap (map (entry dec d m)) ks
      ∙ ap (λ (f : K → K × V). map f (key_set dec key [] xs))
          (fun_ext
            (λ k. ap (λ (v : V). let e : K × V = (k, v) in e) (get-group_loop dec key d step k xs)))
