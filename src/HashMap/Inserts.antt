-- ===== src/HashMap/Inserts.antt =====
-- A map filled by insertions: the last one for a key counts.
use mathlib.Core.Path.{subst₂}
use argus_core.Base.{
  List, [], ◌∷◌, foldl, some_inj, Option, some, ite, if_pos, if_neg, ◌≡◌, refl, ap, ◌∙◌, All,
}
use argus_core.HashMap.{get, insert}
use argus_core.HashMap.Grouping.{get-update_self, get-update_ne}

module _ {ℓ} {K V : Type ℓ} (dec : Discrete K) where
  -- The value of the last entry with the key, or `before`.
  abbrev pub last_value : K → Option V → List (K × V) → Option V
  last_value k before [] = before
  last_value k before (e ∷ es) = last_value k (ite (dec e.0 k) (some e.1) before) es

  get-insert :
      (k j : K) (v : V) (m : List (K × V))
      → get dec j (insert dec k v m) ≡ ite (dec k j) (some v) (get dec j m)
  unfolding insert
  get-insert k j v m = elim (dec k j) [
    | yes p ↦ rw (if_pos (dec k j) p) (rw (← p) (get-update_self dec k v (λ _. v) m))
    | no p ↦ rw (if_neg (dec k j) p) (get-update_ne dec k j v (λ _. v) m p)
  ]

  pub get-inserts :
      (k : K) (es m : List (K × V))
      → get dec k (foldl (λ m e. insert dec e.0 e.1 m) m es) ≡ last_value k (get dec k m) es
  get-inserts k [] m = refl
  get-inserts k (e ∷ es) m =
      get-inserts k es (insert dec e.0 e.1 m) ∙ ap (λ o. last_value k o es) (get-insert e.0 k e.1 m)

  -- What holds of every entry holds of what a look-up finds.
  pub All-last_value {κ} :
      (P : K → V → Type κ) (k : K) (before : Option V) (es : List (K × V)) {v : V}
      → ((w : V) → before ≡ some w → P k w)
      → All (λ e. P e.0 e.1) es
      → last_value k before es ≡ some v
      → P k v
  All-last_value P k before [] {v} h hs e = h v e
  All-last_value P k before ((j, w) ∷ es) {v} h hs e = elim (dec j k) [
    | yes p ↦
        All-last_value P k (some w) es (λ u q. subst₂ P p (some_inj q) hs.0) hs.1
          (rw (if_pos (dec j k) p) at e)
    | no p ↦ All-last_value P k before es h hs.1 (rw (if_neg (dec j k) p) at e)
  ]
