-- ===== src/Types/ConflictGraph/View.antt =====
-- A conflict graph as its users see it: a bag of edges, without their order and their direction.
use mathlib.Core.List.{Perm, perm_append_comm}
use mathlib.Core.List.Perm
use mathlib.Core.Quot
use mathlib.Core.Quot.{Quot, Quot-set}
use native.Mathlib.Nat.{ℕ_set}
use argus_core.Base.{
  ℕ, List, [], ◌∷◌, map, Bool, true, false, ◌||◌, ◌==◌, leb, if◌then◌else◌, any, any-perm, any-ext,
  Bool_set, ◌≡◌, refl, sym, ap, ◌∙◌, arith, length, length-perm, length-map,
}
use argus_core.Types.{B256, Conflict}
use argus_core.Types.ConflictGraph.{ConflictGraph, new, add_conflict, has_conflict, len, is_empty}
use argus_core.Types.ConflictGraph.Adjacency.{
  joins, IsConsistent, new-IsConsistent, add_conflict-IsConsistent,
}

-- The edge seen from its other end.
abbrev pub flip : Conflict → Conflict
flip c = record c { tx_a = c.tx_b; tx_b = c.tx_a }

-- The edge seen from its smaller end.
abbrev pub upward : Conflict → Conflict
upward c = if leb c.tx_a c.tx_b then c else flip c

-- The same edges, each as often, in any order and direction.
abbrev pub SameEdges : List Conflict → List Conflict → Type 0
SameEdges cs ds = Perm (map upward cs) (map upward ds)

abbrev pub View : Type 0
View = Quot SameEdges

abbrev pub of_edges : List Conflict → View
of_edges = Quot.mk

abbrev pub view : ConflictGraph → View
view g = of_edges g.conflicts

pub upward-flip : (c : Conflict) → upward (flip c) ≡ upward c
upward-flip c = ground arith

joins-upward : (a b : B256) (c : Conflict) → joins a b (upward c) ≡ joins a b c
joins-upward a b c = ground arith

any-map {ℓ} :
    {A : Type ℓ} (p : A → Bool) (f : A → A) (xs : List A) → any p (map f xs) ≡ any (λ x. p (f x)) xs
any-map p f [] = refl
any-map p f (x ∷ xs) = ap (λ t. p (f x) || t) (any-map p f xs)

pub any-SameEdges :
    (a b : B256) (cs ds : List Conflict) → SameEdges cs ds → any (joins a b) cs ≡ any (joins a b) ds
any-SameEdges a b cs ds p = undirected cs ∙ any-perm (joins a b) p ∙ sym (undirected ds)
  where
    undirected : (l : List Conflict) → any (joins a b) l ≡ any (joins a b) (map upward l)
    undirected l = sym (any-map (joins a b) upward l ∙ any-ext l (joins-upward a b))

pub length-SameEdges : (cs ds : List Conflict) → SameEdges cs ds → length cs ≡ length ds
length-SameEdges cs ds p = omega (arith, length-map upward cs, length-map upward ds, length-perm p)

unfoldable pub nothing : View
nothing = of_edges []

unfoldable pub insert : Conflict → View → View
insert c =
    Quot.lift Quot-set (λ cs. of_edges (c ∷ cs)) (λ cs ds p. Quot.sound (Perm.cons (upward c) p))

unfoldable pub size : View → ℕ
size = Quot.lift ℕ_set length length-SameEdges

-- Whether some edge joins the two transactions.
unfoldable pub asks : B256 → B256 → View → Bool
asks a b = Quot.lift Bool_set (any (joins a b)) (any-SameEdges a b)

-- What the users of a graph see of it: its edges, the answers, and their number.
pub record Implements (g : ConflictGraph) (v : View) : Type 0 where
  pub edges : view g ≡ v
  pub answers : (a b : B256) → has_conflict g a b ≡ asks a b v
  pub count : len g ≡ size v
  pub empty : is_empty g ≡ (size v == 0)

is_empty-length : (g : ConflictGraph) → is_empty g ≡ (length g.conflicts == 0)
unfolding is_empty
is_empty-length g = go g.conflicts
  where
    go : (cs : List Conflict) → (elim cs [ [] ↦ true | _ ↦ false ]) ≡ (length cs == 0)
    go [] = refl
    go (c ∷ cs) = ground arith

-- A graph with a consistent map implements the bag of its edges.
pub IsConsistent-Implements :
    (g : ConflictGraph) (v : View) → IsConsistent g → view g ≡ v → Implements g v
unfolding asks size len
IsConsistent-Implements g v h e = record {
  edges = e;
  answers = λ a b. h.same a b ∙ ap (asks a b) e;
  count = ap size e;
  empty = is_empty-length g ∙ ap (λ w. size w == 0) e;
}

Implements-IsConsistent : (g : ConflictGraph) (v : View) → Implements g v → IsConsistent g
unfolding asks
Implements-IsConsistent g v h = record { same = λ a b. h.answers a b ∙ ap (asks a b) (sym h.edges) }

-- The new graph implements the empty bag.
pub new-Implements : Implements new nothing
unfolding new nothing
new-Implements = IsConsistent-Implements new nothing new-IsConsistent refl

-- Recording an edge inserts it into the bag that the graph implements.
pub add_conflict-Implements :
    (g : ConflictGraph) (c : Conflict) (v : View)
    → Implements g v
    → Implements (add_conflict g c) (insert c v)
unfolding add_conflict insert
add_conflict-Implements g c v h =
    IsConsistent-Implements (add_conflict g c) (insert c v)
      (add_conflict-IsConsistent g c (Implements-IsConsistent g v h))
      (Quot.sound (Perm.map upward (perm_append_comm g.conflicts (c ∷ []))) ∙ ap (insert c) h.edges)

-- In the bag neither the order nor the direction of the edges counts.
pub insert_comm : (c d : Conflict) (v : View) → insert c (insert d v) ≡ insert d (insert c v)
unfolding insert
insert_comm c d =
    Quot.ind (λ v. Quot-set _ _)
      (λ cs. Quot.sound (Perm.swap (upward d) (upward c) (map upward cs)))

pub insert-flip : (c : Conflict) (v : View) → insert (flip c) v ≡ insert c v
unfolding insert
insert-flip c = Quot.ind (λ v. Quot-set _ _) (λ cs. Quot.sound (rw (upward-flip c) Perm.rfl))
