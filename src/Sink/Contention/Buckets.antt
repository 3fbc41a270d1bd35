-- ===== src/Sink/Contention/Buckets.antt =====
-- The buckets of the contention events against the edge list.
use mathlib.Core.Path.{fun_ext}
use argus_core.Base.{
  ℕ, ◌+◌, ◌*◌, ◌%◌, ◌^◌, ◌<◌, ◌≤◌, List, [], ◌∷◌, map, foldl, flat_map, ◌≡◌, refl, ap, ◌∙◌, arith,
  length, ℕ_discrete,
}
use argus_core.HashMap.Sets.{length-keys}
use argus_core.HashMap.Grouping.{members, key_set}
use argus_core.HashMap.Entries.{group_loop-eq-map}
use argus_core.Types.{Conflict}
use argus_core.Types.ConflictGraph.Adjacency.{both_ends, length-both_ends}
use argus_core.Sink.Contention.{
  Key, Key_discrete, key_of, Bucket, empty_bucket, add_to_bucket, buckets_of,
}

-- The edges of one key.
abbrev pub at_key : Key → List Conflict → List Conflict
at_key = members Key_discrete key_of

abbrev pub keys_of : List Conflict → List Key
keys_of = key_set Key_discrete key_of []

-- The transactions at the ends of the edges, each once.
abbrev pub ends_from : List ℕ → List Conflict → List ℕ
ends_from s cs = key_set ℕ_discrete (λ x. x) s (flat_map (λ c. c.tx_a ∷ c.tx_b ∷ []) cs)

-- What the edges of one key amount to; the counter wraps at 2 ^ 32.
abbrev pub tally : List Conflict → Bucket
tally cs = record { tx_hashes = ends_from [] cs; count = length cs % 2 ^ 32 }

foldl-count :
    (b : Bucket) (cs : List Conflict)
    → b.count < 2 ^ 32
    → (foldl add_to_bucket b cs).count ≡ (b.count + length cs) % 2 ^ 32
unfolding add_to_bucket
foldl-count b [] h = omega arith
foldl-count b (c ∷ cs) h = omega (arith, foldl-count (add_to_bucket b c) cs)

foldl-tx_hashes :
    (b : Bucket) (cs : List Conflict)
    → (foldl add_to_bucket b cs).tx_hashes ≡ ends_from b.tx_hashes cs
unfolding add_to_bucket
foldl-tx_hashes b [] = refl
foldl-tx_hashes b (c ∷ cs) = foldl-tx_hashes (add_to_bucket b c) cs

foldl-tally : (cs : List Conflict) → foldl add_to_bucket empty_bucket cs ≡ tally cs
foldl-tally cs =
    ground (arith, foldl-count empty_bucket cs (omega arith), foldl-tx_hashes empty_bucket cs)

abbrev pub bucket_at : List Conflict → Key → Key × Bucket
bucket_at cs k = (k, tally (at_key k cs))

-- One bucket for each key that occurs, with the tally of its edges.
pub buckets_of-tally : (cs : List Conflict) → buckets_of cs ≡ map (bucket_at cs) (keys_of cs)
unfolding buckets_of
buckets_of-tally cs =
    group_loop-eq-map Key_discrete key_of empty_bucket add_to_bucket cs
    ∙ ap (λ (f : Key → Key × Bucket). map f (keys_of cs))
        (fun_ext (λ k.
          ap (λ (b : Bucket). let p : Key × Bucket = (k, b) in p) (foldl-tally (at_key k cs))))

-- An edge has at least one end and at most two.
pub length-ends :
    (cs : List Conflict)
    → 0 < length cs
    → (0 < length (ends_from [] cs)) × (length (ends_from [] cs) ≤ 2 * length cs)
length-ends cs h = omega (
  arith,
  length-both_ends cs,
  length-keys ℕ_discrete (λ x. x) (both_ends cs) (omega (arith, length-both_ends cs)),
)
