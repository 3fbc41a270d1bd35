-- ===== src/Provider/Prefetcher/Retry/Limited.antt =====
-- When an answer of the node counts as rate-limited.
use Prim.Native.Nat.{compare, Ordering}
use Prim.Native.Char.{Char, code, len_utf8}
use Prim.Native.String.append
use Prim.Native.String.find
use Prim.Native.String.len
use Prim.Native.String.{String, [], ◌∷◌, ◌++◌, len, find, begins}
use text.Mathlib.TextFind.{begins_cases, find_cases}
use argus_core.Base.{ℕ, ◌+◌, ◌≤◌, true, inl, inr, ◌⊎◌, Bool-cases, ◌≡◌, refl, ◌∙◌, arith, ◌↔◌}
use argus_core.Provider.Rpc.{Reply, reply, failure}
use argus_core.Provider.Prefetcher.Retry.{AccountReplies, mentions_429, is_limited, is_rate_limited}

-- The text has the digits 429 one after the other.
abbrev pub Mentions429 : String → Type 0
Mentions429 e = (before : String) × (after : String) × (e ≡ before ++ ("429" ++ after))

-- An answer that is an error whose text has them.
abbrev pub IsLimited : {A : Type 0} → Reply A → Type 0
IsLimited (reply _) = ⊥
IsLimited (failure e) = Mentions429 e

-- One of the three answers at least.
abbrev pub IsRateLimited : AccountReplies → Type 0
IsRateLimited r = IsLimited r.balance ⊎ IsLimited r.nonce ⊎ IsLimited r.code

compare_code : (c : Char) → compare (code c) (code c) ≡ Ordering.eq
compare_code c = ground arith

begins-append : (t v : String) (y n : ℕ) → begins (t ++ v) t y n ≡ y
begins-append [] v y n = refl
begins-append (c ∷ t) v y n = rw (append.cons c t v, compare_code c) (begins-append t v y n)

find_at_once : (s t : String) → ((n : ℕ) → begins s t 0 n ≡ 0) → find s t ≡ 0
find_at_once [] t h = find.nil t ∙ h 1
find_at_once (c ∷ s) t h = find.cons c s t ∙ h (len_utf8 c + find s t)

-- A text that has another one in it is one in which `find` finds it.
find-append_middle : (u t v : String) → find (u ++ (t ++ v)) t ≤ len (u ++ (t ++ v))
find-append_middle [] t v =
    rw (append.nil (t ++ v)) (omega (arith, find_at_once (t ++ v) t (begins-append t v 0)))
find-append_middle (c ∷ u) t v =
    let s = u ++ (t ++ v) in
    let rest = find-append_middle u t v in
    rw (append.cons c u (t ++ v)) (elim (begins_cases (c ∷ s) t 0 (len_utf8 c + find s t)) [
      | inl (at, _) ↦ omega (arith, find.cons c s t, at)
      | inr on ↦ omega (arith, find.cons c s t, on, len.cons c s, rest)
    ])

mentions_429_iff : (e : String) → mentions_429 e ≡ true ↔ Mentions429 e
unfolding mentions_429
mentions_429_iff e = (there, here)
  where
    there : mentions_429 e ≡ true → Mentions429 e
    there h = elim (find_cases e "429") [
      | inl (u, v, split, _) ↦ (u, v, split)
      | inr miss ↦ absurd (ground (arith, miss, h))
    ]

    here : Mentions429 e → mentions_429 e ≡ true
    here (u, v, split) =
        let found : find e "429" ≤ len e = rw split (find-append_middle u "429" v) in
        ground (arith, found)

pub is_limited_iff : {A : Type 0} (r : Reply A) → is_limited r ≡ true ↔ IsLimited r
is_limited_iff (reply a) = (λ h. ground (arith, h), λ h. absurd h)
is_limited_iff (failure e) = mentions_429_iff e

pub is_rate_limited_iff : (r : AccountReplies) → is_rate_limited r ≡ true ↔ IsRateLimited r
unfolding is_rate_limited
is_rate_limited_iff r = (there, here)
  where
    there : is_rate_limited r ≡ true → IsRateLimited r
    there h = elim (Bool-cases (is_limited r.balance)) [
      | inl e ↦ inl ((is_limited_iff r.balance).0 e)
      | inr e ↦ elim (Bool-cases (is_limited r.nonce)) [
        | inl e' ↦ inr (inl ((is_limited_iff r.nonce).0 e'))
        | inr e' ↦ inr (inr ((is_limited_iff r.code).0 (ground arith)))
      ]
    ]

    here : IsRateLimited r → is_rate_limited r ≡ true
    here (inl h) = let e = (is_limited_iff r.balance).1 h in ground (arith, e)
    here (inr (inl h)) = let e = (is_limited_iff r.nonce).1 h in ground (arith, e)
    here (inr (inr h)) = let e = (is_limited_iff r.code).1 h in ground (arith, e)
