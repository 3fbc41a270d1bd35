-- ===== src/Sink/Contention/Severity.antt =====
-- The severity of a density, in whole numbers.
use Prim.Native.String.{String}
use argus_core.Base.{
  ℕ, ◌*◌, ◌^◌, ◌≤◌, ◌<◌, true, false, ◌≡◌, leb, if◌then◌else◌, arith, dec_le, ◌∙◌, sym, le→leb,
  lt→leb_false,
}
use argus_core.Sink.Contention.{Float, density_of, severity_label}

-- IEEE 754, for quotients of 32-bit numbers: rounding to nearest keeps the order of two quotients;
-- it keeps two quotients below 256 apart whose denominators have a product below 2 ^ 32, since they
-- differ by more than the spacing of the doubles there; and to divide by one changes nothing.
pub record DivLaws {F : Type 0} (float : Float F) : Type 0 where
  pub monotone :
      (n d m e : ℕ)
      → n < 2 ^ 32
      → m < 2 ^ 32
      → 0 < d
      → d < 2 ^ 32
      → 0 < e
      → e < 2 ^ 32
      → m * d ≤ n * e
      → float.ge (density_of float n d) (density_of float m e) ≡ true
  pub separates :
      (n d m e : ℕ)
      → 0 < d
      → 0 < e
      → d * e < 2 ^ 32
      → m < 256 * e
      → n * e < m * d
      → float.ge (density_of float n d) (density_of float m e) ≡ false
  pub whole : (k : ℕ) → density_of float k 1 ≡ float.of_nat k

-- The bands by whole numbers: `conflicts` edges over `txs` transactions.
abbrev pub band : ℕ → ℕ → String
band conflicts txs =
    if leb (5 * txs) conflicts
    then "CRITICAL"
    else if leb (3 * txs) conflicts
    then "HIGH"
    else if leb txs conflicts
    then "MEDIUM"
    else "LOW"

module _ {F : Type 0} (float : Float F) (laws : DivLaws float) (n d : ℕ) (hn : n < 2 ^ 32)
    (pos : 0 < d) (hd : d < 2 ^ 32) where
  -- The test against a small whole number is exact.
  ge-leb : (k : ℕ) → k < 256 → float.ge (density_of float n d) (float.of_nat k) ≡ leb (k * d) n
  ge-leb k h = elim (dec_le (k * d) n) [
    | yes p ↦ rw (← laws.whole k) (
        laws.monotone n d k 1 hn (omega arith) pos hd (omega arith) (omega arith) (omega arith)
        ∙ sym (le→leb (k * d) n p))
    | no p ↦ rw (← laws.whole k) (
        laws.separates n d k 1 pos (omega arith) (omega arith) (omega arith) (omega arith)
        ∙ sym (lt→leb_false (k * d) n (omega arith)))
  ]

  -- Under the laws of division, for 32-bit numbers of edges and of transactions, the latter
  -- positive, the severity of their quotient is that of the exact bands: from 5 on CRITICAL, from
  -- 3 on HIGH, from 1 on MEDIUM, each bound included, and LOW below.
  pub severity_label-band : severity_label float (density_of float n d) ≡ band n d
  unfolding severity_label
  severity_label-band =
      ground (arith, ge-leb 5 (omega arith), ge-leb 3 (omega arith), ge-leb 1 (omega arith))
