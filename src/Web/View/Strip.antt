-- ===== src/Web/View/Strip.antt =====
-- buildStrip and buildHourStrip of internal/web/view.go.
use is_ntust_down.Prelude.{
  ℕ, zero, suc, ◌≡◌, refl, String, Option, List, [], ◌∷◌, length, arith, ◌≤◌, ◌<◌, some, ◌+◌,
  get_elem?, ap,
}
use is_ntust_down.Store.Schema.{Bucket, conclusive, Share}
use is_ntust_down.Config.Registry.{Check}
use is_ntust_down.Web.View.{Wording, strip, build_strip, column, sum_of, cell_view}

ups-le-conclusive :
    (bs : List Bucket) → sum_of (λ b. b.counts.ups) bs ≤ sum_of (λ b. conclusive b.counts) bs
unfolding sum_of
ups-le-conclusive [] = ground arith
ups-le-conclusive (b ∷ bs) = ground (arith, ups-le-conclusive bs)

module _ (words : Wording) (history : String → Option (List Bucket)) (checks : List Check)
    (start_of : ℕ → ℕ) where
  length-strip : (i n : ℕ) → length (strip words history checks start_of i n).0 ≡ n
  unfolding strip
  length-strip i zero = refl
  length-strip i (suc n) = ground (arith, length-strip (suc i) n)

  get_elem?-strip :
      (from n i place : ℕ)
      → i < n
      → from + i ≡ place
      → get_elem? (strip words history checks start_of from n).0 i
        ≡ some (cell_view words (start_of place) (column history checks place))
  unfolding strip
  get_elem?-strip from zero i place h e = elim h [ ]
  get_elem?-strip from (suc n) zero place h e =
      ap (λ (k : ℕ). some (cell_view words (start_of k) (column history checks k)))
        (omega (arith, e))
  get_elem?-strip from (suc n) (suc i) place h e =
      get_elem?-strip (suc from) n i place (omega (arith, h)) (omega (arith, e))

  -- the cell at each place of a strip
  pub get_elem?-build_strip :
      (n i : ℕ)
      → i < n
      → get_elem? (build_strip words history checks start_of n).0 i
        ≡ some (cell_view words (start_of i) (column history checks i))
  unfolding build_strip
  get_elem?-build_strip n i h = get_elem?-strip 0 n i i h (omega arith)

  -- A strip has a cell for each day or hour asked for, whatever is stored.
  pub length-build_strip : (n : ℕ) → length (build_strip words history checks start_of n).0 ≡ n
  unfolding build_strip
  length-build_strip n = length-strip 0 n

  strip-le :
      (i n : ℕ)
      → (strip words history checks start_of i n).1 ≤ (strip words history checks start_of i n).2
  unfolding strip
  strip-le i zero = ground arith
  strip-le i (suc n) =
      ground (arith, strip-le (suc i) n, ups-le-conclusive (column history checks i))

  -- The uptime of a strip's window, where there is one, is the share of a positive number of samples
  -- and at most the whole.
  build_strip_bounds :
      (n : ℕ)
      → (share : Share) → (build_strip words history checks start_of n).1 ≡ some share
      → (share.num ≤ share.den) × (0 < share.den)
  unfolding build_strip
  build_strip_bounds n share h = ground (arith, strip-le 0 n)
