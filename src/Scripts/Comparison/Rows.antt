-- ===== src/Scripts/Comparison/Rows.antt =====
-- fbw-lf/scripts/compare_fbw.py: the rows of the CSV file, by the sorted common counters.
pub mod Read
pub mod Sorted
pub mod Written
use lf_benchmarks.Common.{
  ℕ, Bool, true, false, ◌&&◌, Option, none, some, List, [], ◌∷◌, ltb, if◌then◌else◌,
}
use lf_benchmarks.Int.{ℤ, ltb_ℤ}
use lf_benchmarks.Double.{Double}
use lf_benchmarks.Scripts.Records.{◌>>=◌}
use lf_benchmarks.Scripts.Comparison.{Values, find, abs, is_within}

-- `sorted`
unfoldable pub insert : ℤ → List ℤ → List ℤ
insert k [] = k ∷ []
insert k (j ∷ ks) = let rest = insert k ks in if ltb_ℤ k j then k ∷ j ∷ ks else j ∷ rest

unfoldable pub sorted : List ℤ → List ℤ
sorted [] = []
sorted (k ∷ ks) = insert k (sorted ks)

pub record Row (F : Type 0) : Type 0 where
  pub counter : ℤ
  pub c_speed : F
  pub lf_speed : F
  pub error : F
  pub passed : Bool

module _ {F : Type 0} where
  abbrev pub if_found : Option F → ℤ → List ℤ → List ℤ
  if_found none k rest = rest
  if_found (some v) k rest = k ∷ rest

  -- `c_counters & lf_counters`
  unfoldable pub intersection : Values F → Values F → List ℤ
  intersection [] lf = []
  intersection ((k, _) ∷ m) lf = if_found (find lf k) k (intersection m lf)

  -- `common`
  unfoldable pub common : Values F → Values F → List ℤ
  common c lf = sorted (intersection c lf)

module _ {F : Type 0} ⦃d : Double F⦄ (tolerance : F) where
  abbrev pub new_row : ℤ → F → F → Row F
  new_row k a b = record {
    counter = k;
    c_speed = a;
    lf_speed = b;
    error = abs (d.sub a b);
    passed = is_within tolerance a b;
  }

  -- The loop over the common counters; `none` is a KeyError.
  unfoldable pub rows_from : Values F → Values F → List ℤ → Option (List (Row F))
  rows_from c lf [] = some []
  rows_from c lf (k ∷ ks) = do
    a ← find c k
    b ← find lf k
    rest ← rows_from c lf ks
    some (new_row k a b ∷ rest)

  unfoldable pub rows : Values F → Values F → Option (List (Row F))
  rows c lf = rows_from c lf (common c lf)
