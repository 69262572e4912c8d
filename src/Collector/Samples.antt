-- ===== src/Collector/Samples.antt =====
-- What Prometheus requires of a scrape: each sample has a described name, as many label values as
-- the description has label names, and no two samples share a name and label values.
use text.Mathlib.Text.{◌==◌ as str_eq}
use Prim.Native.String.{String}
use networkdoctor_prestudy.Base.{
  ℕ, ◌≡◌, refl, Bool, true, false, not, ◌&&◌, ◌||◌, List, [], ◌∷◌, map, length, ◌==◌,
}
use networkdoctor_prestudy.Platform.{Float64}
use networkdoctor_prestudy.Model.{Snapshot}
use networkdoctor_prestudy.Collector.{
  Desc, fq_name, label_names, describe, Metric, const_metric, const_histogram, collect,
}

-- A sample's name and label values.
abbrev pub Series : Type 0
Series = String × List ℕ

abbrev same_labels : List ℕ → List ℕ → Bool
same_labels [] [] = true
same_labels (x ∷ xs) (y ∷ ys) = x == y && same_labels xs ys
same_labels _ _ = false

abbrev has_series : Series → List Series → Bool
has_series s [] = false
has_series (n, ls) ((k, ks) ∷ rest) = str_eq n k && same_labels ls ks || has_series (n, ls) rest

abbrev pub all_distinct : List Series → Bool
all_distinct [] = true
all_distinct (s ∷ rest) = not (has_series s rest) && all_distinct rest

abbrev pub is_described : String → List Desc → Bool
is_described n [] = false
is_described n (d ∷ ds) = str_eq n (fq_name d) || is_described n ds

module _ (f : Float64) where
  abbrev pub metric_desc : Metric f → Desc
  metric_desc (const_metric d kind v labels) = d
  metric_desc (const_histogram d h) = d

  abbrev pub metric_labels : Metric f → List ℕ
  metric_labels (const_metric d kind v labels) = labels
  metric_labels (const_histogram d h) = []

  abbrev pub series : Metric f → Series
  series s = (fq_name (metric_desc s), metric_labels s)

  -- Each of the samples is described and has a value for each label.
  abbrev pub all_consistent : List (Metric f) → Bool
  all_consistent [] = true
  all_consistent (s ∷ rest) =
      is_described (fq_name (metric_desc s)) describe
      && (length (metric_labels s) == length (label_names (metric_desc s)))
      && all_consistent rest

  abbrev pub is_exported : Desc → List (Metric f) → Bool
  is_exported d [] = false
  is_exported d (s ∷ rest) = str_eq (fq_name d) (fq_name (metric_desc s)) || is_exported d rest

  abbrev pub all_exported : List Desc → List (Metric f) → Bool
  all_exported [] ms = true
  all_exported (d ∷ ds) ms = is_exported d ms && all_exported ds ms

  -- Any snapshot is exported as 37 samples; each has a described name and a value for each of its
  -- labels, no two of them share the name and the label values, and no described name is missing.
  pub collect_lem :
      (snap : Snapshot)
      → (length (collect f snap) ≡ 37)
        × (all_consistent (collect f snap) ≡ true)
        × (all_distinct (map series (collect f snap)) ≡ true)
        × (all_exported describe (collect f snap) ≡ true)
  unfolding collect fq_name label_names describe
  collect_lem snap = (refl, refl, refl, refl)
