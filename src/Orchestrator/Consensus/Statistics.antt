-- ===== src/Orchestrator/Consensus/Statistics.antt =====
-- internal/orchestrator/consensus.go: the statistics of a round, on an interface of floats. A Go
-- map is read in no fixed order; here it is the order of the association list.
use Prim.Native.Nat.{◌%◌}
use cryptofunk.Prelude.{
  ℕ, ◌-◌, ◌/◌, ◌==◌, false, none, some, List, [], ◌∷◌, if◌then◌else◌, length, get_elem?,
}
use cryptofunk.Prelude.Dict.{Dict}
use cryptofunk.Prelude.Floats.{Floats}
use cryptofunk.Orchestrator.Consensus.{Response, RoundStatistics, ConsensusRound}

module _ {F : Type 0} (f : Floats F) where
  abbrev values_of : Dict (Response F) → List F
  values_of [] = []
  values_of ((name, r) ∷ rest) = r.value ∷ values_of rest

  abbrev confidences_of : Dict (Response F) → List F
  confidences_of [] = []
  confidences_of ((name, r) ∷ rest) = r.confidence ∷ confidences_of rest

  -- `for _, v := range values { sum += v }`
  abbrev sum_from : F → List F → F
  sum_from sum [] = sum
  sum_from sum (v ∷ vs) = sum_from (f.add sum v) vs

  abbrev squares_from : F → F → List F → F
  squares_from mean variance [] = variance
  squares_from mean variance (v ∷ vs) =
      let diff = f.sub v mean in squares_from mean (f.add variance (f.mul diff diff)) vs

  -- `values[i]`; the code reads only inside the slice.
  abbrev value_at : List F → ℕ → F
  value_at vs i = elim (get_elem? vs i) [ none ↦ f.of_nat 0 | some v ↦ v ]

  abbrev median_of : List F → F
  median_of vs =
      let half = length vs / 2 in
      if length vs % 2 == 0
      then f.div (f.add (value_at vs (half - 1)) (value_at vs half)) (f.of_nat 2)
      else value_at vs half

  abbrev consensus_of : F → F → F
  consensus_of mean std_dev =
      if f.eq mean (f.of_nat 0)
      then if f.eq std_dev (f.of_nat 0) then f.of_nat 1 else f.of_nat 0
      else f.max (f.of_nat 0) (f.sub (f.of_nat 1) (f.div std_dev (f.abs mean)))

  abbrev no_statistics : RoundStatistics F
  no_statistics = record {
    mean = f.of_nat 0;
    median = f.of_nat 0;
    std_dev = f.of_nat 0;
    min_value = f.of_nat 0;
    max_value = f.of_nat 0;
    range_value = f.of_nat 0;
    consensus = f.of_nat 0;
    convergence = false;
  }

  -- The values are sorted and there is at least one.
  abbrev statistics_of : List F → RoundStatistics F
  statistics_of vs =
      let count = f.of_nat (length vs) in
      let mean = f.div (sum_from (f.of_nat 0) vs) count in
      let std_dev = f.sqrt (f.div (squares_from mean (f.of_nat 0) vs) count) in
      let consensus = consensus_of mean std_dev in
      let first = value_at vs 0 in
      let last = value_at vs (length vs - 1) in
      record {
        mean = mean;
        median = median_of vs;
        std_dev = std_dev;
        min_value = first;
        max_value = last;
        range_value = f.sub last first;
        consensus = consensus;
        convergence = f.le (f.ratio 8 10) consensus;
      }

  unfoldable pub calculate_statistics : ConsensusRound F → RoundStatistics F
  calculate_statistics round =
      let values = values_of round.responses in
      if length values == 0 then no_statistics else statistics_of (f.sort values)

  unfoldable pub calculate_overall_confidence : ConsensusRound F → F
  calculate_overall_confidence round =
      if length round.responses == 0
      then f.of_nat 0
      else f.div (sum_from (f.of_nat 0) (confidences_of round.responses))
          (f.of_nat (length round.responses))
