-- ===== src/Bench/Results.antt =====
-- cmd/acp-adaptive-bench/main.go: the snapshots that `collectMetrics` sends while the workers run, and the
-- CSV file that `writeResults` makes of them. The file and the writer of encoding/csv are parameters, and so
-- is what `fmt` and `time` make of a value.
use acp_kv.Prelude.{
  List, Option, String, [], if◌then◌else◌, inl, inr, length, ltb, none, some, ℕ, ℤ, ◌++◌, ◌∷◌, ◌⊎◌,
}
use acp_kv.Bench.Collector.{MetricsSnapshot, collect}
use acp_kv.Failure.{Error}
use acp_kv.Prelude.Float64.{Float64}

-- `create` is os.Create followed by csv.NewWriter, `write` is Write of the writer, and `close` is what the
-- deferred Flush and Close do, whose errors the code does not ask for.
pub record Files : Type 1 where
  pub File : Type 0
  pub create : String → Error ⊎ File
  pub write : List String → File → Option Error × File
  pub close : File → File

-- The channel of `run` has room for 1000 snapshots.
abbrev pub capacity : ℕ
capacity = 1000

-- "channel full, skip this snapshot": nothing is received before the last send.
unfoldable pub send_snapshot {ℓ} : {A : Type ℓ} → A → List A → List A
send_snapshot a sent = if ltb (length sent) capacity then sent ++ a ∷ [] else sent

module _ (F : Float64) where
  open F use {Carrier}

  -- The loop of `collectMetrics`, over the time of each tick and what the queries of `Update` return then.
  unfoldable pub collect_metrics :
      (Carrier → ℤ)
      → List (ℤ × (String → Error ⊎ Carrier))
      → List (MetricsSnapshot F)
      → List (MetricsSnapshot F)
  unfolding send_snapshot
  collect_metrics to_int [] sent = sent
  collect_metrics to_int ((now, query) ∷ ticks) sent =
      collect_metrics to_int ticks (send_snapshot (collect F to_int now query) sent)

  -- Format(time.RFC3339), `%.6f` and `%d`.
  pub record Format : Type 0 where
    pub rfc3339 : ℤ → String
    pub six_places : Carrier → String
    pub whole : ℤ → String

  abbrev pub header : List String
  header =
      "timestamp" ∷ "ccs_raw" ∷ "ccs_smoothed" ∷ "current_r" ∷ "current_w" ∷ "quorum_adjustments"
      ∷ "staleness_violations" ∷ []

  unfoldable pub row_of : Format → MetricsSnapshot F → List String
  row_of format snapshot =
      format.rfc3339 snapshot.timestamp
      ∷ format.six_places snapshot.ccs_raw
      ∷ format.six_places snapshot.ccs_smoothed
      ∷ format.whole snapshot.current_r
      ∷ format.whole snapshot.current_w
      ∷ format.whole snapshot.quorum_adjustments
      ∷ format.whole snapshot.staleness_violations
      ∷ []

  module _ (files : Files) where
    open files use {File}

    -- The loop of `writeResults`, which returns at the first error.
    unfoldable pub write_snapshots : Format → List (MetricsSnapshot F) → File → Option Error × File
    write_snapshots format [] file = (none, file)
    write_snapshots format (snapshot ∷ snapshots) file =
        let (error, file') = files.write (row_of format snapshot) file in
        let rest = write_snapshots format snapshots file' in
        elim error [ some e ↦ (some e, file') | none ↦ rest ]

    -- writeResults: its error, if any, and the file, where one was created.
    unfoldable pub write_results :
        Format → String → List (MetricsSnapshot F) → Option Error × Option File
    unfolding write_snapshots
    write_results format filename snapshots = elim (files.create filename) [
      | inl e ↦ (some e, none)
      | inr file ↦
          let (error, file') = files.write header file in
          let rest = write_snapshots format snapshots file' in
          elim error [
            | some e ↦ (some e, some (files.close file'))
            | none ↦ (rest.0, some (files.close rest.1))
          ]
    ]
