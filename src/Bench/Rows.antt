-- ===== src/Bench/Rows.antt =====
-- The rows of the file of results (`run`, `collectMetrics` and `writeResults` of
-- cmd/acp-adaptive-bench/main.go).
use mathlib.Core.List.{append-nil, append_assoc}
use native.Mathlib.Decide.{dec_lt}
use acp_kv.Prelude.{
  List, String, [], ap, arith, if◌then◌else◌, inr, length, length-append, map, none, pos, refl,
  some, str_eq, sym, take, ℕ, ℤ, ◌*◌, ◌++◌, ◌-◌, ◌<◌, ◌∙◌, ◌∷◌, ◌≡◌, ◌⊎◌, suc,
}
use acp_kv.Prelude.Window.{take_all}
use acp_kv.Bench.Collector.{MetricsSnapshot, collect}
use acp_kv.Bench.Intervals.{worker_panics_lem}
use acp_kv.Bench.Pool.{ClientPool, new_client_pool, pool_health}
use acp_kv.Bench.Results.{
  Files, Format, capacity, collect_metrics, header, row_of, send_snapshot, write_results,
  write_snapshots,
}
use acp_kv.Bench.Run.{
  Config, Course, Outcome, Outside, parse_endpoints, panicked, returned, run, run_benchmark,
  snapshots_of,
}
use acp_kv.Failure.{Error}
use acp_kv.Prelude.Float64.{Float64}

-- A file that was created is empty, a row that was accepted comes last, and closing keeps what was written.
pub record IsCsv (files : Files) (rows : files.File → List (List String)) : Type 0 where
  pub created : (name : String) (file : files.File) → files.create name ≡ inr file → rows file ≡ []
  pub written :
      (row : List String) (file : files.File)
      → (files.write row file).0 ≡ none
      → rows (files.write row file).1 ≡ rows file ++ row ∷ []
  pub closed : (file : files.File) → rows (files.close file) ≡ rows file

-- No write fails.
abbrev pub IsWritable : Files → Type 0
IsWritable files = (row : List String) (file : files.File) → (files.write row file).0 ≡ none

-- Before a channel that is not full, sending puts a value last, and the values that follow still have room.
send-take :
    {A : Type 0} (a : A) (xs sent : List A)
    → send_snapshot a sent ++ take (capacity - length (send_snapshot a sent)) xs
      ≡ sent ++ take (capacity - length sent) (a ∷ xs)
unfolding send_snapshot
send-take a xs sent = elim (dec_lt (length sent) capacity) [
  | yes h ↦
      let room : capacity - length sent ≡ suc (capacity - length (sent ++ a ∷ [])) =
        omega (arith, length-append sent (a ∷ [])) in
      rw (room)
        (ground (arith, append_assoc sent (a ∷ []) (take (capacity - length (sent ++ a ∷ [])) xs)))
  | no h ↦ let full : capacity - length sent ≡ 0 = omega arith in ground (arith, full)
]

module _ (F : Float64) where
  open F use {Carrier}

  -- The snapshot that a tick takes.
  abbrev pub snapshot_of : (Carrier → ℤ) → ℤ × (String → Error ⊎ Carrier) → MetricsSnapshot F
  snapshot_of to_int tick = collect F to_int tick.0 tick.1

  collect_metrics-take :
      (to_int : Carrier → ℤ) (ticks : List (ℤ × (String → Error ⊎ Carrier)))
      (sent : List (MetricsSnapshot F))
      → collect_metrics F to_int ticks sent
        ≡ sent ++ take (capacity - length sent) (map (snapshot_of to_int) ticks)
  unfolding collect_metrics
  collect_metrics-take to_int [] sent =
      sym
        (ap (λ l. sent ++ l) (take_all [] (capacity - length sent) (omega arith)) ∙ append-nil sent)
  collect_metrics-take to_int (tick ∷ ticks) sent =
      collect_metrics-take to_int ticks (send_snapshot (snapshot_of to_int tick) sent)
      ∙ send-take (snapshot_of to_int tick) (map (snapshot_of to_int) ticks) sent

  module _ (files : Files) (rows : files.File → List (List String)) (csv : IsCsv files rows) where
    write_snapshots-rows :
        (format : Format F) (snapshots : List (MetricsSnapshot F)) (file : files.File)
        → IsWritable files
        → ((write_snapshots F files format snapshots file).0 ≡ none)
          × (rows (write_snapshots F files format snapshots file).1
              ≡ rows file ++ map (row_of F format) snapshots)
    unfolding write_snapshots
    write_snapshots-rows format [] file ok = (refl, sym (append-nil (rows file)))
    write_snapshots-rows format (snapshot ∷ snapshots) file ok =
        let row = row_of F format snapshot in
        let (none_yet, all) = write_snapshots-rows format snapshots (files.write row file).1 ok in
        rw (write_snapshots, ok row file)
          (
            none_yet,
            all
                ∙ ap (λ l. l ++ map (row_of F format) snapshots)
                    (csv.written row file (ok row file))
                ∙ append_assoc (rows file) (row ∷ []) (map (row_of F format) snapshots),
          )

    -- A file that can be created and written gets the header and a row for each snapshot.
    write_results-rows :
        (format : Format F) (name : String) (snapshots : List (MetricsSnapshot F))
        (new : files.File)
        → files.create name ≡ inr new
        → IsWritable files
        → (file : files.File) × (write_results F files format name snapshots ≡ (none, some file))
          × (rows file ≡ header F ∷ map (row_of F format) snapshots)
    unfolding write_results
    write_results-rows format name snapshots new made ok =
        let file = (files.write (header F) new).1 in
        let (none_yet, all) = write_snapshots-rows format snapshots file ok in
        (
          files.close (write_snapshots F files format snapshots file).1,
          rw (write_results, made, ok (header F) new, none_yet) refl,
          csv.closed (write_snapshots F files format snapshots file).1
              ∙ all
              ∙ ap (λ l. l ++ map (row_of F format) snapshots)
                  (csv.written (header F) new (ok (header F) new)
                    ∙ ap (λ l. l ++ header F ∷ []) (csv.created name new made)),
        )

module _ (F : Float64) where
  open F use {Carrier}

  -- The snapshots of a run: in the mode ccs-watch those of the first 1000 ticks, and else none.
  abbrev pub watched : Outside F → Config F → Course F → List (MetricsSnapshot F)
  watched outside cfg course =
      if str_eq cfg.mode "ccs-watch"
      then take capacity (map (snapshot_of F outside.to_int) course.ticks)
      else []

  snapshots_of-watched :
      (outside : Outside F) (cfg : Config F) (course : Course F)
      → snapshots_of F outside cfg course ≡ watched outside cfg course
  unfolding snapshots_of
  snapshots_of-watched outside cfg course =
      ap (λ l. if str_eq cfg.mode "ccs-watch" then l else [])
        (collect_metrics-take F outside.to_int course.ticks [])

  -- The run ends with no error and leaves the file.
  abbrev pub IsReturned : {File : Type 0} → File → Outcome F File → Type 0
  IsReturned file (returned none lines (some written)) = written ≡ file
  IsReturned file (returned none lines none) = ⊥
  IsReturned file (returned (some e) lines written) = ⊥
  IsReturned file panicked = ⊥

  module _ (outside : Outside F) (rows : outside.files.File → List (List String)) where
    -- A run whose endpoints can be dialled and are healthy, whose file can be created and written, and whose
    -- workers each have a share of at most one operation in a nanosecond, returns no error, and leaves a file
    -- with the header and a row for each snapshot that it kept, in their order: in the mode ccs-watch for
    -- those of the first 1000 ticks, and in other modes for none.
    pub run-rows :
        (cfg : Config F) (course : Course F) (pool : ClientPool) (new : outside.files.File)
        (t c : ℕ)
        → IsCsv outside.files rows
        → IsWritable outside.files
        → cfg.target_throughput ≡ pos t
        → cfg.concurrency ≡ pos c
        → t < 1_000_000_001 * c
        → new_client_pool outside.dial (parse_endpoints F outside cfg.endpoints) ≡ inr pool
        → pool_health outside.error_text outside.get_health_check pool ≡ none
        → outside.files.create cfg.output_file ≡ inr new
        → (file : outside.files.File) × IsReturned file (run F outside cfg course)
          × (rows file ≡ header F ∷ map (row_of F outside.format) (watched outside cfg course))
    unfolding run run_benchmark
    run-rows cfg course pool new t c csv ok rate workers small opened healthy made =
        let calm = worker_panics_lem F cfg t c rate workers small in
        let kept = snapshots_of-watched outside cfg course in
        let (file, done, all) =
          write_results-rows F outside.files rows csv outside.format cfg.output_file
            (snapshots_of F outside cfg course) new made ok in
        (
          file,
          rw (run, opened, healthy, run_benchmark, done, done, calm) refl,
          all ∙ ap (λ l. header F ∷ map (row_of F outside.format) l) kept,
        )
