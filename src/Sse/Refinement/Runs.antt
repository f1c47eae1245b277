-- ===== src/Sse/Refinement/Runs.antt =====
-- Any calls in a row.
use exchange_watch.Base.{◌<◌, ◌≡◌, refl, some, String, List, [], ◌∷◌, map, arith}
use exchange_watch.Sse.{Subject, LatestRateSseService, new_service, subject_name}
use exchange_watch.Sse.Channels.{Call, run, subscribers}
use exchange_watch.Sse.Refinement.{Opening, Channels, no_channels, run_channels, seen, Sim}
use exchange_watch.Sse.Refinement.Joins.{join-Sim}
use exchange_watch.Sse.Refinement.Leaves.{leave-Sim, emit-Sim}

module _ (A : Type 0) where
  run-Sim :
      (calls : List (Call A)) (serves : Subject → Opening) (s : LatestRateSseService A)
      (a : Channels A)
      → Sim A serves s a
      → (later : Subject → Opening) × Sim A later (run A calls s) (run_channels A calls a)
  unfolding run
  run-Sim [] serves s a sim = (serves, sim)
  run-Sim (Call.subscribe base ∷ calls) serves s a sim =
      let (later, next_sim) = join-Sim A serves s a base sim in run-Sim calls later _ _ next_sim
  run-Sim (Call.leave base ∷ calls) serves s a sim =
      run-Sim calls serves _ _ (leave-Sim A serves s a base sim)
  run-Sim (Call.emit base x ∷ calls) serves s a sim =
      run-Sim calls serves _ _ (emit-Sim A serves s a base x sim)

  new-Sim : Sim A (λ n. ("", 0)) (new_service A) (no_channels A)
  new-Sim = record {
    counted = λ name. refl;
    opened = λ name. refl;
    live = λ name n h. cc;
    current = λ n name lt p. absurd (omega (arith, lt));
    distinct = λ m n lm ln p. omega (arith, lm);
    bounded = λ n name k lt p. omega (arith, lt);
    made = tt;
    traced = refl;
  }

  -- Any calls of clients on a new service do what counts of subscribers do that know no subjects: an event reaches a channel
  -- while its count is positive, and the channel is closed when the count falls to 0. Each subject serves one opening of one
  -- channel, no two the same, and the subject of a channel serves its present opening.
  pub run-run_channels :
      (calls : List (Call A))
      → (serves : Subject → Opening) × (map (seen A serves) (run A calls (new_service A)).signals
          ≡ (run_channels A calls (no_channels A)).outputs)
        × ((base : String)
            → subscribers A base (run A calls (new_service A))
              ≡ (run_channels A calls (no_channels A)).counts (subject_name A base))
        × ((m n : Subject)
            → m < (run A calls (new_service A)).next_subject
            → n < (run A calls (new_service A)).next_subject
            → serves m ≡ serves n
            → m ≡ n)
        × ((name : String) (n : Subject)
            → (run A calls (new_service A)).subjects name ≡ some n
            → serves n ≡ (name, (run_channels A calls (no_channels A)).closings name))
  run-run_channels calls =
      let (serves, sim) = run-Sim calls (λ n. ("", 0)) (new_service A) (no_channels A) new-Sim in
      (
        serves,
        sim.traced,
        (λ base. sim.counted (subject_name A base)),
        sim.distinct,
        (λ name n h. (sim.live name n h).0),
      )
