-- ===== src/Sse/Tests.antt =====
-- Instances of the theorems on channels.
use exchange_watch.Base.{map, ℕ, ◌≡◌, ◌<◌, String, some, refl, List, [], ◌∷◌}
use exchange_watch.Sse.{Subject, LatestRateSseService, new_service, subject_name}
use exchange_watch.Sse.Refinement.{Opening, seen, no_channels, run_channels}
use exchange_watch.Sse.Refinement.Runs.{run-run_channels}
use exchange_watch.Sse.Channels.{Call, run, IsValid, subscribers}

new-IsValid : IsValid ℕ (new_service ℕ)
new-IsValid name = record { counted = refl; positive = refl }

abbrev calls : List (Call ℕ)
calls = Call.subscribe "KRW" ∷ Call.subscribe "KRW" ∷ Call.emit "KRW" 7 ∷ Call.leave "KRW" ∷ []

run-run_channels_example :
    (serves : Subject → Opening) × (map (seen ℕ serves) (run ℕ calls (new_service ℕ)).signals
      ≡ (run_channels ℕ calls (no_channels ℕ)).outputs)
    × ((base : String)
        → subscribers ℕ base (run ℕ calls (new_service ℕ))
          ≡ (run_channels ℕ calls (no_channels ℕ)).counts (subject_name ℕ base))
    × ((m n : Subject)
        → m < (run ℕ calls (new_service ℕ)).next_subject
        → n < (run ℕ calls (new_service ℕ)).next_subject
        → serves m ≡ serves n
        → m ≡ n)
    × ((name : String) (n : Subject)
        → (run ℕ calls (new_service ℕ)).subjects name ≡ some n
        → serves n ≡ (name, (run_channels ℕ calls (no_channels ℕ)).closings name))
run-run_channels_example = run-run_channels ℕ calls

abbrev after : LatestRateSseService ℕ
after = run ℕ calls (new_service ℕ)
