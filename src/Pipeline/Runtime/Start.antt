-- ===== src/Pipeline/Runtime/Start.antt =====
-- The start of all processors of a runtime of src/pipeline/src/pipeline.cpp, while the threads of those
-- that were started run.
use paper_breakage_analysis.Base.{
  ℕ, ◌≡◌, ◌⊎◌, true, false, List, [], ◌∷◌, Result, Error, success, failure,
}
use paper_breakage_analysis.Pipeline.Processor.{Processor}
use paper_breakage_analysis.Pipeline.Runtime.{Threads}

-- A thread does not take back that its processor was started, and once told to stop it completes before
-- the deadline of the join.
abbrev pub IsObedient : Threads → Type 0
IsObedient w =
    ((n : ℕ) (p : Processor) → p.started ≡ true → (w.goes_on n p).started ≡ true)
    × ((p : Processor)
        → p.started ≡ true
        → ((w.settles p).started ≡ true) × ((w.settles p).completed ≡ true))

abbrev pub AllStarted : List Processor → Type 0
AllStarted [] = Unit {0}
AllStarted (p ∷ ps) = (p.started ≡ true) × AllStarted ps

-- No processor has a thread that is not joined.
abbrev pub NoThread : List Processor → Type 0
NoThread [] = Unit {0}
NoThread (p ∷ ps) = (p.worker.joinable ≡ false) × NoThread ps

-- Every processor was started, or there is an error and no thread.
abbrev AllOrNone : List Processor × Result (Unit {0}) → Type 0
AllOrNone x =
    ((x.1 ≡ success tt) × AllStarted x.0) ⊎ ((e : Error) × (x.1 ≡ failure e) × NoThread x.0)
