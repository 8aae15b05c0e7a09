-- ===== src/Dispatch/Committed.antt =====
-- networth/dispatch.py: which activations the schedule's clocks ever see.
use networth.Prelude.{
  ℕ, ◌≡◌, ◌∙◌, refl, sym, ap, Bool, true, false, Option, none, some, String, str_eq, List, [], ◌∷◌,
  ◌++◌, if◌then◌else◌, any, arith,
}
use networth.Prelude.Result.{Result, ok, err}
use networth.Model.Observation.{Observation}
use networth.Store.Tables.{full_sync, SyncRun, Database}
use networth.Scheduling.{successes, success_of, add_success}
use networth.Sync.Cycle.{SyncSetup}
use networth.Dispatch.{
  Locks, database_busy, write_retried, finish_runs, DispatchResult, completed_run,
}
use networth.Dispatch.Write.{write_retried-eq}

pub successes-append : (xs ys : List SyncRun) → successes (xs ++ ys) ≡ successes xs ++ successes ys
unfolding successes
successes-append [] ys = refl
successes-append (x ∷ xs) ys =
    by_success (success_of x x.finished_at) xs ys (successes-append xs ys)
  where
    by_success :
        (s : Option (ℕ × ℕ)) (xs ys : List SyncRun)
        → successes (xs ++ ys) ≡ successes xs ++ successes ys
        → add_success s (successes (xs ++ ys)) ≡ add_success s (successes xs) ++ successes ys
    by_success none xs ys h = h
    by_success (some c) xs ys h = ap (λ r. c ∷ r) h

pub finish_other :
    (run : String) (finished : ℕ) (succeeded : Bool) (rs : List SyncRun)
    → any (λ (r : SyncRun). str_eq r.id run) rs ≡ false
    → finish_runs run finished succeeded rs ≡ rs
finish_other run finished succeeded [] h = refl
finish_other run finished succeeded (r ∷ rs) h =
    let here : str_eq r.id run ≡ false = ground arith in
    let later : any (λ (r : SyncRun). str_eq r.id run) rs ≡ false = ground arith in
    rw (here, finish_other run finished succeeded rs later) refl

pub finish_runs-append :
    (run : String) (finished : ℕ) (succeeded : Bool) (xs ys : List SyncRun)
    → finish_runs run finished succeeded (xs ++ ys)
      ≡ finish_runs run finished succeeded xs ++ finish_runs run finished succeeded ys
finish_runs-append run finished succeeded [] ys = refl
finish_runs-append run finished succeeded (x ∷ xs) ys =
    rw (finish_runs-append run finished succeeded xs ys) refl

pub write_retried-ok :
    {A : Type 0} (locks : Locks) (operation : Result A) (a : A)
    → write_retried locks operation ≡ ok a
    → operation ≡ ok a
write_retried-ok locks operation a h =
    by_locked _ operation a (sym (write_retried-eq locks operation) ∙ h)
  where
    by_locked :
        {A : Type 0} (locked : Bool) (operation : Result A) (a : A)
        → (if locked then err database_busy else operation) ≡ ok a
        → operation ≡ ok a
    by_locked true operation a h = cc
    by_locked false operation a h = h

-- The activation committed a successful run.
abbrev pub is_success : Result DispatchResult → Bool
is_success (ok (completed_run _ succeeded _)) = succeeded
is_success _ = false

-- The successes after an activation with this outcome.
abbrev pub successes_after : Result DispatchResult → ℕ → ℕ → Database → List (ℕ × ℕ)
successes_after result started finished db =
    if is_success result then successes db.runs ++ (started, finished) ∷ [] else successes db.runs

module _ (s : SyncSetup) (begin_locks finish_locks : Locks) (run : String)
    (started finished : ℕ) where
  begun_run : SyncRun
  begun_run = record {
    id = run;
    kind = full_sync;
    started_at = started;
    finished_at = none;
    succeeded = none;
  }

  -- An outcome and its tables agree on the successes.
  abbrev IsHonest : Database → Result DispatchResult × Database → Type 0
  IsHonest db (result, db') = successes db'.runs ≡ successes_after result started finished db
