-- ===== src/Dispatch/Write.antt =====
-- networth/dispatch.py: the write retry is the operation itself, unless the database stays locked.
use networth.Prelude.{
  ℕ, ◌≡◌, ◌∙◌, refl, inl, inr, Bool, true, false, ◌&&◌, Bool-cases, if◌then◌else◌, ◌==◌,
}
use networth.Prelude.Result.{Result, ok, err}
use networth.Dispatch.{
  Locks, Attempt, busy, finish_attempt, attempt_once, database_busy, write_turn, write_loop,
  write_retried,
}

abbrev pub is_busy {ℓ} : {A : Type ℓ} → Attempt A → Bool
is_busy busy = true
is_busy _ = false

by_outcome {ℓ} :
    {A : Type ℓ} (operation : Result A) (i : ℕ) (later : Result A) (locked : Bool)
    → write_turn i later (finish_attempt locked operation) ≡ (
        if is_busy (finish_attempt locked operation)
        then (if i == 2 then err database_busy else later)
        else operation)
by_outcome (err e) i later locked = refl
by_outcome (ok a) i later true = refl
by_outcome (ok a) i later false = refl

three {ℓ} :
    {A : Type ℓ} (a b c : Bool) (x y : A)
    → (if a then (if b then (if c then x else y) else y) else y) ≡ (if a && b && c then x else y)
three true true c x y = refl
three true false c x y = refl
three false b c x y = refl

module _ {ℓ} {A : Type ℓ} (locks : Locks) (operation : Result A) where
  finish_turn :
      (i : ℕ) (later : Result A) (locked : Bool)
      → write_turn i later (finish_attempt locked operation) ≡ (
          if is_busy (finish_attempt locked operation)
          then (if i == 2 then err database_busy else later)
          else operation)
  finish_turn i later locked = by_outcome operation i later locked

  -- An attempt that is not busy ends the loop with the operation's own outcome.
  once :
      (i : ℕ) (later : Result A)
      → write_turn i later (attempt_once locks operation i) ≡ (
          if is_busy (attempt_once locks operation i)
          then (if i == 2 then err database_busy else later)
          else operation)
  once i later = elim (Bool-cases (locks.at_begin i)) [
    | inl e ↦ rw e refl
    | inr e ↦ rw e (finish_turn i later (locks.at_commit i))
  ]

  pub write_retried-eq : write_retried locks operation ≡ (
      if is_busy (attempt_once locks operation 0)
        && is_busy (attempt_once locks operation 1)
        && is_busy (attempt_once locks operation 2)
      then err database_busy
      else operation)
  unfolding write_retried
  write_retried-eq =
      let third = write_loop locks operation 3 0 in
      let second = write_loop locks operation 2 1 in
      once 0 (write_loop locks operation 1 2)
      ∙ rw (once 1 second, once 2 third) (three (is_busy (attempt_once locks operation 0)) _ _ _ _)
