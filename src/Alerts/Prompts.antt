-- ===== src/Alerts/Prompts.antt =====
-- `record_prompted`: what the prompt history says afterwards.
use networth.Prelude.{ℕ, ◌+◌, ◌<◌, ◌≡◌, false, List, [], ◌∷◌, if◌then◌else◌}
use networth.Model.Alert.{Alert}
use networth.Alerts.Bulletin.{DeliverableAlert, may_prompt, reprompt_after}

-- The deliverables that prompt.
abbrev pub prompting : List DeliverableAlert → ℕ
prompting [] = 0
prompting (d ∷ rest) = let n = prompting rest in if d.prompt then n + 1 else n

-- An alert that was prompted at `at` may not prompt again for 24 hours.
abbrev pub IsQuiet : ℕ → Alert → Type 0
IsQuiet at a = (t : ℕ) → t < at + reprompt_after → may_prompt t a.notified_at ≡ false
