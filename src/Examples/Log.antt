-- ===== src/Examples/Log.antt =====
-- The revision log at concrete inputs.
use networth.Prelude.{ℕ, ◌≤◌, ◌<◌, ◌≡◌, ◌↔◌, refl, true, none, some, List, [], ◌∷◌, In, arith}
use networth.Prelude.Sort.{sort}
use networth.Prelude.Int.{pos}
use networth.Manual.{Revision, new_log, as_of_day, key_before}
use networth.Manual.AsOf.{as_of_day-newest, as_of_day-none_iff, as_of_day-future}

abbrev appraisal : ℕ → ℕ → ℕ → Revision
appraisal day entered sequence = record {
  valuation = record { value_minor = pos 100; currency = "USD"; valued_as_of = day };
  entered_at = entered;
  sequence = sequence;
}

-- The second entry was typed in last and speaks for an earlier day; the third corrects the first.
abbrev log : List Revision
log = appraisal 60 61 1 ∷ appraisal 30 90 2 ∷ appraisal 60 62 3 ∷ []

correction_wins : as_of_day (new_log log) 70 ≡ some (appraisal 60 62 3)
unfolding as_of_day new_log sort key_before
correction_wins = refl

as_of_day-newest_example :
    In (appraisal 60 62 3) log
    × ((60 ≤ 70)
        × ((e : Revision)
            → In e log
            → e.valued_as_of ≤ 70
            → key_before e (appraisal 60 62 3) ≡ true))
as_of_day-newest_example = as_of_day-newest log 70 (appraisal 60 62 3) correction_wins

as_of_day-none_iff_example :
    (as_of_day (new_log log) 20 ≡ none) ↔ ((e : Revision) → In e log → 20 < e.valued_as_of)
as_of_day-none_iff_example = as_of_day-none_iff log 20

as_of_day-future_example :
    as_of_day (new_log (appraisal 80 81 4 ∷ log)) 70 ≡ as_of_day (new_log log) 70
as_of_day-future_example = as_of_day-future log 70 (appraisal 80 81 4) (omega arith)
