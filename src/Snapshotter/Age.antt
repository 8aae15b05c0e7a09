-- ===== src/Snapshotter/Age.antt =====
-- What a dated total promises: every contributor has a known clock, and none is older.
use networth.Prelude.{ℕ, ◌≤◌, ◌≡◌, ◌∙◌, ap, sym, some, String, List, arith, minimum, In, All}
use networth.Prelude.Result.{ok}
use networth.Calendar.Market.{Calendar}
use networth.Model.Figure.{SnapshotAge, known}
use networth.Model.Snapshot.{SnapshotDraft}
use networth.Store.Tables.{Database}
use networth.Snapshotter.{age_from, compute}
use networth.Prelude.Minimum.{minimum-least}
use networth.Snapshotter.Entries.{Entry}
use networth.Snapshotter.Sums.{count, clocks, is_unknown_entry}
use networth.Snapshotter.Honest.{EntriesOf, compute-Describes}

dated-age :
    (n : ℕ) (l : List ℕ) (m : ℕ)
    → (age_from n l).as_of ≡ some m
    → (n ≡ 0) × ((age_from n l).state ≡ known) × (minimum l ≡ some m)
unfolding age_from
dated-age n l m h = ground arith

-- Where a computed snapshot carries a date, every contributor's clock is known, and the date is the
-- oldest of the clocks: it is one of them and none is earlier.
pub compute-as_of :
    (c : Calendar) (db : Database) (run : String) (at : ℕ) (d : SnapshotDraft) (m : ℕ)
    → compute c db run at ≡ ok d
    → d.age.as_of ≡ some m
    → (es : List Entry) × EntriesOf c db run at es
      × (count is_unknown_entry es ≡ 0)
      × In m (clocks es)
      × All (λ clock. m ≤ clock) (clocks es)
compute-as_of c db run at d m h dated =
    let (es, e, w) = compute-Describes c db run at d h in
    let (all_known, _, oldest) =
      dated-age (count is_unknown_entry es) (clocks es) m
        (sym (ap (λ (a : SnapshotAge). a.as_of) w.age) ∙ dated) in
    let (member, least) = minimum-least (clocks es) m oldest in (es, e, all_known, member, least)
