-- ===== src/Sync/Clock.antt =====
-- networth/sync.py: `_holdings_clock`, the clock that dates the total of a holdings account.
use Prim.Native.String.{◌++◌ as append_text}
use networth.Prelude.{
  ℕ, ◌/◌, ◌%◌, Option, none, some, String, str_eq, List, [], ◌∷◌, ◌==◌, if◌then◌else◌, minimum, any,
}
use networth.Prelude.Sort.{sort}
use networth.Calendar.Dates.{day}
use networth.Calendar.Market.{Calendar, session_close}
use networth.Model.Texts.{text_leb}
use networth.Model.Item.{ItemHealth}
use networth.Sync.Records.{HoldingRecord}

-- The instant, and the name of the clock that gave it.
abbrev pub Evidence : Type 0
Evidence = ℕ × String

abbrev pub tagged : String → Option ℕ → Option Evidence
tagged clock none = none
tagged clock (some instant) = some (instant, clock)

-- The price date, where the precise time gave nothing.
abbrev as_of_clock : Calendar → Option ℕ → Option Evidence
as_of_clock c none = none
as_of_clock c (some d) = tagged "INSTITUTION_PRICE_AS_OF" (session_close c d)

-- The first evidence, or the second where the first is absent.
abbrev pub or_else {ℓ} : {A : Type ℓ} → Option A → Option A → Option A
or_else none second = second
or_else (some a) second = some a

-- The precise time, which the client has turned to UTC; midnight stands for the session of its date.
abbrev precise_clock : Calendar → Option ℕ → Option Evidence
precise_clock c none = none
precise_clock c (some t) =
    tagged "INSTITUTION_PRICE_DATETIME" (if t % day == 0 then session_close c (t / day) else some t)

-- `_holding_price_clock`
unfoldable pub holding_price_clock : Calendar → HoldingRecord → Option Evidence
unfolding precise_clock as_of_clock
holding_price_clock c h =
    or_else (precise_clock c h.institution_price_datetime) (as_of_clock c h.institution_price_as_of)

abbrev pub add_evidence : Option Evidence → Option (List Evidence) → Option (List Evidence)
add_evidence none rest = none
add_evidence (some e) none = none
add_evidence (some e) (some es) = some (e ∷ es)

-- The loop over the holdings: one without a clock ends it with none.
unfoldable pub price_evidence : Calendar → List HoldingRecord → Option (List Evidence)
unfolding holding_price_clock
price_evidence c [] = some []
price_evidence c (h ∷ hs) = add_evidence (holding_price_clock c h) (price_evidence c hs)

-- A set, as the list of its members.
abbrev pub distinct : List String → List String
distinct [] = []
distinct (s ∷ ss) = let rest = distinct ss in if any (str_eq s) rest then rest else s ∷ rest

abbrev pub join_rest : List String → String
join_rest [] = ""
join_rest (s ∷ ss) = append_text "+" (append_text s (join_rest ss))

-- `"+".join`
abbrev pub join : List String → String
join [] = ""
join (s ∷ ss) = append_text s (join_rest ss)

abbrev pub instants : List Evidence → List ℕ
instants [] = []
instants (e ∷ es) = e.0 ∷ instants es

abbrev pub names_at : ℕ → List Evidence → List String
names_at oldest [] = []
names_at oldest (e ∷ es) =
    let rest = names_at oldest es in if e.0 == oldest then e.1 ∷ rest else rest

-- `min`, over evidence that always holds the Item's clock
abbrev pub oldest_of : ℕ → Option ℕ → ℕ
oldest_of update none = update
oldest_of update (some instant) = instant

abbrev pub status_evidence : ℕ → List Evidence → List Evidence
status_evidence update [] = (update, "INVESTMENTS_LAST_SUCCESSFUL_UPDATE") ∷ []
status_evidence update (e ∷ es) = e ∷ status_evidence update es

abbrev pub dated : ℕ → List Evidence → Option ℕ × String
dated update evidence =
    let oldest = oldest_of update (minimum (instants evidence)) in
    (some oldest, join (sort text_leb (distinct (names_at oldest evidence))))

abbrev pub combined : Option (List Evidence) → ℕ → Option ℕ × String
combined none update = (none, "UNKNOWN")
combined (some evidence) update = dated update (status_evidence update evidence)

abbrev pub holdings_clock_at : Calendar → List HoldingRecord → Option ℕ → Option ℕ × String
holdings_clock_at c [] update = (none, "UNKNOWN")
holdings_clock_at c (h ∷ hs) none = (none, "UNKNOWN")
holdings_clock_at c (h ∷ hs) (some update) = combined (price_evidence c (h ∷ hs)) update

-- `_holdings_clock`
unfoldable pub holdings_clock : Calendar → List HoldingRecord → ItemHealth → Option ℕ × String
unfolding minimum sort price_evidence
holdings_clock c hs item = holdings_clock_at c hs item.investments_last_successful_update
