-- ===== src/Staleness/Display.antt =====
-- `StalenessMachine.display_state`: what the composed state promises about every account and Item.
use networth.Prelude.{
  ℕ, ◌≤◌, ◌≡◌, ◌↔◌, ◌⊎◌, refl, Bool, true, false, Option, none, some, List, [], ◌∷◌, ◌++◌, arith,
  any, any-append, All,
}
use networth.Model.Item.{ItemState, healthy, owner_actionable, is_degraded}
use networth.Model.Freshness.{
  FreshnessAssessment, fresh, static, frozen, is_frozen, DisplayState, ok_state, waiting,
  action_needed,
}
use networth.Staleness.{display_state, item_states_of, prepend, is_late}

-- Nothing about the account asks for attention.
pub record IsQuiet (a : FreshnessAssessment) : Type 0 where
  pub current : (a.state ≡ fresh) ⊎ (a.state ≡ static)
  pub reachable : (a.item_state ≡ none) ⊎ (a.item_state ≡ some healthy)

All-healthy :
    (l : List ItemState)
    → any owner_actionable l ≡ false
    → any is_degraded l ≡ false
    → All (λ s. s ≡ healthy) l
unfolding owner_actionable
All-healthy [] p q = tt
All-healthy (s ∷ l) p q = (ground arith, All-healthy l (ground arith) (ground arith))

healthy-quiet :
    (l : List ItemState)
    → All (λ s. s ≡ healthy) l
    → (any owner_actionable l ≡ false) × (any is_degraded l ≡ false)
unfolding owner_actionable
healthy-quiet [] h = (refl, refl)
healthy-quiet (s ∷ l) h = ground (arith, healthy-quiet l h.1)

-- No test of `display_state` passes on these assessments.
record Passes (l : List FreshnessAssessment) : Type 0 where
  no_action : any owner_actionable (item_states_of l) ≡ false
  no_degraded : any is_degraded (item_states_of l) ≡ false
  no_frozen : any (λ a. is_frozen a.state) l ≡ false
  no_late : any (λ a. is_late a.state) l ≡ false

IsQuiet-of :
    (a : FreshnessAssessment) (l : List FreshnessAssessment) → Passes (a ∷ l) → IsQuiet a × Passes l
unfolding owner_actionable
IsQuiet-of a l h = (record { current = ground arith; reachable = ground arith }, ground arith)

Passes-IsQuiet : (l : List FreshnessAssessment) → Passes l → All IsQuiet l
Passes-IsQuiet [] h = tt
Passes-IsQuiet (a ∷ l) h = let (q, rest) = IsQuiet-of a l h in (q, Passes-IsQuiet l rest)

Passes-cons :
    (a : FreshnessAssessment) (l : List FreshnessAssessment) → IsQuiet a → Passes l → Passes (a ∷ l)
unfolding owner_actionable
Passes-cons a l q h = ground arith

quiet-Passes : (l : List FreshnessAssessment) → All IsQuiet l → Passes l
quiet-Passes [] h = record {
  no_action = refl;
  no_degraded = refl;
  no_frozen = refl;
  no_late = refl;
}
quiet-Passes (a ∷ l) h = Passes-cons a l h.0 (quiet-Passes l h.1)

module _ (collected : List FreshnessAssessment) (explicit_items : List ItemState) (n : ℕ) where
  -- The tests of `display_state`, one by one.
  record NothingFound : Type 0 where
    reconciled : n ≡ 0
    items_no_action : any owner_actionable explicit_items ≡ false
    items_no_degraded : any is_degraded explicit_items ≡ false
    passes : Passes collected

  NothingFound_of : display_state collected explicit_items n ≡ ok_state → NothingFound
  unfolding display_state
  NothingFound_of h = ground (
    arith,
    any-append owner_actionable explicit_items (item_states_of collected),
    any-append is_degraded explicit_items (item_states_of collected),
  )

  display_state_of : NothingFound → display_state collected explicit_items n ≡ ok_state
  unfolding display_state
  display_state_of h = ground (
    arith,
    any-append owner_actionable explicit_items (item_states_of collected),
    any-append is_degraded explicit_items (item_states_of collected),
  )

  -- The display is OK exactly if no account is unreconciled, every Item state given is HEALTHY, and
  -- every assessment is FRESH or STATIC with no Item or a HEALTHY one.
  pub display_state-ok_iff :
      (display_state collected explicit_items n ≡ ok_state)
      ↔ ((n ≡ 0) × (All (λ s. s ≡ healthy) explicit_items × All IsQuiet collected))
  display_state-ok_iff = (
    λ h.
        let f = NothingFound_of h in
        (
          f.reconciled,
          (
            All-healthy explicit_items f.items_no_action f.items_no_degraded,
            Passes-IsQuiet collected f.passes,
          ),
        ),
    λ k.
        let items = healthy-quiet explicit_items k.1.0 in
        display_state_of (record {
          reconciled = k.0;
          items_no_action = items.0;
          items_no_degraded = items.1;
          passes = quiet-Passes collected k.1.1;
        }),
  )

-- How much the display asks of the owner.
abbrev pub severity : DisplayState → ℕ
severity ok_state = 0
severity waiting = 1
severity action_needed = 2

any-prepend :
    (p : ItemState → Bool) (o : Option ItemState) (l : List ItemState)
    → any p l ≡ true
    → any p (prepend o l) ≡ true
any-prepend p none l h = h
any-prepend p (some s) l h = ground arith

any-insert :
    {A : Type 0} (p : A → Bool) (xs ys zs : List A)
    → (any p ys ≡ true → any p zs ≡ true)
    → any p (xs ++ ys) ≡ true
    → any p (xs ++ zs) ≡ true
any-insert p xs ys zs f h = rw (any-append p xs zs) (ground (arith, any-append p xs ys))

-- One more account never makes the display calmer, and a FROZEN one makes it ACTION_NEEDED.
pub display_state-cons :
    (a : FreshnessAssessment) (collected : List FreshnessAssessment)
    (explicit_items : List ItemState) (n : ℕ)
    → (severity (display_state collected explicit_items n)
        ≤ severity (display_state (a ∷ collected) explicit_items n))
      × (a.state ≡ frozen → display_state (a ∷ collected) explicit_items n ≡ action_needed)
unfolding display_state
display_state-cons a collected explicit_items n =
    let grow : (p : ItemState → Bool)
        → any p (explicit_items ++ item_states_of collected) ≡ true
        → any p (explicit_items ++ item_states_of (a ∷ collected)) ≡ true =
      λ p.
        any-insert p explicit_items _ _ (any-prepend p a.item_state (item_states_of collected)) in
    (ground (arith, grow owner_actionable, grow is_degraded), λ f. ground arith)
