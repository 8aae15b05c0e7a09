-- ===== src/Staleness/Fresh.antt =====
-- FRESH and UNKNOWN: which evidence an assessment of each kind rests on.
use networth.Prelude.{
  ℕ, ◌+◌, ◌≤◌, ◌≡◌, ◌↔◌, ◌∙◌, refl, sym, Bool, true, false, Option, none, some, leb, arith, leb→le,
  le→leb, ap, subst,
}
use networth.Prelude.Result.{ok, ◌>>=◌, >>=-eq-ok, ok-injective}
use networth.Calendar.Zone.{IsEastern}
use networth.Calendar.Market.{Calendar, latest_completed_close}
use networth.Calendar.Market.Latest.{Completed, latest_completed_close_newest}
use networth.Model.Item.{ItemHealth}
use networth.Model.Observation.{ObservationDraft}
use networth.Model.Freshness.{
  FreshnessPolicy, synced_holdings, synced_balance, manual_static, manual_qty_live_price,
  FreshnessAssessment, fresh, unknown,
}
use networth.Staleness.{
  cash_fresh_for, posting_grace, inside_expectation, assess, is_manual_static, classify,
}
use networth.Staleness.States.{fixed, undated, clocked, assess-Origin}

-- What the policy asks of the source clock at `at`: a balance is at most 36 hours old; other data
-- is no older than any session whose close, with the policy's grace, has passed.
abbrev pub MeetsPolicy : Calendar → FreshnessPolicy → ℕ → ℕ → Type 0
MeetsPolicy c synced_balance source at = at ≤ source + cash_fresh_for
MeetsPolicy c policy source at =
    (d close : ℕ) → Completed c (posting_grace policy) at d close → close ≤ source

classify-fresh : (b : Bool) (n : ℕ) → classify b n ≡ fresh → b ≡ true
classify-fresh b n h = ground arith

classify-ne-unknown : (b : Bool) (n : ℕ) → classify b n ≡ unknown → ⊥
classify-ne-unknown b n h = ground arith

module _ (c : Calendar) (east : IsEastern c.zone) where
  required_close-true :
      (source at grace : ℕ)
      → (latest_completed_close c at grace >>= λ r. ok (leb r source)) ≡ ok true
      → (d close : ℕ) → Completed c grace at d close
      → close ≤ source
  required_close-true source at grace h d close done =
      let (r, newest, test) = >>=-eq-ok (latest_completed_close c at grace) _ h in
      omega (
        arith,
        leb→le r source (ok-injective test),
        (latest_completed_close_newest c grace at east r newest).1 d close done,
      )

  required_close_complete :
      (source at grace : ℕ) {b : Bool}
      → (latest_completed_close c at grace >>= λ r. ok (leb r source)) ≡ ok b
      → ((d close : ℕ) → Completed c grace at d close → close ≤ source)
      → b ≡ true
  required_close_complete source at grace h all_older =
      let (r, newest, test) = >>=-eq-ok (latest_completed_close c at grace) _ h in
      let ((d, done), _) = latest_completed_close_newest c grace at east r newest in
      sym (ok-injective test) ∙ le→leb r source (all_older d r done)

  inside-MeetsPolicy :
      (policy : FreshnessPolicy) (source at : ℕ)
      → inside_expectation c policy source at (posting_grace policy) ≡ ok true
      → MeetsPolicy c policy source at
  unfolding inside_expectation
  inside-MeetsPolicy synced_balance source at h = leb→le _ _ (ok-injective h)
  inside-MeetsPolicy synced_holdings source at h = required_close-true source at _ h
  inside-MeetsPolicy manual_static source at h = required_close-true source at _ h
  inside-MeetsPolicy manual_qty_live_price source at h = required_close-true source at _ h

  MeetsPolicy-inside :
      (policy : FreshnessPolicy) (source at : ℕ) {b : Bool}
      → inside_expectation c policy source at (posting_grace policy) ≡ ok b
      → MeetsPolicy c policy source at
      → b ≡ true
  unfolding inside_expectation
  MeetsPolicy-inside synced_balance source at h m = sym (ok-injective h) ∙ le→leb _ _ m
  MeetsPolicy-inside synced_holdings source at h m = required_close_complete source at _ h m
  MeetsPolicy-inside manual_static source at h m = required_close_complete source at _ h m
  MeetsPolicy-inside manual_qty_live_price source at h m = required_close_complete source at _ h m

  module _ (o : ObservationDraft) (policy : FreshnessPolicy) (item : Option ItemHealth)
      (at : ℕ) where
    -- An assessment is FRESH exactly if the policy is not MANUAL_STATIC and the observation's own
    -- source clock meets the policy: at most 36 hours old for a balance, and otherwise no older
    -- than any session whose close, with the grace, has passed. The time zone is New York's.
    pub assess-fresh_iff :
        (a : FreshnessAssessment)
        → assess c o policy item at ≡ ok a
        → (a.state ≡ fresh) ↔ (
            (is_manual_static policy ≡ false)
            × ((source : ℕ) × (o.figure.as_of ≡ some source) × MeetsPolicy c policy source at))
    assess-fresh_iff a h = elim (assess-Origin c o policy item at h) [
      | fixed source p e eq ↦ (λ f. cc (f, eq), λ k. absurd (cc (p, k.0)))
      | undated p e eq ↦ (λ f. cc (f, eq), λ k. absurd (cc (e, k.1.1)))
      | clocked source is_fresh p e inside eq ↦ (
        λ f.
            let yes_fresh =
              classify-fresh is_fresh _ (sym (ap (λ (x : FreshnessAssessment). x.state) eq) ∙ f) in
            (p, (source, e, inside-MeetsPolicy policy source at (rw yes_fresh at inside))),
        λ k.
            let same_source : k.1.0 ≡ source = cc (e, k.1.1) in
            let meets = subst (λ s. MeetsPolicy c policy s at) same_source k.1.2 in
            let yes_fresh = MeetsPolicy-inside policy source at inside meets in
            ap (λ (x : FreshnessAssessment). x.state) eq ∙ rw yes_fresh refl,
      )
    ]

    -- An assessment carries the observation's own source clock, and is UNKNOWN exactly if the
    -- observation has none.
    pub assess_source_clock :
        (a : FreshnessAssessment)
        → assess c o policy item at ≡ ok a
        → (a.source_as_of ≡ o.figure.as_of) × ((a.state ≡ unknown) ↔ (o.figure.as_of ≡ none))
    assess_source_clock a h = elim (assess-Origin c o policy item at h) [
      | fixed source p e eq ↦ (cc, (λ u. cc (u, eq), λ k. absurd (cc (e, k))))
      | undated p e eq ↦ (cc, (λ u. e, λ k. cc))
      | clocked source is_fresh p e inside eq ↦ (
        cc,
        (
          λ u. absurd (
              classify-ne-unknown is_fresh _
                (sym (ap (λ (x : FreshnessAssessment). x.state) eq) ∙ u)),
          λ k. absurd (cc (e, k)),
        ),
      )
    ]
