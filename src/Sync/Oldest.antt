-- ===== src/Sync/Oldest.antt =====
-- networth/sync.py: the clock of a holdings account is its oldest evidence.
use networth.Prelude.{
  ℕ, ◌≤◌, ◌≡◌, refl, inl, inr, ◌⊎◌, Option, none, some, Option-cases, List, [], ◌∷◌, minimum, In,
  All, All-map, All-In, subst, ap, ◌∙◌,
}
use networth.Prelude.Minimum.{minimum-some, minimum-least}
use networth.Calendar.Market.{Calendar}
use networth.Model.Item.{ItemHealth}
use networth.Sync.Records.{HoldingRecord}
use networth.Sync.Clock.{
  Evidence, holding_price_clock, price_evidence, instants, status_evidence, dated,
  holdings_clock_at, holdings_clock,
}

some-injective {ℓ} : {A : Type ℓ} {a b : A} → some a ≡ some b → a ≡ b
some-injective h = cc

module _ (c : Calendar) where
  -- Every holding has evidence in the list, and all of the list is evidence of a holding.
  abbrev Describes : List HoldingRecord → List Evidence → Type 0
  Describes hs es =
      All (λ h. (e : Evidence) × (holding_price_clock c h ≡ some e) × In e es) hs
      × All (λ e. (h : HoldingRecord) × In h hs × (holding_price_clock c h ≡ some e)) es

  Describes-cons :
      (h : HoldingRecord) (hs : List HoldingRecord) (e : Evidence) (es : List Evidence)
      → holding_price_clock c h ≡ some e
      → Describes hs es
      → Describes (h ∷ hs) (e ∷ es)
  Describes-cons h hs e es q (l, r) = (
    ((e, q, inl refl), All-map _ _ hs (λ _ x. (x.0, x.1, inr x.2)) l),
    ((h, inl refl, q), All-map _ _ es (λ _ x. (x.0, inr x.1, x.2)) r),
  )

  price_evidence-Describes :
      (hs : List HoldingRecord) (es : List Evidence)
      → price_evidence c hs ≡ some es
      → Describes hs es
  unfolding price_evidence
  price_evidence-Describes [] es h = subst (Describes []) (some-injective h) (tt, tt)
  price_evidence-Describes (x ∷ hs) es h = elim (Option-cases (holding_price_clock c x)) [
    | inl none_here ↦ let bad : none ≡ some es = (rw none_here at h) in cc
    | inr (e, here) ↦ elim (Option-cases (price_evidence c hs)) [
      | inl none_later ↦ let bad : none ≡ some es = (rw (here, none_later) at h) in cc
      | inr (rest, later) ↦
          subst (Describes (x ∷ hs)) (some-injective (rw (here, later) at h))
            (Describes-cons x hs e rest here (price_evidence-Describes hs rest later))
    ]
  ]

  status_evidence-least :
      (m update : ℕ) (es : List Evidence)
      → All (λ x. m ≤ x) (instants (status_evidence update es))
      → (m ≤ update) × All (λ e. m ≤ e.0) es
  status_evidence-least m update [] (h, _) = (h, tt)
  status_evidence-least m update (e ∷ es) (h, hs) =
      let (low, rest) = status_evidence-least m update es hs in (low, (h, rest))

  status_evidence-In :
      (m update : ℕ) (es : List Evidence)
      → In m (instants (status_evidence update es))
      → (m ≡ update) ⊎ ((e : Evidence) × In e es × (m ≡ e.0))
  status_evidence-In m update [] (inl h) = inl h
  status_evidence-In m update [] (inr h) = absurd h
  status_evidence-In m update (e ∷ es) (inl h) = inr (e, inl refl, h)
  status_evidence-In m update (e ∷ es) (inr h) = elim (status_evidence-In m update es h) [
    | inl same ↦ inl same
    | inr (f, i, same) ↦ inr (f, inr i, same)
  ]

  status_evidence-some :
      (update : ℕ) (es : List Evidence)
      → (m : ℕ) × (minimum (instants (status_evidence update es)) ≡ some m)
  status_evidence-some update [] = minimum-some update []
  status_evidence-some update (e ∷ es) = minimum-some e.0 (instants (status_evidence update es))

  -- What a date of a holdings account promises, by the Item's last investments update.
  abbrev pub IsOldest : List HoldingRecord → ℕ → ℕ → Type 0
  IsOldest hs update t =
      (t ≤ update)
      × All (λ h. (e : Evidence) × (holding_price_clock c h ≡ some e) × (t ≤ e.0)) hs
      × ((t ≡ update)
          ⊎ ((h : HoldingRecord) × In h hs
              × ((e : Evidence) × (holding_price_clock c h ≡ some e) × (t ≡ e.0))))

  dated-IsOldest :
      (hs : List HoldingRecord) (es : List Evidence) (update t : ℕ)
      → Describes hs es
      → (dated update (status_evidence update es)).0 ≡ some t
      → IsOldest hs update t
  dated-IsOldest hs es update t (l, r) h =
      let (m, least_of) = status_evidence-some update es in
      let same : m ≡ t = some-injective (rw least_of at h) in
      let (member, least) = minimum-least _ t (least_of ∙ ap some same) in
      let (low, lows) = status_evidence-least t update es least in
      (
        low,
        All-map _ _ hs (λ _ x. (x.0, x.1, All-In x.0 (λ (e : Evidence). t ≤ e.0) es lows x.2)) l,
        elim (status_evidence-In t update es member) [
          | inl now ↦ inl now
          | inr (e, i, at) ↦
              let (x, i', q) =
                All-In e (λ e. (h : HoldingRecord) × In h hs × (holding_price_clock c h ≡ some e))
                  es r i in
              inr (x, i', (e, q, at))
        ],
      )

  holdings_clock_at-IsOldest :
      (hs : List HoldingRecord) (update : Option ℕ) (t : ℕ)
      → (holdings_clock_at c hs update).0 ≡ some t
      → (u : ℕ) × (update ≡ some u) × IsOldest hs u t
  holdings_clock_at-IsOldest [] update t h = cc
  holdings_clock_at-IsOldest (x ∷ hs) none t h = cc
  holdings_clock_at-IsOldest (x ∷ hs) (some u) t h =
      elim (Option-cases (price_evidence c (x ∷ hs))) [
        | inl e ↦ let bad : none ≡ some t = (rw e at h) in cc
        | inr (es, e) ↦ (
          u,
          refl,
          dated-IsOldest (x ∷ hs) es u t (price_evidence-Describes (x ∷ hs) es e) (rw e at h),
        )
      ]

-- Where a holdings account is dated, the Item has had a successful investments update and every
-- holding has a price clock; the date is the oldest of these: none is earlier, and it is one of them.
pub holdings_clock-IsOldest :
    (c : Calendar) (hs : List HoldingRecord) (item : ItemHealth) (t : ℕ)
    → (holdings_clock c hs item).0 ≡ some t
    → (update : ℕ) × (item.investments_last_successful_update ≡ some update)
      × IsOldest c hs update t
unfolding holdings_clock
holdings_clock-IsOldest c hs item t h =
    holdings_clock_at-IsOldest c hs item.investments_last_successful_update t h
