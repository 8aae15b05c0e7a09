-- ===== src/Quotes/Priced.antt =====
-- networth/manual_quotes.py: every manual equity is valued by its own quote, and dated by nothing else.
use networth.Prelude.{ℕ, ◌≤◌, ◌≡◌, false, some, String, List, [], ◌∷◌}
use networth.Prelude.Result.{Result, ok}
use networth.Model.Observation.{ObservationDraft}
use networth.Money.{to_minor_units}
use networth.Quotes.Holdings.{Quote, product}
use networth.Quotes.Worker.{Input}

module _ (run : String) (fetched : ℕ) where
  -- The draft values the input's shares at the price of a quote of its symbol and currency; its clock
  -- is the quote's, which is not in the future.
  pub record IsPriced (i : Input) (d : ObservationDraft) : Type 0 where
    pub at_quote : Quote
    pub same_symbol : at_quote.symbol ≡ i.holding.symbol
    pub same_currency : at_quote.currency ≡ i.holding.currency
    pub valued :
        to_minor_units (product i.holding.shares at_quote.price) i.holding.currency
        ≡ ok d.figure.value_minor
    pub dated : d.figure.as_of ≡ some at_quote.as_of
    pub not_future : at_quote.as_of ≤ fetched
    pub of_run : d.sync_run_id ≡ run
    pub of_account : d.account_id ≡ i.account.id
    pub fetched_now : d.fetched_at ≡ fetched
    pub fresh : d.is_carried_forward ≡ false

  -- One draft for each input, in order.
  abbrev pub AllPriced : List Input → List ObservationDraft → Type 0
  AllPriced [] [] = Unit
  AllPriced [] (_ ∷ _) = ⊥
  AllPriced (_ ∷ _) [] = ⊥
  AllPriced (i ∷ is) (d ∷ ds) = IsPriced i d × AllPriced is ds
