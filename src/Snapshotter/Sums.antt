-- ===== src/Snapshotter/Sums.antt =====
-- The sums, counts and clocks of a list of entries, and the loop's totals in terms of them.
use networth.Prelude.{
  ℕ, ◌+◌, ◌≤◌, ◌≡◌, ◌∙◌, refl, ap, sym, inl, inr, Bool, true, false, ◌||◌, Option, none, some, List,
  [], ◌∷◌, ◌++◌, length, any, arith, ltb, if◌then◌else◌, Bool-cases,
}
use mathlib.Core.List.{append_assoc, append-nil}
use networth.Prelude.Int.{ℤ, pos, pos_part, ◌+ℤ◌, ◌-ℤ◌, int_laws, +ℤ_assoc}
use networth.Model.Item.{ItemHealth}
use networth.Model.Observation.{Observation}
use networth.Model.Freshness.{FreshnessAssessment, is_unknown, is_static}
use networth.Model.Account.{SnapshotAccount}
use networth.Snapshotter.{
  Totals, add_contribution, asks_owner, count_if, is_stale_or_frozen, basis_clock,
}
use networth.Snapshotter.Entries.{Entry, add_read, count_reauth, add_entry, add_entries}

-- An account's part in the net worth: its value, or the value's negative for a liability.
abbrev pub signed_value : SnapshotAccount → Option (Observation × FreshnessAssessment) → ℤ
signed_value account none = pos 0
signed_value account (some (o, a)) =
    if ltb 0 (pos_part account.sign) then o.figure.value_minor else pos 0 -ℤ o.figure.value_minor

unfoldable pub signed_total : List Entry → ℤ
signed_total [] = pos 0
signed_total (e ∷ es) = signed_value e.account e.read +ℤ signed_total es

-- A test of the observation and the assessment that an entry has.
abbrev pub reads :
    (Observation → FreshnessAssessment → Bool) → Option (Observation × FreshnessAssessment) → Bool
reads p none = false
reads p (some (o, a)) = p o a

unfoldable pub count : (Entry → Bool) → List Entry → ℕ
count p [] = 0
count p (e ∷ es) = count_if (p e) (count p es)

abbrev pub is_unread : Option (Observation × FreshnessAssessment) → Bool
is_unread none = true
is_unread (some _) = false

abbrev pub is_late_entry : Entry → Bool
is_late_entry e = reads (λ o a. is_stale_or_frozen a.state) e.read

abbrev pub is_unknown_entry : Entry → Bool
is_unknown_entry e = reads (λ o a. is_unknown a.state) e.read

abbrev pub is_static_entry : Entry → Bool
is_static_entry e = reads (λ o a. is_static a.state) e.read

abbrev pub is_carried_entry : Entry → Bool
is_carried_entry e = reads (λ o a. o.is_carried_forward) e.read

abbrev pub clocks_read : Option (Observation × FreshnessAssessment) → List ℕ
clocks_read none = []
clocks_read (some (o, a)) = basis_clock a.state a.source_as_of

unfoldable pub clocks : List Entry → List ℕ
clocks [] = []
clocks (e ∷ es) = clocks_read e.read ++ clocks es

abbrev net : Totals → ℤ
net t = t.assets -ℤ t.liabilities

net-add_read :
    (account : SnapshotAccount) (read : Option (Observation × FreshnessAssessment)) (t : Totals)
    → net (add_read account read t) ≡ net t +ℤ signed_value account read
unfolding add_contribution
net-add_read account none t = omega int_laws
net-add_read account (some (o, a)) t = elim (Bool-cases (ltb 0 (pos_part account.sign))) [
  | inl e ↦ rw e (omega int_laws)
  | inr e ↦ rw e (omega int_laws)
]

-- The counts and clocks that one entry adds.
record Adds (e : Entry) (t t' : Totals) : Type 0 where
  stale : t'.stale_count ≡ count_if (is_late_entry e) t.stale_count
  unknown_clock : t'.unknown_count ≡ count_if (is_unknown_entry e) t.unknown_count
  static_value : t'.static_count ≡ count_if (is_static_entry e) t.static_count
  reauth : t'.reauth_count ≡ count_if (asks_owner e.item) t.reauth_count
  unreconciled : t'.unreconciled_count ≡ count_if (is_unread e.read) t.unreconciled_count
  carried : t'.carried_forward ≡ (t.carried_forward || is_carried_entry e)
  basis : t'.known_basis_clocks ≡ t.known_basis_clocks ++ clocks_read e.read
  value : net t' ≡ net t +ℤ signed_value e.account e.read

add_read-Adds :
    (account : SnapshotAccount) (item : Option ItemHealth)
    (read : Option (Observation × FreshnessAssessment)) (t : Totals)
    → let e : Entry = record { account = account; item = item; read = read } in
      Adds e t (add_entry e t)
unfolding add_contribution
add_read-Adds account item none t = record {
  stale = refl;
  unknown_clock = refl;
  static_value = refl;
  reauth = refl;
  unreconciled = refl;
  carried = ground arith;
  basis = sym (append-nil t.known_basis_clocks);
  value = net-add_read account none (count_reauth item t);
}
add_read-Adds account item (some (o, a)) t = record {
  stale = refl;
  unknown_clock = refl;
  static_value = refl;
  reauth = refl;
  unreconciled = refl;
  carried = refl;
  basis = refl;
  value = net-add_read account (some (o, a)) (count_reauth item t);
}

-- The counts and clocks that the entries add.
pub record Counted (es : List Entry) (t t' : Totals) : Type 0 where
  pub stale : t'.stale_count ≡ t.stale_count + count is_late_entry es
  pub unknown_clock : t'.unknown_count ≡ t.unknown_count + count is_unknown_entry es
  pub static_value : t'.static_count ≡ t.static_count + count is_static_entry es
  pub reauth : t'.reauth_count ≡ t.reauth_count + count (λ e. asks_owner e.item) es
  pub unreconciled : t'.unreconciled_count ≡ t.unreconciled_count + count (λ e. is_unread e.read) es
  pub carried : t'.carried_forward ≡ (t.carried_forward || any is_carried_entry es)
  pub basis : t'.known_basis_clocks ≡ t.known_basis_clocks ++ clocks es
  pub value : t'.assets -ℤ t'.liabilities ≡ t.assets -ℤ t.liabilities +ℤ signed_total es

Counted-cons :
    (e : Entry) (es : List Entry) (t t' t'' : Totals)
    → Adds e t t'
    → Counted es t' t''
    → Counted (e ∷ es) t t''
unfolding count clocks signed_total
Counted-cons e es t t' t'' h k = record {
  stale = ground (arith, h.stale, k.stale);
  unknown_clock = ground (arith, h.unknown_clock, k.unknown_clock);
  static_value = ground (arith, h.static_value, k.static_value);
  reauth = ground (arith, h.reauth, k.reauth);
  unreconciled = ground (arith, h.unreconciled, k.unreconciled);
  carried = ground (arith, h.carried, k.carried);
  basis =
      k.basis
      ∙ ap (λ l. l ++ clocks es) h.basis
      ∙ append_assoc t.known_basis_clocks (clocks_read e.read) (clocks es);
  value =
      k.value
      ∙ ap (λ v. v +ℤ signed_total es) h.value
      ∙ +ℤ_assoc (t.assets -ℤ t.liabilities) (signed_value e.account e.read) (signed_total es);
}

pub add_entries-Counted : (es : List Entry) (t : Totals) → Counted es t (add_entries es t)
unfolding count clocks signed_total
add_entries-Counted [] t = record {
  stale = omega arith;
  unknown_clock = omega arith;
  static_value = omega arith;
  reauth = omega arith;
  unreconciled = omega arith;
  carried = ground arith;
  basis = sym (append-nil t.known_basis_clocks);
  value = omega int_laws;
}
add_entries-Counted (e ∷ es) t =
    Counted-cons e es t (add_entry e t) _ (add_read-Adds e.account e.item e.read t)
      (add_entries-Counted es (add_entry e t))

pub count-le : (p : Entry → Bool) (es : List Entry) → count p es ≤ length es
unfolding count
count-le p [] = omega arith
count-le p (e ∷ es) = ground (arith, count-le p es)
