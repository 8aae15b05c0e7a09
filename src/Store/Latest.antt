-- ===== src/Store/Latest.antt =====
-- networth/store/sqlite.py: the last observation of an account, and what the rows of a run that is being
-- written leave of it.
use networth.Prelude.{
  ℕ, ◌≡◌, refl, sym, subst, ap, ◌∙◌, inl, inr, Bool, true, false, Bool-cases, Option, none, some,
  String, str_eq, List, [], ◌∷◌, ◌++◌, ◌==◌, arith, keep, any, any-append, In, keep-In,
}
use text.Mathlib.TextPositions.{eq_refl}
use networth.Prelude.Result.{Result, ok, err, ◌>>=◌, ok-injective, >>=-eq-ok}
use networth.Prelude.Sort.{sort-In, last, last_of, last_of-In}
use networth.Model.Figure.{new_figure}
use networth.Model.Observation.{
  ObservationDraft, Observation, new_observation, new_observation_draft,
}
use networth.Store.Tables.{from_row, convert_optional}
use networth.Store.Observations.{
  observation_from_row, latest_for_account, append_observation, by_time, same_key,
}

pub from_row-eq-ok {ℓ} : {A : Type ℓ} (r : Result A) (a : A) → from_row r ≡ ok a → r ≡ ok a
from_row-eq-ok (ok b) a h = h
from_row-eq-ok (err e) a h = cc

observation_from_row-eq : (o p : Observation) → observation_from_row o ≡ ok p → o ≡ p
unfolding observation_from_row new_observation new_observation_draft
observation_from_row-eq o p h =
    let h1 = from_row-eq-ok (do f ← new_figure o.figure; new_observation o) p h in
    let (f, _, h2) = >>=-eq-ok (new_figure o.figure) _ h1 in ground arith

-- The last observation of an account is one of that account.
latest_row :
    (x : Option Observation) (p : Observation)
    → convert_optional observation_from_row x ≡ ok (some p)
    → x ≡ some p
latest_row none p h = cc
latest_row (some x) p h =
    let (q, read, same) = >>=-eq-ok (observation_from_row x) _ h in
    let eq = observation_from_row-eq x q read in cc

last-In : (xs : List Observation) (p : Observation) → last xs ≡ some p → In p xs
last-In [] p h = cc
last-In (x ∷ xs) p h =
    let eq : last_of x xs ≡ p = cc in
    subst (λ (o : Observation). In o (x ∷ xs)) eq (last_of-In by_time x xs)

latest-account :
    (rows : List Observation) (account : ℕ) (p : Observation)
    → latest_for_account rows account ≡ ok (some p)
    → (p.account_id == account) ≡ true
unfolding latest_for_account
latest-account rows account p h =
    (keep-In (λ (o : Observation). o.account_id == account) p rows
      (sort-In by_time p _ (last-In _ p (latest_row _ p h)))).1

keep-append_dropped :
    (p : Observation → Bool) (xs ys : List Observation)
    → any p ys ≡ false
    → keep p (xs ++ ys) ≡ keep p xs
keep-append_dropped p [] [] h = refl
keep-append_dropped p [] (y ∷ ys) h =
    let here : p y ≡ false = ground arith in
    let later : any p ys ≡ false = ground arith in rw here (keep-append_dropped p [] ys later)
keep-append_dropped p (x ∷ xs) ys h = rw (keep-append_dropped p xs ys h) refl

-- The rows of one run, none of them for the key's account.
abbrev pub AllOfRun : String → List Observation → Type 0
AllOfRun run [] = Unit
AllOfRun run (o ∷ os) = (o.sync_run_id ≡ run) × AllOfRun run os

no_row_of :
    (d : ObservationDraft) (account : ℕ) (cs : List Observation)
    → (d.account_id == account) ≡ true
    → AllOfRun d.sync_run_id cs
    → any (same_key d) cs ≡ false
    → any (λ (o : Observation). o.account_id == account) cs ≡ false
no_row_of d account [] same all free = refl
no_row_of d account (o ∷ cs) same (eq, all) free =
    let reflexive = eq_refl d.sync_run_id in
    let named : str_eq o.sync_run_id d.sync_run_id ≡ true = rw eq reflexive in
    let here : (o.account_id == d.account_id) ≡ false = ground arith in
    let later : any (same_key d) cs ≡ false = ground arith in
    let rest = no_row_of d account cs same all later in ground arith

pub append_observation-eq :
    (rows : List Observation) (d : ObservationDraft) (o : Observation) (rows' : List Observation)
    → append_observation rows d ≡ ok (o, rows')
    → (any (same_key d) rows ≡ false) × (o.draft ≡ d) × (rows' ≡ rows ++ o ∷ [])
unfolding append_observation
append_observation-eq rows d o rows' h = elim (Bool-cases (any (same_key d) rows)) [
  | inl e ↦ let bad = (rw e at h) in cc
  | inr e ↦
      let eq = ok-injective (rw e at h) in
      let made = ap (λ (r : Observation × List Observation). r.0) eq in
      (
        e,
        ap (λ (x : Observation). x.draft) (sym made),
        sym (ap (λ (r : Observation × List Observation). r.1) eq) ∙ rw made refl,
      )
]

latest-append_other :
    (base cs : List Observation) (account : ℕ) (previous : Observation)
    → any (λ (o : Observation). o.account_id == account) cs ≡ false
    → latest_for_account (base ++ cs) account ≡ ok (some previous)
    → latest_for_account base account ≡ ok (some previous)
unfolding latest_for_account
latest-append_other base cs account previous dropped h =
    let same = keep-append_dropped (λ (o : Observation). o.account_id == account) base cs dropped in
    rw same at h

-- The rows that this run has appended so far do not change what is carried next.
pub latest-base :
    (base cs : List Observation) (account : ℕ) (previous : Observation) (d : ObservationDraft)
    → d.account_id ≡ previous.account_id
    → AllOfRun d.sync_run_id cs
    → any (same_key d) (base ++ cs) ≡ false
    → latest_for_account (base ++ cs) account ≡ ok (some previous)
    → latest_for_account base account ≡ ok (some previous)
latest-base base cs account previous d same all free h =
    let split = sym (any-append (same_key d) base cs) ∙ free in
    let none_here : any (same_key d) cs ≡ false = ground arith in
    let mine : (d.account_id == account) ≡ true =
      rw same (latest-account (base ++ cs) account previous h) in
    let dropped = no_row_of d account cs mine all none_here in
    latest-append_other base cs account previous dropped h
