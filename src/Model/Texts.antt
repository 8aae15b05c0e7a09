-- ===== src/Model/Texts.antt =====
-- The text checks of networth/model/figure.py: `require_nonempty` and the currency pattern.
use Prim.Native.Char.{code}
use Prim.Native.Nat.{Ordering}
use Prim.Native.String.{String, compare}
use networth.Prelude.{
  ℕ, Bool, true, false, not, ◌&&◌, ◌||◌, List, [], ◌∷◌, leb, ◌==◌, ◌≡◌, refl, Option, none, some,
}

-- The code points of a text.
abbrev pub codes : String → List ℕ
codes String.[] = []
codes (String.◌∷◌ c s) = code c ∷ codes s

-- `str.isspace` of one character
unfoldable pub is_space : ℕ → Bool
is_space c =
    (leb 9 c && leb c 13)
    || (leb 28 c && leb c 32)
    || (c == 133)
    || (c == 160)
    || (c == 5760)
    || (leb 8192 c && leb c 8202)
    || (c == 8232)
    || (c == 8233)
    || (c == 8239)
    || (c == 8287)
    || (c == 12288)

-- The last code is no space.
unfoldable pub ends_well : ℕ → List ℕ → Bool
unfolding is_space
ends_well c [] = not (is_space c)
ends_well c (d ∷ ds) = ends_well d ds

unfoldable pub is_trimmed : List ℕ → Bool
unfolding ends_well
is_trimmed [] = false
is_trimmed (c ∷ cs) = not (is_space c) && ends_well c cs

-- The condition under which `require_nonempty` passes: `value and value == value.strip()`.
unfoldable pub is_nonempty : String → Bool
unfolding is_trimmed
is_nonempty s = is_trimmed (codes s)

abbrev pub nonempty_or_absent : Option String → Bool
nonempty_or_absent none = true
nonempty_or_absent (some s) = is_nonempty s

-- The condition `value.strip()`: some character is no space.
abbrev any_visible : List ℕ → Bool
any_visible [] = false
any_visible (c ∷ cs) = not (is_space c) || any_visible cs

unfoldable pub is_visible : String → Bool
unfolding is_space
is_visible s = any_visible (codes s)

abbrev pub visible_or_absent : Option String → Bool
visible_or_absent none = true
visible_or_absent (some s) = is_visible s

-- `<=` on texts, by code points
abbrev pub text_leb : String → String → Bool
text_leb s t = elim (compare s t) [ Ordering.gt ↦ false | _ ↦ true ]

abbrev is_upper : ℕ → Bool
is_upper c = leb 65 c && leb c 90

abbrev three_upper : List ℕ → Bool
three_upper (a ∷ b ∷ c ∷ []) = is_upper a && is_upper b && is_upper c
three_upper _ = false

-- `_CURRENCY.fullmatch`
unfoldable pub is_currency : String → Bool
is_currency s = three_upper (codes s)

usd_is_currency : is_currency "USD" ≡ true
unfolding is_currency
usd_is_currency = refl

padded_is_refused : is_nonempty "run " ≡ false
unfolding is_nonempty
padded_is_refused = refl
