-- ===== src/Common/Text.antt =====
-- `strip_prefix` and `split_once` of Rust's texts, over their bytes.
use ptransfer_cli.Common.Tests.{◌==◌, if◌then◌else◌, some_injective}
use Prim.Native.Nat.{ℕ}
use mathlib.Core.Path.{◌≡◌, refl, sym, ap, ◌∙◌}
use mathlib.Core.List.{List, [], ◌∷◌, ◌++◌}
use mathlib.Core.Option.{Option, none, some}
use mathlib.Core.Bool.{true, not}
use ptransfer_cli.Common.Decimal.{is_digit}
use native.Mathlib.Omega.{arith}
use ptransfer_cli.Common.Lists.{all}

unfoldable pub strip_prefix : List ℕ → List ℕ → Option (List ℕ)
strip_prefix [] text = some text
strip_prefix (p ∷ ps) [] = none
strip_prefix (p ∷ ps) (c ∷ cs) = let rest = strip_prefix ps cs in if p == c then rest else none

pub strip_prefix-append : (ps text : List ℕ) → strip_prefix ps (ps ++ text) ≡ some text
unfolding strip_prefix
strip_prefix-append [] text = refl
strip_prefix-append (p ∷ ps) text = ground (arith, strip_prefix-append ps text)

-- The text before the first `sep` and the text after it.
unfoldable pub split_once : ℕ → List ℕ → Option (List ℕ × List ℕ)
split_once sep [] = none
split_once sep (c ∷ cs) =
    let rest = split_once sep cs in
    if c == sep
    then some ([], cs)
    else elim rest [ none ↦ none | some (before, after) ↦ some (c ∷ before, after) ]

pub split_once-append :
    (sep : ℕ) (before after : List ℕ)
    → all (λ c. not (c == sep)) before ≡ true
    → split_once sep (before ++ sep ∷ after) ≡ some (before, after)
unfolding split_once
split_once-append sep [] after h = ground arith
split_once-append sep (c ∷ before) after h = ground (arith, split_once-append sep before after)

pub no_colon : (cs : List ℕ) → all is_digit cs ≡ true → all (λ c. not (c == b':')) cs ≡ true
no_colon [] h = refl
no_colon (c ∷ cs) h = ground (arith, no_colon cs)

pub split_once_injective :
    (sep : ℕ) (before before' after after' : List ℕ)
    → all (λ c. not (c == sep)) before ≡ true
    → all (λ c. not (c == sep)) before' ≡ true
    → before ++ sep ∷ after ≡ before' ++ sep ∷ after'
    → (before ≡ before') × (after ≡ after')
split_once_injective sep before before' after after' h h' e =
    let same : (before, after) ≡ (before', after') = some_injective (
      sym (split_once-append sep before after h)
      ∙ ap (split_once sep) e
      ∙ split_once-append sep before' after' h') in
    (ap (λ p. p.0) same, ap (λ p. p.1) same)
