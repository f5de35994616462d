-- ===== src/Base/Text.antt =====
-- Texts: `strings.Contains`, and the decision whether two are one.
use mathlib.Core.Bool.{Bool, true, false}
use mathlib.Core.Option.{none, some}
use Prim.Native.String.{String}
use text.Mathlib.Text.{find?, ◌==◌ as str_eq}
use text.Mathlib.TextEquality.{eq_iff}
use native.Mathlib.Omega.{arith}
use mathlib.Core.Logic.{inl, inr}
use lorenzo_btcstaking_submi.Base.Tests.{Bool-cases}

-- Whether the part is in the text.
unfoldable pub contains : String → String → Bool
contains s part = elim (find? s part) [ none ↦ false | some _ ↦ true ]

pub String-discrete : Discrete String
String-discrete a b = elim (Bool-cases (str_eq a b)) [
  | inl same ↦ yes ((eq_iff a b).0 same)
  | inr other ↦ no (λ e. ground (arith, (eq_iff a b).1 e, other))
]
