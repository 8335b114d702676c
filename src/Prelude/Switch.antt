-- ===== src/Prelude/Switch.antt =====
-- `switch` over texts, and objects indexed by a text.
use Prim.Native.String.{String}
use mathlib.Core.Path.{◌≡◌, sym, ap, ◌∙◌}
use mathlib.Core.Option.{Option, none, some}
use mathlib.Core.List.{List, [], ◌∷◌}
use text.Mathlib.Text.{◌==◌}
use lapor_kos.Prelude.Tests.{if◌then◌else◌}

module _ {ℓ} {A : Type ℓ} where
  -- The cases in turn, and the default.
  abbrev pub switch : String → List (String × A) → A → A
  switch s [] d = d
  switch s ((k, v) ∷ cases) d = if s == k then v else switch s cases d

  -- The same of a text that may be missing.
  abbrev pub switch_option : Option String → List (String × A) → A → A
  switch_option none cases d = d
  switch_option (some s) cases d = switch s cases d

  -- `table[s]` of a plain object with these keys.
  abbrev pub lookup : String → List (String × A) → Option A
  lookup s [] = none
  lookup s ((k, v) ∷ entries) = if s == k then some v else lookup s entries

pub eq_of_some-eq {ℓ} : {A : Type ℓ} {a b : A} → some a ≡ some b → a ≡ b
eq_of_some-eq h = cc

-- A function that can be read back tells its arguments apart.
pub injective_of_read {ℓ κ} :
    {A : Type ℓ} {B : Type κ} (f : A → B) (read : B → Option A)
    → ((a : A) → read (f a) ≡ some a)
    → (a b : A) → f a ≡ f b
    → a ≡ b
injective_of_read f read back a b h = eq_of_some-eq (sym (back a) ∙ ap read h ∙ back b)
