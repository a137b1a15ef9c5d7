-- ===== src/Prelude/Keys.antt =====
-- Decisions for the keys of the source's maps: strings, and byte arrays as lists of numbers.
use Prim.Native.Nat.{ℕ}
use Prim.Native.String.{String}
use mathlib.Core.Path.{◌≡◌, sym, ◌∙◌}
use mathlib.Core.Logic.{◌↔◌, ◌≢◌}
use mathlib.Core.Bool.{Bool, true, false, false≢true}
use mathlib.Core.List.{List}
use native.Mathlib.Decide.{ℕ_discrete}
use text.Mathlib.Text.{◌==◌}
use text.Mathlib.TextEquality.{eq_iff}

abbrev dec_by_test : {P : Type 0} (b : Bool) → ((b ≡ true) ↔ P) → Dec P
dec_by_test true h = yes (h.0 (λ i. true))
dec_by_test false h = no (λ p. false≢true (h.1 p))

unfoldable pub string_discrete : Discrete String
string_discrete s t = dec_by_test (s == t) (eq_iff s t)

-- A byte array, as the list of its bytes.
abbrev pub Bytes : Type 0
Bytes = List ℕ

unfoldable pub bytes_discrete : Discrete Bytes
unfolding ℕ_discrete
bytes_discrete = hlevel ℕ_discrete

-- Two texts that the test tells apart.
pub string_apart : (s t : String) → (s == t) ≡ false → s ≢ t
string_apart s t h e = false≢true (sym h ∙ (eq_iff s t).1 e)
