-- ===== src/Base/Text.antt =====
-- A string of the program: its UTF-16 code units.
use Prim.Native.Char.{code}
use Prim.Native.Nat.{ℕ}
use Prim.Native.String.{String}
use mathlib.Core.List.{List, [], ◌∷◌}
use mathlib.Core.Option.{Option}
use native.Mathlib.Decide.{ℕ_discrete}

abbrev pub JsString : Type 0
JsString = List ℕ

-- The code units of a literal below U+10000.
abbrev pub str : String → JsString
str String.[] = []
str (String.◌∷◌ c s) = code c ∷ str s

-- `s1 === s2`
unfoldable pub string_discrete : Discrete JsString
unfolding ℕ_discrete
string_discrete = hlevel ℕ_discrete

unfoldable pub key_discrete : Discrete (Option JsString)
unfolding string_discrete
key_discrete = hlevel string_discrete
