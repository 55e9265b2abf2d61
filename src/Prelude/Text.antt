-- ===== src/Prelude/Text.antt =====
-- Texts that the program takes apart, as lists of code points, and the functions of `strings`, `fmt`
-- and `errors` that it uses on them.
use Prim.Native.Nat.{ℕ, zero, suc, ◌+◌, ◌/◌, ◌%◌}
use Prim.Native.Char.{code}
use Prim.Native.String.{String}
use mathlib.Core.List.{List, [], ◌∷◌, reverse}
use mathlib.Core.Option.{Option, none, some}
use kubesim.Prelude.Tests.{◌==◌, if◌then◌else◌}
use kubesim.Prelude.Int.{ℤ, pos, negsuc}

abbrev pub Text : Type 0
Text = List ℕ

abbrev pub codes : String → Text
codes String.[] = []
codes (String.◌∷◌ c s) = code c ∷ codes s

-- `strings.Split(s, "\n")[0]`
unfoldable pub first_line : Text → Text
first_line [] = []
first_line (c ∷ cs) = let rest = first_line cs in if c == 10 then [] else c ∷ rest

-- `strings.Index(s, sep)` for a one-byte `sep`; `none` is -1.
unfoldable pub index : ℕ → Text → Option ℕ
index sep [] = none
index sep (c ∷ cs) =
    let rest : Option ℕ = elim (index sep cs) [ none ↦ none | some i ↦ some (suc i) ] in
    if c == sep then some 0 else rest

unfoldable pub trim_left : ℕ → Text → Text
trim_left ch [] = []
trim_left ch (c ∷ cs) = let rest = trim_left ch cs in if c == ch then rest else c ∷ cs

-- `strings.Trim(s, " ")`
unfoldable pub trim : ℕ → Text → Text
unfolding trim_left
trim ch s = reverse (trim_left ch (reverse (trim_left ch s)))

unfoldable pub digits_loop : ℕ → ℕ → Text → Text
digits_loop zero n acc = acc
digits_loop (suc fuel) n acc =
    let more = digits_loop fuel (n / 10) ((48 + n % 10) ∷ acc) in
    if n / 10 == 0 then (48 + n % 10) ∷ acc else more

-- `fmt.Sprintf("%v", v)` of an integer; n + 1 rounds are enough for the digits of n.
unfoldable pub sprint : ℤ → Text
unfolding digits_loop
sprint (pos n) = digits_loop (suc n) n []
sprint (negsuc n) = 45 ∷ digits_loop (suc (suc n)) (suc n) []

-- `errors.New(m)` and `fmt.Errorf(m + ": %v", err)`; `client` is an error of a clientset or a decoder.
pub data Error : Type 0 where
  client : Error
  message : String → Error
  wrapped : String → Error → Error
