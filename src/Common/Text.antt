-- ===== src/Common/Text.antt =====
-- Text as its code units, where the program looks inside it.
pub mod Split
use Prim.Native.Char.{code}
use Prim.Native.String
use Prim.Native.Nat.{ℕ}
use mathlib.Core.Bool.{Bool, true, false, ◌&&◌, ◌||◌}
use mathlib.Core.Option.{Option, none, some}
use mathlib.Core.List.{List, [], ◌∷◌, ◌++◌}
use athena_flow_cli.Common.Tests.{if◌then◌else◌, leb, ◌==◌, nat_eq}

abbrev pub Text : Type 0
Text = List ℕ

abbrev pub codes : String.String → Text
codes String.[] = []
codes (String.◌∷◌ c s) = code c ∷ codes s

abbrev pub same_text : Text → Text → Bool
same_text [] [] = true
same_text (a ∷ s) (b ∷ t) = (a == b) && same_text s t
same_text _ _ = false

-- `s.startsWith(p)`
abbrev pub text_starts_with : Text → Text → Bool
text_starts_with s [] = true
text_starts_with [] (b ∷ p) = false
text_starts_with (a ∷ s) (b ∷ p) = (a == b) && text_starts_with s p

-- `s.includes(p)`
abbrev pub includes : Text → Text → Bool
includes [] p = text_starts_with [] p
includes (a ∷ s) p = text_starts_with (a ∷ s) p || includes s p

-- What `trim` removes: white space and line terminators.
abbrev pub is_space : ℕ → Bool
is_space c =
    leb 9 c && leb c 13
    || (c == 32)
    || (c == 160)
    || (c == 5760)
    || leb 8192 c && leb c 8202
    || (c == 8232)
    || (c == 8233)
    || (c == 8239)
    || (c == 8287)
    || (c == 12288)
    || (c == 65279)

abbrev pub trim_start : Text → Text
trim_start [] = []
trim_start (c ∷ s) = let rest = trim_start s in if is_space c then rest else c ∷ s

abbrev pub cons_end : ℕ → Text → Text
cons_end c [] = if is_space c then [] else c ∷ []
cons_end c (d ∷ t) = c ∷ d ∷ t

abbrev pub trim_end : Text → Text
trim_end [] = []
trim_end (c ∷ s) = cons_end c (trim_end s)

abbrev pub cons_head : ℕ → List Text → List Text
cons_head c [] = (c ∷ []) ∷ []
cons_head c (l ∷ ls) = (c ∷ l) ∷ ls

-- `s.split('\n')`
abbrev pub lines : Text → List Text
lines [] = [] ∷ []
lines (c ∷ s) = let rest = lines s in if c == 10 then [] ∷ rest else cons_head c rest

abbrev pub last {ℓ} : {A : Type ℓ} → List A → Option A
last [] = none
last (x ∷ []) = some x
last (x ∷ y ∷ xs) = last (y ∷ xs)

-- `arg.slice(prefix.length)` where `arg.startsWith(prefix)`
abbrev pub after_prefix : Text → Text → Option Text
after_prefix [] s = some s
after_prefix (c ∷ p) [] = none
after_prefix (c ∷ p) (d ∷ s) = if d == c then after_prefix p s else none

-- `parts.join('')`, and `Buffer.concat`
abbrev pub concat : List Text → Text
concat [] = []
concat (c ∷ cs) = c ++ concat cs
