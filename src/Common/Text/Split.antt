-- ===== src/Common/Text/Split.antt =====
-- Text in lines: the complete ones and the rest, and how both grow with the text.
use Prim.Native.Nat.{ℕ}
use mathlib.Core.Path.{◌∙◌, ◌≡◌, refl, ap}
use mathlib.Core.Logic.{inl, inr}
use mathlib.Core.Bool.{false}
use mathlib.Core.List.{List, [], ◌∷◌, ◌++◌}
use athena_flow_cli.Common.Tests.{if◌then◌else◌, ◌==◌, nat_eq, Bool-cases, ==_refl}
use athena_flow_cli.Common.Lists.{All}
use athena_flow_cli.Common.Text.{Text}

abbrev pub newline : ℕ
newline = 10

-- A character in front of the first line.
abbrev pub glue_char : ℕ → List Text → Text → List Text × Text
glue_char c [] rest = ([], c ∷ rest)
glue_char c (l ∷ ls) rest = ((c ∷ l) ∷ ls, rest)

abbrev pub push_char : ℕ → List Text × Text → List Text × Text
push_char c (done, rest) = if c == newline then ([] ∷ done, rest) else glue_char c done rest

-- `s.split('\n')` with its last piece apart, as `pop` takes it
unfoldable pub split_lines : Text → List Text × Text
split_lines [] = ([], [])
split_lines (c ∷ s) = push_char c (split_lines s)

-- What is split, followed by a text.
abbrev pub then_split : List Text × Text → Text → List Text × Text
then_split (done, rest) t = (done ++ (split_lines (rest ++ t)).0, (split_lines (rest ++ t)).1)

push_char-then_split :
    (c : ℕ) (p : List Text × Text) (t : Text)
    → push_char c (then_split p t) ≡ then_split (push_char c p) t
unfolding split_lines
push_char-then_split c (done, rest) t = elim (Bool-cases (c == newline)) [
  | inl e ↦ rw e refl
  | inr e ↦ rw e (glued done e)
]
  where
    glued :
        (done : List Text)
        → (c == newline) ≡ false
        → glue_char c (done ++ (split_lines (rest ++ t)).0) (split_lines (rest ++ t)).1
          ≡ then_split (glue_char c done rest) t
    glued [] e = rw e refl
    glued (l ∷ ls) e = refl

-- Splitting goes on where it stopped.
pub split_lines-append : (s t : Text) → split_lines (s ++ t) ≡ then_split (split_lines s) t
unfolding split_lines
split_lines-append [] t = refl
split_lines-append (c ∷ s) t =
    ap (push_char c) (split_lines-append s t) ∙ push_char-then_split c (split_lines s) t

-- No newline in a text.
abbrev pub Unbroken : Text → Type 0
Unbroken s = All (λ c. (c == newline) ≡ false) s

pub split_lines-Unbroken : (s : Text) → Unbroken s → split_lines s ≡ ([], s)
unfolding split_lines
split_lines-Unbroken [] h = refl
split_lines-Unbroken (c ∷ s) h = rw (split_lines-Unbroken s h.1, h.0) refl

pub split_lines-break :
    (s t : Text)
    → Unbroken s
    → split_lines (s ++ newline ∷ t) ≡ (s ∷ (split_lines t).0, (split_lines t).1)
unfolding split_lines
split_lines-break [] t h = rw (==_refl newline) refl
split_lines-break (c ∷ s) t h = rw (split_lines-break s t h.1, h.0) refl

pub Unbroken-rest : (s : Text) → Unbroken (split_lines s).1
unfolding split_lines
Unbroken-rest [] = tt
Unbroken-rest (c ∷ s) = elim (Bool-cases (c == newline)) [
  | inl e ↦ rw e (Unbroken-rest s)
  | inr e ↦ rw e (glued (split_lines s).0 (split_lines s).1 e (Unbroken-rest s))
]
  where
    glued :
        (done : List Text) (rest : Text)
        → (c == newline) ≡ false
        → Unbroken rest
        → Unbroken (glue_char c done rest).1
    glued [] rest e h = (e, h)
    glued (l ∷ ls) rest e h = h
