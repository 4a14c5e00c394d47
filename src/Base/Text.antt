-- ===== src/Base/Text.antt =====
-- Texts as lists of character codes. Case is that of the letters A to Z, and white space that of
-- ASCII.
use Prim.Native.Nat.{ℕ, ◌+◌, ◌-◌}
use mathlib.Core.Bool.{Bool, true, false, ◌&&◌, ◌||◌}
use mathlib.Core.Option.{Option, none, some}
use mathlib.Core.List.{List, [], ◌∷◌, map}
use mathlib.Core.Path.{◌≡◌, refl, ap₂}
use mathlib.Core.Logic.{inl, inr}
use native.Mathlib.Omega.{arith}
use wusuq_web.Base.Tests.{if◌then◌else◌, ◌==◌, leb, eqb_refl, eq_of_eqb, Bool-cases}

abbrev pub Text : Type 0
Text = List ℕ

abbrev pub lower_char : ℕ → ℕ
lower_char c = if leb 65 c && leb c 90 then c + 32 else c

abbrev pub upper_char : ℕ → ℕ
upper_char c = if leb 97 c && leb c 122 then c - 32 else c

-- `toLowerCase` and `toUpperCase`.
abbrev pub lower : Text → Text
lower text = map lower_char text

abbrev pub upper : Text → Text
upper text = map upper_char text

-- `text.startsWith(part)`.
abbrev pub is_prefix : Text → Text → Bool
is_prefix [] text = true
is_prefix (c ∷ part) [] = false
is_prefix (c ∷ part) (d ∷ text) = if c == d then is_prefix part text else false

-- What follows a prefix.
abbrev pub without_prefix : Text → Text → Option Text
without_prefix [] text = some text
without_prefix (c ∷ part) [] = none
without_prefix (c ∷ part) (d ∷ text) = if c == d then without_prefix part text else none

-- `text.includes(part)`.
abbrev pub includes : Text → Text → Bool
includes part [] = is_prefix part []
includes part (c ∷ text) = let rest = includes part text in is_prefix part (c ∷ text) || rest

-- `a === b`.
abbrev pub same_text : Text → Text → Bool
same_text [] [] = true
same_text (c ∷ s) (d ∷ t) = if c == d then same_text s t else false
same_text _ _ = false

abbrev pub is_space : ℕ → Bool
is_space c = c == 32 || (leb 9 c && leb c 13)

abbrev pub trim_start : Text → Text
trim_start [] = []
trim_start (c ∷ text) = if is_space c then trim_start text else c ∷ text

-- Without the spaces at the end: a space stays only before something that stays.
abbrev before : ℕ → Text → Text
before c [] = if is_space c then [] else c ∷ []
before c (d ∷ text) = c ∷ d ∷ text

abbrev pub trim_end : Text → Text
trim_end [] = []
trim_end (c ∷ text) = before c (trim_end text)

-- `text.trim()`.
abbrev pub trim : Text → Text
trim text = trim_end (trim_start text)

-- `Boolean(text)`: a text that is there and not empty.
abbrev pub given : Option Text → List Text
given none = []
given (some []) = []
given (some (c ∷ text)) = (c ∷ text) ∷ []

pub same_text_refl : (s : Text) → same_text s s ≡ true
same_text_refl [] = refl
same_text_refl (c ∷ s) = rw (eqb_refl c) (same_text_refl s)

pub eq_of_same_text : (s t : Text) → same_text s t ≡ true → s ≡ t
eq_of_same_text [] [] h = refl
eq_of_same_text [] (d ∷ t) h = absurd (ground (arith, h))
eq_of_same_text (c ∷ s) [] h = absurd (ground (arith, h))
eq_of_same_text (c ∷ s) (d ∷ t) h = elim (Bool-cases (c == d)) [
  | inl x ↦ ap₂ (λ c s. c ∷ s) (eq_of_eqb c d x) (eq_of_same_text s t (rw x at h))
  | inr x ↦ absurd (ground (arith, h, x))
]
