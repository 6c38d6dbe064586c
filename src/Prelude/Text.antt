-- ===== src/Prelude/Text.antt =====
-- Python's `str.strip`, and the truth value of a text.
use Prim.Native.Nat.{ℕ}
use Prim.Native.Char.{Char, code}
use Prim.Native.String.{String}
use mathlib.Core.Bool.{Bool, true, false, ◌&&◌, ◌||◌}
use mathlib.Core.Option.{Option, none, some}
use ihms_oms.Prelude.Tests.{nat_beq, leb, if◌then◌else◌}

-- `bool(s)`
abbrev pub truthy : String → Bool
truthy String.[] = false
truthy (String.◌∷◌ _ _) = true

-- `bool(o)` where `o` is a text or `None`.
abbrev pub truthy? : Option String → Bool
truthy? none = false
truthy? (some s) = truthy s

-- `a or b` for texts, and for a text that may be `None`.
abbrev pub or_else : String → String → String
or_else a b = if truthy a then a else b

abbrev pub or_else? : Option String → Option String → Option String
or_else? a b = if truthy? a then a else b

abbrev between : ℕ → ℕ → ℕ → Bool
between lo hi c = leb lo c && leb c hi

-- `str.isspace` for one character.
is_space : ℕ → Bool
is_space c =
    between 9 13 c
    || between 28 32 c
    || nat_beq c 133
    || nat_beq c 160
    || nat_beq c 5760
    || between 8192 8202 c
    || between 8232 8233 c
    || nat_beq c 8239
    || nat_beq c 8287
    || nat_beq c 12288

lstrip : String → String
lstrip String.[] = String.[]
lstrip (String.◌∷◌ c s) = if is_space (code c) then lstrip s else String.◌∷◌ c s

rstrip_onto : Char → String → String
rstrip_onto c String.[] = if is_space (code c) then String.[] else String.◌∷◌ c String.[]
rstrip_onto c (String.◌∷◌ d s) = String.◌∷◌ c (String.◌∷◌ d s)

rstrip : String → String
rstrip String.[] = String.[]
rstrip (String.◌∷◌ c s) = rstrip_onto c (rstrip s)

unfoldable pub strip : String → String
unfolding lstrip rstrip rstrip_onto is_space
strip s = rstrip (lstrip s)
