-- ===== src/Prelude/Strip.antt =====
-- Python's `str.strip()`.
use Prim.Native.Char.{code}
use Prim.Native.String.{String, ◌∷◌ as ◌before◌}
use text.Mathlib.Text.{◌==◌ as str_eq}
use Prim.Native.Nat.{ℕ}
use mathlib.Core.Bool.{Bool, ◌&&◌, ◌||◌}
use my_mtlwallet_bot.Prelude.Tests.{◌==◌, leb, if◌then◌else◌}

-- `str.isspace` of one character.
abbrev within : ℕ → ℕ → ℕ → Bool
within lo hi c = leb lo c && leb c hi

abbrev is_space : ℕ → Bool
is_space c =
    within 9 13 c
    || within 28 32 c
    || c == 0x85
    || c == 0xA0
    || c == 0x1680
    || within 0x2000 0x200A c
    || c == 0x2028
    || c == 0x2029
    || c == 0x202F
    || c == 0x205F
    || c == 0x3000

abbrev pub lstrip : String → String
lstrip String.[] = ""
lstrip (String.◌∷◌ c s) = let rest = lstrip s in if is_space (code c) then rest else c before s

abbrev pub rstrip : String → String
rstrip String.[] = ""
rstrip (String.◌∷◌ c s) =
    let rest = rstrip s in if str_eq rest "" && is_space (code c) then "" else c before rest

abbrev pub strip : String → String
strip s = rstrip (lstrip s)
