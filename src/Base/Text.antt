-- ===== src/Base/Text.antt =====
-- Python's `str.strip` and the order of strings by code points.
use Prim.Native.Nat.{ℕ, zero, suc}
use Prim.Native.Char.{code}
use Prim.Native.String.{String}
use mathlib.Core.Bool.{Bool, true, false, ◌&&◌, ◌||◌}
use localshell_web_superviso.Base.Tests.{ltb, leb, eqb, if◌then◌else◌}
pub use text.Mathlib.Text.{◌==◌}
pub use text.Mathlib.TextEquality.{eq_iff}

-- The code points for which Python's `str.isspace` holds.
is_space : ℕ → Bool
is_space c =
    (leb 9 c && leb c 13)
    || (leb 28 c && leb c 32)
    || eqb c 0x85
    || eqb c 0xa0
    || eqb c 0x1680
    || (leb 0x2000 c && leb c 0x200a)
    || eqb c 0x2028
    || eqb c 0x2029
    || eqb c 0x202f
    || eqb c 0x205f
    || eqb c 0x3000

lstrip : String → String
lstrip String.[] = ""
lstrip (String.◌∷◌ c s) = let rest = lstrip s in if is_space (code c) then rest else String.◌∷◌ c s

-- drops `c` only if nothing but spaces follows it
rstrip_cons : ℕ → String → String → String
rstrip_cons c kept String.[] = if is_space c then "" else kept
rstrip_cons c kept (String.◌∷◌ d s) = kept

rstrip : String → String
rstrip String.[] = ""
rstrip (String.◌∷◌ c s) = let rest = rstrip s in rstrip_cons (code c) (String.◌∷◌ c rest) rest

unfoldable pub strip : String → String
unfolding lstrip rstrip rstrip_cons is_space
strip s = rstrip (lstrip s)

-- `s < t` on strings
unfoldable pub str_ltb : String → String → Bool
str_ltb String.[] String.[] = false
str_ltb String.[] (String.◌∷◌ d t) = true
str_ltb (String.◌∷◌ c s) String.[] = false
str_ltb (String.◌∷◌ c s) (String.◌∷◌ d t) =
    ltb (code c) (code d) || (eqb (code c) (code d) && str_ltb s t)

-- `text[:n]`
unfoldable pub take_text : ℕ → String → String
take_text zero s = ""
take_text (suc n) String.[] = ""
take_text (suc n) (String.◌∷◌ c s) = String.◌∷◌ c (take_text n s)

-- `text.startswith(prefix)`
unfoldable pub starts_with : String → String → Bool
starts_with t String.[] = true
starts_with String.[] (String.◌∷◌ d p) = false
starts_with (String.◌∷◌ c t) (String.◌∷◌ d p) = eqb (code c) (code d) && starts_with t p

-- drops a slash that nothing follows
trim_slash : ℕ → String → String → String
trim_slash c kept String.[] = if eqb c 47 then "" else kept
trim_slash c kept (String.◌∷◌ d s) = kept

-- `text.rstrip("/")`
unfoldable pub rstrip_slash : String → String
unfolding trim_slash
rstrip_slash String.[] = ""
rstrip_slash (String.◌∷◌ c s) =
    let rest = rstrip_slash s in trim_slash (code c) (String.◌∷◌ c rest) rest

-- Python's `str.lower` and `str.casefold`, over all of Unicode
pub record Letters : Type 0 where
  pub lower : String → String
  pub casefold : String → String
