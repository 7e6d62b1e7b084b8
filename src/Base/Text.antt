-- ===== src/Base/Text.antt =====
-- What the sources use of Go's `strings`: texts are sequences of code points.
use Prim.Native.Nat.{ℕ}
use Prim.Native.Char.{Char, code}
use Prim.Native.String.{String, ◌++◌ as ◌⧺◌}
use mathlib.Core.Path.{◌≡◌, refl}
use mathlib.Core.List.{List, [], ◌∷◌}
use mathlib.Core.Bool.{Bool, ◌&&◌, ◌||◌}
use native.Mathlib.Omega.{arith}
use text.Mathlib.Text.{◌==◌}
use text.Mathlib.TextEquality.{eq_iff}
use ufo_observation_command.Base.Tests.{leb, ◌==ℕ◌, if◌then◌else◌}

-- `unicode.IsSpace`.
unfoldable pub is_space : Char → Bool
is_space ch =
    let c : ℕ = code ch in
    (leb 9 c && leb c 13)
    || c ==ℕ 32
    || c ==ℕ 0x85
    || c ==ℕ 0xa0
    || c ==ℕ 0x1680
    || (leb 0x2000 c && leb c 0x200a)
    || c ==ℕ 0x2028
    || c ==ℕ 0x2029
    || c ==ℕ 0x202f
    || c ==ℕ 0x205f
    || c ==ℕ 0x3000

trim_left : String → String
trim_left String.[] = String.[]
trim_left (String.◌∷◌ c s) = let rest = trim_left s in if is_space c then rest else String.◌∷◌ c s

trim_right : String → String
trim_right String.[] = String.[]
trim_right (String.◌∷◌ c s) =
    let rest = trim_right s in if rest == "" && is_space c then "" else String.◌∷◌ c rest

-- `strings.TrimSpace`.
unfoldable pub trim_space : String → String
unfolding trim_left trim_right is_space
trim_space s = trim_right (trim_left s)

pub eq_comm : (s t : String) → (s == t) ≡ (t == s)
eq_comm s t = ground (arith, eq_iff s t, eq_iff t s)

-- `strings.Join(parts, "\x00")`.
unfoldable pub nul : String
nul = "\0"

unfoldable pub join_nul : List String → String
unfolding nul
join_nul [] = ""
join_nul (part ∷ []) = part
join_nul (part ∷ next ∷ rest) = part ⧺ (nul ⧺ join_nul (next ∷ rest))

blank : trim_space " \t\n" ≡ ""
unfolding trim_space
blank = refl

trimmed : trim_space "  a b " ≡ "a b"
unfolding trim_space
trimmed = refl

nul_len : Prim.Native.String.len nul ≡ 1
unfolding nul
nul_len = refl
