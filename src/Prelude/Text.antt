-- ===== src/Prelude/Text.antt =====
-- Go strings: concatenation and the prefix tests of package strings, over native texts.
use Prim.Native.Char.{code}
use Prim.Native.Nat.{ℕ, ◌+◌}
use Prim.Native.String.{String}
use mathlib.Core.Path.{◌≡◌, refl}
use mathlib.Core.Bool.{Bool, true, false, ◌||◌}
use mathlib.Core.Option.{Option, none, some}
use native.Mathlib.Omega.{arith}
use market_proxy.Prelude.Tests.{ltb, nat_beq, nat_beq_iff, string_eq, if◌then◌else◌}

-- `len`: the bytes of a text in UTF-8.
abbrev char_bytes : ℕ → ℕ
char_bytes c = if ltb c 128 then 1 else if ltb c 2048 then 2 else if ltb c 65536 then 3 else 4

abbrev pub byte_len : String → ℕ
byte_len String.[] = 0
byte_len (String.◌∷◌ c s) = char_bytes (code c) + byte_len s

-- s + t
abbrev pub concat : String → String → String
concat String.[] t = t
concat (String.◌∷◌ c s) t = String.◌∷◌ c (concat s t)

-- The rest of `s` behind the prefix `p`, where `s` begins with `p`.
abbrev pub cut_prefix : String → String → Option String
cut_prefix String.[] s = some s
cut_prefix (String.◌∷◌ c p) String.[] = none
cut_prefix (String.◌∷◌ c p) (String.◌∷◌ d s) =
    let rest = cut_prefix p s in if nat_beq (code c) (code d) then rest else none

pub cut_prefix-concat : (p s : String) → cut_prefix p (concat p s) ≡ some s
cut_prefix-concat String.[] s = refl
cut_prefix-concat (String.◌∷◌ c p) s =
    ground (arith, cut_prefix-concat p s, nat_beq_iff (code c) (code c))

abbrev is_some : Option String → Bool
is_some none = false
is_some (some s) = true

-- `strings.Contains`
unfoldable pub contains : String → String → Bool
contains String.[] sub = is_some (cut_prefix sub String.[])
contains (String.◌∷◌ c s) sub = is_some (cut_prefix sub (String.◌∷◌ c s)) || contains s sub
