-- ===== src/Chart/Encoding.antt =====
-- For the runs of the code of coingecko_market_chart: a way to write maps of strings and to read them
-- back, which stands for `json.Marshal` and `json.Unmarshal`.
use Prim.Native.Char.{Char, code}
use market_proxy.Prelude.{String, ◌≡◌, refl, ap, ◌∙◌, nat_eq, ◌==◌, List, [], ◌∷◌, if◌then◌else◌}
use market_proxy.Prelude.Maps.{Map}

-- A string is each of its characters behind a 1, and a 0.
abbrev write_string : String → String → String
write_string String.[] rest = String.◌∷◌ "0" rest
write_string (String.◌∷◌ c s) rest = String.◌∷◌ "1" (String.◌∷◌ c (write_string s rest))

abbrev pub write_map : Map String String → String
write_map [] = ""
write_map ((key, value) ∷ m) = write_string key (write_string value (write_map m))

abbrev before_first : Char → List String → List String
before_first c [] = String.◌∷◌ c "" ∷ []
before_first c (s ∷ ss) = String.◌∷◌ c s ∷ ss

abbrev strings : String → List String
strings String.[] = []
strings (String.◌∷◌ mark String.[]) = "" ∷ []
strings (String.◌∷◌ mark (String.◌∷◌ c s)) =
    let inside = before_first c (strings s) in
    let behind = strings (String.◌∷◌ c s) in if code mark == 49 then inside else "" ∷ behind

strings-write_string : (s rest : String) → strings (write_string s rest) ≡ s ∷ strings rest
strings-write_string String.[] String.[] = refl
strings-write_string String.[] (String.◌∷◌ c rest) = refl
strings-write_string (String.◌∷◌ c s) rest = ap (before_first c) (strings-write_string s rest)

abbrev pairs : List String → Map String String
pairs [] = []
pairs (key ∷ []) = []
pairs (key ∷ (value ∷ ss)) = (key, value) ∷ pairs ss

abbrev pub read_map : String → Map String String
read_map s = pairs (strings s)

pub read_map-write_map : (m : Map String String) → read_map (write_map m) ≡ m
read_map-write_map [] = refl
read_map-write_map ((key, value) ∷ m) =
    ap pairs (
      strings-write_string key (write_string value (write_map m))
      ∙ ap (λ ss. key ∷ ss) (strings-write_string value (write_map m)))
    ∙ ap (λ rest. (key, value) ∷ rest) (read_map-write_map m)
