-- ===== src/Tokens/Examples.antt =====
-- Two tokens, of which one has an address on a supported platform.
use market_proxy.Prelude.{String, ◌≡◌, ◌↔◌, [], ◌∷◌, In}
use market_proxy.Prelude.{string_eq}
use market_proxy.Tokens.{Token, filter_tokens_by_platform}
use market_proxy.Tokens.Kept.{IsSupported, narrowed, filter_tokens_by_platform_iff}

abbrev tether : Token
tether = record {
  id = "tether";
  symbol = "usdt";
  name = "Tether";
  platforms = ("ethereum", "0xda") ∷ ("tron", "TR7") ∷ [];
}

abbrev bitcoin : Token
bitcoin = record { id = "bitcoin"; symbol = "btc"; name = "Bitcoin"; platforms = [] }

abbrev on_tron : String × String
on_tron = ("tron", "TR7")

filter_tokens_by_platform_iff_example :
    (In tether (filter_tokens_by_platform ("ethereum" ∷ []) (tether ∷ bitcoin ∷ [])) ↔ (
      (t' : Token) × In t' (tether ∷ bitcoin ∷ [])
      × IsSupported ("ethereum" ∷ []) t'
      × (narrowed ("ethereum" ∷ []) t' ≡ tether)))
    × (In on_tron (narrowed ("ethereum" ∷ []) tether).platforms
        ↔ (In on_tron tether.platforms × In on_tron.0 ("ethereum" ∷ [])))
filter_tokens_by_platform_iff_example =
    filter_tokens_by_platform_iff ("ethereum" ∷ []) (tether ∷ bitcoin ∷ []) tether on_tron
