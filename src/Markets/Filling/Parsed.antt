-- ===== src/Markets/Filling/Parsed.antt =====
-- The entries that coingecko_markets/cache_utils.go makes of the fetched data.
use market_proxy.Prelude.{
  String, ◌≡◌, ◌≢◌, inl, inr, refl, ap, sym, ◌∙◌, false, Option, none, some, List, [], ◌∷◌, ◌==◌,
  string_eq, if◌then◌else◌, Bool-cases, same-injective,
}
use market_proxy.Prelude.Int.{ℤ}
use market_proxy.Prelude.Maps.{Map, lookup, insert, lookup-insert, IsGoMap, insert-IsGoMap, or_in}
use market_proxy.Prelude.Text.{cut_prefix, cut_prefix-concat}
use market_proxy.Prelude.Errors.{wrapped, Result, ok, err}
use market_proxy.Json.{Json}
use market_proxy.Markets.Data.{PageData, id_of_bytes, extract_token_ids}
use market_proxy.Markets.Keys.{get_cache_key, create_page_cache_key, create_page_ids_cache_key}
use market_proxy.Markets.Reading.Status.{get_cache_key_injective}
use market_proxy.Markets.Filling.{
  put_token, parse_tokens_data, put_ids, put_page_ids, parse_pages_data,
}

pub or_in_assoc : (a b c : Option String) → or_in (or_in a b) c ≡ or_in a (or_in b c)
or_in_assoc none b c = refl
or_in_assoc (some x) b c = refl

-- A key of a page is no key of a token.
page_key_apart : (id : String) (page : ℤ) → create_page_cache_key page ≢ get_cache_key id
unfolding create_page_cache_key get_cache_key
page_key_apart id page e =
    absurd (
      let q : none ≡ some id = ap (cut_prefix "markets:") e ∙ cut_prefix-concat "markets:" id in cc)

page_ids_key_apart : (id : String) (page : ℤ) → create_page_ids_cache_key page ≢ get_cache_key id
unfolding create_page_ids_cache_key get_cache_key
page_ids_key_apart id page e =
    absurd (
      let q : none ≡ some id = ap (cut_prefix "markets:") e ∙ cut_prefix-concat "markets:" id in cc)

apart-test : (a b : String) → a ≢ b → (a == b) ≡ false
apart-test a b n = elim (Bool-cases (a == b)) [
  | inl e ↦ absurd (n ((string_eq.same_iff a b).0 e))
  | inr e ↦ e
]

module _ {F : Type 0} (unmarshal : String → Option (Json F)) where
  abbrev pub if_own : String → String → Option String → Option String
  if_own id token_bytes none = none
  if_own id token_bytes (some own) = if own == id then some token_bytes else none

  -- The last of the tokens that has the id.
  abbrev pub newest : String → List String → Option String
  newest id [] = none
  newest id (token_bytes ∷ rest) =
      or_in (newest id rest) (if_own id token_bytes (id_of_bytes unmarshal token_bytes))

  abbrev pub newest_in_pages : String → List PageData → Option String
  newest_in_pages id [] = none
  newest_in_pages id (p ∷ pages) = or_in (newest_in_pages id pages) (newest id p.items)

  lookup-put_token :
      (id token_bytes : String) (o : Option String) (acc : Map String String)
      → lookup (get_cache_key id) (put_token unmarshal o token_bytes acc)
        ≡ or_in (if_own id token_bytes o) (lookup (get_cache_key id) acc)
  lookup-put_token id token_bytes none acc = refl
  lookup-put_token id token_bytes (some own) acc =
      lookup-insert (get_cache_key own) (get_cache_key id) token_bytes acc
      ∙ rw (same-injective get_cache_key get_cache_key_injective own id)
          (elim (Bool-cases (own == id)) [ inl e ↦ rw e refl | inr e ↦ rw e refl ])

  pub lookup-parse_tokens_data :
      (id : String) (items : List String) (acc : Map String String)
      → lookup (get_cache_key id) (parse_tokens_data unmarshal items acc)
        ≡ or_in (newest id items) (lookup (get_cache_key id) acc)
  unfolding parse_tokens_data
  lookup-parse_tokens_data id [] acc = refl
  lookup-parse_tokens_data id (b ∷ items) acc =
      lookup-parse_tokens_data id items (put_token unmarshal (id_of_bytes unmarshal b) b acc)
      ∙ ap (or_in (newest id items)) (lookup-put_token id b (id_of_bytes unmarshal b) acc)
      ∙ sym (
          or_in_assoc (newest id items) (if_own id b (id_of_bytes unmarshal b))
            (lookup (get_cache_key id) acc))

  put_token-IsGoMap :
      (o : Option String) (b : String) (acc : Map String String)
      → IsGoMap acc
      → IsGoMap (put_token unmarshal o b acc)
  put_token-IsGoMap none b acc h = h
  put_token-IsGoMap (some id) b acc h = insert-IsGoMap (get_cache_key id) b acc h

  pub parse_tokens_data-IsGoMap :
      (items : List String) (acc : Map String String)
      → IsGoMap acc
      → IsGoMap (parse_tokens_data unmarshal items acc)
  unfolding parse_tokens_data
  parse_tokens_data-IsGoMap [] acc h = h
  parse_tokens_data-IsGoMap (b ∷ items) acc h =
      parse_tokens_data-IsGoMap items (put_token unmarshal (id_of_bytes unmarshal b) b acc)
        (put_token-IsGoMap (id_of_bytes unmarshal b) b acc h)

module _ {F : Type 0} (unmarshal : String → Option (Json F))
    (marshal marshal_ids : List String → Result String) where
  put_page_ids-lookup :
      (id : String) (page : ℤ) (ids : List String) (acc : Map String String)
      → lookup (get_cache_key id) (put_page_ids unmarshal marshal marshal_ids page ids acc)
        ≡ lookup (get_cache_key id) acc
  put_page_ids-lookup id page [] acc = refl
  put_page_ids-lookup id page (i ∷ ids) acc = put (marshal_ids (i ∷ ids))
    where
      put :
          (r : Result String)
          → lookup (get_cache_key id) (put_ids unmarshal marshal marshal_ids page r acc)
            ≡ lookup (get_cache_key id) acc
      put (err e) = refl
      put (ok b) =
          lookup-insert (create_page_ids_cache_key page) (get_cache_key id) b acc
          ∙ rw
              (apart-test (create_page_ids_cache_key page) (get_cache_key id)
                (page_ids_key_apart id page))
              refl

  put_page_ids-IsGoMap :
      (page : ℤ) (ids : List String) (acc : Map String String)
      → IsGoMap acc
      → IsGoMap (put_page_ids unmarshal marshal marshal_ids page ids acc)
  put_page_ids-IsGoMap page [] acc h = h
  put_page_ids-IsGoMap page (i ∷ ids) acc h = put (marshal_ids (i ∷ ids))
    where
      put : (r : Result String) → IsGoMap (put_ids unmarshal marshal marshal_ids page r acc)
      put (err e) = h
      put (ok b) = insert-IsGoMap (create_page_ids_cache_key page) b acc h

  -- Entries that are a Go map and say nothing of a token.
  abbrev pub IsAside : String → Map String String → Result (Map String String) → Type 0
  IsAside id acc (err e) = Unit
  IsAside id acc (ok m) = IsGoMap m × (lookup (get_cache_key id) m ≡ lookup (get_cache_key id) acc)

  pub parse_pages_data-IsAside :
      (id : String) (pages : List PageData) (acc : Map String String)
      → IsGoMap acc
      → IsAside id acc (parse_pages_data unmarshal marshal marshal_ids pages acc)
  unfolding parse_pages_data
  parse_pages_data-IsAside id [] acc h = (h, refl)
  parse_pages_data-IsAside id (p ∷ pages) acc h =
      page (marshal p.items) (λ acc'. parse_pages_data-IsAside id pages acc')
    where
      page :
          (r : Result String)
          → ((acc' : Map String String)
              → IsGoMap acc'
              → IsAside id acc' (parse_pages_data unmarshal marshal marshal_ids pages acc'))
          → IsAside id acc (elim r as (λ x. Result (Map String String)) [
            | err e ↦ err (wrapped "failed to marshal page data" e)
            | ok b ↦ parse_pages_data unmarshal marshal marshal_ids pages (
                put_page_ids unmarshal marshal marshal_ids p.page
                  (extract_token_ids unmarshal p.items)
                  (insert (create_page_cache_key p.page) b acc))
          ])
      page (err e) rest = tt
      page (ok b) rest =
          let with_page = insert (create_page_cache_key p.page) b acc in
          let ids = extract_token_ids unmarshal p.items in
          let acc' = put_page_ids unmarshal marshal marshal_ids p.page ids with_page in
          let same =
            put_page_ids-lookup id p.page ids with_page
            ∙ lookup-insert (create_page_cache_key p.page) (get_cache_key id) b acc
            ∙ rw
                (apart-test (create_page_cache_key p.page) (get_cache_key id)
                  (page_key_apart id p.page))
                refl in
          moved (parse_pages_data unmarshal marshal marshal_ids pages acc') acc' same (
            rest acc' (
              put_page_ids-IsGoMap p.page ids with_page
                (insert-IsGoMap (create_page_cache_key p.page) b acc h)))
        where
          moved :
              (r : Result (Map String String)) (acc' : Map String String)
              → lookup (get_cache_key id) acc' ≡ lookup (get_cache_key id) acc
              → IsAside id acc' r
              → IsAside id acc r
          moved (err e) acc' same x = tt
          moved (ok m) acc' same x = (x.0, x.1 ∙ same)
