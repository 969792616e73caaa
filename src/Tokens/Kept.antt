-- ===== src/Tokens/Kept.antt =====
-- Which tokens coingecko_tokens/utils.go keeps, and how it counts them.
use market_proxy.Prelude.{
  ℕ, ◌+◌, String, ◌≡◌, ◌≢◌, ◌⊎◌, inl, inr, ◌↔◌, refl, sym, ap, ◌∙◌, Bool, true, false, ◌||◌, not,
  List, [], ◌∷◌, ◌==◌, nat_eq, string_eq, if◌then◌else◌, Bool-cases, length, In, All, arith,
}
use market_proxy.Prelude.Maps.{Map, lookup, insert, lookup-insert, IsGoMap}
use market_proxy.Prelude.Sets.{is_in, is_in_iff}
use market_proxy.Tokens.{
  Token, filtered_platforms, is_kept, filter_tokens_by_platform, counted, count_platforms,
  count_tokens_by_platform,
}

-- Is there an address of the token on the platform?
abbrev has_platform : String → Map String String → Bool
has_platform p [] = false
has_platform p ((q, address) ∷ platforms) = let rest = has_platform p platforms in q == p || rest

-- The number of tokens with an address on the platform.
abbrev number_on : String → List Token → ℕ
number_on p [] = 0
number_on p (t ∷ tokens) = (if has_platform p t.platforms then 1 else 0) + number_on p tokens

absent_platform :
    (p : String) (m : Map String String)
    → All (λ (b : String × String). p ≢ b.0) m
    → has_platform p m ≡ false
absent_platform p [] h = refl
absent_platform p ((q, a) ∷ m) h = elim (Bool-cases (q == p)) [
  | inl e ↦ absurd (h.0 (sym ((string_eq.same_iff q p).0 e)))
  | inr e ↦ rw e (absent_platform p m h.1)
]

counts_of :
    (p : String) (counts : Map String ℕ) (m : Map String String)
    → IsGoMap m
    → counted (lookup p (count_platforms counts m))
      ≡ counted (lookup p counts) + (if has_platform p m then 1 else 0)
unfolding count_platforms
counts_of p counts [] g = omega arith
counts_of p counts ((q, a) ∷ m) g =
    let next = insert q (counted (lookup q counts) + 1) counts in
    let ih = counts_of p next m g.1 in
    let new = lookup-insert q p (counted (lookup q counts) + 1) counts in
    elim (Bool-cases (q == p)) [
      | inl e ↦
          let same = (string_eq.same_iff q p).0 e in
          let none_left : has_platform p m ≡ false =
            ap (λ x. has_platform x m) (sym same) ∙ absent_platform q m g.0 in
          rw e (ih ∙ rw (new, e, none_left, same) (omega arith))
      | inr e ↦ rw e (ih ∙ rw (new, e) refl)
    ]

counts_from :
    (p : String) (counts : Map String ℕ) (tokens : List Token)
    → All (λ (t : Token). IsGoMap t.platforms) tokens
    → counted (lookup p (count_tokens_by_platform counts tokens))
      ≡ counted (lookup p counts) + number_on p tokens
unfolding count_tokens_by_platform
counts_from p counts [] g = omega arith
counts_from p counts (t ∷ tokens) g =
    counts_from p (count_platforms counts t.platforms) tokens g.1
    ∙ rw (counts_of p counts t.platforms g.0) (omega arith)

-- Platforms are counted with the number of tokens that have an address there.
count_tokens_by_platform_lem :
    (p : String) (tokens : List Token)
    → All (λ (t : Token). IsGoMap t.platforms) tokens
    → counted (lookup p (count_tokens_by_platform [] tokens)) ≡ number_on p tokens
unfolding lookup
count_tokens_by_platform_lem p tokens g = counts_from p [] tokens g ∙ omega arith

In-filtered_platforms :
    (supported : List String) (entry : String × String) (m : Map String String)
    → In entry (filtered_platforms supported m) ↔ (In entry m × In entry.0 supported)
unfolding filtered_platforms
In-filtered_platforms supported entry [] = ((λ h. absurd h), (λ h. h.0))
In-filtered_platforms supported entry ((q, a) ∷ m) =
    let ih = In-filtered_platforms supported entry m in
    elim (Bool-cases (is_in q supported)) [
      | inl e ↦ rw e (
        (λ h. elim h [
          | inl s ↦ (
            inl s,
            (is_in_iff entry.0 supported).0
                (ap (λ (r : String × String). is_in r.0 supported) (sym s) ∙ e),
          )
          | inr i ↦ (let r = ih.0 i in (inr r.0, r.1))
        ]),
        (λ h. elim h.0 [ inl s ↦ inl s | inr i ↦ inr (ih.1 (i, h.1)) ]),
      )
      | inr e ↦ rw e (
        (λ h. let r = ih.0 h in (inr r.0, r.1)),
        (λ h. elim h.0 [
          | inl s ↦ absurd (
              let y = (is_in_iff entry.0 supported).1 h.1 in
              let n : is_in entry.0 supported ≡ false =
                ap (λ (r : String × String). is_in r.0 supported) (sym s) ∙ e in
              cc)
          | inr i ↦ ih.1 (i, h.1)
        ]),
      )
    ]

nonempty_iff :
    (m : Map String String)
    → (not (length m == 0) ≡ true) ↔ ((entry : String × String) × In entry m)
nonempty_iff [] = ((λ e. absurd cc), (λ h. absurd (let (entry, i) = h in i)))
nonempty_iff (entry ∷ m) = ((λ e. (entry, inl refl)), (λ h. ground arith))

-- The token is a platform itself, or has an address on a platform that is supported.
abbrev pub IsSupported : List String → Token → Type 0
IsSupported supported t =
    In t.id supported ⊎ ((entry : String × String) × In entry t.platforms × In entry.0 supported)

is_kept_iff :
    (supported : List String) (t : Token) → (is_kept supported t ≡ true) ↔ IsSupported supported t
is_kept_iff supported t =
    let native = is_in_iff t.id supported in
    let some_left = nonempty_iff (filtered_platforms supported t.platforms) in
    elim (Bool-cases (is_in t.id supported)) [
      | inl e ↦ ((λ h. inl (native.0 e)), (λ h. rw e refl))
      | inr e ↦ rw e (
        (λ h.
            let (entry, i) = some_left.0 h in
            let r = (In-filtered_platforms supported entry t.platforms).0 i in
            inr (entry, r.0, r.1)),
        (λ h. elim h [
          | inl i ↦ absurd (let y = native.1 i in cc)
          | inr v ↦
              let (entry, i, j) = v in
              some_left.1 (entry, (In-filtered_platforms supported entry t.platforms).1 (i, j))
        ]),
      )
    ]

abbrev pub narrowed : List String → Token → Token
narrowed supported t = record t { platforms = filtered_platforms supported t.platforms }

-- The tokens that are kept are those that are a supported platform or have an address on one, with
-- their addresses on supported platforms, which are exactly these.
pub filter_tokens_by_platform_iff :
    (supported : List String) (tokens : List Token) (t : Token) (entry : String × String)
    → (In t (filter_tokens_by_platform supported tokens)
        ↔ ((t' : Token) × In t' tokens × IsSupported supported t' × (narrowed supported t' ≡ t)))
      × (In entry (narrowed supported t).platforms ↔ (In entry t.platforms × In entry.0 supported))
unfolding filter_tokens_by_platform
filter_tokens_by_platform_iff supported [] t entry = (
  ((λ h. absurd h), (λ h. absurd (let (t', i, s, e) = h in i))),
  In-filtered_platforms supported entry t.platforms,
)
filter_tokens_by_platform_iff supported (first ∷ tokens) t entry =
    let ih = (filter_tokens_by_platform_iff supported tokens t entry).0 in
    let kept = is_kept_iff supported first in
    (
      elim (Bool-cases (is_kept supported first)) [
        | inl e ↦ rw e (
          (λ h. elim h [
            | inl s ↦ (first, inl refl, kept.0 e, s)
            | inr i ↦ (let (t', j, k, s) = ih.0 i in (t', inr j, k, s))
          ]),
          (λ h.
              let (t', j, k, s) = h in
              elim j [
                | inl f ↦ inl (ap (narrowed supported) f ∙ s)
                | inr i ↦ inr (ih.1 (t', i, k, s))
              ]),
        )
        | inr e ↦ rw e (
          (λ h. let (t', j, k, s) = ih.0 h in (t', inr j, k, s)),
          (λ h.
              let (t', j, k, s) = h in
              elim j [
                | inl f ↦ absurd (
                    let y = (is_kept_iff supported t').1 k in
                    let n : is_kept supported t' ≡ false = ap (is_kept supported) (sym f) ∙ e in cc)
                | inr i ↦ ih.1 (t', i, k, s)
              ]),
        )
      ],
      In-filtered_platforms supported entry t.platforms,
    )
