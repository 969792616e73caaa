-- ===== src/Common/Keys/Backoff.antt =====
-- Which keys are offered, and for how long a failed one is not.
use market_proxy.Prelude.{
  ℕ, ◌-◌, String, ◌≡◌, refl, ap, sym, ◌↔◌, ◌⊎◌, inl, inr, false, ◌&&◌, not, List, [], ◌∷◌, ltb,
  ◌==◌, string_eq, if◌then◌else◌, arith, In, In-append_left, In-append_right, In-append_cases,
  length, Bool-cases,
}
use market_proxy.Prelude.Maps.{lookup-insert}
use market_proxy.Common.Keys.{
  KeyType, pro_key, demo_key, ApiKey, ApiKeyManager, is_key_in_backoff, get_keys_of_type,
  rested_keys, available_pro_keys, the_no_key, get_available_keys, mark_key_as_failed,
}

-- What the documentation of `GetAvailableKeys` says of an offered key.
abbrev pub IsOffered : ApiKeyManager → ℕ → ApiKey → Type 0
IsOffered m now a =
    (In a.key (get_keys_of_type m pro_key)
      × ((length (get_keys_of_type m pro_key) ≡ 1) ⊎ (is_key_in_backoff m now a.key ≡ false))
      × (a.key_type ≡ pro_key))
    ⊎ ((In a.key (get_keys_of_type m demo_key)
          × (is_key_in_backoff m now a.key ≡ false)
          × (a.key_type ≡ demo_key))
        ⊎ (a ≡ the_no_key))

rested_keys_iff :
    (m : ApiKeyManager) (now : ℕ) (t : KeyType) (ks : List String) (a : ApiKey)
    → In a (rested_keys m now t ks)
      ↔ (In a.key ks × (is_key_in_backoff m now a.key ≡ false) × (a.key_type ≡ t))
unfolding rested_keys
rested_keys_iff m now t [] a = ((λ h. absurd h), (λ h. absurd h.0))
rested_keys_iff m now t (k ∷ ks) a =
    let ih = rested_keys_iff m now t ks a in
    elim (Bool-cases (is_key_in_backoff m now k)) [
      | inl e ↦ rw e (
        (λ h. let r = ih.0 h in (inr r.0, r.1, r.2)),
        (λ h. elim h.0 [ inl p ↦ cc (p, e, h.1) | inr q ↦ ih.1 (q, h.1, h.2) ]),
      )
      | inr e ↦ rw e (
        (λ h. elim h [
          | inl p ↦ (inl (ap (λ x. x.key) p), cc (p, e), sym (ap (λ x. x.key_type) p))
          | inr q ↦ (let r = ih.0 q in (inr r.0, r.1, r.2))
        ]),
        (λ h. elim h.0 [
          | inl p ↦ inl (λ i. record { key = p i; key_type = sym h.2 i })
          | inr q ↦ inr (ih.1 (q, h.1, h.2))
        ]),
      )
    ]

-- The Pro keys by themselves.
available_pro_keys_iff :
    (m : ApiKeyManager) (now : ℕ) (ks : List String) (a : ApiKey)
    → In a (available_pro_keys m now ks) ↔ (
        In a.key ks
        × ((length ks ≡ 1) ⊎ (is_key_in_backoff m now a.key ≡ false))
        × (a.key_type ≡ pro_key))
unfolding available_pro_keys
available_pro_keys_iff m now [] a = ((λ h. absurd h), (λ h. absurd h.0))
available_pro_keys_iff m now (k ∷ []) a = (
  (λ h. elim h [
    | inl p ↦ (inl (ap (λ x. x.key) p), inl refl, sym (ap (λ x. x.key_type) p))
    | inr q ↦ absurd q
  ]),
  (λ h. elim h.0 [
    | inl p ↦ inl (λ i. record { key = p i; key_type = sym h.2 i })
    | inr q ↦ absurd q
  ]),
)
available_pro_keys_iff m now (k ∷ l ∷ ks) a =
    let r = rested_keys_iff m now pro_key (k ∷ l ∷ ks) a in
    (
      (λ h. let x = r.0 h in (x.0, inr x.1, x.2)),
      (λ h. elim h.1 [ inl one ↦ absurd (omega arith) | inr rested ↦ r.1 (h.0, rested, h.2) ]),
    )

-- The keys offered are exactly those that the documentation lists: the Pro keys that are not in
-- backoff, or the one Pro key there is; the Demo keys that are not in backoff; and the empty key.
pub get_available_keys_iff :
    (m : ApiKeyManager) (now : ℕ) (a : ApiKey) → In a (get_available_keys m now) ↔ IsOffered m now a
unfolding get_available_keys
get_available_keys_iff m now a =
    let pros = get_keys_of_type m pro_key in
    let demos = get_keys_of_type m demo_key in
    let p = available_pro_keys_iff m now pros a in
    let d = rested_keys_iff m now demo_key demos a in
    (
      (λ h. elim (In-append_cases a (available_pro_keys m now pros) _ h) [
        | inl x ↦ inl (p.0 x)
        | inr y ↦ elim (In-append_cases a (rested_keys m now demo_key demos) _ y) [
          | inl z ↦ inr (inl (d.0 z))
          | inr w ↦ elim w [ inl e ↦ inr (inr (sym e)) | inr f ↦ absurd f ]
        ]
      ]),
      (λ h. elim h [
        | inl x ↦ In-append_left a (available_pro_keys m now pros) _ (p.1 x)
        | inr y ↦ In-append_right a (available_pro_keys m now pros) _ (elim y [
          | inl z ↦ In-append_left a (rested_keys m now demo_key demos) _ (d.1 z)
          | inr e ↦ In-append_right a (rested_keys m now demo_key demos) _ (inl (sym e))
        ])
      ]),
    )

-- After a failure at `then`, a key is in backoff for the backoff time and no longer; other keys
-- are as before, and the empty key never is.
pub is_key_in_backoff-mark_key_as_failed :
    (m : ApiKeyManager) (at now : ℕ) (k j : String)
    → is_key_in_backoff (mark_key_as_failed m at k) now j ≡ (
        if k == j && not (k == "")
        then ltb (now - at) m.backoff_time
        else is_key_in_backoff m now j)
unfolding is_key_in_backoff mark_key_as_failed
is_key_in_backoff-mark_key_as_failed m at now k j = ground (
  arith,
  string_eq.same_iff k j,
  string_eq.same_iff k "",
  string_eq.same_iff j "",
  lookup-insert k j at m.last_failed,
)
