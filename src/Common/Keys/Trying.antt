-- ===== src/Common/Keys/Trying.antt =====
-- What `TryWithKeys` does with the fail callback of a key manager: the keys are tried in order up
-- to the first that answers, and those before it rest.
use market_proxy.Prelude.{
  ℕ, ◌-◌, ◌<◌, String, ◌≡◌, ◌≢◌, refl, ap, sym, ◌∙◌, ◌⊎◌, inl, inr, true, false, not, ◌&&◌, Option,
  some, List, [], ◌∷◌, ◌++◌, ltb, ◌==◌, string_eq, if◌then◌else◌, arith, In, All, length,
}
use mathlib.Core.List.{append_assoc, append-nil}
use market_proxy.Prelude.Errors.{Error, exhausted, Result, ok, err}
use market_proxy.Common.Keys.{
  KeyType, pro_key, ApiKey, ApiKeyManager, Attempt, is_key_in_backoff, get_keys_of_type,
  get_available_keys, mark_key_as_failed, create_fail_callback, try_with_keys,
}
use market_proxy.Common.Keys.Backoff.{get_available_keys_iff, is_key_in_backoff-mark_key_as_failed}

-- The manager after the callback has run for each of the keys.
pub mark_all : ℕ → ApiKeyManager → List ApiKey → ApiKeyManager
mark_all now m [] = m
mark_all now m (k ∷ ks) = mark_all now (create_fail_callback now m k) ks

module _ {A : Type 0} (outcome : ApiKey → Attempt A) where
  -- An attempt of this key fails with an error.
  pub record Fails (k : ApiKey) : Type 0 where
    pub not_success : (outcome k).success ≡ false
    pub error : Error
    pub has_error : (outcome k).error ≡ some error

  -- What the request executors of the program return.
  abbrev pub Answers : ApiKey → Type 0
  Answers k = ((outcome k).success ≡ true) ⊎ Fails k

  -- What an attempt changes: the manager, and the list of the keys that were tried.
  abbrev pub State : Type 0
  State = ApiKeyManager × List ApiKey

  abbrev pub executor_of : State → ApiKey → Attempt A × State
  executor_of s k = (outcome k, (s.0, s.1 ++ k ∷ []))

  abbrev pub on_failure : ℕ → State → ApiKey → State
  on_failure now s k = (create_fail_callback now s.0 k, s.1)

  abbrev pub try_from : ℕ → ApiKeyManager → List ApiKey → List ApiKey → Result (Option A) × State
  try_from now m tried ks = try_with_keys executor_of (some (on_failure now)) ks (m, tried)

  -- The first key that answers, and the keys before it: they are tried, and no others.
  pub record FirstAnswer (now : ℕ) (m : ApiKeyManager) (tried keys : List ApiKey) : Type 0 where
    pub before : List ApiKey
    pub used : ApiKey
    pub after : List ApiKey
    pub split : keys ≡ before ++ used ∷ after
    pub failed : All Fails before
    pub answered : (outcome used).success ≡ true
    pub returned :
        try_from now m tried keys
        ≡ (ok (outcome used).result, (mark_all now m before, tried ++ (before ++ used ∷ [])))

  pub record NoAnswer (now : ℕ) (m : ApiKeyManager) (tried keys : List ApiKey) : Type 0 where
    pub failed : All Fails keys
    pub returned :
        try_from now m tried keys
        ≡ (err (exhausted "all API keys failed"), (mark_all now m keys, tried ++ keys))

  one_failure :
      (now : ℕ) (m : ApiKeyManager) (tried : List ApiKey) (k : ApiKey) (ks : List ApiKey)
      → Fails k
      → try_from now m tried (k ∷ ks)
        ≡ try_from now (create_fail_callback now m k) (tried ++ k ∷ []) ks
  unfolding try_with_keys
  one_failure now m tried k ks f = rw (f.not_success, f.has_error)

  -- With executors that give an answer or an error, either every key fails, and the result is an
  -- error, and all of them are tried and marked; or the result is that of the first key that
  -- answers, the keys before it are marked as failed, and those behind it are not tried and not
  -- marked. The keys that are tried are those that the executor is called with, in order.
  pub try_with_keys_cases :
      (now : ℕ) (m : ApiKeyManager) (tried keys : List ApiKey)
      → All Answers keys
      → FirstAnswer now m tried keys ⊎ NoAnswer now m tried keys
  unfolding try_with_keys mark_all
  try_with_keys_cases now m tried [] h =
      inr (record { failed = tt; returned = rw (append-nil tried) refl })
  try_with_keys_cases now m tried (k ∷ ks) (inl y, h) = inl (record {
    before = [];
    used = k;
    after = ks;
    split = refl;
    failed = tt;
    answered = y;
    returned = rw y;
  })
  try_with_keys_cases now m tried (k ∷ ks) (inr f, h) =
      elim (try_with_keys_cases now (create_fail_callback now m k) (tried ++ k ∷ []) ks h) [
        | inl a ↦ inl (record {
          before = k ∷ a.before;
          used = a.used;
          after = a.after;
          split = ap (λ t. k ∷ t) a.split;
          failed = (f, a.failed);
          answered = a.answered;
          returned =
              one_failure now m tried k ks f
              ∙ rw (← append_assoc tried (k ∷ []) (a.before ++ a.used ∷ [])) a.returned;
        })
        | inr n ↦ inr (record {
          failed = (f, n.failed);
          returned =
              one_failure now m tried k ks f ∙ rw (← append_assoc tried (k ∷ []) ks) n.returned;
        })
      ]

mark_one :
    (now later : ℕ) (m : ApiKeyManager) (k : ApiKey) (j : String)
    → is_key_in_backoff (create_fail_callback now m k) later j ≡ (
        if k.key == j && not (k.key == "")
        then ltb (later - now) m.backoff_time
        else is_key_in_backoff m later j)
unfolding create_fail_callback
mark_one now later m k j =
    ground
      (arith, is_key_in_backoff-mark_key_as_failed m now later k.key j, string_eq.same_iff k.key j)

one_same :
    (now : ℕ) (m : ApiKeyManager) (k : ApiKey)
    → ((create_fail_callback now m k).api_tokens ≡ m.api_tokens)
      × ((create_fail_callback now m k).backoff_time ≡ m.backoff_time)
unfolding create_fail_callback mark_key_as_failed
one_same now m k = ground arith

same_tokens :
    (now : ℕ) (m : ApiKeyManager) (ks : List ApiKey)
    → ((mark_all now m ks).api_tokens ≡ m.api_tokens)
      × ((mark_all now m ks).backoff_time ≡ m.backoff_time)
unfolding mark_all
same_tokens now m [] = (refl, refl)
same_tokens now m (k ∷ ks) =
    let m' = create_fail_callback now m k in
    let (t, b) = same_tokens now m' ks in let (t', b') = one_same now m k in (t ∙ t', b ∙ b')

same_keys :
    (now : ℕ) (m : ApiKeyManager) (ks : List ApiKey) (t : KeyType)
    → get_keys_of_type (mark_all now m ks) t ≡ get_keys_of_type m t
unfolding get_keys_of_type
same_keys now m ks t =
    ap (λ o. get_keys_of_type (record m { api_tokens = o }) t) (same_tokens now m ks).0

stays_marked :
    (now later : ℕ) (m : ApiKeyManager) (ks : List ApiKey) (j : String)
    → later - now < m.backoff_time
    → is_key_in_backoff m later j ≡ true
    → is_key_in_backoff (mark_all now m ks) later j ≡ true
unfolding mark_all
stays_marked now later m [] j h b = b
stays_marked now later m (k ∷ ks) j h b =
    let m' = create_fail_callback now m k in
    stays_marked now later m' ks j (omega (arith, (one_same now m k).1))
      (ground (arith, mark_one now later m k j))

pub mark_all-backoff :
    (now later : ℕ) (m : ApiKeyManager) (ks : List ApiKey) (a : ApiKey)
    → In a ks
    → a.key ≢ ""
    → later - now < m.backoff_time
    → is_key_in_backoff (mark_all now m ks) later a.key ≡ true
unfolding mark_all
mark_all-backoff now later m [] a i n h = absurd i
mark_all-backoff now later m (k ∷ ks) a (inl e) n h =
    stays_marked now later (create_fail_callback now m k) ks a.key
      (omega (arith, (one_same now m k).1))
      (rw (← e) (
        ground (
          arith,
          mark_one now later m k k.key,
          string_eq.same_iff k.key k.key,
          string_eq.same_iff k.key "",
          e,
        )))
mark_all-backoff now later m (k ∷ ks) a (inr i) n h =
    mark_all-backoff now later (create_fail_callback now m k) ks a i n
      (omega (arith, (one_same now m k).1))

only_one : (k : String) (ks : List String) → length ks ≡ 1 → In k ks → ks ≡ k ∷ []
only_one k [] e i = absurd i
only_one k (j ∷ []) e (inl p) = ap (λ x. x ∷ []) p
only_one k (j ∷ []) e (inr i) = absurd i
only_one k (j ∷ l ∷ ks) e i = absurd (omega arith)

-- A key that has failed (and is not the empty one) is not offered again before the backoff time is
-- over, unless it is itself the only Pro key there is.
pub failed_key_rests :
    (now later : ℕ) (m : ApiKeyManager) (tried : List ApiKey) (a : ApiKey)
    → In a tried
    → a.key ≢ ""
    → ¬ ((a.key_type ≡ pro_key) × (get_keys_of_type m pro_key ≡ a.key ∷ []))
    → later - now < m.backoff_time
    → ¬ In a (get_available_keys (mark_all now m tried) later)
failed_key_rests now later m tried a i n other h offered =
    let m' = mark_all now m tried in
    let rests = mark_all-backoff now later m tried a i n h in
    elim ((get_available_keys_iff m' later a).0 offered) [
      | inl (own, inl one, is_pro) ↦ other (
        is_pro,
        sym (same_keys now m tried pro_key) ∙ only_one a.key (get_keys_of_type m' pro_key) one own,
      )
      | inl (_, inr awake, _) ↦ cc
      | inr (inl (_, awake, _)) ↦ cc
      | inr (inr e) ↦ n (ap (λ x. x.key) e)
    ]
