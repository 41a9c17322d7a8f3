-- ===== src/Pool/Rebuild.antt =====
-- What a rebuild forgets (core/src/garis/models/pool.py, `rebuild`).
use garis.Base.{
  ℕ, String, Bool, true, Option, none, some, List, [], ◌∷◌, ◌≡◌, ◌∙◌, refl, ap, arith, eq_iff,
  contains, ◌==◌, ◌&&◌, not, is_some, if◌then◌else◌, Bool-cases, inl, inr,
}
use garis.Dict
use garis.Dict.{Dict, get-pop}
use garis.Health.{HealthMonitor, ProviderHealth, forget}
use garis.Router.{Provider, replace}
use garis.Vault.{Vault}
use garis.Vault.Shelf.{Shelf}
use garis.Pool.Signatures.{
  Stocked, Settings, same_settings, same_provider, settings_of, signed_as, get-signatures_from,
}
use garis.Pool.{
  ProviderConfig, ProviderPool, forget_known, signatures_from, rebuilt, rebuild, names_of,
  forget_each, same_signature, forget_moved,
}

contains-names_of :
    {A : Type 0}
    → (d : Dict A) (name : String) → contains name (names_of d) ≡ is_some (Dict.get d name)
unfolding Dict.get
contains-names_of [] name = refl
contains-names_of ((k, x) ∷ d) name = ground (arith, contains-names_of d name)

get-forget_each :
    (p : String → Bool) (names : List String) (m : HealthMonitor) (name : String)
    → Dict.get (forget_each p names m).states name
      ≡ (if contains name names && p name then none else Dict.get m.states name)
unfolding forget_each forget
get-forget_each p [] m name = refl
get-forget_each p (k ∷ ks) m name =
    get-forget_each p ks (if p k then forget m (some k) else m) name ∙ elim (Bool-cases (p k)) [
      | inl b ↦ rw b (ground (arith, b, get-pop m.states k name, eq_iff k name))
      | inr b ↦ rw b (ground (arith, b, eq_iff k name))
    ]

-- A rebuild forgets what was known of a provider just when its signature is not what it was: moved,
-- gone or new. What was known of every other provider stays.
get-forget_moved :
    (old now : Dict String) (m : HealthMonitor) (name : String)
    → Dict.get (forget_moved old now m).states name ≡ (
        if same_signature (Dict.get old name) (Dict.get now name)
        then Dict.get m.states name
        else none)
unfolding forget_moved
get-forget_moved old now m name =
    let moved : String → Bool = λ k. not (same_signature (Dict.get old k) (Dict.get now k)) in
    let gone : String → Bool = λ k. not (is_some (Dict.get now k)) in
    let first = forget_each moved (names_of now) m in
    get-forget_each gone (names_of old) first name
    ∙ (ap (λ o. if contains name (names_of old) && gone name then none else o)
          (get-forget_each moved (names_of now) m name)
        ∙ (ap
              (λ b.
                if b && gone name
                then none
                else (if contains name (names_of now) && moved name
                    then none
                    else Dict.get m.states name))
              (contains-names_of old name)
            ∙ (ap
                  (λ b.
                    if is_some (Dict.get old name) && gone name
                    then none
                    else (if b && moved name then none else Dict.get m.states name))
                  (contains-names_of now name)
                ∙ by_signatures (Dict.get old name) (Dict.get now name) (Dict.get m.states name))))
  where
    by_signatures :
        (o n : Option String) (h : Option ProviderHealth)
        → (if is_some o && not (is_some n)
            then none
            else (if is_some n && not (same_signature o n) then none else h))
          ≡ (if same_signature o n then h else none)
    by_signatures none none h = refl
    by_signatures none (some t) h = refl
    by_signatures (some s) none h = refl
    by_signatures (some s) (some t) h = elim (Bool-cases (s == t)) [
      | inl b ↦ rw b refl
      | inr b ↦ rw b refl
    ]

-- what the router of a pool knows of a provider
abbrev pub known_in : Option HealthMonitor → String → Option ProviderHealth
known_in none name = none
known_in (some m) name = Dict.get m.states name

known_signed :
    {C : Type 0} (tidy : String → String) (seal : ℕ → String → String → C)
    (unseal : ℕ → C → String → Option String) (digest : Bool → String → String → String)
    (resolve : String → String) (build : List (String × ProviderConfig) → List Provider)
    (configured : List (String × ProviderConfig)) (now : ℕ) (pool : ProviderPool)
    (v : Option (Vault C)) (m : HealthMonitor) (signatures : Dict String) (name : String)
    → pool.router.health ≡ some m
    → (signatures_from tidy seal unseal digest resolve configured now (some []) v).0
      ≡ some signatures
    → known_in
        (rebuild tidy seal unseal digest resolve build configured now pool v).0.router.health
        name
      ≡ (if same_signature (Dict.get pool.signatures name) (Dict.get signatures name)
          then Dict.get m.states name
          else none)
unfolding rebuild replace
known_signed tidy seal unseal digest resolve build configured now pool v m signatures name h s =
    ap
      (λ o.
        known_in (rebuilt tidy seal unseal digest resolve build configured o pool).router.health
          name)
      s
    ∙ (ap (λ o. known_in (forget_known pool.signatures signatures o) name) h
        ∙ get-forget_moved pool.signatures signatures m name)

module _ {C : Type 0} (tidy : String → String) (seal : ℕ → String → String → C)
    (unseal : ℕ → C → String → Option String) (digest : Bool → String → String → String)
    (resolve : String → String) (build : List (String × ProviderConfig) → List Provider)
    (opens : (n : ℕ) (t c : String) → unseal n (seal n t c) c ≡ some t) where
  same_digest :
      (x y : Settings)
      → same_settings x y ≡ true
      → digest x.enabled x.base_url x.key ≡ digest y.enabled y.base_url y.key
  same_digest x y e =
      let on : x.enabled ≡ y.enabled = ground (arith, e) in
      let url : x.base_url ≡ y.base_url = ground (arith, e, eq_iff x.base_url y.base_url) in
      let key : x.key ≡ y.key = ground (arith, e, eq_iff x.key y.key) in cc

  same_signature-settings :
      (p q : Option Settings)
      → ((x y : Settings)
          → p ≡ some x
          → q ≡ some y
          → digest x.enabled x.base_url x.key ≡ digest y.enabled y.base_url y.key
          → same_settings x y ≡ true)
      → same_signature
          (signed_as tidy seal unseal digest resolve opens p none)
          (signed_as tidy seal unseal digest resolve opens q none)
        ≡ same_provider p q
  same_signature-settings none none h = refl
  same_signature-settings none (some y) h = refl
  same_signature-settings (some x) none h = refl
  same_signature-settings (some x) (some y) h = ground (
    arith,
    eq_iff (digest x.enabled x.base_url x.key) (digest y.enabled y.base_url y.key),
    same_digest x y,
    h x y refl refl,
  )

  -- A rebuild keeps what was known of a provider exactly when its settings are those that the pool was
  -- last built with: the switch, the address and the key that its reference stands for, in the last
  -- entry whose name stands for the provider; or when it was and is no provider. What was known of the
  -- others, moved, new or gone, is forgotten. Both times the keys were read without an exception, from
  -- no vault or from one that holds what a dictionary holds, the box opens what it sealed, and the
  -- digest tells the old settings of the provider from the new ones.
  pub known-rebuild :
      (before after : List (String × ProviderConfig)) (earlier now : ℕ) (pool : ProviderPool)
      (v w : Option (Vault C)) (a b : Option Shelf) (m : HealthMonitor) (signatures : Dict String)
      (name : String)
      → Stocked unseal v a
      → Stocked unseal w b
      → (signatures_from tidy seal unseal digest resolve before earlier (some []) v).0
        ≡ some pool.signatures
      → (signatures_from tidy seal unseal digest resolve after now (some []) w).0 ≡ some signatures
      → pool.router.health ≡ some m
      → ((x y : Settings)
          → settings_of tidy resolve a name before ≡ some x
          → settings_of tidy resolve b name after ≡ some y
          → digest x.enabled x.base_url x.key ≡ digest y.enabled y.base_url y.key
          → same_settings x y ≡ true)
      → known_in
          (rebuild tidy seal unseal digest resolve build after now pool w).0.router.health
          name
        ≡ (if same_provider
              (settings_of tidy resolve a name before)
              (settings_of tidy resolve b name after)
            then Dict.get m.states name
            else none)
  unfolding Dict.get
  known-rebuild before after earlier now pool v w a b m signatures name h k s t known separates =
      let x = settings_of tidy resolve a name before in
      let y = settings_of tidy resolve b name after in
      let was : Dict.get pool.signatures name
          ≡ signed_as tidy seal unseal digest resolve opens x none =
        get-signatures_from tidy seal unseal digest resolve opens before earlier [] v a
          pool.signatures name h s
        ∙ ap (signed_as tidy seal unseal digest resolve opens x) (get_nil name) in
      let is : Dict.get signatures name ≡ signed_as tidy seal unseal digest resolve opens y none =
        get-signatures_from tidy seal unseal digest resolve opens after now [] w b signatures name k
          t
        ∙ ap (signed_as tidy seal unseal digest resolve opens y) (get_nil name) in
      known_signed tidy seal unseal digest resolve build after now pool w m signatures name known t
      ∙ ap (λ c. if c then Dict.get m.states name else none)
          (ap (λ o. same_signature o (Dict.get signatures name)) was
            ∙ (ap (same_signature (signed_as tidy seal unseal digest resolve opens x none)) is
                ∙ same_signature-settings x y separates))
    where
      get_nil : (name : String) → ◌≡◌ {A = Option String} (Dict.get [] name) none
      get_nil name = refl
