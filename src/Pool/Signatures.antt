-- ===== src/Pool/Signatures.antt =====
-- What the signatures of the providers say (core/src/garis/models/pool.py, `_signatures_now`).
use garis.Base.{
  ℕ, String, Bool, true, false, Option, none, some, List, [], ◌∷◌, ◌≡◌, ◌≢◌, ◌∙◌, ◌==◌, ◌&&◌, not,
  sym, ap, refl, arith, if◌then◌else◌, Bool-cases, inl, inr,
}
use garis.Dict
use garis.Dict.{Dict, get-put}
use garis.Vault.{Vault, clean, get, get_optional, optional, is_ref, ref_name}
use garis.Vault.Shelf.{Shelf, Holds, shelf_get, shelf_got}
use garis.Vault.Refines.{get-Agree}
use garis.Pool.{ProviderConfig, key_in, key_of, signed, signatures_from}

-- A vault, if there is one, holds what a dictionary holds.
abbrev pub Stocked :
    {C : Type 0} → (ℕ → C → String → Option String) → Option (Vault C) → Option Shelf → Type 0
Stocked unseal none none = Unit
Stocked unseal (some v) (some a) = Holds unseal v.rows a
Stocked unseal _ _ = ⊥

-- whether the provider is on, its address and its key
pub record Settings : Type 0 where
  pub enabled : Bool
  pub base_url : String
  pub key : String

abbrev pub same_settings : Settings → Settings → Bool
same_settings x y =
    (if x.enabled then y.enabled else not y.enabled) && (x.base_url == y.base_url && x.key == y.key)

-- two providers with the same settings, or none at all
abbrev pub same_provider : Option Settings → Option Settings → Bool
same_provider none none = true
same_provider (some x) (some y) = same_settings x y
same_provider _ _ = false

abbrev value_or_empty : Option String → String
value_or_empty none = ""
value_or_empty (some x) = x

module _ (tidy : String → String) where
  abbrev named : Option String → Shelf → String
  named none a = ""
  named (some k) a = value_or_empty (a k)

  -- the key that a reference stands for
  abbrev key_text : Option Shelf → String → String
  key_text none ref = ref
  key_text (some a) ref = if is_ref ref then named (clean tidy (ref_name ref)) a else ref

  abbrev settings_in : Option Shelf → ProviderConfig → Settings
  settings_in stock c = record {
    enabled = c.enabled;
    base_url = c.base_url;
    key = key_text stock c.key_ref;
  }

  abbrev later_or : Option Settings → Option Settings → Option Settings
  later_or none o = o
  later_or (some x) o = some x

  -- the settings of a provider: the last ones under a name that stands for it
  unfoldable pub settings_of :
      (String → String) → Option Shelf → String → List (String × ProviderConfig) → Option Settings
  settings_of resolve stock name [] = none
  settings_of resolve stock name ((raw_name, c) ∷ rest) =
      let later = settings_of resolve stock name rest in
      later_or later (if resolve raw_name == name then some (settings_in stock c) else none)

module _ {C : Type 0} (tidy : String → String) (seal : ℕ → String → String → C)
    (unseal : ℕ → C → String → Option String) (digest : Bool → String → String → String)
    (resolve : String → String)
    (opens : (n : ℕ) (t c : String) → unseal n (seal n t c) c ≡ some t) where
  abbrev digest_of : Settings → String
  digest_of x = digest x.enabled x.base_url x.key

  abbrev pub signed_as : Option Settings → Option String → Option String
  signed_as none o = o
  signed_as (some x) o = some (digest_of x)

  -- what `key_of` gives: the key, unless the vault raises
  abbrev Gives : Option Shelf → String → Option String × Option (Vault C) → Type 0
  Gives stock ref (o, v) =
      ((key : String) → o ≡ some key → key ≡ key_text tidy stock ref) × Stocked unseal v stock

  key_of-Gives :
      (ref : String) (now : ℕ) (v : Option (Vault C)) (stock : Option Shelf)
      → Stocked unseal v stock
      → Gives stock ref (key_of tidy seal unseal digest resolve ref now v)
  unfolding get_optional get
  key_of-Gives ref now none none h = (λ key e. ground (arith, e), tt)
  key_of-Gives ref now none (some a) h = absurd h
  key_of-Gives ref now (some v) none h = absurd h
  key_of-Gives ref now (some v) (some a) h = elim (Bool-cases (is_ref ref)) [
    | inr b ↦ rw b (λ key e. ground (arith, e), h)
    | inl b ↦
        let (e, g) = get-Agree tidy seal unseal opens (clean tidy (ref_name ref)) now v a h in
        rw b (
          λ key q.
              by_name (clean tidy (ref_name ref)) key
                (ap (λ got. key_in (optional got)) (sym e) ∙ q),
          g,
        )
  ]
    where
      by_value :
          (o : Option String) (key : String)
          → key_in (optional (shelf_got o)) ≡ some key
          → key ≡ value_or_empty o
      by_value none key e = ground (arith, e)
      by_value (some x) key e = ground (arith, e)

      by_name :
          (o : Option String) (key : String)
          → key_in (optional (shelf_get o a)) ≡ some key
          → key ≡ named tidy o a
      by_name none key e = absurd (cc)
      by_name (some k) key e = by_value (a k) key e

  signatures_none :
      (configured : List (String × ProviderConfig)) (now : ℕ) (v : Option (Vault C))
      → (signatures_from tidy seal unseal digest resolve configured now none v).0 ≡ none
  unfolding signatures_from
  signatures_none [] now v = refl
  signatures_none ((raw_name, c) ∷ rest) now v = refl

  -- one more provider is written over those before it
  signed_get :
      (out : Dict String) (k name : String) (x : Settings) (o : Option Settings)
      → signed_as o (Dict.get (Dict.put out k (digest_of x)) name)
        ≡ signed_as (later_or tidy o (if k == name then some x else none)) (Dict.get out name)
  signed_get out k name x (some y) = refl
  signed_get out k name x none = elim (Bool-cases (k == name)) [
    | inl b ↦ rw (get-put out k name (digest_of x), b) refl
    | inr b ↦ rw (get-put out k name (digest_of x), b) refl
  ]

  pub get-signatures_from :
      (configured : List (String × ProviderConfig)) (now : ℕ) (out : Dict String)
      (v : Option (Vault C)) (stock : Option Shelf) (signatures : Dict String) (name : String)
      → Stocked unseal v stock
      → (signatures_from tidy seal unseal digest resolve configured now (some out) v).0
        ≡ some signatures
      → Dict.get signatures name
        ≡ signed_as (settings_of tidy resolve stock name configured) (Dict.get out name)
  unfolding signatures_from settings_of
  get-signatures_from [] now out v stock signatures name h e =
      ap (λ o. elim o [ none ↦ none | some d ↦ Dict.get d name ]) (sym e)
  get-signatures_from ((raw_name, c) ∷ rest) now out v stock signatures name h e =
      by_key k.0 k.1 (key_of-Gives c.key_ref now v stock h)
        (λ o w h' e'. get-signatures_from rest now o w stock signatures name h' e') e
    where
      k : Option String × Option (Vault C)
      k = key_of tidy seal unseal digest resolve c.key_ref now v

      by_key :
          (o : Option String) (w : Option (Vault C))
          → Gives stock c.key_ref (o, w)
          → ((o : Dict String) (w : Option (Vault C))
              → Stocked unseal w stock
              → (signatures_from tidy seal unseal digest resolve rest now (some o) w).0
                ≡ some signatures
              → Dict.get signatures name
                ≡ signed_as (settings_of tidy resolve stock name rest) (Dict.get o name))
          → (signatures_from tidy seal unseal digest resolve rest now
              (signed tidy seal unseal digest resolve (resolve raw_name) c out o)
              w).0
            ≡ some signatures
          → Dict.get signatures name
            ≡ signed_as
                (settings_of tidy resolve stock name ((raw_name, c) ∷ rest))
                (Dict.get out name)
      by_key none w g next q = absurd (is_none (sym (signatures_none rest now w) ∙ q))
        where
          is_none : ◌≢◌ {A = Option (Dict String)} none (some signatures)
          is_none e = cc
      by_key (some key) w (g, s) next q =
          let same = g key refl in
          next _ w s q
          ∙ (ap
                (λ x.
                  signed_as (settings_of tidy resolve stock name rest) (
                    Dict.get (Dict.put out (resolve raw_name) (digest c.enabled c.base_url x))
                      name))
                same
              ∙ signed_get out (resolve raw_name) name (settings_in tidy stock c) _)
