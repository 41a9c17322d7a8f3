-- ===== src/Vault/Filled.antt =====
-- What a tree of parameters says without a vault (core/src/garis/vault.py, `resolve_tree`): its
-- references in order, and the tree with a text put in the place of each.
use garis.Base.{
  String, Bool, true, false, Option, none, some, List, [], ◌∷◌, ◌++◌, ◌≡◌, ◌∙◌, refl, ap, sym, keep,
  map, if◌then◌else◌, Bool-cases, inl, inr, arith,
}
use garis.Actions.{
  Value, Values, Fields, text, other, items, fields, nil, cons, end, field, string_values,
  values_strings, fields_strings,
}
use garis.Vault.{Fault, no_name, no_secret, clean, is_ref, ref_name, or_no_secret}
use garis.Vault.Shelf.{Shelf, shelf_resolve, shelf_get, shelf_got}
use garis.Vault.Tree.{
  Walked, walked, failed, text_walked, with, both, shelf_text, shelf_tree, shelf_items,
  shelf_fields,
}

module _ (f : String → String) where
  -- the tree with each of its texts replaced
  unfoldable mutual
    pub substituted : Value → Value
    substituted (text s) = text (f s)
    substituted (other s) = other s
    substituted (items vs) = items (substituted_items vs)
    substituted (fields fs) = fields (substituted_fields fs)

    pub substituted_items : Values → Values
    substituted_items nil = nil
    substituted_items (cons v vs) = cons (substituted v) (substituted_items vs)

    pub substituted_fields : Fields → Fields
    substituted_fields end = end
    substituted_fields (field name v fs) = field name (substituted v) (substituted_fields fs)

-- its references, in the order of the tree
abbrev references : List String → List String
references texts = keep is_ref texts

abbrev text_in : Option String → String
text_in none = ""
text_in (some x) = x

abbrev fault_in : Option String → Option Fault
fault_in none = some no_secret
fault_in (some x) = none

abbrev or_else : Option Fault → Option Fault → Option Fault
or_else none q = q
or_else (some f) q = some f

keep-append : (p : String → Bool) (xs ys : List String) → keep p (xs ++ ys) ≡ keep p xs ++ keep p ys
keep-append p [] ys = refl
keep-append p (x ∷ xs) ys = ground (arith, keep-append p xs ys)

map-append : (f : String → String) (xs ys : List String) → map f (xs ++ ys) ≡ map f xs ++ map f ys
map-append f [] ys = refl
map-append f (x ∷ xs) ys = ap (λ zs. f x ∷ zs) (map-append f xs ys)

module _ (tidy : String → String) (a : Shelf) where
  -- the value of a name on the shelf
  abbrev value_of : Option String → String
  value_of none = ""
  value_of (some k) = text_in (a k)

  -- a reference stands for the value of its name, any other text for itself
  abbrev text_for : String → String
  text_for s = if is_ref s then value_of (clean tidy (ref_name s)) else s

  abbrev fault_of : Option String → Option Fault
  fault_of none = some no_name
  fault_of (some k) = fault_in (a k)

  -- what is raised for the first reference without a value
  unfoldable pub first_fault : List String → Option Fault
  first_fault [] = none
  first_fault (s ∷ refs) =
      let later = first_fault refs in or_else (fault_of (clean tidy (ref_name s))) later

  abbrev reported : {A : Type 0} → Option Fault → A → List String → Walked A
  reported none x refs = walked x (map ref_name refs)
  reported (some f) x refs = failed f

  -- the result, where nothing is missing, with the names of the references in these texts
  abbrev filled_as : {A : Type 0} → A → List String → Walked A
  filled_as x texts = reported (first_fault (references texts)) x (references texts)

  abbrev pub filled : Value → Walked Value
  filled t = filled_as (substituted text_for t) (string_values t)

  nothing_used : {A : Type 0} → (x : A) → walked x [] ≡ filled_as x []
  unfolding first_fault
  nothing_used x = refl

  reported-both :
      {A B D : Type 0} (f : A → B → D) (x : A) (y : B) (p q : Option Fault) (xs ys : List String)
      → both f (reported p x xs) (reported q y ys) ≡ reported (or_else p q) (f x y) (xs ++ ys)
  reported-both f x y none none xs ys = ap (walked (f x y)) (sym (map-append ref_name xs ys))
  reported-both f x y none (some e) xs ys = refl
  reported-both f x y (some e) none xs ys = refl
  reported-both f x y (some e) (some g) xs ys = refl

  or_else_assoc : (p q r : Option Fault) → or_else (or_else p q) r ≡ or_else p (or_else q r)
  or_else_assoc none q r = refl
  or_else_assoc (some f) q r = refl

  first_fault-append :
      (xs ys : List String) → first_fault (xs ++ ys) ≡ or_else (first_fault xs) (first_fault ys)
  unfolding first_fault
  first_fault-append [] ys = refl
  first_fault-append (s ∷ xs) ys =
      ap (or_else (fault_of (clean tidy (ref_name s)))) (first_fault-append xs ys)
      ∙ sym (or_else_assoc (fault_of (clean tidy (ref_name s))) (first_fault xs) (first_fault ys))

  -- two parts side by side
  filled-both :
      {A B D : Type 0} (f : A → B → D) (x : A) (y : B) (xs ys : List String)
      → both f (filled_as x xs) (filled_as y ys) ≡ filled_as (f x y) (xs ++ ys)
  filled-both f x y xs ys =
      reported-both f x y (first_fault (references xs)) (first_fault (references ys))
        (references xs) (references ys)
      ∙ (ap (λ p. reported p (f x y) (references xs ++ references ys))
            (sym (first_fault-append (references xs) (references ys)))
          ∙ ap (λ refs. reported (first_fault refs) (f x y) refs) (sym (keep-append is_ref xs ys)))

  with-filled_as :
      {A B : Type 0} (f : A → B) (x : A) (texts : List String)
      → with f (filled_as x texts) ≡ filled_as (f x) texts
  with-filled_as f x texts = by_fault (first_fault (references texts))
    where
      by_fault :
          (p : Option Fault)
          → with f (reported p x (references texts)) ≡ reported p (f x) (references texts)
      by_fault none = refl
      by_fault (some e) = refl

  references_one : (s : String) → is_ref s ≡ true → references (s ∷ []) ≡ s ∷ []
  references_one s e = ground (arith, e)

  references_none : (s : String) → is_ref s ≡ false → references (s ∷ []) ≡ []
  references_none s e = ground (arith, e)

  text-filled : (s : String) → shelf_text tidy s a ≡ filled (text s)
  unfolding shelf_resolve first_fault string_values substituted
  text-filled s = elim (Bool-cases (is_ref s)) [
    | inr e ↦
        rw e (ap (λ refs. reported (first_fault refs) (text s) refs) (sym (references_none s e)))
    | inl e ↦ rw e (
        by_name (clean tidy (ref_name s))
        ∙ ap (λ refs. reported (first_fault refs) (text (value_of (clean tidy (ref_name s)))) refs)
            (sym (references_one s e)))
  ]
    where
      by_value :
          (k : String) (o : Option String)
          → text_walked (ref_name s) (or_no_secret (shelf_got o))
            ≡ reported (or_else (fault_in o) none) (text (text_in o)) (s ∷ [])
      by_value k none = refl
      by_value k (some x) = refl

      by_name :
          (o : Option String)
          → text_walked (ref_name s) (or_no_secret (shelf_get o a))
            ≡ reported (or_else (fault_of o) none) (text (value_of o)) (s ∷ [])
      by_name none = refl
      by_name (some k) = by_value k (a k)

  mutual
    unfolding shelf_tree string_values substituted

    tree-filled : (t : Value) → shelf_tree tidy t a ≡ filled t
    tree-filled (text s) = text-filled s
    tree-filled (other s) = nothing_used (other s)
    tree-filled (items vs) =
        ap (with items) (items-filled vs) ∙ with-filled_as items _ (values_strings vs)
    tree-filled (fields fs) =
        ap (with fields) (fields-filled fs) ∙ with-filled_as fields _ (fields_strings fs)

    items-filled :
        (vs : Values)
        → shelf_items tidy vs a ≡ filled_as (substituted_items text_for vs) (values_strings vs)
    items-filled nil = nothing_used nil
    items-filled (cons v vs) =
        ap (λ w. both cons w (shelf_items tidy vs a)) (tree-filled v)
        ∙ (ap (both cons (filled v)) (items-filled vs)
            ∙ filled-both cons _ _ (string_values v) (values_strings vs))

    fields-filled :
        (fs : Fields)
        → shelf_fields tidy fs a ≡ filled_as (substituted_fields text_for fs) (fields_strings fs)
    fields-filled end = nothing_used end
    fields-filled (field name v fs) =
        ap (λ w. both (field name) w (shelf_fields tidy fs a)) (tree-filled v)
        ∙ (ap (both (field name) (filled v)) (fields-filled fs)
            ∙ filled-both (field name) _ _ (string_values v) (fields_strings fs))

  pub shelf_tree-filled : (t : Value) → shelf_tree tidy t a ≡ filled t
  shelf_tree-filled t = tree-filled t
