-- ===== src/Dict.antt =====
-- A HashMap<String, V> as an association list. No operation of the program depends on the order.
use text.Mathlib.Text.{◌==◌ as str_eq}
use text.Mathlib.TextEquality.{eq_iff}
use text.Mathlib.TextPositions.{eq_refl}
use nusa_launchd.Shared.{
  ◌≡◌, refl, String, Bool, false, ◌||◌, Option, none, some, List, [], ◌∷◌, arith, if◌then◌else◌,
}

-- Does the text stand in the list?
unfoldable pub listed : String → List String → Bool
listed label [] = false
listed label (l ∷ ls) = str_eq l label || listed label ls

abbrev pub Entries {ℓ} : Type ℓ → Type ℓ
Entries A = List (String × A)

module _ {ℓ} {A : Type ℓ} where
  -- HashMap::get.
  unfoldable pub lookup : String → Entries A → Option A
  lookup key [] = none
  lookup key (e ∷ entries) =
      let later = lookup key entries in if str_eq e.0 key then some e.1 else later

  -- HashMap::insert: the entry under the key is replaced where it stands.
  unfoldable pub insert : String → A → Entries A → Entries A
  insert key a [] = (key, a) ∷ []
  insert key a (e ∷ entries) =
      let later = insert key a entries in if str_eq e.0 key then (key, a) ∷ entries else e ∷ later

  -- HashMap::remove.
  unfoldable pub remove : String → Entries A → Entries A
  remove key [] = []
  remove key (e ∷ entries) =
      let later = remove key entries in if str_eq e.0 key then later else e ∷ later

  pub lookup-insert :
      (key other : String) (a : A) (entries : Entries A)
      → lookup other (insert key a entries)
        ≡ (if str_eq key other then some a else lookup other entries)
  unfolding lookup insert
  lookup-insert key other a [] = refl
  lookup-insert key other a (e ∷ entries) =
      let rest = lookup-insert key other a entries in
      ground (arith, eq_iff e.0 other, eq_iff e.0 key, eq_iff key other, rest)

  pub lookup-remove :
      (key other : String) (entries : Entries A)
      → lookup other (remove key entries)
        ≡ (if str_eq key other then none else lookup other entries)
  unfolding lookup remove
  lookup-remove key other [] = ground arith
  lookup-remove key other (e ∷ entries) =
      let rest = lookup-remove key other entries in
      ground (arith, eq_iff e.0 other, eq_iff e.0 key, eq_iff key other, rest)

  pub insert_present :
      (key : String) (a : A) (entries : Entries A)
      → lookup key entries ≡ some a
      → insert key a entries ≡ entries
  unfolding lookup insert
  insert_present key a [] h = cc
  insert_present key a (e ∷ entries) h =
      ground (arith, eq_iff e.0 key, insert_present key a entries)

  pub insert-insert :
      (key : String) (a b : A) (entries : Entries A)
      → insert key b (insert key a entries) ≡ insert key b entries
  unfolding insert
  insert-insert key a b [] = rw (eq_refl key)
  insert-insert key a b (e ∷ entries) =
      ground (arith, eq_refl key, eq_iff e.0 key, insert-insert key a b entries)

  remove_absent :
      (key : String) (entries : Entries A)
      → lookup key entries ≡ none
      → remove key entries ≡ entries
  unfolding lookup remove
  remove_absent key [] h = refl
  remove_absent key (e ∷ entries) h = ground (arith, remove_absent key entries)

  pub remove-insert :
      (key : String) (a : A) (entries : Entries A)
      → lookup key entries ≡ none
      → remove key (insert key a entries) ≡ entries
  unfolding lookup insert remove
  remove-insert key a [] h = rw (eq_refl key)
  remove-insert key a (e ∷ entries) h =
      ground (arith, remove_absent key entries, remove-insert key a entries)
