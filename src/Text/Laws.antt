-- ===== src/Text/Laws.antt =====
-- What the text operations compute, in terms of the characters that occur in a text.
use Prim.Native.Char.{code}
use nusa_launchd.Shared.{
  ℕ, String, ◌≡◌, refl, ◌↔◌, inl, inr, Bool, true, ◌&&◌, subst, ◌∙◌, arith, ◌==◌, ==_iff,
  Bool-cases,
}
use nusa_launchd.Text.{
  is_whitespace, is_empty, any_char, contains, trim, trim_start, trim_end, Occurs, IsBlank,
}

pub Occurs-any_char :
    (p : ℕ → Bool) (s : String) → any_char p s ≡ true → (k : ℕ) × Occurs k s × (p k ≡ true)
unfolding any_char
Occurs-any_char p String.[] h = cc
Occurs-any_char p (String.◌∷◌ c s) h = elim (Bool-cases (p (code c))) [
  | inl e ↦ (code c, inl refl, e)
  | inr e ↦ let (k, o, q) = Occurs-any_char p s (ground arith) in (k, inr o, q)
]

pub any_char_of_Occurs :
    (p : ℕ → Bool) (s : String) (k : ℕ) → Occurs k s → p k ≡ true → any_char p s ≡ true
unfolding any_char
any_char_of_Occurs p String.[] k o h = absurd o
any_char_of_Occurs p (String.◌∷◌ c s) k (inl e) h = rw (e, h)
any_char_of_Occurs p (String.◌∷◌ c s) k (inr o) h = ground (arith, any_char_of_Occurs p s k o h)

pub contains_iff : (k : ℕ) (s : String) → (contains k s ≡ true) ↔ Occurs k s
unfolding contains
contains_iff k s = (
  λ h.
      let (j, o, e) = Occurs-any_char (λ c. c == k) s h in
      subst (λ n. Occurs n s) ((==_iff j k).0 e) o,
  λ o. any_char_of_Occurs (λ c. c == k) s k o ((==_iff k k).1 refl),
)

abbrev all_white : String → Bool
all_white String.[] = true
all_white (String.◌∷◌ c s) = is_whitespace (code c) && all_white s

is_empty-trim_end : (s : String) → is_empty (trim_end s) ≡ all_white s
unfolding trim_end
is_empty-trim_end String.[] = refl
is_empty-trim_end (String.◌∷◌ c s) = ground (arith, is_empty-trim_end s)

all_white-trim_start : (s : String) → all_white (trim_start s) ≡ all_white s
unfolding trim_start
all_white-trim_start String.[] = refl
all_white-trim_start (String.◌∷◌ c s) = ground (arith, all_white-trim_start s)

IsBlank-all_white : (s : String) → all_white s ≡ true → IsBlank s
IsBlank-all_white String.[] h k o = absurd o
IsBlank-all_white (String.◌∷◌ c s) h k (inl e) = rw (← e) (ground arith)
IsBlank-all_white (String.◌∷◌ c s) h k (inr o) = IsBlank-all_white s (ground arith) k o

all_white_of_IsBlank : (s : String) → IsBlank s → all_white s ≡ true
all_white_of_IsBlank String.[] b = refl
all_white_of_IsBlank (String.◌∷◌ c s) b =
    rw (b (code c) (inl refl)) (all_white_of_IsBlank s (λ k o. b k (inr o)))

-- What `label.trim().is_empty()` tests: every character of the label is white space.
pub is_empty-trim : (s : String) → (is_empty (trim s) ≡ true) ↔ IsBlank s
unfolding trim
is_empty-trim s =
    let e : is_empty (trim s) ≡ all_white s =
      is_empty-trim_end (trim_start s) ∙ all_white-trim_start s in
    (λ h. IsBlank-all_white s (rw e at h), λ b. rw e (all_white_of_IsBlank s b))
