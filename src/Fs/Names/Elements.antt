-- ===== src/Fs/Names/Elements.antt =====
-- The names of a path, and how skipelem of kernel/fs.c takes them from it.
use mathlib.Core.List.{append_assoc, append-nil}
use oslab.Prelude.{
  ℕ, ◌≤◌, ◌<◌, ◌≡◌, ◌⊎◌, inl, inr, refl, sym, ap, ◌∙◌, false, List, [], ◌∷◌, ◌++◌, none, some, ◌==◌,
  if◌then◌else◌, take, arith, length, Bool-cases,
}
use oslab.Fs.Names.{dirsiz, slash, skip_slashes, element, behind_element, skipelem, is_end}

-- the names of a path, cut at 14 bytes; `word` is what was read of the next one
abbrev pub with_name : List ℕ → List (List ℕ) → List (List ℕ)
with_name [] names = names
with_name (c ∷ word) names = take dirsiz (c ∷ word) ∷ names

unfoldable pub names_from : List ℕ → List ℕ → List (List ℕ)
names_from word [] = with_name word []
names_from word (c ∷ path) =
    let next = names_from [] path in
    let longer = names_from (word ++ (c ∷ [])) path in
    if c == slash then with_name word next else longer

abbrev pub names_of : List ℕ → List (List ℕ)
names_of path = names_from [] path

pub names_of-nil : names_of [] ≡ []
unfolding names_from
names_of-nil = refl

pub names_from-skip_slashes : (path : List ℕ) → names_of (skip_slashes path) ≡ names_of path
unfolding names_from skip_slashes
names_from-skip_slashes [] = refl
names_from-skip_slashes (c ∷ path) = elim (Bool-cases (c == slash)) [
  | inl h ↦ rw h (names_from-skip_slashes path)
  | inr h ↦ rw h (rw h refl)
]

names_from-element :
    (d : ℕ) (word path : List ℕ)
    → names_from (d ∷ word) path
      ≡ take dirsiz (d ∷ word ++ element path) ∷ names_of (skip_slashes (behind_element path))
unfolding names_from element behind_element skip_slashes
names_from-element d word [] = rw (append-nil word) refl
names_from-element d word (c ∷ path) = elim (Bool-cases (c == slash)) [
  | inl h ↦ rw h (
      rw (h, append-nil word)
        (ap (λ l. take dirsiz (d ∷ word) ∷ l) (sym (names_from-skip_slashes path))))
  | inr h ↦ rw h (
      names_from-element d (word ++ (c ∷ [])) path
      ∙ rw (append_assoc word (c ∷ []) (element path)) refl)
]

skip_slashes-cases :
    (path : List ℕ)
    → (skip_slashes path ≡ [])
      ⊎ ((c : ℕ) × (t : List ℕ) × (skip_slashes path ≡ c ∷ t) × ((c == slash) ≡ false))
unfolding skip_slashes
skip_slashes-cases [] = inl refl
skip_slashes-cases (c ∷ path) = elim (Bool-cases (c == slash)) [
  | inl h ↦ rw h (skip_slashes-cases path)
  | inr h ↦ inr (c, path, rw h refl, h)
]

skip_slashes_le : (path : List ℕ) → length (skip_slashes path) ≤ length path
unfolding skip_slashes
skip_slashes_le [] = omega arith
skip_slashes_le (c ∷ path) = ground (arith, skip_slashes_le path)

behind_element_le : (path : List ℕ) → length (behind_element path) ≤ length path
unfolding behind_element
behind_element_le [] = omega arith
behind_element_le (c ∷ path) = ground (arith, behind_element_le path)

names_from-solid :
    (c : ℕ) (t : List ℕ)
    → (c == slash) ≡ false
    → names_of (c ∷ t)
      ≡ take dirsiz (element (c ∷ t)) ∷ names_of (skip_slashes (behind_element (c ∷ t)))
unfolding names_from element behind_element
names_from-solid c t h = rw h (names_from-element c [] t)

-- A path that skipelem leaves has more names unless it is empty.
pub left_over :
    (path : List ℕ)
    → ((skip_slashes path ≡ []))
      ⊎ ((name : List ℕ) × (names : List (List ℕ)) × (is_end (skip_slashes path) ≡ false)
          × (names_of (skip_slashes path) ≡ name ∷ names))
left_over path = elim (skip_slashes-cases path) [
  | inl e ↦ inl e
  | inr (c, t, e, h) ↦ inr (_, _, rw e refl, ap names_of e ∙ names_from-solid c t h)
]

-- skipelem takes the first name of a path.
pub skipelem_cases :
    (path : List ℕ)
    → ((skipelem path ≡ none) × (names_of path ≡ []))
      ⊎ ((name : List ℕ) × (behind : List ℕ) × (skipelem path ≡ some (name, skip_slashes behind))
          × (names_of path ≡ name ∷ names_of (skip_slashes behind))
          × (length (skip_slashes behind) < length path))
unfolding skipelem
skipelem_cases path = elim (skip_slashes-cases path) [
  | inl e ↦ inl (rw e refl, sym (names_from-skip_slashes path) ∙ rw e names_of-nil)
  | inr (c, t, e, h) ↦ inr (
    take dirsiz (element (c ∷ t)),
    behind_element (c ∷ t),
    rw e refl,
    sym (names_from-skip_slashes path) ∙ ap names_of e ∙ names_from-solid c t h,
    rw h (
        omega (
          arith,
          skip_slashes_le (behind_element t),
          behind_element_le t,
          skip_slashes_le path,
          ap length e,
        )),
  )
]
