-- ===== src/Cache/Keys.antt =====
-- Lists of keys without a repetition, as the lists of internal/cache/cache.go hold them.
use dns_over_minecraft.Prelude.{
  ℕ, ◌+◌, ◌≡◌, refl, arith, Bool, true, false, ◌||◌, List, [], ◌∷◌, if◌then◌else◌, Option, none,
  some, length, bytes_eq, bytes_eq_iff,
}

unfoldable pub member : List ℕ → List (List ℕ) → Bool
unfolding bytes_eq
member key [] = false
member key (k ∷ ks) = bytes_eq k key || member key ks

-- The list without a key.
unfoldable pub remove : List ℕ → List (List ℕ) → List (List ℕ)
unfolding bytes_eq
remove key [] = []
remove key (k ∷ ks) = if bytes_eq k key then remove key ks else k ∷ remove key ks

unfoldable pub get_last? {ℓ} : {A : Type ℓ} → List A → Option A
get_last? [] = none
get_last? (a ∷ []) = some a
get_last? (a ∷ b ∷ as') = get_last? (b ∷ as')

abbrev pub Distinct : List (List ℕ) → Type 0
Distinct [] = Unit
Distinct (k ∷ ks) = (member k ks ≡ false) × Distinct ks

pub member-remove :
    (j k : List ℕ) (ks : List (List ℕ))
    → member j (remove k ks) ≡ (if bytes_eq k j then false else member j ks)
unfolding member remove
member-remove j k [] = ground arith
member-remove j k (x ∷ ks) =
    ground (arith, bytes_eq_iff x k, bytes_eq_iff x j, bytes_eq_iff k j, member-remove j k ks)

pub remove-Distinct : (k : List ℕ) (ks : List (List ℕ)) → Distinct ks → Distinct (remove k ks)
unfolding remove
remove-Distinct k [] d = tt
remove-Distinct k (x ∷ ks) d = ground (arith, member-remove x k ks, remove-Distinct k ks)

pub remove_absent : (k : List ℕ) (ks : List (List ℕ)) → member k ks ≡ false → remove k ks ≡ ks
unfolding remove member
remove_absent k [] h = refl
remove_absent k (x ∷ ks) h = ground (arith, remove_absent k ks)

pub length-remove :
    (k : List ℕ) (ks : List (List ℕ))
    → Distinct ks
    → member k ks ≡ true
    → length (remove k ks) + 1 ≡ length ks
unfolding remove member
length-remove k [] d h = cc
length-remove k (x ∷ ks) d h =
    ground (arith, bytes_eq_iff x k, remove_absent k ks, length-remove k ks)

pub get_last?-member :
    (ks : List (List ℕ)) (k : List ℕ) → get_last? ks ≡ some k → member k ks ≡ true
unfolding member get_last?
get_last?-member [] k e = cc
get_last?-member (x ∷ []) k e = ground (arith, bytes_eq_iff x k)
get_last?-member (x ∷ y ∷ ks) k e = ground (arith, get_last?-member (y ∷ ks) k)
