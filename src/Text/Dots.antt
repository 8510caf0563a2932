-- ===== src/Text/Dots.antt =====
-- Text cut at its dots and joined again, prefixes and suffixes.
use dns_over_minecraft.Prelude.{
  ℕ, suc, ◌-◌, ◌≡◌, refl, ap, ◌∙◌, arith, true, List, [], ◌∷◌, ◌++◌, some, length, All, Bool-cases,
  ◌==◌, inl, inr, bytes_eq_refl, take-length-append, drop-length-append, length-append, ◌≤◌,
}
use dns_over_minecraft.Text.{
  lower_byte, to_lower, has_prefix, has_suffix, trim_prefix, trim_suffix, split_dots, join,
  remove_dots, cut_dot, NoDot,
}

pub NoDot-append : (xs ys : List ℕ) → NoDot xs → NoDot ys → NoDot (xs ++ ys)
NoDot-append [] ys h k = k
NoDot-append (x ∷ xs) ys (h, hs) k = (h, NoDot-append xs ys hs k)

-- A label before a dot, and a label at the end.
split_dots_label : (x s : List ℕ) → NoDot x → split_dots (x ++ (b'.' ∷ s)) ≡ x ∷ split_dots s
unfolding split_dots
split_dots_label [] s h = refl
split_dots_label (b ∷ x) s (h, hs) = ground (arith, split_dots_label x s hs)

pub split_dots_last : (x : List ℕ) → NoDot x → split_dots x ≡ x ∷ []
unfolding split_dots
split_dots_last [] h = refl
split_dots_last (b ∷ x) (h, hs) = ground (arith, split_dots_last x hs)

pub split_dots-join :
    (x : List ℕ) (xs : List (List ℕ))
    → NoDot x
    → All NoDot xs
    → split_dots (join (b'.' ∷ []) (x ∷ xs)) ≡ x ∷ xs
unfolding join
split_dots-join x [] h hs = split_dots_last x h
split_dots-join x (y ∷ xs) h (hy, hs) =
    split_dots_label x _ h ∙ ap (◌∷◌ x) (split_dots-join y xs hy hs)

pub cut_dot_label : (x s : List ℕ) → NoDot x → cut_dot (x ++ (b'.' ∷ s)) ≡ some (x, s)
unfolding cut_dot
cut_dot_label [] s h = refl
cut_dot_label (b ∷ x) s (h, hs) = ground (arith, cut_dot_label x s hs)

pub remove_dots-NoDot : (x : List ℕ) → NoDot x → remove_dots x ≡ x
unfolding remove_dots
remove_dots-NoDot [] h = refl
remove_dots-NoDot (b ∷ x) (h, hs) = ground (arith, remove_dots-NoDot x hs)

pub remove_dots-append :
    (xs ys : List ℕ) → remove_dots (xs ++ ys) ≡ remove_dots xs ++ remove_dots ys
unfolding remove_dots
remove_dots-append [] ys = refl
remove_dots-append (x ∷ xs) ys = ground (arith, remove_dots-append xs ys)

pub has_prefix_append : (p s : List ℕ) → has_prefix (p ++ s) p ≡ true
unfolding has_prefix
has_prefix_append p s = rw take-length-append (bytes_eq_refl p)

pub has_suffix_append : (s x : List ℕ) → has_suffix (s ++ x) x ≡ true
unfolding has_suffix
has_suffix_append s x =
    let n : length (s ++ x) - length x ≡ length s = omega (arith, length-append s x) in
    rw (n, drop-length-append) (ground (arith, bytes_eq_refl x, length-append s x))

pub trim_prefix_append : (p s : List ℕ) → trim_prefix (p ++ s) p ≡ s
unfolding trim_prefix
trim_prefix_append p s = rw (has_prefix_append p s) (drop-length-append p s)

pub trim_suffix_append : (s x : List ℕ) → trim_suffix (s ++ x) x ≡ s
unfolding trim_suffix
trim_suffix_append s x =
    let n : length (s ++ x) - length x ≡ length s = omega (arith, length-append s x) in
    rw (has_suffix_append s x, n) (take-length-append s x)

pub length-to_lower : (s : List ℕ) → length (to_lower s) ≡ length s
unfolding to_lower
length-to_lower [] = refl
length-to_lower (b ∷ s) = ap suc (length-to_lower s)

pub to_lower-append : (xs ys : List ℕ) → to_lower (xs ++ ys) ≡ to_lower xs ++ to_lower ys
unfolding to_lower
to_lower-append [] ys = refl
to_lower-append (x ∷ xs) ys = ap (◌∷◌ (lower_byte x)) (to_lower-append xs ys)

-- Joining the parts with dots gives the text again.
join-push_byte :
    (b : ℕ) (x : List ℕ) (xs : List (List ℕ))
    → join (b'.' ∷ []) ((b ∷ x) ∷ xs) ≡ b ∷ join (b'.' ∷ []) (x ∷ xs)
unfolding join
join-push_byte b x [] = refl
join-push_byte b x (y ∷ xs) = refl

-- The parts are at least one.
pub split_dots_cons :
    (s : List ℕ)
    → (x : List ℕ) × (xs : List (List ℕ)) × (split_dots s ≡ x ∷ xs)
      × (join (b'.' ∷ []) (x ∷ xs) ≡ s)
unfolding split_dots join
split_dots_cons [] = ([], [], refl, refl)
split_dots_cons (b ∷ s) =
    let (x, xs, e, j) = split_dots_cons s in
    elim (Bool-cases (b == b'.')) [
      | inl dot ↦ ([], x ∷ xs, ground arith, ground arith)
      | inr other ↦ (b ∷ x, xs, ground arith, join-push_byte b x xs ∙ ap (◌∷◌ b) j)
    ]

pub length-join_cons :
    (x : List ℕ) (xs : List (List ℕ)) → length x ≤ length (join (b'.' ∷ []) (x ∷ xs))
unfolding join
length-join_cons x [] = omega arith
length-join_cons x (y ∷ xs) = omega (arith, length-append x (b'.' ∷ join (b'.' ∷ []) (y ∷ xs)))
