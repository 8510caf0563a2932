-- ===== src/Mc/Address/Suffix.antt =====
-- internal/dnscodec/codec.go: StripSuffix takes off the suffix that withSuffix of
-- internal/mc/client.go put behind an address.
use dns_over_minecraft.Prelude.{
  ℕ, ◌+◌, ◌-◌, ◌<◌, ◌≡◌, ◌≢◌, refl, ap, sym, ◌∙◌, arith, List, [], ◌∷◌, ◌++◌, length, drop,
  bytes_eq, length-append, take-length-append, Bool-cases, inl, inr,
}
use dns_over_minecraft.Text.{NoDot, has_prefix, has_suffix, trim_suffix, to_lower}
use dns_over_minecraft.Text.Dots.{has_suffix_append, trim_suffix_append, to_lower-append}
use dns_over_minecraft.Codec.Query.{strip_suffix}
use dns_over_minecraft.Mc.Address.{with_suffix}
use mathlib.Core.List.{append_assoc}

-- The last byte of a text that is not empty.
last_of :
    (x : List ℕ)
    → NoDot x
    → 0 < length x
    → (front : List ℕ) × (c : ℕ) × (x ≡ front ++ (c ∷ [])) × (c ≢ b'.')
last_of [] h filled = absurd (omega arith)
last_of (c ∷ []) (h, _) filled = ([], c, refl, h)
last_of (b ∷ c ∷ x) (_, h) filled =
    let (front, d, e, other) = last_of (c ∷ x) h (omega arith) in
    (b ∷ front, d, ap (◌∷◌ b) e, other)

drop-length_append : (front : List ℕ) (c : ℕ) → drop (length front) (front ++ (c ∷ [])) ≡ c ∷ []
drop-length_append [] c = refl
drop-length_append (b ∷ front) c = drop-length_append front c

trim_suffix_last :
    (front : List ℕ) (c : ℕ)
    → c ≢ b'.'
    → trim_suffix (front ++ (c ∷ [])) (b'.' ∷ []) ≡ front ++ (c ∷ [])
unfolding trim_suffix has_suffix bytes_eq
trim_suffix_last front c other =
    let size : length (front ++ (c ∷ [])) ≡ length front + 1 = length-append front (c ∷ []) in
    let back : length front + 1 - 1 ≡ length front = omega arith in
    rw (size, back, drop-length_append front c) (ground arith)

-- An address that ends with a text of no dot has no dot to trim.
pub trim_suffix_label :
    (prefix x : List ℕ)
    → NoDot x
    → 0 < length x
    → trim_suffix (prefix ++ x) (b'.' ∷ []) ≡ prefix ++ x
trim_suffix_label prefix x h filled =
    let (front, c, e, other) = last_of x h filled in
    let whole : prefix ++ x ≡ (prefix ++ front) ++ (c ∷ []) =
      ap (λ t. prefix ++ t) e ∙ sym (append_assoc prefix front (c ∷ [])) in
    rw whole (trim_suffix_last (prefix ++ front) c other)

strip_suffix_lem :
    (address : List ℕ) (b : ℕ) (suffix : List ℕ)
    → strip_suffix (address ++ (b ∷ suffix)) (b ∷ suffix) ≡ trim_suffix address (b'.' ∷ [])
unfolding strip_suffix
strip_suffix_lem address b suffix =
    let size : length (address ++ (b ∷ suffix)) - length (b ∷ suffix) ≡ length address =
      omega (arith, length-append address (b ∷ suffix)) in
    rw
      (
        to_lower-append address (b ∷ suffix),
        has_suffix_append (to_lower address) (to_lower (b ∷ suffix)),
        size,
        take-length-append address (b ∷ suffix),
      )
      (ground arith)

-- An address that ends with a text of no dot comes back from behind any suffix.
pub strip_suffix-with_suffix :
    (prefix x suffix : List ℕ)
    → NoDot x
    → 0 < length x
    → strip_suffix (with_suffix (prefix ++ x) suffix) suffix ≡ prefix ++ x
unfolding with_suffix
strip_suffix-with_suffix prefix x [] h filled = unfold strip_suffix in refl
strip_suffix-with_suffix prefix x (b ∷ suffix) h filled =
    elim (Bool-cases (has_prefix (b ∷ suffix) (b'.' ∷ []))) [
      | inl dotted ↦
          rw dotted (strip_suffix_lem (prefix ++ x) b suffix ∙ trim_suffix_label prefix x h filled)
      | inr bare ↦
          rw (bare, ← append_assoc (prefix ++ x) (b'.' ∷ []) (b ∷ suffix))
            (strip_suffix_lem ((prefix ++ x) ++ (b'.' ∷ [])) b suffix
              ∙ trim_suffix_append (prefix ++ x) (b'.' ∷ []))
    ]
