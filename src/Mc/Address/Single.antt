-- ===== src/Mc/Address/Single.antt =====
-- internal/mc/server.go: extractPassphrase takes back what authPrefixFor put in front of an address.
use dns_over_minecraft.Prelude.{
  ℕ, ◌≡◌, refl, List, [], ◌∷◌, ◌++◌, none, some, bytes_eq, if◌then◌else◌,
}
use dns_over_minecraft.Text.{NoDot, has_prefix}
use dns_over_minecraft.Text.Dots.{cut_dot_label}
use dns_over_minecraft.Mc.Address.{auth_prefix_for, extract_passphrase}
use mathlib.Core.List.{append_assoc}

-- For a passphrase that is not empty and has no dot, extractPassphrase takes the passphrase and its
-- prefix off the address that authPrefixFor prefixes, and refuses every other expected passphrase.
pub extract_passphrase-auth_prefix_for :
    (b : ℕ) (passphrase rest expected : List ℕ)
    → NoDot (b ∷ passphrase)
    → extract_passphrase (auth_prefix_for (b ∷ passphrase) ++ rest) expected
      ≡ (if bytes_eq (b ∷ passphrase) expected then some rest else none)
unfolding extract_passphrase auth_prefix_for has_prefix
extract_passphrase-auth_prefix_for b passphrase rest expected h =
    rw (append_assoc (b ∷ passphrase) (b'.' ∷ []) rest, cut_dot_label (b ∷ passphrase) rest h) refl
