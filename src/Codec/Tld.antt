-- ===== src/Codec/Tld.antt =====
-- internal/dnscodec/codec.go: tldList, and the maps tldToCode and codeToTLD that `init` fills.
use dns_over_minecraft.Prelude.{
  ℕ, ◌+◌, ◌%◌, ◌≡◌, ◌≤◌, refl, arith, Bool, true, false, ◌&&◌, List, [], ◌∷◌, leb, ltb, ◌==◌,
  if◌then◌else◌, Option, none, some, bytes_eq, bytes_eq_iff,
}
use dns_over_minecraft.Text.{codes}

unfoldable pub tld_list : List (List ℕ)
tld_list =
    codes "com"
    ∷ codes "net"
    ∷ codes "org"
    ∷ codes "info"
    ∷ codes "biz"
    ∷ codes "edu"
    ∷ codes "gov"
    ∷ codes "mil"
    ∷ codes "int"
    ∷ codes "arpa"
    ∷ codes "coop"
    ∷ codes "museum"
    ∷ codes "aero"
    ∷ codes "jobs"
    ∷ codes "cat"
    ∷ codes "travel"
    ∷ codes "asia"
    ∷ codes "tel"
    ∷ codes "mobi"
    ∷ codes "name"
    ∷ codes "pro"
    ∷ codes "post"
    ∷ codes "xxx"
    ∷ codes "xyz"
    ∷ codes "top"
    ∷ codes "shop"
    ∷ codes "online"
    ∷ codes "store"
    ∷ codes "site"
    ∷ codes "vip"
    ∷ codes "sbs"
    ∷ codes "app"
    ∷ codes "click"
    ∷ codes "bond"
    ∷ codes "lol"
    ∷ codes "live"
    ∷ codes "icu"
    ∷ codes "cfd"
    ∷ codes "club"
    ∷ codes "space"
    ∷ codes "dev"
    ∷ codes "cyou"
    ∷ codes "fun"
    ∷ codes "tech"
    ∷ codes "cloud"
    ∷ codes "life"
    ∷ codes "today"
    ∷ codes "world"
    ∷ codes "buzz"
    ∷ codes "blog"
    ∷ codes "digital"
    ∷ codes "work"
    ∷ codes "link"
    ∷ codes "website"
    ∷ codes "one"
    ∷ codes "art"
    ∷ codes "autos"
    ∷ codes "lat"
    ∷ codes "help"
    ∷ codes "skin"
    ∷ codes "studio"
    ∷ codes "group"
    ∷ codes "bet"
    ∷ codes "rest"
    ∷ codes "win"
    ∷ codes "ink"
    ∷ codes "garden"
    ∷ codes "wiki"
    ∷ codes "beer"
    ∷ codes "homes"
    ∷ codes "agency"
    ∷ codes "pics"
    ∷ codes "ltd"
    ∷ codes "makeup"
    ∷ codes "email"
    ∷ codes "run"
    ∷ codes "xin"
    ∷ codes "cam"
    ∷ codes "solutions"
    ∷ codes "fyi"
    ∷ codes "tokyo"
    ∷ codes "media"
    ∷ codes "services"
    ∷ codes "beauty"
    ∷ codes "company"
    ∷ codes "news"
    ∷ codes "boats"
    ∷ codes "fit"
    ∷ codes "network"
    ∷ codes "qpon"
    ∷ codes "bid"
    ∷ codes "best"
    ∷ codes "zone"
    ∷ codes "casa"
    ∷ codes "quest"
    ∷ codes "academy"
    ∷ codes "love"
    ∷ codes "international"
    ∷ codes "microsoft"
    ∷ []

-- The loop of `init`: a later entry would hide an earlier one of the same name or code.
unfoldable pub fill : ℕ → List (List ℕ) → List (List ℕ × ℕ) → List (List ℕ × ℕ)
fill index [] table = table
fill index (tld_entry ∷ rest) table = fill (index + 1) rest ((tld_entry, (index + 1) % 256) ∷ table)

unfoldable pub tld_table : List (List ℕ × ℕ)
unfolding fill tld_list
tld_table = fill 0 tld_list []

unfoldable pub lookup_name : List ℕ → List (List ℕ × ℕ) → Option ℕ
lookup_name name [] = none
lookup_name name ((entry, code) ∷ table) =
    if bytes_eq entry name then some code else lookup_name name table

unfoldable pub lookup_code : ℕ → List (List ℕ × ℕ) → Option (List ℕ)
lookup_code code [] = none
lookup_code code ((entry, c) ∷ table) = if c == code then some entry else lookup_code code table

unfoldable pub tld_to_code : List ℕ → Option ℕ
unfolding lookup_name tld_table
tld_to_code name = lookup_name name tld_table

unfoldable pub code_to_tld : ℕ → Option (List ℕ)
unfolding lookup_code tld_table
code_to_tld code = lookup_code code tld_table

-- The check of an entry, by evaluation: its code is 1 to 99 and leads back to it.
is_found : Option (List ℕ) → List ℕ → Bool
unfolding bytes_eq
is_found none entry = false
is_found (some t) entry = bytes_eq t entry

all_found : List (List ℕ × ℕ) → List (List ℕ × ℕ) → Bool
unfolding is_found lookup_code
all_found table [] = true
all_found table ((entry, code) ∷ rest) =
    (is_found (lookup_code code table) entry && (leb 1 code && ltb code 100))
    && all_found table rest

tld_table_found : all_found tld_table tld_table ≡ true
unfolding all_found tld_table
tld_table_found = refl

is_found→eq : (o : Option (List ℕ)) (entry : List ℕ) → is_found o entry ≡ true → o ≡ some entry
unfolding is_found
is_found→eq none entry h = cc
is_found→eq (some t) entry h = ground (arith, bytes_eq_iff t entry)

lookup_name-found :
    (table rest : List (List ℕ × ℕ)) (name : List ℕ) (code : ℕ)
    → all_found table rest ≡ true
    → lookup_name name rest ≡ some code
    → (lookup_code code table ≡ some name) × (1 ≤ code) × (code ≤ 99)
unfolding all_found lookup_name
lookup_name-found table [] name code h e = cc
lookup_name-found table ((entry, c) ∷ rest) name code h e = ground (
  arith,
  is_found→eq (lookup_code c table) entry,
  bytes_eq_iff entry name,
  lookup_name-found table rest name code,
)

-- A top-level domain in the table has a code from 1 to 99, which leads back to it.
pub code_to_tld-tld_to_code :
    (name : List ℕ) (code : ℕ)
    → tld_to_code name ≡ some code
    → (code_to_tld code ≡ some name) × (1 ≤ code) × (code ≤ 99)
unfolding code_to_tld tld_to_code
code_to_tld-tld_to_code name code e =
    lookup_name-found tld_table tld_table name code tld_table_found e
