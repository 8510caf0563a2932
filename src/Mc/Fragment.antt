-- ===== src/Mc/Fragment.antt =====
-- internal/mc/fragment.go: queries that arrive in pieces. The assembler's map is the list of its
-- sets with their keys, and a set's map the list of its pieces with their indices. `add` is taken
-- as one step, and a piece as a byte string.
pub mod Indices
pub mod Assembly
use dns_over_minecraft.Prelude.{
  ℕ, zero, suc, ◌+◌, ◌*◌, ◌^◌, Bool, true, false, ◌&&◌, not, List, [], ◌∷◌, ◌++◌, ltb, ◌==◌,
  if◌then◌else◌, Option, none, some, length, bytes_eq,
}
use dns_over_minecraft.Dns.{Msg}

-- 5 s, in nanoseconds.
abbrev pub fragment_timeout : ℕ
fragment_timeout = 5 * 10 ^ 9

-- The key: client address and nonce.
pub record FragmentKey : Type 0 where
  pub client_ip : List ℕ
  pub nonce : List ℕ

unfoldable pub key_eq : FragmentKey → FragmentKey → Bool
unfolding bytes_eq
key_eq a b = bytes_eq a.client_ip b.client_ip && bytes_eq a.nonce b.nonce

-- `response` is the message of storeResult, if it is not nil, and `resolve_error` says whether its
-- error is not nil.
pub record FragmentSet : Type 0 where
  pub pieces : List (ℕ × List ℕ)
  pub total : ℕ
  pub started : Bool
  pub done : Bool
  pub response : Option Msg
  pub resolve_error : Bool
  pub last_seen : ℕ

abbrev pub empty_set : FragmentSet
empty_set = record {
  pieces = [];
  total = 0;
  started = false;
  done = false;
  response = none;
  resolve_error = false;
  last_seen = 0;
}

-- `set.pieces[index] = piece`
unfoldable pub put_piece : ℕ → List ℕ → List (ℕ × List ℕ) → List (ℕ × List ℕ)
put_piece index piece [] = (index, piece) ∷ []
put_piece index piece ((i, p) ∷ pieces) =
    if i == index then (index, piece) ∷ pieces else (i, p) ∷ put_piece index piece pieces

-- `set.pieces[index]`, empty if there is none.
unfoldable pub piece_at : ℕ → List (ℕ × List ℕ) → List ℕ
piece_at index [] = []
piece_at index ((i, p) ∷ pieces) = if i == index then p else piece_at index pieces

-- What `add` does to the set, under its mutex: the set, and whether this call completes it.
unfoldable pub add_piece : FragmentSet → ℕ → ℕ → List ℕ → FragmentSet × Bool
unfolding put_piece
add_piece s index total piece =
    let total' = if s.total == 0 then total else s.total in
    let pieces' = put_piece index piece s.pieces in
    let completer = not s.started && (not s.done && length pieces' == total') in
    (
      record s {
        total = total';
        pieces = pieces';
        started = if completer then true else s.started;
      },
      completer,
    )

-- The loop of reassemble, with `count` rounds to go.
unfoldable pub reassemble_from : ℕ → ℕ → List (ℕ × List ℕ) → List ℕ
unfolding piece_at
reassemble_from zero index pieces = []
reassemble_from (suc count) index pieces =
    piece_at index pieces ++ reassemble_from count (index + 1) pieces

unfoldable pub reassemble : FragmentSet → List ℕ
unfolding reassemble_from
reassemble s = reassemble_from s.total 1 s.pieces

unfoldable pub store_result : FragmentSet → Option Msg → Bool → FragmentSet
store_result s response resolve_error = record s {
  response = response;
  resolve_error = resolve_error;
  done = true;
}

-- What waitResult returns of the set as it is when the wait ends: no message is an error, that of
-- the resolver or the end of the fragment timeout.
unfoldable pub wait_result : FragmentSet → Option (Option Msg)
wait_result s = if s.done then (if s.resolve_error then none else some s.response) else none

abbrev pub Sets : Type 0
Sets = List (FragmentKey × FragmentSet)

-- purgeLocked: the sets that were seen in the last two timeouts.
unfoldable pub purge : ℕ → Sets → Sets
purge now [] = []
purge now ((k, s) ∷ sets) =
    let rest = purge now sets in
    if ltb (s.last_seen + 2 * fragment_timeout) now then rest else (k, s) ∷ rest

unfoldable pub find_set : FragmentKey → Sets → Option FragmentSet
unfolding key_eq
find_set key [] = none
find_set key ((k, s) ∷ sets) = if key_eq k key then some s else find_set key sets

unfoldable pub put_set : FragmentKey → FragmentSet → Sets → Sets
unfolding key_eq
put_set key s [] = (key, s) ∷ []
put_set key s ((k, t) ∷ sets) =
    if key_eq k key then (key, s) ∷ sets else (k, t) ∷ put_set key s sets

unfoldable pub add : Sets → ℕ → FragmentKey → ℕ → ℕ → List ℕ → Sets × FragmentSet × Bool
unfolding purge find_set put_set add_piece
add sets now key index total piece =
    let kept = purge now sets in
    let found : FragmentSet = elim (find_set key kept) [ none ↦ empty_set | some s ↦ s ] in
    let (s, completer) = add_piece (record found { last_seen = now }) index total piece in
    (put_set key s kept, s, completer)
