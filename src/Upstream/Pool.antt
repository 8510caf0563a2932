-- ===== src/Upstream/Pool.antt =====
-- internal/upstream/upstream.go: the upstream servers in the order of their priority and response
-- time. float64 is a type with the operations that the pool uses; a map is the list of its entries.
pub mod Order
pub mod Failover
use dns_over_minecraft.Prelude.{
  ℕ, suc, ◌+◌, Bool, true, false, List, [], ◌∷◌, ltb, ◌==◌, if◌then◌else◌, Option, none, some,
  length, bytes_eq, Result, ok, err, not,
}
use dns_over_minecraft.Text.{bytes_lt}
use dns_over_minecraft.Dns.{Msg}

-- An implementation of the interface Upstream, named by its fields.
pub record Upstream : Type 0 where
  pub name : List ℕ
  pub priority : ℕ

-- What Exchange of an upstream returns: a message, neither message nor error, or an error.
pub data Outcome : Type 0 where
  answer : Msg → Outcome
  no_message : Outcome
  failure : Outcome

pub data PoolError : Type 0 where
  cancelled last_error deadline_exceeded : PoolError

-- float64: 0, `<`, `==`, the milliseconds of a duration, and the new average of a sample and the
-- previous average, `ewmaAlpha*sample + (1-ewmaAlpha)*previous`.
pub record Float (F : Type 0) : Type 0 where
  pub zero_float : F
  pub less_float : F → F → Bool
  pub same_float : F → F → Bool
  pub milliseconds : ℕ → F
  pub smooth : F → F → F

-- What the pool meets when it asks, by the number of the attempt: the outcome of an upstream,
-- whether the context is done before it, and how long it takes.
pub record Network : Type 0 where
  pub outcome : ℕ → Upstream → Msg → Outcome
  pub done : ℕ → Bool
  pub elapsed : ℕ → ℕ

pub record UpstreamPool (F : Type 0) : Type 0 where
  pub upstream_list : List Upstream
  pub ewma : List (List ℕ × F)

-- `ewma[name]`, with whether the map has it.
unfoldable pub find_ewma : {F : Type 0} → List ℕ → List (List ℕ × F) → Option F
unfolding bytes_eq
find_ewma name [] = none
find_ewma name ((n, value) ∷ ewma) = if bytes_eq n name then some value else find_ewma name ewma

unfoldable pub put_ewma : {F : Type 0} → List ℕ → F → List (List ℕ × F) → List (List ℕ × F)
unfolding bytes_eq
put_ewma name value [] = (name, value) ∷ []
put_ewma name value ((n, v) ∷ ewma) =
    if bytes_eq n name then (name, value) ∷ ewma else (n, v) ∷ put_ewma name value ewma

-- `ewma[name]`, 0 if the map has none.
unfoldable pub ewma_of : {F : Type 0} → Float F → List (List ℕ × F) → Upstream → F
unfolding find_ewma
ewma_of float ewma u = elim (find_ewma u.name ewma) [ none ↦ float.zero_float | some v ↦ v ]

unfoldable pub less : {F : Type 0} → Float F → List (List ℕ × F) → Upstream → Upstream → Bool
less float ewma first second =
    let first_ewma = ewma_of float ewma first in
    let second_ewma = ewma_of float ewma second in
    if not (first.priority == second.priority)
    then ltb second.priority first.priority
    else if not (float.same_float first_ewma second_ewma)
    then float.less_float first_ewma second_ewma
    else bytes_lt first.name second.name

-- sort.Slice by `less`, which is total on upstreams of different names.
unfoldable pub insert_by : (Upstream → Upstream → Bool) → Upstream → List Upstream → List Upstream
insert_by before u [] = u ∷ []
insert_by before u (v ∷ vs) = if before u v then u ∷ v ∷ vs else v ∷ insert_by before u vs

unfoldable pub sort_by : (Upstream → Upstream → Bool) → List Upstream → List Upstream
unfolding insert_by
sort_by before [] = []
sort_by before (u ∷ us) = insert_by before u (sort_by before us)

unfoldable pub new_pool : {F : Type 0} → Float F → List Upstream → UpstreamPool F
unfolding sort_by less
new_pool float upstream_list = record {
  upstream_list = sort_by (less float []) upstream_list;
  ewma = [];
}

unfoldable pub record_success :
    {F : Type 0} → Float F → UpstreamPool F → Upstream → ℕ → UpstreamPool F
unfolding sort_by less find_ewma put_ewma
record_success {F = F} float p u elapsed =
    let sample = float.milliseconds elapsed in
    let value : F = elim (find_ewma u.name p.ewma) [
      | some previous ↦ float.smooth sample previous
      | none ↦ sample
    ] in
    let ewma' = put_ewma u.name value p.ewma in
    record { upstream_list = sort_by (less float ewma') p.upstream_list; ewma = ewma' }

-- The loop of Exchange over the snapshot, with whether `lastError` is set: the upstream that
-- answers, the number of its attempt, and the message.
unfoldable pub exchange_loop :
    Network → Msg → ℕ → Bool → List Upstream → Result PoolError (Upstream × ℕ × Msg)
exchange_loop net query attempt failed [] = err (if failed then last_error else deadline_exceeded)
exchange_loop net query attempt failed (u ∷ us) =
    let next : Result PoolError (Upstream × ℕ × Msg) = elim (net.outcome attempt u query) [
      | answer m ↦ ok (u, attempt, m)
      | no_message ↦ exchange_loop net query (attempt + 1) false us
      | failure ↦ exchange_loop net query (attempt + 1) true us
    ] in
    if net.done attempt then err cancelled else next

-- Exchange, from the number of its first attempt on.
unfoldable pub exchange :
    {F : Type 0}
    → Float F
    → Network
    → ℕ
    → UpstreamPool F
    → Msg
    → UpstreamPool F × Result PoolError Msg
unfolding record_success
exchange float net attempt p query = elim (exchange_loop net query attempt false p.upstream_list) [
  | ok (u, n, m) ↦ (record_success float p u (net.elapsed n), ok m)
  | err e ↦ (p, err e)
]
