-- ===== src/Tests/Upstreams.antt =====
-- The theorems on internal/upstream at concrete inputs.
use dns_over_minecraft.Prelude.{
  ℕ, ◌+◌, ◌*◌, ◌/◌, ◌^◌, ◌<◌, ◌≡◌, refl, arith, true, false, List, [], ◌∷◌, none, some, length, ltb,
  bytes_eq, ◌==◌, ok, ◌⊎◌, if◌then◌else◌,
}
use dns_over_minecraft.Text.{codes, to_lower, lower_byte, has_suffix}
use dns_over_minecraft.Dns.{Msg}
use dns_over_minecraft.Cache.Optional.{cached}
use dns_over_minecraft.Upstream.Pool.{
  Upstream, answer, failure, Float, Network, UpstreamPool, find_ewma, record_success,
  exchange as pool_exchange,
}
use dns_over_minecraft.Upstream.Pool.Order.{IsComparable, IsRanked, record_success-IsRanked}
use dns_over_minecraft.Upstream.Pool.Failover.{
  first_answer, message_of, to_option, pool_after, exchange-first_answer,
}
use dns_over_minecraft.Upstream.ConnPool.{
  ConnPool, Action, takes, reserves, dialed, gives_up, drops, releases, new_conn_pool, lends, run,
  act, dial_done, release, without_conn, take_idle, wake,
}
use dns_over_minecraft.Upstream.ConnPool.Invariant.{IsSound, run-IsSound}
use dns_over_minecraft.Upstream.ConnPool.Waiters.{one_lent, none_left, run-one_lent}
use dns_over_minecraft.Upstream.Exchange.{
  Stream, exchange, exchange_doh, acquire, wait_idle, run_others, receive, exchange_acquired,
  exchange_on_conn, checked, validate_response, single_question, same_question, release_all,
}
use dns_over_minecraft.Upstream.Exchange.Returned.{Reaches, Others, exchange-Reaches}
use dns_over_minecraft.Upstream.Exchange.Validated.{Answers, exchange-Answers}
use dns_over_minecraft.Resolver.{Resolver, resolve, lookup_records}
use dns_over_minecraft.Resolver.Upstreams.{
  upstream_pool, upstream_answer, answer_of, resolve-first_answer,
}
use dns_over_minecraft.Tests.{example_dns, query_a, question_a, answer_a}
use dns_over_minecraft.Tests.Resolving.{noon}
use mathlib.Core.List.{Perm}
use mathlib.Core.Option

-- Whole milliseconds for float64, with seven tenths for 0.7.
abbrev pub millis : Float ℕ
millis = record {
  zero_float = 0;
  less_float = ltb;
  same_float = ◌==◌;
  milliseconds = λ d. d / 10 ^ 6;
  smooth = λ sample previous. (sample * 3 + previous * 7) / 10;
}

pub millis-IsComparable : IsComparable millis
millis-IsComparable = record {
  less_asym = λ x y h. ground arith;
  less_total = λ x y h k. ground arith;
  same_sym = λ x y. ground arith;
}

abbrev near : Upstream
near = record { name = codes "near"; priority = 1 }

abbrev far : Upstream
far = record { name = codes "far"; priority = 1 }

abbrev two_upstreams : UpstreamPool ℕ
two_upstreams = record { upstream_list = near ∷ far ∷ []; ewma = [] }

-- The first attempt fails, any other is answered.
abbrev second_answers : Network
second_answers = record {
  outcome = λ attempt u query. if attempt == 0 then failure else answer answer_a;
  done = λ attempt. false;
  elapsed = λ attempt. 5 * 10 ^ 6;
}

record_success-IsRanked_example :
    Perm
      (record_success millis two_upstreams near (9 * 10 ^ 6)).upstream_list
      two_upstreams.upstream_list
    × (find_ewma (codes "near") (record_success millis two_upstreams near (9 * 10 ^ 6)).ewma ≡ (
        if bytes_eq (codes "near") (codes "near")
        then some (elim (find_ewma (codes "near") []) [
          | none ↦ 9 * 10 ^ 6 / 10 ^ 6
          | some previous ↦ (9 * 10 ^ 6 / 10 ^ 6 * 3 + previous * 7) / 10
        ])
        else find_ewma (codes "near") []))
    × IsRanked millis
        (record_success millis two_upstreams near (9 * 10 ^ 6)).ewma
        (record_success millis two_upstreams near (9 * 10 ^ 6)).upstream_list
record_success-IsRanked_example =
    record_success-IsRanked millis two_upstreams near (9 * 10 ^ 6) (codes "near")
      millis-IsComparable

exchange-first_answer_example :
    (to_option (pool_exchange millis second_answers 0 two_upstreams query_a).1
      ≡ Option.map message_of (first_answer second_answers query_a 0 two_upstreams.upstream_list))
    × ((pool_exchange millis second_answers 0 two_upstreams query_a).0
        ≡ pool_after millis second_answers two_upstreams
            (first_answer second_answers query_a 0 two_upstreams.upstream_list))
exchange-first_answer_example =
    exchange-first_answer millis second_answers 0 two_upstreams query_a (λ a. refl)

abbrev over_upstreams : Resolver (ℕ × UpstreamPool ℕ)
over_upstreams = record {
  cache_store = none;
  record_store = none;
  upstream_pool = some (0, two_upstreams);
  stats = record {
    total = 0;
    cache_hits = 0;
    cache_misses = 0;
    domains_all = [];
    domains_window = [];
  };
}

-- No answer of these upstreams is truncated.
whole_answer :
    (m : Msg)
    → upstream_answer example_dns millis second_answers (λ a. refl) 0 two_upstreams query_a ≡ some m
    → m.truncated ≡ false
unfolding first_answer
whole_answer m h = cc h

resolve-first_answer_example :
    (resolve example_dns (upstream_pool millis second_answers) over_upstreams noon query_a).1
    ≡ answer_of example_dns query_a
        (upstream_answer example_dns millis second_answers (λ a. refl) 0 two_upstreams query_a)
unfolding cached lookup_records
resolve-first_answer_example =
    resolve-first_answer example_dns millis second_answers (λ a. refl) over_upstreams 0
      two_upstreams noon query_a question_a [] refl refl refl refl whole_answer

abbrev lend_and_return : List (ℕ × Action)
lend_and_return = (1, reserves) ∷ (2, dialed) ∷ (3, releases 0 true) ∷ (4, takes) ∷ []

abbrev lent_again : ConnPool
lent_again = record (new_conn_pool 2) { total = 1; lent = 0 ∷ []; next_conn = 1 }

run-IsSound_example :
    IsSound lent_again
    × ((conn : ℕ) → lends conn lent_again.lent ≡ true → length lent_again.idle < lent_again.max)
unfolding run act dial_done release without_conn take_idle lends new_conn_pool
run-IsSound_example = run-IsSound 2 lend_and_return lent_again refl

run-one_lent_example :
    (run ((5, releases 0 false) ∷ (5, drops) ∷ []) (one_lent 1 2 1 0) ≡ some (none_left 1 2 1))
    × ((takes ≡ reserves) ⊎ ((takes ≡ gives_up) ⊎ (act 6 takes (none_left 1 2 1) ≡ none)))
run-one_lent_example = run-one_lent 1 2 1 0 5 6 takes (omega arith)

abbrev answers_all : Stream
answers_all = record {
  dials = true;
  dials_fresh = true;
  reads = λ conn query. some (record answer_a { id = query.id; question = query.question });
  others = (5, releases 7 true) ∷ [];
  done = false;
}

-- A pool of one connection, which another thread has.
abbrev full_pool : ConnPool
full_pool = record (new_conn_pool 1) { total = 1; lent = 7 ∷ []; next_conn = 8 }

-- The call waits, gets the connection that the other thread gives back, and gives it back too.
waited : (exchange example_dns answers_all 5 full_pool query_a).0.idle ≡ (7, 5) ∷ []
unfolding exchange acquire wait_idle run_others receive exchange_acquired exchange_on_conn checked
    validate_response single_question same_question bytes_eq act lends release without_conn wake
    release_all new_conn_pool to_lower lower_byte has_suffix
waited = refl

exchange-Reaches_example :
    Reaches full_pool (exchange example_dns answers_all 5 full_pool query_a).0
    × Others answers_all full_pool (exchange example_dns answers_all 5 full_pool query_a).0.lent
exchange-Reaches_example = exchange-Reaches example_dns answers_all 5 full_pool query_a

exchange-Answers_example :
    ((exchange example_dns answers_all 5 (new_conn_pool 2) query_a).1 ≡ ok answer_a
      → Answers example_dns query_a answer_a)
    × (exchange_doh example_dns (λ m. none) (λ wire. none) query_a ≡ ok answer_a
        → Answers example_dns query_a answer_a)
exchange-Answers_example =
    exchange-Answers example_dns answers_all 5 (new_conn_pool 2) (λ m. none) (λ wire. none) query_a
      answer_a
