-- ===== src/Upstream/Exchange/Validated.antt =====
-- internal/upstream: an answer that Exchange returns belongs to the query.
use dns_over_minecraft.Prelude.{
  ℕ, ◌≡◌, refl, arith, Bool, true, false, List, [], ◌∷◌, ◌==◌, if◌then◌else◌, Option, none, some,
  length, take, bytes_eq_iff, ok, err, Option-cases, Bool-cases, Result-cases, inl, inr, subst, ap,
  sym, ◌∙◌,
}
use dns_over_minecraft.Text.{to_lower}
use dns_over_minecraft.Dns.{Question, Msg, DnsLibrary}
use dns_over_minecraft.Upstream.ConnPool.{ConnPool}
use dns_over_minecraft.Upstream.Exchange.{
  ExchangeError, same_question, single_question, validate_response, Stream, checked,
  exchange_on_conn, acquire, retry_fresh, exchange_acquired, exchange, doh_response, exchange_doh,
  max_doh_response_size,
}

-- A response to a query: its identifier, and the one question of both, whose name may differ in
-- case and in the final dot.
pub record Answers (dns : DnsLibrary) (query response : Msg) : Type 0 where
  pub same_id : response.id ≡ query.id
  pub asked : Question
  pub answered : Question
  pub one_asked : query.question ≡ asked ∷ []
  pub one_answered : response.question ≡ answered ∷ []
  pub same_name : to_lower (dns.fqdn answered.name) ≡ to_lower (dns.fqdn asked.name)
  pub same_type : answered.qtype ≡ asked.qtype
  pub same_class : answered.qclass ≡ asked.qclass

single_question_lem :
    (dns : DnsLibrary) (qs rs : List Question)
    → single_question dns qs rs ≡ true
    → (q : Question) × (r : Question) × (qs ≡ q ∷ [])
      × (rs ≡ r ∷ [])
      × (to_lower (dns.fqdn q.name) ≡ to_lower (dns.fqdn r.name))
      × (q.qtype ≡ r.qtype)
      × (q.qclass ≡ r.qclass)
unfolding single_question same_question
single_question_lem dns [] rs h = cc
single_question_lem dns (q ∷ []) [] h = cc
single_question_lem dns (q ∷ []) (r ∷ []) h =
    let name = bytes_eq_iff (to_lower (dns.fqdn q.name)) (to_lower (dns.fqdn r.name)) in
    (q, r, refl, refl, ground (arith, name), ground (arith, h), ground (arith, h))
single_question_lem dns (q ∷ []) (r ∷ s ∷ rs) h = cc
single_question_lem dns (q ∷ p ∷ qs) rs h = cc

validate_response-Answers :
    (dns : DnsLibrary) (query response : Msg)
    → validate_response dns response query ≡ true
    → Answers dns query response
unfolding validate_response
validate_response-Answers dns query response h =
    let (q, r, e, f, name, type, class) =
      single_question_lem dns response.question query.question (ground (arith, h)) in
    record {
      same_id = ground (arith, h);
      asked = r;
      answered = q;
      one_asked = f;
      one_answered = e;
      same_name = name;
      same_type = type;
      same_class = class;
    }

checked-Answers :
    (dns : DnsLibrary) (query m response : Msg)
    → checked dns query m ≡ ok response
    → Answers dns query response
unfolding checked
checked-Answers dns query m response h = elim (Bool-cases (validate_response dns m query)) [
  | inl e ↦
      let same : m ≡ response = ground (arith, h, e) in
      subst (Answers dns query) same (validate_response-Answers dns query m e)
  | inr e ↦ absurd (ground (arith, h, e))
]

exchange_on_conn-Answers :
    (dns : DnsLibrary) (net : Stream) (conn : ℕ) (query response : Msg)
    → exchange_on_conn dns net conn query ≡ ok response
    → Answers dns query response
unfolding exchange_on_conn
exchange_on_conn-Answers dns net conn query response h =
    elim (Option-cases (net.reads conn query)) [
      | inl e ↦ absurd (ground (arith, h, e))
      | inr (m, e) ↦ checked-Answers dns query m response (rw (e, exchange_on_conn) at h)
    ]

retry_fresh-Answers :
    (dns : DnsLibrary) (net : Stream) (fresh : ℕ) (query : Msg) (failure : ExchangeError)
    (response : Msg)
    → retry_fresh dns net fresh query failure ≡ ok response
    → Answers dns query response
unfolding retry_fresh
retry_fresh-Answers dns net fresh query failure response h = elim (Bool-cases net.dials_fresh) [
  | inl e ↦
      exchange_on_conn-Answers dns net fresh query response
        (ap (λ b. if b then exchange_on_conn dns net fresh query else err failure) (sym e) ∙ h)
  | inr e ↦
      let failed : err failure ≡ ok response =
        ap (λ b. if b then exchange_on_conn dns net fresh query else err failure) (sym e) ∙ h in
      cc
]

retried-Answers :
    (dns : DnsLibrary) (net : Stream) (fresh : ℕ) (query : Msg) (failure : ExchangeError)
    (reused : Bool) (response : Msg)
    → (if reused then retry_fresh dns net fresh query failure else err failure) ≡ ok response
    → Answers dns query response
retried-Answers dns net fresh query failure true response h =
    retry_fresh-Answers dns net fresh query failure response h
retried-Answers dns net fresh query failure false response h = cc

exchange_acquired-Answers :
    (dns : DnsLibrary) (net : Stream) (now : ℕ) (query : Msg) (p : ConnPool)
    (acquired : Option (ℕ × Bool)) (response : Msg)
    → (exchange_acquired dns net now query p acquired).1 ≡ ok response
    → Answers dns query response
unfolding exchange_acquired
exchange_acquired-Answers dns net now query p none response h = cc
exchange_acquired-Answers dns net now query p (some (conn, reused)) response h =
    elim (Result-cases (exchange_on_conn dns net conn query)) [
      | inl (m, e) ↦
          exchange_on_conn-Answers dns net conn query response
            (e ∙ (rw (e, exchange_acquired) at h))
      | inr (failure, e) ↦
          retried-Answers dns net p.next_conn query failure reused response
            (rw (e, exchange_acquired) at h)
    ]

doh_response-Answers :
    (dns : DnsLibrary) (query : Msg) (reply : ℕ × List ℕ) (response : Msg)
    → doh_response dns query reply ≡ ok response
    → Answers dns query response
unfolding doh_response
doh_response-Answers dns query (status, body) response h = elim (Bool-cases (status == 200)) [
  | inr e ↦ cc (rw (e, doh_response) at h)
  | inl e ↦ elim (Bool-cases (length (take max_doh_response_size body) == max_doh_response_size)) [
    | inl f ↦ cc (rw (e, f, doh_response) at h)
    | inr f ↦ elim (Option-cases (dns.unpack (take max_doh_response_size body))) [
      | inl g ↦ cc (rw (e, f, g, doh_response) at h)
      | inr (m, g) ↦ checked-Answers dns query m response (rw (e, f, g, doh_response) at h)
    ]
  ]
]

-- Whatever the network does, a message that Exchange of TCP, DoT or DoH returns has the identifier
-- of the query and exactly its one question, up to the case and the final dot of the name.
pub exchange-Answers :
    (dns : DnsLibrary) (net : Stream) (now : ℕ) (p : ConnPool) (pack : Msg → Option (List ℕ))
    (post : List ℕ → Option (ℕ × List ℕ)) (query response : Msg)
    → ((exchange dns net now p query).1 ≡ ok response → Answers dns query response)
      × (exchange_doh dns pack post query ≡ ok response → Answers dns query response)
unfolding exchange exchange_doh
exchange-Answers dns net now p pack post query response = (
  λ h.
      exchange_acquired-Answers dns net now query (acquire now net p p.idle).0
        (acquire now net p p.idle).1 response h,
  λ h. elim (Option-cases (pack query)) [
    | inl e ↦ cc (rw (e, exchange_doh) at h)
    | inr (wire, e) ↦ elim (Option-cases (post wire)) [
      | inl f ↦ cc (rw (e, f, exchange_doh) at h)
      | inr (reply, f) ↦
          doh_response-Answers dns query reply response (rw (e, f, exchange_doh) at h)
    ]
  ],
)
