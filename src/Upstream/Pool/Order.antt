-- ===== src/Upstream/Pool/Order.antt =====
-- internal/upstream/upstream.go: the pool keeps its upstreams, and keeps them in their order.
use dns_over_minecraft.Prelude.{
  ℕ, ◌<◌, ◌≡◌, refl, arith, Bool, true, false, List, [], ◌∷◌, Bool-cases, inl, inr, ◌⊎◌, none, some,
  bytes_eq, bytes_eq_iff, if◌then◌else◌,
}
use dns_over_minecraft.Text.{bytes_lt}
use dns_over_minecraft.Upstream.Pool.{
  Upstream, Float, UpstreamPool, less, ewma_of, insert_by, sort_by, new_pool, record_success,
  find_ewma, put_ewma,
}
use mathlib.Core.List.{Perm}
use mathlib.Core.List.Perm

-- No upstream is to be tried before the one in front of it.
abbrev Follows : (Upstream → Upstream → Bool) → Upstream → List Upstream → Type 0
Follows before u [] = Unit
Follows before u (v ∷ vs) = before v u ≡ false

abbrev IsOrdered : (Upstream → Upstream → Bool) → List Upstream → Type 0
IsOrdered before [] = Unit
IsOrdered before (u ∷ us) = Follows before u us × IsOrdered before us

-- `<` and `==` of float64 on numbers.
pub record IsComparable {F : Type 0} (float : Float F) : Type 0 where
  pub less_asym : (x y : F) → float.less_float x y ≡ true → float.less_float y x ≡ false
  pub less_total :
      (x y : F)
      → float.less_float x y ≡ false
      → float.same_float x y ≡ false
      → float.less_float y x ≡ true
  pub same_sym : (x y : F) → float.same_float x y ≡ float.same_float y x

bytes_lt_asym : (x y : List ℕ) → bytes_lt x y ≡ true → bytes_lt y x ≡ false
unfolding bytes_lt
bytes_lt_asym [] [] h = cc
bytes_lt_asym [] (b ∷ y) h = refl
bytes_lt_asym (a ∷ x) [] h = cc
bytes_lt_asym (a ∷ x) (b ∷ y) h = ground (arith, bytes_lt_asym x y)

less_asym :
    {F : Type 0} (float : Float F) (ewma : List (List ℕ × F)) (u v : Upstream)
    → IsComparable float
    → less float ewma u v ≡ true
    → less float ewma v u ≡ false
unfolding less
less_asym float ewma u v c h =
    let x = ewma_of float ewma u in
    let y = ewma_of float ewma v in
    ground (arith, c.less_asym x y, c.same_sym x y, bytes_lt_asym u.name v.name)

module _ (before : Upstream → Upstream → Bool)
    (asym : (u v : Upstream) → before u v ≡ true → before v u ≡ false) where
  Follows-insert_by :
      (w u : Upstream) (us : List Upstream)
      → before u w ≡ false
      → Follows before w us
      → Follows before w (insert_by before u us)
  unfolding insert_by
  Follows-insert_by w u [] h f = h
  Follows-insert_by w u (v ∷ vs) h f = elim (Bool-cases (before u v)) [
    | inl e ↦ rw e h
    | inr e ↦ rw e f
  ]

  insert_by-IsOrdered :
      (u : Upstream) (us : List Upstream)
      → IsOrdered before us
      → IsOrdered before (insert_by before u us)
  unfolding insert_by
  insert_by-IsOrdered u [] o = (tt, tt)
  insert_by-IsOrdered u (v ∷ vs) (f, o) = elim (Bool-cases (before u v)) [
    | inl e ↦ rw e (asym u v e, (f, o))
    | inr e ↦ rw e (Follows-insert_by v u vs e f, insert_by-IsOrdered u vs o)
  ]

  sort_by-IsOrdered : (us : List Upstream) → IsOrdered before (sort_by before us)
  unfolding sort_by
  sort_by-IsOrdered [] = tt
  sort_by-IsOrdered (u ∷ us) = insert_by-IsOrdered u (sort_by before us) (sort_by-IsOrdered us)

insert_by-perm :
    (before : Upstream → Upstream → Bool) (u : Upstream) (us : List Upstream)
    → Perm (insert_by before u us) (u ∷ us)
unfolding insert_by
insert_by-perm before u [] = Perm.rfl
insert_by-perm before u (v ∷ vs) = elim (Bool-cases (before u v)) [
  | inl e ↦ rw (e, insert_by) Perm.rfl
  | inr e ↦
      rw (e, insert_by) (Perm.trans (Perm.cons v (insert_by-perm before u vs)) (Perm.swap u v vs))
]

pub sort_by-perm :
    (before : Upstream → Upstream → Bool) (us : List Upstream) → Perm (sort_by before us) us
unfolding sort_by
sort_by-perm before [] = Perm.rfl
sort_by-perm before (u ∷ us) =
    Perm.trans (insert_by-perm before u (sort_by before us)) (Perm.cons u (sort_by-perm before us))

module _ {F : Type 0} (float : Float F) (ewma : List (List ℕ × F)) where
  -- The order of the pool: the higher priority, then the lower response time, then the name.
  abbrev pub IsBefore : Upstream → Upstream → Type 0
  IsBefore u v =
      (v.priority < u.priority)
      ⊎ ((u.priority ≡ v.priority)
          × ((float.less_float (ewma_of float ewma u) (ewma_of float ewma v) ≡ true)
              ⊎ ((float.same_float (ewma_of float ewma u) (ewma_of float ewma v) ≡ true)
                  × (bytes_lt v.name u.name ≡ false))))

  -- Each upstream is before the one behind it.
  abbrev pub IsRanked : List Upstream → Type 0
  IsRanked [] = Unit
  IsRanked (u ∷ []) = Unit
  IsRanked (u ∷ v ∷ us) = IsBefore u v × IsRanked (v ∷ us)

  less-IsBefore : (u v : Upstream) → IsComparable float → less float ewma v u ≡ false → IsBefore u v
  unfolding less
  less-IsBefore u v c h =
      let x = ewma_of float ewma u in
      let y = ewma_of float ewma v in ground (arith, c.same_sym x y, c.less_total x y)

  IsOrdered-IsRanked :
      (us : List Upstream) → IsComparable float → IsOrdered (less float ewma) us → IsRanked us
  IsOrdered-IsRanked [] c o = tt
  IsOrdered-IsRanked (u ∷ []) c o = tt
  IsOrdered-IsRanked (u ∷ v ∷ us) c (f, o) =
      (less-IsBefore u v c f, IsOrdered-IsRanked (v ∷ us) c o)

  sort_by-IsRanked :
      (us : List Upstream) → IsComparable float → IsRanked (sort_by (less float ewma) us)
  sort_by-IsRanked us c =
      IsOrdered-IsRanked _ c (sort_by-IsOrdered _ (λ v w. less_asym float ewma v w c) us)

pub new_pool-IsRanked :
    {F : Type 0} (float : Float F) (us : List Upstream)
    → IsComparable float
    → IsRanked float (new_pool float us).ewma (new_pool float us).upstream_list
unfolding new_pool
new_pool-IsRanked float us c = sort_by-IsRanked float [] us c

find-put_ewma :
    {F : Type 0} (name other : List ℕ) (value : F) (ewma : List (List ℕ × F))
    → find_ewma other (put_ewma name value ewma)
      ≡ (if bytes_eq name other then some value else find_ewma other ewma)
unfolding find_ewma put_ewma
find-put_ewma name other value [] = refl
find-put_ewma name other value ((n, v) ∷ ewma) = ground (
  arith,
  find-put_ewma name other value ewma,
  bytes_eq_iff n name,
  bytes_eq_iff n other,
  bytes_eq_iff name other,
)

-- A success of an upstream leaves the same upstreams in the pool, none lost and none added. Its
-- response time becomes the milliseconds of the success if it had none, or their average with the one
-- it had, and the response times of all other names stay. Each upstream in the pool then has a higher
-- priority than the one behind it, or the same and a lower response time by these, or the same of both
-- and a name that is not behind in the order of strings; `<` and `==` are those of numbers.
pub record_success-IsRanked :
    {F : Type 0} (float : Float F) (p : UpstreamPool F) (u : Upstream) (elapsed : ℕ) (name : List ℕ)
    → IsComparable float
    → Perm (record_success float p u elapsed).upstream_list p.upstream_list
      × (find_ewma name (record_success float p u elapsed).ewma ≡ (
          if bytes_eq u.name name
          then some (elim (find_ewma u.name p.ewma) [
            | none ↦ float.milliseconds elapsed
            | some previous ↦ float.smooth (float.milliseconds elapsed) previous
          ])
          else find_ewma name p.ewma))
      × IsRanked float
          (record_success float p u elapsed).ewma
          (record_success float p u elapsed).upstream_list
unfolding record_success
record_success-IsRanked float p u elapsed name c = (
  sort_by-perm _ p.upstream_list,
  find-put_ewma u.name name _ p.ewma,
  sort_by-IsRanked float _ p.upstream_list c,
)
