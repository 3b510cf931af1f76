-- ===== src/Schedule/Topo/Step.antt =====
-- One round of Kahn's loop keeps the invariant of the sort.
use mathlib.Core.List.{append_assoc}
use xrune.Base.{
  ℕ, suc, ◌+◌, ◌<◌, ◌≡◌, ap, ◌∙◌, inl, inr, Bool, true, false, List, [], ◌∷◌, ◌++◌, arith, ◌==◌,
  if◌then◌else◌, length, get_or, set, All, All-append, member, count, index_of, Distinct, if_holds,
  Distinct-snoc, member_snoc, member-append_left, index_of-append, index_of_snoc,
  index_of-lt-length, member_of_index_of-lt, Bool-cases, get_or-modify_self, get_or-modify_ne,
  length-modify,
}
use xrune.Schedule.Topo.{decrement, relax}
use xrune.Schedule.Topo.Edges.{Edges, has_edge, indegree, indegree-zero}

-- What holds of the nodes seen so far (sorted, or in the queue): they are the nodes with no edge
-- left to wait for, each once, and the source of an edge stands before its target. `there` tells
-- which of the numbers below `n` are nodes.
pub record Seen (n : ℕ) (there : ℕ → Bool) (es : Edges) (degree : List ℕ) (seen : List ℕ)
    : Type 0 where
  pub width : length degree ≡ n
  pub inside : (v : ℕ) → there v ≡ true → v < n
  pub ready : (v : ℕ) → there v ≡ true → member v seen ≡ (get_or degree v 0 == 0)
  pub bounded : All (λ v. there v ≡ true) seen
  pub distinct : Distinct seen
  pub ordered :
      (u v : ℕ) → has_edge u v es ≡ true → member v seen ≡ true → index_of u seen < index_of v seen

abbrev pub extend : ℕ → ℕ → List ℕ → List ℕ
extend v left seen = if left == 0 then seen ++ v ∷ [] else seen

module _ (n : ℕ) (there : ℕ → Bool) (es : Edges) (degree seen : List ℕ) (v left : ℕ)
    (s : Seen n there es degree seen) (v_in : there v ≡ true) (now : get_or degree v 0 ≡ suc left)
    (closed : left ≡ 0 → (u : ℕ) → has_edge u v es ≡ true → member u seen ≡ true) where
  v_new : member v seen ≡ false
  v_new = ground (arith, s.ready v v_in)

  extend-ready :
      (w : ℕ)
      → there w ≡ true
      → member w (extend v left seen) ≡ (get_or (set degree v left) w 0 == 0)
  extend-ready w h = ground (
    arith,
    s.ready w h,
    s.width,
    s.inside v v_in,
    v_new,
    member_snoc w v seen,
    get_or-modify_self degree v (λ _. left) 0,
    get_or-modify_ne degree v w (λ _. left) 0,
  )

  extend-ordered :
      (u w : ℕ)
      → has_edge u w es ≡ true
      → member w (seen ++ v ∷ []) ≡ true
      → left ≡ 0
      → index_of u (seen ++ v ∷ []) < index_of w (seen ++ v ∷ [])
  extend-ordered u w e m none_left = elim (Bool-cases (member w seen)) [
    | inl old ↦ ground (
      arith,
      s.ordered u w e old,
      index_of-lt-length w seen old,
      member_of_index_of-lt u seen,
      index_of-append u seen (v ∷ []),
      index_of-append w seen (v ∷ []),
    )
    | inr new ↦
        let same : v ≡ w = ground (arith, member_snoc w v seen) in
        let known : member u seen ≡ true = closed none_left u (rw same e) in
        ground (
          arith,
          known,
          index_of-lt-length u seen known,
          index_of-append u seen (v ∷ []) known,
          ap (λ x. index_of x (seen ++ v ∷ [])) same,
          index_of_snoc v seen v_new,
        )
  ]

  pub extend-Seen : Seen n there es (set degree v left) (extend v left seen)
  extend-Seen = record {
    width = length-modify degree v _ ∙ s.width;
    inside = s.inside;
    ready = extend-ready;
    bounded =
        if_holds (All (λ w. there w ≡ true)) (left == 0) _ _
          (λ _. All-append (λ w. there w ≡ true) seen (v ∷ []) s.bounded (v_in, tt))
          (λ _. s.bounded);
    distinct = ground (arith, Distinct-snoc seen v s.distinct v_new);
    ordered = λ u w e m. ground (arith, s.ordered u w e, extend-ordered u w e);
  }

relax_cons :
    (v left : ℕ) (vs degree q : List ℕ)
    → get_or degree v 0 ≡ suc left
    → relax (v ∷ vs) degree q ≡ relax vs (set degree v left) (if left == 0 then q ++ v ∷ [] else q)
unfolding relax decrement
relax_cons v left vs degree q e = rw e

extend-append :
    (v left : ℕ) (front q : List ℕ)
    → extend v left (front ++ q) ≡ front ++ (if left == 0 then q ++ v ∷ [] else q)
extend-append v left front q = ground (arith, append_assoc front q (v ∷ []))

-- relax() over the successors of the node taken: they wait for one edge less each, and those that
-- wait for nothing more join the queue.
module _ (n : ℕ) (there : ℕ → Bool) (es rest : Edges) (front : List ℕ)
    (closed : (u v : ℕ)
      → has_edge u v es ≡ true
      → has_edge u v rest ≡ false
      → member u front ≡ true) where
  abbrev Relaxed : List ℕ × List ℕ → Type 0
  Relaxed r =
      Seen n there es r.0 (front ++ r.1)
      × ((v : ℕ) → there v ≡ true → get_or r.0 v 0 ≡ indegree v rest)

  count_step :
      (v : ℕ) (vs degree : List ℕ)
      → length degree ≡ n
      → v < n
      → ((w : ℕ) → there w ≡ true → get_or degree w 0 ≡ count w (v ∷ vs) + indegree w rest)
      → (w : ℕ) → there w ≡ true
      → get_or (set degree v (count v vs + indegree v rest)) w 0 ≡ count w vs + indegree w rest
  count_step v vs degree width h counts w t = ground (
    arith,
    counts w t,
    get_or-modify_self degree v (λ _. count v vs + indegree v rest) 0,
    get_or-modify_ne degree v w (λ _. count v vs + indegree v rest) 0,
  )

  pub relax-Seen :
      (ts degree q : List ℕ)
      → Seen n there es degree (front ++ q)
      → All (λ v. there v ≡ true) ts
      → ((v : ℕ) → there v ≡ true → get_or degree v 0 ≡ count v ts + indegree v rest)
      → Relaxed (relax ts degree q)
  relax-Seen [] degree q s b counts = unfold relax in (s, λ v t. omega (arith, counts v t))
  relax-Seen (v ∷ vs) degree q s b counts =
      let left : ℕ = count v vs + indegree v rest in
      let now : get_or degree v 0 ≡ suc left = ground (arith, counts v b.0) in
      let known = λ (e : left ≡ 0) (u : ℕ) (h : has_edge u v es ≡ true).
        member-append_left u front q (closed u v h (indegree-zero u v rest (omega arith))) in
      rw (relax_cons v left vs degree q now) (
        relax-Seen vs (set degree v left) _
          (rw (extend-append v left front q) at
            (extend-Seen n there es degree (front ++ q) v left s b.0 now known))
          b.1 (count_step v vs degree s.width (s.inside v b.0) counts))
