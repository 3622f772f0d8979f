-- ===== src/Job/Table/Taken.antt =====
-- core/bin/job/table.rs: what `ready_take` takes out of the queue.
use sysmaster.Base.{
  Bool, true, false, ◌||◌, ◌≡◌, refl, subst, sym, List, [], ◌∷◌, Option, none, some, contains, ◌==◌,
  string_eq, set_remove, contains-set_remove, IsDistinct, set_remove-IsDistinct, arith, inl, inr,
  ◌⊎◌, if◌then◌else◌, List-cases,
}
use sysmaster.Job.Rentry.{UnitId}
use sysmaster.Job.Junit.{is_nil}
use sysmaster.Job.Table.{JobUnitTable}
use sysmaster.Job.Table.Ready.{
  readys_backfill, readys_fill, pop_last, pop_unit, pop_any, ready_take,
}
use sysmaster.Job.Table.Queue.{IsQueued, IsMoved, is_queued, backfill-if, nil_lem}

-- The last of a list, and the others.
record IsLast (us : List UnitId) (u : UnitId) (rest : List UnitId) : Type 0 where
  members : (v : UnitId) → contains us v ≡ (u == v || contains rest v)
  gone : IsDistinct us → contains rest u ≡ false
  once : IsDistinct us → IsDistinct rest

pop_last_lem :
    (u : UnitId) (us : List UnitId)
    → (w : UnitId) × (rest : List UnitId) × (pop_last (u ∷ us) ≡ some (w, rest))
      × IsLast (u ∷ us) w rest
unfolding pop_last
pop_last_lem u [] = (u, [], refl, record { members = λ v. refl; gone = λ d. refl; once = λ d. tt })
pop_last_lem u (v ∷ vs) =
    let (w, rest, e, l) = pop_last_lem v vs in
    (
      w,
      u ∷ rest,
      rw e refl,
      record {
        members = λ x. ground (arith, l.members x);
        gone = λ d. ground (
          arith,
          l.gone d.1,
          l.members u,
          string_eq.beq_iff u w,
          string_eq.beq_iff w u,
          l.members w,
        );
        once = λ d. ground (arith, l.once d.1, l.members u);
      },
    )

-- A unit has left the queue, its mark has not been cleared yet.
pub record IsTaken (t : JobUnitTable) (u : UnitId) (t' : JobUnitTable) : Type 0 where
  pub was : is_queued t u ≡ true
  pub others : (v : UnitId) → is_queued t' v ≡ (if u == v then false else is_queued t v)
  pub data_kept : t'.t_data ≡ t.t_data
  pub sync_kept : t'.sync ≡ t.sync
  pub once_tree : IsDistinct t'.t_ready
  pub once_stack : IsDistinct t'.readys
  pub split : (is_nil t'.readys ≡ true) ⊎ (is_nil t'.t_ready ≡ true)

IsTaken-unit :
    (t t0 : JobUnitTable) (u : UnitId)
    → IsMoved t t0
    → contains t0.t_ready u ≡ true
    → IsTaken t u (record t0 { t_ready = set_remove t0.t_ready u })
IsTaken-unit t t0 u m c = record {
  was = ground (arith, m.tree u);
  others = λ v. ground (arith, m.tree v, m.stack, contains-set_remove t0.t_ready u v);
  data_kept = m.data_kept;
  sync_kept = m.sync_kept;
  once_tree = set_remove-IsDistinct t0.t_ready u m.once;
  once_stack = rw m.stack tt;
  split = inl (rw m.stack refl);
}

IsTaken-last :
    (t : JobUnitTable) (us : List UnitId) (u : UnitId) (rest : List UnitId)
    → IsLast us u rest
    → IsDistinct us
    → ((v : UnitId) → is_queued t v ≡ contains us v)
    → IsTaken t u (record t { t_ready = []; readys = rest })
IsTaken-last t us u rest l d q = record {
  was = ground (arith, q u, l.members u, string_eq.beq_iff u u);
  others = λ v. ground (arith, q v, l.members v, l.gone d, string_eq.beq_iff u v);
  data_kept = refl;
  sync_kept = refl;
  once_tree = tt;
  once_stack = l.once d;
  split = inr refl;
}

-- Does the caller ask for this unit? Without a unit it asks for any.
abbrev pub is_wanted : Option UnitId → UnitId → Bool
is_wanted none v = true
is_wanted (some u) v = u == v

-- What `ready_take` answers: a unit that has left the queue, or that there is none.
abbrev pub IsTake : JobUnitTable → Option UnitId → Option UnitId × JobUnitTable → Type 0
IsTake t want (none, t') =
    IsQueued t'
    × (t'.t_data ≡ t.t_data)
    × (t'.sync ≡ t.sync)
    × ((v : UnitId) → is_wanted want v ≡ true → is_queued t v ≡ false)
IsTake t want (some u, t') = IsTaken t u t' × (is_wanted want u ≡ true)

IsQueued-moved : (t t0 : JobUnitTable) → IsQueued t → IsMoved t t0 → IsQueued t0
IsQueued-moved t t0 q m = record {
  marked = λ v. ground (arith, q.marked v, m.tree v, m.stack, m.data_kept);
  once_tree = m.once;
  once_stack = rw m.stack tt;
  split = inl (rw m.stack refl);
}

IsTake-unit :
    (t t0 : JobUnitTable) (u : UnitId)
    → IsQueued t
    → IsMoved t t0
    → (b : Bool) → contains t0.t_ready u ≡ b
    → IsTake t (some u) (pop_unit t0 u)
IsTake-unit t t0 u q m true c = rw c (IsTaken-unit t t0 u m c, (string_eq.beq_iff u u).1 refl)
IsTake-unit t t0 u q m false c = rw c (
  IsQueued-moved t t0 q m,
  m.data_kept,
  m.sync_kept,
  λ v e. ground (arith, m.tree v, c, (string_eq.beq_iff u v).0 e),
)

IsTake-stack :
    (t : JobUnitTable) (us : List UnitId) (t0 : JobUnitTable)
    → record t { t_ready = []; readys = us } ≡ t0
    → IsDistinct us
    → ((v : UnitId) → is_queued t v ≡ contains us v)
    → IsQueued t
    → IsTake t none (pop_any t0 (pop_last t0.readys))
unfolding pop_last
IsTake-stack t [] t0 e d f q =
    subst (λ x. IsTake t none (pop_any x (pop_last x.readys))) e
      (
        record {
          marked = λ v. ground (arith, f v, q.marked v);
          once_tree = tt;
          once_stack = tt;
          split = inl refl;
        },
        refl,
        refl,
        λ v w. f v,
      )
IsTake-stack t (u ∷ us) t0 e d f q =
    subst (λ x. IsTake t none (pop_any x (pop_last x.readys))) e
      (let (w, rest, p, l) = pop_last_lem u us in
        subst (λ x. IsTake t none (pop_any (record t { t_ready = []; readys = u ∷ us }) x)) (sym p)
          (IsTaken-last t (u ∷ us) w rest l d f, refl))

fill-nil :
    (t : JobUnitTable)
    → t.readys ≡ []
    → record t { t_ready = []; readys = t.t_ready } ≡ readys_fill t
unfolding readys_fill
fill-nil t e = ground (arith, e)

fill-cons :
    (t : JobUnitTable) (x : UnitId) (xs : List UnitId)
    → t.readys ≡ x ∷ xs
    → t.t_ready ≡ []
    → record t { t_ready = []; readys = t.readys } ≡ readys_fill t
unfolding readys_fill
fill-cons t x xs e f = ground (arith, e, f)

IsTake-any : (t : JobUnitTable) → IsQueued t → IsTake t none (ready_take t none)
unfolding ready_take
IsTake-any t q = elim (List-cases t.readys) [
  | inl e ↦
      IsTake-stack t t.t_ready (readys_fill t) (fill-nil t e) q.once_tree (λ v. ground (arith, e)) q
  | inr (x, xs, e) ↦
      let nil : t.t_ready ≡ [] = elim q.split [
        | inl h ↦ ground (arith, e, h)
        | inr h ↦ nil_lem h
      ] in
      IsTake-stack t t.readys (readys_fill t) (fill-cons t x xs e nil) q.once_stack
        (λ v. ground (arith, nil)) q
]

pub take_lem :
    (t : JobUnitTable) (want : Option UnitId) → IsQueued t → IsTake t want (ready_take t want)
unfolding ready_take
take_lem t none q = IsTake-any t q
take_lem t (some u) q =
    IsTake-unit t (readys_backfill t) u q (backfill-if t q.once_tree (is_nil t.readys) refl)
      (contains (readys_backfill t).t_ready u) refl
