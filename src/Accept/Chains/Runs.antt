-- ===== src/Accept/Chains/Runs.antt =====
-- The chains of every scope over any history of calls of accept/store.rs and accept/activation.rs.
use verdant.Base.{
  ℕ, suc, ◌<◌, ◌≤◌, ◌≡◌, refl, ◌∙◌, ap, sym, subst, inl, inr, String, true, false, none, List, [],
  ◌∷◌, ◌++◌, any, length, All, All-mono, arith, Option-cases, string_partial_eq, eq_iff, nat_eq,
}
use verdant.Accept.Store.{
  AcceptRow, Accepted, ActivationRequest, ActiveRow, acceptance_eq, accepts_of, actives_of, pop,
}
use verdant.Accept.Tickets.{AcceptanceDatabase, Receipt}
use verdant.Accept.Activation.{is_active_already}
use verdant.Accept.Histories.{Call, empty_database, run, step}
use verdant.Accept.Chains.{IsJoined, activated_list, joins}
use verdant.Accept.Chains.Growth.{
  last_joined, last_revision, none_left, pop-activated, pop-expected, pop-revision,
}
use verdant.Accept.Chains.Landing.{LandsActive, step-cases}
use verdant.Accept.Chains.Invariant.{IsChain, IsChain-active, IsChain-later, IsChained}
use verdant.Accept.Chains.Additions.{
  AddsActive, IsNext, LandsActive-AddsActive, check_activation_order-IsNext,
}
use verdant.Accept.Chains.Accepting.{IsChained-accept, actives_of-append}

-- A revision that is not the active one is above it, where no activation is of a later one.
last_below :
    (accepts : List AcceptRow) (revision : ℕ) (actives : List ActiveRow)
    → All (IsJoined accepts) actives
    → revision ≤ length accepts
    → last_revision revision actives ≤ length accepts
last_below accepts revision [] joined h = h
last_below accepts revision (r ∷ actives) joined h =
    last_below accepts (suc r.request.acceptance.expected) actives joined.1
      (let below = joined.0.below in omega arith)

nothing_active : (actives : List ActiveRow) → 0 ≡ length actives → last_revision 0 actives ≡ 0
nothing_active [] h = refl
nothing_active (r ∷ actives) h = absurd (omega arith)

last_above :
    (accepts : List AcceptRow) (actives : List ActiveRow) (expected : ℕ)
    → All (IsJoined accepts) actives
    → length accepts ≡ suc expected
    → is_active_already none (pop (activated_list 0 actives)) (length accepts) ≡ false
    → last_revision 0 actives ≤ expected
last_above accepts actives expected joined count inactive =
    elim (Option-cases (pop (activated_list 0 actives))) [
      | inl e ↦ let nothing = nothing_active actives (none_left 0 actives e) in omega arith
      | inr (a, e) ↦
          let revision = (pop-activated 0 0 actives a e).1 in
          let below = last_below accepts 0 actives joined (omega arith) in
          let other : nat_eq a.revision (length accepts) ≡ false = rw e at inactive in ground arith
    ]

pub record Succeeds (accepts : List AcceptRow) (actives : List ActiveRow)
    (request : ActivationRequest) : Type 0 where
  pub count : length actives ≡ request.expected
  pub above : last_revision 0 actives ≤ request.acceptance.expected
  pub below : request.acceptance.expected < length accepts
  pub joined :
      (r : ActiveRow)
      → r.request ≡ request
      → All (λ q. q.id < r.id) accepts
      → any (joins r) accepts ≡ true

-- A request whose check of the order passed on all the rows of its scope.
pub IsNext-Succeeds :
    (scope : String) (receipts : List Receipt) (last : ℕ) (accepts : List AcceptRow)
    (actives : List ActiveRow) (request : ActivationRequest) (target : Accepted)
    → IsChain scope receipts last accepts actives
    → IsNext request accepts actives target
    → Succeeds accepts actives request
IsNext-Succeeds scope receipts last accepts actives request target h n =
    let read = pop-revision 0 accepts target n.newest in
    let revision : target.revision ≡ length accepts = omega arith in
    let expected = pop-expected scope 0 accepts target n.newest h.accepted in
    let same : target.request.expected ≡ request.acceptance.expected =
      let equal = n.same in ground arith in
    record {
      count = sym n.count;
      above = last_above accepts actives request.acceptance.expected h.joined (omega arith) (
          subst (λ v. is_active_already none (pop (activated_list 0 actives)) v ≡ false) revision
            n.inactive);
      below = omega arith;
      joined = λ r e older.
          last_joined r 0 accepts target n.newest
            (subst (λ q. acceptance_eq target.request q.acceptance ≡ true) (sym e) n.same) older;
    }

-- The rows that the caller had read are all there are, since the batch counted as many.
pub LandsActive-IsNext :
    (db next : AcceptanceDatabase) (scope : String) (l : LandsActive db next)
    → AddsActive db next l.request l.target
    → l.request.acceptance.scope ≡ scope
    → IsNext l.request (accepts_of scope db.accepts) (actives_of scope db.actives) l.target
LandsActive-IsNext db next scope l a here =
    let asked = check_activation_order-IsNext l.request l.accepts l.actives l.target l.order in
    let there : IsNext l.request (accepts_of scope l.accepts) (actives_of scope l.actives)
        l.target =
      subst (λ s. IsNext l.request (accepts_of s l.accepts) (actives_of s l.actives) l.target) here
        asked in
    let moves : length (actives_of scope db.actives) ≡ l.request.expected =
      subst (λ s. length (actives_of s db.actives) ≡ l.request.expected) here a.count in
    let chain : length (accepts_of scope db.accepts) ≡ l.target.revision =
      subst (λ s. length (accepts_of s db.accepts) ≡ l.target.revision) here a.accepted in
    let read = pop-revision 0 (accepts_of scope l.accepts) l.target there.newest in
    subst (λ rows. IsNext l.request rows (actives_of scope db.actives) l.target)
      (l.all_accepts scope (omega arith))
      (subst (λ rows. IsNext l.request (accepts_of scope l.accepts) rows l.target)
        (l.all_actives scope (let read_moves = there.count in omega arith)) there)

IsChain-lands :
    (db next : AcceptanceDatabase) (scope : String) (l : LandsActive db next)
    → IsChained db scope
    → (a : AddsActive db next l.request l.target) → l.request.acceptance.scope ≡ scope
    → IsChain scope
        (a.receipt ∷ db.receipts)
        a.row.id
        (accepts_of scope db.accepts)
        (actives_of scope db.actives ++ a.row ∷ [])
IsChain-lands db next scope l h a here =
    let accepts = accepts_of scope db.accepts in
    let actives = actives_of scope db.actives in
    let next_is = LandsActive-IsNext db next scope l a here in
    let s =
      IsNext-Succeeds scope db.receipts db.last_id accepts actives l.request l.target h next_is in
    let ops : a.row.request.operation ≡ l.request.operation = ap (λ q. q.operation) a.same in
    let newer = a.newer in
    let count = s.count in
    IsChain-active scope db.receipts db.last_id accepts actives a.row a.receipt h
      (rw (ops ∙ sym l.operation) l.runs.fresh) (a.operation ∙ sym ops) newer
      (record {
        seq = a.seq ∙ ap suc (sym count);
        expected = ap (λ q. q.expected) a.same ∙ sym count;
        in_scope =
            (eq_iff a.row.request.acceptance.scope scope).1
              (ap (λ q. q.acceptance.scope) a.same ∙ here);
        id = omega arith;
      })
      (let bound = l.bound in rw count bound) (rw a.same s.above)
      (record {
        joined = s.joined a.row a.same (All-mono (λ q old. omega arith) accepts h.older);
        below = rw a.same s.below;
      })

IsChained-active :
    (db next : AcceptanceDatabase) (scope : String)
    → IsChained db scope
    → LandsActive db next
    → IsChained next scope
IsChained-active db next scope h l =
    let a = LandsActive-AddsActive db next l in
    let accepts = accepts_of scope db.accepts in
    let actives = actives_of scope db.actives in
    rw (a.accepts, a.actives, a.receipts, a.last)
      (elim (actives_of-append db.actives a.row scope) [
        | inr same ↦ rw same (
            IsChain-later scope db.receipts db.last_id accepts actives a.receipt a.row.id
              (let newer = a.newer in omega arith) h)
        | inl (mine, grown) ↦ rw grown (IsChain-lands db next scope l h a (sym a.entity ∙ mine))
      ])

pub step-IsChained :
    (db : AcceptanceDatabase) (c : Call) (scope : String)
    → IsChained db scope
    → IsChained (step db c) scope
step-IsChained db c scope h = elim (step-cases db c) [
  | inl same ↦ rw same h
  | inr (inl l) ↦ IsChained-accept db (step db c) scope h l
  | inr (inr l) ↦ IsChained-active db (step db c) scope h l
]

run_from-IsChained :
    (db : AcceptanceDatabase) (calls : List Call) (scope : String)
    → IsChained db scope
    → IsChained (run db calls) scope
unfolding run
run_from-IsChained db [] scope h = h
run_from-IsChained db (c ∷ calls) scope h =
    run_from-IsChained (step db c) calls scope (step-IsChained db c scope h)

pub run-IsChained :
    (calls : List Call) (scope : String) → IsChained (run empty_database calls) scope
run-IsChained calls scope = run_from-IsChained empty_database calls scope (record {
  accepted = tt;
  accepts_apart = tt;
  accepts_bound = omega arith;
  accepts_known = tt;
  older = tt;
  activated = tt;
  actives_apart = tt;
  actives_bound = omega arith;
  actives_known = tt;
  joined = tt;
})
