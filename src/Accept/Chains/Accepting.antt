-- ===== src/Accept/Chains/Accepting.antt =====
-- A row of accept/store.rs that lands, and the chains of every scope behind it.
use mathlib.Core.List.{append-nil}
use verdant.Base.{
  suc, ◌≡◌, ◌∙◌, ap, sym, subst, ◌⊎◌, inl, inr, String, List, [], ◌∷◌, ◌++◌, length, arith,
  Bool-cases, ◌==◌, string_partial_eq, eq_iff,
}
use verdant.Accept.Store.{AcceptRow, ActiveRow, accepts_of, actives_of}
use verdant.Accept.Tickets.{AcceptanceDatabase}
use verdant.Accept.Chains.Growth.{keep-append}
use verdant.Accept.Chains.Landing.{LandsAccept}
use verdant.Accept.Chains.Invariant.{IsChain-accept, IsChain-later, IsChained}
use verdant.Accept.Chains.Additions.{LandsAccept-AddsAccept}

-- The rows of a scope behind an added row, which is of that scope or of another one.
pub accepts_of-append :
    (rows : List AcceptRow) (r : AcceptRow) (scope : String)
    → (((r.entity ≡ scope) × (accepts_of scope (rows ++ r ∷ []) ≡ accepts_of scope rows ++ r ∷ []))
        ⊎ (accepts_of scope (rows ++ r ∷ []) ≡ accepts_of scope rows))
accepts_of-append rows r scope =
    let grown = keep-append (λ q. q.entity == scope) rows r in
    elim (Bool-cases (r.entity == scope)) [
      | inl e ↦ inl ((eq_iff r.entity scope).0 e, rw e at grown)
      | inr e ↦ inr ((rw e at grown) ∙ append-nil (accepts_of scope rows))
    ]

pub actives_of-append :
    (rows : List ActiveRow) (r : ActiveRow) (scope : String)
    → (((r.entity ≡ scope) × (actives_of scope (rows ++ r ∷ []) ≡ actives_of scope rows ++ r ∷ []))
        ⊎ (actives_of scope (rows ++ r ∷ []) ≡ actives_of scope rows))
actives_of-append rows r scope =
    let grown = keep-append (λ q. q.entity == scope) rows r in
    elim (Bool-cases (r.entity == scope)) [
      | inl e ↦ inl ((eq_iff r.entity scope).0 e, rw e at grown)
      | inr e ↦ inr ((rw e at grown) ∙ append-nil (actives_of scope rows))
    ]

pub IsChained-accept :
    (db next : AcceptanceDatabase) (scope : String)
    → IsChained db scope
    → LandsAccept db next
    → IsChained next scope
IsChained-accept db next scope h l =
    let a = LandsAccept-AddsAccept db next l in
    let accepts = accepts_of scope db.accepts in
    let actives = actives_of scope db.actives in
    rw (a.accepts, a.actives, a.receipts, a.last)
      (elim (accepts_of-append db.accepts a.row scope) [
        | inr same ↦ rw same (
            IsChain-later scope db.receipts db.last_id accepts actives a.receipt a.row.id
              (let newer = a.newer in omega arith) h)
        | inl (mine, grown) ↦
            let here : l.request.scope ≡ scope = sym a.entity ∙ mine in
            let count : length accepts ≡ l.request.expected =
              subst (λ s. length (accepts_of s db.accepts) ≡ l.request.expected) here a.count in
            let ops : a.row.request.operation ≡ l.request.operation =
              ap (λ q. q.operation) a.same in
            rw grown (
              IsChain-accept scope db.receipts db.last_id accepts actives a.row a.receipt h
                (rw (ops ∙ sym l.operation) l.runs.fresh) (a.operation ∙ sym ops) a.newer
                (record {
                  seq = a.seq ∙ ap suc (sym count);
                  expected = ap (λ q. q.expected) a.same ∙ sym count;
                  in_scope = (eq_iff a.row.request.scope scope).1 (ap (λ q. q.scope) a.same ∙ here);
                  id = let newer = a.newer in omega arith;
                })
                (let bound = l.bound in rw count bound))
      ])
