-- ===== src/Accept/Chains/Order.antt =====
-- What the chains of accept/store.rs and accept/activation.rs promise their readers.
use verdant.Base.{
  ℕ, suc, ◌<◌, ◌≡◌, refl, ◌∙◌, ap, sym, ◌⊎◌, inl, inr, String, some, List, [], ◌∷◌, length, All,
  All-mono, ok, arith,
}
use verdant.Base.Pairwise.{Pairwise}
use verdant.Accept.Store.{Accepted, ActiveRow, accepts_of, actives_of, accepted_history, pop}
use verdant.Accept.Tickets.{AcceptanceDatabase}
use verdant.Accept.Activation.{Activated, activation_history, active_revision}
use verdant.Accept.Histories.{Call, empty_database, run, step}
use verdant.Accept.Chains.{ActivesFrom, accepted_list, activated_list}
use verdant.Accept.Chains.Growth.{activated_at, pop-activated, pop-append}
use verdant.Accept.Chains.Landing.{LandsActive, step-cases}
use verdant.Accept.Chains.Invariant.{IsChained, activation_history_lem, accepted_history_lem}
use verdant.Accept.Chains.Additions.{LandsAccept-AddsAccept, LandsActive-AddsActive}
use verdant.Accept.Chains.Accepting.{actives_of-append}
use verdant.Accept.Chains.Runs.{IsNext-Succeeds, LandsActive-IsNext, run-IsChained, step-IsChained}

abbrev pub Rises : Activated → Activated → Type 0
Rises a b = (a.generation < b.generation) × (a.revision < b.revision)

ActivesFrom-All :
    (scope : String) (k revision : ℕ) (rows : List ActiveRow)
    → ActivesFrom scope k revision rows
    → All (λ b. (k < b.generation) × (revision < b.revision)) (activated_list k rows)
ActivesFrom-All scope k revision [] h = tt
ActivesFrom-All scope k revision (r ∷ rows) h = (
  (omega arith, let above = h.1 in omega arith),
  All-mono
      (λ b rest. (let g = rest.0 in omega arith, let above = h.1 in let v = rest.1 in omega arith))
      (activated_list (suc k) rows)
      (ActivesFrom-All scope (suc k) (suc r.request.acceptance.expected) rows h.2),
)

ActivesFrom-Pairwise :
    (scope : String) (k revision : ℕ) (rows : List ActiveRow)
    → ActivesFrom scope k revision rows
    → Pairwise Rises (activated_list k rows)
ActivesFrom-Pairwise scope k revision [] h = tt
ActivesFrom-Pairwise scope k revision (r ∷ rows) h = (
  ActivesFrom-All scope (suc k) (suc r.request.acceptance.expected) rows h.2,
  ActivesFrom-Pairwise scope (suc k) (suc r.request.acceptance.expected) rows h.2,
)

-- Both chains of a scope can be read, and the activations are of ever later revisions.
pub record IsReadable (db : AcceptanceDatabase) (scope : String) : Type 0 where
  pub accepted : List Accepted
  pub activated : List Activated
  pub reads : accepted_history scope db.accepts ≡ ok accepted
  pub reads_activations : activation_history scope db.accepts db.actives ≡ ok activated
  pub rising : Pairwise Rises activated

-- After any history of acceptances and activations on an empty store, prepared on rows of any age, with any
-- answers of the other owners and of the store: the chains of every scope are read without a refusal, and
-- both the generation and the revision rise from each activation to all later ones.
pub run-IsReadable :
    (calls : List Call) (scope : String) → IsReadable (run empty_database calls) scope
run-IsReadable calls scope =
    let db = run empty_database calls in
    let h = run-IsChained calls scope in
    record {
      accepted = accepted_list 0 (accepts_of scope db.accepts);
      activated = activated_list 0 (actives_of scope db.actives);
      reads = accepted_history_lem db scope h;
      reads_activations = activation_history_lem db scope h;
      rising = ActivesFrom-Pairwise scope 0 0 (actives_of scope db.actives) h.activated;
    }

record Follows (a : Activated) (rows : List ActiveRow) : Type 0 where
  pub next : Activated
  pub newest : pop (activated_list 0 rows) ≡ some next
  pub later : (next ≡ a) ⊎ Rises a next

Follows-lands :
    (db next : AcceptanceDatabase) (scope : String) (a : Activated)
    → IsChained db scope
    → LandsActive db next
    → pop (activated_list 0 (actives_of scope db.actives)) ≡ some a
    → Follows a (actives_of scope next.actives)
Follows-lands db next scope a h l e =
    let actives = actives_of scope db.actives in
    let added = LandsActive-AddsActive db next l in
    rw added.actives (elim (actives_of-append db.actives added.row scope) [
      | inr same ↦ record {
        next = a;
        newest = ap (λ r. pop (activated_list 0 r)) same ∙ e;
        later = inl refl;
      }
      | inl (mine, grown) ↦
          let s =
            IsNext-Succeeds scope db.receipts db.last_id (accepts_of scope db.accepts) actives
              l.request l.target h
              (LandsActive-IsNext db next scope l added (sym added.entity ∙ mine)) in
          let read = pop-activated 0 0 actives a e in
          let above = s.above in
          let expected = ap (λ q. q.acceptance.expected) added.same in
          record {
            next = activated_at (length actives) added.row;
            newest =
                ap (λ r. pop (activated_list 0 r)) grown
                ∙ pop-append 0 (length actives) actives added.row (omega arith);
            later = inr (let g = read.0 in omega arith, let v = read.1 in omega arith);
          }
    ])

step-Follows :
    (db : AcceptanceDatabase) (c : Call) (scope : String) (a : Activated)
    → IsChained db scope
    → pop (activated_list 0 (actives_of scope db.actives)) ≡ some a
    → Follows a (actives_of scope (step db c).actives)
step-Follows db c scope a h e = elim (step-cases db c) [
  | inl same ↦ rw same (record { next = a; newest = e; later = inl refl })
  | inr (inl l) ↦
      rw (LandsAccept-AddsAccept db (step db c) l).actives
        (record { next = a; newest = e; later = inl refl })
  | inr (inr l) ↦ Follows-lands db (step db c) scope a h l e
]

Follows-Follows :
    (a b : Activated) (rows : List ActiveRow)
    → (b ≡ a) ⊎ Rises a b
    → Follows b rows
    → Follows a rows
Follows-Follows a b rows first f = record {
  next = f.next;
  newest = f.newest;
  later = elim f.later [
    | inl same ↦ elim first [
      | inl e ↦ inl (same ∙ e)
      | inr up ↦ inr (
        let g = up.0 in let same_g = ap (λ c. c.generation) same in omega arith,
        let v = up.1 in let same_v = ap (λ c. c.revision) same in omega arith,
      )
    ]
    | inr more ↦ elim first [
      | inl e ↦ inr (
        let g = more.0 in let same_g = ap (λ c. c.generation) e in omega arith,
        let v = more.1 in let same_v = ap (λ c. c.revision) e in omega arith,
      )
      | inr up ↦ inr (
        let g = more.0 in let h = up.0 in omega arith,
        let v = more.1 in let w = up.1 in omega arith,
      )
    ]
  ];
}

run-Follows :
    (db : AcceptanceDatabase) (calls : List Call) (scope : String) (a : Activated)
    → IsChained db scope
    → pop (activated_list 0 (actives_of scope db.actives)) ≡ some a
    → IsChained (run db calls) scope × Follows a (actives_of scope (run db calls).actives)
unfolding run
run-Follows db [] scope a h e = (h, record { next = a; newest = e; later = inl refl })
run-Follows db (c ∷ calls) scope a h e =
    let f = step-Follows db c scope a h e in
    let rest = run-Follows (step db c) calls scope f.next (step-IsChained db c scope h) f.newest in
    (rest.0, Follows-Follows a f.next _ f.later rest.1)

-- Whenever an activation of a scope is active after some history on an empty store, then after any later history
-- one is active still: it, or one of a higher generation and a higher revision.
pub run-no_rollback :
    (calls later : List Call) (scope : String) (a : Activated)
    → active_revision scope (run empty_database calls).accepts (run empty_database calls).actives
      ≡ ok (some a)
    → (b : Activated) × (active_revision scope
          (run (run empty_database calls) later).accepts
          (run (run empty_database calls) later).actives
        ≡ ok (some b))
      × ((b ≡ a) ⊎ Rises a b)
unfolding active_revision
run-no_rollback calls later scope a h =
    let db = run empty_database calls in
    let chained = run-IsChained calls scope in
    let now : pop (activated_list 0 (actives_of scope db.actives)) ≡ some a =
      ground (arith, activation_history_lem db scope chained, h) in
    let f = run-Follows db later scope a chained now in
    (
      f.1.next,
      ground (arith, activation_history_lem (run db later) scope f.0, f.1.newest),
      f.1.later,
    )
