-- ===== src/Access/Succession.antt =====
-- The generations of a capability, over any history of attempts on its rows (access/gate.rs).
pub mod Steps
pub mod Runs
use verdant.Base.{
  ◌≡◌, ◌≤◌, ◌<◌, ◌⊎◌, inl, inr, String, Bool, true, false, Option, none, some, List, [], ◌∷◌, ◌++◌,
  find, arith, ◌==◌, string_partial_eq, nat_partial_eq, eq_iff, All, All-mono, All-find, ◌∙◌, ap,
  sym, subst, if◌then◌else◌, found_or_behind, any-append, any-append_end, ◌&&◌,
}
use verdant.Base.Pairwise.{Pairwise}
use verdant.Access.Records.{Log, IssueRow, RevokeRow, latest_issue, newer, issued, has_revoked}
use verdant.Access.Records.Snapshot.{issues_of, revokes_of}
use verdant.Access.Records.Checks.{SameGeneration}

-- Of two issuances of a capability, the earlier one has a lower generation and another key, and that key
-- is revoked.
abbrev pub Precedes : List RevokeRow → IssueRow → IssueRow → Type 0
Precedes revokes a b =
    a.cap ≡ b.cap
    → (a.capgen < b.capgen)
      × ((a.key_id == b.key_id) ≡ false)
      × (has_revoked a.cap a.key_id revokes ≡ true)

pub has_revoked-append :
    (cap key_id : String) (v w : List RevokeRow)
    → has_revoked cap key_id v ≡ true
    → has_revoked cap key_id (v ++ w) ≡ true
has_revoked-append cap key_id = any-append (λ r. r.cap == cap && r.key_id == key_id)

pub has_revoked-append_end :
    (cap key_id : String) (v : List RevokeRow) (r : RevokeRow)
    → r.cap ≡ cap
    → r.key_id ≡ key_id
    → has_revoked cap key_id (v ++ r ∷ []) ≡ true
has_revoked-append_end cap key_id v r e f =
    any-append_end (λ x. x.cap == cap && x.key_id == key_id) v r
      (ground (arith, eq_iff r.cap cap, eq_iff r.key_id key_id))

Precedes-append : (v w : List RevokeRow) (a b : IssueRow) → Precedes v a b → Precedes (v ++ w) a b
Precedes-append v w a b h same =
    let (low, other, gone) = h same in (low, other, has_revoked-append a.cap a.key_id v w gone)

pub Pairwise-more :
    (v w : List RevokeRow) (is : List IssueRow)
    → Pairwise (Precedes v) is
    → Pairwise (Precedes (v ++ w)) is
Pairwise-more v w [] h = tt
Pairwise-more v w (i ∷ is) h =
    (All-mono (λ b. Precedes-append v w i b) is h.0, Pairwise-more v w is h.1)

-- What the latest issuance of a capability bounds.
abbrev pub Below : IssueRow → Option IssueRow → Type 0
Below a none = ⊥
Below a (some n) = a.capgen ≤ n.capgen

Below-newer :
    (a r : IssueRow) (b : Bool) (o : Option IssueRow)
    → Below a o
    → Below a (if b then newer r o else o)
Below-newer a r false o h = h
Below-newer a r true none h = absurd h
Below-newer a r true (some n) h = ground arith

newer-Below :
    (r : IssueRow) (b : Bool) (o : Option IssueRow)
    → b ≡ true
    → Below r (if b then newer r o else o)
newer-Below r false o h = absurd (cc)
newer-Below r true none h = ground arith
newer-Below r true (some n) h = ground arith

abbrev pub BelowLatest : String → Option IssueRow → IssueRow → Type 0
BelowLatest cap o a = (a.cap == cap) ≡ true → Below a o

pub latest_issue-All :
    (cap : String) (is : List IssueRow) → All (BelowLatest cap (latest_issue cap is)) is
unfolding latest_issue
latest_issue-All cap [] = tt
latest_issue-All cap (i ∷ is) = (
  newer-Below i (i.cap == cap) (latest_issue cap is),
  All-mono (λ a h same. Below-newer a i (i.cap == cap) (latest_issue cap is) (h same)) is
      (latest_issue-All cap is),
)

-- Each issuance of the capability of an unrevoked one is that one, or is revoked.
abbrev pub IsPast : List RevokeRow → IssueRow → IssueRow → Type 0
IsPast v row a = a.cap ≡ row.cap → (a ≡ row) ⊎ (has_revoked a.cap a.key_id v ≡ true)

pub unrevoked-IsPast :
    (v : List RevokeRow) (is : List IssueRow) (p : IssueRow → Bool) (row : IssueRow)
    → Pairwise (Precedes v) is
    → find p is ≡ some row
    → has_revoked row.cap row.key_id v ≡ false
    → All (IsPast v row) is
unrevoked-IsPast v [] p row h found live = tt
unrevoked-IsPast v (i ∷ is) p row h found live = elim (found_or_behind p i is row found) [
  | inl here ↦ (
    λ same. inl here,
    All-mono
        (λ a precedes same.
          let gone = precedes (ap (λ r. r.cap) here ∙ sym same) in
          absurd (cc (subst (λ r. has_revoked r.cap r.key_id v ≡ true) here gone.2)))
        is h.0,
  )
  | inr behind ↦ (
    λ same. inr ((All-find (Precedes v i) p is row h.0 behind same).2),
    unrevoked-IsPast v is p row h.1 behind live,
  )
]

-- The successor `next` of a current, unrevoked issuance `row`, whose revocation is `r`, follows every
-- issuance of its capability.
module _ (v : List RevokeRow) (row next : IssueRow) (r : RevokeRow) (newest : Option IssueRow)
    (current : SameGeneration row newest) (cap : next.cap ≡ row.cap)
    (gen : row.capgen < next.capgen) (rcap : r.cap ≡ row.cap) (rkey : r.key_id ≡ row.key_id) where
  lower :
      (a : IssueRow) (o : Option IssueRow)
      → SameGeneration row o
      → Below a o
      → a.capgen < next.capgen
  lower a none same h = absurd h
  lower a (some n) same h = omega (arith, same)

  revoked_past :
      (a : IssueRow)
      → a.cap ≡ row.cap
      → IsPast v row a
      → has_revoked a.cap a.key_id (v ++ r ∷ []) ≡ true
  revoked_past a same past = elim (past same) [
    | inl it ↦
        has_revoked-append_end a.cap a.key_id v r (rcap ∙ sym (ap (λ x. x.cap) it))
          (rkey ∙ sym (ap (λ x. x.key_id) it))
    | inr gone ↦ has_revoked-append a.cap a.key_id v (r ∷ []) gone
  ]

  pub successor-Precedes :
      (is : List IssueRow)
      → All (IsPast v row) is
      → All (BelowLatest row.cap newest) is
      → All (λ a. issued row.cap next.key_id a ≡ false) is
      → All (λ a. Precedes (v ++ r ∷ []) a next) is
  successor-Precedes [] past below fresh = tt
  successor-Precedes (a ∷ is) past below fresh = (
    λ same.
        let same_cap : a.cap ≡ row.cap = same ∙ cap in
        (
          lower a newest current (below.0 (ground (arith, eq_iff a.cap row.cap))),
          ground (arith, fresh.0, eq_iff a.cap row.cap),
          revoked_past a same_cap past.0,
        ),
    successor-Precedes is past.1 below.1 fresh.1,
  )

-- The generations that the rows record.
pub record IsSuccession (log : Log) : Type 0 where
  pub ordered : Pairwise (Precedes (revokes_of log)) (issues_of log)
