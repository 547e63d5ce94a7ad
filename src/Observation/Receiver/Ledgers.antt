-- ===== src/Observation/Receiver/Ledgers.antt =====
-- The generations of the receiver's ledger (src/observation/index.rs, `allocate` and its callers), and
-- the positions that producers have used under them.
use text.Mathlib.TextLemmas.{append_cancel_left}
use verdant.Base.{
  ℕ, ◌≤◌, ◌<◌, String, ◌≡◌, ◌≢◌, sym, ap, ◌∙◌, some, List, [], ◌∷◌, ◌++◌, arith, u64_max, get_elem?,
  set, All, All-set, All-get, subst, All-append, All-mono, ◌+◌,
}
use verdant.Base.Decimal.{decimal_injective}
use verdant.Base.Pairwise.{Pairwise, Pairwise-append, Pairwise-set, All-set_apart}
use verdant.Observation.Records.{RecordIdentity, ProducerCheckpoint}
use verdant.Observation.Receiver.{Ledger, generation_text}

abbrev pub ledger_generation : Ledger → String
ledger_generation l = l.checkpoint.generation

abbrev pub IsApart : Ledger → Ledger → Type 0
IsApart a b = ledger_generation a ≢ ledger_generation b

-- The text is that of one of the first `alloc` allocations.
abbrev pub IsMinted : String → ℕ → String → Type 0
IsMinted ns alloc g = (a : ℕ) × (a ≤ alloc) × (g ≡ generation_text ns a)

-- A position under the ledger's generation comes before the ledger's next one.
abbrev pub IsBehind : Ledger → RecordIdentity → Type 0
IsBehind l id = id.generation ≡ ledger_generation l → id.seq < l.checkpoint.next

pub record IsLedger (ns : String) (alloc : ℕ) (ps : List Ledger) (ids : List RecordIdentity)
    : Type 0 where
  pub bounded : alloc ≤ u64_max
  pub apart : Pairwise IsApart ps
  pub minted : All (λ l. IsMinted ns alloc (ledger_generation l)) ps
  pub minted_ids : All (λ (id : RecordIdentity). IsMinted ns alloc id.generation) ids
  pub behind : All (λ l. All (IsBehind l) ids) ps
  pub unique : Pairwise ◌≢◌ ids

fresh :
    (ns : String) (alloc : ℕ) (g : String)
    → alloc + 1 ≤ u64_max
    → IsMinted ns alloc g
    → g ≢ generation_text ns (alloc + 1)
unfolding generation_text
fresh ns alloc g room (a, le, named) same = absurd (
    omega (
      arith,
      le,
      decimal_injective a (alloc + 1) (omega (arith, le, room)) room
          (append_cancel_left ":" _ _ (append_cancel_left ns _ _ (sym named ∙ same))),
    ))

later : (ns : String) (alloc : ℕ) (g : String) → IsMinted ns alloc g → IsMinted ns (alloc + 1) g
later ns alloc g (a, le, named) = (a, omega (arith, le), named)

-- No position is under a generation that was not yet allocated.
no_position :
    (ns : String) (alloc : ℕ) (l : Ledger) (ids : List RecordIdentity)
    → alloc + 1 ≤ u64_max
    → ledger_generation l ≡ generation_text ns (alloc + 1)
    → All (λ (id : RecordIdentity). IsMinted ns alloc id.generation) ids
    → All (IsBehind l) ids
no_position ns alloc l ids room named =
    All-mono (λ id m same. absurd (fresh ns alloc id.generation room m (same ∙ named))) ids

others-IsApart :
    (ns : String) (alloc : ℕ) (l : Ledger) (ps : List Ledger)
    → alloc + 1 ≤ u64_max
    → ledger_generation l ≡ generation_text ns (alloc + 1)
    → All (λ m. IsMinted ns alloc (ledger_generation m)) ps
    → All (λ m. IsApart m l) ps
others-IsApart ns alloc l ps room named =
    All-mono (λ m minted same. fresh ns alloc (ledger_generation m) room minted (same ∙ named)) ps

module _ (ns : String) (alloc : ℕ) (ps : List Ledger) (ids : List RecordIdentity)
    (h : IsLedger ns alloc ps ids) where
  -- A new ledger at the next allocation's generation.
  pub IsLedger-start :
      (l : Ledger)
      → alloc + 1 ≤ u64_max
      → ledger_generation l ≡ generation_text ns (alloc + 1)
      → IsLedger ns (alloc + 1) (ps ++ l ∷ []) ids
  IsLedger-start l room named = record {
    bounded = room;
    apart = Pairwise-append IsApart ps l h.apart (others-IsApart ns alloc l ps room named h.minted);
    minted =
        All-append _ ps (l ∷ []) (All-mono (λ m. later ns alloc (ledger_generation m)) ps h.minted)
          ((alloc + 1, omega arith, named), tt);
    minted_ids = All-mono (λ id. later ns alloc id.generation) ids h.minted_ids;
    behind =
        All-append _ ps (l ∷ []) h.behind (no_position ns alloc l ids room named h.minted_ids, tt);
    unique = h.unique;
  }

  IsApart-symm : (a b : Ledger) → IsApart a b → IsApart b a
  IsApart-symm a b r e = r (sym e)

  -- Going on from a checkpoint that the receiver still holds.
  pub IsLedger-continue :
      (i : ℕ) (old l : Ledger)
      → alloc + 1 ≤ u64_max
      → get_elem? ps i ≡ some old
      → l.checkpoint ≡ old.checkpoint
      → IsLedger ns (alloc + 1) (set ps i l) ids
  IsLedger-continue i old l room at same = record {
    bounded = room;
    apart = Pairwise-set IsApart ps i old l at h.apart (
        All-mono
          (λ y m. (
            (λ r e. r (ap (λ (c : ProducerCheckpoint). c.generation) (sym same) ∙ e)),
            (λ r e. r (e ∙ ap (λ (c : ProducerCheckpoint). c.generation) same)),
          ))
          ps h.minted);
    minted = All-set _ ps i l (All-mono (λ m. later ns alloc (ledger_generation m)) ps h.minted) (
        subst (λ (c : ProducerCheckpoint). IsMinted ns (alloc + 1) c.generation) (sym same)
          (later ns alloc (ledger_generation old) (All-get _ ps i old h.minted at)));
    minted_ids = All-mono (λ id. later ns alloc id.generation) ids h.minted_ids;
    behind = All-set _ ps i l h.behind (
        subst
          (λ (c : ProducerCheckpoint).
            All (λ (id : RecordIdentity). id.generation ≡ c.generation → id.seq < c.next) ids)
          (sym same) (All-get _ ps i old h.behind at));
    unique = h.unique;
  }

  -- A stale checkpoint goes on at the next allocation's generation.
  pub IsLedger-renew :
      (i : ℕ) (old l : Ledger)
      → alloc + 1 ≤ u64_max
      → get_elem? ps i ≡ some old
      → ledger_generation l ≡ generation_text ns (alloc + 1)
      → IsLedger ns (alloc + 1) (set ps i l) ids
  IsLedger-renew i old l room at named = record {
    bounded = room;
    apart = Pairwise-set IsApart ps i old l at h.apart (
        All-mono (λ y r. ((λ _. IsApart-symm y l r), (λ _. r))) ps
          (others-IsApart ns alloc l ps room named h.minted));
    minted =
        All-set_apart IsApart ps i old l IsApart-symm
          (λ m k _. later ns alloc (ledger_generation m) k) at h.apart h.minted
          (alloc + 1, omega arith, named);
    minted_ids = All-mono (λ id. later ns alloc id.generation) ids h.minted_ids;
    behind =
        All-set_apart IsApart ps i old l IsApart-symm (λ m k _. k) at h.apart h.behind
          (no_position ns alloc l ids room named h.minted_ids);
    unique = h.unique;
  }

  -- A producer takes its ledger's next position.
  pub IsLedger-emit :
      (i : ℕ) (old l : Ledger) (id : RecordIdentity)
      → get_elem? ps i ≡ some old
      → id.generation ≡ ledger_generation old
      → id.seq ≡ old.checkpoint.next
      → ledger_generation l ≡ ledger_generation old
      → l.checkpoint.next ≡ id.seq + 1
      → IsLedger ns alloc (set ps i l) (ids ++ id ∷ [])
  IsLedger-emit i old l id at gen seq same next = record {
    bounded = h.bounded;
    apart =
        Pairwise-set IsApart ps i old l at h.apart
          (All-mono (λ y m. ((λ r e. r (sym same ∙ e)), (λ r e. r (e ∙ same)))) ps h.minted);
    minted =
        All-set _ ps i l h.minted
          (subst (IsMinted ns alloc) (sym same) (All-get _ ps i old h.minted at));
    minted_ids =
        All-append _ ids (id ∷ []) h.minted_ids
          (subst (IsMinted ns alloc) (sym gen) (All-get _ ps i old h.minted at), tt);
    behind =
        All-set_apart IsApart ps i old l IsApart-symm
          (λ m k r. All-append (IsBehind m) ids (id ∷ []) k ((λ e. absurd (r (sym gen ∙ e))), tt))
          at h.apart h.behind
          (All-append (IsBehind l) ids (id ∷ [])
            (All-mono (λ x k e. omega (arith, k (e ∙ same), seq, next)) ids
              (All-get _ ps i old h.behind at))
            ((λ _. omega (arith, next)), tt));
    unique = Pairwise-append ◌≢◌ ids id h.unique (
        All-mono
          (λ x k e. absurd (
            omega (
              arith,
              k (ap (λ (r : RecordIdentity). r.generation) e ∙ gen),
              ap (λ (r : RecordIdentity). r.seq) e,
              seq,
            )))
          ids (All-get _ ps i old h.behind at));
  }
