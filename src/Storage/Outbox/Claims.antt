-- ===== src/Storage/Outbox/Claims.antt =====
-- The outbox as a queue (src/storage/sqlite/mod.rs, `claim_queued`): what a claim takes, and what
-- histories of inserts, claims and acknowledgements hand out.
use mathlib.Core.List.{map}
use verdant.Base.{ℕ, zero, suc, List, [], ◌∷◌, ◌≡◌, keep, String, arith, take, drop, refl}
use verdant.Storage.Outbox.{OutboxRow, queued, claim_first, is_status}

abbrev pub waiting : List OutboxRow → List OutboxRow
waiting rows = keep (is_status queued) rows

abbrev pub ids : List OutboxRow → List ℕ
ids rows = map (λ r. r.id) rows

pub claim_first-ids :
    (token : String) (n : ℕ) (rows : List OutboxRow)
    → ids (claim_first token n rows).1 ≡ take n (ids (waiting rows))
unfolding claim_first
claim_first-ids token zero rows = refl
claim_first-ids token (suc n) [] = refl
claim_first-ids token (suc n) (r ∷ rs) =
    ground (arith, claim_first-ids token n rs, claim_first-ids token (suc n) rs)

pub claim_first-waiting :
    (token : String) (n : ℕ) (rows : List OutboxRow)
    → ids (waiting (claim_first token n rows).0) ≡ drop n (ids (waiting rows))
unfolding claim_first
claim_first-waiting token zero rows = refl
claim_first-waiting token (suc n) [] = refl
claim_first-waiting token (suc n) (r ∷ rs) =
    ground (arith, claim_first-waiting token n rs, claim_first-waiting token (suc n) rs)
