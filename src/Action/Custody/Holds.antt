-- ===== src/Action/Custody/Holds.antt =====
-- Which scopes are held, and what a held scope allows (src/action_custody/policy.rs).
use verdant.Base.{
  Bool, true, false, not, ◌≡◌, refl, ap, ◌∙◌, ◌↔◌, ◌||◌, ◌&&◌, ◌⊎◌, none, List, [], ◌∷◌, String,
  arith, eq_iff, ◌==◌, string_partial_eq, any, keep, find, Result, ok, err, is_ok,
}
use verdant.Action.Custody.{
  HoldKind, CustodyHold, CustodyError, is_of, insert, inserted, new_hold, check_scope_token, hold,
  release, is_held, check_not_held, is_cleanup, check_held_for_cleanup,
}

is_held-insert :
    (h : CustodyHold) (held : List CustodyHold) (scope : String)
    → is_held (insert h held) scope ≡ (h.scope == scope || is_held held scope)
unfolding is_held insert
is_held-insert h [] scope = refl
is_held-insert h (x ∷ xs) scope = ground (
  arith,
  is_held-insert h xs scope,
  eq_iff x.scope h.scope,
  eq_iff h.scope scope,
  eq_iff x.scope scope,
)

is_held-remove :
    (held : List CustodyHold) (released scope : String)
    → any (is_of scope) (keep (λ h. not (is_of released h)) held)
      ≡ (not (released == scope) && any (is_of scope) held)
is_held-remove [] released scope = ground arith
is_held-remove (x ∷ xs) released scope = ground (
  arith,
  is_held-remove xs released scope,
  eq_iff x.scope released,
  eq_iff released scope,
  eq_iff x.scope scope,
)

new_hold-scope :
    (scope : String) (kind : HoldKind) (reason : String) (h : CustodyHold)
    → new_hold scope kind reason ≡ ok h
    → h.scope ≡ scope
unfolding new_hold check_scope_token
new_hold-scope scope kind reason h e = ground arith

is_held-inserted :
    (held : List CustodyHold) (scope : String) (kind : HoldKind) (reason other : String)
    (res : Result CustodyError CustodyHold)
    → new_hold scope kind reason ≡ res
    → is_ok (inserted held res).0 ≡ true
    → is_held (inserted held res).1 other ≡ (scope == other || is_held held other)
unfolding inserted
is_held-inserted held scope kind reason other (err e) made h = absurd (ground arith)
is_held-inserted held scope kind reason other (ok x) made h =
    is_held-insert x held other
    ∙ ap (λ s. s == other || is_held held other) (new_hold-scope scope kind reason x made)

-- A hold that is accepted holds its own scope and changes no other.
pub is_held-hold :
    (held : List CustodyHold) (scope : String) (kind : HoldKind) (reason other : String)
    → is_ok (hold held scope kind reason).0 ≡ true
    → is_held (hold held scope kind reason).1 other ≡ (scope == other || is_held held other)
unfolding hold
is_held-hold held scope kind reason other h =
    is_held-inserted held scope kind reason other (new_hold scope kind reason) refl h

-- A release that is accepted releases its own scope and changes no other.
pub is_held-release :
    (held : List CustodyHold) (scope other : String)
    → is_ok (release held scope).0 ≡ true
    → is_held (release held scope).1 other ≡ (not (scope == other) && is_held held other)
unfolding release is_held
is_held-release held scope other h = ground (arith, is_held-remove held scope other)

find-any : (p : CustodyHold → Bool) (l : List CustodyHold) → (find p l ≡ none) ↔ (any p l ≡ false)
find-any p [] = ((λ h. refl), (λ h. refl))
find-any p (x ∷ xs) = ((λ h. ground (arith, find-any p xs)), (λ h. ground (arith, find-any p xs)))

check_not_held-is_held :
    (held : List CustodyHold) (scope : String)
    → is_ok (check_not_held held scope) ≡ not (is_held held scope)
unfolding check_not_held is_held
check_not_held-is_held held scope = ground (arith, find-any (is_of scope) held)

set_not_cleanup : (c : String) → (c == "set") ≡ true → is_cleanup c ≡ false
set_not_cleanup c h = ap is_cleanup ((eq_iff c "set").0 h)

-- What a scope allows: everything when it is not held; when it is held, cleanup of the original target
-- and nothing else.
pub check_held_for_cleanup_iff :
    (held : List CustodyHold) (scope cleanup : String) (is_original_target : Bool)
    → (is_ok (check_held_for_cleanup held scope cleanup is_original_target) ≡ true)
      ↔ ((is_held held scope ≡ false) ⊎ ((is_cleanup cleanup ≡ true) × (is_original_target ≡ true)))
unfolding check_held_for_cleanup
check_held_for_cleanup_iff held scope cleanup is_original_target = (
  (λ h. ground (arith, check_not_held-is_held held scope, set_not_cleanup cleanup)),
  (λ h. ground (arith, check_not_held-is_held held scope, set_not_cleanup cleanup)),
)
