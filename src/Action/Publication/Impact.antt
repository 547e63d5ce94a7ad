-- ===== src/Action/Publication/Impact.antt =====
-- What the effective configurations must agree on for a target to be handed off across a change of
-- configuration: the impact of accept/effective.rs under the decisions of action_publication/policy.rs.
use verdant.Base.{
  arith, eq_iff, ◌≡◌, String, Bool, true, false, not, ◌&&◌, Option, none, some, List, [], ◌∷◌,
  if◌then◌else◌, ◌==◌, string_partial_eq, nat_partial_eq, PartialEq, Bool-cases, inl, inr, ◌∙◌,
  refl, Option-cases, All, any, ◌↔◌, sym, ap, some_injective,
}
use verdant.Accept.Effective.{
  Entry, Entries, EffectiveConfig, ImpactDiff, contains, get, noted, new_entries, old_keys,
  no_impact, provenance_of, impact_from, other_source, source_eq, SourceKind,
}
use verdant.Action.Publication.{is_preserved, assess_target_impact, assess_impact}

source_eq-same : (a b : SourceKind) → source_eq a b ≡ true → a ≡ b
source_eq-same a b h = ground (arith, h)

source_eq_refl : (a : SourceKind) → source_eq a a ≡ true
source_eq_refl a = ground arith

-- A map has one entry for a key.
abbrev pub UniqueKeys : {B : Type 0} → Entries B → Type 0
UniqueKeys [] = Unit {0}
UniqueKeys ((key, entry) ∷ es) = (get key es ≡ none) × UniqueKeys es

-- Where a target stands in a diff: added, invalidated, preserved.
abbrev marks : String → ImpactDiff → Bool × (Bool × Bool)
marks t diff = (contains t diff.added, (contains t diff.invalidated, contains t diff.preserved))

module _ {B : Type 0} ⦃binding_eq : PartialEq B⦄ where
  abbrev verdict : Entry B → Option (Entry B) → Bool × (Bool × Bool)
  verdict entry none = (true, (false, false))
  verdict entry (some previous) =
      if entry.binding == previous.binding then (false, (false, true)) else (false, (true, false))

  -- Both configurations have the key, with one binding.
  abbrev pub same_binding : Option (Entry B) → Option (Entry B) → Bool
  same_binding (some entry) (some previous) = entry.binding == previous.binding
  same_binding _ _ = false

  marks-noted_other :
      (t key : String) (entry : Entry B) (old : Option (Entry B)) (d : ImpactDiff)
      → (key == t) ≡ false
      → marks t (noted key entry old d) ≡ marks t d
  unfolding noted
  marks-noted_other t key entry none d differ = ground arith
  marks-noted_other t key entry (some p) d differ = ground arith

  marks-noted_self :
      (t key : String) (entry : Entry B) (old : Option (Entry B)) (d : ImpactDiff)
      → marks t d ≡ (false, (false, false))
      → (key == t) ≡ true
      → marks t (noted key entry old d) ≡ verdict entry old
  unfolding noted
  marks-noted_self t key entry none d unmarked same = ground arith
  marks-noted_self t key entry (some p) d unmarked same = ground arith

  marks-new_entries_other :
      (t : String) (es old : Entries B) (d : ImpactDiff)
      → get t es ≡ none
      → marks t (new_entries es old d) ≡ marks t d
  unfolding new_entries get
  marks-new_entries_other t [] old d absent = refl
  marks-new_entries_other t ((key, entry) ∷ es) old d absent = elim (Bool-cases (key == t)) [
    | inl same ↦ ground arith
    | inr differ ↦
        marks-new_entries_other t es old _ (ground arith)
        ∙ marks-noted_other t key entry (get key old) d differ
  ]

  marks-new_entries :
      (t : String) (es old : Entries B) (d : ImpactDiff) (entry : Entry B)
      → UniqueKeys es
      → get t es ≡ some entry
      → marks t d ≡ (false, (false, false))
      → marks t (new_entries es old d) ≡ verdict entry (get t old)
  unfolding new_entries get
  marks-new_entries t [] old d entry unique found unmarked = ground arith
  marks-new_entries t ((key, e) ∷ es) old d entry unique found unmarked =
      elim (Bool-cases (key == t)) [
        | inl same ↦
            marks-new_entries_other t es old _ (ground (arith, eq_iff key t))
            ∙ (marks-noted_self t key e (get key old) d unmarked same
                ∙ ground (arith, eq_iff key t))
        | inr differ ↦
            marks-new_entries t es old _ entry unique.1 (ground arith)
              (marks-noted_other t key e (get key old) d differ ∙ unmarked)
      ]

  contains-old_keys :
      (t : String) (es new : Entries B) (removed : List String) (entry : Entry B)
      → get t new ≡ some entry
      → contains t (old_keys es new removed) ≡ contains t removed
  unfolding old_keys
  contains-old_keys t [] new removed entry found = refl
  contains-old_keys t ((key, e) ∷ es) new removed entry found = elim (Bool-cases (key == t)) [
    | inl same ↦ contains-old_keys t es new _ entry found ∙ ground (arith, eq_iff key t)
    | inr differ ↦ contains-old_keys t es new _ entry found ∙ ground arith
  ]

  -- A target without a new entry, one that is new, and one that both configurations have.
  preserved_by :
      (new old : Entries B) (t : String) (changed : Bool) (entry previous : Option (Entry B))
      → UniqueKeys new
      → get t new ≡ entry
      → get t old ≡ previous
      → is_preserved (
          assess_target_impact
            (record (new_entries new old no_impact) {
              removed = old_keys old new [];
              provenance_changed = changed;
            })
            t)
        ≡ (not (t == "") && (not changed && same_binding entry previous))
  unfolding assess_target_impact
  preserved_by new old t changed none previous unique found before =
      let unmarked = marks-new_entries_other t new old no_impact found in ground arith
  preserved_by new old t changed (some entry) none unique found before =
      let marked = marks-new_entries t new old no_impact entry unique found refl in
      let kept = contains-old_keys t old new [] entry found in ground arith
  preserved_by new old t changed (some entry) (some previous) unique found before =
      let marked = marks-new_entries t new old no_impact entry unique found refl in
      let kept = contains-old_keys t old new [] entry found in ground arith

  -- An entry whose key the old configuration has comes from the same source there.
  abbrev SameSource : Entries B → String × Entry B → Type 0
  SameSource old e =
      (previous : Entry B) → get e.0 old ≡ some previous → previous.source ≡ e.1.source

  -- What both configurations have in common when a target is handed off.
  pub record Agrees {S F : Type 0} ⦃facts_eq : PartialEq (List F)⦄ (new old : EffectiveConfig S B F)
      (t : String) : Type 0 where
    pub named : (t == "") ≡ false
    pub reason : new.bootstrap_reason ≡ old.bootstrap_reason
    pub facts : (new.facts == old.facts) ≡ true
    pub revision : new.binding_revision ≡ old.binding_revision
    pub sources : All (SameSource old.entries) new.entries
    pub entry : Entry B
    pub previous : Entry B
    pub here : get t new.entries ≡ some entry
    pub there : get t old.entries ≡ some previous
    pub binding : (entry.binding == previous.binding) ≡ true

  other_source_iff :
      (entry : Entry B) (o : Option (Entry B))
      → (other_source entry o ≡ false)
        ↔ ((previous : Entry B) → o ≡ some previous → previous.source ≡ entry.source)
  other_source_iff entry none = ((λ h p e. absurd (cc)), (λ h. refl))
  other_source_iff entry (some q) = (
    (λ h p e.
        let same : source_eq q.source entry.source ≡ true = ground (arith, h) in
        ap (λ x. x.source) (sym (some_injective e)) ∙ source_eq-same q.source entry.source same),
    (λ h. let same = h q refl in rw same (ground (arith, source_eq_refl entry.source))),
  )

  sources_iff :
      (es old : Entries B)
      → (any (λ (k, e). other_source e (get k old)) es ≡ false) ↔ All (SameSource old) es
  sources_iff [] old = ((λ h. tt), (λ h. refl))
  sources_iff ((key, entry) ∷ es) old = (
    (λ h. (
      (other_source_iff entry (get key old)).0 (ground (arith, h)),
      (sources_iff es old).0 (ground (arith, h)),
    )),
    (λ h.
        let here = (other_source_iff entry (get key old)).1 h.0 in
        let rest = (sources_iff es old).1 h.1 in ground (arith, here, rest)),
  )

  module _ {S F : Type 0} ⦃facts_eq : PartialEq (List F)⦄ (new old : EffectiveConfig S B F)
      (t : String) where
    preserved_equation :
        UniqueKeys new.entries
        → is_preserved (assess_target_impact (impact_from new old) t) ≡ (
            not (t == "")
            && (not (provenance_of new old)
                && same_binding (get t new.entries) (get t old.entries)))
    unfolding assess_target_impact impact_from
    preserved_equation unique =
        preserved_by new.entries old.entries t (provenance_of new old) (get t new.entries)
          (get t old.entries) unique refl refl

    both_bound :
        (a b : Option (Entry B))
        → same_binding a b ≡ true
        → (e : Entry B) × (p : Entry B) × (a ≡ some e)
          × (b ≡ some p)
          × ((e.binding == p.binding) ≡ true)
    both_bound none b h = absurd (cc)
    both_bound (some e) none h = absurd (cc)
    both_bound (some e) (some p) h = (e, p, refl, refl, h)

    preserved-Agrees :
        UniqueKeys new.entries
        → is_preserved (assess_target_impact (impact_from new old) t) ≡ true
        → Agrees new old t
    unfolding provenance_of
    preserved-Agrees unique h =
        let equation = sym (preserved_equation unique) ∙ h in
        let (entry, previous, here, there, binding) =
          both_bound (get t new.entries) (get t old.entries) (ground (arith, equation)) in
        record {
          named = ground (arith, equation);
          reason = ground (arith, equation, eq_iff new.bootstrap_reason old.bootstrap_reason);
          facts = ground (arith, equation);
          revision = ground (arith, equation);
          sources = (sources_iff new.entries old.entries).0 (ground (arith, equation));
          entry = entry;
          previous = previous;
          here = here;
          there = there;
          binding = binding;
        }

    Agrees-preserved :
        UniqueKeys new.entries
        → Agrees new old t
        → is_preserved (assess_target_impact (impact_from new old) t) ≡ true
    unfolding provenance_of
    Agrees-preserved unique a =
        let same_sources = (sources_iff new.entries old.entries).1 a.sources in
        preserved_equation unique
        ∙ ground (
          arith,
          same_sources,
          a.named,
          a.facts,
          a.revision,
          a.here,
          a.there,
          a.binding,
          a.reason,
          eq_iff new.bootstrap_reason old.bootstrap_reason,
        )

    -- A target can be handed off across a change of configuration exactly when it has a name; the configurations
    -- have the same bootstrap reason, equal facts and the same binding revision; each new entry whose
    -- key the old configuration has comes from the same source there; and both have an entry for the
    -- target, with equal bindings. Each key has one new entry.
    pub assess_target_impact-Agrees_iff :
        UniqueKeys new.entries
        → (is_preserved (assess_target_impact (impact_from new old) t) ≡ true) ↔ Agrees new old t
    assess_target_impact-Agrees_iff unique = (preserved-Agrees unique, Agrees-preserved unique)

  -- A change of configuration that preserves the whole publication preserves every named target with
  -- a new entry, given that each key has one new entry.
  pub assess_impact-assess_target_impact :
      {S F : Type 0} ⦃facts_eq : PartialEq (List F)⦄ (new old : EffectiveConfig S B F) (t : String)
      (entry : Entry B)
      → UniqueKeys new.entries
      → get t new.entries ≡ some entry
      → (t == "") ≡ false
      → is_preserved (assess_impact (impact_from new old)) ≡ true
      → is_preserved (assess_target_impact (impact_from new old) t) ≡ true
  unfolding assess_impact assess_target_impact impact_from
  assess_impact-assess_target_impact new old t entry unique found named whole =
      elim (Option-cases (get t old.entries)) [
        | inl before ↦
            let marked =
              marks-new_entries t new.entries old.entries no_impact entry unique found refl in
            let kept = contains-old_keys t old.entries new.entries [] entry found in ground arith
        | inr (previous, before) ↦
            let marked =
              marks-new_entries t new.entries old.entries no_impact entry unique found refl in
            let kept = contains-old_keys t old.entries new.entries [] entry found in ground arith
      ]
