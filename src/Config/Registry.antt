-- ===== src/Config/Registry.antt =====
-- The class `Config` of config/config.h and config/config.cpp: the table of the variables by their
-- names. Variables are never removed, so a shared pointer to one is its name.
pub mod Load
use std.HLevel.{hedberg}
use mathlib.Core.Path.{subst_refl}
use mathlib.Core.Option.{map}
use cpp_utils.Base.{
  ℕ, ◌≡◌, ◌≢◌, refl, sym, ap, subst, ◌∙◌, inl, inr, ◌⊎◌, Bool, true, false, Bool-cases, Option,
  none, some, List, [], ◌∷◌, if◌then◌else◌, eq_text, less_text, eq_text→eq, eq_text_refl,
  less_text→neq, less_text_total,
}
use cpp_utils.Config.Var.{ConfigVar, new_var}

-- `Ty` are the types of the variables, as `typeid` tells them apart, and `Val` their values.
module _ {Ty : Type 0} (Val : Ty → Type 0) where
  -- `ConfigVarBase`: a variable with its type.
  abbrev pub ConfigVarBase : Type 0
  ConfigVarBase = (t : Ty) × ConfigVar (Val t)

  -- `std::map<std::string, ConfigVarBase::ptr>`, in the order of the names
  abbrev pub Registry : Type 0
  Registry = List (List ℕ × ConfigVarBase)

  -- `find(name)`
  unfoldable pub find : Registry → List ℕ → Option ConfigVarBase
  find [] name = none
  find ((key, var) ∷ vars) name =
      let rest = find vars name in if eq_text key name then some var else rest

  -- `_configVars[name] = sp`
  unfoldable pub assign : Registry → List ℕ → ConfigVarBase → Registry
  assign [] name var = (name, var) ∷ []
  assign ((key, old) ∷ vars) name var =
      let further = (key, old) ∷ assign vars name var in
      if less_text name key
      then (name, var) ∷ (key, old) ∷ vars
      else if less_text key name
      then further
      else (key, var) ∷ vars

  -- What is done to the variable behind a pointer.
  unfoldable pub update : (ConfigVarBase → ConfigVarBase) → Registry → List ℕ → Registry
  update f [] name = []
  update f ((key, var) ∷ vars) name =
      let further = (key, var) ∷ update f vars name in
      if eq_text key name then (key, f var) ∷ vars else further

  -- `traverse(func)`: `func` on each variable, in the order of the names; it may change the variable
  -- and a state of its own.
  unfoldable pub traverse :
      {S : Type 0} → (ConfigVarBase → S → ConfigVarBase × S) → Registry → S → Registry × S
  traverse func [] state = ([], state)
  traverse func ((key, var) ∷ vars) state =
      let here = func var state in
      let rest = traverse func vars here.1 in ((key, here.0) ∷ rest.0, rest.1)

  -- An assignment is seen under its name, and under no other.
  pub find-assign :
      (vars : Registry) (name other : List ℕ) (var : ConfigVarBase)
      → find (assign vars name var) other
        ≡ (if eq_text name other then some var else find vars other)
  unfolding find assign
  find-assign [] name other var = refl
  find-assign ((key, old) ∷ vars) name other var = elim (Bool-cases (less_text name key)) [
    | inl lt ↦ rw (lt, find, assign)
    | inr nlt ↦ elim (Bool-cases (less_text key name)) [
      | inl gt ↦ elim (Bool-cases (eq_text key other)) [
        | inl here ↦ rw (nlt, gt, here, find, assign, differ gt here)
        | inr not_here ↦ rw (nlt, gt, not_here, find, assign, find-assign vars name other var)
      ]
      | inr ngt ↦ elim (Bool-cases (eq_text key other)) [
        | inl here ↦ rw (nlt, ngt, find, assign, less_text_total name key nlt ngt, here)
        | inr not_here ↦ rw (nlt, ngt, find, assign, less_text_total name key nlt ngt, not_here)
      ]
    ]
  ]
    where
      -- A key in front of the name is another one.
      differ : less_text key name ≡ true → eq_text key other ≡ true → eq_text name other ≡ false
      differ gt here = elim (Bool-cases (eq_text name other)) [
        | inl same ↦
            let e : key ≡ name = eq_text→eq key other here ∙ sym (eq_text→eq name other same) in
            cc (less_text→neq key name gt, e, eq_text_refl name)
        | inr e ↦ e
      ]

  pub find-update :
      (f : ConfigVarBase → ConfigVarBase) (vars : Registry) (name other : List ℕ)
      → find (update f vars name) other
        ≡ (if eq_text name other then map f (find vars other) else find vars other)
  unfolding find update
  find-update f [] name other = elim (Bool-cases (eq_text name other)) [
    | inl e ↦ rw e
    | inr e ↦ rw e
  ]
  find-update f ((key, var) ∷ vars) name other = elim (Bool-cases (eq_text key name)) [
    | inl e ↦ elim (Bool-cases (eq_text key other)) [
      | inl e' ↦ rw (e, find, update, sym (eq_text→eq key name e), e')
      | inr e' ↦ rw (e, find, update, sym (eq_text→eq key name e), e')
    ]
    | inr e ↦ elim (Bool-cases (eq_text key other)) [
      | inl e' ↦ rw (e, e', find, update, differ e e')
      | inr e' ↦ rw (e, e', find, update, find-update f vars name other)
    ]
  ]
    where
      differ : eq_text key name ≡ false → eq_text key other ≡ true → eq_text name other ≡ false
      differ e e' = elim (Bool-cases (eq_text name other)) [
        | inl same ↦
            let here : key ≡ name = eq_text→eq key other e' ∙ sym (eq_text→eq name other same) in
            cc (e, here, eq_text_refl name)
        | inr not_same ↦ not_same
      ]

module _ {Ty : Type 0} (Val : Ty → Type 0) (same_type : Discrete Ty) where
  abbrev cast_by : {s t : Ty} → Dec (s ≡ t) → ConfigVar (Val s) → Option (ConfigVar (Val t))
  cast_by (yes e) c = some (subst (λ r. ConfigVar (Val r)) e c)
  cast_by (no _) c = none

  -- `std::dynamic_pointer_cast<ConfigVar<T>>`
  unfoldable pub cast : (t : Ty) → ConfigVarBase Val → Option (ConfigVar (Val t))
  cast t (s, c) = cast_by (same_type s t) c

  -- `lookup<T>(name)`
  unfoldable pub lookup : (t : Ty) → Registry Val → List ℕ → Option (ConfigVar (Val t))
  unfolding find cast
  lookup t vars name = elim (find Val vars name) [ none ↦ none | some var ↦ cast t var ]

  -- `lookup<T>(name, val, description)`: what it returns, and the table after it.
  unfoldable pub lookup_or_create :
      (t : Ty) → Registry Val → List ℕ → Val t → List ℕ → Option (ConfigVar (Val t)) × Registry Val
  unfolding lookup find assign
  lookup_or_create t vars name val description = elim (lookup t vars name) [
    | some sp ↦ (some sp, vars)
    | none ↦ elim (find Val vars name) [
      | some it ↦ (none, vars)
      | none ↦ let sp = new_var val name description in (some sp, assign Val vars name (t, sp))
    ]
  ]

  cast_by_same : {t : Ty} (d : Dec (t ≡ t)) (c : ConfigVar (Val t)) → cast_by d c ≡ some c
  cast_by_same {t = t} (yes e) c = ap some (
      ap (λ (p : t ≡ t). subst (λ r. ConfigVar (Val r)) p c) (hedberg same_type t t e refl)
      ∙ subst_refl (λ r. ConfigVar (Val r)) c)
  cast_by_same (no other) c = absurd (other refl)

  cast_by_other : {s t : Ty} (d : Dec (s ≡ t)) (c : ConfigVar (Val s)) → s ≢ t → cast_by d c ≡ none
  cast_by_other (yes e) c differ = absurd (differ e)
  cast_by_other (no _) c differ = refl

  cast_same : (t : Ty) (c : ConfigVar (Val t)) → cast t (t, c) ≡ some c
  unfolding cast
  cast_same t c = cast_by_same (same_type t t) c

  cast_other : (s t : Ty) (c : ConfigVar (Val s)) → s ≢ t → cast t (s, c) ≡ none
  unfolding cast
  cast_other s t c differ = cast_by_other (same_type s t) c differ

  -- `lookup(name, val, description)` of a name that a variable of this type has returns that variable
  -- and changes nothing. Of a name that a variable of another type has, it returns a null pointer and
  -- changes nothing. Of a name that no variable has, it returns a new variable with these arguments
  -- and no callback, which from then on `lookup<T>(name)` returns, while under the other names there
  -- is what there was.
  pub lookup_or_create_lem :
      (t : Ty) (vars : Registry Val) (name : List ℕ) (val : Val t) (description : List ℕ)
      → ((c : ConfigVar (Val t))
          → find Val vars name ≡ some (t, c)
          → lookup_or_create t vars name val description ≡ (some c, vars))
        × ((s : Ty) (c : ConfigVar (Val s))
            → find Val vars name ≡ some (s, c)
            → s ≢ t
            → lookup_or_create t vars name val description ≡ (none, vars))
        × (find Val vars name ≡ none
            → (after : Registry Val) × (lookup_or_create t vars name val description
                ≡ (some (new_var val name description), after))
              × (lookup t after name ≡ some (new_var val name description))
              × ((other : List ℕ) → other ≢ name → find Val after other ≡ find Val vars other))
  unfolding lookup_or_create
  lookup_or_create_lem t vars name val description = (
    λ c found. rw (found, lookup, lookup_or_create, cast_same t c),
    λ s c found differ. rw (found, lookup, lookup_or_create, cast_other s t c differ, found),
    λ absent. (
      assign Val vars name (t, new_var val name description),
      rw (absent, lookup, lookup_or_create, absent),
      rw
          (
            lookup,
            find-assign Val vars name name (t, new_var val name description),
            eq_text_refl name,
          )
          (cast_same t (new_var val name description)),
      λ other differ.
          find-assign Val vars name other (t, new_var val name description)
          ∙ rw (differs other differ),
    ),
  )
    where
      differs : (other : List ℕ) → other ≢ name → eq_text name other ≡ false
      differs other differ = elim (Bool-cases (eq_text name other)) [
        | inl e ↦ absurd (differ (sym (eq_text→eq name other e)))
        | inr e ↦ e
      ]
