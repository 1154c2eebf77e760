-- ===== src/Config/Var.antt =====
-- The class `ConfigVar` of config/config.h. A value of `Option` that is `none` stands for a conversion
-- that throws.
use cpp_utils.Base.{
  ℕ, ◌≡◌, refl, sym, ap, subst, ◌∙◌, ◌⊎◌, append_assoc, inl, inr, Bool, true, false, Bool-cases,
  Option-cases, append-nil, Option, none, some, List, [], ◌∷◌, ◌++◌, if◌then◌else◌,
}

-- `_cb` is a function that is called with the old and the new value, and returns (`true`) or throws
-- an `std::exception`; `calls` are the calls that were made of it and of its predecessors. It is
-- supposed not to set the variable that it is called for.
pub record ConfigVar (T : Type 0) : Type 0 where
  pub name : List ℕ
  pub description : List ℕ
  pub val : T
  pub cb : Option (T → T → Bool)
  pub calls : List (T × T)

module _ {T : Type 0} where
  -- `ConfigVar(val, name, description)`
  abbrev pub new_var : T → List ℕ → List ℕ → ConfigVar T
  new_var val name description = record {
    name = name;
    description = description;
    val = val;
    cb = none;
    calls = [];
  }

  -- `if (_cb) _cb(oldVal, v)`: whether it returns.
  unfoldable pub call_back : T → T → ConfigVar T → Bool × ConfigVar T
  call_back old v c = elim c.cb [
    | none ↦ (true, c)
    | some f ↦ (f old v, record c { calls = c.calls ++ ((old, v) ∷ []) })
  ]

  -- `setOnChangeCallBack(cb)` and `delOnChangeCallBack()`
  abbrev pub set_on_change_call_back : (T → T → Bool) → ConfigVar T → ConfigVar T
  set_on_change_call_back f c = record c { cb = some f }

  abbrev pub del_on_change_call_back : ConfigVar T → ConfigVar T
  del_on_change_call_back c = record c { cb = none }

  -- `toString()`
  unfoldable pub to_string : (T → Option (List ℕ)) → ConfigVar T → List ℕ
  to_string to_str c = elim (to_str c.val) [ none ↦ [] | some text ↦ text ]

module _ {T : Type 0} (eq : T → T → Bool) where
  -- `setValue(v)`: whether it returns. The value is changed before the callback can throw.
  unfoldable pub set_value : T → ConfigVar T → Bool × ConfigVar T
  unfolding call_back
  set_value v c = if eq v c.val then (true, c) else call_back c.val v (record c { val = v })

  -- `fromString(val)`: what it returns, every exception being caught.
  unfoldable pub from_string : (List ℕ → Option T) → List ℕ → ConfigVar T → Bool × ConfigVar T
  unfolding set_value
  from_string from_str text c = elim (from_str text) [ none ↦ (false, c) | some v ↦ set_value v c ]

  -- Calls of `fromString`, one after the other.
  abbrev pub from_each : (List ℕ → Option T) → List (List ℕ) → ConfigVar T → ConfigVar T
  from_each from_str [] c = c
  from_each from_str (text ∷ texts) c = from_each from_str texts (from_string from_str text c).1

  -- Each call is of a change, from the value that the last change led to.
  abbrev pub Chain : T → List (T × T) → T → Type 0
  Chain first [] last = first ≡ last
  Chain first ((old, new) ∷ calls) last =
      (old ≡ first) × (eq new old ≡ false) × Chain new calls last

  -- A call of `fromString` leaves all as it is, or stores a value and calls the callback.
  abbrev Changed : T → ConfigVar T → ConfigVar T
  Changed v c = record c { val = v; calls = c.calls ++ ((c.val, v) ∷ []) }

  call_back_there :
      (v : T) (c d : ConfigVar T) (f : T → T → Bool)
      → d.cb ≡ some f
      → (call_back c.val v d).1 ≡ record d { calls = d.calls ++ ((c.val, v) ∷ []) }
  unfolding call_back
  call_back_there v c d f called = there d.cb called
    where
      made : Option (T → T → Bool) → Bool × ConfigVar T
      made o = elim o [
        | none ↦ (true, d)
        | some g ↦ (g c.val v, record d { calls = d.calls ++ ((c.val, v) ∷ []) })
      ]

      there :
          (o : Option (T → T → Bool))
          → o ≡ some f
          → (made o).1 ≡ record d { calls = d.calls ++ ((c.val, v) ∷ []) }
      there none e = cc
      there (some g) e = refl

  from_string-cases :
      (from_str : List ℕ → Option T) (text : List ℕ) (c : ConfigVar T) (f : T → T → Bool)
      → c.cb ≡ some f
      → ((from_string from_str text c).1 ≡ c)
        ⊎ ((v : T) × (eq v c.val ≡ false) × ((from_string from_str text c).1 ≡ Changed v c))
  unfolding from_string
  from_string-cases from_str text c f called = elim (Option-cases (from_str text)) [
    | inl e ↦ inl (rw (e, from_string) refl)
    | inr (v, e) ↦ elim (Bool-cases (eq v c.val)) [
      | inl same ↦ inl (rw (e, from_string, set_value, same) refl)
      | inr differ ↦ inr (
        v,
        differ,
        rw (e, from_string, set_value, differ)
            (call_back_there v c (record c { val = v }) f called),
      )
    ]
  ]

  -- Whatever texts `fromString` is called with, one after the other, on a variable with a callback, and
  -- whether the callback returns or throws: the callback is called once for each change of the value, in
  -- order, with the value that the call before has left and with another one, and the last of these is
  -- what the variable has then. The callback is supposed not to set the variable itself.
  pub from_each-Chain :
      (from_str : List ℕ → Option T) (texts : List (List ℕ)) (c : ConfigVar T) (f : T → T → Bool)
      → c.cb ≡ some f
      → (calls : List (T × T)) × ((from_each from_str texts c).calls ≡ c.calls ++ calls)
        × Chain c.val calls (from_each from_str texts c).val
  from_each-Chain from_str [] c f called = ([], sym (append-nil c.calls), refl)
  from_each-Chain from_str (text ∷ texts) c f called =
      elim (from_string-cases from_str text c f called) [
        | inl same ↦
            subst (Linked c) (ap (from_each from_str texts) (sym same))
              (from_each-Chain from_str texts c f called)
        | inr (v, differ, changed) ↦
            let (calls, e, chain) = from_each-Chain from_str texts (Changed v c) f called in
            subst (Linked c) (ap (from_each from_str texts) (sym changed)) (
              (c.val, v) ∷ calls,
              e ∙ append_assoc c.calls ((c.val, v) ∷ []) calls,
              (refl, differ, chain),
            )
      ]
    where
      Linked : ConfigVar T → ConfigVar T → Type 0
      Linked c d = (calls : List (T × T)) × (d.calls ≡ c.calls ++ calls) × Chain c.val calls d.val
