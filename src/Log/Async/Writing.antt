-- ===== src/Log/Async/Writing.antt =====
-- The end of a round of log/asyncLogging.cpp: the buffers go to the log files, and a full file is closed.
use cpp_utils.Base.{
  ℕ, ◌≡◌, refl, sym, ap, subst, ◌∙◌, inl, inr, ◌⊎◌, Bool-cases, List, [], ◌∷◌, ◌++◌, append_assoc,
  append-nil, Outcome, ok, fault,
}
use cpp_utils.Base.Int.{ℤ, ◌+ℤ◌, ltb_ℤ}
use cpp_utils.Log.Async.{Routine, at_test, joined, in_int, int_sum, need_write, write_buffers}

pub joined-append : (xs ys : List (List ℕ)) → joined (xs ++ ys) ≡ joined xs ++ joined ys
joined-append [] ys = refl
joined-append (x ∷ xs) ys =
    ap (◌++◌ x) (joined-append xs ys) ∙ sym (append_assoc x (joined xs) (joined ys))

pub joined_last : (xs : List (List ℕ)) (x : List ℕ) → joined (xs ++ (x ∷ [])) ≡ joined xs ++ x
joined_last xs x = joined-append xs (x ∷ []) ∙ ap (◌++◌ (joined xs)) (append-nil x)

-- The content of all log files.
abbrev pub logged : Routine → List ℕ
logged r = joined r.closed ++ r.file

pub returned_once : {A : Type 0} (m : Outcome A) (a b : A) → m ≡ ok a → m ≡ ok b → b ≡ a
returned_once m a b e e' = cc

-- A round that appends to the open file, and one that starts a new file.
abbrev continued : ℤ → List (List ℕ) → Routine → Routine
continued total taken r = record r {
  place = at_test;
  written = total;
  file = r.file ++ joined taken;
}

abbrev rolled : List (List ℕ) → Routine → Routine
rolled taken r = record r {
  place = at_test;
  written = need_write taken;
  closed = r.closed ++ (r.file ∷ []);
  file = joined taken;
}

write_buffers_cases :
    (roll_size : ℤ) (taken : List (List ℕ)) (r : Routine)
    → ((write_buffers roll_size taken r ≡ ok (continued (r.written +ℤ need_write taken) taken r))
        ⊎ (write_buffers roll_size taken r ≡ ok (rolled taken r)))
      ⊎ (write_buffers roll_size taken r ≡ fault)
unfolding write_buffers int_sum
write_buffers_cases roll_size taken r = elim (Bool-cases (in_int (r.written +ℤ need_write taken))) [
  | inl fits ↦ elim (Bool-cases (ltb_ℤ roll_size (r.written +ℤ need_write taken))) [
    | inl full ↦ inl (inr (rw (fits, full)))
    | inr room ↦ inl (inl (rw (fits, room)))
  ]
  | inr over ↦ inr (rw over)
]

logged-rolled :
    (taken : List (List ℕ)) (r : Routine) → logged (rolled taken r) ≡ logged r ++ joined taken
logged-rolled taken r = ap (λ t. t ++ joined taken) (joined_last r.closed r.file)

-- What is the same after a round is written, and what is not.
pub record Written (taken : List (List ℕ)) (r r' : Routine) : Type 0 where
  pub place_is : r'.place ≡ at_test
  pub same_first : r'.buffer1 ≡ r.buffer1
  pub same_second : r'.buffer2 ≡ r.buffer2
  pub logged_more : logged r' ≡ logged r ++ joined taken

pub write_buffers-Written :
    (roll_size : ℤ) (taken : List (List ℕ)) (r r' : Routine)
    → write_buffers roll_size taken r ≡ ok r'
    → Written taken r r'
write_buffers-Written roll_size taken r r' e = elim (write_buffers_cases roll_size taken r) [
  | inl (inl e') ↦ subst (Written taken r) (returned_once _ r' _ e e') (record {
    place_is = refl;
    same_first = refl;
    same_second = refl;
    logged_more = sym (append_assoc (joined r.closed) r.file (joined taken));
  })
  | inl (inr e') ↦ subst (Written taken r) (returned_once _ r' _ e e') (record {
    place_is = refl;
    same_first = refl;
    same_second = refl;
    logged_more = logged-rolled taken r;
  })
  | inr e' ↦ absurd (ok_fault (sym e ∙ e'))
]
  where
    ok_fault : {A : Type 0} {a : A} → ok a ≡ fault → ⊥
    ok_fault h = cc
