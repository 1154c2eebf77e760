-- ===== src/Ds/Examples.antt =====
-- Runs of ds/ on concrete input, and the theorems there.
use cpp_utils.Base.{ℕ, ◌≡◌, refl, arith, some, [], ◌∷◌, get_elem?, ok}
use cpp_utils.Base.Int.{pos, negsuc}
use cpp_utils.Ds.LinkedList.{LinkedList, insert, remove, get}
use cpp_utils.Ds.LinkedList.Positions.{IsValid, insert_lem, remove_lem, get_lem}

-- A list of two and of three numbers.
abbrev two : LinkedList ℕ
two = record { head = 5 ∷ 6 ∷ []; len = 2 }

abbrev three : LinkedList ℕ
three = record { head = 5 ∷ 9 ∷ 6 ∷ []; len = 3 }

two-IsValid : IsValid two
two-IsValid = record { len_is = refl; in_range = omega arith }

insert_lem_example : insert (negsuc 0) 9 two ≡ ok (pos 0, three)
insert_lem_example = insert_lem 9 two (negsuc 0) two-IsValid

remove_lem_example : remove (negsuc 1) two ≡ ok (pos 0, record { head = 6 ∷ []; len = 1 })
remove_lem_example = remove_lem two (negsuc 1) two-IsValid

get_lem_example : (x : ℕ) × (get_elem? (5 ∷ 6 ∷ []) 1 ≡ some x) × (get (negsuc 0) two ≡ ok x)
get_lem_example = get_lem two (negsuc 0) two-IsValid
