-- ===== src/Config/Tree.antt =====
-- `listAllNodes` of config/config.cpp: the nodes of a YAML tree under dotted names.
use cpp_utils.Base.{
  ℕ, zero, suc, ◌<◌, ◌≡◌, refl, sym, ap, subst, ◌∙◌, ◌⊎◌, inl, inr, ◌↔◌, Bool-cases, arith, Bool,
  true, false, List, [], ◌∷◌, ◌++◌, Among, Among-left, Among-right, Among-append, Outcome, ok,
  out_of_fuel, ◌>>=◌,
}
use cpp_utils.Config.Yaml.{Yaml, is_map, IsTree}

module _ (yaml : Yaml) where
  abbrev pub Listed : Type 0
  Listed = List (List ℕ × yaml.Node)

  -- The name of the child with the key `k` of a node that is called `name`.
  unfoldable pub key_name : List ℕ → yaml.Node → Outcome (List ℕ)
  key_name [] k = yaml.as_string k
  key_name (c ∷ name) k = ok ((c ∷ name) ++ (b'.' ∷ yaml.scalar k))

  -- The loop over the entries of a map; `visit` is `listAllNodes`.
  unfoldable pub list_entries :
      (List ℕ → yaml.Node → Outcome Listed) → List ℕ → List (yaml.Node × yaml.Node) → Outcome Listed
  unfolding key_name
  list_entries visit name [] = ok []
  list_entries visit name ((k, v) ∷ rest) = do
    child ← key_name name k
    here ← visit child v
    there ← list_entries visit name rest
    ok (here ++ there)

  -- `listAllNodes(name, node, allNodes)`: what it adds to `allNodes`.
  unfoldable pub list_all_nodes : ℕ → List ℕ → yaml.Node → Outcome Listed
  unfolding list_entries
  list_all_nodes zero name node = out_of_fuel
  list_all_nodes (suc fuel) name node = elim (is_map (yaml.kind node)) [
    | true ↦ do
      below ← list_entries (list_all_nodes fuel) name (yaml.entries node)
      ok ((name, node) ∷ below)
    | false ↦ ok ((name, node) ∷ [])
  ]

  -- The node at the end of a path of keys.
  pub data At : yaml.Node → List (List ℕ) → yaml.Node → Type 0 where
    here : {n : yaml.Node} → At n [] n
    below :
        {n k v t : yaml.Node} {keys : List (List ℕ)}
        → is_map (yaml.kind n) ≡ true
        → Among (k, v) (yaml.entries n)
        → At v keys t
        → At n (yaml.scalar k ∷ keys) t

-- The keys of a path, with dots between them, behind the name of the node where it starts.
abbrev pub dotted : List ℕ → List (List ℕ) → List ℕ
dotted name [] = name
dotted [] (key ∷ keys) = dotted key keys
dotted (c ∷ name) (key ∷ keys) = dotted ((c ∷ name) ++ (b'.' ∷ key)) keys

-- The name of a child.
abbrev child_of : List ℕ → List ℕ → List ℕ
child_of [] key = key
child_of (c ∷ name) key = (c ∷ name) ++ (b'.' ∷ key)

dotted-child :
    (name key : List ℕ) (keys : List (List ℕ))
    → dotted name (key ∷ keys) ≡ dotted (child_of name key) keys
dotted-child [] key keys = refl
dotted-child (c ∷ name) key keys = refl

module _ (yaml : Yaml) (tree : IsTree yaml) where
  key_name-child :
      (name : List ℕ) (n k v : yaml.Node)
      → Among (k, v) (yaml.entries n)
      → key_name yaml name k ≡ ok (child_of name (yaml.scalar k))
  unfolding key_name
  key_name-child [] n k v h = tree.text_keys n k v h
  key_name-child (c ∷ name) n k v h = refl

  -- A pair stands for a node on a path from `n`, where `n` is called `name`.
  abbrev pub IsNamed : List ℕ → yaml.Node → List ℕ × yaml.Node → Type 0
  IsNamed name n found =
      (keys : List (List ℕ)) × At yaml n keys found.1 × (found.0 ≡ dotted name keys)

  -- A list of pairs is what a call has to add.
  abbrev Exact : List ℕ → yaml.Node → Listed yaml → Type 0
  Exact name n listed = (found : List ℕ × yaml.Node) → Among found listed ↔ IsNamed name n found

  -- The entries `part` of the map `n`, each visited.
  abbrev ExactEntries : List ℕ → List (yaml.Node × yaml.Node) → Listed yaml → Type 0
  ExactEntries name part listed =
      (found : List ℕ × yaml.Node)
      → Among found listed ↔ (
          (k : yaml.Node) × (v : yaml.Node) × Among (k, v) part
          × IsNamed (child_of name (yaml.scalar k)) v found)

  list_entries_lem :
      (visit : List ℕ → yaml.Node → Outcome (Listed yaml)) (name : List ℕ) (n : yaml.Node)
      (part : List (yaml.Node × yaml.Node))
      → ((k v : yaml.Node) → Among (k, v) part → Among (k, v) (yaml.entries n))
      → ((child : List ℕ) (k v : yaml.Node)
          → Among (k, v) (yaml.entries n)
          → (listed : Listed yaml) × (visit child v ≡ ok listed) × Exact child v listed)
      → (listed : Listed yaml) × (list_entries yaml visit name part ≡ ok listed)
        × ExactEntries name part listed
  unfolding list_entries
  list_entries_lem visit name n [] inside visits =
      ([], refl, λ found. (λ h. absurd h, λ (k, v, h, _). absurd h))
  list_entries_lem visit name n ((k, v) ∷ rest) inside visits =
      let at = inside k v (inl refl) in
      let (first, e, exact) = visits (child_of name (yaml.scalar k)) k v at in
      let (others, e', exact') =
        list_entries_lem visit name n rest (λ k' v' h. inside k' v' (inr h)) visits in
      (
        first ++ others,
        rw (key_name-child name n k v at, ◌>>=◌, e, e'),
        λ found. (
          λ h. elim (Among-append found first others h) [
            | inl front ↦ (k, v, inl refl, (exact found).0 front)
            | inr back ↦ let (k', v', h', named) = (exact' found).0 back in (k', v', inr h', named)
          ],
          λ (k', v', h, named). elim h [
            | inl same ↦ Among-left found first others (
                (exact found).1 (
                  subst
                    (λ (p : yaml.Node × yaml.Node).
                      IsNamed (child_of name (yaml.scalar p.0)) p.1 found)
                    same named))
            | inr back ↦ Among-right found first others ((exact' found).1 (k', v', back, named))
          ],
        ),
      )

  At-cases :
      {n t : yaml.Node} {keys : List (List ℕ)}
      → At yaml n keys t
      → ((keys ≡ []) × (t ≡ n))
        ⊎ ((k : yaml.Node) × (v : yaml.Node) × (rest : List (List ℕ)) × (is_map (yaml.kind n)
              ≡ true)
            × Among (k, v) (yaml.entries n)
            × At yaml v rest t
            × (keys ≡ yaml.scalar k ∷ rest))
  At-cases here = inl (refl, refl)
  At-cases (below {k = k} {v = v} {keys = keys} m h at) = inr (k, v, keys, m, h, at, refl)

  -- The node itself, and what is named below it.
  IsNamed-cases :
      (name : List ℕ) (n : yaml.Node) (found : List ℕ × yaml.Node)
      → IsNamed name n found
      → (found ≡ (name, n))
        ⊎ ((is_map (yaml.kind n) ≡ true)
            × (k : yaml.Node) × (v : yaml.Node) × Among (k, v) (yaml.entries n)
            × IsNamed (child_of name (yaml.scalar k)) v found)
  IsNamed-cases name n found (keys, at, e) = elim (At-cases at) [
    | inl (nil, same) ↦ inl (λ i. ((e ∙ ap (dotted name) nil) i, same i))
    | inr (k, v, rest, m, h, at', keys_are) ↦ inr (
      m,
      k,
      v,
      h,
      (rest, at', e ∙ ap (dotted name) keys_are ∙ dotted-child name (yaml.scalar k) rest),
    )
  ]

  IsNamed-here :
      (name : List ℕ) (n : yaml.Node) (found : List ℕ × yaml.Node)
      → found ≡ (name, n)
      → IsNamed name n found
  IsNamed-here name n found e = subst (IsNamed name n) (sym e) ([], here, refl)

  IsNamed-below :
      (name : List ℕ) (n k v : yaml.Node) (found : List ℕ × yaml.Node)
      → is_map (yaml.kind n) ≡ true
      → Among (k, v) (yaml.entries n)
      → IsNamed (child_of name (yaml.scalar k)) v found
      → IsNamed name n found
  IsNamed-below name n k v found m h (keys, at, e) =
      (yaml.scalar k ∷ keys, below m h at, e ∙ sym (dotted-child name (yaml.scalar k) keys))

  -- On a tree `listAllNodes` returns, a depth of recursion above that of the tree being enough, and
  -- adds just the nodes at the end of a path of keys, under the name of the start and the keys of the
  -- path with dots between them; a name that is empty has no dot behind it.
  pub list_all_nodes_lem :
      (fuel : ℕ) (name : List ℕ) (n : yaml.Node)
      → tree.depth n < fuel
      → (listed : Listed yaml) × (list_all_nodes yaml fuel name n ≡ ok listed)
        × ((found : List ℕ × yaml.Node)
            → Among found listed
              ↔ ((keys : List (List ℕ)) × At yaml n keys found.1 × (found.0 ≡ dotted name keys)))
  unfolding list_all_nodes
  list_all_nodes_lem zero name n enough = absurd (omega arith)
  list_all_nodes_lem (suc fuel) name n enough = elim (Bool-cases (is_map (yaml.kind n))) [
    | inl map ↦
        let (listed, e, exact) =
          list_entries_lem (list_all_nodes yaml fuel) name n (yaml.entries n) (λ k v h. h)
            (λ child k v h. list_all_nodes_lem fuel child v (omega (arith, tree.deeper n k v h))) in
        (
          (name, n) ∷ listed,
          rw (map, list_all_nodes, e),
          λ found. (
            λ h. elim h [
              | inl same ↦ IsNamed-here name n found same
              | inr later ↦
                  let (k, v, h', named) = (exact found).0 later in
                  IsNamed-below name n k v found map h' named
            ],
            λ named. elim (IsNamed-cases name n found named) [
              | inl same ↦ inl same
              | inr (_, k, v, h', named') ↦ inr ((exact found).1 (k, v, h', named'))
            ],
          ),
        )
    | inr leaf ↦ (
      (name, n) ∷ [],
      rw (leaf, list_all_nodes),
      λ found. (
        λ h. elim h [
          | inl same ↦ IsNamed-here name n found same
          | inr none_there ↦ absurd none_there
        ],
        λ named. elim (IsNamed-cases name n found named) [
          | inl same ↦ inl same
          | inr (map, _, _, _, _) ↦ absurd (true_false (sym map ∙ leaf))
        ],
      ),
    )
  ]
    where
      true_false : ◌≡◌ {A = Bool} true false → ⊥
      true_false h = cc
