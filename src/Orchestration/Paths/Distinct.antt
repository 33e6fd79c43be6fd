-- ===== src/Orchestration/Paths/Distinct.antt =====
-- What `_dedupe_paths` and `_within_any_root` return.
use strongclaw.Prelude.{
  String, Bool, true, false, not, ◌&&◌, none, some, List, [], ◌∷◌, map, ◌==◌, ◌≡◌, refl, ◌∙◌, arith,
  eq_iff, eq_refl, contains, Bool-cases, inl, inr, All, ◌⊎◌,
}
use strongclaw.Result.{ok, err, outside_roots}
use strongclaw.Orchestration.Paths.{
  Host, resolved, dedupe_from, dedupe_paths, find_root, within_any_root,
}

-- no text stands twice in a list
abbrev pub Distinct : List String → Type 0
Distinct [] = Unit
Distinct (x ∷ xs) = (contains xs x ≡ false) × Distinct xs

contains_self : (x : String) (xs : List String) → contains (x ∷ xs) x ≡ true
contains_self x xs = rw (eq_refl x) refl

contains_more :
    (x k : String) (xs : List String) → contains xs k ≡ true → contains (x ∷ xs) k ≡ true
contains_more x k xs h = elim (Bool-cases (k == x)) [ inl e ↦ rw e refl | inr e ↦ rw e h ]

and_true_right : (b : Bool) → (b && true) ≡ b
and_true_right true = refl
and_true_right false = refl

module _ (host : Host) where
  dedupe-fresh :
      (seen paths : List String) (k : String)
      → contains seen k ≡ true
      → contains (dedupe_from host seen paths) k ≡ false
  unfolding dedupe_from
  dedupe-fresh seen [] k h = refl
  dedupe-fresh seen (p ∷ paths) k h =
      let key = resolved host p in
      elim (Bool-cases (contains seen key)) [
        | inl old ↦ rw old (dedupe-fresh seen paths k h)
        | inr new ↦ rw new (elim (Bool-cases (k == key)) [
          | inl e ↦ absurd (cc (new, h, (eq_iff k key).0 e))
          | inr e ↦ rw e (dedupe-fresh (key ∷ seen) paths k (contains_more key k seen h))
        ])
      ]

  dedupe_from-Distinct : (seen paths : List String) → Distinct (dedupe_from host seen paths)
  unfolding dedupe_from
  dedupe_from-Distinct seen [] = tt
  dedupe_from-Distinct seen (p ∷ paths) =
      let key = resolved host p in
      elim (Bool-cases (contains seen key)) [
        | inl old ↦ rw old (dedupe_from-Distinct seen paths)
        | inr new ↦ rw new (
          dedupe-fresh (key ∷ seen) paths key (contains_self key seen),
          dedupe_from-Distinct (key ∷ seen) paths,
        )
      ]

  dedupe_from-contains :
      (seen paths : List String) (k : String)
      → contains (dedupe_from host seen paths) k
        ≡ (contains (map (resolved host) paths) k && not (contains seen k))
  unfolding dedupe_from
  dedupe_from-contains seen [] k = refl
  dedupe_from-contains seen (p ∷ paths) k = ground (
    arith,
    eq_iff k (resolved host p),
    dedupe_from-contains seen paths k,
    dedupe_from-contains (resolved host p ∷ seen) paths k,
  )

  -- The paths that `_dedupe_paths` returns are distinct, and are the resolved paths given.
  pub dedupe_paths_lem :
      (paths : List String)
      → Distinct (dedupe_paths host paths)
        × ((k : String)
            → contains (dedupe_paths host paths) k ≡ contains (map (resolved host) paths) k)
  unfolding dedupe_paths
  dedupe_paths_lem paths =
      (dedupe_from-Distinct [] paths, λ k. dedupe_from-contains [] paths k ∙ (and_true_right _))

  -- a path that resolves to itself
  abbrev pub Fixed : String → Type 0
  Fixed p = resolved host p ≡ p

  -- Where a resolved path resolves to itself, so does each path that `_dedupe_paths` returns.
  dedupe_from-Fixed :
      ((p : String) → Fixed (resolved host p))
      → (seen paths : List String) → All Fixed (dedupe_from host seen paths)
  unfolding dedupe_from
  dedupe_from-Fixed stable seen [] = tt
  dedupe_from-Fixed stable seen (p ∷ paths) =
      let key = resolved host p in
      elim (Bool-cases (contains seen key)) [
        | inl old ↦ rw old (dedupe_from-Fixed stable seen paths)
        | inr new ↦ rw new (stable p, dedupe_from-Fixed stable (key ∷ seen) paths)
      ]

  pub dedupe_paths-Fixed :
      ((p : String) → Fixed (resolved host p))
      → (paths : List String) → All Fixed (dedupe_paths host paths)
  unfolding dedupe_paths
  dedupe_paths-Fixed stable paths = dedupe_from-Fixed stable [] paths

  pub map-Fixed : (roots : List String) → All Fixed roots → map (resolved host) roots ≡ roots
  map-Fixed [] h = refl
  map-Fixed (root ∷ roots) (e, h) = rw (e, map-Fixed roots h) refl

  -- What the search for a root finds: the first that holds the path.
  abbrev pub Holds : String → List String → String → Type 0
  Holds path roots root =
      (host.relative_to path root ≡ true) × (contains (map (resolved host) roots) root ≡ true)

  abbrev pub Outside : String → List String → Type 0
  Outside path roots = All (λ root. host.relative_to path (resolved host root) ≡ false) roots

  find_root_lem :
      (path : String) (roots : List String)
      → ((root : String) × (find_root host path roots ≡ some root) × Holds path roots root)
        ⊎ ((find_root host path roots ≡ none) × Outside path roots)
  unfolding find_root
  find_root_lem path [] = inr (refl, tt)
  find_root_lem path (root ∷ roots) =
      elim (Bool-cases (host.relative_to path (resolved host root))) [
        | inl e ↦ inl (
          resolved host root,
          rw e refl,
          (e, contains_self (resolved host root) (map (resolved host) roots)),
        )
        | inr e ↦ elim (find_root_lem path roots) [
          | inl (r, found, (holds, at)) ↦ inl (
            r,
            rw e found,
            (holds, contains_more (resolved host root) r (map (resolved host) roots) at),
          )
          | inr (missing, out) ↦ inr (rw e missing, (e, out))
        ]
      ]

  -- `_within_any_root` returns one of the resolved roots, which holds the resolved path, or none of
  -- the roots holds it, and the error names the path and the roots.
  pub within_any_root_lem :
      (path : String) (roots : List String)
      → ((root : String) × (within_any_root host path roots ≡ ok root)
          × Holds (resolved host path) roots root)
        ⊎ ((within_any_root host path roots
              ≡ err (outside_roots (resolved host path) (map (resolved host) roots)))
            × Outside (resolved host path) roots)
  unfolding within_any_root
  within_any_root_lem path roots = elim (find_root_lem (resolved host path) roots) [
    | inl (root, found, holds) ↦ inl (root, rw found refl, holds)
    | inr (missing, out) ↦ inr (rw missing refl, out)
  ]
