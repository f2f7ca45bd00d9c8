-- ===== src/Scan/Limit.antt =====
-- An iteration stops at the number of results that was asked for.
use mariv.Base.{
  ℕ, zero, suc, ◌+◌, ◌≤◌, ◌<◌, ◌≡◌, ◌≢◌, refl, sym, ◌∙◌, arith, Bool, true, false, ◌&&◌, not, none,
  List, [], ◌∷◌, length, length-append, drop, ◌==◌, ==_iff, eq_test_false, ltb, lt→ltb, Bool-cases,
  inl, inr, if◌then◌else◌,
}
use mariv.Base.Bytes.{Slice, bytes, is_nil}
use mariv.Base.Outcome.{Outcome, ok, err, panics, stuck, ◌>>=◌}
use mariv.Node.{INode, Child, deref, get_child_node}
use mariv.Trie.{Transform, get_key_val}
use mariv.Scan.{
  Results, Visit, append_if, position_of, iterate_entry, iterate_children, iterate_recursive,
}

-- If the run returns, its value has the property.
abbrev pub Returns {ℓ κ} : {A : Type ℓ} → (A → Type κ) → Outcome A → Type κ
Returns P (ok a) = P a
Returns P (err e) = Unit
Returns P panics = Unit
Returns P stuck = Unit

Returns-bind :
    {A B : Type 0} (P : A → Type 0) (Q : B → Type 0) (m : Outcome A) (f : A → Outcome B)
    → Returns P m
    → ((a : A) → P a → Returns Q (f a))
    → Returns Q (m >>= f)
Returns-bind P Q (ok a) f p q = q a p
Returns-bind P Q (err e) f p q = tt
Returns-bind P Q panics f p q = tt
Returns-bind P Q stuck f p q = tt

Returns-any : {A : Type 0} (m : Outcome A) → Returns (λ _. Unit {0}) m
Returns-any (ok a) = tt
Returns-any (err e) = tt
Returns-any panics = tt
Returns-any stuck = tt

append_if-length :
    (keep : Bool) (node : INode) (transform : Transform) (acc : Results)
    → length (append_if keep node transform acc) ≤ length acc + 1
append_if-length true node transform acc =
    omega (arith, length-append acc (transform (get_key_val node) ∷ []))
append_if-length false node transform acc = omega arith

true_ne_false : true ≢ false
true_ne_false e = cc

module _ (load : ℕ → Outcome INode) (min_version : ℕ) (transform : Transform) (total : ℕ) where
  abbrev Within : Results → Type 0
  Within acc = length acc ≤ total

  entry_at_root :
      (node : INode) (start_key : Slice) (acc : Results)
      → Within acc
      → Returns (λ r. Within r.0) (iterate_entry load min_version transform node start_key 0 acc)
  unfolding iterate_entry
  entry_at_root node start_key acc h =
      Returns-bind (λ _. Unit {0}) (λ (r : Results × ℕ). Within r.0) (position_of node start_key 0)
        _ (Returns-any (position_of node start_key 0)) (λ pos _. h)

  entry_below_root :
      (node : INode) (start_key : Slice) (level : ℕ) (acc : Results)
      → (level == 0) ≡ false
      → length acc < total
      → Returns
          (λ r. Within r.0)
          (iterate_entry load min_version transform node start_key level acc)
  unfolding iterate_entry
  entry_below_root node start_key level acc below h =
      let appended : (keep : Bool) → Within (append_if keep node transform acc) =
        λ keep. omega (arith, append_if-length keep node transform acc) in
      rw below (elim (Bool-cases (length (bytes start_key) == level)) [
        | inl e ↦ rw e (appended _)
        | inr e ↦
            elim (Bool-cases (not (is_nil start_key) && ltb level (length (bytes start_key)))) [
              | inl f ↦
                  rw (e, f)
                    (Returns-bind (λ _. Unit {0}) (λ (r : Results × ℕ). Within r.0)
                      (position_of node start_key level) _
                      (Returns-any (position_of node start_key level)) (λ pos _. appended _))
              | inr f ↦ rw (e, f) (appended _)
            ]
      ])

  entry-Within :
      (node : INode) (start_key : Slice) (level : ℕ) (acc : Results)
      → Within acc
      → (ltb 0 level && total == length acc) ≡ false
      → Returns
          (λ r. Within r.0)
          (iterate_entry load min_version transform node start_key level acc)
  entry-Within node start_key zero acc h not_full = entry_at_root node start_key acc h
  entry-Within node start_key (suc level) acc h not_full =
      let different : total ≢ length acc = λ e. absurd (
        true_ne_false (
          sym (rw (lt→ltb 0 (suc level) (omega arith), (==_iff total (length acc)).1 e) refl)
          ∙ not_full)) in
      entry_below_root node start_key (suc level) acc
        (eq_test_false (suc level) 0 (λ e. omega arith)) (omega (arith, h, different))

  abbrev Bounded : Visit → Type 0
  Bounded visit =
      (node : INode) (key : Slice) (acc : Results)
      → Within acc
      → Returns Within (visit node key acc)

  children-Within :
      (visit : Visit)
      → Bounded visit
      → (node : INode) (start_key : Slice) (first : Bool) (children : List Child) (acc : Results)
      → Within acc
      → Returns Within (
          iterate_children load min_version transform visit node start_key total first children acc)
  children-Within visit bounded node start_key first [] acc h = h
  children-Within visit bounded node start_key first (child ∷ rest) acc h =
      elim (Bool-cases (ltb (length acc) total)) [
        | inl more ↦ rw more (
            Returns-bind (λ _. Unit {0}) Within (get_child_node load (deref child) node.version) _
              (Returns-any (get_child_node load (deref child) node.version))
              (λ kid _.
                Returns-bind Within Within
                  (visit kid (if first && not (is_nil start_key) then start_key else none) acc) _
                  (bounded kid (if first && not (is_nil start_key) then start_key else none) acc h)
                  (λ acc' h'. children-Within visit bounded node start_key false rest acc' h')))
        | inr done ↦ rw done h
      ]

  -- With no more results than asked for to begin with, an iteration of any trie from any start
  -- returns no more than asked for, if it returns.
  pub iterate_recursive-limit :
      (fuel : ℕ) (node : INode) (start_key : Slice) (level : ℕ) (acc : Results)
      → Within acc
      → Returns Within
          (iterate_recursive load min_version transform fuel node start_key total level acc)
  unfolding iterate_recursive
  iterate_recursive-limit zero node start_key level acc h = tt
  iterate_recursive-limit (suc fuel) node start_key level acc h =
      let visit : Visit = λ child key acc'.
        iterate_recursive load min_version transform fuel child key total (level + 1) acc' in
      let rest : (r : Results × ℕ)
          → Within r.0
          → Returns Within (
              iterate_children load min_version transform visit node start_key total true
                (drop r.1 node.children) r.0) =
        λ r h'.
          children-Within visit
            (λ child key acc' h''. iterate_recursive-limit fuel child key (level + 1) acc' h'') node
            start_key true (drop r.1 node.children) r.0 h' in
      elim (Bool-cases (ltb 0 level && total == length acc)) [
        | inl full ↦ rw full h
        | inr going ↦ rw going (
            Returns-bind (λ (r : Results × ℕ). Within r.0) Within
              (iterate_entry load min_version transform node start_key level acc) _
              (entry-Within node start_key level acc h going) rest)
      ]
