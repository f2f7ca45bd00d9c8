-- ===== src/Scan/Sorted.antt =====
-- A range without bounds of a trie in good order lists its map in ascending order.
use mariv.Base.{
  ℕ, zero, suc, ◌+◌, ◌≤◌, ◌<◌, ◌≡◌, ◌≢◌, refl, ap, sym, ◌∙◌, arith, false, List, [], ◌∷◌, ◌++◌,
  length, drop, get_elem?, get_elem?_in_range, Option, none, some, Bool-cases, inl, inr,
}
use mariv.Base.Bytes.{bytes_compare}
use mariv.Base.Outcome.{Outcome, ok}
use mariv.Bitmap.{Bitmap, is_bit_set}
use mariv.Bitmap.Rank.{member, rank, rank-suc, is_bit_set-member, population_count-rank}
use mariv.Bitmap.Slots.{Fits, child_at, child_at-member, rank-lt_length, member-clear}
use mariv.Node.{INode, Child, deref, get_child_node}
use mariv.Trie.{KeyValuePair}
use mariv.Trie.Keys.{Starts, IsKey, Starts-snoc, length-snoc}
use mariv.Trie.Order.{follow}
use mariv.Trie.Read.{read}
use mariv.Scan.{Results, range_children, range_recursive}
use mariv.Scan.Listing.{visit, if_same}
use mariv.Scan.Order.{
  Pairs, as_results, find, Before, Ascending, Keys, as_results-append, Keys-append, Keys-map,
  find-absent, find-append, find-append_absent, Ascending-append, bytes_compare_next,
}
use mathlib.Core.List.{append_assoc, append-nil}
use native.Mathlib.Decide.{dec_lt}
use Prim.Native.Nat.{Ordering}

drop-get {ℓ} :
    {A : Type ℓ} (xs : List A) (i : ℕ) (c : A)
    → get_elem? xs i ≡ some c
    → drop i xs ≡ c ∷ drop (i + 1) xs
drop-get [] i c e = cc
drop-get (x ∷ xs) zero c e = let same : x ≡ c = cc in rw same refl
drop-get (x ∷ xs) (suc i) c e =
    let next : suc i + 1 ≡ suc (i + 1) = omega arith in rw next (drop-get xs i c e)

rank-next : (bitmap : Bitmap) (i : ℕ) → rank bitmap (i + 1) ≡ rank bitmap i + member bitmap i
rank-next bitmap i = let next : i + 1 ≡ suc i = omega arith in rw next (rank-suc bitmap i)

drop_all {ℓ} : {A : Type ℓ} (xs : List A) (n : ℕ) → length xs ≤ n → drop n xs ≡ []
drop_all [] zero h = refl
drop_all [] (suc n) h = refl
drop_all (x ∷ xs) zero h = absurd (omega arith)
drop_all (x ∷ xs) (suc n) h = drop_all xs n (omega arith)

Starts-unsnoc :
    (p k : List ℕ) (i : ℕ) → Starts (p ++ i ∷ []) k → Starts p k × (get_elem? k (length p) ≡ some i)
Starts-unsnoc [] [] i s = elim s [ ]
Starts-unsnoc [] (x ∷ k) i s = (tt, ap some (sym s.0))
Starts-unsnoc (y ∷ p) [] i s = elim s [ ]
Starts-unsnoc (y ∷ p) (x ∷ k) i s = let (a, b) = Starts-unsnoc p k i s.1 in ((s.0, a), b)

module _ (load : ℕ → Outcome INode) (v n : ℕ) where
  -- A key below the prefix whose next byte is `lo` or more
  abbrev pub KeyFrom : List ℕ → ℕ → List ℕ → Type 0
  KeyFrom p lo k = IsKey n k × Starts p k × ((i : ℕ) × (get_elem? k (length p) ≡ some i) × (lo ≤ i))

  -- The list is what a node reads.
  pub record Lists (p : List ℕ) (reads : List ℕ → Outcome (Option KeyValuePair)) (ps : Pairs)
      : Type 0 where
    pub keys : Keys (λ k. IsKey n k × Starts p k) ps
    pub ascending : Ascending ps
    pub finds : (k : List ℕ) → IsKey n k → Starts p k → reads k ≡ ok (find k ps)

  abbrev pub Listed : ℕ → List ℕ → INode → Type 0
  Listed d p node =
      (f level : ℕ)
      → d ≤ f
      → level ≡ length p
      → 0 < level
      → (ps : Pairs) × (range_recursive load 0 some (suc f) node none none level
          ≡ ok (as_results ps))
        × Lists p (read load v n d node level) ps

  -- The children whose byte is `lo` or more
  pub record Suffix (d : ℕ) (p : List ℕ) (node : INode) (lo : ℕ) (ps : Pairs) : Type 0 where
    pub keys : Keys (KeyFrom p lo) ps
    pub ascending : Ascending ps
    pub finds :
        (k : List ℕ) (i : ℕ)
        → IsKey n k
        → Starts p k
        → get_elem? k (length p) ≡ some i
        → i < 256
        → lo ≤ i
        → follow load v n
            (suc d)
            k
            (length p + 1)
            node.version
            (child_at node.bitmap node.children i)
          ≡ ok (find k ps)

  -- A key whose next byte is smaller is not among them.
  apart :
      (p k : List ℕ) (i lo : ℕ)
      → get_elem? k (length p) ≡ some i
      → i < lo
      → (key : List ℕ) → KeyFrom p lo key
      → k ≢ key
  apart p k i lo e less key from same =
      let (is_key, starts, (j, at_key, above)) = from in let equal : i ≡ j = cc in omega arith

  Suffix-end : (d : ℕ) (p : List ℕ) (node : INode) → Suffix d p node 256 []
  Suffix-end d p node = record {
    keys = tt;
    ascending = tt;
    finds = λ k i is_key starts e small above. absurd (omega arith);
  }

  module _ (d : ℕ) (p : List ℕ) (node : INode) (lo : ℕ) (ps : Pairs)
      (rest : Suffix d p node (lo + 1) ps) where
    weaker : (k : List ℕ) → KeyFrom p (lo + 1) k → KeyFrom p lo k
    weaker k (is_key, starts, (i, e, above)) = (is_key, starts, (i, e, omega arith))

    Suffix-gone : is_bit_set node.bitmap lo ≡ false → Suffix d p node lo ps
    Suffix-gone gone = record {
      keys = Keys-map (KeyFrom p (lo + 1)) (KeyFrom p lo) weaker ps rest.keys;
      ascending = rest.ascending;
      finds = λ k i is_key starts e small above. elim (dec_lt lo i) [
        | yes later ↦ rest.finds k i is_key starts e small (omega arith)
        | no here ↦
            let equal : i ≡ lo = omega arith in
            rw (equal, gone)
              (ap ok (
                sym (
                  find-absent k ps (
                    Keys-map (KeyFrom p (lo + 1)) (λ key. k ≢ key)
                      (apart p k i (lo + 1) e (omega arith)) ps rest.keys))))
      ];
    }

    Suffix-here :
        (c : Child) (kid : INode) (own : Pairs)
        → child_at node.bitmap node.children lo ≡ some c
        → get_child_node load (deref c) node.version ≡ ok kid
        → Lists (p ++ lo ∷ []) (read load v n d kid (length p + 1)) own
        → Suffix d p node lo (own ++ ps)
    Suffix-here c kid own slot reached mine = record {
      keys =
          Keys-append (KeyFrom p lo) own ps
            (Keys-map (λ k. IsKey n k × Starts (p ++ lo ∷ []) k) (KeyFrom p lo)
              (λ k h.
                let (starts, e) = Starts-unsnoc p k lo h.1 in (h.0, starts, (lo, e, omega arith)))
              own mine.keys)
            (Keys-map (KeyFrom p (lo + 1)) (KeyFrom p lo) weaker ps rest.keys);
      ascending = Ascending-append own ps mine.ascending rest.ascending (
          Keys-map (λ k. IsKey n k × Starts (p ++ lo ∷ []) k) (λ k. Before k ps)
            (λ k h.
              Keys-map (KeyFrom p (lo + 1)) (λ key. bytes_compare k key ≡ Ordering.lt)
                (λ key from.
                  let (is_key, starts', (i, e', above)) = from in
                  let (starts, e) = Starts-unsnoc p k lo h.1 in
                  bytes_compare_next p k key lo i starts starts' e e' (omega arith))
                ps rest.keys)
            own mine.keys);
      finds = λ k i is_key starts e small above. elim (dec_lt lo i) [
        | yes later ↦
            rest.finds k i is_key starts e small (omega arith)
            ∙ ap ok (
                sym (
                  find-append_absent k own ps (
                    Keys-map (λ key. IsKey n key × Starts (p ++ lo ∷ []) key) (λ key. k ≢ key)
                      (λ key h same.
                        let at_key = (Starts-unsnoc p key lo h.1).1 in
                        let equal : i ≡ lo = cc in omega arith)
                      own mine.keys)))
        | no here ↦
            let equal : i ≡ lo = omega arith in
            rw (equal, slot, reached)
              (mine.finds k is_key (Starts-snoc p k lo starts (rw equal at e))
                ∙ ap ok (
                    sym (
                      find-append k own ps (
                        Keys-map (KeyFrom p (lo + 1)) (λ key. k ≢ key)
                          (apart p k i (lo + 1) e (omega arith)) ps rest.keys))))
      ];
    }

  module _ (d : ℕ) (p : List ℕ) (node : INode) (fits : Fits node.bitmap node.children)
      (kids : (i : ℕ)
        → i < 256
        → (c : Child) → child_at node.bitmap node.children i ≡ some c
        → (kid : INode) × (get_child_node load (deref c) node.version ≡ ok kid)
          × Listed d (p ++ i ∷ []) kid)
      (f : ℕ) (deep : d ≤ f) where
    pub suffix :
        (m lo end idx : ℕ) (acc : Results)
        → lo + m ≡ 256
        → (ps : Pairs) × (range_children load 0 some
              (visit load 0 some (suc f) (length p + 1))
              node
              none
              none
              end
              idx
              (drop (rank node.bitmap lo) node.children)
              acc
            ≡ ok (acc ++ as_results ps))
          × Suffix d p node lo ps
    suffix zero lo end idx acc e =
        let last : lo ≡ 256 = omega arith in
        let nothing : drop (rank node.bitmap 256) node.children ≡ [] =
          drop_all node.children (rank node.bitmap 256)
            (omega (arith, fits.full, population_count-rank node.bitmap)) in
        rw (last, nothing) ([], ap ok (sym (append-nil acc)), Suffix-end d p node)
    suffix (suc m) lo end idx acc e = elim (Bool-cases (is_bit_set node.bitmap lo)) [
      | inl here ↦
          let is_member : member node.bitmap lo ≡ 1 = (is_bit_set-member node.bitmap lo).0 here in
          let (c, there) =
            get_elem?_in_range node.children (rank node.bitmap lo)
              (rank-lt_length fits lo (omega arith) is_member) in
          let slot : child_at node.bitmap node.children lo ≡ some c =
            child_at-member fits lo (omega arith) is_member ∙ there in
          let (kid, reached, listed) = kids lo (omega arith) c slot in
          let (own, ran_own, mine) =
            listed f (length p + 1) deep (sym (length-snoc p lo)) (omega arith) in
          let (ps, ran, rest) =
            suffix m (lo + 1) end (idx + 1) (acc ++ as_results own) (omega arith) in
          let next : rank node.bitmap (lo + 1) ≡ rank node.bitmap lo + 1 =
            rank-next node.bitmap lo ∙ ap (λ (j : ℕ). rank node.bitmap lo + j) is_member in
          let cut : drop (rank node.bitmap lo) node.children
              ≡ c ∷ drop (rank node.bitmap (lo + 1)) node.children =
            drop-get node.children (rank node.bitmap lo) c there
            ∙ ap (λ (j : ℕ). c ∷ drop j node.children) (sym next) in
          (
            own ++ ps,
            rw (cut, reached, if_same, ran_own)
                (ran
                  ∙ ap ok (
                      append_assoc acc (as_results own) (as_results ps)
                      ∙ ap (λ t. acc ++ t) (sym (as_results-append own ps)))),
            Suffix-here d p node lo ps rest c kid own slot reached mine,
          )
      | inr gone ↦
          let (ps, ran, rest) = suffix m (lo + 1) end idx acc (omega arith) in
          let same : rank node.bitmap (lo + 1) ≡ rank node.bitmap lo =
            rank-next node.bitmap lo ∙ rw (member-clear node.bitmap lo gone) (omega arith) in
          (ps, rw same at ran, Suffix-gone d p node lo ps rest gone)
    ]
