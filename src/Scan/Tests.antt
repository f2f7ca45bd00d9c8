-- ===== src/Scan/Tests.antt =====
-- The results of `Scan` on a root with one child in memory, and on the trie of two puts.
use mariv.Base.{List, ℕ, ◌≡◌, ◌≤◌, refl, arith, [], ◌∷◌, none, some}
use mariv.Trie.Keys.{IsKey}
use mariv.Trie.Read.{fresh-Good}
use mariv.Trie.Map.{IsTrie, lookup, get-put}
use mariv.Scan.Order.{Pairs, as_results, find, Ascending, Keys}
use mariv.Scan.Whole.{range_recursive-sorted}
use mariv.Node.{new_internal_node}
use mariv.Base.Outcome.{Outcome, ok, panics}
use mariv.Bitmap.{empty_bitmap}
use mariv.Node.{
  heights, LNode, INode, pointer, nil, cons, deref, address, reset_lnode, get_child_node,
}
use mariv.Scan.{range_recursive}
use mariv.Scan.Listing.{Under, pairs_below, range_recursive-pairs}

abbrev no_load : ℕ → Outcome INode
no_load offset = panics

abbrev leaf : LNode
leaf = record {
  version = 1;
  start_offset = 0;
  end_offset = 0;
  key_length = 1;
  key = some (97 ∷ []);
  value = 5 ∷ [];
}

abbrev child : INode
child = record {
  version = 1;
  start_offset = 0;
  end_offset = 0;
  bitmap = empty_bitmap;
  leaf = leaf;
  children = [];
}

abbrev root : INode
root = record child { leaf = reset_lnode; children = address child ∷ [] }

child_read : get_child_node no_load (deref (address child)) 1 ≡ ok child
unfolding get_child_node deref address
child_read = refl

root-Under : Under no_load (pointer 1 0 0 empty_bitmap reset_lnode (cons (address child) nil)) root
unfolding address
root-Under = (refl, ((child, child_read, (refl, tt)), tt))

shallow : heights (cons (address child) nil) ≤ 1
unfolding address
shallow = omega arith

range_recursive-pairs_example :
    range_recursive no_load 0 some 2 root none none 0
    ≡ ok (pairs_below 0 some (cons (address child) nil))
range_recursive-pairs_example =
    range_recursive-pairs no_load 0 some 1 0 0 empty_bitmap reset_lnode (cons (address child) nil)
      root 1 shallow root-Under

listing :
    pairs_below 0 some (cons (address child) nil)
    ≡ some (record { key = some (97 ∷ []); value = 5 ∷ [] }) ∷ []
unfolding address
listing = refl

abbrev first_key : List ℕ
first_key = 98 ∷ 97 ∷ []

abbrev second_key : List ℕ
second_key = 97 ∷ 98 ∷ []

first_key-IsKey : IsKey 2 first_key
first_key-IsKey = record {
  size = refl;
  indices = ((omega arith, omega arith), ((omega arith, omega arith), tt));
}

second_key-IsKey : IsKey 2 second_key
second_key-IsKey = record {
  size = refl;
  indices = ((omega arith, omega arith), ((omega arith, omega arith), tt));
}

empty_root-IsTrie : IsTrie no_load 1 2 (new_internal_node 1)
empty_root-IsTrie = record {
  good = fresh-Good no_load 1 2 2 [] 1;
  current = unfold new_internal_node in refl;
}

-- The root after puts of the two keys, the larger first
two_puts : (root' : INode) × IsTrie no_load 1 2 root'
two_puts =
    let once =
      get-put no_load 1 2 2 (new_internal_node 1) first_key (7 ∷ []) (omega arith) (omega arith)
        empty_root-IsTrie first_key-IsKey in
    let twice =
      get-put no_load 1 2 2 once.0 second_key (8 ∷ []) (omega arith) (omega arith) once.2
        second_key-IsKey in
    (twice.0, twice.2)

range_recursive-sorted_example :
    (ps : Pairs) × (range_recursive no_load 0 some 3 two_puts.0 none none 0 ≡ ok (as_results ps))
    × Ascending ps
    × Keys (IsKey 2) ps
    × ((k : List ℕ) → IsKey 2 k → lookup no_load 2 two_puts.0 k ≡ ok (find k ps))
range_recursive-sorted_example =
    range_recursive-sorted no_load 1 2 2 two_puts.0 (omega arith) (omega arith) two_puts.1
