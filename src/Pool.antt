-- ===== src/Pool.antt =====
-- pool.go: the pool of recycled nodes. A `sync.Pool` keeps a list of nodes: its `Get` hands out any
-- of them, or a new one, and it may drop any of them at any time. The operations are taken one
-- after another.
pub mod Blank
mod Tests
use mariv.Base.{
  ℕ, zero, suc, ◌+◌, ◌-◌, ◌/◌, Bool, true, false, Option, none, some, List, [], ◌∷◌, ltb,
  if◌then◌else◌,
}
use mariv.Bitmap.{empty_bitmap}
use mariv.Node.{LNode, INode, reset_lnode, reset_inode}

-- `resetINode` and `resetLNode`, on a node that was in use
unfoldable pub recycled_inode : INode → INode
recycled_inode node = record node {
  version = 0;
  start_offset = 0;
  end_offset = 0;
  bitmap = empty_bitmap;
  children = [];
  leaf = record {
    version = 0;
    start_offset = 0;
    end_offset = 0;
    key_length = 0;
    key = none;
    value = [];
  };
}

unfoldable pub recycled_lnode : LNode → LNode
recycled_lnode node = record node {
  version = 0;
  start_offset = 0;
  end_offset = 0;
  key_length = 0;
  key = none;
  value = [];
}

pub record Pool : Type 0 where
  pub max_size : ℕ
  pub size : ℕ
  pub i_pool : List INode
  pub l_pool : List LNode

-- The item at an index and the list without it; none where the index is out of range.
abbrev pub take_out {ℓ} : {A : Type ℓ} → ℕ → List A → Option A × List A
take_out n [] = (none, [])
take_out zero (x ∷ xs) = (some x, xs)
take_out (suc n) (x ∷ xs) = let (found, rest) = take_out n xs in (found, x ∷ rest)

abbrev pub or_new {ℓ} : {A : Type ℓ} → A → Option A → A
or_new new none = new
or_new new (some a) = a

-- `Get` of a `sync.Pool`, which makes a new item where it finds none to hand out.
abbrev pub pool_get {ℓ} : {A : Type ℓ} → A → ℕ → List A → A × List A
pool_get new pick items = let (found, rest) = take_out pick items in (or_new new found, rest)

abbrev pub one_less : ℕ → ℕ
one_less size = if ltb 0 size then size - 1 else size

-- `pick` is the item that the `sync.Pool` hands out.
unfoldable pub get_inode : ℕ → Pool → INode × Pool
get_inode pick p =
    let (node, rest) = pool_get reset_inode pick p.i_pool in
    (node, record p { i_pool = rest; size = one_less p.size })

unfoldable pub get_lnode : ℕ → Pool → LNode × Pool
get_lnode pick p =
    let (node, rest) = pool_get reset_lnode pick p.l_pool in
    (node, record p { l_pool = rest; size = one_less p.size })

unfoldable pub put_inode : INode → Pool → Pool
put_inode node p =
    if ltb p.size p.max_size
    then record p { i_pool = recycled_inode node ∷ p.i_pool; size = p.size + 1 }
    else p

unfoldable pub put_lnode : LNode → Pool → Pool
put_lnode node p =
    if ltb p.size p.max_size
    then record p { l_pool = recycled_lnode node ∷ p.l_pool; size = p.size + 1 }
    else p

-- The two loops of `initializePools`, of `n` rounds each
abbrev pub fill_inodes : ℕ → Pool → Pool
fill_inodes zero p = p
fill_inodes (suc n) p =
    fill_inodes n (record p { i_pool = reset_inode ∷ p.i_pool; size = p.size + 1 })

abbrev pub fill_lnodes : ℕ → Pool → Pool
fill_lnodes zero p = p
fill_lnodes (suc n) p =
    fill_lnodes n (record p { l_pool = reset_lnode ∷ p.l_pool; size = p.size + 1 })

unfoldable pub initialize_pools : Pool → Pool
initialize_pools p = fill_lnodes (p.max_size / 2) (fill_inodes (p.max_size / 2) p)

unfoldable pub new_pool : ℕ → Pool
unfolding initialize_pools
new_pool max_size =
    initialize_pools (record { max_size = max_size; size = 0; i_pool = []; l_pool = [] })

-- What happens to a pool: a call, or a node that the `sync.Pool` drops.
pub data Event : Type 0 where
  took_inode : ℕ → Event
  took_lnode : ℕ → Event
  gave_inode : INode → Event
  gave_lnode : LNode → Event
  dropped_inode : ℕ → Event
  dropped_lnode : ℕ → Event

abbrev pub after_event : Event → Pool → Pool
after_event (took_inode pick) p = (get_inode pick p).1
after_event (took_lnode pick) p = (get_lnode pick p).1
after_event (gave_inode node) p = put_inode node p
after_event (gave_lnode node) p = put_lnode node p
after_event (dropped_inode n) p = record p { i_pool = (take_out n p.i_pool).1 }
after_event (dropped_lnode n) p = record p { l_pool = (take_out n p.l_pool).1 }

abbrev pub after_events : List Event → Pool → Pool
after_events [] p = p
after_events (e ∷ es) p = after_events es (after_event e p)
