-- ===== src/Pool/Blank.antt =====
-- Every node of the pool is blank, and the count of its nodes stays within its bound.
use mariv.Base.{
  ℕ, zero, suc, ◌+◌, ◌/◌, ◌≤◌, ◌≡◌, ◌∙◌, refl, arith, List, [], ◌∷◌, ltb, Bool-cases, inl, inr,
}
use mariv.Node.{LNode, INode, reset_lnode, reset_inode}
use mariv.Pool.{
  Pool, Event, took_inode, took_lnode, gave_inode, gave_lnode, dropped_inode, dropped_lnode,
  recycled_inode, recycled_lnode, take_out, or_new, get_inode, get_lnode, put_inode, put_lnode,
  fill_inodes, fill_lnodes, initialize_pools, new_pool, after_event, after_events,
}

abbrev pub AllAre {ℓ} : {A : Type ℓ} → A → List A → Type ℓ
AllAre a [] = Unit
AllAre a (x ∷ xs) = x ≡ a × AllAre a xs

pub record Blank (p : Pool) : Type 0 where
  pub bounded : p.size ≤ p.max_size
  pub inodes : AllAre reset_inode p.i_pool
  pub lnodes : AllAre reset_lnode p.l_pool

take_out-AllAre {ℓ} :
    {A : Type ℓ} (a : A) (n : ℕ) (xs : List A) → AllAre a xs → AllAre a (take_out n xs).1
take_out-AllAre a n [] h = h
take_out-AllAre a zero (x ∷ xs) h = h.1
take_out-AllAre a (suc n) (x ∷ xs) h = (h.0, take_out-AllAre a n xs h.1)

take_out-found {ℓ} :
    {A : Type ℓ} (a : A) (n : ℕ) (xs : List A) → AllAre a xs → or_new a (take_out n xs).0 ≡ a
take_out-found a n [] h = refl
take_out-found a zero (x ∷ xs) h = h.0
take_out-found a (suc n) (x ∷ xs) h = take_out-found a n xs h.1

recycled_inode_lem : (node : INode) → recycled_inode node ≡ reset_inode
unfolding recycled_inode reset_inode reset_lnode
recycled_inode_lem node = refl

recycled_lnode_lem : (node : LNode) → recycled_lnode node ≡ reset_lnode
unfolding recycled_lnode reset_lnode
recycled_lnode_lem node = refl

fill_inodes-max : (n : ℕ) (p : Pool) → (fill_inodes n p).max_size ≡ p.max_size
fill_inodes-max zero p = refl
fill_inodes-max (suc n) p = fill_inodes-max n _

-- A pool that was filled with `n` nodes of each kind
fill_lnodes-Blank : (n : ℕ) (p : Pool) → p.size + n ≤ p.max_size → Blank p → Blank (fill_lnodes n p)
fill_lnodes-Blank zero p fits b = b
fill_lnodes-Blank (suc n) p fits b =
    fill_lnodes-Blank n _ (omega arith)
      (record { bounded = omega arith; inodes = b.inodes; lnodes = (refl, b.lnodes) })

fill_inodes-Blank :
    (n : ℕ) (p : Pool)
    → p.size + n ≤ p.max_size
    → Blank p
    → Blank (fill_inodes n p) × (fill_inodes n p).size ≡ p.size + n
fill_inodes-Blank zero p fits b = (b, omega arith)
fill_inodes-Blank (suc n) p fits b =
    let blank : Blank (record p { i_pool = reset_inode ∷ p.i_pool; size = p.size + 1 }) = record {
      bounded = omega arith;
      inodes = (refl, b.inodes);
      lnodes = b.lnodes;
    } in
    let ih = fill_inodes-Blank n _ (omega arith) blank in (ih.0, omega (arith, ih.1))

new_pool-Blank : (max_size : ℕ) → Blank (new_pool max_size)
unfolding new_pool initialize_pools
new_pool-Blank max_size =
    let filled =
      fill_inodes-Blank (max_size / 2)
        (record { max_size = max_size; size = 0; i_pool = []; l_pool = [] }) (omega arith)
        (record { bounded = omega arith; inodes = tt; lnodes = tt }) in
    fill_lnodes-Blank (max_size / 2) _
      (omega (
        arith,
        filled.1,
        fill_inodes-max (max_size / 2)
            (record { max_size = max_size; size = 0; i_pool = []; l_pool = [] }),
      ))
      filled.0

get_inode-Blank : (pick : ℕ) (p : Pool) → Blank p → Blank (get_inode pick p).1
unfolding get_inode
get_inode-Blank pick p b = record {
  bounded = ground (arith, b.bounded);
  inodes = take_out-AllAre reset_inode pick p.i_pool b.inodes;
  lnodes = b.lnodes;
}

get_lnode-Blank : (pick : ℕ) (p : Pool) → Blank p → Blank (get_lnode pick p).1
unfolding get_lnode
get_lnode-Blank pick p b = record {
  bounded = ground (arith, b.bounded);
  inodes = b.inodes;
  lnodes = take_out-AllAre reset_lnode pick p.l_pool b.lnodes;
}

put_inode-Blank : (node : INode) (p : Pool) → Blank p → Blank (put_inode node p)
unfolding put_inode
put_inode-Blank node p b = elim (Bool-cases (ltb p.size p.max_size)) [
  | inl e ↦ rw e (record {
    bounded = ground (arith, e);
    inodes = (recycled_inode_lem node, b.inodes);
    lnodes = b.lnodes;
  })
  | inr e ↦ rw e b
]

put_lnode-Blank : (node : LNode) (p : Pool) → Blank p → Blank (put_lnode node p)
unfolding put_lnode
put_lnode-Blank node p b = elim (Bool-cases (ltb p.size p.max_size)) [
  | inl e ↦ rw e (record {
    bounded = ground (arith, e);
    inodes = b.inodes;
    lnodes = (recycled_lnode_lem node, b.lnodes);
  })
  | inr e ↦ rw e b
]

after_event-Blank : (e : Event) (p : Pool) → Blank p → Blank (after_event e p)
after_event-Blank (took_inode pick) p b = get_inode-Blank pick p b
after_event-Blank (took_lnode pick) p b = get_lnode-Blank pick p b
after_event-Blank (gave_inode node) p b = put_inode-Blank node p b
after_event-Blank (gave_lnode node) p b = put_lnode-Blank node p b
after_event-Blank (dropped_inode n) p b = record {
  bounded = b.bounded;
  inodes = take_out-AllAre reset_inode n p.i_pool b.inodes;
  lnodes = b.lnodes;
}
after_event-Blank (dropped_lnode n) p b = record {
  bounded = b.bounded;
  inodes = b.inodes;
  lnodes = take_out-AllAre reset_lnode n p.l_pool b.lnodes;
}

after_events-Blank : (es : List Event) (p : Pool) → Blank p → Blank (after_events es p)
after_events-Blank [] p b = b
after_events-Blank (e ∷ es) p b = after_events-Blank es (after_event e p) (after_event-Blank e p b)

after_event-max : (e : Event) (p : Pool) → (after_event e p).max_size ≡ p.max_size
unfolding get_inode get_lnode put_inode put_lnode
after_event-max (took_inode pick) p = refl
after_event-max (took_lnode pick) p = refl
after_event-max (gave_inode node) p = ground arith
after_event-max (gave_lnode node) p = ground arith
after_event-max (dropped_inode n) p = refl
after_event-max (dropped_lnode n) p = refl

after_events-max : (es : List Event) (p : Pool) → (after_events es p).max_size ≡ p.max_size
after_events-max [] p = refl
after_events-max (e ∷ es) p = after_events-max es (after_event e p) ∙ after_event-max e p

fill_lnodes-max : (n : ℕ) (p : Pool) → (fill_lnodes n p).max_size ≡ p.max_size
fill_lnodes-max zero p = refl
fill_lnodes-max (suc n) p = fill_lnodes-max n _

new_pool-max : (max_size : ℕ) → (new_pool max_size).max_size ≡ max_size
unfolding new_pool initialize_pools
new_pool-max max_size = fill_lnodes-max (max_size / 2) _ ∙ fill_inodes-max (max_size / 2) _

-- After `newPool` and any sequence of gets, puts and drops, in any order and whichever node each
-- get is handed: the internal node and the leaf that the next gets hand out have every field at its
-- initial value, whatever nodes were put in, and the count is at most the pool's maximum.
pub new_pool-blank_nodes :
    (max_size : ℕ) (es : List Event) (pick : ℕ)
    → (get_inode pick (after_events es (new_pool max_size))).0 ≡ reset_inode
      × (get_lnode pick (after_events es (new_pool max_size))).0 ≡ reset_lnode
      × (after_events es (new_pool max_size)).size ≤ max_size
unfolding get_inode get_lnode
new_pool-blank_nodes max_size es pick =
    let b = after_events-Blank es (new_pool max_size) (new_pool-Blank max_size) in
    (
      take_out-found reset_inode pick _ b.inodes,
      take_out-found reset_lnode pick _ b.lnodes,
      omega (arith, b.bounded, after_events-max es (new_pool max_size), new_pool-max max_size),
    )
