-- ===== src/Writers/Invariant.antt =====
-- What holds whenever no worker is in the middle of an action.
use mariv.Base.{ℕ, ◌+◌, ◌^◌, ◌≤◌, ◌<◌, ◌≡◌, ◌⊎◌, inl, inr, arith, List, [], ◌∷◌}
use mariv.Writers.{
  stage, Worker, Version, Shared, Move, load_version, check_version, load_root, run_operations,
  reload_version, reload_root, load_end, check_space, give_up, swap_version, store_end, place_nodes,
  store_root, System,
}

abbrev pub next_free : Shared → ℕ
next_free s = s.newest.start + s.newest.size

-- Of what a worker has read, the part that its swap of the version relies on.
pub record Local (s : Shared) (w : Worker) : Type 0 where
  pub base_below : 3 ≤ stage w.pc → w.base < next_free s
  pub base_version : stage w.pc ≡ 3 → s.node_version w.base ≤ s.newest.number
  pub base_newest :
      stage w.pc ≡ 3 → s.node_version w.base ≡ s.newest.number → w.base ≡ s.newest.start
  pub root_old : 4 ≤ stage w.pc → w.root_version ≤ s.newest.number
  pub root_newest : 4 ≤ stage w.pc → w.root_version ≡ s.newest.number → w.base ≡ s.newest.start
  pub version_old : 5 ≤ stage w.pc → w.version ≤ s.version
  pub has_size : 7 ≤ stage w.pc → 0 < w.size
  pub end_fresh :
      7 ≤ stage w.pc
      → stage w.pc ≤ 8
      → w.root_version ≡ w.version
      → w.version ≡ s.version
      → w.offset ≡ next_free s
  pub fits : 8 ≤ stage w.pc → w.offset + w.size < 2 ^ 64
  pub holds_version : 9 ≤ stage w.pc → s.version ≡ s.newest.number + 1
  pub holds_root : 9 ≤ stage w.pc → w.root_version ≡ s.newest.number
  pub holds_offset : 9 ≤ stage w.pc → w.offset ≡ next_free s
  pub holds_small : 9 ≤ stage w.pc → w.root_version + 1 < 2 ^ 64
  pub holds_end : 10 ≤ stage w.pc → s.end ≡ w.offset + w.size
  pub holds_nodes : stage w.pc ≡ 11 → s.node_version w.offset ≡ w.root_version + 1

-- Each version was computed from the one before it, has the next number, and follows it in the file.
abbrev pub Follows : Version → Version → Type 0
Follows v before =
    (v.number ≡ before.number + 1)
    × (v.base ≡ before.start)
    × (v.start ≡ before.start + before.size)

abbrev pub Chain : Version → List Version → Type 0
Chain v [] = Unit {0}
Chain v (before ∷ rest) = Follows v before × Chain before rest

pub record Core (s : Shared) : Type 0 where
  pub root : s.root ≡ s.newest.start
  pub root_node : s.node_version s.root ≡ s.newest.number
  pub versions : (s.version ≡ s.newest.number) ⊎ (s.version ≡ s.newest.number + 1)
  pub free_end : s.version ≡ s.newest.number → s.end ≡ next_free s
  pub not_empty : 0 < s.newest.size
  pub chain : Chain s.newest s.older

-- Somebody has swapped the version and not yet stored its root.
abbrev pub Held : (ℕ → Worker) → Type 0
Held workers = (i : ℕ) × 9 ≤ stage (workers i).pc

pub record Sound (t : System) : Type 0 where
  pub core : Core t.shared
  pub one_holder : (i j : ℕ) → 9 ≤ stage (t.workers i).pc → 9 ≤ stage (t.workers j).pc → i ≡ j
  pub held : t.shared.version ≡ t.shared.newest.number + 1 → Held t.workers
  pub locals : (i : ℕ) → Local t.shared (t.workers i)

-- A worker's own move, on what it knows
pub own_Local :
    {s : Shared} {w : Worker} {s' : Shared} {w' : Worker}
    → Core s
    → Local s w
    → Move s w s' w'
    → Local s' w'
own_Local c l (load_version p) = ground arith
own_Local c l (check_version p q) = ground arith
own_Local c l (load_root p) = ground arith
own_Local c l (run_operations p) = ground arith
own_Local c l (reload_version p) = ground arith
own_Local c l (reload_root p) = ground arith
own_Local c l (load_end n p q) = ground arith
own_Local c l (check_space p q) = ground arith
own_Local c l (give_up p) = ground arith
own_Local c l (swap_version p q r x) = ground arith
own_Local c l (store_end p) = ground arith
own_Local c l (place_nodes f p) = ground arith
own_Local c l (store_root p) = ground arith

-- Another worker's move, on what this one knows; at most one of the two holds the version.
pub other_Local :
    {s : Shared} {v : Worker} {w : Worker} {s' : Shared} {w' : Worker}
    → Core s
    → (9 ≤ stage w.pc → 9 ≤ stage v.pc → ⊥)
    → Local s v
    → Local s w
    → Move s w s' w'
    → Local s' v
other_Local c u k l (load_version p) = k
other_Local c u k l (check_version p q) = k
other_Local c u k l (load_root p) = k
other_Local c u k l (run_operations p) = k
other_Local c u k l (reload_version p) = k
other_Local c u k l (reload_root p) = k
other_Local c u k l (load_end n p q) = k
other_Local c u k l (check_space p q) = k
other_Local c u k l (give_up p) = k
other_Local c u k l (swap_version p q r x) = ground arith
other_Local c u k l (store_end p) = ground arith
other_Local c u k l (place_nodes f p) = ground arith
other_Local c u k l (store_root p) = ground arith

pub move_Core :
    {s : Shared} {w : Worker} {s' : Shared} {w' : Worker}
    → Core s
    → Local s w
    → Move s w s' w'
    → Core s'
move_Core c l (load_version p) = c
move_Core c l (check_version p q) = c
move_Core c l (load_root p) = c
move_Core c l (run_operations p) = c
move_Core c l (reload_version p) = c
move_Core c l (reload_root p) = c
move_Core c l (load_end n p q) = c
move_Core c l (check_space p q) = c
move_Core c l (give_up p) = c
move_Core c l (swap_version p q r x) = ground arith
move_Core c l (store_end p) = ground arith
move_Core c l (place_nodes f p) = ground arith
move_Core c l (store_root p) = ground arith

-- After a move, whoever moved holds the version only if it did before or nobody could.
pub holds_after :
    {s : Shared} {w : Worker} {s' : Shared} {w' : Worker} (v : Worker)
    → Core s
    → Local s v
    → Local s w
    → Move s w s' w'
    → 9 ≤ stage w'.pc
    → 9 ≤ stage v.pc
    → 9 ≤ stage w.pc
holds_after v c k l (load_version p) h g = ground arith
holds_after v c k l (check_version p q) h g = ground arith
holds_after v c k l (load_root p) h g = ground arith
holds_after v c k l (run_operations p) h g = ground arith
holds_after v c k l (reload_version p) h g = ground arith
holds_after v c k l (reload_root p) h g = ground arith
holds_after v c k l (load_end n p q) h g = ground arith
holds_after v c k l (check_space p q) h g = ground arith
holds_after v c k l (give_up p) h g = ground arith
holds_after v c k l (swap_version p q r x) h g = ground arith
holds_after v c k l (store_end p) h g = ground arith
holds_after v c k l (place_nodes f p) h g = ground arith
holds_after v c k l (store_root p) h g = ground arith

-- The version is held after a move by whoever moved, or by somebody that did not.
pub held_after :
    {s : Shared} {w : Worker} {s' : Shared} {w' : Worker}
    → Core s
    → Local s w
    → Move s w s' w'
    → s'.version ≡ s'.newest.number + 1
    → (9 ≤ stage w'.pc) ⊎ ((s.version ≡ s.newest.number + 1) × (stage w.pc ≤ 8))
held_after c l (load_version p) e = inr (e, ground arith)
held_after c l (check_version p q) e = inr (e, ground arith)
held_after c l (load_root p) e = inr (e, ground arith)
held_after c l (run_operations p) e = inr (e, ground arith)
held_after c l (reload_version p) e = inr (e, ground arith)
held_after c l (reload_root p) e = inr (e, ground arith)
held_after c l (load_end n p q) e = inr (e, ground arith)
held_after c l (check_space p q) e = inr (e, ground arith)
held_after c l (give_up p) e = inr (e, p)
held_after c l (swap_version p q r x) e = inl (ground arith)
held_after c l (store_end p) e = inl (ground arith)
held_after c l (place_nodes f p) e = inl (ground arith)
held_after c l (store_root p) e = absurd (ground arith)
