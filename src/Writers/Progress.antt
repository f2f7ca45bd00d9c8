-- ===== src/Writers/Progress.antt =====
-- A writer that runs alone publishes its version.
use mariv.Base.{ℕ, ◌+◌}
use mariv.Writers.{Worker, Version, Shared, Move, System, update}

-- Moves of one worker while the others wait
infixl 4 ◌▸◌
data Solo (s : Shared) (w : Worker) : Shared → Worker → Type 0 where
  rest : Solo s w s w
  ◌▸◌ :
      {s₁ : Shared} {w₁ : Worker} {s₂ : Shared} {w₂ : Worker}
      → Solo s w s₁ w₁
      → Move s₁ w₁ s₂ w₂
      → Solo s w s₂ w₂

-- Steps of the system that are all moves of worker `i`
pub data Alone (i : ℕ) (u : System) : System → Type 0 where
  waiting : Alone i u u
  then_move :
      {v : System} {s : Shared} {w : Worker}
      → Alone i u v
      → Move v.shared (v.workers i) s w
      → Alone i u (record { shared = s; workers = update v.workers i w })

-- The version that follows the newest, computed from its root
abbrev pub next_version : Shared → ℕ → Version
next_version s n = record {
  number = s.newest.number + 1;
  start = s.newest.start + s.newest.size;
  size = n;
  base = s.newest.start;
}
