-- ===== src/Writers/Serial.antt =====
-- Every run of the writers keeps the invariant, and what follows from it.
use mariv.Base.{ℕ, ◌+◌, ◌≤◌, ◌<◌, ◌≡◌, inl, inr, refl, ◌∙◌, arith, false, ◌==◌, ==_iff, Bool-cases}
use mariv.Writers.{
  stage, Worker, Version, Shared, Move, System, update, Step, by_worker, at_rest, Reach, here,
  then_step, load_version, check_version, load_root, run_operations, reload_version, reload_root,
  load_end, check_space, give_up, swap_version, store_end, place_nodes, store_root,
}
use mariv.Writers.Invariant.{
  next_free, Local, Core, Sound, Held, held_after, Chain, own_Local, other_Local, move_Core,
  holds_after,
}

module _ {t : System} {s' : Shared} {w' : Worker} (i : ℕ) (sound : Sound t)
    (move : Move t.shared (t.workers i) s' w') where
  apart : (j : ℕ) → (j == i) ≡ false → 9 ≤ stage (t.workers i).pc → 9 ≤ stage (t.workers j).pc → ⊥
  apart j e p q = ground (arith, sound.one_holder j i q p)

  -- A worker that holds the version after the move, and another that held it before
  alone : (j : ℕ) → (j == i) ≡ false → 9 ≤ stage w'.pc → 9 ≤ stage (t.workers j).pc → ⊥
  alone j e p q =
      apart j e (holds_after (t.workers j) sound.core (sound.locals j) (sound.locals i) move p q) q

  moved_Local : (j : ℕ) → Local s' (update t.workers i w' j)
  moved_Local j = elim (Bool-cases (j == i)) [
    | inl e ↦ rw e (own_Local sound.core (sound.locals i) move)
    | inr e ↦
        rw e (other_Local sound.core (λ p q. apart j e p q) (sound.locals j) (sound.locals i) move)
  ]

  moved_holder :
      (j k : ℕ)
      → 9 ≤ stage (update t.workers i w' j).pc
      → 9 ≤ stage (update t.workers i w' k).pc
      → j ≡ k
  moved_holder j k p q = elim (Bool-cases (j == i)) [
    | inl a ↦ elim (Bool-cases (k == i)) [
      | inl b ↦ ground (arith)
      | inr b ↦ absurd (alone k b (rw a at p) (rw b at q))
    ]
    | inr a ↦ elim (Bool-cases (k == i)) [
      | inl b ↦ absurd (alone j a (rw b at q) (rw a at p))
      | inr b ↦ sound.one_holder j k (rw a at p) (rw b at q)
    ]
  ]

  moved_held : s'.version ≡ s'.newest.number + 1 → Held (update t.workers i w')
  moved_held e = elim (held_after sound.core (sound.locals i) move e) [
    | inl h ↦ (i, rw ((==_iff i i).1 refl) h)
    | inr h ↦ stays h.1 (sound.held h.0)
  ]
    where
      stays : stage (t.workers i).pc ≤ 8 → Held t.workers → Held (update t.workers i w')
      stays low (j, p) = elim (Bool-cases (j == i)) [
        | inl e ↦ absurd (ground arith)
        | inr e ↦ (j, rw e p)
      ]

Step-Sound : {t u : System} → Sound t → Step t u → Sound u
Step-Sound sound (by_worker i move) = record {
  core = move_Core sound.core (sound.locals i) move;
  one_holder = moved_holder i sound move;
  held = moved_held i sound move;
  locals = moved_Local i sound move;
}

pub at_rest-Sound :
    (v : Version) (memory : ℕ → ℕ)
    → 0 < v.size
    → memory v.start ≡ v.number
    → Sound (at_rest v memory)
at_rest-Sound v memory size stored = record {
  core = ground arith;
  one_holder = λ i j p q. ground arith;
  held = λ e. absurd (ground arith);
  locals = λ i. ground arith;
}

pub reach-Sound : {t u : System} → Sound t → Reach t u → Sound u
reach-Sound sound here = sound
reach-Sound sound (then_step r s) = Step-Sound (reach-Sound sound r) s

-- What a move leaves alone: the bytes of the versions published so far.
Keeps : Shared → Shared → Type 0
Keeps s s' =
    (next_free s ≤ next_free s')
    × ((o : ℕ) → o < next_free s → s'.node_version o ≡ s.node_version o)

move_Keeps :
    {s : Shared} {w : Worker} {s' : Shared} {w' : Worker}
    → Core s
    → Local s w
    → Move s w s' w'
    → Keeps s s'
unfolding Keeps
move_Keeps c l (load_version p) = (omega arith, λ o h. refl)
move_Keeps c l (check_version p q) = (omega arith, λ o h. refl)
move_Keeps c l (load_root p) = (omega arith, λ o h. refl)
move_Keeps c l (run_operations p) = (omega arith, λ o h. refl)
move_Keeps c l (reload_version p) = (omega arith, λ o h. refl)
move_Keeps c l (reload_root p) = (omega arith, λ o h. refl)
move_Keeps c l (load_end n p q) = (omega arith, λ o h. refl)
move_Keeps c l (check_space p q) = (omega arith, λ o h. refl)
move_Keeps c l (give_up p) = (omega arith, λ o h. refl)
move_Keeps c l (swap_version p q r x) = (omega arith, λ o h. refl)
move_Keeps c l (store_end p) = (omega arith, λ o h. refl)
move_Keeps c l (place_nodes f p) = (omega arith, λ o h. ground arith)
move_Keeps c l (store_root p) = (ground arith, λ o h. refl)

reach-Keeps : {t u : System} → Sound t → Reach t u → Keeps t.shared u.shared
unfolding Keeps
reach-Keeps sound here = (omega arith, λ o h. refl)
reach-Keeps sound (then_step r (by_worker i move)) =
    let before = reach-Sound sound r in
    let kept = move_Keeps before.core (before.locals i) move in
    let ih = reach-Keeps sound r in
    (omega (arith, ih.0, kept.0), λ o h. kept.1 o (omega (arith, ih.0, h)) ∙ ih.1 o h)

module _ {u : System} (first : Version) (memory : ℕ → ℕ) (size : 0 < first.size)
    (stored : memory first.start ≡ first.number) (run : Reach (at_rest first memory) u) where
  -- In every interleaving of any number of writers, from a store at rest whose newest version is
  -- stored at its offset: the versions published so far form a chain, each computed from the root
  -- of the one before it, with the next number, and written where the bytes of that one end; the
  -- shared root is the newest version's, and the node there has its number. No update is lost.
  pub reach-Chain :
      Chain u.shared.newest u.shared.older
      × u.shared.root ≡ u.shared.newest.start
      × u.shared.node_version u.shared.root ≡ u.shared.newest.number
  reach-Chain =
      let core = (reach-Sound (at_rest-Sound first memory size stored) run).core in
      (core.chain, core.root, core.root_node)

  -- In every interleaving: two workers that are both between their swap of the version and their
  -- store of the root are one, and the offset at which such a worker writes its path is where the
  -- bytes of the newest published version end.
  pub reach-exclusive :
      (i j : ℕ)
      → 9 ≤ stage (u.workers i).pc
      → 9 ≤ stage (u.workers j).pc
      → i ≡ j × (u.workers i).offset ≡ u.shared.newest.start + u.shared.newest.size
  reach-exclusive i j p q =
      let sound = reach-Sound (at_rest-Sound first memory size stored) run in
      (sound.one_holder i j p q, (sound.locals i).holds_offset p)

  -- In every interleaving: however the writers go on, no node that lies below the end of the newest
  -- published version, and so no node that a reader of a published version can come to, is
  -- overwritten.
  pub reach-snapshot :
      {v : System}
      → Reach u v
      → (o : ℕ) → o < u.shared.newest.start + u.shared.newest.size
      → v.shared.node_version o ≡ u.shared.node_version o
  unfolding Keeps
  reach-snapshot later o h =
      (reach-Keeps (reach-Sound (at_rest-Sound first memory size stored) run) later).1 o h
