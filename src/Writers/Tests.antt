-- ===== src/Writers/Tests.antt =====
-- The results of `Writers` on two workers that both set out from the version 1, of which the first
-- gets to swap the version.
use mariv.Base.{ℕ, ◌+◌, ◌≤◌, ◌≡◌, refl, arith, ◌==◌, if◌then◌else◌}
use mariv.Writers.{
  stage, Version, System, by_worker, at_rest, Reach, here, then_step, load_version, check_version,
  load_root, run_operations, reload_version, reload_root, load_end, check_space, swap_version,
}
use mariv.Writers.Invariant.{Chain}
use mariv.Writers.Serial.{reach-Chain, reach-exclusive, reach-snapshot}

abbrev first : Version
first = record { number = 1; start = 24; size = 77; base = 0 }

abbrev memory : ℕ → ℕ
memory o = if o == 24 then 1 else 0

nine : 9 ≤ 9
nine = omega arith

-- The first worker has swapped the version; the second has read the same root.
swapping : (u : System) × Reach (at_rest first memory) u × 9 ≤ stage (u.workers 0).pc
swapping = (
  _,
  then_step
      (then_step
        (then_step
          (then_step
            (then_step
              (then_step
                (then_step
                  (then_step
                    (then_step
                      (then_step
                        (then_step
                          (then_step (then_step here (by_worker 0 (load_version refl)))
                            (by_worker 1 (load_version refl)))
                          (by_worker 0 (check_version refl refl)))
                        (by_worker 1 (check_version refl refl)))
                      (by_worker 0 (load_root refl)))
                    (by_worker 1 (load_root refl)))
                  (by_worker 0 (run_operations refl)))
                (by_worker 1 (run_operations refl)))
              (by_worker 0 (reload_version refl)))
            (by_worker 0 (reload_root refl)))
          (by_worker 0 (load_end 90 refl (omega arith))))
        (by_worker 0 (check_space refl (omega arith))))
      (by_worker 0 (swap_version refl refl refl (omega arith))),
  nine,
)

reach-Chain_example :
    Chain (swapping.0.shared.newest) (swapping.0.shared.older)
    × swapping.0.shared.root ≡ swapping.0.shared.newest.start
    × swapping.0.shared.node_version swapping.0.shared.root ≡ swapping.0.shared.newest.number
reach-Chain_example = reach-Chain first memory (omega arith) refl swapping.1

reach-exclusive_example :
    ◌≡◌ {A = ℕ} 0 0
    × (swapping.0.workers 0).offset ≡ swapping.0.shared.newest.start + swapping.0.shared.newest.size
reach-exclusive_example =
    reach-exclusive first memory (omega arith) refl swapping.1 0 0 swapping.2 swapping.2

reach-snapshot_example : swapping.0.shared.node_version 24 ≡ memory 24
reach-snapshot_example =
    reach-snapshot first memory (omega arith) refl here swapping.1 24 (omega arith)
