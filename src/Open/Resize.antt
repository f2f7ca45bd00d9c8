-- ===== src/Open/Resize.antt =====
-- Resizing keeps what the map holds, and the file outlives its mapping.
use mariv.Base.{
  ℕ, zero, suc, ◌-◌, ◌≤◌, ◌<◌, ◌≡◌, ◌≢◌, refl, ap, ◌∙◌, arith, false, List, [], ◌∷◌, ◌++◌,
  eq_test_false, length, length-append, length-replicate, take, replicate,
}
use mariv.Base.Outcome.{Outcome, ok}
use mariv.Commit.{allocate_size}
use mariv.Open.{Mari, System, calls, truncated, resize_mmap}

-- The calls that a resize makes return.
pub record Works (sys : System) : Type 0 where
  pub syncs : sys.sync ≡ ok tt
  pub truncates : sys.truncate ≡ ok tt
  pub maps : sys.map_file ≡ ok tt
  pub unmaps : sys.unmap ≡ ok tt

pub calls-ok :
    (r : Outcome (Unit {0})) (effect : Mari → Mari) (s : Mari)
    → r ≡ ok tt
    → calls r effect s ≡ (ok tt, effect s)
calls-ok r effect s e = ap (λ t. calls t effect s) e

pub take-length :
    (size : ℕ) (xs zs : List ℕ)
    → length xs ≤ size
    → take size (xs ++ zs) ≡ xs ++ take (size - length xs) zs
take-length size [] zs h = let e : size ≡ size - 0 = omega arith in rw (← e)
take-length zero (x ∷ xs) zs h = absurd (omega arith)
take-length (suc size) (x ∷ xs) zs h =
    let e : suc size - suc (length xs) ≡ size - length xs = omega arith in
    rw e (ap (λ t. x ∷ t) (take-length size xs zs (omega arith)))

pub take-replicate : (n m : ℕ) → n ≤ m → take n (replicate {A = ℕ} m 0) ≡ replicate n 0
take-replicate zero m h = refl
take-replicate (suc n) zero h = absurd (omega arith)
take-replicate (suc n) (suc m) h = ap (λ t. 0 ∷ t) (take-replicate n m (omega arith))

-- A file that grows keeps its bytes and gets zeros.
pub truncated_lem :
    (sys : System) (size : ℕ) (contents : List ℕ)
    → length contents ≤ size
    → truncated sys size contents ≡ contents ++ replicate (size - length contents) 0
truncated_lem sys size contents h =
    take-length size contents (replicate size 0) h
    ∙ ap (λ t. contents ++ t) (take-replicate (size - length contents) size (omega arith))

allocate_size-bound : (page_size n : ℕ) → n ≢ 0 → n < allocate_size page_size n
unfolding allocate_size
allocate_size-bound page_size n h = ground arith

pub allocate_size-le : (page_size n : ℕ) → n ≤ allocate_size page_size n
unfolding allocate_size
allocate_size-le page_size n = ground arith

-- A resize of a map that is not empty, whose calls return, keeps every byte of the map and puts
-- zeros behind them, up to the allocated size, which is larger; the store is no longer resizing.
pub resize_mmap-grows :
    (sys : System) (s : Mari)
    → Works sys
    → length s.m_map ≢ 0
    → (s' : Mari) × (resize_mmap sys s ≡ (ok tt, s'))
      × (s'.m_map
          ≡ s.m_map ++ replicate (allocate_size sys.page_size (length s.m_map) - length s.m_map) 0)
      × (length s.m_map < length s'.m_map)
      × (s'.is_resizing ≡ false)
unfolding resize_mmap
resize_mmap-grows sys s works filled =
    let size = allocate_size sys.page_size (length s.m_map) in
    let grows = allocate_size-bound sys.page_size (length s.m_map) filled in
    let after = truncated_lem sys size s.m_map (omega arith) in
    (
      record s {
        file = truncated sys size s.m_map;
        m_map = truncated sys size s.m_map;
        is_resizing = false;
      },
      rw
          (
            eq_test_false (length s.m_map) 0 filled,
            works.syncs,
            works.unmaps,
            works.truncates,
            works.maps,
          )
          refl,
      after,
      rw (after, length-append) (omega (arith, length-replicate {A = ℕ} (size - length s.m_map) 0)),
      refl,
    )
