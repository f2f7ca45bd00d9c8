-- ===== src/Open/Kept.antt =====
-- A resize in which any call of the system may fail.
use mariv.Base.{
  ℕ, zero, suc, ◌≤◌, ◌≡◌, refl, ap, ◌∙◌, arith, false, ◌⊎◌, sym, ◌==◌, ==_iff, if◌then◌else◌,
  Bool-cases, inl, inr, List, [], ◌∷◌, ◌++◌, length, take, replicate,
}
use mariv.Base.Outcome.{Outcome, ok, err, panics, stuck}
use mariv.Commit.{allocate_size}
use mariv.Open.{
  Mari, System, Action, continue, calls, pass, ◌>>>◌, munmap, mmap, truncate_file, truncated,
  resize_steps, resize_mmap,
}
use mariv.Open.Resize.{allocate_size-le}

-- How an action ends: `P` holds of the store that it leaves, and `Q` too if it returned.
abbrev Ends : (Mari → Type 0) → (Mari → Type 0) → Outcome (Unit {0}) × Mari → Type 0
Ends P Q (ok u, s) = P s × Q s
Ends P Q (err e, s) = P s
Ends P Q (panics, s) = P s
Ends P Q (stuck, s) = P s

Ends-holds : (P Q : Mari → Type 0) (r : Outcome (Unit {0}) × Mari) → Ends P Q r → P r.1
Ends-holds P Q (ok u, s) h = h.0
Ends-holds P Q (err e, s) h = h
Ends-holds P Q (panics, s) h = h
Ends-holds P Q (stuck, s) h = h

continue-Ends :
    (P Q R : Mari → Type 0) (r : Outcome (Unit {0}) × Mari) (next : Action)
    → Ends P Q r
    → ((s : Mari) → Q s → Ends P R (next s))
    → Ends P R (continue r next)
continue-Ends P Q R (ok u, s) next h onward = onward s h.1
continue-Ends P Q R (err e, s) next h onward = h
continue-Ends P Q R (panics, s) next h onward = h
continue-Ends P Q R (stuck, s) next h onward = h

calls-Ends :
    (P Q : Mari → Type 0) (r : Outcome (Unit {0})) (effect : Mari → Mari) (s : Mari)
    → P s
    → P (effect s)
    → Q (effect s)
    → Ends P Q (calls r effect s)
calls-Ends P Q (ok u) effect s before after given = (after, given)
calls-Ends P Q (err e) effect s before after given = before
calls-Ends P Q panics effect s before after given = before
calls-Ends P Q stuck effect s before after given = before

take_self : (xs : List ℕ) → take (length xs) xs ≡ xs
take_self [] = refl
take_self (x ∷ xs) = ap (λ t. x ∷ t) (take_self xs)

take-append : (xs zs : List ℕ) → take (length xs) (xs ++ zs) ≡ xs
take-append [] zs = refl
take-append (x ∷ xs) zs = ap (λ t. x ∷ t) (take-append xs zs)

take-empty : (m file : List ℕ) → length m ≡ 0 → take (length m) file ≡ m
take-empty [] file e = refl
take-empty (x ∷ m) file e = absurd (omega arith)

take-take : (n size : ℕ) (xs : List ℕ) → n ≤ size → take n (take size xs) ≡ take n xs
take-take zero size xs h = refl
take-take (suc n) zero xs h = absurd (omega arith)
take-take (suc n) (suc size) [] h = refl
take-take (suc n) (suc size) (x ∷ xs) h = ap (λ t. x ∷ t) (take-take n size xs (omega arith))

-- A file that starts with `m` starts with it after more bytes too.
take-more : (m file zs : List ℕ) → take (length m) file ≡ m → take (length m) (file ++ zs) ≡ m
take-more [] file zs e = refl
take-more (x ∷ m) [] zs e = cc
take-more (x ∷ m) (y ∷ file) zs e =
    let same : take (length m) file ≡ m = cc in let rest = take-more m file zs same in cc

module _ (sys : System) (m : List ℕ) where
  -- The file starts with the bytes of the map `m`.
  abbrev InFile : Mari → Type 0
  InFile s = take (length m) s.file ≡ m

  -- The bytes of the map `m` are mapped still, or the file starts with them.
  abbrev Kept : Mari → Type 0
  Kept s = (s.m_map ≡ m) ⊎ InFile s

  given_up-Ends :
      (s : Mari)
      → s.m_map ≡ m
      → Ends Kept InFile
          ((if length s.m_map == 0 then pass else (calls sys.sync (λ t. t) >>> munmap sys)) s)
  given_up-Ends s e = elim (Bool-cases (length s.m_map == 0)) [
    | inl empty ↦
        rw empty
          (inl e, take-empty m s.file (ap length (sym e) ∙ (==_iff (length s.m_map) 0).0 empty))
    | inr filled ↦ rw filled (
        continue-Ends Kept (λ t. t.m_map ≡ m) InFile (calls sys.sync (λ t. t) s) (munmap sys)
          (calls-Ends Kept (λ t. t.m_map ≡ m) sys.sync (λ t. t) s (inl e) (inl e) e)
          (λ t same.
            let saved : take (length m) t.m_map ≡ m = rw same (take_self m) in
            calls-Ends Kept InFile sys.unmap _ t (inl same) (inr saved) saved))
  ]

  resize_steps-Ends : (s : Mari) → s.m_map ≡ m → Ends Kept InFile (resize_steps sys s)
  resize_steps-Ends s e =
      let size = allocate_size sys.page_size (length s.m_map) in
      let room : length m ≤ size =
        omega (arith, ap length e, allocate_size-le sys.page_size (length s.m_map)) in
      continue-Ends Kept InFile InFile _ (truncate_file sys size >>> mmap sys) (given_up-Ends s e)
        (λ t saved.
          let longer : take (length m) (truncated sys size t.file) ≡ m =
            take-take (length m) size (t.file ++ replicate size 0) room
            ∙ take-more m t.file (replicate size 0) saved in
          continue-Ends Kept InFile InFile (truncate_file sys size t) (mmap sys)
            (calls-Ends Kept InFile sys.truncate _ t (inr saved) (inr longer) longer)
            (λ u kept. calls-Ends Kept InFile sys.map_file _ u (inr kept) (inr kept) kept))

-- However a resize ends, whichever call of the system fails, the bytes of the old map are mapped
-- still or the file starts with them, and the store is no longer resizing.
pub resize_mmap-keeps :
    (sys : System) (s : Mari)
    → (((resize_mmap sys s).1.m_map ≡ s.m_map)
        ⊎ (take (length s.m_map) (resize_mmap sys s).1.file ≡ s.m_map))
      × ((resize_mmap sys s).1.is_resizing ≡ false)
unfolding resize_mmap
resize_mmap-keeps sys s = (
  Ends-holds (Kept sys s.m_map) (InFile sys s.m_map) (resize_steps sys s)
      (resize_steps-Ends sys s.m_map s refl),
  refl,
)
