-- ===== src/Compact/Room.antt =====
-- The temporary file grows in time, and keeps its bytes.
use mariv.Base.{
  ℕ, zero, suc, ◌+◌, ◌-◌, ◌^◌, ◌≤◌, ◌<◌, ◌≡◌, ◌≢◌, refl, ap, arith, ◌&&◌, List, [], ◌++◌, ltb,
  eq_test_false, length, length-append, length-replicate, replicate, get_elem?, ◌∷◌, some,
  Bool-cases, inl, inr,
}
use mariv.Base.Memory.{At}
use mariv.Base.Outcome.{ok}
use mariv.Commit.{allocate_size, int_below}
use mariv.Open.{System, truncated}
use mariv.Open.Resize.{Works, truncated_lem}
use mariv.Compact.{resize_temp_file}

allocate_size-room :
    (page_size n slack : ℕ)
    → n ≢ 0
    → slack ≤ n
    → slack ≤ 1000000000
    → n + slack ≤ allocate_size page_size n
unfolding allocate_size
allocate_size-room page_size n slack h small few = ground arith

get_elem?-grown :
    (m zs : List ℕ) (p b : ℕ) → get_elem? m p ≡ some b → get_elem? (m ++ zs) p ≡ some b
get_elem?-grown [] zs p b e = cc
get_elem?-grown (x ∷ m) zs zero b e = e
get_elem?-grown (x ∷ m) zs (suc p) b e = get_elem?-grown m zs p b e

-- What stands in a file stands in it when it has grown.
At-grown : (m zs : List ℕ) (p : ℕ) (bs : List ℕ) → At m p bs → At (m ++ zs) p bs
At-grown m zs p [] a = rw length-append (omega arith)
At-grown m zs p (b ∷ bs) a = (get_elem?-grown m zs p b a.0, At-grown m zs (suc p) bs a.1)

-- A temporary map after a resize: it has room up to the offset, and holds what it held.
pub record Roomy (offset : ℕ) (temp grown : List ℕ) : Type 0 where
  pub room : offset ≤ length grown
  pub longer : length temp ≤ length grown
  pub kept : (p : ℕ) (bs : List ℕ) → At temp p bs → At grown p bs

-- There is room after one resize for an offset that lies no further behind the end of the file
-- than `slack`.
pub resize_temp_file-Roomy :
    (sys : System) (offset slack : ℕ) (temp : List ℕ)
    → Works sys
    → 0 < offset
    → offset < 2 ^ 63
    → length temp ≢ 0
    → slack ≤ length temp
    → slack ≤ 1000000000
    → offset ≤ length temp + slack
    → (grown : List ℕ) × (resize_temp_file sys offset temp ≡ ok grown) × Roomy offset temp grown
unfolding resize_temp_file
resize_temp_file-Roomy sys offset slack temp works positive below filled small few near =
    let size = allocate_size sys.page_size (length temp) in
    let grows : length temp + slack ≤ size =
      allocate_size-room sys.page_size (length temp) slack filled small few in
    let zs : List ℕ = replicate (size - length temp) 0 in
    let after : truncated sys size temp ≡ temp ++ zs =
      truncated_lem sys size temp (omega (arith, grows)) in
    elim (Bool-cases (ltb 0 offset && int_below offset (length temp))) [
      | inl e ↦
          (temp, rw e refl, record { room = grind arith; longer = omega arith; kept = λ p bs a. a })
      | inr e ↦ (
        temp ++ zs,
        rw
            (
              e,
              eq_test_false (length temp) 0 filled,
              works.syncs,
              works.unmaps,
              works.truncates,
              works.maps,
            )
            (ap ok after),
        record {
          room =
              rw length-append
                (omega (arith, grows, length-replicate {A = ℕ} (size - length temp) 0));
          longer = rw length-append (omega arith);
          kept = λ p bs a. At-grown temp zs p bs a;
        },
      )
    ]
