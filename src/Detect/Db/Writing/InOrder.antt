-- ===== src/Detect/Db/Writing/InOrder.antt =====
-- A write of the FST file succeeds where the file system does not fail and the keys come in order.
use dirpc.Prelude.{true, Bytes, List, [], ◌∷◌, ◌++◌, append_assoc, ◌≡◌, refl, All}
use dirpc.Prelude.Sort.{bytes_leb, IsSorted}
use dirpc.Detect.Db.Writing.{Steps, Disk, insert_all, rename, completed, filled, write_fst_file}

-- The file system does not fail, and the builder takes any key that is not below the ones before it.
pub record Works (steps : Steps) : Type 0 where
  pub dir : steps.dir_ok ≡ true
  pub create : steps.create_ok ≡ true
  pub builder : steps.builder_ok ≡ true
  pub finish : steps.finish_ok ≡ true
  pub flush : steps.flush_ok ≡ true
  pub renames : steps.rename_ok ≡ true
  pub in_order :
      (before : List Bytes) (key : Bytes)
      → IsSorted (before ++ key ∷ [])
      → steps.insert_ok before key ≡ true

All-front :
    (P : Bytes → Type 0) (xs : List Bytes) (k : Bytes) (ks : List Bytes)
    → All P (xs ++ k ∷ ks)
    → All P (xs ++ k ∷ [])
All-front P [] k ks (h, hs) = (h, tt)
All-front P (x ∷ xs) k ks (h, hs) = (h, All-front P xs k ks hs)

IsSorted-front :
    (xs : List Bytes) (k : Bytes) (ks : List Bytes)
    → IsSorted (xs ++ k ∷ ks)
    → IsSorted (xs ++ k ∷ [])
IsSorted-front [] k ks h = (tt, tt)
IsSorted-front (x ∷ xs) k ks (h, hs) =
    (All-front (λ y. bytes_leb x y ≡ true) xs k ks h, IsSorted-front xs k ks hs)

module _ (steps : Steps) (w : Works steps) where
  insert_all-sorted :
      (before ks : List Bytes) → IsSorted (before ++ ks) → insert_all steps before ks ≡ true
  unfolding insert_all
  insert_all-sorted before [] h = refl
  insert_all-sorted before (k ∷ ks) h =
      rw (w.in_order before k (IsSorted-front before k ks h))
        (insert_all-sorted (before ++ k ∷ []) ks (rw append_assoc h))

  -- The write of keys in order succeeds.
  pub write_fst_file-sorted :
      (ks : List Bytes) (d : Disk) → IsSorted ks → (write_fst_file steps ks d).0 ≡ true
  unfolding write_fst_file filled completed rename
  write_fst_file-sorted ks d h =
      rw (w.dir, w.create, w.builder, insert_all-sorted [] ks h, w.finish, w.flush, w.renames) refl
