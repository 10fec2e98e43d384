-- ===== src/Detect/Files/Written.antt =====
-- The file of the FST behind a write that succeeded.
use dirpc.Prelude.{Bool, true, false, ◌&&◌, Bytes, some, List, [], ◌∷◌, ◌≡◌, ap, guard-eq-some}
use dirpc.Detect.Db.Open
use dirpc.Detect.Db.Open.{FstFile, valid_file}
use dirpc.Detect.Db.Writing.{Steps, Disk, Atomic, write_fst_file, write_fst_file-Atomic}
use dirpc.Detect.Files.{Mapping, load_mmap_fst, target_after, loaded_after}

pub target_after-Atomic :
    (d : Disk) (old : FstFile) (keys : List Bytes) (states : List Disk)
    → Atomic old keys (true, states)
    → target_after d states ≡ valid_file keys
unfolding target_after
target_after-Atomic d old keys [] h = absurd h
target_after-Atomic d old keys (s ∷ []) h = h
target_after-Atomic d old keys (s ∷ t ∷ states) (_, h) =
    target_after-Atomic s old keys (t ∷ states) h

load-keys :
    (m : Mapping) (file : FstFile) (keys : List Bytes) {fst : List Bytes}
    → load_mmap_fst m file ≡ some fst
    → file ≡ valid_file keys
    → fst ≡ keys
unfolding load_mmap_fst
load-keys m file keys h e =
    let (_, l) = guard-eq-some (m.open_ok && (m.stat_ok && m.map_ok)) _ h in
    cc (l, ap Open.load_mmap_fst e)

-- What is mapped behind a write are the keys that were written, and the write has succeeded.
loaded_after-keys :
    (m : Mapping) (d : Disk) (keys : List Bytes) (w : Bool × List Disk) {fst : List Bytes}
    → Atomic d.target keys w
    → loaded_after m d w ≡ some fst
    → (fst ≡ keys) × (target_after d w.1 ≡ valid_file keys)
loaded_after-keys m d keys (false, states) h e = cc
loaded_after-keys m d keys (true, states) h e =
    let t = target_after-Atomic d d.target keys states h in (load-keys m _ keys e t, t)

pub loaded_after-written :
    (steps : Steps) (m : Mapping) (d : Disk) (keys : List Bytes) {fst : List Bytes}
    → loaded_after m d (write_fst_file steps keys d) ≡ some fst
    → (fst ≡ keys) × (target_after d (write_fst_file steps keys d).1 ≡ valid_file keys)
loaded_after-written steps m d keys h =
    loaded_after-keys m d keys (write_fst_file steps keys d) (write_fst_file-Atomic steps keys d) h
