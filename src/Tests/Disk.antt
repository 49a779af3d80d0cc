-- ===== src/Tests/Disk.antt =====
-- A disk with one file, and a directory with one entry.
use mattx.Base.{
  ℕ, zero, suc, ◌+◌, ◌≡◌, ◌≤◌, refl, List, [], ◌∷◌, Bool, true, Option, none, some, arith,
  if◌then◌else◌, length, length-take, take, drop, pos,
}
use mattx.Dsm.Rpc.{Stat}
use mattx.Vfs.Disk.{FileSystem, opened, Got, error, bytes, found, DirEntry}

abbrev pub stat : Stat
stat = record {
  ino = 77;
  mode = 33188;
  size = 5;
  blocks = 8;
  blksize = 4096;
  uid = 1;
  gid = 1;
  nlink = 1;
}

abbrev pub one_entry : DirEntry
one_entry = record { name = 97 ∷ []; offset = 0; ino = 77; d_type = 8 }

abbrev pub content : List ℕ
content = 1 ∷ 2 ∷ 3 ∷ 4 ∷ 5 ∷ []

abbrev pub listed : ℕ → Option (DirEntry × ℕ)
listed zero = some (one_entry, 1)
listed (suc p) = none

abbrev pub iterate : {S : Type 0} → (DirEntry → S → Bool × S) → ℕ → S → S × ℕ
iterate actor zero s =
    if (actor one_entry s).0 then ((actor one_entry s).1, 1) else ((actor one_entry s).1, 0)
iterate actor (suc p) s = (s, suc p)

abbrev pub chunk : ℕ → ℕ → List ℕ
chunk n p = take n (drop p content)

pub iterate_end :
    {S : Type 0} (actor : DirEntry → S → Bool × S) (p : ℕ) (s : S)
    → listed p ≡ none
    → iterate actor p s ≡ (s, p)
iterate_end actor zero s e = absurd (ground (arith, e))
iterate_end actor (suc p) s e = refl

pub iterate_next :
    {S : Type 0} (actor : DirEntry → S → Bool × S) (p : ℕ) (s : S) (e : DirEntry) (q : ℕ)
    → listed p ≡ some (e, q)
    → iterate actor p s
      ≡ (if (actor e s).0 then iterate actor q (actor e s).1 else ((actor e s).1, p))
iterate_next actor zero s e q h =
    let same : one_entry ≡ e = cc in let next : 1 ≡ q = cc in rw (← same, ← next) refl
iterate_next actor (suc p) s e q h = absurd (ground (arith, h))

pub listed_at : (p : ℕ) (e : DirEntry) (q : ℕ) → listed p ≡ some (e, q) → e.offset ≡ p
listed_at zero e q h = let same : one_entry ≡ e = cc in rw (← same) refl
listed_at (suc p) e q h = absurd (ground (arith, h))

pub read_moves :
    (n p : ℕ) (bs : List ℕ)
    → ◌≡◌ {A = Got} (bytes (chunk n p)) (bytes bs)
    → p + length (chunk n p) ≡ p + length bs
read_moves n p bs e = let same : chunk n p ≡ bs = cc in rw same refl

pub read_within :
    (n p : ℕ) (bs : List ℕ) → ◌≡◌ {A = Got} (bytes (chunk n p)) (bytes bs) → length bs ≤ n
read_within n p bs e =
    let same : chunk n p ≡ bs = cc in rw (← same) (omega (arith, length-take n (drop p content)))

pub read_stays :
    (n p e : ℕ) → ◌≡◌ {A = Got} (bytes (chunk n p)) (error e) → p + length (chunk n p) ≡ p
read_stays n p e h = absurd (ground (arith, h))

abbrev pub one_file : FileSystem
one_file = record {
  Disk = ℕ;
  filp_open = λ d who start path flags mode. (d + 1, opened 7);
  kernel_read = λ d f n p. (d, bytes (chunk n p), p + length (chunk n p));
  kernel_write = λ d f bs p. (d, pos (length bs), p + length bs);
  vfs_llseek = λ d f o w. (d, o);
  vfs_fsync_range = λ d f s e k. (d, pos 0);
  getattr = λ d start path. found stat;
  kern_path = λ d who path. opened 9;
  mnt_want_write = λ d v. pos 0;
  in_place = λ d v. true;
  vfs_unlink = λ d who v. (d, pos 0);
  iterate_dir = λ d f actor p s. iterate actor p s;
  readdir = λ d f p. listed p;
  iterate_end = λ d f actor p s e. iterate_end actor p s e;
  iterate_next = λ d f actor p s e. iterate_next actor p s _ _ e;
  entry_at = λ d f p e. listed_at p _ _ e;
  read_moves = λ d f n p e. read_moves n p _ e;
  read_stays = λ d f n p e. read_stays n p _ e;
  read_within = λ d f n p e. read_within n p _ e;
}
