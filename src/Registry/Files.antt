-- ===== src/Registry/Files.antt =====
-- Looking up a path after a file was written or removed.
use trustonic_tee_user_space.Prelude.{
  ℕ, ◌≤◌, ◌≡◌, refl, true, false, List, [], ◌∷◌, some, none, arith, ◌==◌, length, take-all,
  Bool-cases, Option-cases, inl, inr,
}
use trustonic_tee_user_space.Status.{mc_drv_ok, invalid_device_file}
use trustonic_tee_user_space.Registry.{
  FilePath, Disk, FileSystem, same_digits, same_path, lookup_file, without_file, put_file,
  write_file, open_file, read_some, read_exact,
}

pub same_digits_refl : (xs : List ℕ) → same_digits xs xs ≡ true
same_digits_refl [] = refl
same_digits_refl (x ∷ xs) = let IH = same_digits_refl xs in ground (arith, IH)

pub same_path_refl : (p : FilePath) → same_path p p ≡ true
unfolding same_path
same_path_refl p =
    let f = same_digits_refl p.folder in let n = same_digits_refl p.name in ground (arith, f, n)

pub lookup_file-without_file :
    (p : FilePath) (fs : List (FilePath × List ℕ)) → lookup_file p (without_file p fs) ≡ none
unfolding lookup_file without_file
lookup_file-without_file p [] = refl
lookup_file-without_file p ((q, content) ∷ fs) =
    let IH = lookup_file-without_file p fs in
    elim (Bool-cases (same_path q p)) [
      | inl e ↦ rw (e, without_file) IH
      | inr e ↦ rw (e, without_file) (rw (e, lookup_file) IH)
    ]

-- Success of a write leaves exactly the bytes in the file.
pub write_file-ok :
    (disk : Disk) (fs : FileSystem) (p : FilePath) (bytes : List ℕ)
    → (write_file disk fs p bytes).0 ≡ mc_drv_ok
    → lookup_file p (write_file disk fs p bytes).1.files ≡ some bytes
unfolding write_file lookup_file
write_file-ok disk fs p bytes = elim (Bool-cases (disk.can_create fs p)) [
  | inr e ↦ rw (e, write_file) (λ ok. ground (arith, ok))
  | inl e ↦ elim (Bool-cases (disk.can_seek (put_file p [] fs) p)) [
    | inr k ↦ rw (e, k, write_file) (λ ok. ground (arith, ok))
    | inl k ↦ elim (Option-cases (disk.write_error (put_file p [] fs) p (length bytes))) [
      | inr (n, x) ↦ rw (e, k, x, write_file) (λ ok. ground (arith, ok))
      | inl x ↦ rw (e, k, x, write_file) (λ ok. rw (same_path_refl p, lookup_file) refl)
    ]
  ]
]

-- A write, failed or not, leaves every other path and the folders as they were.
pub write_file-others :
    (disk : Disk) (fs : FileSystem) (p q : FilePath) (bytes : List ℕ)
    → same_path p q ≡ false
    → lookup_file q (write_file disk fs p bytes).1.files ≡ lookup_file q fs.files
unfolding write_file lookup_file
write_file-others disk fs p q bytes other = elim (Bool-cases (disk.can_create fs p)) [
  | inr e ↦ rw (e, write_file) refl
  | inl e ↦ elim (Bool-cases (disk.can_seek (put_file p [] fs) p)) [
    | inr k ↦ rw (e, k, write_file) (rw (other, lookup_file) refl)
    | inl k ↦ elim (Option-cases (disk.write_error (put_file p [] fs) p (length bytes))) [
      | inr (n, x) ↦ rw (e, k, x, write_file) (rw (other, lookup_file) refl)
      | inl x ↦ rw (e, k, x, write_file) (rw (other, lookup_file) refl)
    ]
  ]
]

-- Reading a file that is not empty and fits gives its bytes.
pub read_some-lookup_file :
    (disk : Disk) (fs : FileSystem) (p : FilePath) (b : ℕ) (bs : List ℕ) (size : ℕ)
    → lookup_file p fs.files ≡ some (b ∷ bs)
    → disk.can_open fs p ≡ true
    → disk.can_read fs p ≡ true
    → length (b ∷ bs) ≤ size
    → read_some disk fs p size ≡ (mc_drv_ok, some (b ∷ bs))
unfolding read_some open_file
read_some-lookup_file disk fs p b bs size e o r fits =
    rw (o, e, r, take-all size (b ∷ bs) fits, read_some, open_file) refl

pub lookup_file-put_file :
    (p : FilePath) (content : List ℕ) (fs : FileSystem)
    → lookup_file p (put_file p content fs).files ≡ some content
unfolding lookup_file
lookup_file-put_file p content fs = rw (same_path_refl p, lookup_file) refl

pub lookup_file-put_file_other :
    (p q : FilePath) (content : List ℕ) (fs : FileSystem)
    → same_path p q ≡ false
    → lookup_file q (put_file p content fs).files ≡ lookup_file q fs.files
unfolding lookup_file
lookup_file-put_file_other p q content fs other = rw (other, lookup_file) refl

pub read_exact-missing :
    (disk : Disk) (fs : FileSystem) (p : FilePath) (size : ℕ)
    → lookup_file p fs.files ≡ none
    → read_exact disk fs p size ≡ (invalid_device_file, none)
unfolding read_exact open_file
read_exact-missing disk fs p size e = elim (Bool-cases (disk.can_open fs p)) [
  | inl o ↦ rw (o, e, read_exact, open_file) refl
  | inr o ↦ rw (o, read_exact, open_file) refl
]

pub read_exact-lookup_file :
    (disk : Disk) (fs : FileSystem) (p : FilePath) (content : List ℕ) (size : ℕ)
    → lookup_file p fs.files ≡ some content
    → size ≡ length content
    → disk.can_open fs p ≡ true
    → disk.can_seek fs p ≡ true
    → disk.can_read fs p ≡ true
    → read_exact disk fs p size ≡ (mc_drv_ok, some content)
unfolding read_exact open_file
read_exact-lookup_file disk fs p content size e fits o s r =
    let same : (size == length content) ≡ true = ground (arith, fits) in
    rw (o, e, s, same, r, read_exact, open_file) refl

pub write_file-folders :
    (disk : Disk) (fs : FileSystem) (p : FilePath) (bytes : List ℕ)
    → (write_file disk fs p bytes).1.folders ≡ fs.folders
unfolding write_file
write_file-folders disk fs p bytes = elim (Bool-cases (disk.can_create fs p)) [
  | inr e ↦ rw (e, write_file) refl
  | inl e ↦ elim (Bool-cases (disk.can_seek (put_file p [] fs) p)) [
    | inr k ↦ rw (e, k, write_file) refl
    | inl k ↦ elim (Option-cases (disk.write_error (put_file p [] fs) p (length bytes))) [
      | inr (n, x) ↦ rw (e, k, x, write_file) refl
      | inl x ↦ rw (e, k, x, write_file) refl
    ]
  ]
]
