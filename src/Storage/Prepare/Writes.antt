-- ===== src/Storage/Prepare/Writes.antt =====
-- What the loop over the blocks of the file leaves in it.
use rapidbench.Prelude.{
  ℕ, zero, suc, ◌+◌, ◌-◌, ◌*◌, ◌%◌, ◌^◌, ◌≤◌, ◌<◌, ◌≡◌, refl, sym, ap, ◌∙◌, subst, true, false, not,
  ◌||◌, ltb, ◌==◌, if◌then◌else◌, Option, none, some, List, [], ◌∷◌, ◌++◌, arith, if_intro,
}
use rapidbench.Storage.Types.{StorageIoMode, k_buffered_compatibility}
use rapidbench.Storage.Tests.{is_direct}
use rapidbench.Storage.Blocks.{choose_file_mi_b, k_sequential_block}
use rapidbench.Storage.Prepare.{
  FileSystem, Written, wrote, unsupported, broken, open_file, Blocks, all_written, write_failed,
  write_stopped, after_write, after_blocks, after_open, write_exhausted, write_blocks, write_fuel,
  Preparation, file_ready, file_failed, open_and_prepare_raw_file,
}

-- The offsets of n blocks, from the i-th on.
unfoldable pub block_offsets : ℕ → ℕ → List ℕ
block_offsets i zero = []
block_offsets i (suc n) = (i * 1048576) ∷ block_offsets (i + 1) n

-- The loop has an end, and where it succeeds the file holds every block, in order.
abbrev IsWhole : FileSystem → ℕ → Blocks → Type 0
IsWhole fs mib (all_written mode alignment file) = file ≡ block_offsets 0 mib
IsWhole fs mib (write_failed error) = Unit {0}
IsWhole fs mib write_stopped = (k : ℕ) × (fs.stop_requested k ≡ true)
IsWhole fs mib write_exhausted = ⊥

block_offsets-append :
    (i n k : ℕ) → k ≡ i + n → block_offsets i n ++ (k * 1048576 ∷ []) ≡ block_offsets i (suc n)
unfolding block_offsets
block_offsets-append i zero k e = let f : k ≡ i = omega arith in ap (λ m. m * 1048576 ∷ []) f
block_offsets-append i (suc n) k e =
    ap (◌∷◌ (i * 1048576)) (block_offsets-append (i + 1) n k (omega arith))

after_write-IsWhole :
    (fs : FileSystem) (mib : ℕ) (x : Written) (mode : StorageIoMode) (onward again : Blocks)
    → IsWhole fs mib onward
    → (is_direct mode ≡ true → IsWhole fs mib again)
    → IsWhole fs mib (after_write x fs mode onward again)
unfolding after_write
after_write-IsWhole fs mib wrote mode onward again o a = o
after_write-IsWhole fs mib unsupported mode onward again o a =
    if_intro (IsWhole fs mib) (is_direct mode) _ _
      (λ d.
        if_intro (IsWhole fs mib) (not fs.reopens || not fs.retruncates) _ _ (λ f. tt) (λ f. a d))
      (λ d. tt)
after_write-IsWhole fs mib broken mode onward again o a = tt

-- Rounds that may still come: those to the end, and all over again while the mode is direct.
abbrev rounds : StorageIoMode → ℕ → ℕ
rounds mode mib = if is_direct mode then mib + 1 else 0

direct-rounds : (mode : StorageIoMode) (mib : ℕ) → is_direct mode ≡ true → rounds mode mib ≡ mib + 1
direct-rounds mode mib d = rw d refl

write_blocks-IsWhole :
    (fs : FileSystem) (fuel round mib i n : ℕ) (mode : StorageIoMode) (alignment : ℕ)
    (file : List ℕ)
    → mib ≤ 512
    → i + n ≡ mib
    → n + rounds mode mib < fuel
    → file ≡ block_offsets 0 i
    → IsWhole fs mib (write_blocks fs fuel round (mib * 1048576) mode alignment (i * 1048576) file)
unfolding write_blocks
write_blocks-IsWhole fs zero round mib i n mode alignment file b e h w = absurd (omega arith)
write_blocks-IsWhole fs (suc fuel) round mib i n mode alignment file b e h w =
    if_intro (IsWhole fs mib) (not (ltb (i * 1048576) (mib * 1048576))) _ _
      (λ none_left. let done : i ≡ mib = ground arith in w ∙ ap (block_offsets 0) done)
      (λ more.
        let below : i < mib = ground arith in
        let next : (i * 1048576 + k_sequential_block) % 2 ^ 64 ≡ suc i * 1048576 = omega arith in
        let anew : (2 ^ 64 - k_sequential_block + k_sequential_block) % 2 ^ 64 ≡ 0 * 1048576 =
          omega arith in
        let onward =
          write_blocks-IsWhole fs fuel (round + 1) mib (suc i) (n - 1) mode alignment
            (file ++ (i * 1048576 ∷ [])) b (omega arith) (omega arith)
            (ap (λ l. l ++ (i * 1048576 ∷ [])) w ∙ block_offsets-append 0 i i (omega arith)) in
        if_intro (IsWhole fs mib) (fs.stop_requested round) _ _ (λ stopped. (round, stopped))
          (λ on.
            after_write-IsWhole fs mib (fs.pwrite round (i * 1048576)) mode _ _
              (subst
                (λ o. IsWhole fs mib (
                  write_blocks fs fuel (round + 1) (mib * 1048576) mode alignment o
                    (file ++ (i * 1048576 ∷ []))))
                (sym next) onward)
              (λ d.
                subst
                  (λ o. IsWhole fs mib (
                    write_blocks fs fuel (round + 1) (mib * 1048576) k_buffered_compatibility 4096 o
                      []))
                  (sym anew)
                  (write_blocks-IsWhole fs fuel (round + 1) mib 0 mib k_buffered_compatibility 4096
                    [] b (omega arith) (omega (arith, direct-rounds mode mib d))
                    (unfold block_offsets in refl)))))

-- What a preparation has come to: a file of 16 to 512 mebibytes that holds every block, a stop, or an
-- error.
abbrev pub IsPrepared : FileSystem → Preparation → Type 0
IsPrepared fs (file_ready size mode alignment file) =
    (mib : ℕ) × (16 ≤ mib) × (mib ≤ 512) × (size ≡ mib * 1048576) × (file ≡ block_offsets 0 mib)
IsPrepared fs (file_failed none) = (k : ℕ) × (fs.stop_requested k ≡ true)
IsPrepared fs (file_failed (some error)) = Unit {0}

choose_file_mi_b-bounds :
    (info : Option (ℕ × ℕ)) (o : ℕ)
    → (choose_file_mi_b info o == 0) ≡ false
    → (16 ≤ choose_file_mi_b info o) × (choose_file_mi_b info o ≤ 512)
unfolding choose_file_mi_b
choose_file_mi_b-bounds none o e = ground arith
choose_file_mi_b-bounds (some (bavail, frsize)) o e = ground arith

after_blocks-IsPrepared :
    (fs : FileSystem) (mib : ℕ) (blocks : Blocks)
    → 16 ≤ mib
    → mib ≤ 512
    → IsWhole fs mib blocks
    → IsPrepared fs (after_blocks fs (mib * 1048576) blocks)
unfolding after_blocks
after_blocks-IsPrepared fs mib (all_written m a file) b c w =
    if_intro (IsPrepared fs) fs.syncs _ _ (λ s. (mib, b, c, refl, w)) (λ s. tt)
after_blocks-IsPrepared fs mib (write_failed error) b c w = tt
after_blocks-IsPrepared fs mib write_stopped b c w = w
after_blocks-IsPrepared fs mib write_exhausted b c w = absurd w

few_rounds : (mode : StorageIoMode) (mib : ℕ) → rounds mode mib ≤ mib + 1
few_rounds mode mib = ground arith

zero_block : 0 * 1048576 ≡ 0
zero_block = refl

after_open-IsPrepared :
    (fs : FileSystem) (mib : ℕ) (opened : Option (StorageIoMode × ℕ))
    → 16 ≤ mib
    → mib ≤ 512
    → IsPrepared fs (after_open fs mib opened)
unfolding after_open
after_open-IsPrepared fs mib none b c = tt
after_open-IsPrepared fs mib (some (mode, alignment)) b c =
    let whole =
      write_blocks-IsWhole fs (write_fuel mib) 0 mib 0 mib mode alignment [] c (omega arith)
        (omega (arith, few_rounds mode mib)) (unfold block_offsets in refl) in
    if_intro (IsPrepared fs) (not fs.allocates) _ _ (λ a. tt)
      (λ a.
        if_intro (IsPrepared fs) (not fs.truncates) _ _ (λ t. tt)
          (λ t. after_blocks-IsPrepared fs mib _ b c (
            subst
              (λ o.
                IsWhole fs mib
                  (write_blocks fs (write_fuel mib) 0 (mib * 1048576) mode alignment o []))
              zero_block whole)))

-- OpenAndPrepareRawFile always comes to an end, even where the file refuses direct I/O half-way and
-- the loop begins anew: if it succeeds, the file has between 16 and 512 mebibytes and holds every
-- block, each written once since the file was last opened, in order; and it fails without an error
-- code only where the stop flag is set.
pub open_and_prepare_raw_file-IsPrepared :
    (fs : FileSystem) (file_size_mib_override : ℕ)
    → IsPrepared fs (open_and_prepare_raw_file fs file_size_mib_override)
unfolding open_and_prepare_raw_file
open_and_prepare_raw_file-IsPrepared fs o =
    if_intro (IsPrepared fs) (not fs.directory_made) _ _ (λ d. tt)
      (λ d.
        if_intro (IsPrepared fs) (choose_file_mi_b fs.statvfs o == 0) _ _ (λ z. tt)
          (λ z.
            let (low, high) = choose_file_mi_b-bounds fs.statvfs o z in
            after_open-IsPrepared fs (choose_file_mi_b fs.statvfs o) (open_file fs) low high))
