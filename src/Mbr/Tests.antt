-- ===== src/Mbr/Tests.antt =====
-- A partition of the in-memory device, and the theorems on it.
use unifat.Prelude.{
  ℕ, ◌+◌, ◌-◌, ◌≤◌, ◌<◌, ◌≡◌, ◌⊎◌, inl, inr, refl, sym, ap, ◌∙◌, arith, true, List, [], ◌∷◌,
  replicate, length, take, slice, overlay, overlay_outside, Bool-cases, leb, drop, length-drop,
  get_or, ◌≢◌, length-take, min,
}
use unifat.Error.{Result, ok, abort}
use unifat.Store.Mem.{MemBlockDevice, MemError, read, write}
use unifat.Store.Mem.Blocks.{
  mem_image, mem_seek, mem_seek-cursor, mem_seek-image, mem_seek-returns, mem_write-cases,
  take-drop-image,
}
use unifat.Mbr.{Storage, Partition, part_read, part_write, on_inner}
use unifat.Mbr.Window.{WindowRead, WindowWritten, part_read-window, part_write-window}

take-all : (xs : List ℕ) → take (length xs) xs ≡ xs
take-all [] = refl
take-all (x ∷ xs) = ap (◌∷◌ x) (take-all xs)

mem_fetch : ℕ → MemBlockDevice → MemBlockDevice × Result MemError (List ℕ)
unfolding read
mem_fetch n d = let (d', bytes) = read n d in (d', ok bytes)

mem_fetch-image : (n : ℕ) (d : MemBlockDevice) → mem_image (mem_fetch n d).0 ≡ mem_image d
unfolding mem_fetch read
mem_fetch-image n d =
    ap (λ bs. λ o. get_or bs o 0) (let e : (mem_fetch n d).0.bytes ≡ d.bytes = ground arith in e)

mem_fetch-bytes :
    (n : ℕ) (d : MemBlockDevice) {bs : List ℕ}
    → (mem_fetch n d).1 ≡ ok bs
    → (length bs ≤ n) × (bs ≡ slice (mem_image d) d.pos (length bs))
unfolding mem_fetch read
mem_fetch-bytes n d {bs} h = elim (Bool-cases (leb (length d.bytes) d.pos)) [
  | inl past ↦ let e : bs ≡ [] = ground arith in rw e (omega arith, unfold slice in refl)
  | inr near ↦
      let k = min n (length d.bytes - d.pos) in
      let e : bs ≡ take k (drop d.pos d.bytes) = ground arith in
      let len : length bs ≡ k =
        ap length e
        ∙ omega (arith, length-take k (drop d.pos d.bytes), length-drop d.pos d.bytes) in
      (
        omega arith,
        e
            ∙ take-drop-image d.bytes d.pos k (ground arith)
            ∙ ap (slice (mem_image d) d.pos) (sym len),
      )
]

mem_fetch-returns : (n : ℕ) (d : MemBlockDevice) → (mem_fetch n d).1 ≢ abort
unfolding mem_fetch
mem_fetch-returns n d h = cc

mem_write-image :
    (buf : List ℕ) (d : MemBlockDevice) {n : ℕ}
    → (write buf d).1 ≡ ok n
    → (n ≤ length buf) × (mem_image (write buf d).0 ≡ overlay (mem_image d) d.pos (take n buf))
mem_write-image buf d {n} h = elim (mem_write-cases buf d) [
  | inl (e, _) ↦ cc
  | inr (e, image) ↦
      let all : n ≡ length buf = cc in
      (
        omega arith,
        image
            ∙ ap (overlay (mem_image d) d.pos)
                (sym (take-all buf) ∙ ap (λ k. take k buf) (sym all)),
      )
]

mem_write-outside :
    (buf : List ℕ) (d : MemBlockDevice) (o : ℕ)
    → (o < d.pos) ⊎ (d.pos + length buf ≤ o)
    → mem_image (write buf d).0 o ≡ mem_image d o
mem_write-outside buf d o out = elim (mem_write-cases buf d) [
  | inl (_, e) ↦ ap (λ x. mem_image x o) e
  | inr (_, e) ↦ ap (λ f. f o) e ∙ overlay_outside (mem_image d) d.pos buf o out
]

mem_write-returns : (buf : List ℕ) (d : MemBlockDevice) → (write buf d).1 ≢ abort
mem_write-returns buf d h = elim (mem_write-cases buf d) [ inl (e, _) ↦ cc | inr (e, _) ↦ cc ]

abbrev mem_storage : Storage
mem_storage = record {
  Dev = MemBlockDevice;
  Io = MemError;
  image = mem_image;
  cursor = λ d. d.pos;
  seek = mem_seek;
  read = mem_fetch;
  write = write;
  flush = λ d. (d, ok tt);
  seek-cursor = mem_seek-cursor;
  seek-image = mem_seek-image;
  read-bytes = mem_fetch-bytes;
  read-image = mem_fetch-image;
  write-image = mem_write-image;
  write-outside = mem_write-outside;
  seek-returns = mem_seek-returns;
  read-returns = mem_fetch-returns;
  write-returns = mem_write-returns;
}

-- The bytes 8 to 15, at the seventh of them.
abbrev window : Partition mem_storage
window = record {
  inner = record { bytes = replicate 20 7; pos = 0; fixed = true };
  base = 8;
  len = 8;
  pos = 6;
}

part_read-window_example : WindowRead mem_storage window 5 (part_read mem_storage window 5)
part_read-window_example = part_read-window mem_storage window 5

part_write-window_example :
    WindowWritten mem_storage window
      (1 ∷ 2 ∷ 3 ∷ [])
      (part_write mem_storage window (1 ∷ 2 ∷ 3 ∷ []))
part_write-window_example = part_write-window mem_storage window (1 ∷ 2 ∷ 3 ∷ [])

-- The third byte would lie past the end: two are written.
clamped : (part_write mem_storage window (1 ∷ 2 ∷ 3 ∷ [])).1 ≡ ok 2
unfolding part_write on_inner mem_seek write
clamped = refl
