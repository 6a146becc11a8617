-- ===== src/Store/Mem/Blocks.antt =====
-- The in-memory device of src/store/mem.rs is a block device: `read_exact` and `write_all` are the loops
-- that `embedded_io` documents over `read` and `write`, which this device serves in one call.
use unifat.Prelude.{
  ℕ, zero, suc, ◌+◌, ◌-◌, ◌≤◌, ◌<◌, ◌≡◌, ◌≢◌, ◌⊎◌, inl, inr, refl, sym, ap, ◌∙◌, min, List, [], ◌∷◌,
  if◌then◌else◌, ltb, ◌==◌, length, take, drop, get_or, replicate, start, u64_max, Image, slice,
  overlay, overlay-nil, arith, ext, length-take, length-drop, length-slice, get_or-slice,
  get_or-take, get_or-drop, overlay_outside, overlay_inside, get_or_past, get_or-append,
  get_or-append_past, length-append, length-replicate, Bool-cases, dec_lt,
}
use mathlib.Core.Path.{fun_ext}
use unifat.Error.{Result, ok, err, abort, ReadExactError, unexpected_eof}
use unifat.Store.Device.{BlockDevice}
use unifat.Store.Cache.{copy_at}
use unifat.Store.Access.Copies.{get_or-copy_at}
use unifat.Store.Mem.{MemBlockDevice, MemError, mem_error, read, write, seek, resize}

-- Past the end of the data the image is zero: a growing write fills the gap with zeros.
abbrev pub mem_image : MemBlockDevice → Image
mem_image d o = get_or d.bytes o 0

unfoldable pub mem_seek : ℕ → MemBlockDevice → MemBlockDevice × Result MemError (Unit {0})
unfolding seek
mem_seek n d = ((seek (start n) d).0, ok tt)

unfoldable pub mem_read_exact :
    ℕ → MemBlockDevice → MemBlockDevice × Result (ReadExactError MemError) (List ℕ)
unfolding read
mem_read_exact n d =
    let (d', bytes) = read n d in
    if length bytes == n then (d', ok bytes) else (d', err unexpected_eof)

ended : MemBlockDevice × Result MemError ℕ → MemBlockDevice × Result MemError (Unit {0})
ended (d, ok n) = (d, ok tt)
ended (d, err e) = (d, err e)
ended (d, abort) = (d, abort)

unfoldable pub mem_write_all : List ℕ → MemBlockDevice → MemBlockDevice × Result MemError (Unit {0})
unfolding write ended
mem_write_all [] d = (d, ok tt)
mem_write_all (b ∷ buf) d = ended (write (b ∷ buf) d)

pub take-drop-image :
    (bytes : List ℕ) (p n : ℕ)
    → p + n ≤ length bytes
    → take n (drop p bytes) ≡ slice (λ o. get_or bytes o 0) p n
take-drop-image bytes p n h =
    ext _ _ 0
      (omega (
        arith,
        length-take n (drop p bytes),
        length-drop p bytes,
        length-slice (λ o. get_or bytes o 0) p n,
      ))
      (λ i hi.
        let lt : i < n = omega (arith, length-take n (drop p bytes)) in
        get_or-take n (drop p bytes) i 0 lt
        ∙ get_or-drop p bytes i 0
        ∙ sym (get_or-slice (λ o. get_or bytes o 0) p n i 0 lt))

mem_read-cases :
    (n : ℕ) (d : MemBlockDevice) {bs : List ℕ}
    → (mem_read_exact n d).1 ≡ ok bs
    → (n ≡ 0) × (bs ≡ []) ⊎ (d.pos + n ≤ length d.bytes) × (bs ≡ take n (drop d.pos d.bytes))
unfolding mem_read_exact
mem_read-cases n d h =
    let k = min n (length d.bytes - d.pos) in
    ground (arith, length-take k (drop d.pos d.bytes), length-drop d.pos d.bytes)

pub mem_read-bytes :
    (n : ℕ) (d : MemBlockDevice) {bs : List ℕ}
    → (mem_read_exact n d).1 ≡ ok bs
    → bs ≡ slice (mem_image d) d.pos n
unfolding slice
mem_read-bytes n d h = elim (mem_read-cases n d h) [
  | inl (none_read, e) ↦ rw none_read e
  | inr (fits, e) ↦ e ∙ take-drop-image d.bytes d.pos n fits
]

get_or-replicate : (n i : ℕ) → get_or {A = ℕ} (replicate n 0) i 0 ≡ 0
get_or-replicate zero i = refl
get_or-replicate (suc n) zero = refl
get_or-replicate (suc n) (suc i) = get_or-replicate n i

length-resize : (bytes : List ℕ) (e : ℕ) → length bytes ≤ e → length (resize bytes e) ≡ e
unfolding resize
length-resize bytes e h = omega (
  arith,
  length-append bytes (replicate (e - length bytes) 0),
  length-replicate {0} {A = ℕ} (e - length bytes) 0,
)

resize-image : (bytes : List ℕ) (e o : ℕ) → get_or (resize bytes e) o 0 ≡ get_or bytes o 0
unfolding resize
resize-image bytes e o = elim (dec_lt o (length bytes)) [
  | yes h ↦ get_or-append bytes _ o 0 h
  | no h ↦
      get_or-append_past bytes _ o 0 (omega arith)
      ∙ get_or-replicate (e - length bytes) (o - length bytes)
      ∙ sym (get_or_past bytes o 0 (omega arith))
]

copy_at-image :
    (bytes src : List ℕ) (w : ℕ)
    → w + length src ≤ length bytes
    → (λ o. get_or (copy_at bytes w src) o 0) ≡ overlay (λ o. get_or bytes o 0) w src
copy_at-image bytes src w h = fun_ext (λ o. elim (get_or-copy_at bytes src w o h) [
  | inl (lo, e) ↦ e ∙ sym (overlay_outside _ w src o (inl lo))
  | inr (inl (lo, hi, e)) ↦ e ∙ sym (overlay_inside _ w src o 0 lo hi)
  | inr (inr (hi, e)) ↦ e ∙ sym (overlay_outside _ w src o (inr hi))
])

-- What a write does: all the bytes, with zeros in a gap before them, or nothing.
pub mem_write-cases :
    (buf : List ℕ) (d : MemBlockDevice)
    → ((write buf d).1 ≡ err mem_error) × ((write buf d).0 ≡ d)
      ⊎ ((write buf d).1 ≡ ok (length buf))
        × (mem_image (write buf d).0 ≡ overlay (mem_image d) d.pos buf)
unfolding write
mem_write-cases buf d = elim (Bool-cases (ltb u64_max (d.pos + length buf))) [
  | inl far ↦ rw far (inl (refl, refl))
  | inr near ↦ elim (Bool-cases (ltb (length d.bytes) (d.pos + length buf))) [
    | inl past ↦ elim (Bool-cases d.fixed) [
      | inl hard ↦ rw (near, past, hard) (inl (refl, refl))
      | inr grows ↦ rw (near, past, grows) (inr (refl, grown (ground arith)))
    ]
    | inr within ↦ rw (near, within) (inr (refl, copy_at-image d.bytes buf d.pos (ground arith)))
  ]
]
  where
    whole : List ℕ
    whole = resize d.bytes (d.pos + length buf)

    grown :
        length d.bytes ≤ d.pos + length buf
        → (λ o. get_or (copy_at whole d.pos buf) o 0) ≡ overlay (mem_image d) d.pos buf
    grown le =
        copy_at-image whole buf d.pos (omega (arith, length-resize d.bytes (d.pos + length buf)))
        ∙ ap (λ f. overlay f d.pos buf) (fun_ext (λ o. resize-image d.bytes (d.pos + length buf) o))

mem_write_all-cases :
    (buf : List ℕ) (d : MemBlockDevice)
    → ((mem_write_all buf d).1 ≡ err mem_error) × ((mem_write_all buf d).0 ≡ d)
      ⊎ ((mem_write_all buf d).1 ≡ ok tt)
        × (mem_image (mem_write_all buf d).0 ≡ overlay (mem_image d) d.pos buf)
unfolding mem_write_all
mem_write_all-cases [] d = inr (refl, sym (overlay-nil (mem_image d) d.pos))
mem_write_all-cases (b ∷ buf) d = go (write (b ∷ buf) d) (mem_write-cases (b ∷ buf) d)
  where
    go :
        (q : MemBlockDevice × Result MemError ℕ)
        → (q.1 ≡ err mem_error) × (q.0 ≡ d)
          ⊎ (q.1 ≡ ok (length (b ∷ buf))) × (mem_image q.0 ≡ overlay (mem_image d) d.pos (b ∷ buf))
        → ((ended q).1 ≡ err mem_error) × ((ended q).0 ≡ d)
          ⊎ ((ended q).1 ≡ ok tt) × (mem_image (ended q).0 ≡ overlay (mem_image d) d.pos (b ∷ buf))
    go (d', ok n) (inl (x, y)) = cc
    go (d', ok n) (inr (x, y)) = inr (refl, y)
    go (d', err mem_error) (inl (x, y)) = inl (refl, y)
    go (d', err mem_error) (inr (x, y)) = cc
    go (d', abort) (inl (x, y)) = cc
    go (d', abort) (inr (x, y)) = cc

pub mem_seek-cursor :
    (n : ℕ) (d : MemBlockDevice) {u : Unit {0}} → (mem_seek n d).1 ≡ ok u → (mem_seek n d).0.pos ≡ n
unfolding mem_seek
mem_seek-cursor n d h = refl

pub mem_seek-image : (n : ℕ) (d : MemBlockDevice) → mem_image (mem_seek n d).0 ≡ mem_image d
unfolding mem_seek
mem_seek-image n d = refl

pub mem_seek-returns : (n : ℕ) (d : MemBlockDevice) → (mem_seek n d).1 ≢ abort
unfolding mem_seek
mem_seek-returns n d h = cc

pub mem_read-image : (n : ℕ) (d : MemBlockDevice) → mem_image (mem_read_exact n d).0 ≡ mem_image d
unfolding mem_read_exact
mem_read-image n d =
    ap (λ bs. λ o. get_or bs o 0)
      (let e : (mem_read_exact n d).0.bytes ≡ d.bytes = ground arith in e)

pub mem_read-returns : (n : ℕ) (d : MemBlockDevice) → (mem_read_exact n d).1 ≢ abort
unfolding mem_read_exact
mem_read-returns n d h = ground arith

pub mem_write_all-image :
    (bs : List ℕ) (d : MemBlockDevice) {u : Unit {0}}
    → (mem_write_all bs d).1 ≡ ok u
    → mem_image (mem_write_all bs d).0 ≡ overlay (mem_image d) d.pos bs
mem_write_all-image bs d h = elim (mem_write_all-cases bs d) [ inl (e, _) ↦ cc | inr (_, e) ↦ e ]

pub mem_write_all-outside :
    (bs : List ℕ) (d : MemBlockDevice) (o : ℕ)
    → (o < d.pos) ⊎ (d.pos + length bs ≤ o)
    → mem_image (mem_write_all bs d).0 o ≡ mem_image d o
mem_write_all-outside bs d o out = elim (mem_write_all-cases bs d) [
  | inl (_, e) ↦ ap (λ x. mem_image x o) e
  | inr (_, e) ↦ ap (λ f. f o) e ∙ overlay_outside (mem_image d) d.pos bs o out
]

pub mem_write_all-returns : (bs : List ℕ) (d : MemBlockDevice) → (mem_write_all bs d).1 ≢ abort
mem_write_all-returns bs d h = elim (mem_write_all-cases bs d) [ inl (e, _) ↦ cc | inr (e, _) ↦ cc ]

abbrev pub mem_flush : MemBlockDevice → MemBlockDevice × Result MemError (Unit {0})
mem_flush d = (d, ok tt)

pub mem_flush-returns : (d : MemBlockDevice) → (mem_flush d).1 ≢ abort
mem_flush-returns d h = cc

-- The in-memory device meets what the cache relies on.
abbrev pub mem_blocks : BlockDevice
mem_blocks = record {
  Dev = MemBlockDevice;
  Io = MemError;
  image = mem_image;
  cursor = λ d. d.pos;
  seek = mem_seek;
  read_exact = mem_read_exact;
  write_all = mem_write_all;
  flush = mem_flush;
  seek-cursor = mem_seek-cursor;
  seek-image = mem_seek-image;
  read_exact-bytes = mem_read-bytes;
  read_exact-image = mem_read-image;
  write_all-image = mem_write_all-image;
  write_all-outside = mem_write_all-outside;
  flush-image = λ d. refl;
  seek-returns = mem_seek-returns;
  read_exact-returns = mem_read-returns;
  write_all-returns = mem_write_all-returns;
  flush-returns = mem_flush-returns;
}
