-- ===== src/Store/Access/Runs.antt =====
-- A fresh cache, and any sequence of calls on a cache of src/store/cache.rs, against the plain image that
-- the calls describe.
use unifat.Prelude.{
  ℕ, zero, suc, ◌+◌, ◌^◌, ◌≤◌, ◌<◌, ◌≡◌, refl, ap, ◌∙◌, false, some, List, [], ◌∷◌, arith, length,
  get_elem?, replicate, take, Image, slice, overlay, All, ◌++◌,
}
use unifat.Error.{ok, err, abort, FsResult, and_then}
use unifat.Store.Device.{BlockDevice}
use unifat.Store.Cache.{Slot, SectorCache, empty_sector, slots_len, new}
use unifat.Store.Cache.Refill.{Stands}
use unifat.Store.Access.{read_at, write_at, read_through, write_through, flush}
use unifat.Store.Access.Cached.{ReadTo, read_at-slice}
use unifat.Store.Access.Written.{WriteTo, write_at-overlay}
use unifat.Store.Access.Through.{
  ReadThrough, WriteThrough, FlushTo, read_through-slice, write_through-overlay, flush-image,
}

get_elem?-replicate {ℓ} :
    {A : Type ℓ} (n i : ℕ) (a : A) {b : A} → get_elem? (replicate n a) i ≡ some b → b ≡ a
get_elem?-replicate zero i a h = cc
get_elem?-replicate (suc n) zero a h = cc
get_elem?-replicate (suc n) (suc i) a h = get_elem?-replicate n i a h

length-replicate : (n a : ℕ) → length (replicate n a) ≡ n
length-replicate zero a = refl
length-replicate (suc n) a = ap suc (length-replicate n a)

-- A call, with the bytes that a write brings.
pub data Call : Type 0 where
  reads reads_through : ℕ → ℕ → Call
  writes writes_through : ℕ → List ℕ → Call
  flushes : Call

-- The call lies within 64 bits: a cached one computes the offset of each byte, and a direct one the end
-- of its range, offset + len, as a u64.
abbrev pub Fits : Call → Type 0
Fits (reads offset len) = offset + len ≤ 2 ^ 64
Fits (reads_through offset len) = offset + len < 2 ^ 64
Fits (writes offset buf) = offset + length buf ≤ 2 ^ 64
Fits (writes_through offset buf) = offset + length buf < 2 ^ 64
Fits flushes = Unit

-- What a call does to a plain image, and the bytes that it returns.
unfoldable pub ideal : Image → Call → Image × List ℕ
ideal f (reads offset len) = (f, slice f offset len)
ideal f (reads_through offset len) = (f, slice f offset len)
ideal f (writes offset buf) = (overlay f offset buf, [])
ideal f (writes_through offset buf) = (overlay f offset buf, [])
ideal f flushes = (f, [])

unfoldable pub ideal_run : Image → List Call → Image × List ℕ
unfolding ideal
ideal_run f [] = (f, [])
ideal_run f (call ∷ calls) =
    let (f1, bytes) = ideal f call in let (f2, more) = ideal_run f1 calls in (f2, bytes ++ more)

module _ (D : BlockDevice) where
  open D use {Dev, Io, image}

  returns_nothing : SectorCache D × FsResult Io (Unit {0}) → SectorCache D × FsResult Io (List ℕ)
  returns_nothing (c, ok _) = (c, ok [])
  returns_nothing (c, err e) = (c, err e)
  returns_nothing (c, abort) = (c, abort)

  unfoldable pub call_on : SectorCache D → Call → SectorCache D × FsResult Io (List ℕ)
  unfolding returns_nothing
  call_on c (reads offset len) = read_at D c offset len
  call_on c (reads_through offset len) = read_through D c offset len
  call_on c (writes offset buf) = returns_nothing (write_at D c offset buf)
  call_on c (writes_through offset buf) = returns_nothing (write_through D c offset buf)
  call_on c flushes = returns_nothing (flush D c)

  unfoldable pub run : SectorCache D → List Call → SectorCache D × FsResult Io (List ℕ)
  unfolding call_on
  run c [] = (c, ok [])
  run c (call ∷ calls) =
      and_then (call_on c call)
        (λ c' bytes. and_then (run c' calls) (λ c'' more. (c'', ok (bytes ++ more))))

  -- A new sector cache with sectors of more than one byte stands for the bytes of its device.
  pub new-Stands :
      (d : Dev) (sector_size : ℕ) → 1 < sector_size → Stands D (new D d sector_size) (image d)
  unfolding new
  new-Stands d sector_size wide = record {
    represents = record {
      sized =
          λ i s at. ap (λ (t : Slot). length t.buf) (vacant i at) ∙ length-replicate sector_size 0;
      cached = λ i s at held. absurd (held (ap (λ (t : Slot). t.sector) (vacant i at)));
      filled = λ i s at dirty.
          let clean : s.dirty ≡ false = ap (λ (t : Slot). t.dirty) (vacant i at) in cc;
      distinct =
          λ i j s t at at' same held. absurd (held (ap (λ (t : Slot). t.sector) (vacant i at)));
      on_device = λ o free. refl;
    };
    wide = wide;
    some_slot = omega arith;
  }
    where
      slot : Slot
      slot = record {
        sector = empty_sector;
        dirty = false;
        stamp = 0;
        buf = replicate sector_size 0;
      }

      vacant : (i : ℕ) {s : Slot} → get_elem? (replicate slots_len slot) i ≡ some s → s ≡ slot
      vacant i at = get_elem?-replicate slots_len i slot at

  abbrev pub CallTo : Image → Call → SectorCache D × FsResult Io (List ℕ) → Type 0
  CallTo f call (c, ok bs) = Stands D c (ideal f call).0 × (bs ≡ (ideal f call).1)
  CallTo f call (c, err e) = (g : Image) × Stands D c g
  CallTo f call (c, abort) = ⊥

  call_on-CallTo :
      (c : SectorCache D) {f : Image} (call : Call)
      → Stands D c f
      → Fits call
      → CallTo f call (call_on c call)
  unfolding call_on ideal
  call_on-CallTo c {f} (reads offset len) r fits =
      go (read_at D c offset len) (read_at-slice D c offset len r fits)
    where
      go :
          (q : SectorCache D × FsResult Io (List ℕ))
          → ReadTo D f offset len [] q
          → CallTo f (reads offset len) q
      go (c', ok bs) h = h
      go (c', err e) h = (f, h)
      go (c', abort) h = h
  call_on-CallTo c {f} (reads_through offset len) r fits =
      go (read_through D c offset len) (read_through-slice D c offset len r)
    where
      go :
          (q : SectorCache D × FsResult Io (List ℕ))
          → ReadThrough D f offset len q
          → CallTo f (reads_through offset len) q
      go (c', ok bs) h = h
      go (c', err e) h = (f, h)
      go (c', abort) h = h
  call_on-CallTo c {f} (writes offset buf) r fits =
      go (write_at D c offset buf) (write_at-overlay D c offset buf r fits)
    where
      go :
          (q : SectorCache D × FsResult Io (Unit {0}))
          → WriteTo D f offset buf q
          → CallTo f (writes offset buf) (returns_nothing q)
      go (c', ok u) h = (h, refl)
      go (c', err e) (k, le, h) = (overlay f offset (take k buf), h)
      go (c', abort) h = h
  call_on-CallTo c {f} (writes_through offset buf) r fits =
      go (write_through D c offset buf) (write_through-overlay D c offset buf r)
    where
      go :
          (q : SectorCache D × FsResult Io (Unit {0}))
          → WriteThrough D f offset buf q
          → CallTo f (writes_through offset buf) (returns_nothing q)
      go (c', ok u) h = (h, refl)
      go (c', err e) (g, same, h) = (g, h)
      go (c', abort) h = h
  call_on-CallTo c {f} flushes r fits = go (flush D c) (flush-image D c r)
    where
      go :
          (q : SectorCache D × FsResult Io (Unit {0}))
          → FlushTo D f q
          → CallTo f flushes (returns_nothing q)
      go (c', ok u) (h, same) = (h, refl)
      go (c', err e) h = (f, h)
      go (c', abort) h = h

  abbrev pub RunTo : Image → List Call → SectorCache D × FsResult Io (List ℕ) → Type 0
  RunTo f calls (c, ok bs) = Stands D c (ideal_run f calls).0 × (bs ≡ (ideal_run f calls).1)
  RunTo f calls (c, err e) = (g : Image) × Stands D c g
  RunTo f calls (c, abort) = ⊥

  -- Any sequence of calls of a sector cache, cached and direct reads and writes and flushes in any
  -- order, whose cached ranges end at 2^64 at most and whose direct ranges end below 2^64, and that
  -- starts from a cache standing for an image gives what the same calls give on a plain image: the
  -- bytes of each read are those of the image with the writes before it laid over it, and the cache at
  -- the end stands for that image. Where the device fails, the run ends with its error and the cache
  -- still stands for an image. No call panics or fails to end.
  pub run-ideal :
      (c : SectorCache D) {f : Image} (calls : List Call)
      → Stands D c f
      → All Fits calls
      → RunTo f calls (run c calls)
  unfolding run ideal_run
  run-ideal c [] r fits = (r, refl)
  run-ideal c {f} (call ∷ calls) r (fit, fits) =
      first (call_on c call) (call_on-CallTo c call r fit) (λ c' r'. run-ideal c' calls r' fits)
    where
      second :
          (bytes : List ℕ) (q : SectorCache D × FsResult Io (List ℕ))
          → bytes ≡ (ideal f call).1
          → RunTo (ideal f call).0 calls q
          → RunTo f (call ∷ calls) (and_then q (λ c'' more. (c'', ok (bytes ++ more))))
      second bytes (c', ok bs) e (r', e') =
          (r', ap (λ x. x ++ bs) e ∙ ap (λ x. (ideal f call).1 ++ x) e')
      second bytes (c', err x) e h = h
      second bytes (c', abort) e h = h

      first :
          (q : SectorCache D × FsResult Io (List ℕ))
          → CallTo f call q
          → ((c' : SectorCache D)
              → Stands D c' (ideal f call).0
              → RunTo (ideal f call).0 calls (run c' calls))
          → RunTo f (call ∷ calls) (
              and_then q
                (λ c' bytes. and_then (run c' calls) (λ c'' more. (c'', ok (bytes ++ more)))))
      first (c', ok bs) (r', e) ih = second bs (run c' calls) e (ih c' r')
      first (c', err x) h ih = h
      first (c', abort) h ih = absurd h
