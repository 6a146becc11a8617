-- ===== src/Exfat/Bitmap/Ranges.antt =====
-- What marking a range of clusters does to the bitmap, one cluster after the other.
use unifat.Prelude.{
  false, u32_max, ◌^◌, ltb, ℕ, zero, suc, ◌+◌, ◌≤◌, ◌<◌, ◌≡◌, ◌≢◌, ◌⊎◌, inl, inr, refl, sym, ap,
  ◌∙◌, subst, arith, true, Bool-cases, ◌==◌, Image,
}
use unifat.Error.{ok, err, abort, FsResult, and_then}
use unifat.Store.Device.{BlockDevice}
use unifat.Store.Cache.Refill.{Stands}
use unifat.Exfat.Volume.{ExfatVfs}
use unifat.Exfat.Volume.Synced.{Touched}
use unifat.Exfat.Bitmap.{
  bitmap_base, mark_cluster_allocated, mark_cluster_free, mark_cluster_range_allocated, free_run,
  free_cluster_chain,
}
use unifat.Exfat.Bitmap.Search.{IsMounted, cluster_bit}
use unifat.Exfat.Bitmap.Marks.{
  BitTo, IsApart, Others, mark_cluster_allocated-BitTo, mark_cluster_free-BitTo,
}

module _ (D : BlockDevice) where
  open D use {Io}

  -- The bits of the clusters of the range are `t`.
  abbrev pub AllBits : ExfatVfs D → Image → ℕ → ℕ → ℕ → Type 0
  AllBits v h first n t = (m : ℕ) → first ≤ m → m < first + n → cluster_bit D v h m ≡ t

  -- The bits of the clusters outside the range are as they were.
  abbrev pub OutsideKept : ExfatVfs D → Image → Image → ℕ → ℕ → Type 0
  OutsideKept v f h first n =
      (m : ℕ) → 2 ≤ m → (m < first) ⊎ (first + n ≤ m) → cluster_bit D v h m ≡ cluster_bit D v f m

  abbrev pub RangeTo : ExfatVfs D → Image → ℕ → ℕ → ℕ → ExfatVfs D × FsResult Io (Unit {0}) → Type 0
  RangeTo v f first n t (v', ok _) =
      (h : Image) × Stands D v'.cache h
      × Touched D v v'
      × AllBits v h first n t
      × OutsideKept v f h first n
  RangeTo v f first n t (v', err e) =
      (h : Image) × Stands D v'.cache h × Touched D v v' × OutsideKept v f h first n
  RangeTo v f first n t (v', abort) = ⊥

  -- The first cluster of a range, and the rest of it.
  RangeTo-step :
      (v : ExfatVfs D) (f h : Image) (first n t : ℕ)
      → 2 ≤ first
      → cluster_bit D v h first ≡ t
      → Others D v f h first
      → (q : ExfatVfs D × FsResult Io (Unit {0})) → RangeTo v h (first + 1) n t q
      → RangeTo v f first (suc n) t q
  RangeTo-step v f h first n t two here others (v', ok u) (h', s, touched, all, kept) = (
    h',
    s,
    touched,
    λ m lo hi. elim (Bool-cases (m == first)) [
      | inl same ↦
          let e : m ≡ first = ground arith in
          ap (cluster_bit D v h') e ∙ kept first two (inl (omega arith)) ∙ here
      | inr later ↦ all m (ground arith) (omega arith)
    ],
    λ m lo out. kept m lo (wider m out) ∙ others m lo (apart m out),
  )
    where
      wider : (m : ℕ) → (m < first) ⊎ (first + suc n ≤ m) → (m < first + 1) ⊎ (first + 1 + n ≤ m)
      wider m (inl under) = inl (omega arith)
      wider m (inr past) = inr (omega arith)

      apart : (m : ℕ) → (m < first) ⊎ (first + suc n ≤ m) → m ≢ first
      apart m (inl under) e = absurd (omega arith)
      apart m (inr past) e = absurd (omega arith)
  RangeTo-step v f h first n t two here others (v', err x) (h', s, touched, kept) =
      (h', s, touched, λ m lo out. kept m lo (wider m out) ∙ others m lo (apart m out))
    where
      wider : (m : ℕ) → (m < first) ⊎ (first + suc n ≤ m) → (m < first + 1) ⊎ (first + 1 + n ≤ m)
      wider m (inl under) = inl (omega arith)
      wider m (inr past) = inr (omega arith)

      apart : (m : ℕ) → (m < first) ⊎ (first + suc n ≤ m) → m ≢ first
      apart m (inl under) e = absurd (omega arith)
      apart m (inr past) e = absurd (omega arith)
  RangeTo-step v f h first n t two here others (v', abort) none_left = none_left

  -- A range of no cluster.
  RangeTo-nil :
      (v : ExfatVfs D) {f : Image} (first t : ℕ)
      → Stands D v.cache f
      → RangeTo v f first 0 t (v, ok tt)
  RangeTo-nil v {f} first t r = (f, r, refl, λ m lo hi. absurd (omega arith), λ m lo out. refl)

  -- A loop over the clusters of a range that marks one in a round.
  module _ (mark : ExfatVfs D → ℕ → ExfatVfs D × FsResult Io (Unit {0}))
      (each : ExfatVfs D → ℕ → ℕ → ExfatVfs D × FsResult Io (Unit {0})) (t : ℕ)
      (marks : (v : ExfatVfs D) (f : Image) (cluster : ℕ)
        → IsMounted D v
        → IsApart D v
        → Stands D v.cache f
        → BitTo D v f cluster t (mark v cluster))
      (each-nil : (v : ExfatVfs D) (first : ℕ) → each v first 0 ≡ (v, ok tt))
      (each-step : (v : ExfatVfs D) (first n : ℕ)
        → first < 2 ^ 32
        → each v first (suc n) ≡ and_then (mark v first) (λ v' _. each v' (first + 1) n)) where
    each-RangeTo :
        (n : ℕ) (v : ExfatVfs D) (f : Image) (first : ℕ)
        → IsMounted D v
        → IsApart D v
        → 2 ≤ first
        → first + n ≤ 2 ^ 32
        → Stands D v.cache f
        → RangeTo v f first n t (each v first n)
    unfolding cluster_bit bitmap_base
    each-RangeTo zero v f first m low two fits r = rw (each-nil v first) (RangeTo-nil v first t r)
    each-RangeTo (suc n) v f first m low two fits r = rw (each-step v first n (omega arith)) (
        go (mark v first) (marks v f first m low r) (λ v' h e s.
          subst (λ x. RangeTo v h (first + 1) n t (each x (first + 1) n)) (sym e)
            (each-RangeTo n (record v { cache = v'.cache; volume_dirty = v'.volume_dirty }) h
              (first + 1) m low (omega arith) (omega arith) s)))
      where
        go :
            (q : ExfatVfs D × FsResult Io (Unit {0}))
            → BitTo D v f first t q
            → ((v' : ExfatVfs D) (h : Image)
                → Touched D v v'
                → Stands D v'.cache h
                → RangeTo v h (first + 1) n t (each v' (first + 1) n))
            → RangeTo v f first (suc n) t (and_then q (λ v' _. each v' (first + 1) n))
        go (v', ok u) (h, s, touched, marked, lo, inside, here, others) rest =
            RangeTo-step v f h first n t two here others (each v' (first + 1) n)
              (rest v' h touched s)
        go (v', err x) (h, s, touched, others) rest =
            (h, s, touched, λ k lo out. others k lo (apart k out))
          where
            apart : (k : ℕ) → (k < first) ⊎ (first + suc n ≤ k) → k ≢ first
            apart k (inl under) e = absurd (omega arith)
            apart k (inr past) e = absurd (omega arith)
        go (v', abort) none_left rest = none_left

  -- On a mounted exFAT volume whose heap lies after the mutable fields of the boot record and whose
  -- sector cache stands for an image, marking a range of clusters as allocated, which starts at 2 at
  -- least and ends at 2^32 at most, if it succeeds, sets the bit of each cluster of the range and
  -- changes no other bit of a cluster. Where it fails, no bit of a cluster outside the range has
  -- changed. It ends, and does not panic.
  pub mark_cluster_range_allocated-RangeTo :
      (v : ExfatVfs D) {f : Image} (first n : ℕ)
      → IsMounted D v
      → IsApart D v
      → 2 ≤ first
      → first + n ≤ 2 ^ 32
      → Stands D v.cache f
      → RangeTo v f first n 1 (mark_cluster_range_allocated D v first n)
  unfolding mark_cluster_range_allocated
  mark_cluster_range_allocated-RangeTo v {f} first n m low two fits r =
      each-RangeTo (mark_cluster_allocated D) (mark_cluster_range_allocated D) 1
        (λ w g cluster m' low' r'. mark_cluster_allocated-BitTo D w cluster m' low' r')
        (λ w k. refl)
        (λ w k j lt. let small : ltb u32_max k ≡ false = ground arith in rw small refl) n v f first
        m low two fits r

  -- On a mounted exFAT volume whose heap lies after the mutable fields of the boot record and whose
  -- sector cache stands for an image, the release of a contiguous run of clusters, which starts at 2
  -- at least and ends at 2^32 at most, if it succeeds, clears the bit of each cluster of the run and
  -- changes no other bit of a cluster. Where it fails, no bit of a cluster outside the run has
  -- changed. It ends, and does not panic.
  pub free_cluster_chain-RangeTo :
      (v : ExfatVfs D) {f : Image} (first n : ℕ)
      → IsMounted D v
      → IsApart D v
      → 2 ≤ first
      → first + n ≤ 2 ^ 32
      → Stands D v.cache f
      → RangeTo v f first n 0 (free_cluster_chain D v first n true)
  unfolding free_cluster_chain free_run
  free_cluster_chain-RangeTo v {f} first n m low two fits r =
      each-RangeTo (mark_cluster_free D) (free_run D) 0
        (λ w g cluster m' low' r'. mark_cluster_free-BitTo D w cluster m' low' r') (λ w k. refl)
        (λ w k j lt. let small : ltb u32_max k ≡ false = ground arith in rw small refl) n v f first
        m low two fits r
