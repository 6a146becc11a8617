-- ===== src/Exfat/Bitmap/Scanning.antt =====
-- The scan of a part of the bitmap for a run of free clusters: what it knows after each bit, byte and window.
use unifat.Prelude.{
  ℕ, zero, suc, ◌+◌, ◌-◌, ◌*◌, ◌≤◌, ◌<◌, ◌≡◌, ◌⊎◌, inl, inr, refl, sym, ap, ◌∙◌, subst, arith,
  false, Bool-cases, ltb, leb, ◌==◌, u32_max, Option, none, some, Image, slice,
}
use unifat.Exfat.Bitmap.{bit_of, Scan, joined, scan_bit, scan_on, scan_byte, scan_window}
use unifat.Exfat.Bitmap.Digits.{bit_of-small}
use unifat.Exfat.Bitmap.Bits.{bit_at, bit_at-byte}

-- The bits `bit` of the clusters, the number of the last cluster, and the length of the run that is sought.
module _ (bit : ℕ → ℕ) (last count : ℕ) where
  -- A run of free clusters.
  abbrev pub IsRun : ℕ → ℕ → Type 0
  IsRun start n = (m : ℕ) → start ≤ m → m < start + n → bit m ≡ 0

  -- No run that starts at a cluster ends at `past` or before: each has an allocated cluster.
  abbrev pub NoRun : ℕ → Type 0
  NoRun past =
      (s : ℕ) → 2 ≤ s → s + count ≤ past → (m : ℕ) × (s ≤ m) × (m < s + count) × (bit m ≡ 1)

  -- The scan before `cluster`: the run it is in starts at cluster 2 or after an allocated one.
  abbrev pub RunTo : ℕ → Option ℕ → ℕ → Type 0
  RunTo cluster none len =
      (len ≡ 0) × NoRun cluster × ((cluster ≡ 2) ⊎ ((2 < cluster) × (bit (cluster - 1) ≡ 1)))
  RunTo cluster (some start) len =
      (start + len ≡ cluster)
      × (2 ≤ start)
      × (0 < len)
      × (len < count)
      × IsRun start len
      × NoRun cluster
      × ((start ≡ 2) ⊎ ((2 < start) × (bit (start - 1) ≡ 1)))

  -- What a search finds: the first run, or none in the clusters up to the last.
  abbrev pub RunFound : Option ℕ → Type 0
  RunFound (some start) =
      (2 ≤ start) × (start + count ≤ last + 1) × IsRun start count × NoRun (start + count - 1)
  RunFound none = NoRun (last + 1)

  abbrev pub ScanTo : ℕ → Scan → Type 0
  ScanTo past (Scan.answer a) = RunFound a
  ScanTo past Scan.overflow = ⊥
  ScanTo past (Scan.run start len) = RunTo past start len

  -- A free cluster that is not the last of a run: the run started after an allocated one.
  NoRun-free :
      (cluster start len : ℕ)
      → start + len ≡ cluster
      → len + 1 < count
      → NoRun cluster
      → ((start ≡ 2) ⊎ ((2 < start) × (bit (start - 1) ≡ 1)))
      → NoRun (cluster + 1)
  NoRun-free cluster start len e short before edge s two fits =
      elim (Bool-cases (leb (s + count) cluster)) [
        | inl early ↦ before s two (ground arith)
        | inr late ↦ go edge (ground arith)
      ]
    where
      go :
          ((start ≡ 2) ⊎ ((2 < start) × (bit (start - 1) ≡ 1)))
          → s + count ≡ cluster + 1
          → (m : ℕ) × (s ≤ m) × (m < s + count) × (bit m ≡ 1)
      go (inl first) h = absurd (omega arith)
      go (inr (past, set)) h = (start - 1, omega arith, omega arith, set)

  NoRun-set : (cluster : ℕ) → 0 < count → bit cluster ≡ 1 → NoRun cluster → NoRun (cluster + 1)
  NoRun-set cluster some_wanted set before s two fits =
      elim (Bool-cases (leb (s + count) cluster)) [
        | inl early ↦ before s two (ground arith)
        | inr late ↦ (cluster, ground arith, ground arith, set)
      ]

  longer :
      (start len cluster : ℕ)
      → start + len ≡ cluster
      → IsRun start len
      → bit cluster ≡ 0
      → IsRun start (len + 1)
  longer start len cluster e run free m lo hi = elim (Bool-cases (ltb m (start + len))) [
    | inl inside ↦ run m lo (ground arith)
    | inr here ↦ ap bit {x = m} {y = cluster} (ground arith) ∙ free
  ]

  joined-ScanTo :
      (cluster : ℕ) (start : Option ℕ) (len : ℕ)
      → 0 < count
      → 2 ≤ cluster
      → cluster ≤ last
      → bit cluster ≡ 0
      → RunTo cluster start len
      → ScanTo (cluster + 1) (joined count cluster start len)
  joined-ScanTo cluster none len some_wanted two inside free (zero_len, before, edge) =
      elim (Bool-cases (1 == count)) [
        | inl enough ↦
            let one : 1 ≡ count = ground arith in
            rw enough (
              two,
              omega arith,
              λ m lo hi. ap bit {x = m} {y = cluster} (omega arith) ∙ free,
              λ s lo hi. before s lo (omega arith),
            )
        | inr more ↦ rw more (
          refl,
          two,
          omega arith,
          ground arith,
          λ m lo hi. ap bit {x = m} {y = cluster} (omega arith) ∙ free,
          NoRun-free cluster cluster 0 (omega arith) (ground arith) before edge,
          edge,
        )
      ]
  joined-ScanTo cluster (some start) len some_wanted two inside free
        (e, lo, some_len, short, run, before, edge) =
      elim (Bool-cases (len + 1 == count)) [
        | inl enough ↦
            let full : len + 1 ≡ count = ground arith in
            rw enough (
              lo,
              omega arith,
              λ m a b. longer start len cluster e run free m a (omega arith),
              λ s a b. before s a (omega arith),
            )
        | inr more ↦ rw more (
          omega arith,
          lo,
          omega arith,
          ground arith,
          longer start len cluster e run free,
          NoRun-free cluster start len e (ground arith) before edge,
          edge,
        )
      ]

  pub NoRun-RunTo :
      (cluster : ℕ) (start : Option ℕ) (len : ℕ) → RunTo cluster start len → NoRun cluster
  NoRun-RunTo cluster none len (e, before, edge) = before
  NoRun-RunTo cluster (some start) len (e, lo, some_len, short, run, before, edge) = before

  scan_bit-ScanTo :
      (cluster b : ℕ) (start : Option ℕ) (len : ℕ)
      → 0 < count
      → last ≤ u32_max
      → 2 ≤ cluster
      → b ≡ bit cluster
      → b < 2
      → RunTo cluster start len
      → ScanTo (cluster + 1) (scan_bit last count b cluster start len)
  unfolding scan_bit
  scan_bit-ScanTo cluster b start len some_wanted fits two is small to =
      elim (Bool-cases (ltb last cluster)) [
        | inl past ↦ rw past (λ s lo hi. NoRun-RunTo cluster start len to s lo (ground arith))
        | inr inside ↦
            let narrow : ltb u32_max cluster ≡ false = ground arith in
            elim (Bool-cases (b == 0)) [
              | inl free ↦
                  rw (inside, narrow, free)
                    (joined-ScanTo cluster start len some_wanted two (ground arith)
                      (sym is ∙ ground arith) to)
              | inr set ↦
                  let one : bit cluster ≡ 1 = (let h : b ≡ 1 = ground arith in sym is ∙ h) in
                  rw (inside, narrow, set)
                    (
                      refl,
                      NoRun-set cluster some_wanted one (NoRun-RunTo cluster start len to),
                      inr (
                        omega arith,
                        ap bit {x = cluster + 1 - 1} {y = cluster} (omega arith) ∙ one,
                      ),
                    )
            ]
      ]

  scan_on-ScanTo :
      (mid past : ℕ) (scan : Scan) (k : Option ℕ → ℕ → Scan)
      → ScanTo mid scan
      → ((start : Option ℕ) (len : ℕ) → RunTo mid start len → ScanTo past (k start len))
      → ScanTo past (scan_on scan k)
  scan_on-ScanTo mid past (Scan.answer a) k found rest = found
  scan_on-ScanTo mid past Scan.overflow k none_left rest = none_left
  scan_on-ScanTo mid past (Scan.run start len) k to rest = rest start len to

  scan_byte-ScanTo :
      (n j b cluster : ℕ) (start : Option ℕ) (len : ℕ)
      → 0 < count
      → last ≤ u32_max
      → 2 ≤ cluster
      → ((i : ℕ) → i < 8 → bit_of b i ≡ bit (cluster + i))
      → j + n ≤ 8
      → RunTo (cluster + j) start len
      → ScanTo (cluster + (j + n)) (scan_byte last count n j b cluster start len)
  unfolding scan_byte
  scan_byte-ScanTo zero j b cluster start len some_wanted fits two bits le to =
      subst (λ c. RunTo c start len) {x = cluster + j} {y = cluster + (j + 0)} (omega arith) to
  scan_byte-ScanTo (suc n) j b cluster start len some_wanted fits two bits le to =
      let end : cluster + (j + suc n) ≡ cluster + (j + 1 + n) = omega arith in
      let next : cluster + j + 1 ≡ cluster + (j + 1) = omega arith in
      let is = bits j (omega arith) in
      scan_on-ScanTo (cluster + j + 1) (cluster + (j + suc n))
        (scan_bit last count (bit_of b j) (cluster + j) start len)
        (λ start' len'. scan_byte last count n (j + 1) b cluster start' len')
        (scan_bit-ScanTo (cluster + j) (bit_of b j) start len some_wanted fits (omega arith) is
          (bit_of-small b j) to)
        (λ start' len' to'.
          subst (λ p. ScanTo p (scan_byte last count n (j + 1) b cluster start' len')) (sym end)
            (scan_byte-ScanTo n (j + 1) b cluster start' len' some_wanted fits two bits
              (omega arith) (subst (λ c. RunTo c start' len') next to')))

  pub scan_window-ScanTo :
      (f : Image) (base n i : ℕ) (start : Option ℕ) (len : ℕ)
      → 0 < count
      → last ≤ u32_max
      → ((c : ℕ) → 2 ≤ c → bit c ≡ bit_at f base (c - 2))
      → RunTo (2 + i * 8) start len
      → ScanTo (2 + (i + n) * 8) (scan_window last count (slice f (base + i) n) i start len)
  unfolding scan_window slice
  scan_window-ScanTo f base zero i start len some_wanted fits bits to =
      subst (λ c. RunTo c start len) {x = 2 + i * 8} {y = 2 + (i + 0) * 8} (omega arith) to
  scan_window-ScanTo f base (suc n) i start len some_wanted fits bits to =
      let end : 2 + (i + 1 + n) * 8 ≡ 2 + (i + suc n) * 8 = omega arith in
      let next : 2 + i * 8 + (0 + 8) ≡ 2 + (i + 1) * 8 = omega arith in
      let here : 2 + i * 8 ≡ 2 + i * 8 + 0 = omega arith in
      let place : base + (i + 1) ≡ base + i + 1 = omega arith in
      scan_on-ScanTo (2 + i * 8 + (0 + 8)) (2 + (i + suc n) * 8)
        (scan_byte last count 8 0 (f (base + i)) (2 + i * 8) start len)
        (λ start' len'. scan_window last count (slice f (base + i + 1) n) (i + 1) start' len')
        (scan_byte-ScanTo 8 0 (f (base + i)) (2 + i * 8) start len some_wanted fits (omega arith)
          (λ j lt.
            sym (bit_at-byte f base i j lt)
            ∙ ap (bit_at f base) {x = i * 8 + j} {y = 2 + i * 8 + j - 2} (omega arith)
            ∙ sym (bits (2 + i * 8 + j) (omega arith)))
          (omega arith) (subst (λ c. RunTo c start len) here to))
        (λ start' len' to'.
          subst
            (λ p. ScanTo p (scan_window last count (slice f (base + i + 1) n) (i + 1) start' len'))
            end
            (subst
              (λ p.
                ScanTo (2 + (i + 1 + n) * 8)
                  (scan_window last count (slice f p n) (i + 1) start' len'))
              place
              (scan_window-ScanTo f base n (i + 1) start' len' some_wanted fits bits
                (subst (λ c. RunTo c start' len') next to'))))
